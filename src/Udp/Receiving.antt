-- ===== src/Udp/Receiving.antt =====
-- crates/mio/src/udp.rs: `recv_from` fills a buffer with a packet.
use rtt.Prelude.{ℕ, ◌≤◌, ◌≡◌, refl, inl, inr, List, take, length, Returns, value, arith, subst}
use rtt.Prelude.Io.{Result, ok, err, IoResult, Result-cases}
use rtt.Net.{SocketAddr}
use rtt.FixedBuf.{ArrayBuf, writable_consume_lem, readable_buf, readable_buf_filled}
use rtt.Udp.{UdpSocket, Fits, buf_size, QuicSocketError, io, QuicSocket, recv_from}

module _ (u : UdpSocket) where
  pub recv_from_ok :
      (q : QuicSocket u) (buf : ArrayBuf) (size : ℕ) (from : SocketAddr)
      → length buf.buf ≡ buf_size
      → (u.recv_from q.socket buf.buf).2 ≡ ok (size, from)
      → (recv_from u q buf
          ≡ value (
            record q { socket = (u.recv_from q.socket buf.buf).0 },
            record { buf = (u.recv_from q.socket buf.buf).1; len = size },
            ok from,
          ))
        × (size ≤ buf_size)
        × (length (u.recv_from q.socket buf.buf).1 ≡ buf_size)
  unfolding recv_from
  recv_from_ok q buf size from h e =
      let bytes = (u.recv_from q.socket buf.buf).1 in
      let fits : (length bytes ≡ length buf.buf) × (size ≤ length buf.buf) =
        subst (λ r. Fits buf.buf (bytes, r)) e (u.recv_from_fits q.socket buf.buf) in
      (
        rw (
          e,
          recv_from,
          writable_consume_lem buf_size (record buf { buf = bytes }) size (omega arith),
        ),
        omega arith,
        omega arith,
      )

  -- What the socket's answer makes of the buffer: its readable bytes are those received, or an error
  -- is handed on; the buffer keeps its memory.
  abbrev pub ReceivedBy :
      ArrayBuf
      → IoResult (ℕ × SocketAddr)
      → List ℕ
      → QuicSocket u × ArrayBuf × Result QuicSocketError SocketAddr
      → Type 0
  ReceivedBy buf (ok (size, from)) bytes t =
      (t.2 ≡ ok from)
      × (readable_buf t.1 ≡ value (take size bytes))
      × (t.1.len ≡ size)
      × (length t.1.buf ≡ buf_size)
  ReceivedBy buf (err x) bytes t =
      (t.2 ≡ err (io x)) × (t.1.len ≡ buf.len) × (length t.1.buf ≡ buf_size)

  -- Receiving into a buffer of the right memory never panics: the readable bytes are those that the
  -- socket received, or its error is handed on and the buffer holds as much as before.
  pub recv_from-Received :
      (q : QuicSocket u) (buf : ArrayBuf)
      → length buf.buf ≡ buf_size
      → Returns (recv_from u q buf) λ t.
        ReceivedBy buf (u.recv_from q.socket buf.buf).2 (u.recv_from q.socket buf.buf).1 t
        × (t.0 ≡ record q { socket = (u.recv_from q.socket buf.buf).0 })
  unfolding recv_from
  recv_from-Received q buf h =
      let bytes = (u.recv_from q.socket buf.buf).1 in
      elim (Result-cases (u.recv_from q.socket buf.buf).2) [
        | inl ((size, from), e) ↦
            let (runs, small, whole) = recv_from_ok q buf size from h e in
            rw (runs, e)
              (
                (
                  refl,
                  readable_buf_filled (record { buf = bytes; len = size }) (omega arith),
                  refl,
                  whole,
                ),
                refl,
              )
        | inr (x, e) ↦
            let fits : length bytes ≡ length buf.buf =
              subst (λ r. Fits buf.buf (bytes, r)) e (u.recv_from_fits q.socket buf.buf) in
            rw (e, recv_from) ((refl, refl, omega arith), refl)
      ]
