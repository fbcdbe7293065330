-- ===== src/Udp/Blocking.antt =====
-- crates/mio/src/udp.rs: a packet that the socket refuses stays at the head of the queue.
use rtt.Prelude.{
  ◌≤◌, ◌≡◌, ◌≢◌, refl, inl, inr, List, [], ◌∷◌, ◌++◌, le→ltb, value, Returns, Bool-cases, length,
  length-append, arith,
}
use rtt.Prelude.Io.{err, ErrorKind, would_block, not_found, broken_pipe, other}
use rtt.Api.{io_would_block}
use rtt.FixedBuf.{readable_buf_filled}
use rtt.Udp.{
  UdpSocket, io, io_error, Packet, QuicSocket, flush_queue, flush, try_flush, enqueue, send_to,
  full, unless_blocked,
}
use rtt.Udp.Flushing.{payload}

hard_lem : (x : ErrorKind) → x ≢ would_block → unless_blocked (io_would_block (err x)) ≡ err (io x)
unfolding io_would_block
hard_lem ErrorKind.would_block h = absurd (h refl)
hard_lem not_found h = refl
hard_lem broken_pipe h = refl
hard_lem other h = refl

module _ (u : UdpSocket) (p : Packet) (x : ErrorKind) where
  -- The socket never takes the packet, in whatever state it is.
  abbrev pub Refuses : Type 0
  Refuses = (s : u.Socket) → (u.send_to s (payload p) p.1).1 ≡ err x

  -- a socket with the packet at the head of its queue
  abbrev pub headed : QuicSocket u → List Packet → QuicSocket u
  headed q rest = record q { sending = p ∷ rest }

  flush_queue_refused :
      (s : u.Socket) (rest : List Packet)
      → p.0.len ≤ length p.0.buf
      → Refuses
      → flush_queue u s (p ∷ rest) ≡ value ((u.send_to s (payload p) p.1).0, p ∷ rest, err (io x))
  unfolding flush_queue
  flush_queue_refused s rest k h = rw (readable_buf_filled p.0 k, h s, flush_queue)

  try_flush_refused :
      (q : QuicSocket u) (rest : List Packet)
      → p.0.len ≤ length p.0.buf
      → x ≢ would_block
      → Refuses
      → try_flush u (headed q rest)
        ≡ value
            (record (headed q rest) { socket = (u.send_to q.socket (payload p) p.1).0 }, err (io x))
  unfolding try_flush flush io_error
  try_flush_refused q rest k hard h = rw (flush_queue_refused q.socket rest k h, hard_lem x hard)

  -- If the socket never takes the packet at the head of the queue, with an error that is not that
  -- it would block, then sending any packet fails with this error, and the refused packet is at
  -- the head of the queue still.
  pub send_to_refused :
      (q : QuicSocket u) (rest : List Packet) (next : Packet)
      → p.0.len ≤ length p.0.buf
      → x ≢ would_block
      → length (p ∷ rest) ≤ q.sending_buffer_limits
      → Refuses
      → Returns
          (send_to u (headed q rest) next.0 next.1)
          λ t. (t.1 ≡ err (io x)) × (later : List Packet) × (t.0.sending ≡ p ∷ later)
  unfolding send_to enqueue
  send_to_refused q rest next k hard room h = elim (Bool-cases (full u (headed q rest))) [
    | inl f ↦ rw (f, try_flush_refused q rest k hard h) (refl, rest, refl)
    | inr f ↦
        let fits : length (p ∷ (rest ++ (next ∷ []))) ≤ q.sending_buffer_limits =
          ground (arith, length-append rest (next ∷ [])) in
        rw
          (
            f,
            f,
            le→ltb q.sending_buffer_limits (length (p ∷ (rest ++ (next ∷ [])))) fits,
            try_flush_refused q (rest ++ (next ∷ [])) k hard h,
          )
          (refl, rest ++ (next ∷ []), refl)
  ]
