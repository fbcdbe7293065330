-- ===== src/Udp/Bounds.antt =====
-- crates/mio/src/udp.rs: the queue of a socket stays within its limit, whatever its packets are.
use rtt.Prelude.{
  ◌≤◌, ◌<◌, ◌≡◌, refl, ◌∙◌, inl, inr, List, [], ◌∷◌, ◌++◌, ==_iff, value, length, length-append,
  IfReturns, IfReturns_bind, IfReturns_chain, IfReturns_then, IfReturns_weaken, IfReturns_if,
  assert, not, ltb, if◌then◌else◌, arith,
}
use rtt.Prelude.Io.{ok, Result-cases}
use rtt.FixedBuf.{ArrayBuf, readable_buf}
use rtt.FixedBuf
use rtt.Net.{SocketAddr}
use rtt.Udp.{
  UdpSocket, Packet, QuicSocket, flush_queue, flush, try_flush, enqueue, send_to, full, recv_from,
  buf_size,
}

module _ (u : UdpSocket) where
  -- The socket keeps its address and its limit, and its queue is within that.
  pub record Kept (q s : QuicSocket u) : Type 0 where
    pub bounded : length s.sending ≤ q.sending_buffer_limits
    pub limits : s.sending_buffer_limits ≡ q.sending_buffer_limits
    pub address : s.local_addr ≡ q.local_addr

  Kept-trans : {q r s : QuicSocket u} → Kept q r → Kept r s → Kept q s
  Kept-trans h k = record {
    bounded = omega (arith, h.limits, k.bounded);
    limits = k.limits ∙ h.limits;
    address = k.address ∙ h.address;
  }

  flush_queue_shorter :
      (s : u.Socket) (queue : List Packet)
      → IfReturns (flush_queue u s queue) (λ t. length t.1 ≤ length queue)
  unfolding flush_queue
  flush_queue_shorter s [] = omega arith
  flush_queue_shorter s ((buf, target) ∷ rest) = IfReturns_then _ (readable_buf buf) _ (λ bytes.
      let (s', r) = u.send_to s bytes target in
      elim (Result-cases r) [
        | inl (size, h) ↦ rw h (
            IfReturns_weaken _ _ (flush_queue u s' rest) (flush_queue_shorter s' rest)
              (λ t l. omega arith))
        | inr (x, h) ↦ rw h (omega arith)
      ])

  pub flush-Kept :
      (q : QuicSocket u)
      → length q.sending ≤ q.sending_buffer_limits
      → IfReturns (flush u q) (λ t. Kept q t.0)
  unfolding flush
  flush-Kept q h = IfReturns_bind _ (flush_queue u q.socket q.sending) _ (
      IfReturns_weaken _ _ (flush_queue u q.socket q.sending)
        (flush_queue_shorter q.socket q.sending)
        λ t l. record { bounded = omega arith; limits = refl; address = refl })

  try_flush-Kept :
      (q : QuicSocket u)
      → length q.sending ≤ q.sending_buffer_limits
      → IfReturns (try_flush u q) (λ t. Kept q t.0)
  unfolding try_flush
  try_flush-Kept q h = IfReturns_bind _ (flush u q) _ (flush-Kept q h)

  enqueue-Kept :
      (q : QuicSocket u) (buf : ArrayBuf) (target : SocketAddr)
      → length q.sending ≤ q.sending_buffer_limits
      → IfReturns (enqueue u q buf target) (λ t. Kept q t.0)
  unfolding enqueue
  enqueue-Kept q buf target h =
      let longer : QuicSocket u = record q { sending = q.sending ++ ((buf, target) ∷ []) } in
      let size = length-append q.sending ((buf, target) ∷ []) in
      IfReturns_if _ (full u q) _ _ (λ e. record { bounded = h; limits = refl; address = refl })
        λ e.
          let room : length q.sending < q.sending_buffer_limits =
            ground (arith, ==_iff (length q.sending) q.sending_buffer_limits) in
          IfReturns_then _ (assert (not (ltb q.sending_buffer_limits (length longer.sending)))) _
            λ b.
              IfReturns_chain {P = λ t. Kept longer t.0} _ (try_flush u longer) _
                (try_flush-Kept longer (omega arith))
                λ t f.
                  let kept : Kept q t.0 = record {
                    bounded = f.bounded;
                    limits = f.limits;
                    address = f.address;
                  } in
                  elim (Result-cases t.1) [ inl (n, g) ↦ rw g kept | inr (x, g) ↦ rw g kept ]

  -- A packet is queued within the limit, or not at all.
  pub send_to-Kept :
      (q : QuicSocket u) (buf : ArrayBuf) (target : SocketAddr)
      → length q.sending ≤ q.sending_buffer_limits
      → IfReturns (send_to u q buf target) (λ t. Kept q t.0)
  unfolding send_to
  send_to-Kept q buf target h =
      let room = if full u q then try_flush u q else value (q, ok tt) in
      let kept : IfReturns room (λ t. Kept q t.0) =
        IfReturns_if _ (full u q) (try_flush u q) _ (λ e. try_flush-Kept q h)
          (λ e. record { bounded = h; limits = refl; address = refl }) in
      IfReturns_chain {P = λ t. Kept q t.0} _ room _ kept λ t k. elim (Result-cases t.1) [
        | inr (x, g) ↦ rw g k
        | inl (n, g) ↦ rw g (
            IfReturns_weaken _ _ (enqueue u t.0 buf target)
              (enqueue-Kept t.0 buf target (omega (arith, k.bounded, k.limits)))
              (λ s j. Kept-trans k j))
      ]

  pub recv_from-Kept :
      (q : QuicSocket u) (buf : ArrayBuf)
      → length q.sending ≤ q.sending_buffer_limits
      → IfReturns (recv_from u q buf) (λ t. Kept q t.0)
  unfolding recv_from
  recv_from-Kept q buf h =
      let kept : Kept q (record q { socket = (u.recv_from q.socket buf.buf).0 }) = record {
        bounded = h;
        limits = refl;
        address = refl;
      } in
      elim (Result-cases (u.recv_from q.socket buf.buf).2) [
        | inr (x, g) ↦ rw (g, recv_from) kept
        | inl ((size, from), g) ↦
            rw (g, recv_from)
              (IfReturns_then _
                (FixedBuf.writable_consume buf_size
                  (record buf { buf = (u.recv_from q.socket buf.buf).1 }) size)
                _ λ b. kept)
      ]
