-- ===== src/Udp/Flushing.antt =====
-- crates/mio/src/udp.rs: `flush` sends the packets of the queue in order, up to the first that the
-- socket does not take.
use rtt.Prelude.{
  ℕ, ◌≤◌, ◌≡◌, refl, inl, inr, ap, Option, none, some, List, [], ◌∷◌, ◌++◌, Returns, Returns_bind,
  Returns_weaken, length, take,
}
use rtt.Prelude.Io.{Result, ok, err, Result-cases}
use rtt.FixedBuf.{readable_buf_filled}
use rtt.Udp.{UdpSocket, QuicSocketError, io, Packet, QuicSocket, flush_queue, flush}

-- the bytes of a packet
abbrev pub payload : Packet → List ℕ
payload p = take p.0.len p.0.buf

-- The packets are no longer than their memory.
abbrev pub AreFilled : List Packet → Type 0
AreFilled [] = Unit {0}
AreFilled (p ∷ ps) = (p.0.len ≤ length p.0.buf) × AreFilled ps

module _ (u : UdpSocket) where
  -- the socket after it took all the packets, if it takes them
  pub all_sent : u.Socket → List Packet → Option u.Socket
  all_sent s [] = some s
  all_sent s (p ∷ ps) = elim (u.send_to s (payload p) p.1).1 [
    | ok size ↦ all_sent (u.send_to s (payload p) p.1).0 ps
    | err x ↦ none
  ]

  -- How a flush ends, where `after` is the socket after it took the packets sent: the queue is empty,
  -- or its first packet is refused.
  abbrev pub Ends : u.Socket → u.Socket × List Packet × Result QuicSocketError (Unit {0}) → Type 0
  Ends after (s, rest, ok t) = (rest ≡ []) × (s ≡ after)
  Ends after (s, p ∷ rest, err (io x)) = u.send_to after (payload p) p.1 ≡ (s, err x)
  Ends after (s, rest, err x) = ⊥

  pub record Flushed (s : u.Socket) (queue : List Packet)
      (t : u.Socket × List Packet × Result QuicSocketError (Unit {0})) : Type 0 where
    pub sent : List Packet
    pub after : u.Socket
    pub split : queue ≡ sent ++ t.1
    pub delivered : all_sent s sent ≡ some after
    pub ends : Ends after t

  one_more :
      (s : u.Socket) (p : Packet) (rest : List Packet) (size : ℕ)
      (t : u.Socket × List Packet × Result QuicSocketError (Unit {0}))
      → (u.send_to s (payload p) p.1).1 ≡ ok size
      → Flushed (u.send_to s (payload p) p.1).0 rest t
      → Flushed s (p ∷ rest) t
  unfolding all_sent
  one_more s p rest size t e f = record {
    sent = p ∷ f.sent;
    after = f.after;
    split = ap (◌∷◌ p) f.split;
    delivered = rw (e, all_sent) f.delivered;
    ends = f.ends;
  }

  flush_queue-Flushed :
      (s : u.Socket) (queue : List Packet)
      → AreFilled queue
      → Returns (flush_queue u s queue) (Flushed s queue)
  unfolding flush_queue all_sent
  flush_queue-Flushed s [] h = record {
    sent = [];
    after = s;
    split = refl;
    delivered = refl;
    ends = (refl, refl);
  }
  flush_queue-Flushed s ((buf, target) ∷ rest) h =
      let p : Packet = (buf, target) in
      elim (Result-cases (u.send_to s (payload p) target).1) [
        | inl (size, e) ↦
            rw (readable_buf_filled buf h.0, e, flush_queue)
              (Returns_weaken _ _ _
                (flush_queue-Flushed (u.send_to s (payload p) target).0 rest h.1)
                (λ t f. one_more s p rest size t e f))
        | inr (x, e) ↦
            rw (readable_buf_filled buf h.0, e, flush_queue)
              (record {
                sent = [];
                after = s;
                split = refl;
                delivered = refl;
                ends = ap (λ r. ((u.send_to s (payload p) target).0, r)) e;
              })
      ]

  -- Flushing a queue whose packets have their bytes never panics. The socket takes a prefix of
  -- the packets in order; it ends with an empty queue, or with the error of the socket for the
  -- first packet that is left, which stays in the queue.
  pub flush-Flushed :
      (q : QuicSocket u)
      → AreFilled q.sending
      → Returns (flush u q) λ t.
        Flushed q.socket q.sending (t.0.socket, t.0.sending, t.1)
        × (t.0.sending_buffer_limits ≡ q.sending_buffer_limits)
        × (t.0.local_addr ≡ q.local_addr)
  unfolding flush
  flush-Flushed q h =
      Returns_bind _ (flush_queue u q.socket q.sending) _ (flush_queue-Flushed q.socket q.sending h)
        λ t f. (f, refl, refl)
