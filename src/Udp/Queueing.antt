-- ===== src/Udp/Queueing.antt =====
-- crates/mio/src/udp.rs: `send_to` keeps the queue within its limit, and the packets in order.
use rtt.Prelude.{
  ℕ, ◌≤◌, ◌<◌, ◌≡◌, ◌≢◌, ◌⊎◌, refl, inl, inr, ◌∙◌, ap, sym, List, [], ◌∷◌, ◌++◌, append_assoc,
  ==_iff, le→ltb, if◌then◌else◌, value, Returns, Returns_bind, Returns_weaken, Returns_if, subst,
  length, length-append, arith,
}
use rtt.Prelude.Io.{Result, ok, err, ErrorKind, would_block, not_found, broken_pipe, other}
use rtt.Api.{io_would_block}
use rtt.FixedBuf.{ArrayBuf}
use rtt.Udp.{
  UdpSocket, QuicSocketError, io, is_full, io_error, Packet, QuicSocket, flush, try_flush, enqueue,
  send_to, full, from_socket, unless_blocked,
}
use rtt.Udp.Flushing.{AreFilled, flush-Flushed, Ends}

AreFilled-suffix : (ps qs : List Packet) → AreFilled (ps ++ qs) → AreFilled qs
AreFilled-suffix [] qs h = h
AreFilled-suffix (p ∷ ps) qs h = AreFilled-suffix ps qs h.1

AreFilled-snoc :
    (ps : List Packet) (p : Packet)
    → AreFilled ps
    → p.0.len ≤ length p.0.buf
    → AreFilled (ps ++ (p ∷ []))
AreFilled-snoc [] p h k = (k, tt)
AreFilled-snoc (q ∷ ps) p h k = (h.0, AreFilled-snoc ps p h.1 k)

-- an error of the socket that is not that it would block
abbrev pub IsHard : {A : Type 0} → Result QuicSocketError A → Type 0
IsHard (ok a) = Unit {0}
IsHard (err (io x)) = x ≢ would_block
IsHard (err (is_full buf)) = ⊥

module _ (u : UdpSocket) where
  -- a flush that may block
  record Tried (q : QuicSocket u) (t : QuicSocket u × Result QuicSocketError (Unit {0}))
      : Type 0 where
    sent : List Packet
    split : q.sending ≡ sent ++ t.0.sending
    limits : t.0.sending_buffer_limits ≡ q.sending_buffer_limits
    address : t.0.local_addr ≡ q.local_addr
    filled : AreFilled t.0.sending
    hard : IsHard t.1

  no_full :
      (after s : u.Socket) (rest : List Packet) (buf : ArrayBuf)
      → ¬ Ends u after (s, rest, err (is_full buf))
  no_full after s [] buf h = h
  no_full after s (p ∷ rest) buf h = h

  unless_blocked-IsHard :
      (after s : u.Socket) (rest : List Packet) (r : Result QuicSocketError (Unit {0}))
      → Ends u after (s, rest, r)
      → IsHard (unless_blocked (io_would_block (from_socket r)))
  unfolding io_would_block io_error
  unless_blocked-IsHard after s rest (ok t) h = tt
  unless_blocked-IsHard after s rest (err (is_full buf)) h = absurd (no_full after s rest buf h)
  unless_blocked-IsHard after s rest (err (io ErrorKind.would_block)) h = tt
  unless_blocked-IsHard after s rest (err (io not_found)) h = λ e. cc
  unless_blocked-IsHard after s rest (err (io broken_pipe)) h = λ e. cc
  unless_blocked-IsHard after s rest (err (io other)) h = λ e. cc

  try_flush-Tried : (q : QuicSocket u) → AreFilled q.sending → Returns (try_flush u q) (Tried q)
  unfolding try_flush
  try_flush-Tried q h = Returns_bind _ (flush u q) _ (flush-Flushed u q h) λ t f. record {
    sent = f.0.sent;
    split = f.0.split;
    limits = f.1;
    address = f.2;
    filled = AreFilled-suffix f.0.sent t.0.sending (subst AreFilled f.0.split h);
    hard = unless_blocked-IsHard f.0.after t.0.socket t.0.sending t.1 f.0.ends;
  }

  -- What became of the packets: those that are not queued any more were sent, in order.
  abbrev pub Outcome : List Packet → Packet → ℕ → List Packet → Result QuicSocketError ℕ → Type 0
  Outcome before p limit left (ok n) =
      (n ≡ length left) × (sent : List Packet) × (before ++ (p ∷ []) ≡ sent ++ left)
  Outcome before p limit left (err (is_full buf)) =
      (buf ≡ p.0) × (left ≡ before) × (length before ≡ limit)
  Outcome before p limit left (err (io x)) =
      (x ≢ would_block)
      × (sent : List Packet) × ((before ≡ sent ++ left) ⊎ (before ++ (p ∷ []) ≡ sent ++ left))

  pub record Queued (q : QuicSocket u) (p : Packet) (t : QuicSocket u × Result QuicSocketError ℕ)
      : Type 0 where
    pub bounded : length t.0.sending ≤ q.sending_buffer_limits
    pub filled : AreFilled t.0.sending
    pub limits : t.0.sending_buffer_limits ≡ q.sending_buffer_limits
    pub address : t.0.local_addr ≡ q.local_addr
    pub outcome : Outcome q.sending p q.sending_buffer_limits t.0.sending t.1

  settled-Queued :
      (q s : QuicSocket u) (p : Packet) (r : Result QuicSocketError (Unit {0}))
      → length q.sending < q.sending_buffer_limits
      → Tried (record q { sending = q.sending ++ (p ∷ []) }) (s, r)
      → Returns
          (elim r [ ok t ↦ value (s, ok (length s.sending)) | err x ↦ value (s, err x) ])
          (Queued q p)
  settled-Queued q s p (ok t) room f = record {
    bounded = omega (
      arith,
      ap length f.split,
      length-append f.sent s.sending,
      length-append q.sending (p ∷ []),
    );
    filled = f.filled;
    limits = f.limits;
    address = f.address;
    outcome = (refl, f.sent, f.split);
  }
  settled-Queued q s p (err (io x)) room f = record {
    bounded = omega (
      arith,
      ap length f.split,
      length-append f.sent s.sending,
      length-append q.sending (p ∷ []),
    );
    filled = f.filled;
    limits = f.limits;
    address = f.address;
    outcome = (f.hard, f.sent, inr f.split);
  }
  settled-Queued q s p (err (is_full buf)) room f = absurd f.hard

  enqueue-Queued :
      (q : QuicSocket u) (p : Packet)
      → AreFilled q.sending
      → p.0.len ≤ length p.0.buf
      → length q.sending ≤ q.sending_buffer_limits
      → Returns (enqueue u q p.0 p.1) (Queued q p)
  unfolding enqueue
  enqueue-Queued q p h k room =
      Returns_if (Queued q p) (full u q) _ _
        (λ f. record {
          bounded = room;
          filled = h;
          limits = refl;
          address = refl;
          outcome = (refl, refl, (==_iff _ _).0 f);
        })
        λ f.
          let q' : QuicSocket u = record q { sending = q.sending ++ (p ∷ []) } in
          let one_more = length-append q.sending (p ∷ []) in
          let fits : length q'.sending ≤ q.sending_buffer_limits = ground arith in
          rw (le→ltb q.sending_buffer_limits (length q'.sending) fits) (
            Returns_bind {P = Tried q'} _ (try_flush u q') _
              (try_flush-Tried q' (AreFilled-snoc q.sending p h k))
              λ t f. settled-Queued q t.0 p t.1 (omega (arith, one_more)) f)

  -- The packets sent before count with those sent later.
  later-Outcome :
      (sent before left : List Packet) (p : Packet) (limit : ℕ) (r : Result QuicSocketError ℕ)
      → length (sent ++ before) ≤ limit
      → Outcome before p limit left r
      → Outcome (sent ++ before) p limit left r
  later-Outcome sent before left p limit (ok n) small (count, more, split) = (
    count,
    sent ++ more,
    append_assoc sent before (p ∷ []) ∙ ap (◌++◌ sent) split ∙ sym (append_assoc sent more left),
  )
  later-Outcome [] before left p limit (err (is_full buf)) small h = h
  later-Outcome (s ∷ ss) before left p limit (err (is_full buf)) small h =
      absurd (omega (arith, h.2, length-append ss before))
  later-Outcome sent before left p limit (err (io x)) small (hard, more, inl split) =
      (hard, sent ++ more, inl (ap (◌++◌ sent) split ∙ sym (append_assoc sent more left)))
  later-Outcome sent before left p limit (err (io x)) small (hard, more, inr split) = (
    hard,
    sent ++ more,
    inr (
        append_assoc sent before (p ∷ [])
        ∙ ap (◌++◌ sent) split
        ∙ sym (append_assoc sent more left)),
  )

  later-Queued :
      (q q' : QuicSocket u) (p : Packet) (sent : List Packet)
      (t : QuicSocket u × Result QuicSocketError ℕ)
      → q.sending ≡ sent ++ q'.sending
      → q'.sending_buffer_limits ≡ q.sending_buffer_limits
      → q'.local_addr ≡ q.local_addr
      → length q.sending ≤ q.sending_buffer_limits
      → Queued q' p t
      → Queued q p t
  later-Queued q q' p sent t split limits address small f = record {
    bounded = omega (arith, f.bounded, limits);
    filled = f.filled;
    limits = f.limits ∙ limits;
    address = f.address ∙ address;
    outcome =
        subst (λ b. Outcome b p q.sending_buffer_limits t.0.sending t.1) (sym split)
          (later-Outcome sent q'.sending t.0.sending p q.sending_buffer_limits t.1
            (omega (arith, ap length split))
            (subst (λ n. Outcome q'.sending p n t.0.sending t.1) limits f.outcome));
  }

  after_flush-Queued :
      (q s : QuicSocket u) (p : Packet) (r : Result QuicSocketError (Unit {0}))
      → p.0.len ≤ length p.0.buf
      → length q.sending ≤ q.sending_buffer_limits
      → Tried q (s, r)
      → Returns (elim r [ ok t ↦ enqueue u s p.0 p.1 | err x ↦ value (s, err x) ]) (Queued q p)
  after_flush-Queued q s p (ok t) k room f =
      let shorter : length s.sending ≤ s.sending_buffer_limits =
        omega (arith, ap length f.split, length-append f.sent s.sending, f.limits) in
      Returns_weaken (Queued s p) (Queued q p) (enqueue u s p.0 p.1)
        (enqueue-Queued s p f.filled k shorter)
        λ t e. later-Queued q s p f.sent t f.split f.limits f.address room e
  after_flush-Queued q s p (err (io x)) k room f = record {
    bounded = omega (arith, ap length f.split, length-append f.sent s.sending);
    filled = f.filled;
    limits = f.limits;
    address = f.address;
    outcome = (f.hard, f.sent, inl f.split);
  }
  after_flush-Queued q s p (err (is_full buf)) k room f = absurd f.hard

  -- Sending a packet on a socket whose queue is within its limit never panics and keeps the queue
  -- within the limit. On success the packets that are queued now are what is left, in order, of
  -- those queued before and the new one, and their number is returned; if the queue is full the
  -- packet is handed back, the queue is as it was and at its limit; a hard error leaves the queue
  -- with or without the new packet, less a prefix, and is never that it would block.
  pub send_to-Queued :
      (q : QuicSocket u) (p : Packet)
      → AreFilled q.sending
      → p.0.len ≤ length p.0.buf
      → length q.sending ≤ q.sending_buffer_limits
      → Returns (send_to u q p.0 p.1) (Queued q p)
  unfolding send_to
  send_to-Queued q p h k room =
      Returns_bind {P = Tried q} (Queued q p) (if full u q then try_flush u q else value (q, ok tt))
        _
        (Returns_if (Tried q) (full u q) _ _ (λ f. try_flush-Tried q h)
          (λ f. record {
            sent = [];
            split = refl;
            limits = refl;
            address = refl;
            filled = h;
            hard = tt;
          }))
        λ t f. after_flush-Queued q t.0 p t.1 k room f
