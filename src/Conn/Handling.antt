-- ===== src/Conn/Handling.antt =====
-- crates/poll/src/conn.rs: the handlers of `unlock` end, and keep what `Frame` says.
use rtt.Prelude.{
  ℕ, zero, suc, ◌<◌, ◌≡◌, refl, inl, inr, Bool, true, false, not, none, some, List, [], ◌∷◌, arith,
  Bool-cases, Option-cases, Returns, Returns_bind, Returns_weaken, ◌&&◌,
}
use rtt.Prelude.Collections.{contains, beq_self}
use rtt.Api.{EventKind, is_bidi, is_local}
use rtt.Quiche.{Quiche}
use rtt.Timing.{delay_send}
use rtt.Readiness.{PriorityQueue, Readiness, insert_event}
use rtt.Readiness.View.{IsValid, insert_event-IsValid, remove_event-IsValid}
use rtt.Conn.{LocKind, LocKind-discrete, need_retry, Conn}
use rtt.Conn.Frame.{
  AreRetries, Frame, Frame-refl, Frame-trans, make-Frame, wrapped-Frame, insert-Frame, notify-Frame,
  handle_retry-Frame,
}
use rtt.Conn.Handlers.{
  event, handle_retry, handle_retries, handle_retry_events, handle_accept, handle_readable,
  writable_loop, readable_loop, handle_stream_state_changed, handle_send, handle_established,
  handle_state_changed, is_first, remote_seen,
}

module _ (q : Quiche) (pq : PriorityQueue) where
  AreRetries-tail :
      (kind : LocKind) (kinds : List LocKind) → AreRetries (kind ∷ kinds) → AreRetries kinds
  unfolding contains
  AreRetries-tail kind kinds all other h = all other (ground arith)

  -- Retrying the operations that can be retried never reaches `unreachable!`.
  handle_retries-Frame :
      (kinds : List LocKind) (c : Conn q) (r : Readiness pq)
      → AreRetries kinds
      → Returns (handle_retries q pq c r kinds) (Frame q pq c r)
  unfolding handle_retries contains
  handle_retries-Frame [] c r all = Frame-refl q pq c r
  handle_retries-Frame (kind ∷ kinds) c r all =
      let first : need_retry kind ≡ true = all kind (rw (beq_self LocKind-discrete kind)) in
      Returns_bind (Frame q pq c r) (handle_retry q pq c r kind) _
        (handle_retry-Frame q pq c r kind first)
        λ t f.
          Returns_weaken (Frame q pq t.0 t.1) (Frame q pq c r) (handle_retries q pq t.0 t.1 kinds)
            (handle_retries-Frame kinds t.0 t.1 (AreRetries-tail kind kinds all))
            λ u g. Frame-trans q pq f g

  -- Draining the set of operations that wait: only those put back wait afterwards.
  pub handle_retry_events-Frame :
      (c : Conn q) (r : Readiness pq)
      → AreRetries c.reties
      → Returns (handle_retry_events q pq c r) (Frame q pq c r)
  unfolding handle_retry_events contains
  handle_retry_events-Frame c r all =
      let drained : Frame q pq c r (record c { reties = [] }, r) =
        make-Frame q pq c r r c.wrapped [] _ _ _ refl (λ h kind e. cc) (λ h. h) in
      Returns_weaken (Frame q pq (record c { reties = [] }) r) (Frame q pq c r) _
        (handle_retries-Frame c.reties (record c { reties = [] }) r all)
        λ t f. Frame-trans q pq drained f

  pub handle_accept-Frame :
      (c : Conn q) (r : Readiness pq) (new : ℕ) → Frame q pq c r (handle_accept q pq c r new)
  unfolding handle_accept
  handle_accept-Frame c r new = elim (Bool-cases (is_first q pq (remote_seen q pq c new) new)) [
    | inl first ↦ elim (Bool-cases (is_bidi new)) [
      | inl two ↦
          rw (first, two)
            (make-Frame q pq c r _ c.wrapped c.reties (some new) _ _ refl (λ h. h)
              (insert_event-IsValid pq r _ none))
      | inr one ↦
          rw (first, one)
            (make-Frame q pq c r _ c.wrapped c.reties _ (some new) _ refl (λ h. h)
              (insert_event-IsValid pq r _ none))
    ]
    | inr again ↦ rw again (insert-Frame q pq c r _ none)
  ]

  handle_readable-Frame :
      (c : Conn q) (r : Readiness pq) (id : ℕ) → Frame q pq c r (handle_readable q pq c r id)
  unfolding handle_readable
  handle_readable-Frame c r id = elim (Bool-cases (is_local id (q.is_server c.wrapped))) [
    | inl own ↦ rw own (insert-Frame q pq c r _ none)
    | inr other ↦ rw other (handle_accept-Frame c r id)
  ]

  -- The first loop ends, with no writable stream left.
  pub writable_loop-Frame :
      (fuel : ℕ) (c : Conn q) (r : Readiness pq)
      → q.writable_count c.wrapped < fuel
      → Returns
          (writable_loop q pq fuel c r)
          λ t. Frame q pq c r t × (q.stream_writable_next t.0.wrapped ≡ none)
  unfolding writable_loop
  writable_loop-Frame zero c r h = elim h [ ]
  writable_loop-Frame (suc fuel) c r h = elim (Option-cases (q.stream_writable_next c.wrapped)) [
    | inl e ↦ rw (e, writable_loop) (Frame-refl q pq c r, e)
    | inr ((id, conn'), e) ↦
        let less = q.writable_next_less c.wrapped conn' id e in
        let c' : Conn q = record c { wrapped = conn' } in
        let r' = insert_event pq r (event q pq c' EventKind.stream_send false id) none in
        let f = notify-Frame q pq c r conn' _ (q.writable_next_same c.wrapped conn' id e) in
        rw (e, writable_loop)
          (Returns_weaken (λ t. Frame q pq c' r' t × (q.stream_writable_next t.0.wrapped ≡ none)) _
            (writable_loop q pq fuel c' r') (writable_loop-Frame fuel c' r' (omega arith))
            λ t g. (Frame-trans q pq f g.0, g.1))
  ]

  handle_readable_wrapped :
      (c : Conn q) (r : Readiness pq) (id : ℕ) → (handle_readable q pq c r id).0.wrapped ≡ c.wrapped
  unfolding handle_readable
  handle_readable_wrapped c r id = elim (Bool-cases (is_local id (q.is_server c.wrapped))) [
    | inl own ↦ rw own
    | inr other ↦ rw other (ground arith)
  ]

  -- The second loop ends, with no readable stream left.
  pub readable_loop-Frame :
      (fuel : ℕ) (c : Conn q) (r : Readiness pq)
      → q.readable_count c.wrapped < fuel
      → Returns
          (readable_loop q pq fuel c r)
          λ t. Frame q pq c r t × (q.stream_readable_next t.0.wrapped ≡ none)
  unfolding readable_loop
  readable_loop-Frame zero c r h = elim h [ ]
  readable_loop-Frame (suc fuel) c r h = elim (Option-cases (q.stream_readable_next c.wrapped)) [
    | inl e ↦ rw (e, readable_loop) (Frame-refl q pq c r, e)
    | inr ((id, conn'), e) ↦
        let less = q.readable_next_less c.wrapped conn' id e in
        let c' : Conn q = record c { wrapped = conn' } in
        let t = handle_readable q pq c' r id in
        let same : t.0.wrapped ≡ conn' = handle_readable_wrapped c' r id in
        let enough : q.readable_count t.0.wrapped < fuel = rw same (omega arith) in
        let f =
          Frame-trans q pq
            (wrapped-Frame q pq c r conn' (q.readable_next_same c.wrapped conn' id e))
            (handle_readable-Frame c' r id) in
        rw (e, readable_loop)
          (Returns_weaken (λ u. Frame q pq t.0 t.1 u × (q.stream_readable_next u.0.wrapped ≡ none))
            (λ u. Frame q pq c r u × (q.stream_readable_next u.0.wrapped ≡ none))
            (readable_loop q pq fuel t.0 t.1) (readable_loop-Frame fuel t.0 t.1 enough)
            λ u g. (Frame-trans q pq f g.0, g.1))
  ]

  -- Both loops, on the fuel that the counts of the queues give.
  pub handle_stream_state_changed-Frame :
      (c : Conn q) (r : Readiness pq)
      → Returns
          (handle_stream_state_changed q pq c r)
          λ t. Frame q pq c r t × (q.stream_readable_next t.0.wrapped ≡ none)
  unfolding handle_stream_state_changed
  handle_stream_state_changed-Frame c r =
      Returns_bind _ (writable_loop q pq (suc (q.writable_count c.wrapped)) c r) _
        (writable_loop-Frame (suc (q.writable_count c.wrapped)) c r (omega arith))
        λ t f.
          Returns_weaken (λ u. Frame q pq t.0 t.1 u × (q.stream_readable_next u.0.wrapped ≡ none))
            (λ u. Frame q pq c r u × (q.stream_readable_next u.0.wrapped ≡ none))
            (readable_loop q pq (suc (q.readable_count t.0.wrapped)) t.0 t.1)
            (readable_loop-Frame (suc (q.readable_count t.0.wrapped)) t.0 t.1 (omega arith))
            λ u g. (Frame-trans q pq f.0 g.0, g.1)

  handle_send-IsValid :
      (c : Conn q) (r : Readiness pq) (now : ℕ) (send_done : Bool)
      → IsValid pq r
      → IsValid pq (handle_send q pq c r now send_done)
  unfolding handle_send
  handle_send-IsValid c r now send_done v =
      elim (Option-cases (delay_send q c.wrapped now send_done)) [
        | inl e ↦ elim (Bool-cases send_done) [
          | inl t ↦ rw (e, handle_send, t) (remove_event-IsValid pq r _ v)
          | inr t ↦ rw (e, handle_send, t) (insert_event-IsValid pq r _ none v)
        ]
        | inr (at, e) ↦ rw (e, handle_send) (insert_event-IsValid pq r _ (some at) v)
      ]

  pub handle_send-Frame :
      (c : Conn q) (r : Readiness pq) (now : ℕ) (send_done : Bool)
      → Frame q pq c r (c, handle_send q pq c r now send_done)
  handle_send-Frame c r now send_done =
      make-Frame q pq c r _ c.wrapped c.reties _ _ _ refl (λ h. h)
        (handle_send-IsValid c r now send_done)

  -- `handle_state_changed` reports whether the connection is closed, and changes only the mark that it
  -- is established.
  pub handle_state_changed-Frame :
      (c : Conn q) (r : Readiness pq)
      → let t = handle_state_changed q pq c r in
        Frame q pq c r (t.0, t.1) × (t.2 ≡ q.is_closed c.wrapped) × (t.0.wrapped ≡ c.wrapped)
  unfolding handle_state_changed handle_established
  handle_state_changed-Frame c r =
      elim (Bool-cases (not c.established && q.is_established c.wrapped)) [
        | inl up ↦ elim (Bool-cases (q.is_closed c.wrapped)) [
          | inl over ↦
              rw (up, over)
                (
                  make-Frame q pq c r _ c.wrapped c.reties _ _ true refl (λ h. h)
                      (λ v. insert_event-IsValid pq _ _ none (insert_event-IsValid pq r _ none v)),
                  refl,
                  refl,
                )
          | inr live ↦
              rw (up, live)
                (
                  make-Frame q pq c r _ c.wrapped c.reties _ _ true refl (λ h. h)
                      (insert_event-IsValid pq r _ none),
                  refl,
                  refl,
                )
        ]
        | inr same ↦ elim (Bool-cases (q.is_closed c.wrapped)) [
          | inl over ↦ rw (same, over) (insert-Frame q pq c r _ none, refl, refl)
          | inr live ↦ rw (same, live) (Frame-refl q pq c r, refl, refl)
        ]
      ]
