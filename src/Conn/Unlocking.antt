-- ===== src/Conn/Unlocking.antt =====
-- crates/poll/src/conn.rs: `unlock`, for a lock that is held.
use rtt.Prelude.{
  ℕ, ◌-◌, ◌<◌, ◌↔◌, ◌≡◌, ◌≢◌, sym, ap, ◌∙◌, inl, inr, Bool, true, false, not, none, ◌==◌,
  if◌then◌else◌, arith, Bool-cases, Returns, Returns_bind, Returns_weaken, ◌&&◌, ==_refl, add64,
  sub64,
}
use rtt.Prelude.Collections.{contains, beq_iff}
use rtt.Quiche.{Quiche, endpoint}
use rtt.Readiness.{PriorityQueue, Readiness}
use rtt.Readiness.View.{IsValid}
use rtt.Conn.{unlocked, read_lock, LocKind-discrete, is_kind, Conn}
use rtt.Conn.Frame.{AreRetries, Frame, Frame-trans}
use rtt.Conn.Handlers.{
  handle_retry_events, handle_stream_state_changed, handle_send, handle_state_changed,
}
use rtt.Conn.Handling.{
  handle_retry_events-Frame, handle_stream_state_changed-Frame, handle_send-Frame,
  handle_state_changed-Frame,
}
use rtt.Conn.Locking.{IsLockValid}
use rtt.Conn.Methods.{free_lock, after_unlock, unlock}

module _ (q : Quiche) (pq : PriorityQueue) where
  -- whether `unlock` leaves other readers in
  abbrev pub stays : Conn q → Bool
  stays c = is_kind c.locker read_lock && not (c.read_lock_count == 1)

  -- What `unlock` does: the last holder frees the lock and moves the lock count on; no
  -- readable stream is left in the queue; the readiness is valid; and the result is whether the connection is
  -- closed.
  pub record Unlocked (c : Conn q) (t : Conn q × Readiness pq × Bool) : Type 0 where
    pub valid : IsLockValid q t.0
    pub token : t.0.token ≡ c.token
    pub locker : t.0.locker ≡ (if stays c then read_lock else unlocked)
    pub count : t.0.lock_count ≡ (if stays c then c.lock_count else add64 c.lock_count 1)
    pub readers : t.0.read_lock_count ≡ c.read_lock_count - 1
    pub bidi_next : t.0.local_stream_bidi_next ≡ c.local_stream_bidi_next
    pub uni_next : t.0.local_stream_uni_next ≡ c.local_stream_uni_next
    pub same : endpoint q t.0.wrapped ≡ endpoint q c.wrapped
    pub drained : q.stream_readable_next t.0.wrapped ≡ none
    pub readiness : IsValid pq t.1
    pub closed : t.2 ≡ q.is_closed t.0.wrapped

  -- the handlers, run one after another
  after_unlock-Frame :
      (c : Conn q) (send_done : Bool) (now : ℕ) (r : Readiness pq)
      → AreRetries c.reties
      → Returns (after_unlock q pq c send_done now r) λ t.
        Frame q pq c r (t.0, t.1)
        × (q.stream_readable_next t.0.wrapped ≡ none)
        × (t.2 ≡ q.is_closed t.0.wrapped)
  unfolding after_unlock
  after_unlock-Frame c send_done now r all =
      Returns_bind _ (handle_retry_events q pq c r) _ (handle_retry_events-Frame q pq c r all)
        λ t f.
          Returns_bind _ (handle_stream_state_changed q pq t.0 t.1) _
            (handle_stream_state_changed-Frame q pq t.0 t.1)
            λ u g.
              let s = handle_send-Frame q pq u.0 u.1 now send_done in
              let r2 = handle_send q pq u.0 u.1 now send_done in
              let (h, closed, same) = handle_state_changed-Frame q pq u.0 r2 in
              let d = handle_state_changed q pq u.0 r2 in
              (
                Frame-trans q pq (Frame-trans q pq f g.0) (Frame-trans q pq s h),
                ap q.stream_readable_next same ∙ g.1,
                closed ∙ ap q.is_closed (sym same),
              )

  -- the lock after its release
  record Freed (c d : Conn q) : Type 0 where
    token : d.token ≡ c.token
    locker : d.locker ≡ (if stays c then read_lock else unlocked)
    count : d.lock_count ≡ (if stays c then c.lock_count else add64 c.lock_count 1)
    readers : d.read_lock_count ≡ c.read_lock_count - 1
    reties : d.reties ≡ c.reties
    bidi_next : d.local_stream_bidi_next ≡ c.local_stream_bidi_next
    uni_next : d.local_stream_uni_next ≡ c.local_stream_uni_next
    wrapped : d.wrapped ≡ c.wrapped

  free_lock-Freed : (c : Conn q) → IsLockValid q c → Freed c (free_lock q pq c)
  unfolding free_lock
  free_lock-Freed c v = elim (Bool-cases (is_kind c.locker read_lock)) [
    | inl r ↦
        let some_reader = v.readers ((beq_iff LocKind-discrete c.locker read_lock).0 r) in
        let small = v.small in
        elim (Bool-cases (c.read_lock_count == 1)) [
          | inl last ↦
              let gone : sub64 c.read_lock_count 1 ≡ c.read_lock_count - 1 = ground arith in
              let free : (sub64 c.read_lock_count 1 == 0) ≡ true = ground arith in
              record {
                token = rw (r, free);
                locker = rw (r, last, free);
                count = rw (r, last, free);
                readers = rw (r, free) gone;
                reties = rw (r, free);
                bidi_next = rw (r, free);
                uni_next = rw (r, free);
                wrapped = rw (r, free);
              }
          | inr more ↦
              let gone : sub64 c.read_lock_count 1 ≡ c.read_lock_count - 1 = ground arith in
              let kept : (sub64 c.read_lock_count 1 == 0) ≡ false = ground arith in
              record {
                token = rw (r, kept);
                locker = rw (r, more, kept) ((beq_iff LocKind-discrete c.locker read_lock).0 r);
                count = rw (r, more, kept);
                readers = rw (r, kept) gone;
                reties = rw (r, kept);
                bidi_next = rw (r, kept);
                uni_next = rw (r, kept);
                wrapped = rw (r, kept);
              }
        ]
    | inr w ↦
        let none_left : c.read_lock_count ≡ 0 =
          v.no_readers (λ e. ground (arith, beq_iff LocKind-discrete c.locker read_lock)) in
        record {
          token = rw w;
          locker = rw w;
          count = rw w;
          readers = rw w (omega arith);
          reties = rw w;
          bidi_next = rw w;
          uni_next = rw w;
          wrapped = rw w;
        }
  ]

  stays_iff : (c : Conn q) → IsLockValid q c → (stays c ≡ true) ↔ (1 < c.read_lock_count)
  stays_iff c v =
      let is_reader = beq_iff LocKind-discrete c.locker read_lock in
      let some_reader = v.readers in let no_reader = v.no_readers in ground arith

  -- the lock after its release, and after handlers that leave it alone
  kept-IsLockValid :
      {r : Readiness pq} {t : Conn q × Readiness pq}
      → (c : Conn q) → IsLockValid q c
      → Frame q pq (free_lock q pq c) r t
      → IsLockValid q t.0
  kept-IsLockValid c v f =
      let h = free_lock-Freed c v in
      let small = v.small in
      let some_reader = v.readers in
      let no_reader = v.no_readers in
      let lock = f.locker ∙ h.locker in
      let count = f.read_lock_count ∙ h.readers in
      record {
        readers = λ e. ground (arith, stays_iff c v);
        no_readers = λ e. ground (arith, stays_iff c v);
        small = omega arith;
        retries =
            f.retries
              (λ kind e. v.retries kind (ap (contains LocKind-discrete kind) (sym h.reties) ∙ e));
      }

  -- Unlocking a locked connection with the lock count of its guard never panics, whatever waits
  -- for a retry and however many streams are readable or writable. The last holder frees the lock
  -- and moves the lock count on, a reader of several only leaves; no stream is left in the queue
  -- of readable ones, the readiness stays valid, the lock stays valid, the next stream ids, the
  -- token and the role stay, and the result is whether the connection is closed.
  pub unlock-Unlocked :
      (c : Conn q) (send_done : Bool) (now : ℕ) (r : Readiness pq)
      → IsLockValid q c
      → c.locker ≢ unlocked
      → IsValid pq r
      → Returns (unlock q pq c c.lock_count send_done now r) (Unlocked c)
  unfolding unlock
  unlock-Unlocked c send_done now r v held ready =
      let h = free_lock-Freed c v in
      let is_held : is_kind c.locker unlocked ≡ false =
        ground (arith, beq_iff LocKind-discrete c.locker unlocked) in
      rw (is_held, ==_refl c.lock_count)
        (Returns_weaken _ _ (after_unlock q pq (free_lock q pq c) send_done now r)
          (after_unlock-Frame (free_lock q pq c) send_done now r
            (λ kind e. v.retries kind (ap (contains LocKind-discrete kind) (sym h.reties) ∙ e)))
          (λ t p.
            let f = p.0 in
            record {
              valid = kept-IsLockValid c v f;
              token = f.token ∙ h.token;
              locker = f.locker ∙ h.locker;
              count = f.lock_count ∙ h.count;
              readers = f.read_lock_count ∙ h.readers;
              bidi_next = f.bidi_next ∙ h.bidi_next;
              uni_next = f.uni_next ∙ h.uni_next;
              same = f.same ∙ ap (endpoint q) h.wrapped;
              drained = p.1;
              readiness = f.readiness ready;
              closed = p.2;
            }))
