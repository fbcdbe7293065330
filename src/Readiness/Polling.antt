-- ===== src/Readiness/Polling.antt =====
-- crates/poll/src/readiness.rs: `poll` hands out exactly the events that are due, each once.
use rtt.Prelude.{
  ℕ, zero, suc, ◌≤◌, ◌<◌, ◌≡◌, refl, inl, inr, Bool, true, false, not, Option, none, some, List, [],
  ◌∷◌, ◌++◌, if◌then◌else◌, arith, Bool-cases, Option-cases, Returns, Returns_bind, Returns_weaken,
}
use rtt.Prelude.Collections.{beq, contains, contains-append, beq_iff}
use rtt.Api.{Event, Event-discrete}
use rtt.Readiness.{PriorityQueue, Readiness, poll_loop, poll, is_later}
use rtt.Readiness.View.{
  view, Status, idle, ready_now, waiting, priority_status, IsDistinct, IsValid,
}

-- whether a status is due at `now`, where the timer tells no instants closer than `threshold` apart
abbrev pub due : ℕ → ℕ → Status → Bool
due now threshold idle = false
due now threshold ready_now = true
due now threshold (waiting t) = not (is_later now threshold t)

-- The wait is the earliest of the instants that are left, which is later; `none` if none is left.
abbrev pub Waits : ℕ → ℕ → (Event → Status) → Option ℕ → Type 0
Waits now threshold status none = (e : Event) → status e ≡ idle
Waits now threshold status (some t) =
    (is_later now threshold t ≡ true)
    × ((e : Event) × (status e ≡ waiting t))
    × ((e : Event) (u : ℕ) → status e ≡ waiting u → t ≤ u)

contains-snoc :
    (e f : Event) (es : List Event)
    → contains Event-discrete f (es ++ (e ∷ []))
      ≡ (if beq Event-discrete e f then true else contains Event-discrete f es)
unfolding contains
contains-snoc e f es = ground (arith, contains-append Event-discrete f es (e ∷ []))

IsDistinct-snoc :
    (e : Event) (es : List Event)
    → contains Event-discrete e es ≡ false
    → IsDistinct es
    → IsDistinct (es ++ (e ∷ []))
unfolding contains
IsDistinct-snoc e [] h d = (refl, tt)
IsDistinct-snoc e (f ∷ es) h d =
    (ground (arith, contains-snoc e f es), IsDistinct-snoc e es (ground arith) d.1)

module _ (pq : PriorityQueue) (now threshold : ℕ) where
  abbrev queued : pq.Queue → Event → Status
  queued q e = priority_status (pq.get_priority q e)

  -- What the loop does from queue `q` and the events `es` read before.
  record Looped (q : pq.Queue) (es : List Event) (t : pq.Queue × List Event × Option ℕ)
      : Type 0 where
    reads :
        (e : Event)
        → contains Event-discrete e t.1
          ≡ (if contains Event-discrete e es then true else due now threshold (queued q e))
    left :
        (e : Event) → queued t.0 e ≡ (if due now threshold (queued q e) then idle else queued q e)
    waits : Waits now threshold (queued t.0) t.2
    distinct :
        IsDistinct es
        → ((e : Event) → contains Event-discrete e es ≡ true → pq.get_priority q e ≡ none)
        → IsDistinct t.1

  queued-waiting :
      (q : pq.Queue) (e : Event) (t : ℕ) → pq.get_priority q e ≡ some t → queued q e ≡ waiting t
  queued-waiting q e t h = rw h

  waiting_queued : (o : Option ℕ) (t : ℕ) → priority_status o ≡ waiting t → o ≡ some t
  waiting_queued none t h = cc
  waiting_queued (some u) t h = ground arith

  not_due :
      (q : pq.Queue) (e f : Event) (t : ℕ)
      → pq.peek q ≡ some (e, t)
      → is_later now threshold t ≡ true
      → due now threshold (queued q f) ≡ false
  not_due q e f t p later = elim (Option-cases (pq.get_priority q f)) [
    | inl h ↦ rw h
    | inr (u, h) ↦
        let le : t ≤ u = pq.peek_least q e f t u p h in
        let far : is_later now threshold u ≡ true = ground arith in rw h (rw far)
  ]

  -- At an event that is later, the whole queue is.
  later-Looped :
      (q : pq.Queue) (es : List Event) (e : Event) (t : ℕ)
      → pq.peek q ≡ some (e, t)
      → is_later now threshold t ≡ true
      → Looped q es (q, es, some t)
  later-Looped q es e t p later = record {
    reads = λ f. rw (not_due q e f t p later) (ground arith);
    left = λ f. rw (not_due q e f t p later);
    waits = (
      later,
      (e, queued-waiting q e t (pq.peek_some q e t p)),
      λ f u h. pq.peek_least q e f t u p (waiting_queued (pq.get_priority q f) u h),
    );
    distinct = λ d h. d;
  }

  none-Looped : (q : pq.Queue) (es : List Event) → pq.peek q ≡ none → Looped q es (q, es, none)
  none-Looped q es p = record {
    reads = λ f. rw (pq.peek_none q f p) (ground arith);
    left = λ f. rw (pq.peek_none q f p);
    waits = λ f. rw (pq.peek_none q f p);
    distinct = λ d h. d;
  }

  -- At an event that is due, what the rest of the loop does from the queue without it.
  due-Looped :
      (q q' : pq.Queue) (es : List Event) (e : Event) (t : ℕ) (r : pq.Queue × List Event × Option ℕ)
      → pq.peek q ≡ some (e, t)
      → is_later now threshold t ≡ false
      → ((f : Event)
          → pq.get_priority q' f ≡ (if beq Event-discrete e f then none else pq.get_priority q f))
      → Looped q' (es ++ (e ∷ [])) r
      → Looped q es r
  due-Looped q q' es e t r p early rest h = record {
    reads = λ f. ground (
      arith,
      h.reads f,
      contains-snoc e f es,
      rest f,
      beq_iff Event-discrete e f,
      pq.peek_some q e t p,
    );
    left = λ f. ground (arith, h.left f, rest f, beq_iff Event-discrete e f, pq.peek_some q e t p);
    waits = h.waits;
    distinct = λ d apart.
        h.distinct (IsDistinct-snoc e es (ground (arith, apart e, pq.peek_some q e t p)) d)
          λ f c. ground (arith, contains-snoc e f es, rest f, apart f);
  }

  -- With fuel for every event of the queue the loop ends, and never finds it empty at `unwrap`.
  poll_loop-Looped :
      (fuel : ℕ) (q : pq.Queue) (es : List Event)
      → pq.len q < fuel
      → Returns (poll_loop pq fuel q now threshold es) (Looped q es)
  unfolding poll_loop
  poll_loop-Looped zero q es h = elim h [ ]
  poll_loop-Looped (suc fuel) q es h = elim (Option-cases (pq.peek q)) [
    | inl p ↦ rw (p, poll_loop) (none-Looped q es p)
    | inr ((e, t), p) ↦ elim (Bool-cases (is_later now threshold t)) [
      | inl later ↦ rw (p, poll_loop, later) ((later-Looped q es e t p later))
      | inr early ↦
          let (q', popped, rest, shorter) = pq.pop_peek q e t p in
          let ih = poll_loop-Looped fuel q' (es ++ (e ∷ [])) (omega arith) in
          rw (p, poll_loop, early, popped)
            (Returns_weaken (Looped q' (es ++ (e ∷ []))) (Looped q es)
              (poll_loop pq fuel q' now threshold (es ++ (e ∷ []))) ih
              λ r l. due-Looped q q' es e t r p early rest l)
    ]
  ]

  -- What `poll` does: it hands out each event that is due once, and no other; those are forgotten, the
  -- others keep their instants; and it returns the earliest of those, or nothing if there are none.
  pub record Polled (r : Readiness pq) (t : Readiness pq × List Event × Option ℕ) : Type 0 where
    pub handed : (e : Event) → contains Event-discrete e t.1 ≡ due now threshold (view pq r e)
    pub left :
        (e : Event)
        → view pq t.0 e ≡ (if due now threshold (view pq r e) then idle else view pq r e)
    pub waits : Waits now threshold (view pq t.0) t.2
    pub distinct : IsDistinct t.1
    pub valid : IsValid pq t.0

  Looped-Polled :
      (r : Readiness pq) (t : pq.Queue × List Event × Option ℕ)
      → IsValid pq r
      → Looped r.delayed r.events t
      → Polled r (record { delayed = t.0; events = [] }, t.1, t.2)
  unfolding view contains
  Looped-Polled r t v h = record {
    handed = λ e. ground (arith, h.reads e);
    left = λ e. ground (arith, h.left e, v.disjoint e);
    waits = h.waits;
    distinct = h.distinct v.distinct v.disjoint;
    valid = record { disjoint = λ e c. cc; distinct = tt };
  }

  -- Polling a valid readiness into an empty list returns. It hands out each event that is ready,
  -- or whose instant is at most the threshold ahead, exactly once, and no other; these are
  -- forgotten, the others keep their instants; the wait returned is the least of those, or none
  -- if none is left; and the readiness is valid.
  pub poll-Polled :
      (r : Readiness pq) → IsValid pq r → Returns (poll pq r now threshold []) (Polled r)
  unfolding poll
  poll-Polled r d =
      Returns_bind (Polled r)
        (poll_loop pq (suc (pq.len r.delayed)) r.delayed now threshold r.events) _
        (poll_loop-Looped (suc (pq.len r.delayed)) r.delayed r.events (omega arith))
        λ t h. Looped-Polled r t d h
