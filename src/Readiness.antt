-- ===== src/Readiness.antt =====
-- crates/poll/src/readiness.rs: the readiness events of a group, those that wait for an instant in
-- a priority queue. `priority_queue::PriorityQueue` is a third-party crate: a parameter.
pub mod View
pub mod Polling
use rtt.Prelude.{
  ℕ, zero, suc, ◌-◌, ◌≤◌, ◌+◌, ◌≡◌, Bool, true, false, Option, none, some, List, [], ◌∷◌, ◌++◌, ltb,
  if◌then◌else◌, Checked, value, panic, ◌>>=◌, ◌>>◌, assert,
}
use rtt.Prelude.Collections.{beq, contains, insert, remove}
use rtt.Api.{Event, Event-discrete}

-- `PriorityQueue<Event, Reverse<Instant>>`: each event once, the earliest instant first.
pub record PriorityQueue : Type 1 where
  pub Queue : Type 0
  pub new : Queue
  pub push : Queue → Event → ℕ → Queue
  pub delete : Queue → Event → Queue
  pub peek : Queue → Option (Event × ℕ)
  pub pop : Queue → Option ((Event × ℕ) × Queue)
  pub get_priority : Queue → Event → Option ℕ
  pub len : Queue → ℕ
  -- the documented behaviour
  pub get_priority-new : (e : Event) → get_priority new e ≡ none
  pub get_priority-push :
      (q : Queue) (e : Event) (t : ℕ) (f : Event)
      → get_priority (push q e t) f ≡ (if beq Event-discrete e f then some t else get_priority q f)
  pub get_priority-delete :
      (q : Queue) (e f : Event)
      → get_priority (delete q e) f ≡ (if beq Event-discrete e f then none else get_priority q f)
  pub peek_none : (q : Queue) (e : Event) → peek q ≡ none → get_priority q e ≡ none
  pub peek_some : (q : Queue) (e : Event) (t : ℕ) → peek q ≡ some (e, t) → get_priority q e ≡ some t
  pub peek_least :
      (q : Queue) (e f : Event) (t u : ℕ) → peek q ≡ some (e, t) → get_priority q f ≡ some u → t ≤ u
  pub pop_peek :
      (q : Queue) (e : Event) (t : ℕ)
      → peek q ≡ some (e, t)
      → (q' : Queue) × (pop q ≡ some ((e, t), q'))
        × ((f : Event)
            → get_priority q' f ≡ (if beq Event-discrete e f then none else get_priority q f))
        × (len q' + 1 ≡ len q)

-- an event's instant, and whether it lies further ahead than the timer can tell:
-- `deadline.checked_duration_since(now).unwrap_or_default() > release_timer_threshold`
abbrev pub is_later : ℕ → ℕ → ℕ → Bool
is_later now threshold deadline = ltb threshold (deadline - now)

module _ (pq : PriorityQueue) where
  -- `Readiness`
  pub record Readiness : Type 0 where
    pub delayed : pq.Queue
    pub events : List Event

  unfoldable pub new : Readiness
  new = record { delayed = pq.new; events = [] }

  unfoldable pub insert_event : Readiness → Event → Option ℕ → Readiness
  insert_event r e (some delay_to) = record {
    delayed = pq.push r.delayed e delay_to;
    events = remove Event-discrete e r.events;
  }
  insert_event r e none = record {
    delayed = pq.delete r.delayed e;
    events = insert Event-discrete e r.events;
  }

  pub remove_event : Readiness → Event → Readiness
  remove_event r e = record {
    delayed = pq.delete r.delayed e;
    events = remove Event-discrete e r.events;
  }

  -- The `while let` of `poll`, on fuel: the queue left, the events read off it, and the deadline.
  -- `panic` where the fuel runs out, or at the `unwrap`.
  unfoldable pub poll_loop :
      ℕ → pq.Queue → ℕ → ℕ → List Event → Checked (pq.Queue × List Event × Option ℕ)
  poll_loop zero q now threshold readiness = panic
  poll_loop (suc fuel) q now threshold readiness = elim (pq.peek q) [
    | none ↦ value (q, readiness, none)
    | some (e, deadline) ↦ elim (is_later now threshold deadline) [
      | true ↦ value (q, readiness, some deadline)
      | false ↦ elim (pq.pop q) [
        | none ↦ panic
        | some (item, q') ↦ poll_loop fuel q' now threshold (readiness ++ (item.0 ∷ []))
      ]
    ]
  ]

  -- The readiness left, the caller's list after the call, and the wait. `delayed.is_empty()` is that
  -- `peek` gives nothing, and the loop starts so; the clock is read between.
  unfoldable pub poll : Readiness → ℕ → ℕ → List Event → Checked (Readiness × List Event × Option ℕ)
  poll r now threshold [] = do
    (q, readiness, wait) ← poll_loop (suc (pq.len r.delayed)) r.delayed now threshold r.events
    value (record { delayed = q; events = [] }, readiness, wait)
  poll r now threshold (e ∷ es) = panic
