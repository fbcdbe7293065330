-- ===== src/Readiness/View.antt =====
-- crates/poll/src/readiness.rs: readiness as a map from events to their status.
use rtt.Prelude.{
  ℕ, ◌≡◌, true, false, Option, none, some, List, [], ◌∷◌, if◌then◌else◌, arith, Bool-cases, inl,
  inr,
}
use rtt.Prelude.Collections.{beq, contains, insert, remove, contains-insert, contains-remove}
use rtt.Api.{Event, Event-discrete}
use rtt.Readiness.{PriorityQueue, Readiness, new, insert_event, remove_event}

-- What a group knows of an event: nothing, that it is ready, or that it waits for an instant.
pub data Status : Type 0 where
  idle ready_now : Status
  waiting : ℕ → Status

abbrev pub delay_status : Option ℕ → Status
delay_status none = ready_now
delay_status (some t) = waiting t

abbrev pub priority_status : Option ℕ → Status
priority_status none = idle
priority_status (some t) = waiting t

-- No event occurs twice.
abbrev pub IsDistinct : List Event → Type 0
IsDistinct [] = Unit {0}
IsDistinct (e ∷ es) = (contains Event-discrete e es ≡ false) × IsDistinct es

insert-IsDistinct :
    (e : Event) (es : List Event) → IsDistinct es → IsDistinct (insert Event-discrete e es)
unfolding insert
insert-IsDistinct e es d = elim (Bool-cases (contains Event-discrete e es)) [
  | inl old ↦ rw old d
  | inr new ↦ rw new (new, d)
]

remove-IsDistinct :
    (e : Event) (es : List Event) → IsDistinct es → IsDistinct (remove Event-discrete e es)
unfolding remove
remove-IsDistinct e [] d = tt
remove-IsDistinct e (f ∷ es) d =
    let ih = remove-IsDistinct e es d.1 in
    elim (Bool-cases (beq Event-discrete f e)) [
      | inl same ↦ rw same ih
      | inr other ↦ rw other (rw (contains-remove Event-discrete e f es) (ground (arith, d.0)), ih)
    ]

module _ (pq : PriorityQueue) where
  unfoldable pub view : Readiness pq → Event → Status
  view r e =
      if contains Event-discrete e r.events
      then ready_now
      else priority_status (pq.get_priority r.delayed e)

  -- No event is both ready and waiting, and none is ready twice.
  pub record IsValid (r : Readiness pq) : Type 0 where
    pub disjoint :
        (e : Event) → contains Event-discrete e r.events ≡ true → pq.get_priority r.delayed e ≡ none
    pub distinct : IsDistinct r.events

  pub new-IsValid : IsValid (new pq)
  unfolding new contains
  new-IsValid = record { disjoint = λ f h. pq.get_priority-new f; distinct = tt }

  -- After an insertion an event waits for the instant given, or is ready if none was given, and
  -- the status of every other event is as before.
  pub insert_event-view :
      (r : Readiness pq) (e : Event) (delay : Option ℕ) (f : Event)
      → view (insert_event pq r e delay) f
        ≡ (if beq Event-discrete e f then delay_status delay else view r f)
  unfolding view insert_event
  insert_event-view r e none f =
      ground
        (arith, contains-insert Event-discrete e f r.events, pq.get_priority-delete r.delayed e f)
  insert_event-view r e (some t) f =
      ground
        (arith, contains-remove Event-discrete e f r.events, pq.get_priority-push r.delayed e t f)

  -- After a removal nothing is known of the event, and the status of every other event is as
  -- before.
  pub remove_event-view :
      (r : Readiness pq) (e f : Event)
      → view (remove_event pq r e) f ≡ (if beq Event-discrete e f then idle else view r f)
  unfolding view remove_event
  remove_event-view r e f =
      ground
        (arith, contains-remove Event-discrete e f r.events, pq.get_priority-delete r.delayed e f)

  -- An insertion keeps the readiness valid: no event is both ready and waiting, and none is ready
  -- twice.
  pub insert_event-IsValid :
      (r : Readiness pq) (e : Event) (delay : Option ℕ)
      → IsValid r
      → IsValid (insert_event pq r e delay)
  unfolding insert_event
  insert_event-IsValid r e none v = record {
    disjoint = λ f h. ground (
      arith,
      contains-insert Event-discrete e f r.events,
      pq.get_priority-delete r.delayed e f,
      v.disjoint f,
    );
    distinct = insert-IsDistinct e r.events v.distinct;
  }
  insert_event-IsValid r e (some t) v = record {
    disjoint = λ f h. ground (
      arith,
      contains-remove Event-discrete e f r.events,
      pq.get_priority-push r.delayed e t f,
      v.disjoint f,
    );
    distinct = remove-IsDistinct e r.events v.distinct;
  }

  pub remove_event-IsValid :
      (r : Readiness pq) (e : Event) → IsValid r → IsValid (remove_event pq r e)
  unfolding remove_event
  remove_event-IsValid r e v = record {
    disjoint = λ f h. ground (
      arith,
      contains-remove Event-discrete e f r.events,
      pq.get_priority-delete r.delayed e f,
      v.disjoint f,
    );
    distinct = remove-IsDistinct e r.events v.distinct;
  }
