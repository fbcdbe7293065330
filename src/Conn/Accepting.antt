-- ===== src/Conn/Accepting.antt =====
-- crates/poll/src/conn.rs: what `handle_accept` and `handle_send` report.
use rtt.Prelude.{
  ℕ, ◌≡◌, ◌≤◌, ◌<◌, ◌⊎◌, max, refl, ap, arith, ltb→lt, inl, inr, Bool, true, false, Option, none,
  some, if◌then◌else◌, Bool-cases, Option-cases,
}
use rtt.Prelude.Collections.{beq}
use rtt.Api.{Event, Event-discrete, EventKind, is_bidi}
use rtt.Quiche.{Quiche}
use rtt.Timing.{delay_send}
use rtt.Readiness.{PriorityQueue, Readiness}
use rtt.Readiness.View.{
  Status, idle, ready_now, waiting, view, insert_event-view, remove_event-view,
}
use rtt.Conn.{Conn}
use rtt.Conn.Handlers.{event, is_first, handle_accept, handle_send}

module _ (q : Quiche) (pq : PriorityQueue) where
  -- the largest id seen after another
  abbrev pub larger : Option ℕ → ℕ → ℕ
  larger none id = id
  larger (some seen) id = max seen id

  -- An id above all those seen, and one that is not.
  abbrev pub IsAbove : Option ℕ → ℕ → Type 0
  IsAbove none id = Unit {0}
  IsAbove (some seen) id = seen < id

  abbrev pub IsWithin : Option ℕ → ℕ → Type 0
  IsWithin none id = ⊥
  IsWithin (some seen) id = id ≤ seen

  -- The event of this kind for the stream is ready, and all others are as before.
  abbrev pub Reports : Conn q → Readiness pq → ℕ → EventKind → Readiness pq → Type 0
  Reports c r id kind t =
      (e : Event)
      → view pq t e
        ≡ (if beq Event-discrete (event q pq c kind false id) e then ready_now else view pq r e)

  -- What a readable stream of the peer does, by the largest id seen of its kind.
  abbrev pub Announces : Conn q → Readiness pq → ℕ → Option ℕ → Readiness pq → Type 0
  Announces c r id seen t =
      (IsAbove seen id × Reports c r id EventKind.stream_accept t)
      ⊎ (IsWithin seen id × Reports c r id EventKind.stream_recv t)

  -- The largest id seen of the stream's kind is noted, and that of the other kind stays.
  pub record Accepted (c : Conn q) (r : Readiness pq) (id : ℕ) (t : Conn q × Readiness pq)
      : Type 0 where
    pub bidi_seen : t.0.remote_stream_bidi_seen ≡ (
        if is_bidi id
        then some (larger c.remote_stream_bidi_seen id)
        else c.remote_stream_bidi_seen)
    pub uni_seen : t.0.remote_stream_uni_seen ≡ (
        if is_bidi id then c.remote_stream_uni_seen else some (larger c.remote_stream_uni_seen id))
    pub announced :
        Announces c r id
          (if is_bidi id then c.remote_stream_bidi_seen else c.remote_stream_uni_seen)
          t.1

  above :
      (seen : Option ℕ) (id : ℕ)
      → is_first q pq seen id ≡ true
      → IsAbove seen id × (some (larger seen id) ≡ some id)
  above none id h = (tt, refl)
  above (some seen) id h = let less = ltb→lt seen id h in (less, ap some (omega arith))

  within :
      (seen : Option ℕ) (id : ℕ)
      → is_first q pq seen id ≡ false
      → IsWithin seen id × (some (larger seen id) ≡ seen)
  within none id h = absurd (cc)
  within (some seen) id h = let less : id ≤ seen = ground arith in (less, ap some (omega arith))

  -- A readable stream of the peer makes the largest id seen of its kind the maximum of that and
  -- its own, and leaves that of the other kind. If its id is above all those seen of its kind it
  -- is reported as a new stream, else as readable, and no other event changes.
  pub handle_accept-Accepted :
      (c : Conn q) (r : Readiness pq) (id : ℕ) → Accepted c r id (handle_accept q pq c r id)
  unfolding handle_accept
  handle_accept-Accepted c r id = elim (Bool-cases (is_bidi id)) [
    | inl two ↦ elim (Bool-cases (is_first q pq c.remote_stream_bidi_seen id)) [
      | inl first ↦
          let (less, top) = above c.remote_stream_bidi_seen id first in
          record {
            bidi_seen = rw (two, first, top);
            uni_seen = rw (two, first);
            announced = rw (two, first) (inl (less, λ e. insert_event-view pq r _ none e));
          }
      | inr again ↦
          let (less, top) = within c.remote_stream_bidi_seen id again in
          record {
            bidi_seen = rw (two, again, top);
            uni_seen = rw (two, again);
            announced = rw (two, again) (inr (less, λ e. insert_event-view pq r _ none e));
          }
    ]
    | inr one ↦ elim (Bool-cases (is_first q pq c.remote_stream_uni_seen id)) [
      | inl first ↦
          let (less, top) = above c.remote_stream_uni_seen id first in
          record {
            bidi_seen = rw (one, first);
            uni_seen = rw (one, first, top);
            announced = rw (one, first) (inl (less, λ e. insert_event-view pq r _ none e));
          }
      | inr again ↦
          let (less, top) = within c.remote_stream_uni_seen id again in
          record {
            bidi_seen = rw (one, again);
            uni_seen = rw (one, again, top);
            announced = rw (one, again) (inr (less, λ e. insert_event-view pq r _ none e));
          }
    ]
  ]

  -- the status of the send event that `handle_send` sets
  abbrev pub send_status : Option ℕ → Bool → Status
  send_status none send_done = if send_done then idle else ready_now
  send_status (some t) send_done = waiting t

  -- `handle_send` sets the send event of the connection and changes no other: the event waits for
  -- the instant that `delay_send` gives; without one it is gone if the last send had nothing to
  -- send, and ready if not.
  pub handle_send-view :
      (c : Conn q) (r : Readiness pq) (now : ℕ) (send_done : Bool) (e : Event)
      → view pq (handle_send q pq c r now send_done) e ≡ (
          if beq Event-discrete (event q pq c EventKind.send false 0) e
          then send_status (delay_send q c.wrapped now send_done) send_done
          else view pq r e)
  unfolding handle_send
  handle_send-view c r now send_done e =
      elim (Option-cases (delay_send q c.wrapped now send_done)) [
        | inl n ↦ elim (Bool-cases send_done) [
          | inl t ↦ rw (n, handle_send, send_status, t) (remove_event-view pq r _ e)
          | inr t ↦ rw (n, handle_send, send_status, t) (insert_event-view pq r _ none e)
        ]
        | inr (at, s) ↦ rw (s, handle_send, send_status) (insert_event-view pq r _ (some at) e)
      ]
