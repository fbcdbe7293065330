-- ===== src/Futures/Meanwhile.antt =====
-- crates/futures/src/lib.rs: what other threads do while a task has the mutex free, and what that
-- does to the waker that the task left for an event.
use native.Mathlib.Decide.{ℕ_discrete}
use rtt.Prelude.{
  ℕ, ◌≡◌, refl, sym, ap, ◌∙◌, inl, inr, ◌⊎◌, Bool, true, false, Option, none, some, List, [], ◌∷◌,
  ◌++◌, ◌&&◌, append-nil, arith, Option-cases, Bool-cases, value, Returns_at,
}
use rtt.Prelude.Collections.{beq, beq_iff, contains}
use rtt.Prelude.Maps.{get, put}
use rtt.Api.{EventKind, uni, bidi}
use rtt.Api
use rtt.Futures.{
  Event, Event-discrete, stream_send, stream_recv, open_event, State, connected, stream_accept,
  stop, wake, dispatch,
}
use rtt.Futures.Tasks.{
  QuicStream, register, unregister, is_established, accept, accept_from, accept_conn,
  accept_conn_from,
}
use rtt.Futures.Streams.{wake_stream}
use rtt.Futures.Wakers.{
  waker_at, at_event, Rewired, wake-Rewired, register-Rewired, unregister-Rewired,
  unregister_panics,
}
use rtt.Futures.Waiting.{dispatched_lem}
use rtt.Futures.Asking.{is_operation}
use rtt.Futures.Keeping.{is_woken, Kept, Kept-trans, Wakes-Kept, Dispatched-Kept, stop-Kept}

-- A critical section of another thread: the background thread dispatches an event, the group is
-- stopped, a task asks for connections or streams, begins or ends an operation that is not the one of
-- the event of the token, or shuts a stream.
pub data Act (token : ℕ) (event : Event) : State → State → Type 0 where
  dispatches : (s t : State) (e : Api.Event) → dispatch s e ≡ value t → Act token event s t
  stops : (s : State) → Act token event s (stop s)
  asks : (s : State) (j waker : ℕ) → Act token event s (is_established s j waker).0
  accepts : (s : State) (j waker : ℕ) → Act token event s (accept s j waker).0
  accepts_conn : (s : State) (waker : ℕ) → Act token event s (accept_conn s waker).0
  registers :
      (s : State) (j : ℕ) (k : Event) (waker : ℕ)
      → (beq ℕ_discrete j token && beq Event-discrete k event) ≡ false
      → Act token event s (register s j k waker)
  unregisters :
      (s t : State) (j : ℕ) (k : Event)
      → (beq ℕ_discrete j token && beq Event-discrete k event) ≡ false
      → unregister s j k ≡ value t
      → Act token event s t
  shuts : (s : State) (stream : QuicStream) → Act token event s (wake_stream s stream)

-- the operation that an event of the group is for
abbrev pub wanted_by : EventKind → ℕ → Option Event
wanted_by EventKind.stream_send id = some (stream_send id)
wanted_by EventKind.stream_recv id = some (stream_recv id)
wanted_by EventKind.stream_open_bidi id = some (open_event bidi)
wanted_by EventKind.stream_open_uni id = some (open_event uni)
wanted_by _ id = none

-- What the other threads do, one critical section after another, and whether the background thread
-- dispatched the event meanwhile.
pub data Acts (token : ℕ) (event : Event) (s : State) : Bool → State → Type 0 where
  nothing_done : Acts token event s false s
  then_ :
      {told : Bool} {t u : State}
      → Acts token event s told t
      → Act token event t u
      → Acts token event s told u
  tells :
      {told : Bool} {t u : State} (e : Api.Event)
      → Acts token event s told t
      → e.token ≡ token
      → wanted_by e.kind e.stream_id ≡ some event
      → dispatch t e ≡ value u
      → Acts token event s true u

-- The waker of the event is kept, or its task is woken.
abbrev pub KeepsAt : ℕ → Event → State → State → Type 0
KeepsAt token event s t =
    (since : List ℕ) × (t.woken ≡ s.woken ++ since)
    × ((waker : ℕ)
        → waker_at s token event ≡ some waker
        → (waker_at t token event ≡ some waker) ⊎ (is_woken waker since ≡ true))

Kept-KeepsAt : {s t : State} (token : ℕ) (event : Event) → Kept s t → KeepsAt token event s t
Kept-KeepsAt token event k = (k.since, k.log, (λ waker h. k.kept token event waker h))

-- The wakers of other events changed only.
Rewired-KeepsAt :
    (token : ℕ) (event : Event) (s : State) {queued t : State} {at : ℕ → Event → Option ℕ}
    → Rewired queued [] at t
    → queued.woken ≡ s.woken
    → at token event ≡ waker_at s token event
    → KeepsAt token event s t
Rewired-KeepsAt token event s r same here =
    ([], r.log ∙ ap (λ l. l ++ []) same, (λ waker h. inl (r.wakers token event ∙ here ∙ h)))

at_other :
    (j : ℕ) (k : Event) (here : Option ℕ) (others : ℕ → Event → Option ℕ) (token : ℕ)
    (event : Event)
    → (beq ℕ_discrete j token && beq Event-discrete k event) ≡ false
    → at_event j k here others token event ≡ others token event
at_other j k here others token event h = ground arith

not_operation :
    (j : ℕ) (k : Event) (token : ℕ) (event : Event)
    → is_operation k ≡ false
    → is_operation event ≡ true
    → (beq ℕ_discrete j token && beq Event-discrete k event) ≡ false
not_operation j k token event h op = ground (arith, beq_iff Event-discrete k event)

is_established-KeepsAt :
    (token : ℕ) (event : Event) (s : State) (j waker : ℕ)
    → is_operation event ≡ true
    → KeepsAt token event s (is_established s j waker).0
unfolding is_established
is_established-KeepsAt token event s j waker op =
    elim (Bool-cases (contains ℕ_discrete j s.established_conns)) [
      | inl yes_ ↦ rw yes_ ([], sym (append-nil s.woken), (λ waker h. inl h))
      | inr no_ ↦ rw no_ (
          Rewired-KeepsAt token event s (register-Rewired s j connected waker) refl (
            at_other j connected (some waker) (waker_at s) token event
              (not_operation j connected token event refl op)))
    ]

accept_from-KeepsAt :
    (token : ℕ) (event : Event) (s : State) (j waker : ℕ) (ids : List ℕ)
    → is_operation event ≡ true
    → KeepsAt token event s (accept_from s j waker ids).0
unfolding accept_from
accept_from-KeepsAt token event s j waker [] op =
    let s' : State = record s { incoming_streams = put ℕ_discrete j [] s.incoming_streams } in
    Rewired-KeepsAt token event s (register-Rewired s' j stream_accept waker) refl (
      at_other j stream_accept (some waker) (waker_at s) token event
        (not_operation j stream_accept token event refl op))
accept_from-KeepsAt token event s j waker (id ∷ ids) op =
    ([], sym (append-nil s.woken), (λ waker h. inl h))

accept-KeepsAt :
    (token : ℕ) (event : Event) (s : State) (j waker : ℕ)
    → is_operation event ≡ true
    → KeepsAt token event s (accept s j waker).0
unfolding accept
accept-KeepsAt token event s j waker op = elim (Bool-cases s.stopped) [
  | inl yes_ ↦ rw yes_ ([], sym (append-nil s.woken), (λ waker h. inl h))
  | inr no_ ↦ simp no_ (accept_from-KeepsAt token event s j waker _ op)
]

accept_conn_from-KeepsAt :
    (token : ℕ) (event : Event) (s : State) (waker : ℕ) (conns : List ℕ)
    → KeepsAt token event s (accept_conn_from s waker conns).0
unfolding accept_conn_from
accept_conn_from-KeepsAt token event s waker [] = ([], sym (append-nil s.woken), (λ waker h. inl h))
accept_conn_from-KeepsAt token event s waker (j ∷ conns) =
    ([], sym (append-nil s.woken), (λ waker h. inl h))

accept_conn-KeepsAt :
    (token : ℕ) (event : Event) (s : State) (waker : ℕ)
    → KeepsAt token event s (accept_conn s waker).0
unfolding accept_conn
accept_conn-KeepsAt token event s waker = elim (Bool-cases s.stopped) [
  | inl yes_ ↦ rw yes_ ([], sym (append-nil s.woken), (λ waker h. inl h))
  | inr no_ ↦ simp no_ (accept_conn_from-KeepsAt token event s waker _)
]

unregister-KeepsAt :
    (token : ℕ) (event : Event) (s t : State) (j : ℕ) (k : Event)
    → (beq ℕ_discrete j token && beq Event-discrete k event) ≡ false
    → unregister s j k ≡ value t
    → KeepsAt token event s t
unregister-KeepsAt token event s t j k other h = elim (Option-cases (get ℕ_discrete j s.wakers)) [
  | inl e ↦ absurd (ground (arith, unregister_panics s j k e))
  | inr (conn, e) ↦
      let r =
        Returns_at (Rewired s [] (at_event j k none (waker_at s))) (unregister s j k)
          (unregister-Rewired s j k e) h in
      Rewired-KeepsAt token event s r refl (at_other j k none (waker_at s) token event other)
]

wake-Kept : (s : State) (j : ℕ) (k : Event) → Kept s (wake s j k)
wake-Kept s j k = Wakes-Kept s s j k refl (wake-Rewired s j k)

pub Act-KeepsAt :
    {token : ℕ} {event : Event} {s t : State}
    → is_operation event ≡ true
    → Act token event s t
    → KeepsAt token event s t
unfolding wake_stream
Act-KeepsAt {token} {event} op (dispatches s t e h) =
    Kept-KeepsAt token event (Dispatched-Kept s e.kind e.token e.stream_id (dispatched_lem s t e h))
Act-KeepsAt {token} {event} op (stops s) = Kept-KeepsAt token event (stop-Kept s)
Act-KeepsAt {token} {event} op (asks s j waker) = is_established-KeepsAt token event s j waker op
Act-KeepsAt {token} {event} op (accepts s j waker) = accept-KeepsAt token event s j waker op
Act-KeepsAt {token} {event} op (accepts_conn s waker) = accept_conn-KeepsAt token event s waker
Act-KeepsAt {token} {event} op (registers s j k waker other) =
    Rewired-KeepsAt token event s (register-Rewired s j k waker) refl
      (at_other j k (some waker) (waker_at s) token event other)
Act-KeepsAt {token} {event} op (unregisters s t j k other h) =
    unregister-KeepsAt token event s t j k other h
Act-KeepsAt {token} {event} op (shuts s stream) =
    Kept-KeepsAt token event (Kept-trans (wake-Kept s _ _) (wake-Kept _ _ _))
