-- ===== src/Futures/Waiting.antt =====
-- crates/futures/src/lib.rs: after an event is dispatched, no task waits for what is there.
use native.Mathlib.Decide.{ℕ_discrete}
use rtt.Prelude.{
  ℕ, ◌≡◌, ◌≢◌, refl, true, false, none, some, [], ◌∷◌, ◌++◌, arith, ◌∙◌, sym, value, subst,
}
use rtt.Prelude.Collections.{contains, contains-insert}
use rtt.Prelude.Maps.{get, get-erase, get-put}
use rtt.Api.{EventKind}
use rtt.Api
use rtt.Futures.{
  Event, connected, stream_accept, stream_open_bidi, stream_open_uni, stream_send, stream_recv,
  State, new, streams_of, dispatch, dispatch_kind,
}
use rtt.Futures.Wakers.{waker_at, at_event}
use rtt.Futures.Dispatching.{Wakes, Closes, Dispatched, is_announced, dispatch-Dispatched}

-- Nobody waits for what is there, and the group is not stopped.
pub record Awake (s : State) : Type 0 where
  pub live : s.stopped ≡ false
  pub conns : (waker : ℕ) → s.accept ≡ some waker → s.incoming_conns ≡ []
  pub streams :
      (token waker : ℕ)
      → waker_at s token stream_accept ≡ some waker
      → streams_of token s.incoming_streams ≡ []
  pub established :
      (token waker : ℕ)
      → waker_at s token connected ≡ some waker
      → contains ℕ_discrete token s.established_conns ≡ false

pub new-Awake : Awake new
unfolding new get
new-Awake = record {
  live = refl;
  conns = λ w e. refl;
  streams = λ t w e. refl;
  established = λ t w e. cc;
}

-- The queues may grow for the event that is woken, else they are as before.
Wakes-Awake :
    (s queued : State) (token : ℕ) (event : Event) {t : State}
    → Awake s
    → Wakes s queued token event t
    → queued.stopped ≡ s.stopped
    → queued.accept ≡ s.accept
    → queued.incoming_conns ≡ s.incoming_conns
    → ((j : ℕ)
        → at_event token event none (waker_at s) j stream_accept ≢ none
        → streams_of j queued.incoming_streams ≡ streams_of j s.incoming_streams)
    → ((j : ℕ)
        → at_event token event none (waker_at s) j connected ≢ none
        → contains ℕ_discrete j queued.established_conns
          ≡ contains ℕ_discrete j s.established_conns)
    → Awake t
Wakes-Awake s queued token event a w e1 e2 e3 more est = record {
  live = w.stopped ∙ e1 ∙ a.live;
  conns = λ k e. ground (arith, a.conns k, w.conns, w.accept);
  streams = λ j k e. ground (arith, w.streams, w.wakers j stream_accept, a.streams j k, more j);
  established =
      λ j k e. ground (arith, w.established, w.wakers j connected, a.established j k, est j);
}

Closes-Awake : (s : State) (token : ℕ) {t : State} → Awake s → Closes s token t → Awake t
Closes-Awake s token a c = record {
  live = c.stopped ∙ a.live;
  conns = λ k e. ground (arith, a.conns k, c.conns, c.accept);
  streams = λ j k e. ground (
    arith,
    c.streams,
    c.wakers j stream_accept,
    a.streams j k,
    get-erase ℕ_discrete token j s.incoming_streams,
  );
  established = λ j k e. ground (arith, c.established, c.wakers j connected, a.established j k);
}

-- An event of another kind leaves the wakers of the accepting and the connecting tasks.
pub plain-Awake :
    (s : State) (token : ℕ) (event : Event) {t : State}
    → Awake s
    → Wakes s s token event t
    → Awake t
plain-Awake s token event a w =
    Wakes-Awake s s token event a w refl refl refl (λ j p. refl) (λ j p. refl)

pub Dispatched-Awake :
    (s : State) (kind : EventKind) (token id : ℕ) {t : State}
    → Awake s
    → Dispatched s kind token id t
    → Awake t
Dispatched-Awake s EventKind.connected token id a w =
    Wakes-Awake s _ token connected a w refl refl refl (λ j p. refl)
      (λ j p. ground (arith, contains-insert ℕ_discrete token j s.established_conns))
Dispatched-Awake s EventKind.accept token id a w =
    subst Awake (sym w) (record {
      live = a.live;
      conns = λ k e. cc;
      streams = a.streams;
      established = a.established;
    })
Dispatched-Awake s EventKind.closed token id a w = Closes-Awake s token a w
Dispatched-Awake s EventKind.stream_open_bidi token id a w =
    plain-Awake s token stream_open_bidi a w
Dispatched-Awake s EventKind.stream_open_uni token id a w = plain-Awake s token stream_open_uni a w
Dispatched-Awake s EventKind.stream_accept token id a w =
    Wakes-Awake s _ token stream_accept a w refl refl refl
      (λ j p. ground (
        arith,
        get-put ℕ_discrete token j (streams_of token s.incoming_streams ++ (id ∷ []))
            s.incoming_streams,
      ))
      (λ j p. refl)
Dispatched-Awake s EventKind.stream_send token id a w = plain-Awake s token (stream_send id) a w
Dispatched-Awake s EventKind.stream_recv token id a w = plain-Awake s token (stream_recv id) a w
Dispatched-Awake s EventKind.send token id a w = elim w [ ]
Dispatched-Awake s EventKind.recv token id a w = elim w [ ]
Dispatched-Awake s EventKind.read_lock token id a w = elim w [ ]

-- An event that is dispatched without a panic is of an announced kind.
dispatched_announced :
    (s t : State) (kind : EventKind) (token id : ℕ)
    → dispatch_kind s kind token id ≡ value t
    → is_announced kind ≡ true
unfolding dispatch_kind
dispatched_announced s t EventKind.send token id h = absurd (cc)
dispatched_announced s t EventKind.recv token id h = absurd (cc)
dispatched_announced s t EventKind.read_lock token id h = absurd (cc)
dispatched_announced s t EventKind.connected token id h = refl
dispatched_announced s t EventKind.accept token id h = refl
dispatched_announced s t EventKind.closed token id h = refl
dispatched_announced s t EventKind.stream_open_bidi token id h = refl
dispatched_announced s t EventKind.stream_open_uni token id h = refl
dispatched_announced s t EventKind.stream_accept token id h = refl
dispatched_announced s t EventKind.stream_send token id h = refl
dispatched_announced s t EventKind.stream_recv token id h = refl

pub dispatched_lem :
    (s t : State) (e : Api.Event)
    → dispatch s e ≡ value t
    → Dispatched s e.kind e.token e.stream_id t
dispatched_lem s t e h =
    let does = dispatch-Dispatched s e (dispatched_announced s t e.kind e.token e.stream_id h) in
    rw h at does
