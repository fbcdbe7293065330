-- ===== src/Futures/Asking.antt =====
-- crates/futures/src/lib.rs: the polls of a task, `stop` and `shutdown` leave no task that waits for
-- what is there.
use native.Mathlib.Decide.{ℕ_discrete}
use rtt.Prelude.{
  ℕ, ◌≡◌, refl, inl, inr, Bool, true, false, none, List, [], ◌∷◌, arith, Option-cases, ◌∙◌, value,
  Bool-cases,
}
use rtt.Prelude.Collections.{beq_iff, contains, contains-remove}
use rtt.Prelude.Maps.{get, put, get-put}
use rtt.Futures.{Event, Event-discrete, connected, stream_accept, State, streams_of, stop, wake}
use rtt.Futures.Tasks.{
  register, unregister, is_established, accept, accept_from, accept_conn, accept_conn_from,
}
use rtt.Futures.Wakers.{
  waker_at, at_event, Rewired, wake-Rewired, register-Rewired, unregister-Rewired,
  unregister_panics,
}
use rtt.Futures.Dispatching.{stop_lem}
use rtt.Futures.Waiting.{Awake, plain-Awake}

-- the events that `open_prv`, `send` and `recv` wait for
abbrev pub is_operation : Event → Bool
is_operation connected = false
is_operation stream_accept = false
is_operation _ = true

pub stop-Awake : (s : State) → Awake s → Awake (stop s)
unfolding get
stop-Awake s a =
    rw (stop_lem s) (record {
      live = a.live;
      conns = λ k e. cc;
      streams = λ j k e. cc;
      established = λ j k e. cc;
    })

pub is_established-Awake :
    (s : State) (token waker : ℕ) → Awake s → Awake (is_established s token waker).0
unfolding is_established
is_established-Awake s token waker a =
    let r = register-Rewired s token connected waker in
    elim (Bool-cases (contains ℕ_discrete token s.established_conns)) [
      | inl yes_ ↦ rw yes_ (record {
        live = a.live;
        conns = a.conns;
        streams = a.streams;
        established = λ j k e.
            ground
              (arith, contains-remove ℕ_discrete token j s.established_conns, a.established j k);
      })
      | inr no_ ↦ rw no_ (record {
        live = r.stopped ∙ a.live;
        conns = λ k e. ground (arith, a.conns k, r.conns, r.accept);
        streams = λ j k e. ground (arith, r.streams, r.wakers j stream_accept, a.streams j k);
        established = λ j k e. ground (
          arith,
          r.established,
          r.wakers j connected,
          a.established j k,
          beq_iff ℕ_discrete token j,
        );
      })
    ]

accept_from-Awake :
    (s : State) (token waker : ℕ) (ids : List ℕ)
    → streams_of token s.incoming_streams ≡ ids
    → Awake s
    → Awake (accept_from s token waker ids).0
unfolding accept_from
accept_from-Awake s token waker [] h a =
    let s' : State = record s { incoming_streams = put ℕ_discrete token [] s.incoming_streams } in
    let r = register-Rewired s' token stream_accept waker in
    record {
      live = r.stopped ∙ a.live;
      conns = λ k e. ground (arith, a.conns k, r.conns, r.accept);
      streams = λ j k e. ground (
        arith,
        r.streams,
        r.wakers j stream_accept,
        a.streams j k,
        get-put {V = List ℕ} ℕ_discrete token j [] s.incoming_streams,
        beq_iff ℕ_discrete token j,
      );
      established = λ j k e. ground (
        arith,
        r.established,
        r.wakers j connected,
        a.established j k,
        beq_iff ℕ_discrete token j,
      );
    }
accept_from-Awake s token waker (id ∷ ids) h a = record {
  live = a.live;
  conns = a.conns;
  streams = λ j k e. ground (
    arith,
    a.streams j k,
    get-put ℕ_discrete token j ids s.incoming_streams,
    beq_iff ℕ_discrete token j,
  );
  established = a.established;
}

pub accept-Awake : (s : State) (token waker : ℕ) → Awake s → Awake (accept s token waker).0
unfolding accept
accept-Awake s token waker a = simp a.live (accept_from-Awake s token waker _ refl a)

accept_conn_from-Awake :
    (s : State) (waker : ℕ) (conns : List ℕ)
    → s.incoming_conns ≡ conns
    → Awake s
    → Awake (accept_conn_from s waker conns).0
unfolding accept_conn_from
accept_conn_from-Awake s waker [] h a = record {
  live = a.live;
  conns = λ k e. h;
  streams = a.streams;
  established = a.established;
}
accept_conn_from-Awake s waker (token ∷ conns) h a = record {
  live = a.live;
  conns = λ k e. absurd (ground (arith, a.conns k e, h));
  streams = a.streams;
  established = a.established;
}

pub accept_conn-Awake : (s : State) (waker : ℕ) → Awake s → Awake (accept_conn s waker).0
unfolding accept_conn
accept_conn-Awake s waker a = simp a.live (accept_conn_from-Awake s waker _ refl a)

pub register-Awake :
    (s : State) (token : ℕ) (event : Event) (waker : ℕ)
    → is_operation event ≡ true
    → Awake s
    → Awake (register s token event waker)
register-Awake s token event waker op a =
    let r = register-Rewired s token event waker in
    record {
      live = r.stopped ∙ a.live;
      conns = λ k e. ground (arith, a.conns k, r.conns, r.accept);
      streams = λ j k e. ground (
        arith,
        r.streams,
        r.wakers j stream_accept,
        a.streams j k,
        beq_iff Event-discrete event stream_accept,
      );
      established = λ j k e. ground (
        arith,
        r.established,
        r.wakers j connected,
        a.established j k,
        beq_iff Event-discrete event connected,
      );
    }

pub unregister-Awake :
    (s t : State) (token : ℕ) (event : Event)
    → unregister s token event ≡ value t
    → Awake s
    → Awake t
unregister-Awake s t token event h a = elim (Option-cases (get ℕ_discrete token s.wakers)) [
  | inl e ↦ absurd (ground (arith, unregister_panics s token event e))
  | inr (conn, e) ↦
      let r : Rewired s [] (at_event token event none (waker_at s)) t =
        rw h at (unregister-Rewired s token event e) in
      record {
        live = r.stopped ∙ a.live;
        conns = λ k p. ground (arith, a.conns k, r.conns, r.accept);
        streams = λ j k p. ground (arith, r.streams, r.wakers j stream_accept, a.streams j k);
        established =
            λ j k p. ground (arith, r.established, r.wakers j connected, a.established j k);
      }
]

pub wake-Awake : (s : State) (token : ℕ) (event : Event) → Awake s → Awake (wake s token event)
wake-Awake s token event a = plain-Awake s token event a (wake-Rewired s token event)
