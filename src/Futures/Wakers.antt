-- ===== src/Futures/Wakers.antt =====
-- crates/futures/src/lib.rs: the wakers of a state, by token and event.
use native.Mathlib.Decide.{ℕ_discrete}
use rtt.Prelude.{
  ℕ, ◌≡◌, refl, inl, inr, Option, none, some, List, [], ◌∷◌, ◌++◌, ◌∙◌, append-nil, sym, arith,
  Option-cases, if◌then◌else◌, panic, Returns,
}
use rtt.Prelude.Collections.{beq, beq_iff}
use rtt.Prelude.Maps.{get, put, erase, get-put, get-erase}
use rtt.Futures.{Event, Event-discrete, State, wake}
use rtt.Futures.Tasks.{wakers_of, register, unregister}

-- the waker that is registered for an event
abbrev pub waker_at : State → ℕ → Event → Option ℕ
waker_at s token event = get Event-discrete event (wakers_of s token)

abbrev pub to_list : Option ℕ → List ℕ
to_list none = []
to_list (some waker) = waker ∷ []

-- a value for one event of one token, and for all others
abbrev pub at_event : ℕ → Event → Option ℕ → (ℕ → Event → Option ℕ) → ℕ → Event → Option ℕ
at_event token event here others j k =
    if beq ℕ_discrete token j
    then (if beq Event-discrete event k then here else others j k)
    else others j k

-- A change of the wakers: which task is woken, and what stays.
pub record Rewired (s : State) (woken : List ℕ) (at : ℕ → Event → Option ℕ) (t : State)
    : Type 0 where
  pub log : t.woken ≡ s.woken ++ woken
  pub wakers : (j : ℕ) (k : Event) → waker_at t j k ≡ at j k
  pub stopped : t.stopped ≡ s.stopped
  pub accept : t.accept ≡ s.accept
  pub conns : t.incoming_conns ≡ s.incoming_conns
  pub established : t.established_conns ≡ s.established_conns
  pub streams : t.incoming_streams ≡ s.incoming_streams

-- a connection's wakers after they were replaced
conn-put :
    (s : State) (token : ℕ) (conn : List (Event × ℕ)) (j : ℕ) (k : Event)
    → waker_at (record s { wakers = put ℕ_discrete token conn s.wakers }) j k
      ≡ (if beq ℕ_discrete token j then get Event-discrete k conn else waker_at s j k)
conn-put s token conn j k = ground (arith, get-put ℕ_discrete token j conn s.wakers)

-- no event of an empty map has a waker
pub get_nil : (k : Event) → get {V = ℕ} Event-discrete k [] ≡ none
unfolding get
get_nil k = refl

pub wake-Rewired :
    (s : State) (token : ℕ) (event : Event)
    → Rewired s
        (to_list (waker_at s token event))
        (at_event token event none (waker_at s))
        (wake s token event)
unfolding wake
wake-Rewired s token event = record {
  log = ground (arith, get_nil event, append-nil s.woken);
  wakers = λ j k. elim (Option-cases (get ℕ_discrete token s.wakers)) [
    | inl e ↦ rw (e, wake) (ground (arith, get_nil k, beq_iff ℕ_discrete token j, e))
    | inr (conn, e) ↦ elim (Option-cases (get Event-discrete event conn)) [
      | inl h ↦
          rw (e, wake, h)
            (ground (arith, beq_iff ℕ_discrete token j, beq_iff Event-discrete event k, e))
      | inr (waker, h) ↦
          rw (e, wake, h)
            (conn-put s token (erase Event-discrete event conn) j k
              ∙ ground
                  (arith, get-erase Event-discrete event k conn, beq_iff ℕ_discrete token j, e))
    ]
  ];
  stopped = ground arith;
  accept = ground arith;
  conns = ground arith;
  established = ground arith;
  streams = ground arith;
}

pub register-Rewired :
    (s : State) (token : ℕ) (event : Event) (waker : ℕ)
    → Rewired s [] (at_event token event (some waker) (waker_at s)) (register s token event waker)
unfolding register
register-Rewired s token event waker = record {
  log = sym (append-nil s.woken);
  wakers = λ j k.
      conn-put s token (put Event-discrete event waker (wakers_of s token)) j k
      ∙ ground (
        arith,
        get-put Event-discrete event k waker (wakers_of s token),
        beq_iff ℕ_discrete token j,
      );
  stopped = refl;
  accept = refl;
  conns = refl;
  established = refl;
  streams = refl;
}

pub unregister-Rewired :
    (s : State) (token : ℕ) (event : Event) {conn : List (Event × ℕ)}
    → get ℕ_discrete token s.wakers ≡ some conn
    → Returns (unregister s token event) (Rewired s [] (at_event token event none (waker_at s)))
unfolding unregister
unregister-Rewired s token event {conn} e =
    rw (e, unregister)
      (record {
        log = sym (append-nil s.woken);
        wakers = λ j k.
            conn-put s token (erase Event-discrete event conn) j k
            ∙ ground (arith, get-erase Event-discrete event k conn, beq_iff ℕ_discrete token j, e);
        stopped = refl;
        accept = refl;
        conns = refl;
        established = refl;
        streams = refl;
      })

pub unregister_panics :
    (s : State) (token : ℕ) (event : Event)
    → get ℕ_discrete token s.wakers ≡ none
    → unregister s token event ≡ panic
unfolding unregister
unregister_panics s token event e = rw (e, unregister)
