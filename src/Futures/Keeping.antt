-- ===== src/Futures/Keeping.antt =====
-- crates/futures/src/lib.rs: no waker is lost. A waker that is registered stays so until its task is
-- woken, whatever the background thread dispatches.
use native.Mathlib.Decide.{ℕ_discrete}
use rtt.Prelude.{
  ℕ, ◌≡◌, refl, inl, inr, ◌⊎◌, Bool, true, some, List, [], ◌∷◌, ◌++◌, append-nil, append_assoc, sym,
  ap, arith, Option-cases, ◌∙◌, IfReturns, IfReturns_bind, IfReturns_eq, IfReturns_weaken,
}
use rtt.Prelude.Collections.{beq_iff, contains, contains-append}
use rtt.Prelude.Maps.{get}
use rtt.Api.{EventKind}
use rtt.Api
use rtt.Futures.{
  Event, Event-discrete, Wakers, tasks, all_tasks, State, connected, stream_accept,
  stream_open_bidi, stream_open_uni, stream_send, stream_recv, stop, dispatch, dispatch_all,
}
use rtt.Futures.Tasks.{wakers_of}
use rtt.Futures.Wakers.{waker_at, to_list, get_nil}
use rtt.Futures.Dispatching.{Dispatched, Closes, Wakes, stop_lem}
use rtt.Futures.Waiting.{dispatched_lem}

-- whether a task is among those woken from one state to another
abbrev pub is_woken : ℕ → List ℕ → Bool
is_woken waker woken = contains ℕ_discrete waker woken

-- Each waker of the first state is one of the second, or its task was woken in between.
pub record Kept (s t : State) : Type 0 where
  pub since : List ℕ
  pub log : t.woken ≡ s.woken ++ since
  pub kept :
      (token : ℕ) (event : Event) (waker : ℕ)
      → waker_at s token event ≡ some waker
      → (waker_at t token event ≡ some waker) ⊎ (is_woken waker since ≡ true)

pub Kept-refl : (s : State) → Kept s s
Kept-refl s = record { since = []; log = sym (append-nil s.woken); kept = λ j k waker e. inl e }

pub Kept-trans : {s t u : State} → Kept s t → Kept t u → Kept s u
Kept-trans {s} {t} {u} h k = record {
  since = h.since ++ k.since;
  log = k.log ∙ ap (λ l. l ++ k.since) h.log ∙ append_assoc s.woken h.since k.since;
  kept = λ j e waker p.
      let joined = contains-append ℕ_discrete waker h.since k.since in
      elim (h.kept j e waker p) [
        | inl q ↦ elim (k.kept j e waker q) [ inl r ↦ inl r | inr r ↦ inr (ground arith) ]
        | inr q ↦ inr (ground arith)
      ];
}

pub is_woken_self : (waker : ℕ) → is_woken waker (waker ∷ []) ≡ true
unfolding contains
is_woken_self waker = ground (arith, beq_iff ℕ_discrete waker waker)

-- Waking the task of one event keeps the others.
pub Wakes-Kept :
    (s queued : State) (token : ℕ) (event : Event) {t : State}
    → queued.woken ≡ s.woken
    → Wakes s queued token event t
    → Kept s t
Wakes-Kept s queued token event same w = record {
  since = to_list (waker_at s token event);
  log = w.log ∙ ap (λ l. l ++ to_list (waker_at s token event)) same;
  kept = λ j k waker e. elim (ℕ_discrete token j) [
    | no other ↦ inl (ground (arith, w.wakers j k, beq_iff ℕ_discrete token j))
    | yes one ↦ elim (Event-discrete event k) [
      | no other ↦ inl (ground (arith, w.wakers j k, beq_iff Event-discrete event k))
      | yes same ↦ inr (rw (one, same, e) (is_woken_self waker))
    ]
  ];
}

is_woken-tasks :
    (event : Event) (waker : ℕ) (conn : Wakers)
    → get Event-discrete event conn ≡ some waker
    → is_woken waker (tasks conn) ≡ true
unfolding get contains
is_woken-tasks event waker [] h = absurd (cc)
is_woken-tasks event waker ((k, v) ∷ rest) h =
    ground (arith, is_woken-tasks event waker rest, beq_iff ℕ_discrete v waker)

is_woken-all_tasks :
    (token : ℕ) (waker : ℕ) (m : List (ℕ × Wakers)) (conn : Wakers)
    → get ℕ_discrete token m ≡ some conn
    → is_woken waker (tasks conn) ≡ true
    → is_woken waker (all_tasks m) ≡ true
unfolding get
is_woken-all_tasks token waker [] conn e h = absurd (cc)
is_woken-all_tasks token waker ((j, c) ∷ rest) conn e h = ground (
  arith,
  contains-append ℕ_discrete waker (tasks c) (all_tasks rest),
  is_woken-all_tasks token waker rest conn,
)

-- a waker of a connection is one of its tasks
waker_at-tasks :
    (s : State) (token : ℕ) (event : Event) (waker : ℕ)
    → waker_at s token event ≡ some waker
    → (conn : Wakers) × (get ℕ_discrete token s.wakers ≡ some conn)
      × (is_woken waker (tasks conn) ≡ true)
waker_at-tasks s token event waker h = elim (Option-cases (get ℕ_discrete token s.wakers)) [
  | inl e ↦ absurd (ground (arith, get_nil event))
  | inr (conn, e) ↦ (conn, e, is_woken-tasks event waker conn (ground arith))
]

closed-Kept : (s : State) (token : ℕ) {t : State} → Closes s token t → Kept s t
closed-Kept s token c = record {
  since = tasks (wakers_of s token);
  log = c.log;
  kept = λ j k waker e. elim (ℕ_discrete token j) [
    | no other ↦ inl (ground (arith, c.wakers j k, beq_iff ℕ_discrete token j))
    | yes one ↦
        let (conn, found, woken) = waker_at-tasks s j k waker e in
        inr (rw (one, found, wakers_of) woken)
  ];
}

pub stop-Kept : (s : State) → Kept s (stop s)
stop-Kept s = rw (stop_lem s) (record {
  since = to_list s.accept ++ all_tasks s.wakers;
  log = append_assoc s.woken (to_list s.accept) (all_tasks s.wakers);
  kept = λ j k waker e.
      let (conn, found, woken) = waker_at-tasks s j k waker e in
      let all = is_woken-all_tasks j waker s.wakers conn found woken in
      inr
        (ground (arith, contains-append ℕ_discrete waker (to_list s.accept) (all_tasks s.wakers)));
})

pub Dispatched-Kept :
    (s : State) (kind : EventKind) (token id : ℕ) {t : State}
    → Dispatched s kind token id t
    → Kept s t
Dispatched-Kept s EventKind.connected token id w = Wakes-Kept s _ token connected refl w
Dispatched-Kept s EventKind.accept token id {t} w = record {
  since = to_list s.accept;
  log = rw w;
  kept = λ j k waker e. inl (rw w e);
}
Dispatched-Kept s EventKind.closed token id w = closed-Kept s token w
Dispatched-Kept s EventKind.stream_open_bidi token id w =
    Wakes-Kept s s token stream_open_bidi refl w
Dispatched-Kept s EventKind.stream_open_uni token id w = Wakes-Kept s s token stream_open_uni refl w
Dispatched-Kept s EventKind.stream_accept token id w = Wakes-Kept s _ token stream_accept refl w
Dispatched-Kept s EventKind.stream_send token id w = Wakes-Kept s s token (stream_send id) refl w
Dispatched-Kept s EventKind.stream_recv token id w = Wakes-Kept s s token (stream_recv id) refl w
Dispatched-Kept s EventKind.send token id w = elim w [ ]
Dispatched-Kept s EventKind.recv token id w = elim w [ ]
Dispatched-Kept s EventKind.read_lock token id w = elim w [ ]

-- Dispatching any list of events keeps each waker until its task is woken.
pub dispatch_all-Kept : (s : State) (es : List Api.Event) → IfReturns (dispatch_all s es) (Kept s)
unfolding dispatch_all
dispatch_all-Kept s [] = Kept-refl s
dispatch_all-Kept s (e ∷ es) = IfReturns_bind (Kept s) (dispatch s e) _ (
    IfReturns_eq _ (dispatch s e) λ t h.
      IfReturns_weaken (Kept t) (Kept s) (dispatch_all t es) (dispatch_all-Kept t es)
        λ u k. Kept-trans (Dispatched-Kept s e.kind e.token e.stream_id (dispatched_lem s t e h)) k)
