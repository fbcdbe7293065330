-- ===== src/Futures/Hearing.antt =====
-- crates/futures/src/lib.rs: whether a task hears of the event that it left its waker for.
use native.Mathlib.Decide.{ℕ_discrete}
use rtt.Prelude.{
  ℕ, ◌≡◌, ap, subst, ◌∙◌, inl, inr, ◌⊎◌, Bool, true, false, some, List, [], ◌++◌, ◌||◌, arith,
  value, if◌then◌else◌, append_assoc,
}
use rtt.Prelude.Collections.{beq_iff, contains-append}
use rtt.Api.{EventKind, uni, bidi}
use rtt.Api
use rtt.Futures.{Event, Event-discrete, State, dispatch}
use rtt.Futures.Tasks.{register}
use rtt.Futures.Wakers.{waker_at, to_list, register-Rewired}
use rtt.Futures.Dispatching.{Dispatched, Wakes}
use rtt.Futures.Waiting.{dispatched_lem}
use rtt.Futures.Asking.{is_operation}
use rtt.Futures.Keeping.{is_woken, is_woken_self, Dispatched-Kept}
use rtt.Futures.Meanwhile.{Acts, nothing_done, then_, tells, wanted_by, KeepsAt, Act-KeepsAt}

-- The task was woken since the state `s`; without the event, it may wait for it still.
abbrev pub Heard : Bool → State → ℕ → Event → ℕ → State → Type 0
Heard told s token event waker t =
    (since : List ℕ) × (t.woken ≡ s.woken ++ since)
    × (if told
        then is_woken waker since ≡ true
        else (waker_at t token event ≡ some waker)
        ⊎ (is_woken waker since ≡ true))

woken-Heard :
    (told : Bool) (s : State) (token : ℕ) (event : Event) (waker : ℕ) (t : State) (since : List ℕ)
    → t.woken ≡ s.woken ++ since
    → is_woken waker since ≡ true
    → Heard told s token event waker t
woken-Heard true s token event waker t since log h = (since, log, h)
woken-Heard false s token event waker t since log h = (since, log, inr h)

Heard-KeepsAt :
    (told : Bool) (s t u : State) (token : ℕ) (event : Event) (waker : ℕ)
    → Heard told s token event waker t
    → KeepsAt token event t u
    → Heard told s token event waker u
Heard-KeepsAt true s t u token event waker (since, log, h) (more, grown, keep) =
    let joined = contains-append ℕ_discrete waker since more in
    woken-Heard true s token event waker u (since ++ more)
      (grown ∙ ap (λ l. l ++ more) log ∙ append_assoc s.woken since more) (ground arith)
Heard-KeepsAt false s t u token event waker (since, log, h) (more, grown, keep) =
    let joined = contains-append ℕ_discrete waker since more in
    let log' = grown ∙ ap (λ l. l ++ more) log ∙ append_assoc s.woken since more in
    elim h [
      | inl there ↦ elim (keep waker there) [
        | inl still ↦ (since ++ more, log', inl still)
        | inr woken ↦ woken-Heard false s token event waker u (since ++ more) log' (ground arith)
      ]
      | inr woken ↦ woken-Heard false s token event waker u (since ++ more) log' (ground arith)
    ]

-- Waking the task of an event makes it heard.
Wakes-woken :
    (s t : State) (token : ℕ) (k event : Event) (waker : ℕ)
    → Wakes s s token k t
    → some k ≡ some event
    → waker_at s token event ≡ some waker
    → (since : List ℕ) × (t.woken ≡ s.woken ++ since) × (is_woken waker since ≡ true)
Wakes-woken s t token k event waker w same here =
    let one : k ≡ event = cc in
    (to_list (waker_at s token k), w.log, rw (one, here) (is_woken_self waker))

wanted-woken :
    (s t : State) (kind : EventKind) (token id : ℕ) (event : Event) (waker : ℕ)
    → wanted_by kind id ≡ some event
    → Dispatched s kind token id t
    → waker_at s token event ≡ some waker
    → (since : List ℕ) × (t.woken ≡ s.woken ++ since) × (is_woken waker since ≡ true)
wanted-woken s t EventKind.stream_send token id event waker h d here =
    Wakes-woken s t token _ event waker d h here
wanted-woken s t EventKind.stream_recv token id event waker h d here =
    Wakes-woken s t token _ event waker d h here
wanted-woken s t EventKind.stream_open_bidi token id event waker h d here =
    Wakes-woken s t token _ event waker d h here
wanted-woken s t EventKind.stream_open_uni token id event waker h d here =
    Wakes-woken s t token _ event waker d h here
wanted-woken s t _ token id event waker h d here = absurd (cc)

-- Either was the task woken before, or it is now.
joined-Heard :
    (s t u : State) (token : ℕ) (event : Event) (waker : ℕ) (since more : List ℕ)
    → t.woken ≡ s.woken ++ since
    → u.woken ≡ t.woken ++ more
    → (is_woken waker since ≡ true) ⊎ (is_woken waker more ≡ true)
    → Heard true s token event waker u
joined-Heard s t u token event waker since more log grown either =
    let joined = contains-append ℕ_discrete waker since more in
    (
      since ++ more,
      grown ∙ ap (λ l. l ++ more) log ∙ append_assoc s.woken since more,
      elim either [ inl h ↦ ground arith | inr h ↦ ground arith ],
    )

tells-Heard :
    (told : Bool) (s t u : State) (token : ℕ) (event : Event) (waker : ℕ) (e : Api.Event)
    → Heard told s token event waker t
    → e.token ≡ token
    → wanted_by e.kind e.stream_id ≡ some event
    → dispatch t e ≡ value u
    → Heard true s token event waker u
tells-Heard true s t u token event waker e (since, log, h) same wanted d =
    let k = Dispatched-Kept t e.kind e.token e.stream_id (dispatched_lem t u e d) in
    joined-Heard s t u token event waker since k.since log k.log (inl h)
tells-Heard false s t u token event waker e (since, log, inr h) same wanted d =
    let k = Dispatched-Kept t e.kind e.token e.stream_id (dispatched_lem t u e d) in
    joined-Heard s t u token event waker since k.since log k.log (inl h)
tells-Heard false s t u token event waker e (since, log, inl h) same wanted d =
    let (more, grown, woken) =
      wanted-woken t u e.kind token e.stream_id event waker wanted
        (subst (λ k. Dispatched t e.kind k e.stream_id u) same (dispatched_lem t u e d)) h in
    joined-Heard s t u token event waker since more log grown (inr woken)

pub Acts-Heard :
    {token : ℕ} {event : Event} {s u : State} {told : Bool} (before : Bool) (r : State) (waker : ℕ)
    → is_operation event ≡ true
    → Acts token event s told u
    → Heard before r token event waker s
    → Heard (told || before) r token event waker u
Acts-Heard before r waker op nothing_done h = h
Acts-Heard {token} {event} {s} {u} before r waker op (then_ {told} {t} acts act) h =
    Heard-KeepsAt (told || before) r t u token event waker (Acts-Heard before r waker op acts h)
      (Act-KeepsAt op act)
Acts-Heard {token} {event} {s} {u} before r waker op (tells {told} {t} e acts same wanted d) h =
    tells-Heard (told || before) r t u token event waker e (Acts-Heard before r waker op acts h)
      same wanted d

-- The task has left its waker for the event.
pub register-Heard :
    (s : State) (token : ℕ) (event : Event) (waker : ℕ)
    → Heard false s token event waker (register s token event waker)
register-Heard s token event waker =
    let r = register-Rewired s token event waker in
    (
      [],
      r.log,
      inl (
          ground (
            arith,
            r.wakers token event,
            beq_iff ℕ_discrete token token,
            beq_iff Event-discrete event event,
          )),
    )
