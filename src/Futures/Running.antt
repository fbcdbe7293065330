-- ===== src/Futures/Running.antt =====
-- crates/futures/src/lib.rs: the loop of the background thread.
use rtt.Prelude.{
  ◌≡◌, Bool, true, false, Option, some, List, [], ◌∷◌, ◌&&◌, arith, IfReturns, IfReturns_bind,
  IfReturns_weaken, value, inl, inr,
}
use rtt.Prelude.Io.{ok, err, IoResult, Result-cases}
use rtt.Futures.{State, new, dispatch_all, QuicBind, Worker, run_once, run}
use rtt.Futures.Stepping.{Reach, Reach-Awake, dispatch_all-Reach}

-- The loop ended without an error.
abbrev pub Ended : Option (IoResult (Unit {0})) → Type 0
Ended (some (ok u)) = Unit {0}
Ended _ = ⊥

-- the critical sections of other threads before each round
abbrev pub AreSteps : {W : Type 0} → (W → State) → List (W → W) → Type 0
AreSteps state [] = Unit {0}
AreSteps {W} state (f ∷ fs) =
    ((w : W) → Reach new (state w) → Reach new (state (f w))) × AreSteps state fs

and_false : (b c : Bool) → c ≡ false → (b && c) ≡ false
and_false b c h = ground arith

module _ (b : QuicBind) where
  abbrev IsReached : Worker b → Type 0
  IsReached w = Reach new w.state

  abbrev NotEnded : IoResult Bool → Type 0
  NotEnded (ok done) = done ≡ false
  NotEnded (err x) = Unit {0}

  run_once-NotEnded :
      (w : Worker b) → IsReached w → IfReturns (run_once b w) λ t. IsReached t.0 × NotEnded t.1
  unfolding run_once
  run_once-NotEnded w r = elim (Result-cases (b.poll w.group).1) [
    | inl ((events, release), e) ↦
        rw (e, run_once)
          (IfReturns_bind _ (dispatch_all w.state events) _ (
            IfReturns_weaken (Reach new) _ (dispatch_all w.state events)
              (dispatch_all-Reach w.state new events r)
              λ s k. (k, and_false _ s.stopped (Reach-Awake k).live)))
    | inr (x, e) ↦ rw (e, run_once) (r, tt)
  ]

  -- However many rounds the background thread runs from a reachable state, and whatever critical
  -- sections, `stop` included, other threads run between them, `run` never returns without an
  -- error.
  pub run_never_ends :
      (rounds : List (Worker b → Worker b)) (w : Worker b)
      → Reach new w.state
      → AreSteps (λ (v : Worker b). v.state) rounds
      → IfReturns (run b rounds w) λ t. ¬ Ended t.1
  unfolding run
  run_never_ends [] w r h = λ e. e
  run_never_ends (f ∷ fs) w r h = IfReturns_bind _ (run_once b (f w)) _ (
      IfReturns_weaken (λ t. IsReached t.0 × NotEnded t.1) _ (run_once b (f w))
        (run_once-NotEnded (f w) (h.0 w r))
        λ t k. go fs t.0 t.1 k.0 k.1 (run_never_ends fs t.0 k.0 h.1))
    where
      go :
          (fs : List (Worker b → Worker b)) (w : Worker b) (r : IoResult Bool)
          → IsReached w
          → NotEnded r
          → IfReturns (run b fs w) (λ t. ¬ Ended t.1)
          → IfReturns
              (elim r [
                | err x ↦ value (w, some (err x))
                | ok true ↦ value (w, some (ok tt))
                | ok false ↦ run b fs w
              ])
              λ t. ¬ Ended t.1
      go fs w (err x) k n h = λ e. e
      go fs w (ok true) k n h = absurd (cc)
      go fs w (ok false) k n h = h
