-- ===== src/Pipe/Lock.antt =====
-- crates/ringbuff/src/pipe.rs: `RingBufPipe::lock`, the spin lock under which every method of the
-- pipe runs its closure. Any number of threads run, one step at a time in any order. A closure is
-- not one step: its thread has its own view of the shared state from the exchange that takes the
-- lock to the store that frees it.
use rtt.Prelude.{
  ℕ, ◌≡◌, refl, ap, ◌∙◌, Bool, true, false, List, [], ◌∷◌, arith, ◌==◌, if◌then◌else◌, ==_iff,
}

-- Where a thread stands in `lock`, with the closure that it runs there.
pub data Phase (S : Type 0) : Type 0 where
  outside : Phase S
  spinning : (S → S) → Phase S
  inside : (S → S) → S → Phase S

-- `RingBufPipe`: the lock word and the shared state, with the threads and the closures done so far.
pub record Threads (S : Type 0) : Type 0 where
  pub locker : Bool
  pub inner : S
  pub phase : ℕ → Phase S
  pub finished : List (S → S)

abbrev pub set_phase : {S : Type 0} → (ℕ → Phase S) → ℕ → Phase S → ℕ → Phase S
set_phase f t p u = if t == u then p else f u

-- `call`: a thread calls `lock`. `spin`: `compare_exchange_weak` fails, which it may also do while
-- the lock is free. `acquire`: it succeeds. `release`: the closure is done, and the word is cleared.
pub data Step {S : Type 0} : Threads S → Threads S → Type 0 where
  call :
      (s : Threads S) (t : ℕ) (f : S → S)
      → s.phase t ≡ outside
      → Step s (record s { phase = set_phase s.phase t (spinning f) })
  spin : (s : Threads S) (t : ℕ) (f : S → S) → s.phase t ≡ spinning f → Step s s
  acquire :
      (s : Threads S) (t : ℕ) (f : S → S)
      → s.phase t ≡ spinning f
      → s.locker ≡ false
      → Step s (record s { locker = true; phase = set_phase s.phase t (inside f s.inner) })
  release :
      (s : Threads S) (t : ℕ) (f : S → S) (view : S)
      → s.phase t ≡ inside f view
      → Step s (record s {
        locker = false;
        inner = f view;
        phase = set_phase s.phase t outside;
        finished = f ∷ s.finished;
      })

pub data Reach {S : Type 0} (s : Threads S) : Threads S → Type 0 where
  here : Reach s s
  next : {t u : Threads S} → Reach s t → Step t u → Reach s u

-- no thread in `lock`
unfoldable pub start : {S : Type 0} → S → Threads S
start x = record { locker = false; inner = x; phase = λ _. outside; finished = [] }

-- the closures run one after another, the last at the head of the list
abbrev pub replay : {S : Type 0} → S → List (S → S) → S
replay x [] = x
replay x (f ∷ fs) = f (replay x fs)

-- One thread at most is inside, only while the lock is taken, with an up-to-date view; and the
-- shared state is that of the finished closures run one after another.
pub record Exclusive {S : Type 0} (x : S) (s : Threads S) : Type 0 where
  pub held : (t : ℕ) (f : S → S) (view : S) → s.phase t ≡ inside f view → s.locker ≡ true
  pub alone :
      (t u : ℕ) (f g : S → S) (v w : S) → s.phase t ≡ inside f v → s.phase u ≡ inside g w → t ≡ u
  pub fresh : (t : ℕ) (f : S → S) (view : S) → s.phase t ≡ inside f view → view ≡ s.inner
  pub serial : s.inner ≡ replay x s.finished

module _ {S : Type 0} (x : S) where
  pub start-Exclusive : Exclusive x (start x)
  unfolding start
  start-Exclusive = record {
    held = λ t f view e. cc;
    alone = λ t u f g v w e d. cc;
    fresh = λ t f view e. cc;
    serial = refl;
  }

  Step-Exclusive : {s t : Threads S} → Step s t → Exclusive x s → Exclusive x t
  Step-Exclusive (call s t f e) h = record {
    held = λ u g view p. ground (arith, ==_iff t u, h.held u g view);
    alone = λ u w f' g v v' p q. ground (arith, ==_iff t u, ==_iff t w, h.alone u w f' g v v');
    fresh = λ u g view p. ground (arith, ==_iff t u, h.fresh u g view);
    serial = h.serial;
  }
  Step-Exclusive (spin s t f e) h = h
  Step-Exclusive (acquire s t f e free) h = record {
    held = λ u g view p. refl;
    alone =
        λ u w f' g v v' p q. ground (arith, ==_iff t u, ==_iff t w, h.held u f' v, h.held w g v');
    fresh = λ u g view p. ground (arith, ==_iff t u, h.held u g view);
    serial = h.serial;
  }
  Step-Exclusive (release s t f view e) h = record {
    held = λ u g v p. ground (arith, ==_iff t u, h.alone t u f g view v e);
    alone = λ u w f' g v v' p q. ground (arith, ==_iff t u, ==_iff t w, h.alone u w f' g v v');
    fresh = λ u g v p. ground (arith, ==_iff t u, h.alone t u f g view v e);
    serial = ap f (h.fresh t f view e ∙ h.serial);
  }

  -- However the threads interleave, every state reached from an unlocked pipe has at most one
  -- thread inside the lock, whose view of the shared state is up to date; and the shared state is
  -- the one that the finished closures give when they run one after another.
  pub Reach-Exclusive : {s : Threads S} → Reach (start x) s → Exclusive x s
  Reach-Exclusive here = start-Exclusive
  Reach-Exclusive (next r st) = Step-Exclusive st (Reach-Exclusive r)
