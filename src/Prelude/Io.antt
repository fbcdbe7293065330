-- ===== src/Prelude/Io.antt =====
-- `Result`, and the parts of std::io and std::task that the code returns.
use mathlib.Core.Path.{◌≡◌, refl}
use mathlib.Core.Logic.{◌⊎◌, inl, inr}

pub data Result {ℓ κ} (E : Type κ) (A : Type ℓ) : Type (ℓ ⊔ κ) where
  ok : A → Result E A
  err : E → Result E A

-- `ErrorKind`, less the kinds that the code never makes nor tests
pub data ErrorKind : Type 0 where
  would_block not_found broken_pipe other : ErrorKind

-- `std::io::Result`, whose errors are told apart by their kind
abbrev pub IoResult {ℓ} : Type ℓ → Type ℓ
IoResult A = Result ErrorKind A

-- `Poll`
pub data Poll {ℓ} (A : Type ℓ) : Type ℓ where
  ready : A → Poll A
  pending : Poll A

pub Result-cases {ℓ κ} :
    {E : Type κ} {A : Type ℓ} (r : Result E A) → ((a : A) × (r ≡ ok a)) ⊎ ((e : E) × (r ≡ err e))
Result-cases (ok a) = inl (a, refl)
Result-cases (err e) = inr (e, refl)
