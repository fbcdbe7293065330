-- ===== src/Prelude/Panics.antt =====
-- Code that may panic: a failed `assert!`, an index out of range, `unreachable!`.
use mathlib.Core.Path.{◌≡◌, refl, subst}
use mathlib.Core.Bool.{Bool, true, false}
use rtt.Prelude.Tests.{if◌then◌else◌}

pub data Checked {ℓ} (A : Type ℓ) : Type ℓ where
  value : A → Checked A
  panic : Checked A

infixl 5 ◌>>=◌ ◌>>◌
abbrev pub ◌>>=◌ {ℓ κ} : {A : Type ℓ} {B : Type κ} → Checked A → (A → Checked B) → Checked B
value a >>= f = f a
panic >>= f = panic

abbrev pub ◌>>◌ {ℓ} : {B : Type ℓ} → Checked (Unit {0}) → Checked B → Checked B
m >> k = m >>= λ _. k

-- `assert!(b)`
abbrev pub assert : Bool → Checked (Unit {0})
assert true = value tt
assert false = panic

-- The code returns, and its result satisfies `P`.
abbrev pub Returns {ℓ} : {A : Type ℓ} → Checked A → (A → Type 0) → Type 0
Returns (value a) P = P a
Returns panic P = ⊥

pub Returns_bind {ℓ κ} :
    {A : Type ℓ} {B : Type κ} {P : A → Type 0} (Q : B → Type 0) (m : Checked A) (f : A → Checked B)
    → Returns m P
    → ((a : A) → P a → Returns (f a) Q)
    → Returns (m >>= f) Q
Returns_bind Q (value a) f h k = k a h
Returns_bind Q panic f h k = h

pub Returns_weaken {ℓ} :
    {A : Type ℓ} (P Q : A → Type 0) (m : Checked A)
    → Returns m P
    → ((a : A) → P a → Q a)
    → Returns m Q
Returns_weaken P Q (value a) h k = k a h
Returns_weaken P Q panic h k = h

pub Returns_at {ℓ} :
    {A : Type ℓ} (P : A → Type 0) (m : Checked A) {a : A} → Returns m P → m ≡ value a → P a
Returns_at P m h e = subst (λ m. Returns m P) e h

-- If the code returns, its result satisfies `P`.
abbrev pub IfReturns {ℓ} : {A : Type ℓ} → Checked A → (A → Type 0) → Type 0
IfReturns (value a) P = P a
IfReturns panic P = Unit {0}

pub IfReturns_bind {ℓ κ} :
    {A : Type ℓ} {B : Type κ} (Q : B → Type 0) (m : Checked A) (f : A → Checked B)
    → IfReturns m (λ a. IfReturns (f a) Q)
    → IfReturns (m >>= f) Q
IfReturns_bind Q (value a) f h = h
IfReturns_bind Q panic f h = h

pub IfReturns_eq {ℓ} :
    {A : Type ℓ} (P : A → Type 0) (m : Checked A) → ((a : A) → m ≡ value a → P a) → IfReturns m P
IfReturns_eq P (value a) h = h a refl
IfReturns_eq P panic h = tt

pub IfReturns_at {ℓ} :
    {A : Type ℓ} (P : A → Type 0) (m : Checked A) {a : A} → IfReturns m P → m ≡ value a → P a
IfReturns_at P m h e = subst (λ m. IfReturns m P) e h

pub IfReturns_weaken {ℓ} :
    {A : Type ℓ} (P Q : A → Type 0) (m : Checked A)
    → IfReturns m P
    → ((a : A) → P a → Q a)
    → IfReturns m Q
IfReturns_weaken P Q (value a) h k = k a h
IfReturns_weaken P Q panic h k = tt

-- Code whose first part keeps `P`, if it returns.
pub IfReturns_chain {ℓ κ} :
    {A : Type ℓ} {B : Type κ} {P : A → Type 0} (Q : B → Type 0) (m : Checked A) (f : A → Checked B)
    → IfReturns m P
    → ((a : A) → P a → IfReturns (f a) Q)
    → IfReturns (m >>= f) Q
IfReturns_chain Q (value a) f h k = k a h
IfReturns_chain Q panic f h k = tt

-- Code whose rest does, whatever its first part gives.
pub IfReturns_then {ℓ κ} :
    {A : Type ℓ} {B : Type κ} (Q : B → Type 0) (m : Checked A) (f : A → Checked B)
    → ((a : A) → IfReturns (f a) Q)
    → IfReturns (m >>= f) Q
IfReturns_then Q (value a) f k = k a
IfReturns_then Q panic f k = tt

-- Code that returns with `P` returns, if at all, with what follows from it.
pub IfReturns_of {ℓ} :
    {A : Type ℓ} (P Q : A → Type 0) (m : Checked A)
    → Returns m P
    → ((a : A) → P a → Q a)
    → IfReturns m Q
IfReturns_of P Q (value a) h k = k a h
IfReturns_of P Q panic h k = tt

-- A branch on a test, with the test's value as a hypothesis.
pub IfReturns_if {ℓ} :
    {A : Type ℓ} (P : A → Type 0) (b : Bool) (m n : Checked A)
    → (b ≡ true → IfReturns m P)
    → (b ≡ false → IfReturns n P)
    → IfReturns (if b then m else n) P
IfReturns_if P true m n h k = h refl
IfReturns_if P false m n h k = k refl

pub Returns_if {ℓ} :
    {A : Type ℓ} (P : A → Type 0) (b : Bool) (m n : Checked A)
    → (b ≡ true → Returns m P)
    → (b ≡ false → Returns n P)
    → Returns (if b then m else n) P
Returns_if P true m n h k = h refl
Returns_if P false m n h k = k refl

pub Returns_choose {ℓ} :
    {A : Type ℓ} (b : Bool) (m n : Checked A) (P Q : A → Type 0)
    → Returns m P
    → Returns n Q
    → Returns (if b then m else n) (λ a. if b then P a else Q a)
Returns_choose true m n P Q h k = h
Returns_choose false m n P Q h k = k
