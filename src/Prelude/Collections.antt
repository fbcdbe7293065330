-- ===== src/Prelude/Collections.antt =====
-- `HashSet` and `HashMap` of the Rust code, as lists without repetitions. The order of the list is
-- the order in which the collection is iterated over: theorems range over it.
use mathlib.Core.Path.{◌≡◌, refl, ap₂}
use mathlib.Core.Logic.{◌↔◌}
use mathlib.Core.Bool.{Bool, true, false}
use mathlib.Core.List.{List, [], ◌∷◌, ◌++◌}
use native.Mathlib.Omega.{arith}
use rtt.Prelude.Tests.{if◌then◌else◌}

pub cons_head : {A : Type 0} {x y : A} {xs ys : List A} → x ∷ xs ≡ y ∷ ys → x ≡ y
cons_head e = ground arith

pub cons_tail : {A : Type 0} {x y : A} {xs ys : List A} → x ∷ xs ≡ y ∷ ys → xs ≡ ys
cons_tail e = ground arith

-- `==` on sequences
unfoldable pub list_discrete : {A : Type 0} → Discrete A → Discrete (List A)
list_discrete dec [] [] = yes refl
list_discrete dec [] (y ∷ ys) = no (λ e. cc)
list_discrete dec (x ∷ xs) [] = no (λ e. cc)
list_discrete dec (x ∷ xs) (y ∷ ys) =
    let rest = list_discrete dec xs ys in
    elim (dec x y) [
      | yes p ↦ elim rest [ yes q ↦ yes (ap₂ ◌∷◌ p q) | no q ↦ no (λ e. q (cons_tail e)) ]
      | no p ↦ no (λ e. p (cons_head e))
    ]

module _ {A : Type 0} (dec : Discrete A) where
  -- `a == b`
  abbrev pub beq : A → A → Bool
  beq a b = elim (dec a b) [ yes p ↦ true | no p ↦ false ]

  unfoldable pub contains : A → List A → Bool
  contains a [] = false
  contains a (x ∷ xs) = if beq x a then true else contains a xs

  unfoldable pub insert : A → List A → List A
  insert a xs = if contains a xs then xs else a ∷ xs

  unfoldable pub remove : A → List A → List A
  remove a [] = []
  remove a (x ∷ xs) = if beq x a then remove a xs else x ∷ remove a xs

  pub beq_iff : (a b : A) → (beq a b ≡ true) ↔ (a ≡ b)
  beq_iff a b = ground arith

  pub beq_self : (a : A) → beq a a ≡ true
  beq_self a = ground arith

  pub contains-insert :
      (a b : A) (xs : List A) → contains b (insert a xs) ≡ (if beq a b then true else contains b xs)
  unfolding contains insert
  contains-insert a b xs = ground arith

  pub contains-remove :
      (a b : A) (xs : List A)
      → contains b (remove a xs) ≡ (if beq a b then false else contains b xs)
  unfolding contains remove
  contains-remove a b [] = ground arith
  contains-remove a b (x ∷ xs) = ground (arith, contains-remove a b xs)

  pub contains-append :
      (a : A) (xs ys : List A)
      → contains a (xs ++ ys) ≡ (if contains a xs then true else contains a ys)
  unfolding contains
  contains-append a [] ys = refl
  contains-append a (x ∷ xs) ys = ground (arith, contains-append a xs ys)
