-- ===== src/Prelude/Maps.antt =====
-- `HashMap` of the Rust code, as a list of keys and values in which the first of a key counts.
use mathlib.Core.Path.{◌≡◌, ◌∙◌}
use mathlib.Core.Logic.{◌≢◌, ◌⊎◌, inl, inr}
use mathlib.Core.Bool.{Bool, true, false}
use mathlib.Core.Option.{Option, none, some}
use mathlib.Core.List.{List, [], ◌∷◌}
use native.Mathlib.Omega.{arith}
use rtt.Prelude.Tests.{if◌then◌else◌}
use Prim.Native.Nat.{◌≤◌, ◌<◌}
use rtt.Prelude.Lists.{length}
use rtt.Prelude.Collections.{beq, beq_iff, beq_self}

-- whether a key was found
abbrev pub is_some {ℓ} : {A : Type ℓ} → Option A → Bool
is_some none = false
is_some (some a) = true

module _ {K V : Type 0} (dec : Discrete K) where
  unfoldable pub get : K → List (K × V) → Option V
  get k [] = none
  get k ((k', v) ∷ rest) = if beq dec k' k then some v else get k rest

  unfoldable pub erase : K → List (K × V) → List (K × V)
  erase k [] = []
  erase k ((k', v) ∷ rest) = if beq dec k' k then erase k rest else (k', v) ∷ erase k rest

  abbrev pub put : K → V → List (K × V) → List (K × V)
  put k v m = (k, v) ∷ erase k m

  pub get-erase :
      (k j : K) (m : List (K × V)) → get j (erase k m) ≡ (if beq dec k j then none else get j m)
  unfolding get erase
  get-erase k j [] = ground arith
  get-erase k j ((k', v) ∷ rest) = ground (arith, get-erase k j rest)

  pub get-put :
      (k j : K) (v : V) (m : List (K × V))
      → get j (put k v m) ≡ (if beq dec k j then some v else get j m)
  unfolding get
  get-put k j v m = ground (arith, get-erase k j m)

  pub get-put_self : (k : K) (v : V) (m : List (K × V)) → get k (put k v m) ≡ some v
  get-put_self k v m = get-put k k v m ∙ rw (beq_self dec k)

  pub get-erase_self : (k : K) (m : List (K × V)) → get k (erase k m) ≡ none
  get-erase_self k m = get-erase k k m ∙ rw (beq_self dec k)

  -- Another key keeps what it has.
  pub get-erase_other : (k j : K) (m : List (K × V)) → j ≢ k → get j (erase k m) ≡ get j m
  get-erase_other k j m other = ground (arith, get-erase k j m, beq_iff dec k j)

  pub get-put_other : (k j : K) (v : V) (m : List (K × V)) → j ≢ k → get j (put k v m) ≡ get j m
  get-put_other k j v m other = ground (arith, get-put k j v m, beq_iff dec k j)

  -- A key that is found after an insertion or a removal was inserted, or was there.
  pub put_cases :
      (k j : K) (v w : V) (m : List (K × V))
      → get j (put k v m) ≡ some w
      → ((j ≡ k) × (w ≡ v)) ⊎ ((j ≢ k) × (get j m ≡ some w))
  put_cases k j v w m h = elim (dec j k) [
    | yes same ↦ inl (same, ground (arith, get-put k j v m, beq_iff dec k j))
    | no other ↦ inr (other, ground (arith, get-put k j v m, beq_iff dec k j))
  ]

  pub erase_found :
      (k j : K) (w : V) (m : List (K × V))
      → get j (erase k m) ≡ some w
      → (j ≢ k) × (get j m ≡ some w)
  erase_found k j w m h = elim (dec j k) [
    | yes same ↦ absurd (ground (arith, get-erase k j m, beq_iff dec k j))
    | no other ↦ (other, ground (arith, get-erase k j m, beq_iff dec k j))
  ]

  pub length-erase : (k : K) (m : List (K × V)) → length (erase k m) ≤ length m
  unfolding erase
  length-erase k [] = omega arith
  length-erase k ((k', v) ∷ rest) = ground (arith, length-erase k rest)

  pub length-erase_found :
      (k : K) (m : List (K × V)) → is_some (get k m) ≡ true → length (erase k m) < length m
  unfolding get erase
  length-erase_found k [] h = ground arith
  length-erase_found k ((k', v) ∷ rest) h =
      ground (arith, length-erase k rest, length-erase_found k rest)
