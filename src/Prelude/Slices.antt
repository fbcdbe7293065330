-- ===== src/Prelude/Slices.antt =====
-- Slices of lists that were put together.
use Prim.Native.Nat.{ℕ, ◌+◌, ◌-◌}
use mathlib.Core.Path.{◌≡◌, refl, ap, ◌∙◌}
use mathlib.Core.List.{List, [], ◌∷◌, ◌++◌}
use native.Mathlib.Omega.{arith}
use rtt.Prelude.Panics.{value}
use rtt.Prelude.Lists.{length, take, drop, slice, slice_lem, length-append}

module _ {ℓ} {A : Type ℓ} where
  pub take-append : (xs ys : List A) → take (length xs) (xs ++ ys) ≡ xs
  take-append [] ys = refl
  take-append (x ∷ xs) ys = ap (◌∷◌ x) (take-append xs ys)

  pub drop-append : (xs ys : List A) → drop (length xs) (xs ++ ys) ≡ ys
  drop-append [] ys = refl
  drop-append (x ∷ xs) ys = drop-append xs ys

  -- the middle of three parts, by its ends
  pub slice-append :
      (xs ys zs : List A) (start stop : ℕ)
      → start ≡ length xs
      → stop ≡ length xs + length ys
      → slice (xs ++ (ys ++ zs)) start stop ≡ value ys
  slice-append xs ys zs start stop h k =
      let all = length-append xs (ys ++ zs) in
      let rest = length-append ys zs in
      let size : stop - start ≡ length ys = omega arith in
      slice_lem (xs ++ (ys ++ zs)) start stop (omega arith) (omega arith)
      ∙ ap value (
          ap (λ n. take n (drop start (xs ++ (ys ++ zs)))) size
          ∙ ap (λ n. take (length ys) (drop n (xs ++ (ys ++ zs)))) h
          ∙ ap (take (length ys)) (drop-append xs (ys ++ zs))
          ∙ take-append ys zs)
