-- ===== src/Prelude/Lists.antt =====
-- Lists measured and indexed by native numbers, and Rust's slices over them.
use Prim.Native.Nat.{ℕ, zero, suc, ◌+◌, ◌-◌, ◌≤◌, ◌<◌, min}
use mathlib.Core.Path.{◌≡◌, refl, ap, ap₂, ◌∙◌}
use mathlib.Core.Bool.{◌&&◌}
use mathlib.Core.Option.{Option, none, some}
use mathlib.Core.Logic.{◌⊎◌, inl, inr}
use mathlib.Core.List.{List, [], ◌∷◌, ◌++◌}
use native.Mathlib.Omega.{arith}
use rtt.Prelude.Tests.{leb, ltb, ◌==◌, if◌then◌else◌, le→leb, ==_iff}
use rtt.Prelude.Panics.{Checked, value, panic}

module _ {ℓ} {A : Type ℓ} where
  abbrev pub length : List A → ℕ
  length [] = 0
  length (x ∷ xs) = suc (length xs)

  abbrev pub get_or : List A → ℕ → A → A
  get_or [] i d = d
  get_or (x ∷ xs) zero d = x
  get_or (x ∷ xs) (suc i) d = get_or xs i d

  abbrev pub get_elem? : List A → ℕ → Option A
  get_elem? [] i = none
  get_elem? (x ∷ xs) zero = some x
  get_elem? (x ∷ xs) (suc i) = get_elem? xs i

  -- A write out of bounds changes nothing.
  abbrev pub set : List A → ℕ → A → List A
  set [] i v = []
  set (x ∷ xs) zero v = v ∷ xs
  set (x ∷ xs) (suc i) v = x ∷ set xs i v

  abbrev pub take : ℕ → List A → List A
  take zero xs = []
  take (suc n) [] = []
  take (suc n) (x ∷ xs) = x ∷ take n xs

  abbrev pub drop : ℕ → List A → List A
  drop zero xs = xs
  drop (suc n) [] = []
  drop (suc n) (x ∷ xs) = drop n xs

  abbrev pub replicate : ℕ → A → List A
  replicate zero a = []
  replicate (suc n) a = a ∷ replicate n a

  pub get_elem?-set :
      (xs : List A) (i j : ℕ) (v w : A)
      → get_elem? xs i ≡ some w
      → get_elem? (set xs i v) j ≡ (if i == j then some v else get_elem? xs j)
  get_elem?-set [] i j v w h = absurd (cc)
  get_elem?-set (x ∷ xs) zero zero v w h = ground arith
  get_elem?-set (x ∷ xs) zero (suc j) v w h = ground arith
  get_elem?-set (x ∷ xs) (suc i) zero v w h = ground arith
  get_elem?-set (x ∷ xs) (suc i) (suc j) v w h = ground (arith, get_elem?-set xs i j v w h)

  -- One more element at the end.
  pub get_elem?-snoc :
      (xs : List A) (v : A) (j : ℕ)
      → get_elem? (xs ++ (v ∷ [])) j ≡ (if length xs == j then some v else get_elem? xs j)
  get_elem?-snoc [] v zero = ground arith
  get_elem?-snoc [] v (suc j) = ground arith
  get_elem?-snoc (x ∷ xs) v zero = ground arith
  get_elem?-snoc (x ∷ xs) v (suc j) = ground (arith, get_elem?-snoc xs v j)

  -- An index with an element is below the length.
  pub get_elem?-lt : (xs : List A) (j : ℕ) (v : A) → get_elem? xs j ≡ some v → j < length xs
  get_elem?-lt [] j v h = absurd (cc)
  get_elem?-lt (x ∷ xs) zero v h = omega arith
  get_elem?-lt (x ∷ xs) (suc j) v h = omega (arith, get_elem?-lt xs j v h)

  pub length-append : (xs ys : List A) → length (xs ++ ys) ≡ length xs + length ys
  length-append [] ys = omega arith
  length-append (x ∷ xs) ys = omega (arith, length-append xs ys)

  pub length-take : (n : ℕ) (xs : List A) → length (take n xs) ≡ min n (length xs)
  length-take zero xs = omega arith
  length-take (suc n) [] = omega arith
  length-take (suc n) (x ∷ xs) = omega (arith, length-take n xs)

  pub length-drop : (n : ℕ) (xs : List A) → length (drop n xs) ≡ length xs - n
  length-drop zero xs = omega arith
  length-drop (suc n) [] = omega arith
  length-drop (suc n) (x ∷ xs) = omega (arith, length-drop n xs)

  pub length-replicate : (n : ℕ) (a : A) → length (replicate n a) ≡ n
  length-replicate zero a = refl
  length-replicate (suc n) a = ap suc (length-replicate n a)

  pub take-append-drop : (n : ℕ) (xs : List A) → take n xs ++ drop n xs ≡ xs
  take-append-drop zero xs = refl
  take-append-drop (suc n) [] = refl
  take-append-drop (suc n) (x ∷ xs) = ap (◌∷◌ x) (take-append-drop n xs)

  pub take-length : (n : ℕ) (xs : List A) → take (length (take n xs)) xs ≡ take n xs
  take-length zero xs = refl
  take-length (suc n) [] = refl
  take-length (suc n) (x ∷ xs) = ap (◌∷◌ x) (take-length n xs)

  pub take-take-append :
      (n : ℕ) (xs ys : List A) → n ≤ length xs → take n (take n xs ++ ys) ≡ take n xs
  take-take-append zero xs ys h = refl
  take-take-append (suc n) [] ys h = elim h [ ]
  take-take-append (suc n) (x ∷ xs) ys h = ap (◌∷◌ x) (take-take-append n xs ys (omega arith))

  pub take_all : (n : ℕ) (xs : List A) → length xs ≤ n → take n xs ≡ xs
  take_all zero [] h = refl
  take_all zero (x ∷ xs) h = absurd (omega arith)
  take_all (suc n) [] h = refl
  take_all (suc n) (x ∷ xs) h = ap (◌∷◌ x) (take_all n xs (omega arith))

  -- Element `i` of a concatenation, a prefix and a suffix.
  pub get_or-append :
      (xs ys : List A) (i : ℕ) (d : A)
      → get_or (xs ++ ys) i d
        ≡ (if ltb i (length xs) then get_or xs i d else get_or ys (i - length xs) d)
  get_or-append [] ys zero d = refl
  get_or-append [] ys (suc i) d = ground arith
  get_or-append (x ∷ xs) ys zero d = ground arith
  get_or-append (x ∷ xs) ys (suc i) d = ground (arith, get_or-append xs ys i d)

  pub get_or-take :
      (n : ℕ) (xs : List A) (i : ℕ) (d : A) → i < n → get_or (take n xs) i d ≡ get_or xs i d
  get_or-take zero xs i d h = elim h [ ]
  get_or-take (suc n) [] i d h = refl
  get_or-take (suc n) (x ∷ xs) zero d h = refl
  get_or-take (suc n) (x ∷ xs) (suc i) d h = get_or-take n xs i d (omega arith)

  pub get_or-drop :
      (n : ℕ) (xs : List A) (i : ℕ) (d : A) → get_or (drop n xs) i d ≡ get_or xs (n + i) d
  get_or-drop zero xs i d = let e : i ≡ 0 + i = omega arith in ap (λ k. get_or xs k d) e
  get_or-drop (suc n) [] i d = refl
  get_or-drop (suc n) (x ∷ xs) i d =
      let e : suc (n + i) ≡ suc n + i = omega arith in
      get_or-drop n xs i d ∙ ap (λ k. get_or (x ∷ xs) k d) e

  -- Lists of one length with the same elements are equal.
  pub list_ext :
      (d : A) (xs ys : List A)
      → length xs ≡ length ys
      → ((i : ℕ) → i < length xs → get_or xs i d ≡ get_or ys i d)
      → xs ≡ ys
  list_ext d [] [] l h = refl
  list_ext d [] (y ∷ ys) l h = absurd (omega arith)
  list_ext d (x ∷ xs) [] l h = absurd (omega arith)
  list_ext d (x ∷ xs) (y ∷ ys) l h =
      ap₂ ◌∷◌ (h 0 (omega arith)) (list_ext d xs ys (omega arith) (λ i p. h (suc i) (omega arith)))

  -- `&xs[start..stop]`
  unfoldable pub slice : List A → ℕ → ℕ → Checked (List A)
  slice xs start stop =
      if leb start stop && leb stop (length xs)
      then value (take (stop - start) (drop start xs))
      else panic

  -- `xs` with the elements from `start` up to `stop` replaced by `src`
  unfoldable pub splice : List A → ℕ → ℕ → List A → List A
  splice xs start stop src = take start xs ++ (src ++ drop stop xs)

  -- `xs[start..stop].copy_from_slice(src)`
  pub copy_from_slice : List A → ℕ → ℕ → List A → Checked (List A)
  copy_from_slice xs start stop src =
      if leb start stop && (leb stop (length xs) && (length src == stop - start))
      then value (splice xs start stop src)
      else panic

  pub slice_lem :
      (xs : List A) (start stop : ℕ)
      → start ≤ stop
      → stop ≤ length xs
      → slice xs start stop ≡ value (take (stop - start) (drop start xs))
  unfolding slice
  slice_lem xs start stop h k = rw (le→leb start stop h, le→leb stop (length xs) k)

  pub length-slice :
      (xs : List A) (start stop : ℕ)
      → stop ≤ length xs
      → length (take (stop - start) (drop start xs)) ≡ stop - start
  length-slice xs start stop h =
      omega (arith, length-take (stop - start) (drop start xs), length-drop start xs)

  pub get_or-slice :
      (xs : List A) (start stop i : ℕ) (d : A)
      → i < stop - start
      → get_or (take (stop - start) (drop start xs)) i d ≡ get_or xs (start + i) d
  get_or-slice xs start stop i d h =
      get_or-take (stop - start) (drop start xs) i d h ∙ get_or-drop start xs i d

  pub copy_from_slice_lem :
      (xs : List A) (start stop : ℕ) (src : List A)
      → start ≤ stop
      → stop ≤ length xs
      → length src ≡ stop - start
      → copy_from_slice xs start stop src ≡ value (splice xs start stop src)
  unfolding copy_from_slice
  copy_from_slice_lem xs start stop src h k l =
      rw (le→leb start stop h, le→leb stop (length xs) k, (==_iff (length src) (stop - start)).1 l)

  pub length-splice :
      (xs : List A) (start stop : ℕ) (src : List A)
      → start ≤ stop
      → stop ≤ length xs
      → length src ≡ stop - start
      → length (splice xs start stop src) ≡ length xs
  unfolding splice
  length-splice xs start stop src h k l = omega (
    arith,
    length-append (take start xs) (src ++ drop stop xs),
    length-append src (drop stop xs),
    length-take start xs,
    length-drop stop xs,
  )

  -- Outside `start..stop` a splice leaves the elements alone.
  pub get_or-splice_outside :
      (xs : List A) (start stop : ℕ) (src : List A) (i : ℕ) (d : A)
      → start ≤ stop
      → stop ≤ length xs
      → length src ≡ stop - start
      → (i < start) ⊎ (stop ≤ i)
      → get_or (splice xs start stop src) i d ≡ get_or xs i d
  unfolding splice
  get_or-splice_outside xs start stop src i d h k l (inl p) = ground (
    arith,
    get_or-append (take start xs) (src ++ drop stop xs) i d,
    length-take start xs,
    get_or-take start xs i d,
  )
  get_or-splice_outside xs start stop src i d h k l (inr p) =
      let e : stop + (i - start - length src) ≡ i = omega arith in
      ground (
        arith,
        get_or-append (take start xs) (src ++ drop stop xs) i d,
        length-take start xs,
        get_or-append src (drop stop xs) (i - start) d,
        get_or-drop stop xs (i - start - length src) d,
        e,
      )

  pub get_or-splice_inside :
      (xs : List A) (start stop : ℕ) (src : List A) (i : ℕ) (d : A)
      → stop ≤ length xs
      → length src ≡ stop - start
      → i < length src
      → get_or (splice xs start stop src) (start + i) d ≡ get_or src i d
  unfolding splice
  get_or-splice_inside xs start stop src i d k l p =
      let e : start + i - start ≡ i = omega arith in
      ground (
        arith,
        get_or-append (take start xs) (src ++ drop stop xs) (start + i) d,
        length-take start xs,
        get_or-append src (drop stop xs) i d,
        e,
      )
