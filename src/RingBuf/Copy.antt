-- ===== src/RingBuf/Copy.antt =====
-- crates/ringbuff/src/ringbuf.rs: what the copies of `read` and `write` do to the bytes, by position.
use native.Mathlib.Nat.{mod-lt}
use rtt.Prelude.{
  ℕ, ◌+◌, ◌-◌, ◌%◌, ◌≤◌, ◌<◌, ◌≡◌, refl, ap, ◌∙◌, ◌⊎◌, inl, inr, none, some, List, arith, length,
  get_or, take, drop, splice, slice_lem, length-slice, take_all, get_or-slice, copy_from_slice_lem,
  length-splice, get_or-splice_outside, get_or-splice_inside, value, ltb, Bool-cases, ltb→lt,
}
use rtt.RingBuf.{split_ranges, copy_in}
use rtt.RingBuf.Contents.{mod_in, mod_round}

-- The ranges of `size` bytes from cursor `p`: one that ends within the memory, or two.
pub split_ranges_in :
    (p size cap : ℕ)
    → 0 < size
    → p % cap + size < cap
    → split_ranges size (p % cap) ((p + size) % cap) cap
      ≡ (record { start = p % cap; stop = p % cap + size }, none)
unfolding split_ranges
split_ranges_in p size cap h k = rw (mod_in p size cap k) (ground arith)

pub split_ranges_round :
    (p size cap : ℕ)
    → 0 < size
    → size ≤ cap
    → cap ≤ p % cap + size
    → split_ranges size (p % cap) ((p + size) % cap) cap
      ≡ (record { start = p % cap; stop = cap }, some (p % cap + size - cap))
unfolding split_ranges
split_ranges_round p size cap h k l =
    let below = mod-lt p {m = cap} (omega arith) in
    rw (mod_round p size cap (omega arith) k l) (ground arith)

-- `m'` is `m` with `size` bytes of `src` stored from cursor `p` on.
pub record Stored (m : List ℕ) (p size : ℕ) (src m' : List ℕ) : Type 0 where
  pub same_length : length m' ≡ length m
  pub stored : (i : ℕ) → i < size → get_or m' ((p + i) % length m) 0 ≡ get_or src i 0
  pub kept :
      (i : ℕ)
      → size ≤ i
      → i < length m
      → get_or m' ((p + i) % length m) 0 ≡ get_or m ((p + i) % length m) 0

-- the first bytes of `src`
pub prefix : List ℕ → ℕ → List ℕ
prefix src n = take (n - 0) (drop 0 src)

pub prefix_all : (src : List ℕ) → prefix src (length src) ≡ src
unfolding prefix
prefix_all src = take_all (length src - 0) src (omega arith)

copy_in_one :
    (m src : List ℕ) (s size : ℕ)
    → s + size ≤ length m
    → size ≤ length src
    → copy_in m (record { start = s; stop = s + size }, none) src
      ≡ value (splice m s (s + size) (prefix src size))
unfolding copy_in prefix
copy_in_one m src s size h k =
    let e : s + size - s ≡ size = omega arith in
    rw (e, slice_lem src 0 size (omega arith) k)
      (copy_from_slice_lem m s (s + size) (take (size - 0) (drop 0 src)) (omega arith) h
        (omega (arith, length-slice src 0 size k)))

copy_in_two :
    (m src : List ℕ) (s e k : ℕ)
    → s ≤ length m
    → e ≤ length m
    → k ≡ length m - s
    → k + e ≤ length src
    → copy_in m (record { start = s; stop = length m }, some e) src
      ≡ value (splice (splice m s (length m) (prefix src k)) 0 e (take (k + e - k) (drop k src)))
unfolding copy_in prefix
copy_in_two m src s e k h l d c =
    let first : length (take (k - 0) (drop 0 src)) ≡ k =
      omega (arith, length-slice src 0 k (omega arith)) in
    let same =
      length-splice m s (length m) (take (k - 0) (drop 0 src)) h (omega arith) (omega arith) in
    let m1 = splice m s (length m) (take (k - 0) (drop 0 src)) in
    let second : length (take (e - 0) (drop 0 m1)) ≡ e =
      omega (arith, length-slice m1 0 e (omega arith)) in
    let total = length-slice src k (k + e) c in
    rw
      (
        ← d,
        slice_lem src 0 k (omega arith) (omega arith),
        copy_from_slice_lem m s (length m) (take (k - 0) (drop 0 src)) h (omega arith)
            (omega arith),
      )
      (rw (slice_lem m1 0 e (omega arith) (omega arith), first, second)
        (rw (slice_lem src k (k + e) (omega arith) c) (
          copy_from_slice_lem m1 0 e (take (k + e - k) (drop k src)) (omega arith) (omega arith)
            (omega arith))))

pub Stored-one :
    (m src : List ℕ) (p size : ℕ)
    → 0 < size
    → p % length m + size ≤ length m
    → size ≤ length src
    → Stored m p size src (splice m (p % length m) (p % length m + size) (prefix src size))
unfolding prefix
Stored-one m src p size h k c = record {
  same_length =
      length-splice m s (s + size) src' (omega (arith, len)) (omega (arith, len))
        (omega (arith, len));
  stored = λ i j. rw (mod_in p i (length m) (omega (arith, len))) (
      get_or-splice_inside m s (s + size) src' i 0 (omega (arith, len)) (omega (arith, len))
        (omega (arith, len))
      ∙ get_or-slice src 0 size i 0 (omega arith)
      ∙ at 0 i i (omega (arith, len)));
  kept = λ i j l. elim (Bool-cases (ltb (s + i) (length m))) [
    | inl t ↦
        rw (mod_in p i (length m) (ltb→lt (s + i) (length m) t))
          (outside (s + i) (inr (omega (arith, len))))
    | inr t ↦
        rw (mod_round p i (length m) (omega (arith, len)) (omega (arith, len)) (ground arith))
          (outside (s + i - length m) (inl (ground arith)))
  ];
}
  where
    s : ℕ
    s = p % length m

    src' : List ℕ
    src' = take (size - 0) (drop 0 src)

    len : length src' ≡ size - 0
    len = length-slice src 0 size c

    at : (a b j : ℕ) → a + b ≡ j → get_or src (a + b) 0 ≡ get_or src j 0
    at a b j e = ap (λ k. get_or src k 0) e

    outside :
        (j : ℕ) → (j < s) ⊎ (s + size ≤ j) → get_or (splice m s (s + size) src') j 0 ≡ get_or m j 0
    outside j =
        get_or-splice_outside m s (s + size) src' j 0 (omega (arith, len)) (omega (arith, len))
          (omega (arith, len))

Stored-two :
    (m src : List ℕ) (p size e k : ℕ)
    → 0 < length m
    → size ≤ length m
    → length m ≤ p % length m + size
    → k ≡ length m - p % length m
    → e ≡ p % length m + size - length m
    → size ≤ length src
    → Stored m p size src (
        splice
          (splice m (p % length m) (length m) (prefix src k))
          0
          e
          (take (k + e - k) (drop k src)))
unfolding prefix
Stored-two m src p size e k pos h l dk de c = record {
  same_length =
      length-splice m1 0 e src2 (omega (arith, len1, len2, same, below))
        (omega (arith, len1, len2, same, below)) (omega (arith, len1, len2, same, below))
      ∙ same;
  stored = λ i j. elim (Bool-cases (ltb (s + i) (length m))) [
    | inl t ↦ rw (mod_in p i (length m) (ltb→lt (s + i) (length m) t)) (
        outside2 (s + i) (inr (omega (arith, len1, len2, same, below)))
        ∙ get_or-splice_inside m s (length m) src1 i 0 (omega (arith, len1, len2, same, below))
            (omega (arith, len1, len2, same, below)) (ground (arith, len1, below))
        ∙ get_or-slice src 0 k i 0 (ground (arith, len1, below))
        ∙ at (0 + i) i (omega (arith, len1, len2, same, below)))
    | inr t ↦
        let out : length m ≤ s + i = ground (arith, len1, below) in
        rw (mod_round p i (length m) pos (omega (arith, len1, len2, same, below)) out) (
          from_zero (s + i - length m)
          ∙ get_or-splice_inside m1 0 e src2 (s + i - length m) 0
              (omega (arith, len1, len2, same, below)) (omega (arith, len1, len2, same, below))
              (omega (arith, len1, len2, same, below))
          ∙ get_or-slice src k (k + e) (s + i - length m) 0 (omega (arith, len1, len2, same, below))
          ∙ at (k + (s + i - length m)) i (omega (arith, len1, len2, same, below)))
  ];
  kept = λ i j q.
      rw
        (mod_round p i (length m) pos (omega (arith, len1, len2, same, below))
          (omega (arith, len1, len2, same, below)))
        (outside2 (s + i - length m) (inr (omega (arith, len1, len2, same, below)))
          ∙ get_or-splice_outside m s (length m) src1 (s + i - length m) 0
              (omega (arith, len1, len2, same, below)) (omega (arith, len1, len2, same, below))
              (omega (arith, len1, len2, same, below))
              (inl (omega (arith, len1, len2, same, below))));
}
  where
    s : ℕ
    s = p % length m

    below : s < length m
    below = mod-lt p {m = length m} pos

    src1 : List ℕ
    src1 = take (k - 0) (drop 0 src)

    src2 : List ℕ
    src2 = take (k + e - k) (drop k src)

    len1 : length src1 ≡ k - 0
    len1 = length-slice src 0 k (omega (arith, below))

    len2 : length src2 ≡ k + e - k
    len2 = length-slice src k (k + e) (omega (arith, below))

    m1 : List ℕ
    m1 = splice m s (length m) src1

    same : length m1 ≡ length m
    same =
        length-splice m s (length m) src1 (omega (arith, len1, len2, below))
          (omega (arith, len1, len2, below)) (omega (arith, len1, len2, below))

    at : (a b : ℕ) → a ≡ b → get_or src a 0 ≡ get_or src b 0
    at a b q = ap (λ t. get_or src t 0) q

    outside2 : (j : ℕ) → (j < 0) ⊎ (e ≤ j) → get_or (splice m1 0 e src2) j 0 ≡ get_or m1 j 0
    outside2 j =
        get_or-splice_outside m1 0 e src2 j 0 (omega (arith, len1, len2, same))
          (omega (arith, len1, len2, same)) (omega (arith, len1, len2, same))

    from_zero : (j : ℕ) → get_or (splice m1 0 e src2) j 0 ≡ get_or (splice m1 0 e src2) (0 + j) 0
    from_zero j = let q : j ≡ 0 + j = omega arith in ap (λ t. get_or (splice m1 0 e src2) t 0) q

-- The two copies of `write` do not panic, and store `size` bytes from cursor `p` on.
pub copy_in-Stored :
    (m src : List ℕ) (p size : ℕ)
    → 0 < size
    → size ≤ length m
    → size ≤ length src
    → (m' : List ℕ) × (copy_in m
          (split_ranges size (p % length m) ((p + size) % length m) (length m))
          src
        ≡ value m')
      × Stored m p size src m'
copy_in-Stored m src p size h l c = elim (Bool-cases (ltb (p % length m + size) (length m))) [
  | inl t ↦
      let fits : p % length m + size < length m = ltb→lt _ _ t in
      (
        _,
        rw (split_ranges_in p size (length m) h fits)
            (copy_in_one m src (p % length m) size (omega arith) c),
        Stored-one m src p size h (omega arith) c,
      )
  | inr t ↦
      let out : length m ≤ p % length m + size = ground arith in
      let below = mod-lt p {m = length m} (omega arith) in
      (
        _,
        rw (split_ranges_round p size (length m) h l out) (
            copy_in_two m src (p % length m) (p % length m + size - length m)
              (length m - p % length m) (omega arith) (omega arith) refl (omega arith)),
        Stored-two m src p size (p % length m + size - length m) (length m - p % length m)
            (omega arith) l out refl refl c,
      )
]
