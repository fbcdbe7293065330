-- ===== src/RingBuf/CopyOut.antt =====
-- crates/ringbuff/src/ringbuf.rs: what the copies of `read` do to the caller's buffer.
use native.Mathlib.Nat.{mod-lt}
use rtt.Prelude.{
  ℕ, ◌+◌, ◌-◌, ◌%◌, ◌≤◌, ◌<◌, ◌≡◌, refl, ap, ◌∙◌, sym, ◌⊎◌, inl, inr, none, some, List, ◌++◌, arith,
  length, get_or, take, drop, splice, slice_lem, length-slice, get_or-slice, copy_from_slice_lem,
  length-splice, get_or-splice_outside, get_or-splice_inside, value, ltb, Bool-cases, ltb→lt,
  list_ext, length-append, length-drop, get_or-append, get_or-drop, if◌then◌else◌,
}
use rtt.RingBuf.{split_ranges, copy_out}
use rtt.RingBuf.Contents.{mod_in, mod_round, window, length-window, get_or-window}
use rtt.RingBuf.Copy.{split_ranges_in, split_ranges_round}

-- `buf'` is `buf` with its first `size` bytes replaced by those of `m` from cursor `p` on.
record Loaded (m : List ℕ) (p size : ℕ) (buf buf' : List ℕ) : Type 0 where
  same_length : length buf' ≡ length buf
  loaded : (i : ℕ) → i < size → get_or buf' i 0 ≡ get_or m ((p + i) % length m) 0
  kept : (i : ℕ) → size ≤ i → get_or buf' i 0 ≡ get_or buf i 0

-- the bytes of `m` from index `s` up to `t`
part : List ℕ → ℕ → ℕ → List ℕ
part m s t = take (t - s) (drop s m)

copy_out_one :
    (m buf : List ℕ) (s size : ℕ)
    → s + size ≤ length m
    → size ≤ length buf
    → copy_out m (record { start = s; stop = s + size }, none) buf
      ≡ value (splice buf 0 size (part m s (s + size)))
unfolding copy_out part
copy_out_one m buf s size h k =
    let l : length (take (s + size - s) (drop s m)) ≡ size =
      omega (arith, length-slice m s (s + size) h) in
    rw (slice_lem m s (s + size) (omega arith) h) (
      rw l (
        copy_from_slice_lem buf 0 size (take (s + size - s) (drop s m)) (omega arith) k
          (omega arith)))

copy_out_two :
    (m buf : List ℕ) (s e k : ℕ)
    → s ≤ length m
    → e ≤ length m
    → k ≡ length m - s
    → k + e ≤ length buf
    → copy_out m (record { start = s; stop = length m }, some e) buf
      ≡ value (splice (splice buf 0 k (part m s (length m))) k (k + e) (part m 0 e))
unfolding copy_out part
copy_out_two m buf s e k h l d c =
    let first : length (take (length m - s) (drop s m)) ≡ k =
      omega (arith, length-slice m s (length m) (omega arith)) in
    let second : length (take (e - 0) (drop 0 m)) ≡ e = omega (arith, length-slice m 0 e l) in
    let same =
      length-splice buf 0 k (take (length m - s) (drop s m)) (omega arith) (omega arith)
        (omega arith) in
    rw
      (
        slice_lem m s (length m) h (omega arith),
        slice_lem m 0 e (omega arith) l,
        first,
        second,
        copy_from_slice_lem buf 0 k (take (length m - s) (drop s m)) (omega arith) (omega arith)
            (omega arith),
      )
      (copy_from_slice_lem (splice buf 0 k (take (length m - s) (drop s m))) k (k + e)
        (take (e - 0) (drop 0 m)) (omega arith) (omega arith) (omega arith))

Loaded-one :
    (m buf : List ℕ) (p size : ℕ)
    → 0 < size
    → p % length m + size < length m
    → size ≤ length buf
    → Loaded m p size buf (splice buf 0 size (part m (p % length m) (p % length m + size)))
unfolding part
Loaded-one m buf p size h k c = record {
  same_length = length-splice buf 0 size src (omega arith) c (omega (arith, len));
  loaded = λ i j. rw (mod_in p i (length m) (omega arith)) (
      from_zero i
      ∙ get_or-splice_inside buf 0 size src i 0 c (omega (arith, len)) (omega (arith, len))
      ∙ get_or-slice m s (s + size) i 0 (omega arith));
  kept =
      λ i j. get_or-splice_outside buf 0 size src i 0 (omega arith) c (omega (arith, len)) (inr j);
}
  where
    s : ℕ
    s = p % length m

    src : List ℕ
    src = take (s + size - s) (drop s m)

    len : length src ≡ s + size - s
    len = length-slice m s (s + size) (omega arith)

    from_zero :
        (j : ℕ) → get_or (splice buf 0 size src) j 0 ≡ get_or (splice buf 0 size src) (0 + j) 0
    from_zero j = let q : j ≡ 0 + j = omega arith in ap (λ t. get_or (splice buf 0 size src) t 0) q

Loaded-two :
    (m buf : List ℕ) (p size e k : ℕ)
    → 0 < length m
    → size ≤ length m
    → length m ≤ p % length m + size
    → k ≡ length m - p % length m
    → e ≡ p % length m + size - length m
    → size ≤ length buf
    → Loaded m p size buf
        (splice (splice buf 0 k (part m (p % length m) (length m))) k (k + e) (part m 0 e))
unfolding part
Loaded-two m buf p size e k pos h l dk de c = record {
  same_length =
      length-splice b1 k (k + e) src2 (omega arith) (omega (arith, same, below))
        (omega (arith, len2))
      ∙ same;
  loaded = λ i j. elim (Bool-cases (ltb (s + i) (length m))) [
    | inl t ↦ rw (mod_in p i (length m) (ltb→lt (s + i) (length m) t)) (
        outside2 i (inl (ground (arith, below)))
        ∙ at b1 i (0 + i) (omega arith)
        ∙ get_or-splice_inside buf 0 k src1 i 0 (omega (arith, below)) (omega (arith, len1))
            (ground (arith, len1, below))
        ∙ get_or-slice m s (length m) i 0 (ground (arith, below)))
    | inr t ↦
        let out : length m ≤ s + i = ground arith in
        rw (mod_round p i (length m) pos (omega arith) out) (
          at (splice b1 k (k + e) src2) i (k + (s + i - length m)) (omega (arith, below))
          ∙ get_or-splice_inside b1 k (k + e) src2 (s + i - length m) 0 (omega (arith, same, below))
              (omega (arith, len2)) (omega (arith, len2))
          ∙ get_or-slice m 0 e (s + i - length m) 0 (omega arith)
          ∙ at m (0 + (s + i - length m)) (s + i - length m) (omega arith))
  ];
  kept = λ i j.
      outside2 i (inr (omega (arith, below)))
      ∙ get_or-splice_outside buf 0 k src1 i 0 (omega arith) (omega (arith, below))
          (omega (arith, len1)) (inr (omega (arith, below)));
}
  where
    s : ℕ
    s = p % length m

    below : s < length m
    below = mod-lt p {m = length m} pos

    src1 : List ℕ
    src1 = take (length m - s) (drop s m)

    src2 : List ℕ
    src2 = take (e - 0) (drop 0 m)

    len1 : length src1 ≡ length m - s
    len1 = length-slice m s (length m) (omega arith)

    len2 : length src2 ≡ e - 0
    len2 = length-slice m 0 e (omega (arith, below))

    b1 : List ℕ
    b1 = splice buf 0 k src1

    same : length b1 ≡ length buf
    same = length-splice buf 0 k src1 (omega arith) (omega (arith, below)) (omega (arith, len1))

    at : (xs : List ℕ) (a b : ℕ) → a ≡ b → get_or xs a 0 ≡ get_or xs b 0
    at xs a b q = ap (λ t. get_or xs t 0) q

    outside2 :
        (j : ℕ) → (j < k) ⊎ (k + e ≤ j) → get_or (splice b1 k (k + e) src2) j 0 ≡ get_or b1 j 0
    outside2 j =
        get_or-splice_outside b1 k (k + e) src2 j 0 (omega arith) (omega (arith, same, below))
          (omega (arith, len2))

Loaded-eq :
    {m buf buf' : List ℕ} (p size : ℕ)
    → size ≤ length buf
    → Loaded m p size buf buf'
    → buf' ≡ window m p size ++ drop size buf
Loaded-eq {m} {buf} {buf'} p size c v =
    list_ext 0 buf' (window m p size ++ drop size buf)
      (omega (
        arith,
        v.same_length,
        length-append (window m p size) (drop size buf),
        len,
        length-drop size buf,
      ))
      λ i h. elim (Bool-cases (ltb i size)) [
        | inl t ↦
            let below : i < size = ltb→lt i size t in
            v.loaded i below ∙ sym (get_or-window m p size i below) ∙ sym (rw (split i, len, t))
        | inr t ↦
            let above : size ≤ i = ground arith in
            let e : size + (i - size) ≡ i = omega arith in
            v.kept i above
            ∙ sym (
                rw (split i, len, t)
                  (get_or-drop size buf (i - size) 0 ∙ ap (λ k. get_or buf k 0) e))
      ]
  where
    len : length (window m p size) ≡ size
    len = length-window m p size

    split :
        (i : ℕ)
        → get_or (window m p size ++ drop size buf) i 0 ≡ (
            if ltb i (length (window m p size))
            then get_or (window m p size) i 0
            else get_or (drop size buf) (i - length (window m p size)) 0)
    split i = get_or-append (window m p size) (drop size buf) i 0

-- The two copies of `read` do not panic, and load `size` bytes from cursor `p` on.
pub copy_out_lem :
    (m buf : List ℕ) (p size : ℕ)
    → 0 < size
    → size ≤ length m
    → size ≤ length buf
    → copy_out m (split_ranges size (p % length m) ((p + size) % length m) (length m)) buf
      ≡ value (window m p size ++ drop size buf)
copy_out_lem m buf p size h l c = elim (Bool-cases (ltb (p % length m + size) (length m))) [
  | inl t ↦
      let fits : p % length m + size < length m = ltb→lt _ _ t in
      rw (split_ranges_in p size (length m) h fits) (
        copy_out_one m buf (p % length m) size (omega arith) c
        ∙ ap value (Loaded-eq p size c (Loaded-one m buf p size h fits c)))
  | inr t ↦
      let out : length m ≤ p % length m + size = ground arith in
      let below = mod-lt p {m = length m} (omega arith) in
      rw (split_ranges_round p size (length m) h l out) (
        copy_out_two m buf (p % length m) (p % length m + size - length m) (length m - p % length m)
          (omega arith) (omega arith) refl (omega arith)
        ∙ ap value (
            Loaded-eq p size c (
              Loaded-two m buf p size (p % length m + size - length m) (length m - p % length m)
                (omega arith) l out refl refl c)))
]
