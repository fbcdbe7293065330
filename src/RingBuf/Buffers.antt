-- ===== src/RingBuf/Buffers.antt =====
-- crates/ringbuff/src/ringbuf.rs: the constructor, the borrowed buffers and the cursor moves.
use native.Mathlib.Nat.{mod-lt}
use rtt.Prelude.{
  ℕ, zero, suc, ◌+◌, ◌-◌, ◌%◌, ◌≤◌, ◌<◌, ◌≡◌, refl, ap, ◌∙◌, sym, inl, inr, List, [], arith, length,
  get_or, take, drop, splice, value, panic, ltb, Bool-cases, ltb→lt, length-replicate, replicate,
  le→ltb, lt→ltb, min, subst, Checked, ◌>>=◌, Returns, length-take, take-length, u64_mod, add64,
  slice_lem, length-slice, get_or-slice, list_ext,
}
use rtt.RingBuf.{
  RingBuf, capacity, readable, writable, with_capacity, writable_buf, readable_buf,
  readable_consume, writable_consume, split_ranges,
}
use rtt.RingBuf.Contents.{
  IsValid, contents, window, length-window, get_or-window, readable_lem, writable_lem, mod_in,
}
use rtt.RingBuf.Copy.{prefix_all, Stored-one, split_ranges_in, split_ranges_round}
use rtt.RingBuf.Write.{Appended, writable_ranges_lem, contents-Stored}
use rtt.RingBuf.Read.{Removed, readable_ranges_lem, advance-Removed, take-window}

-- A new ring of a positive capacity is valid and empty; capacity 0 panics.
pub with_capacity-IsValid :
    (len : ℕ)
    → 0 < len
    → len < u64_mod
    → (r : RingBuf) × (with_capacity len ≡ value r)
      × IsValid r
      × (capacity r ≡ len)
      × (contents r ≡ [])
unfolding with_capacity
with_capacity-IsValid len h k =
    let l = length-replicate {A = ℕ} len 0 in
    (
      record { memory_block = replicate len 0; read_pos = 0; write_pos = 0 },
      rw (lt→ltb 0 len h),
      omega (arith, l),
      l,
      refl,
    )

-- Consuming at most the readable bytes of a valid ring, whose write cursor with the capacity is
-- below 2^64, removes that many of the oldest bytes and leaves the ring valid.
pub readable_consume-Removed :
    (r : RingBuf) (amt : ℕ)
    → IsValid r
    → r.write_pos + capacity r < u64_mod
    → amt ≤ readable r
    → (r' : RingBuf) × (readable_consume r amt ≡ value r') × Removed r amt r'
unfolding readable_consume
readable_consume-Removed r amt v far h =
    let w = readable_lem v in
    (
      record r { read_pos = add64 r.read_pos amt },
      rw (le→ltb r.write_pos (add64 r.read_pos amt) (omega arith)),
      advance-Removed amt v far (omega arith),
    )

pub readable_consume_panics :
    (r : RingBuf) (amt : ℕ)
    → IsValid r
    → readable r < amt
    → r.read_pos + amt < u64_mod
    → readable_consume r amt ≡ panic
unfolding readable_consume
readable_consume_panics r amt v h far =
    rw (lt→ltb r.write_pos (add64 r.read_pos amt) (omega (arith, readable_lem v)))

pub writable_consume_panics :
    (r : RingBuf) (amt : ℕ)
    → IsValid r
    → writable r < amt
    → r.write_pos + amt < u64_mod
    → writable_consume r amt ≡ panic
unfolding writable_consume
writable_consume_panics r amt v h far =
    rw (
      lt→ltb (add64 r.read_pos (capacity r)) (add64 r.write_pos amt)
        (omega (arith, writable_lem v)))

-- The first of the ranges that `split_ranges` gives, and where it ends.
first_range :
    (p size cap : ℕ)
    → 0 < cap
    → size ≤ cap
    → ((split_ranges size (p % cap) ((p + size) % cap) cap).0.start ≡ p % cap)
      × ((split_ranges size (p % cap) ((p + size) % cap) cap).0.stop
          ≡ p % cap + min size (cap - p % cap))
first_range p zero cap pos h =
    let e : (p + 0) % cap ≡ p % cap + min 0 (cap - p % cap) =
      let q : p + 0 ≡ p = omega arith in ap (λ t. t % cap) q ∙ omega arith in
    unfold split_ranges in (refl, e)
first_range p (suc n) cap pos h = elim (Bool-cases (ltb (p % cap + suc n) cap)) [
  | inl t ↦
      let fits : p % cap + suc n < cap = ltb→lt _ _ t in
      rw (split_ranges_in p (suc n) cap (omega arith) fits) (refl, omega arith)
  | inr t ↦
      let out : cap ≤ p % cap + suc n = ground arith in
      let below = mod-lt p {m = cap} pos in
      rw (split_ranges_round p (suc n) cap (omega arith) h out) (refl, omega arith)
]

-- A window that ends within the memory is a slice of it.
slice-eq-window :
    (m : List ℕ) (p n : ℕ)
    → p % length m + n ≤ length m
    → take (p % length m + n - p % length m) (drop (p % length m) m) ≡ window m p n
slice-eq-window m p n h = list_ext 0 _ _ (omega (arith, len, length-window m p n)) λ i b.
    let k : i < n = omega (arith, len) in
    get_or-slice m s (s + n) i 0 (omega arith)
    ∙ sym (ap (λ t. get_or m t 0) (mod_in p i (length m) (omega arith)))
    ∙ sym (get_or-window m p n i k)
  where
    s : ℕ
    s = p % length m

    len : length (take (s + n - s) (drop s m)) ≡ s + n - s
    len = length-slice m s (s + n) h

-- the length of the slice that `readable_buf` returns
abbrev pub readable_part : RingBuf → ℕ
readable_part r = min (readable r) (capacity r - r.read_pos % capacity r)

-- The slice of `readable_buf` of a valid ring holds the oldest readable bytes, up to the end of
-- the memory.
pub readable_buf_lem :
    (r : RingBuf) → IsValid r → readable_buf r ≡ value (take (readable_part r) (contents r))
unfolding readable_buf
readable_buf_lem r v =
    let w = readable_lem v in
    let below = mod-lt r.read_pos {m = capacity r} v.nonempty in
    let (start, stop) = first_range r.read_pos (readable r) (capacity r) v.nonempty (omega arith) in
    rw (readable_ranges_lem (readable r) v (omega arith), start, stop)
      (rw
        (slice_lem r.memory_block (r.read_pos % capacity r)
          (r.read_pos % capacity r + readable_part r) (omega arith) (omega arith))
        (ap value (
          slice-eq-window r.memory_block r.read_pos (readable_part r) (omega arith)
          ∙ sym (
              take-window r.memory_block r.read_pos (r.write_pos - r.read_pos) (readable_part r)
                (omega arith)))))

-- the length of the slice that `writable_buf` returns
abbrev pub writable_part : RingBuf → ℕ
writable_part r = min (writable r) (capacity r - r.write_pos % capacity r)

-- `writable_buf` returns the memory at the write cursor, up to the end of the memory.
pub writable_buf_lem :
    (r : RingBuf)
    → IsValid r
    → writable_buf r
      ≡ value (r.write_pos % capacity r, window r.memory_block r.write_pos (writable_part r))
unfolding writable_buf
writable_buf_lem r v =
    let w = writable_lem v in
    let below = mod-lt r.write_pos {m = capacity r} v.nonempty in
    let (start, stop) =
      first_range r.write_pos (writable r) (capacity r) v.nonempty (omega arith) in
    rw (writable_ranges_lem (writable r) v (omega arith), start, stop)
      (rw
        (slice_lem r.memory_block (r.write_pos % capacity r)
          (r.write_pos % capacity r + writable_part r) (omega arith) (omega arith))
        (ap (λ b. value (r.write_pos % capacity r, b))
          (slice-eq-window r.memory_block r.write_pos (writable_part r) (omega arith))))

-- the ring after a caller has stored `src` at the front of the slice of `writable_buf`
abbrev pub fill : RingBuf → List ℕ → RingBuf
fill r src =
    let start = r.write_pos % capacity r in
    record r { memory_block = splice r.memory_block start (start + length src) src }

-- At least one byte, and no more than the slice has, stored there and consumed.
filled-Appended :
    (r : RingBuf) (src : List ℕ)
    → IsValid r
    → 0 < length src
    → length src ≤ writable_part r
    → (r' : RingBuf) × (writable_consume (fill r src) (length src) ≡ value r')
      × Appended r (length src) src r'
unfolding writable_consume
filled-Appended r src v pos h =
    let w = writable_lem v in
    let below = mod-lt r.write_pos {m = capacity r} v.nonempty in
    let n = length src in
    let st =
      rw (prefix_all src) at
        (Stored-one r.memory_block src r.write_pos n pos (omega arith) (omega arith)) in
    let same = st.same_length in
    let e : add64 r.write_pos n ≡ r.write_pos + n = omega arith in
    (
      record (fill r src) { write_pos = add64 r.write_pos n },
      rw (le→ltb (add64 r.read_pos (capacity (fill r src))) (add64 r.write_pos n) (omega arith)),
      record {
        valid = omega arith;
        same_capacity = same;
        same_read = refl;
        count = e;
        bytes =
            ap (λ k. window (fill r src).memory_block r.read_pos (k - r.read_pos)) e
            ∙ contents-Stored n src _ v (omega arith) (omega arith) st;
      },
    )

-- A caller stores what it can of `src` at the front of the slice of `writable_buf`, where that begins,
-- and consumes as many bytes.
abbrev pub store : RingBuf → List ℕ → Checked RingBuf
store r src = do
  (start, bytes) ← writable_buf r
  let stored = take (length bytes) src
  let memory = splice r.memory_block start (start + length stored) stored
  writable_consume (record r { memory_block = memory }) (length stored)

-- In a valid ring with room, a caller that stores what fits of some bytes at the front of the
-- slice of `writable_buf`, and consumes as many, never panics. At least one byte is stored, as
-- many as there are or as the room has before the end of the memory block; they are appended, in
-- order, to the readable bytes, and the ring is valid.
pub writable_consume-Appended :
    (r : RingBuf) (src : List ℕ)
    → IsValid r
    → 0 < length src
    → 0 < writable r
    → Returns (store r src) λ r'.
      (n : ℕ) × (0 < n) × (n ≡ min (length src) (writable_part r)) × Appended r n (take n src) r'
writable_consume-Appended r src v some_bytes room =
    let w = writable_lem v in
    let below = mod-lt r.write_pos {m = capacity r} v.nonempty in
    let size = length-window r.memory_block r.write_pos (writable_part r) in
    let stored = take (writable_part r) src in
    let len = length-take (writable_part r) src in
    let done = filled-Appended r stored v (omega (arith, len)) (omega (arith, len)) in
    let short : take (length stored) src ≡ stored = take-length (writable_part r) src in
    rw (writable_buf_lem r v, size, done.1)
      (
        length stored,
        omega (arith, len),
        omega (arith, len),
        subst (λ b. Appended r (length stored) b done.0) (sym short) done.2,
      )
