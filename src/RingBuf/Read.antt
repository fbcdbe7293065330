-- ===== src/RingBuf/Read.antt =====
-- crates/ringbuff/src/ringbuf.rs: `read` takes from the queue of bytes that the ring holds.
use rtt.Prelude.{
  ℕ, ◌+◌, ◌-◌, ◌%◌, ◌≤◌, ◌<◌, ◌≡◌, refl, ap, ap₂, zero, suc, ◌∙◌, sym, inl, inr, List, ◌∷◌, ◌++◌,
  arith, length, get_or, take, drop, value, Bool-cases, le→ltb, min, u64_mod, add64, ==_iff, ◌==◌,
  false,
}
use rtt.RingBuf.{RingBuf, capacity, readable, read, readable_ranges, split_ranges}
use rtt.RingBuf.Contents.{IsValid, contents, window, readable_lem}
use rtt.RingBuf.CopyOut.{copy_out_lem}

pub readable_ranges_lem :
    {r : RingBuf} (n : ℕ)
    → IsValid r
    → n ≤ readable r
    → readable_ranges r n
      ≡ value
          (split_ranges n (r.read_pos % capacity r) ((r.read_pos + n) % capacity r) (capacity r))
unfolding readable_ranges
readable_ranges_lem {r} n v h =
    let e : add64 r.read_pos n ≡ r.read_pos + n = omega (arith, readable_lem v) in
    rw (e, le→ltb r.write_pos (r.read_pos + n) (omega (arith, readable_lem v)))

-- What a call that loaded `n` bytes leaves: the oldest `n` are gone, and the ring stays valid.
pub record Removed (r : RingBuf) (n : ℕ) (r' : RingBuf) : Type 0 where
  pub valid : IsValid r'
  pub same_capacity : capacity r' ≡ capacity r
  pub same_write : r'.write_pos ≡ r.write_pos
  pub count : r'.read_pos ≡ r.read_pos + n
  pub bytes : contents r' ≡ drop n (contents r)

drop-window : (m : List ℕ) (p n k : ℕ) → drop k (window m p n) ≡ window m (p + k) (n - k)
drop-window m p n zero =
    let e : p ≡ p + 0 = omega arith in let d : n ≡ n - 0 = omega arith in ap₂ (window m) e d
drop-window m p zero (suc k) = let d : 0 ≡ 0 - suc k = omega arith in ap (window m (p + suc k)) d
drop-window m p (suc n) (suc k) =
    let e : suc p + k ≡ p + suc k = omega arith in
    let d : n - k ≡ suc n - suc k = omega arith in drop-window m (suc p) n k ∙ ap₂ (window m) e d

pub take-window : (m : List ℕ) (p n k : ℕ) → k ≤ n → take k (window m p n) ≡ window m p k
take-window m p n zero h = refl
take-window m p zero (suc k) h = elim h [ ]
take-window m p (suc n) (suc k) h =
    ap (◌∷◌ (get_or m (p % length m) 0)) (take-window m (suc p) n k (omega arith))

-- Moving the read cursor over `n` readable bytes.
pub advance-Removed :
    {r : RingBuf} (n : ℕ)
    → IsValid r
    → r.write_pos + capacity r < u64_mod
    → n ≤ r.write_pos - r.read_pos
    → Removed r n (record r { read_pos = add64 r.read_pos n })
advance-Removed {r} n v far h =
    let e : add64 r.read_pos n ≡ r.read_pos + n = omega arith in
    let d : r.write_pos - (r.read_pos + n) ≡ r.write_pos - r.read_pos - n = omega arith in
    record {
      valid = omega arith;
      same_capacity = refl;
      same_write = refl;
      count = e;
      bytes =
          rw e (ap (window r.memory_block (r.read_pos + n)) d)
          ∙ sym (drop-window r.memory_block r.read_pos (r.write_pos - r.read_pos) n);
    }

read_some :
    (r : RingBuf) (buf : List ℕ)
    → IsValid r
    → (min (readable r) (length buf) == 0) ≡ false
    → let n = min (readable r) (length buf) in
      read r buf
      ≡ value (record r { read_pos = add64 r.read_pos n }, take n (contents r) ++ drop n buf, n)
unfolding read
read_some r buf v t =
    let n = min (readable r) (length buf) in
    let w = readable_lem v in
    let pos : 0 < n = ground arith in
    let first = take-window r.memory_block r.read_pos (r.write_pos - r.read_pos) n (omega arith) in
    rw (
      t,
      readable_ranges_lem n v (omega arith),
      copy_out_lem r.memory_block buf r.read_pos n pos (omega arith) (omega arith),
      first,
    )

-- Reading from a valid ring buffer, whose write cursor with the capacity is below 2^64, returns
-- the least of the readable bytes and the slice's length, fills the front of the slice with the
-- oldest bytes and leaves its rest alone; those bytes are removed, the write cursor and the
-- capacity stay, and the ring is valid.
pub read-Removed :
    (r : RingBuf) (buf : List ℕ)
    → IsValid r
    → r.write_pos + capacity r < u64_mod
    → let n = min (readable r) (length buf) in
      (r' : RingBuf) × (read r buf ≡ value (r', take n (contents r) ++ drop n buf, n))
      × Removed r n r'
unfolding read
read-Removed r buf v far = elim (Bool-cases (min (readable r) (length buf) == 0)) [
  | inl t ↦
      let z : min (readable r) (length buf) ≡ 0 = (==_iff _ 0).0 t in
      (
        r,
        rw (t, z),
        record {
          valid = v;
          same_capacity = refl;
          same_write = refl;
          count = omega arith;
          bytes = rw z;
        },
      )
  | inr t ↦ (_, read_some r buf v t, advance-Removed _ v far (omega (arith, readable_lem v)))
]
