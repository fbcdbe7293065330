-- ===== src/RingBuf/Write.antt =====
-- crates/ringbuff/src/ringbuf.rs: `write` appends to the queue of bytes that the ring holds.
use native.Mathlib.Nat.{add-mod_right}
use rtt.Prelude.{
  ℕ, ◌+◌, ◌-◌, ◌%◌, ◌≤◌, ◌<◌, ◌≡◌, refl, ap, ◌∙◌, sym, inl, inr, List, ◌++◌, arith, length, get_or,
  take, value, ltb, Bool-cases, ltb→lt, list_ext, length-append, get_or-append, get_or-take,
  length-take, if◌then◌else◌, le→ltb, min, add64, ==_iff, ◌==◌, true, false, append-nil,
}
use rtt.RingBuf.{RingBuf, capacity, writable, write, writable_ranges, split_ranges}
use rtt.RingBuf.Contents.{IsValid, contents, window, length-window, get_or-window, writable_lem}
use rtt.RingBuf.Copy.{Stored, copy_in-Stored}

pub writable_ranges_lem :
    {r : RingBuf} (n : ℕ)
    → IsValid r
    → n ≤ writable r
    → writable_ranges r n
      ≡ value
          (split_ranges n (r.write_pos % capacity r) ((r.write_pos + n) % capacity r) (capacity r))
unfolding writable_ranges
writable_ranges_lem {r} n v h =
    let e : add64 r.write_pos n ≡ r.write_pos + n = omega (arith, writable_lem v) in
    let fits : add64 r.read_pos (capacity r) ≡ r.read_pos + capacity r = omega arith in
    rw (e, fits, le→ltb (r.read_pos + capacity r) (r.write_pos + n) (omega (arith, writable_lem v)))

-- Bytes stored at the write cursor are appended to the contents.
pub contents-Stored :
    {r : RingBuf} (n : ℕ) (src m' : List ℕ)
    → IsValid r
    → n ≤ r.read_pos + capacity r - r.write_pos
    → n ≤ length src
    → Stored r.memory_block r.write_pos n src m'
    → window m' r.read_pos (r.write_pos + n - r.read_pos) ≡ contents r ++ take n src
contents-Stored {r} n src m' v h c st =
    list_ext 0 (window m' r.read_pos held') (contents r ++ take n src)
      (omega (
        arith,
        length-window m' r.read_pos held',
        len,
        length-append (contents r) (take n src),
        length-take n src,
      ))
      λ i b. elim (Bool-cases (ltb i held)) [
        | inl t ↦
            let k : i < held = ltb→lt i held t in
            get_or-window m' r.read_pos held' i (omega arith)
            ∙ at m' (ap (λ l. (r.read_pos + i) % l) st.same_length ∙ moved i k)
            ∙ st.kept (cap - held + i) (omega arith) (omega arith)
            ∙ at r.memory_block (sym (moved i k))
            ∙ sym (get_or-window r.memory_block r.read_pos held i k)
            ∙ sym (rw (split i, len, t))
        | inr t ↦
            let k : held ≤ i = ground arith in
            let e : r.read_pos + i ≡ r.write_pos + (i - held) = omega arith in
            let b' : i < held' = omega (arith, length-window m' r.read_pos held') in
            get_or-window m' r.read_pos held' i b'
            ∙ at m' (ap (λ l. (r.read_pos + i) % l) st.same_length ∙ ap (λ l. l % cap) e)
            ∙ st.stored (i - held) (omega arith)
            ∙ sym (rw (split i, len, t) (get_or-take n src (i - held) 0 (omega arith)))
      ]
  where
    cap : ℕ
    cap = capacity r

    held : ℕ
    held = r.write_pos - r.read_pos

    held' : ℕ
    held' = r.write_pos + n - r.read_pos

    len : length (contents r) ≡ held
    len = length-window r.memory_block r.read_pos held

    at : (xs : List ℕ) {a b : ℕ} → a ≡ b → get_or xs a 0 ≡ get_or xs b 0
    at xs q = ap (λ t. get_or xs t 0) q

    moved : (i : ℕ) → i < held → (r.read_pos + i) % cap ≡ (r.write_pos + (cap - held + i)) % cap
    moved i k =
        let back : r.read_pos + i + cap ≡ r.write_pos + (cap - held + i) =
          omega (arith, v.within, v.order) in
        sym (add-mod_right (r.read_pos + i) cap) ∙ ap (λ t. t % cap) back

    split :
        (i : ℕ)
        → get_or (contents r ++ take n src) i 0 ≡ (
            if ltb i (length (contents r))
            then get_or (contents r) i 0
            else get_or (take n src) (i - length (contents r)) 0)
    split i = get_or-append (contents r) (take n src) i 0

-- What a call that stored `n` bytes of `src` leaves: they are appended, and the ring stays valid.
pub record Appended (r : RingBuf) (n : ℕ) (src : List ℕ) (r' : RingBuf) : Type 0 where
  pub valid : IsValid r'
  pub same_capacity : capacity r' ≡ capacity r
  pub same_read : r'.read_pos ≡ r.read_pos
  pub count : r'.write_pos ≡ r.write_pos + n
  pub bytes : contents r' ≡ contents r ++ take n src

write-Appended_none :
    (r : RingBuf) (src : List ℕ)
    → IsValid r
    → (min (writable r) (length src) == 0) ≡ true
    → let n = min (writable r) (length src) in
      (r' : RingBuf) × (write r src ≡ value (r', n)) × Appended r n src r'
unfolding write
write-Appended_none r src v t =
    let z : min (writable r) (length src) ≡ 0 = (==_iff _ 0).0 t in
    (
      r,
      rw (t, z),
      record {
        valid = v;
        same_capacity = refl;
        same_read = refl;
        count = omega arith;
        bytes = rw (z, append-nil);
      },
    )

write-Appended_some :
    (r : RingBuf) (src : List ℕ)
    → IsValid r
    → (min (writable r) (length src) == 0) ≡ false
    → let n = min (writable r) (length src) in
      (r' : RingBuf) × (write r src ≡ value (r', n)) × Appended r n src r'
unfolding write
write-Appended_some r src v t =
    let n = min (writable r) (length src) in
    let w = writable_lem v in
    let pos : 0 < n = ground arith in
    let (m', runs, st) =
      copy_in-Stored r.memory_block src r.write_pos n pos (omega arith) (omega arith) in
    let e : add64 r.write_pos n ≡ r.write_pos + n = omega arith in
    let same = st.same_length in
    (
      record r { memory_block = m'; write_pos = add64 r.write_pos n },
      rw (t, writable_ranges_lem n v (omega arith), runs),
      record {
        valid = omega arith;
        same_capacity = same;
        same_read = refl;
        count = e;
        bytes =
            ap (λ k. window m' r.read_pos (k - r.read_pos)) e
            ∙ contents-Stored n src m' v (omega arith) (omega arith) st;
      },
    )

-- Writing to a valid ring buffer returns the least of the room and the slice's length, and
-- appends that many bytes of the slice to the readable bytes; the read cursor and the capacity
-- stay, and the ring is valid.
pub write-Appended :
    (r : RingBuf) (src : List ℕ)
    → IsValid r
    → let n = min (writable r) (length src) in
      (r' : RingBuf) × (write r src ≡ value (r', n)) × Appended r n src r'
write-Appended r src v = elim (Bool-cases (min (writable r) (length src) == 0)) [
  | inl t ↦ write-Appended_none r src v t
  | inr t ↦ write-Appended_some r src v t
]
