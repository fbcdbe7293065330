-- ===== src/FixedBuf.antt =====
-- crates/fixedbuf/src/lib.rs: `ArrayBuf`, a buffer of a fixed capacity, its constant `LEN`.
-- `writable_buf` is the field `buf`, which the caller writes.
use rtt.Prelude.{
  ℕ, ◌≤◌, ◌<◌, ◌≡◌, refl, ◌∙◌, inl, inr, Option, none, some, List, ltb, if◌then◌else◌, Checked,
  value, ◌>>=◌, ◌>>◌, assert, not, length, drop, take, slice_lem, ap, le→ltb, replicate, arith,
  Bool-cases, Returns, slice, splice, copy_from_slice, copy_from_slice_lem, length-splice,
  length-replicate, slice-append, [], ◌-◌,
}

pub record ArrayBuf : Type 0 where
  pub buf : List ℕ
  pub len : ℕ

pub new : ℕ → ArrayBuf
new capacity = record { buf = replicate capacity 0; len = 0 }

pub readable : ArrayBuf → ℕ
readable b = b.len

pub writable_consume : ℕ → ArrayBuf → ℕ → Checked ArrayBuf
writable_consume capacity b len = assert (not (ltb capacity len)) >> value (record b { len = len })

pub from_slice : ℕ → List ℕ → Checked (Option ArrayBuf)
from_slice capacity src = if ltb capacity (length src) then value none else (do
  let b = new capacity
  buf ← copy_from_slice b.buf 0 (length src) src
  b' ← writable_consume capacity (record b { buf = buf }) (length src)
  value (some b'))

pub readable_buf : ArrayBuf → Checked (List ℕ)
readable_buf b = slice b.buf 0 b.len

-- What `from_slice` returns: nothing if the slice is too long, else a buffer of the capacity whose
-- readable bytes are the slice.
pub Made : ℕ → List ℕ → Option ArrayBuf → Type 0
Made capacity src none = capacity < length src
Made capacity src (some b) =
    (length b.buf ≡ capacity) × (readable b ≡ length src) × (readable_buf b ≡ value src)

-- Making a fixed buffer from a slice never panics: it gives none exactly for a slice longer than
-- the capacity, and else a buffer of the capacity whose readable bytes are the slice.
pub from_slice-Made :
    (capacity : ℕ) (src : List ℕ) → Returns (from_slice capacity src) (Made capacity src)
unfolding from_slice Made new writable_consume readable readable_buf splice
from_slice-Made capacity src = elim (Bool-cases (ltb capacity (length src))) [
  | inl long ↦ rw long (ground arith)
  | inr fits ↦
      let buf = replicate {A = ℕ} capacity 0 in
      let size : length buf ≡ capacity = length-replicate {A = ℕ} capacity 0 in
      let all : length src ≡ length src - 0 = omega arith in
      let room : length src ≤ length buf = ground (arith, size) in
      let long = length-splice buf 0 (length src) src (omega arith) room all ∙ size in
      rw (fits, copy_from_slice_lem buf 0 (length src) src (omega arith) room all)
        (long, refl, slice-append [] src (drop (length src) buf) 0 (length src) refl (omega arith))
]

-- A buffer that is no longer than its memory hands its bytes out.
pub readable_buf_filled :
    (b : ArrayBuf) → b.len ≤ length b.buf → readable_buf b ≡ value (take b.len b.buf)
unfolding readable_buf
readable_buf_filled b h =
    let whole : b.len - 0 ≡ b.len = omega arith in
    slice_lem b.buf 0 b.len (omega arith) h ∙ ap (λ n. value (take n b.buf)) whole

-- Received bytes that fit the memory make such a buffer, of the same memory.
pub writable_consume_lem :
    (capacity : ℕ) (b : ArrayBuf) (len : ℕ)
    → len ≤ capacity
    → writable_consume capacity b len ≡ value (record b { len = len })
unfolding writable_consume
writable_consume_lem capacity b len h = rw (le→ltb capacity len h)

pub new_lem : (capacity : ℕ) → (length (new capacity).buf ≡ capacity) × ((new capacity).len ≡ 0)
unfolding new
new_lem capacity = (length-replicate {A = ℕ} capacity 0, refl)
