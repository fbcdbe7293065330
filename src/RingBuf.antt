-- ===== src/RingBuf.antt =====
-- crates/ringbuff/src/ringbuf.rs: the ring buffer. A byte is any number, since bytes are only moved.
-- `read` and `write` never return `Err`, so they return the count of their `Ok`.
pub mod Contents
pub mod Copy
pub mod CopyOut
pub mod Write
pub mod Read
pub mod Buffers
use rtt.Prelude.{
  ℕ, ◌+◌, ◌-◌, ◌%◌, min, Bool, not, Option, none, some, List, ◌++◌, ltb, ◌==◌, if◌then◌else◌,
  length, take, drop, replicate, slice, copy_from_slice, add64, sub64, Checked, value, panic, ◌>>=◌,
  ◌>>◌, assert,
}

-- `RingBuf`
pub record RingBuf : Type 0 where
  pub memory_block : List ℕ
  pub read_pos : ℕ
  pub write_pos : ℕ

abbrev pub capacity : RingBuf → ℕ
capacity r = length r.memory_block

-- `Range<usize>`
pub record Range : Type 0 where
  pub start : ℕ
  pub stop : ℕ

-- `Range::len`, which is 0 where the range is empty
abbrev pub range_len : Range → ℕ
range_len g = g.stop - g.start

-- A first range, and the end of the second one, which begins at 0.
abbrev pub Ranges : Type 0
Ranges = Range × Option ℕ

unfoldable pub with_capacity : ℕ → Checked RingBuf
with_capacity len = do
  assert (ltb 0 len)
  value (record { memory_block = replicate len 0; read_pos = 0; write_pos = 0 })

unfoldable pub readable : RingBuf → ℕ
readable r = sub64 r.write_pos r.read_pos

unfoldable pub writable : RingBuf → ℕ
writable r = sub64 (add64 r.read_pos (capacity r)) r.write_pos

-- the part of `readable_ranges` and `writable_ranges` below their assertions
pub split_ranges : ℕ → ℕ → ℕ → ℕ → Ranges
split_ranges size start end cap =
    if size == 0
    then (record { start = start; stop = end }, none)
    else if ltb start end
    then (record { start = start; stop = end }, none)
    else (record { start = start; stop = cap }, some end)

pub writable_ranges : RingBuf → ℕ → Checked Ranges
writable_ranges r write_size = do
  let write_end_pos = add64 r.write_pos write_size
  assert (not (ltb (add64 r.read_pos (capacity r)) write_end_pos))
  let start = r.write_pos % capacity r
  let end = write_end_pos % capacity r
  value (split_ranges write_size start end (capacity r))

pub readable_ranges : RingBuf → ℕ → Checked Ranges
readable_ranges r read_size = do
  let read_end_pos = add64 r.read_pos read_size
  assert (not (ltb r.write_pos read_end_pos))
  let start = r.read_pos % capacity r
  let end = read_end_pos % capacity r
  value (split_ranges read_size start end (capacity r))

-- the match of `RingBuf::read`: the memory's ranges into the caller's buffer
pub copy_out : List ℕ → Ranges → List ℕ → Checked (List ℕ)
copy_out memory (first, some second) buf = do
  first_part ← slice memory first.start first.stop
  second_part ← slice memory 0 second
  buf ← copy_from_slice buf 0 (length first_part) first_part
  copy_from_slice buf (length first_part) (length first_part + length second_part) second_part
copy_out memory (first, none) buf = do
  first_part ← slice memory first.start first.stop
  copy_from_slice buf 0 (length first_part) first_part

-- the match of `RingBuf::write`: the caller's buffer into the memory's ranges
pub copy_in : List ℕ → Ranges → List ℕ → Checked (List ℕ)
copy_in memory (first, some second) buf = do
  first_source ← slice buf 0 (range_len first)
  memory ← copy_from_slice memory first.start first.stop first_source
  second_part ← slice memory 0 second
  second_source ← slice buf (length first_source) (length first_source + length second_part)
  copy_from_slice memory 0 second second_source
copy_in memory (first, none) buf = do
  first_source ← slice buf 0 (range_len first)
  copy_from_slice memory first.start first.stop first_source

-- The new ring, the caller's buffer after the call, and the count.
pub read : RingBuf → List ℕ → Checked (RingBuf × List ℕ × ℕ)
read r buf =
    let read_size = min (readable r) (length buf) in
    if read_size == 0 then value (r, buf, 0) else do
      ranges ← readable_ranges r read_size
      buf' ← copy_out r.memory_block ranges buf
      value (record r { read_pos = add64 r.read_pos read_size }, buf', read_size)

unfoldable pub write : RingBuf → List ℕ → Checked (RingBuf × ℕ)
write r buf =
    let write_size = min (writable r) (length buf) in
    if write_size == 0 then value (r, 0) else do
      ranges ← writable_ranges r write_size
      memory ← copy_in r.memory_block ranges buf
      value
          (record r { memory_block = memory; write_pos = add64 r.write_pos write_size }, write_size)

-- the bytes of the slice that `writable_buf` returns, and where it begins
pub writable_buf : RingBuf → Checked (ℕ × List ℕ)
writable_buf r = do
  (range, second) ← writable_ranges r (writable r)
  bytes ← slice r.memory_block range.start range.stop
  value (range.start, bytes)

pub readable_buf : RingBuf → Checked (List ℕ)
readable_buf r = do
  (range, second) ← readable_ranges r (readable r)
  slice r.memory_block range.start range.stop

pub readable_consume : RingBuf → ℕ → Checked RingBuf
readable_consume r amt = do
  let r' : RingBuf = record r { read_pos = add64 r.read_pos amt }
  assert (not (ltb r'.write_pos r'.read_pos))
  value r'

pub writable_consume : RingBuf → ℕ → Checked RingBuf
writable_consume r amt = do
  let r' : RingBuf = record r { write_pos = add64 r.write_pos amt }
  assert (not (ltb (add64 r'.read_pos (capacity r')) r'.write_pos))
  value r'
