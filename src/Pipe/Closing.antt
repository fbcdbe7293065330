-- ===== src/Pipe/Closing.antt =====
-- crates/ringbuff/src/pipe.rs: what a closed pipe still gives, and polls with no buffer.
use rtt.Prelude.{
  ℕ, ◌+◌, ◌<◌, ◌≡◌, refl, ◌⊎◌, inl, inr, none, some, List, [], arith, length, take, drop, value,
  true, false, ◌==◌, u64_mod, min, if◌then◌else◌, Returns, take-take-append,
}
use rtt.Prelude.Io.{ok, err, broken_pipe, ready, pending}
use rtt.RingBuf.{capacity, readable}
use rtt.RingBuf.Contents.{IsValid, contents, readable_lem, length-contents}
use rtt.RingBuf.Read.{read-Removed}
use rtt.Pipe.{Pipe, read, write, poll_read, poll_write, close}
use rtt.Pipe.Wakeups.{Parked}

-- A read of a valid pipe that was closed returns the oldest bytes that fit the buffer, removes
-- them, and fails with a broken pipe exactly if there are none; the pipe stays closed. The write
-- cursor with the capacity is below 2^64.
pub closed_read :
    (p : Pipe) (buf : List ℕ)
    → IsValid p.ring_buf
    → p.ring_buf.write_pos + capacity p.ring_buf < u64_mod
    → let n = min (length (contents p.ring_buf)) (length buf) in
      Returns (read (close p).0 buf) λ t.
        let (q, woken, buf', result) = t in
        (take n buf' ≡ take n (contents p.ring_buf))
        × (contents q.ring_buf ≡ drop n (contents p.ring_buf))
        × (result ≡ (if n == 0 then err broken_pipe else ok n))
        × (q.closed ≡ true)
unfolding read close
closed_read p buf v far =
    let (r', runs, m) = read-Removed p.ring_buf buf v far in
    rw (runs, length-contents v)
      (
        take-take-append (min (readable p.ring_buf) (length buf)) (contents p.ring_buf) _
            (omega (arith, length-contents v)),
        m.bytes,
        refl,
        refl,
      )

-- A closed pipe takes no more bytes: a write fails with a broken pipe, a polled write reports 0
-- bytes, closing again does nothing, none of them changes the pipe or wakes anyone, and the bytes
-- held when it was closed are there.
pub closed_write :
    (p : Pipe) (waker : ℕ) (buf : List ℕ)
    → let q = (close p).0 in
      (write q buf ≡ value (q, [], err broken_pipe))
      × (poll_write q waker buf ≡ value (q, [], ready (ok 0)))
      × (close q ≡ (q, []))
      × (contents q.ring_buf ≡ contents p.ring_buf)
unfolding write poll_write close
closed_write p waker buf = (refl, refl, refl, refl)

-- A polled read with an empty buffer on an open valid pipe that holds bytes, and whose write
-- cursor with the capacity is below 2^64, is pending and parks the reader although there is
-- something to read.
pub poll_read_empty :
    (p : Pipe) (waker : ℕ)
    → IsValid p.ring_buf
    → p.ring_buf.write_pos + capacity p.ring_buf < u64_mod
    → p.closed ≡ false
    → 0 < readable p.ring_buf
    → Returns (poll_read p waker []) λ t.
      (t.3 ≡ pending)
      × (t.0.reader ≡ some waker)
      × (contents t.0.ring_buf ≡ contents p.ring_buf)
      × ¬ Parked t.0
unfolding poll_read
poll_read_empty p waker v far live some_bytes =
    let (r', runs, m) = read-Removed p.ring_buf [] v far in
    let z : min (readable p.ring_buf) 0 ≡ 0 = omega arith in
    let holds : 0 < readable r' =
      omega (arith, readable_lem v, readable_lem m.valid, m.same_write, m.count) in
    rw runs
      (rw (z, live) (refl, refl, rw z at m.bytes, λ h. parked (readable r') holds h.reader_waits))
  where
    parked : (k : ℕ) → 0 < k → (some waker ≡ none) ⊎ ((k ≡ 0) × (false ≡ false)) → ⊥
    parked k h (inl e) = cc
    parked k h (inr e) = omega arith
