-- ===== src/Tests/Rings.antt =====
-- The ring buffer, the fixed buffer and the pipe on small inputs.
use rtt.Prelude.{
  ◌<◌, min, Returns, ℕ, ◌+◌, ◌≡◌, refl, true, false, none, some, [], ◌∷◌, ◌++◌, value, arith, take,
  drop, min, Returns, inl, inr,
}
use rtt.RingBuf.{RingBuf, readable, writable, read, write}
use rtt.RingBuf.Contents.{IsValid, contents}
use rtt.RingBuf.Write.{Appended, write-Appended}
use rtt.RingBuf.Read.{Removed, read-Removed}
use rtt.RingBuf.Buffers.{store, writable_part, writable_consume-Appended}
use rtt.Pipe.{Pipe, reads, writes, poll_reads, closes, call, run}
use rtt.Pipe.Fifo.{run_fifo}
use rtt.Pipe.Wakeups.{Parked, call-Parked}
use rtt.Pipe.Lock.{
  Threads, Reach, here, next, start, call as called, acquire, spinning, inside, set_phase,
  Exclusive, Reach-Exclusive,
}

-- a ring of four bytes, two of which are readable, the second at the start of the memory
abbrev ring : RingBuf
ring = record { memory_block = 20 ∷ 0 ∷ 0 ∷ 10 ∷ []; read_pos = 3; write_pos = 5 }

ring-IsValid : IsValid ring
ring-IsValid = omega arith

ring-contents : contents ring ≡ 10 ∷ 20 ∷ []
ring-contents = refl

write-Appended_example :
    (r' : RingBuf) × (write ring (30 ∷ 40 ∷ 50 ∷ []) ≡ value (r', min (writable ring) 3))
    × Appended ring (min (writable ring) 3) (30 ∷ 40 ∷ 50 ∷ []) r'
write-Appended_example = write-Appended ring (30 ∷ 40 ∷ 50 ∷ []) ring-IsValid

read-Removed_example :
    (r' : RingBuf) × (read ring (0 ∷ 0 ∷ 0 ∷ [])
      ≡ value (
        r',
        take (min (readable ring) 3) (contents ring)
            ++ drop (min (readable ring) 3) (0 ∷ 0 ∷ 0 ∷ []),
        min (readable ring) 3,
      ))
    × Removed ring (min (readable ring) 3) r'
read-Removed_example = read-Removed ring (0 ∷ 0 ∷ 0 ∷ []) ring-IsValid (omega arith)

readable_two : readable ring ≡ 2
unfolding readable
readable_two = refl

writable_two : writable ring ≡ 2
unfolding writable
writable_two = refl

writable_consume-Appended_example : Returns (store ring (30 ∷ 40 ∷ 50 ∷ [])) λ r'.
    (n : ℕ) × (0 < n)
    × (n ≡ min 3 (writable_part ring))
    × Appended ring n (take n (30 ∷ 40 ∷ 50 ∷ [])) r'
writable_consume-Appended_example =
    writable_consume-Appended ring (30 ∷ 40 ∷ 50 ∷ []) ring-IsValid (omega arith)
      (omega (arith, writable_two))

-- the ring in an open pipe, where no one waits, and where a reader waits on an empty ring
abbrev open_pipe : Pipe
open_pipe = record { ring_buf = ring; reader = none; writer = none; closed = false }

abbrev empty_pipe : Pipe
empty_pipe = record open_pipe { ring_buf = record ring { write_pos = 3 }; reader = some 9 }

empty_pipe-IsValid : IsValid empty_pipe.ring_buf
empty_pipe-IsValid = omega arith

run_fifo_example :
    Returns (run open_pipe (writes (5 ∷ 6 ∷ 7 ∷ []) ∷ reads (0 ∷ 0 ∷ 0 ∷ []) ∷ closes ∷ [])) λ t.
      let (q, puts, gots) = t in
      IsValid q.ring_buf × (contents ring ++ puts ≡ gots ++ contents q.ring_buf)
run_fifo_example =
    run_fifo open_pipe (writes (5 ∷ 6 ∷ 7 ∷ []) ∷ reads (0 ∷ 0 ∷ 0 ∷ []) ∷ closes ∷ []) ring-IsValid
      (omega arith)

empty_pipe-Parked : Parked empty_pipe
unfolding readable
empty_pipe-Parked = record { reader_waits = inr (refl, refl); writer_waits = inl refl }

call-Parked_example : Returns (call empty_pipe (poll_reads 4 (0 ∷ []))) λ o. Parked o.after
call-Parked_example =
    call-Parked empty_pipe (poll_reads 4 (0 ∷ [])) empty_pipe-IsValid (omega arith) (omega arith)
      empty_pipe-Parked

-- one thread calls the lock for an increment, and takes it
abbrev called_once : Threads ℕ
called_once = record (start 0) { phase = set_phase (start 0).phase 7 (spinning (λ n. n + 1)) }

abbrev taken_once : Threads ℕ
taken_once = record called_once {
  locker = true;
  phase = set_phase called_once.phase 7 (inside (λ n. n + 1) 0);
}

taken_once-Reach : Reach (start 0) taken_once
unfolding start
taken_once-Reach =
    next (next here (called (start 0) 7 (λ n. n + 1) refl))
      (acquire called_once 7 (λ n. n + 1) refl refl)

Reach-Exclusive_example : Exclusive 0 taken_once
Reach-Exclusive_example = Reach-Exclusive 0 taken_once-Reach
