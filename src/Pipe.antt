-- ===== src/Pipe.antt =====
-- crates/ringbuff/src/pipe.rs: the pipe over a ring buffer. Each function here is the closure that
-- the method of the same name runs under `RingBufPipe::lock`, so it runs alone (Pipe/Lock.antt).
-- A waker is a number; the wakers that a call wakes are listed in order.
pub mod Lock
pub mod Closing
pub mod Wakeups
pub mod Fifo
use rtt.Prelude.{
  ℕ, Bool, true, false, Option, none, some, List, [], ◌∷◌, ◌++◌, ◌==◌, if◌then◌else◌, Checked,
  value, ◌>>=◌, take,
}
use rtt.Prelude.Io.{IoResult, ok, err, broken_pipe, Poll, ready, pending}
use rtt.RingBuf
use rtt.RingBuf.{RingBuf}

-- `RawRingBufPipe`
pub record Pipe : Type 0 where
  pub ring_buf : RingBuf
  pub reader : Option ℕ
  pub writer : Option ℕ
  pub closed : Bool

-- `if let Some(waker) = slot.take() { waker.wake(); }`: what is woken
abbrev pub wake : Option ℕ → List ℕ
wake none = []
wake (some w) = w ∷ []

-- `pipe`, the state that both ends share
pub pipe : ℕ → Checked Pipe
pipe buffered = do
  ring ← RingBuf.with_capacity buffered
  value (record { ring_buf = ring; reader = none; writer = none; closed = false })

-- also `drop` of either end and `poll_close` of the writer
pub close : Pipe → Pipe × List ℕ
close p = (record p { closed = true; writer = none; reader = none }, wake p.writer ++ wake p.reader)

-- The pipe, the wakers woken, the caller's buffer and the result.
pub read : Pipe → List ℕ → Checked (Pipe × List ℕ × List ℕ × IoResult ℕ)
read p buf = do
  (ring, buf', read_size) ← RingBuf.read p.ring_buf buf
  let result : IoResult ℕ =
      if read_size == 0 then (if p.closed then err broken_pipe else ok 0) else ok read_size
  value (record p { ring_buf = ring; writer = none }, wake p.writer, buf', result)

pub write : Pipe → List ℕ → Checked (Pipe × List ℕ × IoResult ℕ)
write p buf = if p.closed then value (p, [], err broken_pipe) else do
  (ring, write_size) ← RingBuf.write p.ring_buf buf
  let result : IoResult ℕ = if write_size == 0 then ok 0 else ok write_size
  value (record p { ring_buf = ring; reader = none }, wake p.reader, result)

pub poll_read : Pipe → ℕ → List ℕ → Checked (Pipe × List ℕ × List ℕ × Poll (IoResult ℕ))
poll_read p waker buf = do
  (ring, buf', read_size) ← RingBuf.read p.ring_buf buf
  let p' : Pipe = record p { ring_buf = ring; writer = none }
  value (
      if read_size == 0
      then (if p.closed
          then (p', wake p.writer, buf', ready (ok 0))
          else (record p' { reader = some waker }, wake p.writer, buf', pending))
      else (p', wake p.writer, buf', ready (ok read_size)))

pub poll_write : Pipe → ℕ → List ℕ → Checked (Pipe × List ℕ × Poll (IoResult ℕ))
poll_write p waker buf = if p.closed then value (p, [], ready (ok 0)) else do
  (ring, write_size) ← RingBuf.write p.ring_buf buf
  let p' : Pipe = record p { ring_buf = ring; reader = none }
  value (
      if write_size == 0
      then (record p' { writer = some waker }, wake p.reader, pending)
      else (p', wake p.reader, ready (ok write_size)))

-- What the two ends of a pipe can do.
pub data Call : Type 0 where
  reads : List ℕ → Call
  writes : List ℕ → Call
  poll_reads : ℕ → List ℕ → Call
  poll_writes : ℕ → List ℕ → Call
  closes : Call

-- the count that a result reports, 0 for an error or a pending call
abbrev pub count : IoResult ℕ → ℕ
count (ok n) = n
count (err e) = 0

abbrev pub poll_count : Poll (IoResult ℕ) → ℕ
poll_count (ready r) = count r
poll_count pending = 0

-- What a call leaves: the pipe, the bytes that it put in, those that it gave out, and its wake-ups.
pub record Outcome : Type 0 where
  pub after : Pipe
  pub put : List ℕ
  pub got : List ℕ
  pub woken : List ℕ

pub call : Pipe → Call → Checked Outcome
call p (reads buf) = do
  (p', woken, buf', result) ← read p buf
  value (record { after = p'; put = []; got = take (count result) buf'; woken = woken })
call p (writes buf) = do
  (p', woken, result) ← write p buf
  value (record { after = p'; put = take (count result) buf; got = []; woken = woken })
call p (poll_reads waker buf) = do
  (p', woken, buf', result) ← poll_read p waker buf
  value (record { after = p'; put = []; got = take (poll_count result) buf'; woken = woken })
call p (poll_writes waker buf) = do
  (p', woken, result) ← poll_write p waker buf
  value (record { after = p'; put = take (poll_count result) buf; got = []; woken = woken })
call p closes =
    let (p', woken) = close p in value (record { after = p'; put = []; got = []; woken = woken })

-- A history of calls: the last pipe, all bytes put in, and all bytes given out.
pub run : Pipe → List Call → Checked (Pipe × List ℕ × List ℕ)
run p [] = value (p, [], [])
run p (c ∷ cs) = do
  o ← call p c
  (q, puts, gots) ← run o.after cs
  value (q, o.put ++ puts, o.got ++ gots)
