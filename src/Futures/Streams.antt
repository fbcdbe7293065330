-- ===== src/Futures/Streams.antt =====
-- crates/futures/src/lib.rs: one poll of each future of a stream, for the task of the waker, and the
-- implementations of AsyncRead and AsyncWrite, which poll such a future once. `before` and `after` are
-- what other threads do while a future has the mutex free.
use rtt.Prelude.{ℕ, Bool, true, false, List, if◌then◌else◌, Checked, value, panic, ◌>>=◌}
use rtt.Prelude.Io.{ok, err, IoResult, broken_pipe, other, Poll, ready, pending}
use rtt.Api.{io_would_block}
use rtt.Futures.{stream_send, stream_recv, State, wake, QuicBind, Worker, from_failure}
use rtt.Futures.Tasks.{QuicStream, register, Others, finish}

-- the size in the result of `recv`
abbrev pub read_size : Poll (IoResult (ℕ × Bool)) → Poll (IoResult ℕ)
read_size pending = pending
read_size (ready (err x)) = ready (err x)
read_size (ready (ok (size, fin))) = ready (ok size)

-- the critical section of `shutdown`: the flag is set, and the tasks of the stream are woken
unfoldable pub wake_stream : State → QuicStream → State
wake_stream s stream =
    wake (wake s stream.token (stream_send stream.stream_id)) stream.token
      (stream_recv stream.stream_id)

module _ (b : QuicBind) where
  -- `send`
  unfoldable pub send :
      Worker b
      → QuicStream
      → List ℕ
      → Bool
      → ℕ
      → Others b
      → Others b
      → Checked (Worker b × Poll (IoResult ℕ))
  unfolding register finish
  send w stream buf fin waker before after =
      let event = stream_send stream.stream_id in
      if w.state.stopped
      then value (w, ready (err broken_pipe))
      else if stream.shutdown
      then value (w, ready (err other))
      else (do
        let w1 = before (record w { state = register w.state stream.token event waker })
        let (group, r) = b.stream_send w1.group stream.token stream.stream_id buf fin
        let w2 = after (record w1 { group = group })
        finish b w2 stream.token event (from_failure b r))

  -- `recv`, with the caller's buffer after the call
  unfoldable pub recv :
      Worker b
      → QuicStream
      → List ℕ
      → ℕ
      → Others b
      → Others b
      → Checked (Worker b × List ℕ × Poll (IoResult (ℕ × Bool)))
  unfolding register finish
  recv w stream buf waker before after =
      let event = stream_recv stream.stream_id in
      if w.state.stopped
      then value (w, buf, ready (err broken_pipe))
      else if stream.shutdown
      then value (w, buf, ready (ok (0, true)))
      else (do
        let w1 = before (record w { state = register w.state stream.token event waker })
        let (group, buf', r) = b.stream_recv w1.group stream.token stream.stream_id buf
        let w2 = after (record w1 { group = group })
        (w3, result) ← finish b w2 stream.token event (from_failure b r)
        value (w3, buf', result))

  -- `shutdown`, with the stream after it: `panic` at the `assert_eq`
  unfoldable pub shutdown :
      Worker b → QuicStream → Checked (Worker b × QuicStream × IoResult (Unit {0}))
  unfolding wake_stream
  shutdown w stream =
      let s = wake_stream w.state stream in
      let stream' = record stream { shutdown = true } in
      if w.state.stopped
      then value (record w { state = s }, stream', err broken_pipe)
      else let (group, r) = b.stream_shutdown w.group stream.token stream.stream_id 0 in
        let w' : Worker b = record { group = group; state = s } in
        elim (io_would_block (from_failure b r)) [
          | pending ↦ panic
          | ready (ok u) ↦ value (w', stream', ok tt)
          | ready (err x) ↦ value (w', stream', err x)
        ]

  -- `QuicStream::drop`
  unfoldable pub drop_stream : Worker b → QuicStream → Checked (Worker b)
  unfolding shutdown
  drop_stream w stream = do (w', stream', result) ← shutdown w stream; value w'

  -- `AsyncRead::poll_read`, with the caller's buffer after the call
  unfoldable pub poll_read :
      Worker b
      → QuicStream
      → List ℕ
      → ℕ
      → Others b
      → Others b
      → Checked (Worker b × List ℕ × Poll (IoResult ℕ))
  unfolding recv
  poll_read w stream buf waker before after = do
    (w', buf', result) ← recv w stream buf waker before after
    value (w', buf', read_size result)

  -- `AsyncWrite::poll_write`
  unfoldable pub poll_write :
      Worker b
      → QuicStream
      → List ℕ
      → ℕ
      → Others b
      → Others b
      → Checked (Worker b × Poll (IoResult ℕ))
  unfolding send
  poll_write w stream buf waker before after = send w stream buf false waker before after

  -- `AsyncWrite::poll_flush`
  unfoldable pub poll_flush : Worker b → Poll (IoResult (Unit {0}))
  poll_flush w = if w.state.stopped then ready (err broken_pipe) else ready (ok tt)

  -- `AsyncWrite::poll_close`, with the stream after it
  unfoldable pub poll_close :
      Worker b → QuicStream → Checked (Worker b × QuicStream × Poll (IoResult (Unit {0})))
  unfolding shutdown
  poll_close w stream = do
    (w', stream', result) ← shutdown w stream
    value (w', stream', ready result)
