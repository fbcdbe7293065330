-- ===== src/Tests/Tasks.antt =====
-- An asynchronous group on small inputs, over a group that is busy or answers at once.
use native.Mathlib.Decide.{ℕ_discrete}
use rtt.Prelude.{
  ℕ, ◌≡◌, ◌≢◌, refl, Bool, true, false, none, some, [], ◌∷◌, length, if◌then◌else◌, value, panic,
  Returns, IfReturns,
}
use rtt.Prelude.Collections.{contains}
use rtt.Prelude.Maps.{get}
use rtt.Prelude.Io.{Result, ok, err, broken_pipe, other, ready}
use rtt.Api.{EventKind, Error, busy, to_io_error, not_found}
use rtt.Futures.{
  stream_send, on_stream_send, State, new, stop, on_accept, on_closed, dispatch, dispatch_kind,
  QuicBind, Worker, run, connected, stream_accept,
}
use rtt.Futures.Tasks.{QuicStream, register, accept_conn, is_established, accept}
use rtt.Futures.Streams.{send, shutdown}
use rtt.Futures.Dispatching.{Dispatched, dispatch-Dispatched}
use rtt.Futures.Stepping.{Reach, here, next, dispatches, stops, accepts_conn, Reach-Awake}
use rtt.Futures.Waiting.{Awake}
use rtt.Futures.Running.{Ended, run_never_ends}
use rtt.Futures.Meanwhile.{nothing_done, tells}
use rtt.Futures.Hearing.{Heard}
use rtt.Futures.Polling.{sends, Does, polled, polls-Heard}
use rtt.Futures.Races.{AnsweredBy, send_left, closing, send-AnsweredBy, send_raced}
use rtt.Futures.Closing.{Shut, shutdown-Shut, Parked, closed_waits}
use rtt.Tests.Events.{some_event}

-- a result, or `Busy` if the group is busy
abbrev unless_busy : {A : Type 0} → Bool → A → Bool × Result (Error ℕ) A
unless_busy b a = (b, if b then err busy else ok a)

abbrev answering : QuicBind
answering = record {
  Bound = Bool;
  Failure = Error ℕ;
  to_io = to_io_error;
  len = λ b. 0;
  poll = λ b. unless_busy b (some_event EventKind.accept ∷ [], none);
  close = λ b token app e reason. unless_busy b tt;
  stream_open = λ b token kind non_blocking. unless_busy b (some 4);
  stream_shutdown = λ b token id e. (b, err not_found);
  stream_send = λ b token id buf fin. unless_busy b (length buf);
  stream_recv = λ b token id buf. let (b', r) = unless_busy b (length buf, true) in (b', buf, r);
  Config = Unit {0};
  connect = λ b name local peer config. let (b', r) = unless_busy b 0 in (b', config, r);
}

abbrev idle : Bool → Worker answering
idle b = record { group = b; state = new }

abbrev a_stream : QuicStream
a_stream = record { token = 0; stream_id = 4; shutdown = false; remote = false }

-- A listener waits, and a connection comes.
abbrev waiting : State
waiting = (accept_conn new 7).0

came : dispatch waiting (some_event EventKind.accept) ≡ value (on_accept waiting 0)
unfolding dispatch_kind
came = refl

came-Reach : Reach new (on_accept waiting 0)
came-Reach =
    next (next here (accepts_conn new 7))
      (dispatches waiting (on_accept waiting 0) (some_event EventKind.accept) came)

Reach-Awake_example : Awake (on_accept waiting 0)
Reach-Awake_example = Reach-Awake came-Reach

run_never_ends_example :
    IfReturns
      (run answering ((λ w. record w { state = stop w.state }) ∷ []) (idle false))
      λ t. ¬ Ended t.1
run_never_ends_example =
    run_never_ends answering ((λ w. record w { state = stop w.state }) ∷ []) (idle false) here
      ((λ w r. next r (stops w.state)), tt)

dispatch-Dispatched_example :
    Returns
      (dispatch (register new 0 (stream_send 4) 9) (some_event EventKind.stream_send))
      (Dispatched (register new 0 (stream_send 4) 9) EventKind.stream_send 0 4)
dispatch-Dispatched_example =
    dispatch-Dispatched (register new 0 (stream_send 4) 9) (some_event EventKind.stream_send) refl

abbrev nothing : Worker answering → Worker answering
nothing w = w

abbrev stopping : Worker answering → Worker answering
stopping w = record w { state = stop w.state }

-- The background thread dispatches that the stream can be written to.
abbrev telling : Worker answering → Worker answering
telling w = record w { state = on_stream_send w.state 0 4 }

telling-Does : Does answering 0 (stream_send 4) true telling
unfolding dispatch_kind
telling-Does w = tells (some_event EventKind.stream_send) nothing_done refl refl refl

polls-Heard_example :
    IfReturns
      (polled answering (idle true) a_stream (sends (1 ∷ []) false) 9 nothing telling)
      λ t. if t.1 then Heard true new 0 (stream_send 4) 9 t.0.state else Unit {0}
polls-Heard_example =
    polls-Heard answering (idle true) a_stream (sends (1 ∷ []) false) 9 false true nothing telling
      (λ w. nothing_done) telling-Does

send_entry :
    get ℕ_discrete 0
      (send_left answering (idle false) a_stream (1 ∷ []) false 9 nothing nothing).state.wakers
    ≢ none
unfolding register get ℕ_discrete
send_entry = λ e. cc

send-AnsweredBy_example :
    Returns (send answering (idle false) a_stream (1 ∷ []) false 9 nothing nothing) λ t.
      if new.stopped
      then t ≡ (idle false, ready (err broken_pipe))
      else (if false
          then t ≡ (idle false, ready (err other))
          else AnsweredBy answering
              (ok 1)
              (send_left answering (idle false) a_stream (1 ∷ []) false 9 nothing nothing)
              0
              (stream_send 4)
              t.0
              t.1)
send-AnsweredBy_example =
    send-AnsweredBy answering (idle false) a_stream (1 ∷ []) false 9 nothing nothing send_entry

live : new.stopped ≡ false
unfolding new
live = refl

send_raced_example :
    send answering (idle false) a_stream (1 ∷ []) false 9 nothing (closing answering 0) ≡ panic
send_raced_example =
    send_raced answering (idle false) a_stream (1 ∷ []) false 9 1 nothing live refl refl

shutdown-Shut_example :
    Returns (shutdown answering (idle false) a_stream) (Shut answering (idle false) a_stream)
unfolding to_io_error
shutdown-Shut_example = shutdown-Shut answering (idle false) a_stream (λ e. cc)

closed_waits_example :
    Parked 0 connected 9 (is_established (on_closed new 0) 0 9)
    × Parked 0 stream_accept 9 (accept (on_closed new 0) 0 9)
unfolding new contains
closed_waits_example = closed_waits new 0 9 live refl
