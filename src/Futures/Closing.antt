-- ===== src/Futures/Closing.antt =====
-- crates/futures/src/lib.rs: a stream after its `shutdown`, and a connection after it was closed.
use native.Mathlib.Decide.{ℕ_discrete}
use rtt.Prelude.{
  ℕ, ◌≡◌, ◌≢◌, refl, Bool, true, false, none, some, List, [], ◌++◌, append_assoc, arith, ◌∙◌, sym,
  ap, subst, if◌then◌else◌, Returns, Returns_if, if_true, if_false, value, panic,
}
use rtt.Prelude.Collections.{beq_iff, contains}
use rtt.Prelude.Maps.{put, get-erase_self}
use rtt.Prelude.Io.{
  ok, err, IoResult, ErrorKind, would_block, not_found, broken_pipe, other, Poll, ready, pending,
}
use rtt.Api.{io_would_block}
use rtt.Futures.{
  Event, Event-discrete, connected, stream_accept, stream_send, stream_recv, State, wake, on_closed,
  QuicBind, Worker, from_failure, streams_of,
}
use rtt.Futures.Tasks.{QuicStream, Others, is_established, accept, accept_from, register}
use rtt.Futures.Streams.{send, recv, wake_stream, shutdown}
use rtt.Futures.Wakers.{waker_at, to_list, at_event, wake-Rewired, register-Rewired}
use rtt.Futures.Dispatching.{closed-Closes}

-- Both tasks of a stream were woken, and wait no longer; all other tasks still wait.
pub record Woken (s : State) (stream : QuicStream) (t : State) : Type 0 where
  pub log :
      t.woken
      ≡ s.woken
        ++ (to_list (waker_at s stream.token (stream_send stream.stream_id))
            ++ to_list (waker_at s stream.token (stream_recv stream.stream_id)))
  pub wakers :
      (j : ℕ) (k : Event)
      → waker_at t j k
        ≡ at_event stream.token
            (stream_send stream.stream_id)
            none
            (at_event stream.token (stream_recv stream.stream_id) none (waker_at s))
            j
            k
  pub stopped : t.stopped ≡ s.stopped

wake_stream-Woken : (s : State) (stream : QuicStream) → Woken s stream (wake_stream s stream)
unfolding wake_stream
wake_stream-Woken s stream =
    let sends = stream_send stream.stream_id in
    let receives = stream_recv stream.stream_id in
    let one = wake-Rewired s stream.token sends in
    let two = wake-Rewired (wake s stream.token sends) stream.token receives in
    let kept : waker_at (wake s stream.token sends) stream.token receives
        ≡ waker_at s stream.token receives =
      ground (arith, one.wakers stream.token receives, beq_iff Event-discrete sends receives) in
    record {
      log =
          two.log
          ∙ ap (λ l. l ++ to_list (waker_at (wake s stream.token sends) stream.token receives))
              one.log
          ∙ append_assoc s.woken (to_list (waker_at s stream.token sends)) _
          ∙ ap (λ o. s.woken ++ (to_list (waker_at s stream.token sends) ++ to_list o)) kept;
      wakers = λ j k. ground (arith, two.wakers j k, one.wakers j k);
      stopped = two.stopped ∙ one.stopped;
    }

module _ (b : QuicBind) where
  -- what a shut stream does to its users
  pub record Shut (w : Worker b) (stream : QuicStream)
      (t : Worker b × QuicStream × IoResult (Unit {0})) : Type 0 where
    pub woken : Woken w.state stream t.0.state
    pub flagged : t.1 ≡ record stream { shutdown = true }
    pub returned : t.2 ≡ (
        if w.state.stopped
        then err broken_pipe
        else from_failure b (b.stream_shutdown w.group stream.token stream.stream_id 0).1)
    pub sends :
        (buf : List ℕ) (fin : Bool) (waker : ℕ) (before after : Others b)
        → w.state.stopped ≡ false
        → send b t.0 t.1 buf fin waker before after ≡ value (t.0, ready (err other))
    pub receives :
        (buf : List ℕ) (waker : ℕ) (before after : Others b)
        → w.state.stopped ≡ false
        → recv b t.0 t.1 buf waker before after ≡ value (t.0, buf, ready (ok (0, true)))

  made-Shut :
      (w : Worker b) (stream : QuicStream) (group : b.Bound) (r : IoResult (Unit {0}))
      → r ≡ (
          if w.state.stopped
          then err broken_pipe
          else from_failure b (b.stream_shutdown w.group stream.token stream.stream_id 0).1)
      → Shut w stream (
        record { group = group; state = wake_stream w.state stream },
        record stream { shutdown = true },
        r,
      )
  unfolding send recv
  made-Shut w stream group r e =
      let k = wake_stream-Woken w.state stream in
      record {
        woken = k;
        flagged = refl;
        returned = e;
        sends = λ buf fin waker before after s. if_false _ _ _ (k.stopped ∙ s);
        receives = λ buf waker before after s. if_false _ _ _ (k.stopped ∙ s);
      }

  -- the `assert_eq` of `shutdown`
  asserted-Shut :
      (w : Worker b) (stream : QuicStream) (group : b.Bound) (r : IoResult (Unit {0}))
      → r ≢ err would_block
      → r ≡ (
          if w.state.stopped
          then err broken_pipe
          else from_failure b (b.stream_shutdown w.group stream.token stream.stream_id 0).1)
      → Returns
          (elim (io_would_block r) [
            | pending ↦ panic
            | ready (ok u) ↦ value (
              record { group = group; state = wake_stream w.state stream },
              record stream { shutdown = true },
              ok tt,
            )
            | ready (err x) ↦ value (
              record { group = group; state = wake_stream w.state stream },
              record stream { shutdown = true },
              err x,
            )
          ])
          (Shut w stream)
  unfolding io_would_block
  asserted-Shut w stream group (ok u) h e = made-Shut w stream group (ok tt) e
  asserted-Shut w stream group (err ErrorKind.would_block) h e = absurd (h refl)
  asserted-Shut w stream group (err not_found) h e = made-Shut w stream group (err not_found) e
  asserted-Shut w stream group (err broken_pipe) h e = made-Shut w stream group (err broken_pipe) e
  asserted-Shut w stream group (err other) h e = made-Shut w stream group (err other) e

  -- Shutting down a stream returns, if the group does not answer that it would block: the flag is
  -- set, exactly the tasks that wait to send or receive on the stream are woken and wait no
  -- longer, and the result is that of the group, or a broken pipe on a stopped group. On a group
  -- that is not stopped, a later `send` fails and a later `recv` reports the end of the stream,
  -- both at once and without changing anything.
  pub shutdown-Shut :
      (w : Worker b) (stream : QuicStream)
      → from_failure b (b.stream_shutdown w.group stream.token stream.stream_id 0).1
        ≢ err would_block
      → Returns (shutdown b w stream) (Shut w stream)
  unfolding shutdown
  shutdown-Shut w stream h =
      let (group, r) = b.stream_shutdown w.group stream.token stream.stream_id 0 in
      Returns_if (Shut w stream) w.state.stopped _ _
        (λ s. made-Shut w stream w.group (err broken_pipe) (sym (if_true _ _ _ s)))
        (λ s. asserted-Shut w stream group (from_failure b r) h (sym (if_false _ _ _ s)))

-- The task waits for the event.
abbrev pub Parked : {A : Type 0} → ℕ → Event → ℕ → State × Poll A → Type 0
Parked token event waker t = (t.1 ≡ pending) × (waker_at t.0 token event ≡ some waker)

registered :
    (s : State) (token : ℕ) (event : Event) (waker : ℕ)
    → waker_at (register s token event waker) token event ≡ some waker
registered s token event waker = ground (
  arith,
  (register-Rewired s token event waker).wakers token event,
  beq_iff ℕ_discrete token token,
  beq_iff Event-discrete event event,
)

is_established_waits :
    (s : State) (token waker : ℕ)
    → contains ℕ_discrete token s.established_conns ≡ false
    → is_established s token waker ≡ (register s token connected waker, pending)
unfolding is_established
is_established_waits s token waker e = if_false _ _ _ e

-- the state before `accept` registers its waker
abbrev emptied : State → ℕ → State
emptied s token = record s { incoming_streams = put ℕ_discrete token [] s.incoming_streams }

accept_waits :
    (s : State) (token waker : ℕ)
    → s.stopped ≡ false
    → streams_of token s.incoming_streams ≡ []
    → accept s token waker ≡ (register (emptied s token) token stream_accept waker, pending)
unfolding accept accept_from
accept_waits s token waker live none_left =
    if_false _ _ _ live ∙ ap (λ ids. accept_from s token waker ids) none_left

-- After a connection was closed, in a group that is not stopped and without the connection being
-- known as established, `is_established` and `accept` of the connection are pending and register
-- their task as waiting.
pub closed_waits :
    (s : State) (token waker : ℕ)
    → s.stopped ≡ false
    → contains ℕ_discrete token s.established_conns ≡ false
    → Parked token connected waker (is_established (on_closed s token) token waker)
      × Parked token stream_accept waker (accept (on_closed s token) token waker)
closed_waits s token waker live new =
    let c = closed-Closes s token in
    let t = on_closed s token in
    let none_left : streams_of token t.incoming_streams ≡ [] =
      ground (arith, c.streams, get-erase_self ℕ_discrete token s.incoming_streams) in
    let connects =
      is_established_waits t token waker (ap (contains ℕ_discrete token) c.established ∙ new) in
    let accepts = accept_waits t token waker (c.stopped ∙ live) none_left in
    (
      subst (Parked token connected waker) (sym connects)
          (refl, registered t token connected waker),
      subst (Parked token stream_accept waker) (sym accepts)
          (refl, registered (emptied t token) token stream_accept waker),
    )
