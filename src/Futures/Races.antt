-- ===== src/Futures/Races.antt =====
-- crates/futures/src/lib.rs: the results of polls, and what a connection that is closed at the same
-- time does to them.
use native.Mathlib.Decide.{ℕ_discrete}
use rtt.Prelude.{
  ℕ, ◌≡◌, ◌≢◌, refl, inl, inr, Bool, true, false, Option, none, List, [], arith, ◌∙◌, ap,
  Option-cases, if◌then◌else◌, Returns, Returns_choose, if_false, Returns_bind, panic,
}
use rtt.Prelude.Maps.{get, get-erase_self}
use rtt.Prelude.Io.{
  Result, ok, err, IoResult, ErrorKind, broken_pipe, not_found, other, Poll, ready, pending,
}
use rtt.Api.{StreamKind}
use rtt.Futures.{
  Event, stream_send, stream_recv, open_event, State, wake_all, on_closed, QuicBind, Worker,
  from_failure,
}
use rtt.Futures.Tasks.{QuicStream, unregister, Others, finish}
use rtt.Futures.Streams.{send, recv}
use rtt.Futures.Wakers.{waker_at, at_event, Rewired, unregister-Rewired, unregister_panics}
use rtt.Futures.Polling.{parked, answered}

-- the state after the background thread closed a connection holds no wakers of it
closed_none : (s : State) (token : ℕ) → get ℕ_discrete token (on_closed s token).wakers ≡ none
unfolding on_closed wake_all
closed_none s token = ground (arith, get-erase_self ℕ_discrete token s.wakers)

module _ (b : QuicBind) where
  -- What a poll does after the group has answered, where `w` is the worker after the other threads:
  -- a result is handed on and the task waits no longer, an error is handed on, or the poll is pending.
  abbrev pub AnsweredBy :
      {A : Type 0} → IoResult A → Worker b → ℕ → Event → Worker b → Poll (IoResult A) → Type 0
  AnsweredBy (ok a) w token event t p =
      (p ≡ ready (ok a))
      × (t.group ≡ w.group)
      × Rewired w.state [] (at_event token event none (waker_at w.state)) t.state
  AnsweredBy (err ErrorKind.would_block) w token event t p = (p ≡ pending) × (t ≡ w)
  AnsweredBy (err x) w token event t p = (p ≡ ready (err x)) × (t ≡ w)

  finish-AnsweredBy :
      {A : Type 0} (w : Worker b) (token : ℕ) (event : Event) (r : IoResult A)
      → get ℕ_discrete token w.state.wakers ≢ none
      → Returns (finish b w token event r) λ t. AnsweredBy r w token event t.0 t.1
  unfolding finish
  finish-AnsweredBy w token event (ok a) h =
      elim (Option-cases (get ℕ_discrete token w.state.wakers)) [
        | inl e ↦ absurd (h e)
        | inr (conn, e) ↦
            Returns_bind _ (unregister w.state token event) _
              (unregister-Rewired w.state token event e) λ s r. (refl, refl, r)
      ]
  finish-AnsweredBy w token event (err ErrorKind.would_block) h = (refl, refl)
  finish-AnsweredBy w token event (err not_found) h = (refl, refl)
  finish-AnsweredBy w token event (err broken_pipe) h = (refl, refl)
  finish-AnsweredBy w token event (err other) h = (refl, refl)

  finish_panics :
      {A : Type 0} (w : Worker b) (token : ℕ) (event : Event) (a : A)
      → get ℕ_discrete token w.state.wakers ≡ none
      → finish b w token event (ok a) ≡ panic
  unfolding finish
  finish_panics w token event a e = rw (unregister_panics w.state token event e)

  -- the group's answers to a poll of `send` and of `recv`
  abbrev pub send_call :
      Worker b → QuicStream → List ℕ → Bool → ℕ → Others b → b.Bound × Result b.Failure ℕ
  send_call w stream buf fin waker before =
      b.stream_send (parked b w stream.token (stream_send stream.stream_id) waker before).group
        stream.token stream.stream_id buf fin

  abbrev pub recv_call :
      Worker b → QuicStream → List ℕ → ℕ → Others b → b.Bound × List ℕ × Result b.Failure (ℕ × Bool)
  recv_call w stream buf waker before =
      b.stream_recv (parked b w stream.token (stream_recv stream.stream_id) waker before).group
        stream.token stream.stream_id buf

  abbrev pub open_call :
      Worker b → ℕ → StreamKind → Bool → ℕ → Others b → b.Bound × Result b.Failure (Option ℕ)
  open_call w token kind non_blocking waker before =
      b.stream_open (parked b w token (open_event kind) waker before).group token kind non_blocking

  -- the worker when `finish` runs
  abbrev pub send_left : Worker b → QuicStream → List ℕ → Bool → ℕ → Others b → Others b → Worker b
  send_left w stream buf fin waker before after =
      answered b (parked b w stream.token (stream_send stream.stream_id) waker before)
        (send_call w stream buf fin waker before).0 after

  abbrev pub recv_left : Worker b → QuicStream → List ℕ → ℕ → Others b → Others b → Worker b
  recv_left w stream buf waker before after =
      answered b (parked b w stream.token (stream_recv stream.stream_id) waker before)
        (recv_call w stream buf waker before).0 after

  -- A poll of `send` returns, if what other threads do meanwhile leaves the connection with an
  -- entry of wakers. On a stopped group it fails with a broken pipe, on a shut stream with
  -- another error, and else it comes to what the group answers: a size is handed on and the task
  -- waits no longer, an error that would block leaves the poll pending, and another error is
  -- handed on.
  pub send-AnsweredBy :
      (w : Worker b) (stream : QuicStream) (buf : List ℕ) (fin : Bool) (waker : ℕ)
      (before after : Others b)
      → get ℕ_discrete stream.token (send_left w stream buf fin waker before after).state.wakers
        ≢ none
      → Returns (send b w stream buf fin waker before after) λ t.
        if w.state.stopped
        then t ≡ (w, ready (err broken_pipe))
        else (if stream.shutdown
            then t ≡ (w, ready (err other))
            else AnsweredBy
                (from_failure b (send_call w stream buf fin waker before).1)
                (send_left w stream buf fin waker before after)
                stream.token
                (stream_send stream.stream_id)
                t.0
                t.1)
  unfolding send
  send-AnsweredBy w stream buf fin waker before after h =
      let event = stream_send stream.stream_id in
      Returns_choose w.state.stopped _ _ _ _ refl (
        Returns_choose stream.shutdown _ _ _ _ refl (
          finish-AnsweredBy (send_left w stream buf fin waker before after) stream.token event
            (from_failure b (send_call w stream buf fin waker before).1) h))

  -- The same of a poll of `recv`, with the caller's buffer as the group fills it; on a shut stream
  -- it reports the end and leaves the buffer.
  pub recv-AnsweredBy :
      (w : Worker b) (stream : QuicStream) (buf : List ℕ) (waker : ℕ) (before after : Others b)
      → get ℕ_discrete stream.token (recv_left w stream buf waker before after).state.wakers ≢ none
      → Returns (recv b w stream buf waker before after) λ t.
        if w.state.stopped
        then t ≡ (w, buf, ready (err broken_pipe))
        else (if stream.shutdown
            then t ≡ (w, buf, ready (ok (0, true)))
            else (t.1 ≡ (recv_call w stream buf waker before).1)
              × AnsweredBy
                  (from_failure b (recv_call w stream buf waker before).2)
                  (recv_left w stream buf waker before after)
                  stream.token
                  (stream_recv stream.stream_id)
                  t.0
                  t.2)
  unfolding recv
  recv-AnsweredBy w stream buf waker before after h =
      let event = stream_recv stream.stream_id in
      let left = recv_left w stream buf waker before after in
      let r = from_failure b (recv_call w stream buf waker before).2 in
      Returns_choose w.state.stopped _ _ _ _ refl (
        Returns_choose stream.shutdown _ _ _ _ refl (
          Returns_bind {P = λ t. AnsweredBy r left stream.token event t.0 t.1} _
            (finish b left stream.token event r) _ (finish-AnsweredBy left stream.token event r h)
            λ t p. (refl, p)))

  -- what the background thread does when a connection was closed
  abbrev pub closing : ℕ → Others b
  closing token w = record w { state = on_closed w.state token }

  -- On a group that is not stopped and a stream that is not shut, a poll of `send` panics if the
  -- group takes the bytes and the background thread dispatches the closing of the connection
  -- before the poll has the mutex again.
  pub send_raced :
      (w : Worker b) (stream : QuicStream) (buf : List ℕ) (fin : Bool) (waker n : ℕ)
      (before : Others b)
      → w.state.stopped ≡ false
      → stream.shutdown ≡ false
      → (send_call w stream buf fin waker before).1 ≡ ok n
      → send b w stream buf fin waker before (closing stream.token) ≡ panic
  unfolding send
  send_raced w stream buf fin waker n before s d e =
      if_false w.state.stopped _ _ s
      ∙ if_false stream.shutdown _ _ d
      ∙ ap
          (λ r.
            finish b (send_left w stream buf fin waker before (closing stream.token)) stream.token
              (stream_send stream.stream_id) (from_failure b r))
          e
      ∙ finish_panics (send_left w stream buf fin waker before (closing stream.token)) stream.token
          (stream_send stream.stream_id) n (closed_none _ stream.token)
