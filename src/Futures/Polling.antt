-- ===== src/Futures/Polling.antt =====
-- crates/futures/src/lib.rs: what a poll of `open`, `send` and `recv` comes to, whatever other threads
-- do while it has the mutex free.
use rtt.Prelude.{
  refl, false, ◌||◌, ◌>>=◌, value, Checked, if◌then◌else◌, ℕ, ◌≡◌, Bool, true, Option, none, some,
  List, IfReturns_if, IfReturns, IfReturns_bind, IfReturns_eq, IfReturns_weaken,
}
use rtt.Prelude.Io.{
  ok, err, IoResult, ErrorKind, broken_pipe, not_found, other, Poll, ready, pending,
}
use rtt.Api.{StreamKind, uni, bidi}
use rtt.Futures.{Event, stream_send, stream_recv, open_event, State, QuicBind, Worker, from_failure}
use rtt.Futures.Tasks.{QuicStream, register, unregister, Others, finish, open_prv, map_stream}
use rtt.Futures.Streams.{send, recv}
use rtt.Futures.Asking.{is_operation}
use rtt.Futures.Meanwhile.{Acts}
use rtt.Futures.Hearing.{Heard, register-Heard, Acts-Heard}

-- If a poll is pending, its task waits.
abbrev pub IfPending : {A : Type 0} → Poll A → Type 0 → Type 0
IfPending (ready a) P = Unit {0}
IfPending pending P = P

mapped :
    (token : ℕ) (r : Poll (IoResult (Option ℕ))) (P : Type 0)
    → IfPending r P
    → IfPending (map_stream token r) P
mapped token pending P h = h
mapped token (ready (err x)) P h = tt
mapped token (ready (ok none)) P h = tt
mapped token (ready (ok (some id))) P h = tt

-- an operation of a stream, or of its connection, that a task polls
pub data Operation : Type 0 where
  sends : List ℕ → Bool → Operation
  receives : List ℕ → Operation
  opens : StreamKind → Bool → Operation

abbrev pub event_of : QuicStream → Operation → Event
event_of stream (sends buf fin) = stream_send stream.stream_id
event_of stream (receives buf) = stream_recv stream.stream_id
event_of stream (opens kind non_blocking) = open_event kind

abbrev pub is_pending : {A : Type 0} → Poll A → Bool
is_pending (ready a) = false
is_pending pending = true

if_pending :
    {A : Type 0} (P : Type 0) (r : Poll A) → IfPending r P → if is_pending r then P else Unit {0}
if_pending P (ready a) p = tt
if_pending P pending p = p

or_false : (told : Bool) → (told || false) ≡ told
or_false true = refl
or_false false = refl

open_operation : (kind : StreamKind) → is_operation (open_event kind) ≡ true
open_operation uni = refl
open_operation bidi = refl

module _ (b : QuicBind) where
  -- Other threads act, or act and the background thread dispatches the event, as `told` has it.
  abbrev pub Does : ℕ → Event → Bool → Others b → Type 0
  Does token event told f = (w : Worker b) → Acts token event w.state told (f w).state

  finish-Heard :
      {A : Type 0} (told : Bool) (s : State) (w : Worker b) (token : ℕ) (event : Event) (waker : ℕ)
      (r : IoResult A)
      → Heard told s token event waker w.state
      → IfReturns
          (finish b w token event r)
          λ t. IfPending t.1 (Heard told s token event waker t.0.state)
  unfolding finish
  finish-Heard told s w token event waker (ok a) k =
      IfReturns_bind _ (unregister w.state token event) _
        (IfReturns_eq _ (unregister w.state token event) (λ t h. tt))
  finish-Heard told s w token event waker (err ErrorKind.would_block) k = k
  finish-Heard told s w token event waker (err not_found) k = tt
  finish-Heard told s w token event waker (err broken_pipe) k = tt
  finish-Heard told s w token event waker (err other) k = tt

  -- the worker when the group is called, and after the call and what follows it
  abbrev pub parked : Worker b → ℕ → Event → ℕ → Others b → Worker b
  parked w token event waker before =
      before (record w { state = register w.state token event waker })

  abbrev pub answered : Worker b → b.Bound → Others b → Worker b
  answered w group after = after (record w { group = group })

  -- What is heard before and after the call of the group.
  answered-Heard :
      (w : Worker b) (token : ℕ) (event : Event) (waker : ℕ) (early late : Bool)
      (before after : Others b) (group : b.Bound)
      → is_operation event ≡ true
      → Does token event early before
      → Does token event late after
      → Heard
          (late || early)
          w.state
          token
          event
          waker
          (answered (parked w token event waker before) group after).state
  answered-Heard w token event waker early late before after group op h k =
      Acts-Heard early w.state waker op (k _) (
        rw⁻¹ (or_false early)
          (Acts-Heard false w.state waker op (h _) (register-Heard w.state token event waker)))

  send-Heard :
      (w : Worker b) (stream : QuicStream) (buf : List ℕ) (fin : Bool) (waker : ℕ)
      (early late : Bool) (before after : Others b)
      → Does stream.token (stream_send stream.stream_id) early before
      → Does stream.token (stream_send stream.stream_id) late after
      → IfReturns (send b w stream buf fin waker before after) λ t.
        IfPending t.1 (
          Heard (late || early) w.state stream.token (stream_send stream.stream_id) waker t.0.state)
  unfolding send
  send-Heard w stream buf fin waker early late before after h k =
      let event = stream_send stream.stream_id in
      let told = late || early in
      let w1 = parked w stream.token event waker before in
      let r = b.stream_send w1.group stream.token stream.stream_id buf fin in
      let P : Worker b × Poll (IoResult ℕ) → Type 0 =
        λ t. IfPending t.1 (Heard told w.state stream.token event waker t.0.state) in
      IfReturns_if P w.state.stopped _ _ (λ s. tt)
        λ s.
          IfReturns_if P stream.shutdown _ _ (λ d. tt)
            λ d.
              finish-Heard told w.state (answered w1 r.0 after) stream.token event waker
                (from_failure b r.1)
                (answered-Heard w stream.token event waker early late before after r.0 refl h k)

  recv-Heard :
      (w : Worker b) (stream : QuicStream) (buf : List ℕ) (waker : ℕ) (early late : Bool)
      (before after : Others b)
      → Does stream.token (stream_recv stream.stream_id) early before
      → Does stream.token (stream_recv stream.stream_id) late after
      → IfReturns (recv b w stream buf waker before after) λ t.
        IfPending t.2 (
          Heard (late || early) w.state stream.token (stream_recv stream.stream_id) waker t.0.state)
  unfolding recv
  recv-Heard w stream buf waker early late before after h k =
      let event = stream_recv stream.stream_id in
      let told = late || early in
      let w1 = parked w stream.token event waker before in
      let r = b.stream_recv w1.group stream.token stream.stream_id buf in
      let P : Worker b × List ℕ × Poll (IoResult (ℕ × Bool)) → Type 0 =
        λ t. IfPending t.2 (Heard told w.state stream.token event waker t.0.state) in
      IfReturns_if P w.state.stopped _ _ (λ s. tt)
        λ s.
          IfReturns_if P stream.shutdown _ _ (λ d. tt)
            λ d.
              IfReturns_bind P
                (finish b (answered w1 r.0 after) stream.token event (from_failure b r.2)) _
                (finish-Heard told w.state (answered w1 r.0 after) stream.token event waker
                  (from_failure b r.2)
                  (answered-Heard w stream.token event waker early late before after r.0 refl h k))

  open_prv-Heard :
      (w : Worker b) (token : ℕ) (kind : StreamKind) (non_blocking : Bool) (waker : ℕ)
      (early late : Bool) (before after : Others b)
      → Does token (open_event kind) early before
      → Does token (open_event kind) late after
      → IfReturns
          (open_prv b w token kind non_blocking waker before after)
          λ t. IfPending t.1 (Heard (late || early) w.state token (open_event kind) waker t.0.state)
  unfolding open_prv
  open_prv-Heard w token kind non_blocking waker early late before after h k =
      let event = open_event kind in
      let told = late || early in
      let w1 = parked w token event waker before in
      let r = b.stream_open w1.group token kind non_blocking in
      let P : Worker b × Poll (IoResult (Option QuicStream)) → Type 0 =
        λ t. IfPending t.1 (Heard told w.state token event waker t.0.state) in
      let m = finish b (answered w1 r.0 after) token event (from_failure b r.1) in
      IfReturns_if P w.state.stopped _ _ (λ s. tt)
        λ s. IfReturns_bind P m _ (
          IfReturns_weaken
            (λ (t : Worker b × Poll (IoResult (Option ℕ))).
              IfPending t.1 (Heard told w.state token event waker t.0.state))
            _ m
            (finish-Heard told w.state (answered w1 r.0 after) token event waker
              (from_failure b r.1)
              (answered-Heard w token event waker early late before after r.0 (open_operation kind)
                h k))
            λ t p. mapped token t.1 _ p)

  -- a poll of one operation of a stream, and whether it is pending
  abbrev pub polled :
      Worker b → QuicStream → Operation → ℕ → Others b → Others b → Checked (Worker b × Bool)
  polled w stream (sends buf fin) waker before after = do
    (w', r) ← send b w stream buf fin waker before after
    value (w', is_pending r)
  polled w stream (receives buf) waker before after = do
    (w', left, r) ← recv b w stream buf waker before after
    value (w', is_pending r)
  polled w stream (opens kind non_blocking) waker before after = do
    (w', r) ← open_prv b w stream.token kind non_blocking waker before after
    value (w', is_pending r)

  -- Let a poll of `send`, `recv` or `open` be pending, and let other threads run any critical
  -- sections before and after the call of the group, none of which begins or ends the same
  -- operation. Then the task waits for the event of the operation or was woken since the poll
  -- began; and if the background thread dispatched the event in one of these times, the task was
  -- woken.
  pub polls-Heard :
      (w : Worker b) (stream : QuicStream) (op : Operation) (waker : ℕ) (early late : Bool)
      (before after : Others b)
      → Does stream.token (event_of stream op) early before
      → Does stream.token (event_of stream op) late after
      → IfReturns (polled w stream op waker before after) λ t.
        if t.1
        then Heard (late || early) w.state stream.token (event_of stream op) waker t.0.state
        else Unit {0}
  polls-Heard w stream (sends buf fin) waker early late before after h k =
      let event = stream_send stream.stream_id in
      IfReturns_bind _ (send b w stream buf fin waker before after) _ (
        IfReturns_weaken
          (λ (t : Worker b × Poll (IoResult ℕ)).
            IfPending t.1 (Heard (late || early) w.state stream.token event waker t.0.state))
          _ _ (send-Heard w stream buf fin waker early late before after h k)
          (λ t p. if_pending _ t.1 p))
  polls-Heard w stream (receives buf) waker early late before after h k =
      let event = stream_recv stream.stream_id in
      IfReturns_bind _ (recv b w stream buf waker before after) _ (
        IfReturns_weaken
          (λ (t : Worker b × List ℕ × Poll (IoResult (ℕ × Bool))).
            IfPending t.2 (Heard (late || early) w.state stream.token event waker t.0.state))
          _ _ (recv-Heard w stream buf waker early late before after h k)
          (λ t p. if_pending _ t.2 p))
  polls-Heard w stream (opens kind non_blocking) waker early late before after h k =
      IfReturns_bind _ (open_prv b w stream.token kind non_blocking waker before after) _ (
        IfReturns_weaken
          (λ (t : Worker b × Poll (IoResult (Option QuicStream))).
            IfPending t.1
              (Heard (late || early) w.state stream.token (open_event kind) waker t.0.state))
          _ _ (open_prv-Heard w stream.token kind non_blocking waker early late before after h k)
          (λ t p. if_pending _ t.1 p))
