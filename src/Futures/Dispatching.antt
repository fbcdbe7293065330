-- ===== src/Futures/Dispatching.antt =====
-- crates/futures/src/lib.rs: what the background thread does with an event, and what `stop` does.
use native.Mathlib.Decide.{ℕ_discrete}
use rtt.Prelude.{
  ℕ, ◌≡◌, Bool, true, false, none, [], ◌∷◌, ◌++◌, append-nil, arith, if◌then◌else◌, Returns,
}
use rtt.Prelude.Collections.{beq, beq_iff, insert}
use rtt.Prelude.Maps.{put, erase, get-erase}
use rtt.Api.{EventKind, uni, bidi}
use rtt.Api
use rtt.Futures.{
  Event, connected, stream_accept, stream_open_bidi, stream_open_uni, stream_send, stream_recv,
  State, tasks, all_tasks, streams_of, wake_accept, stop, wake_all, on_closed, on_connected,
  on_accept, on_stream_open, on_stream_accept, on_stream_send, on_stream_recv, dispatch_kind,
  dispatch,
}
use rtt.Futures.Tasks.{wakers_of}
use rtt.Futures.Wakers.{waker_at, to_list, at_event, Rewired, wake-Rewired, get_nil}

-- The task of exactly one waker is woken, if the event has one, and the waker is gone.
abbrev pub Wakes : State → State → ℕ → Event → State → Type 0
Wakes s queued token event t =
    Rewired queued (to_list (waker_at s token event)) (at_event token event none (waker_at s)) t

-- A connection was closed: all its tasks are woken, and nothing of it is left.
pub record Closes (s : State) (token : ℕ) (t : State) : Type 0 where
  pub log : t.woken ≡ s.woken ++ tasks (wakers_of s token)
  pub wakers :
      (j : ℕ) (k : Event)
      → waker_at t j k ≡ (if beq ℕ_discrete token j then none else waker_at s j k)
  pub streams : t.incoming_streams ≡ erase ℕ_discrete token s.incoming_streams
  pub stopped : t.stopped ≡ s.stopped
  pub accept : t.accept ≡ s.accept
  pub conns : t.incoming_conns ≡ s.incoming_conns
  pub established : t.established_conns ≡ s.established_conns

-- what an event of a kind does
abbrev pub Dispatched : State → EventKind → ℕ → ℕ → State → Type 0
Dispatched s EventKind.connected token id t =
    Wakes s (record s { established_conns = insert ℕ_discrete token s.established_conns }) token
      connected t
Dispatched s EventKind.accept token id t = t ≡ record s {
  accept = none;
  incoming_conns = s.incoming_conns ++ (token ∷ []);
  woken = s.woken ++ to_list s.accept;
}
Dispatched s EventKind.closed token id t = Closes s token t
Dispatched s EventKind.stream_open_bidi token id t = Wakes s s token stream_open_bidi t
Dispatched s EventKind.stream_open_uni token id t = Wakes s s token stream_open_uni t
Dispatched s EventKind.stream_accept token id t =
    Wakes s
      (record s {
        incoming_streams =
            put ℕ_discrete token (streams_of token s.incoming_streams ++ (id ∷ []))
              s.incoming_streams;
      })
      token stream_accept t
Dispatched s EventKind.stream_send token id t = Wakes s s token (stream_send id) t
Dispatched s EventKind.stream_recv token id t = Wakes s s token (stream_recv id) t
Dispatched s _ token id t = ⊥

-- the kinds that a group announces to its user
abbrev pub is_announced : EventKind → Bool
is_announced EventKind.send = false
is_announced EventKind.recv = false
is_announced EventKind.read_lock = false
is_announced _ = true

wake_accept_lem :
    (s : State) → wake_accept s ≡ record s { accept = none; woken = s.woken ++ to_list s.accept }
unfolding wake_accept
wake_accept_lem s = ground (arith, append-nil s.woken)

pub closed-Closes : (s : State) (token : ℕ) → Closes s token (on_closed s token)
unfolding on_closed wake_all
closed-Closes s token = record {
  log = ground (arith, append-nil s.woken);
  wakers = λ j k.
      ground (arith, get_nil k, get-erase ℕ_discrete token j s.wakers, beq_iff ℕ_discrete token j);
  streams = ground arith;
  stopped = ground arith;
  accept = ground arith;
  conns = ground arith;
  established = ground arith;
}

dispatch_kind-Dispatched :
    (s : State) (kind : EventKind) (token id : ℕ)
    → is_announced kind ≡ true
    → Returns (dispatch_kind s kind token id) (Dispatched s kind token id)
unfolding dispatch_kind on_connected on_accept on_stream_open on_stream_accept on_stream_send
    on_stream_recv
dispatch_kind-Dispatched s EventKind.connected token id h = wake-Rewired _ token connected
dispatch_kind-Dispatched s EventKind.accept token id h = wake_accept_lem _
dispatch_kind-Dispatched s EventKind.closed token id h = closed-Closes s token
dispatch_kind-Dispatched s EventKind.stream_open_bidi token id h =
    wake-Rewired s token stream_open_bidi
dispatch_kind-Dispatched s EventKind.stream_open_uni token id h =
    wake-Rewired s token stream_open_uni
dispatch_kind-Dispatched s EventKind.stream_accept token id h = wake-Rewired _ token stream_accept
dispatch_kind-Dispatched s EventKind.stream_send token id h = wake-Rewired s token (stream_send id)
dispatch_kind-Dispatched s EventKind.stream_recv token id h = wake-Rewired s token (stream_recv id)
dispatch_kind-Dispatched s EventKind.send token id h = absurd (cc)
dispatch_kind-Dispatched s EventKind.recv token id h = absurd (cc)
dispatch_kind-Dispatched s EventKind.read_lock token id h = absurd (cc)

-- Dispatching an event of a kind that a group announces never panics. A connection or a stream
-- that comes is queued, and an established connection is noted. Exactly the task of the waker
-- that is registered for the event is woken, if there is one, and that waker is gone, while all
-- others stay; on a closing all tasks of the connection are woken, and its wakers and queued
-- streams are gone.
pub dispatch-Dispatched :
    (s : State) (e : Api.Event)
    → is_announced e.kind ≡ true
    → Returns (dispatch s e) (Dispatched s e.kind e.token e.stream_id)
dispatch-Dispatched s e h = dispatch_kind-Dispatched s e.kind e.token e.stream_id h

-- Stopping wakes the task that accepts connections and all tasks of the connections, and forgets
-- their wakers; it leaves the rest of the state, `stopped` included.
pub stop_lem :
    (s : State)
    → stop s ≡ record s {
      accept = none;
      wakers = [];
      woken = (s.woken ++ to_list s.accept) ++ all_tasks s.wakers;
    }
unfolding stop
stop_lem s = rw (wake_accept_lem s)
