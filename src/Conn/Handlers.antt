-- ===== src/Conn/Handlers.antt =====
-- crates/poll/src/conn.rs: the handlers that `unlock` runs.
use rtt.Prelude.{
  ℕ, zero, suc, Bool, true, false, Option, none, some, List, [], ◌∷◌, ltb, ◌&&◌, not, if◌then◌else◌,
  Checked, value, panic, ◌>>=◌,
}
use rtt.Prelude.Collections.{insert}
use rtt.Prelude.Io.{ok, err}
use rtt.Api.{Event, EventKind, uni, bidi, is_bidi, is_local}
use rtt.Readiness.{PriorityQueue, Readiness, insert_event, remove_event}
use rtt.Quiche.{Quiche}
use rtt.Timing.{delay_send}
use rtt.Conn.{
  LocKind, unlocked, send, recv, close, stream_open, stream_send, stream_recv, stream_close,
  read_lock, LocKind-discrete, Conn, failure, stream_close_prv,
}

module _ (q : Quiche) (pq : PriorityQueue) where
  -- an event of connection `c`
  abbrev pub event : Conn q → EventKind → Bool → ℕ → Event
  event c kind is_error stream_id = record {
    token = c.token;
    kind = kind;
    is_server = q.is_server c.wrapped;
    is_error = is_error;
    stream_id = stream_id;
  }

  -- `readiness.insert(Event { … }, None)`
  abbrev pub notify : Conn q → Readiness pq → EventKind → Bool → ℕ → Conn q × Readiness pq
  notify c r kind is_error stream_id = (c, insert_event pq r (event c kind is_error stream_id) none)

  -- `self.reties.insert(…)`
  abbrev pub keep_retry : Conn q → LocKind → Conn q
  keep_retry c kind = record c { reties = insert LocKind-discrete kind c.reties }

  -- one round of the loop of `handle_retry_events`
  unfoldable pub handle_retry : Conn q → Readiness pq → LocKind → Checked (Conn q × Readiness pq)
  handle_retry c r send = value (c, r)
  handle_retry c r recv = value (notify c r EventKind.recv false 0)
  handle_retry c r (close app e reason) =
      let (conn', result) = q.close c.wrapped app e reason in
      let c' : Conn q = record c { wrapped = conn' } in
      value
        (elim (failure q result) [ none ↦ (c', r) | some x ↦ notify c' r EventKind.closed true 0 ])
  handle_retry c r (stream_open uni) = value (
      if ltb 0 (q.peer_streams_left_uni c.wrapped)
      then notify c r EventKind.stream_open_uni false 0
      else (keep_retry c (stream_open uni), r))
  handle_retry c r (stream_open bidi) = value (
      if ltb 0 (q.peer_streams_left_bidi c.wrapped)
      then notify c r EventKind.stream_open_bidi false 0
      else (keep_retry c (stream_open bidi), r))
  handle_retry c r (stream_send id len) =
      let (conn', result) = q.stream_writable c.wrapped id len in
      let c' : Conn q = record c { wrapped = conn' } in
      value (elim result [
        | ok writable ↦ if writable then notify c' r EventKind.stream_send false id else (c', r)
        | err x ↦ notify c' r EventKind.stream_send true id
      ])
  handle_retry c r (stream_recv stream_id) =
      value (notify c r EventKind.stream_recv false stream_id)
  handle_retry c r (stream_close id e) =
      value (record c { wrapped = (stream_close_prv q c.wrapped id e).0 }, r)
  handle_retry c r read_lock = value (notify c r EventKind.read_lock false 0)
  handle_retry c r unlocked = panic

  -- the loop of `handle_retry_events`, over the set that was drained
  unfoldable pub handle_retries :
      Conn q → Readiness pq → List LocKind → Checked (Conn q × Readiness pq)
  handle_retries c r [] = value (c, r)
  handle_retries c r (kind ∷ kinds) = do
    (c', r') ← handle_retry c r kind
    handle_retries c' r' kinds

  unfoldable pub handle_retry_events : Conn q → Readiness pq → Checked (Conn q × Readiness pq)
  handle_retry_events c r = handle_retries (record c { reties = [] }) r c.reties

  -- the largest stream id of the peer seen, of the kind of `new`
  abbrev pub remote_seen : Conn q → ℕ → Option ℕ
  remote_seen c new = if is_bidi new then c.remote_stream_bidi_seen else c.remote_stream_uni_seen

  abbrev pub set_remote_seen : Conn q → ℕ → Conn q
  set_remote_seen c new =
      if is_bidi new
      then record c { remote_stream_bidi_seen = some new }
      else record c { remote_stream_uni_seen = some new }

  -- whether `handle_accept` reports `new` as a stream first seen
  abbrev pub is_first : Option ℕ → ℕ → Bool
  is_first none new = true
  is_first (some seen) new = ltb seen new

  unfoldable pub handle_accept : Conn q → Readiness pq → ℕ → Conn q × Readiness pq
  handle_accept c r new =
      if is_first (remote_seen c new) new
      then (
        set_remote_seen c new,
        insert_event pq r (event c EventKind.stream_accept false new) none,
      )
      else notify c r EventKind.stream_recv false new

  -- the first loop of `handle_stream_state_changed`, on fuel; `panic` where that runs out
  unfoldable pub writable_loop : ℕ → Conn q → Readiness pq → Checked (Conn q × Readiness pq)
  writable_loop zero c r = panic
  writable_loop (suc fuel) c r = elim (q.stream_writable_next c.wrapped) [
    | none ↦ value (c, r)
    | some (stream_id, conn') ↦
        let c' : Conn q = record c { wrapped = conn' } in
        writable_loop fuel c'
          (insert_event pq r (event c' EventKind.stream_send false stream_id) none)
  ]

  -- the body of the second loop
  unfoldable pub handle_readable : Conn q → Readiness pq → ℕ → Conn q × Readiness pq
  unfolding handle_accept
  handle_readable c r stream_id =
      if is_local stream_id (q.is_server c.wrapped)
      then notify c r EventKind.stream_recv false stream_id
      else handle_accept c r stream_id

  unfoldable pub readable_loop : ℕ → Conn q → Readiness pq → Checked (Conn q × Readiness pq)
  readable_loop zero c r = panic
  readable_loop (suc fuel) c r = elim (q.stream_readable_next c.wrapped) [
    | none ↦ value (c, r)
    | some (stream_id, conn') ↦
        let (c', r') = handle_readable (record c { wrapped = conn' }) r stream_id in
        readable_loop fuel c' r'
  ]

  unfoldable pub handle_stream_state_changed :
      Conn q → Readiness pq → Checked (Conn q × Readiness pq)
  handle_stream_state_changed c r = do
    (c', r') ← writable_loop (suc (q.writable_count c.wrapped)) c r
    readable_loop (suc (q.readable_count c'.wrapped)) c' r'

  unfoldable pub handle_send : Conn q → Readiness pq → ℕ → Bool → Readiness pq
  handle_send c r now send_done =
      let delay_to = delay_send q c.wrapped now send_done in
      elim delay_to [
        | none ↦
            if send_done
            then remove_event pq r (event c EventKind.send false 0)
            else insert_event pq r (event c EventKind.send false 0) none
        | some t ↦ insert_event pq r (event c EventKind.send false 0) (some t)
      ]

  -- the first part of `handle_state_changed`
  unfoldable pub handle_established : Conn q → Readiness pq → Conn q × Readiness pq
  handle_established c r =
      if not c.established && q.is_established c.wrapped
      then notify (record c { established = true }) r
          (if q.is_server c.wrapped then EventKind.accept else EventKind.connected) false 0
      else (c, r)

  unfoldable pub handle_state_changed : Conn q → Readiness pq → Conn q × Readiness pq × Bool
  unfolding handle_established
  handle_state_changed c r =
      let (c', r') = handle_established c r in
      if q.is_closed c'.wrapped
      then (c', insert_event pq r' (event c' EventKind.closed false 0) none, true)
      else (c', r', false)
