-- ===== src/Conn.antt =====
-- crates/poll/src/conn.rs: `QuicConn`, its lock and what it does with a locked connection. The
-- handlers that `unlock` runs are in Conn/Handlers.antt, the methods in Conn/Methods.antt.
pub mod Handlers
pub mod Methods
pub mod Locking
pub mod Frame
pub mod Handling
pub mod Unlocking
pub mod Serving
pub mod Opening
pub mod StreamIds
pub mod Accepting
use native.Mathlib.Decide.{ℕ_discrete}
use rtt.Prelude.{
  ℕ, ◌+◌, ◌%◌, ◌/◌, Bool, true, false, Option, none, some, List, [], ◌∷◌, ◌==◌, ltb, if◌then◌else◌,
  Checked, value, panic, ◌>>=◌, ◌>>◌, assert, add64,
}
use rtt.Prelude.Collections.{beq, insert}
use rtt.Prelude.Io.{Result, ok, err}
use rtt.Api.{
  Error, quiche, retry, busy, StreamKind, uni, bidi, StreamKind-discrete, is_bidi, is_local,
}
use rtt.Quiche.{Quiche}

-- `LocKind`
pub data LocKind : Type 0 where
  unlocked send recv : LocKind
  close : Bool → ℕ → List ℕ → LocKind
  stream_open : StreamKind → LocKind
  stream_send : ℕ → ℕ → LocKind
  stream_recv : ℕ → LocKind
  stream_close : ℕ → ℕ → LocKind
  read_lock : LocKind

unfoldable pub LocKind-discrete : Discrete LocKind
LocKind-discrete = hlevel (ℕ_discrete, StreamKind-discrete)

unfoldable pub need_retry : LocKind → Bool
need_retry send = false
need_retry unlocked = false
need_retry _ = true

pub record LockContext : Type 0 where
  pub token : ℕ
  pub lock_count : ℕ
  pub send_done : Bool

-- `QuicConn`, over the type of `quiche::Connection`
pub record QuicConn (C : Type 0) : Type 0 where
  pub token : ℕ
  pub local_stream_bidi_next : ℕ
  pub remote_stream_bidi_seen : Option ℕ
  pub local_stream_uni_next : ℕ
  pub remote_stream_uni_seen : Option ℕ
  pub locker : LocKind
  pub reties : List LocKind
  pub lock_count : ℕ
  pub read_lock_count : ℕ
  pub established : Bool
  pub wrapped : C

abbrev pub is_kind : LocKind → LocKind → Bool
is_kind = beq LocKind-discrete

module _ (q : Quiche) where
  abbrev pub Conn : Type 0
  Conn = QuicConn q.Connection

  abbrev pub Outcome : Type 0 → Type 0
  Outcome A = Result (Error q.QError) A

  -- `QuicConn::new`
  unfoldable pub new : ℕ → q.Connection → Conn
  new token wrapped = record {
    token = token;
    local_stream_bidi_next = if q.is_server wrapped then 1 else 0;
    remote_stream_bidi_seen = none;
    local_stream_uni_next = if q.is_server wrapped then 3 else 2;
    remote_stream_uni_seen = none;
    locker = unlocked;
    reties = [];
    lock_count = 0;
    read_lock_count = 0;
    established = q.is_established wrapped;
    wrapped = wrapped;
  }

  abbrev pub granted : Conn → Checked (Conn × Outcome LockContext)
  granted c =
      value (c, ok (record { token = c.token; lock_count = c.lock_count; send_done = false }))

  -- the last case of `try_lock_prv`: the lock is held
  unfoldable pub refused : Conn → LocKind → Checked (Conn × Outcome LockContext)
  unfolding need_retry
  refused c kind = value (
    (if need_retry kind then record c { reties = insert LocKind-discrete kind c.reties } else c),
    err busy,
  )

  -- `try_lock_prv`, by the lock held
  unfoldable pub try_lock_from : LocKind → Conn → LocKind → Checked (Conn × Outcome LockContext)
  unfolding refused
  try_lock_from unlocked c kind =
      if is_kind kind read_lock
      then assert (c.read_lock_count == 0)
        >> granted (record c { read_lock_count = add64 c.read_lock_count 1; locker = kind })
      else granted (record c { locker = kind })
  try_lock_from read_lock c kind =
      if is_kind kind read_lock
      then assert (ltb 0 c.read_lock_count)
        >> granted (record c { read_lock_count = add64 c.read_lock_count 1 })
      else refused c kind
  try_lock_from _ c kind = refused c kind

  unfoldable pub try_lock_prv : Conn → LocKind → Checked (Conn × Outcome LockContext)
  unfolding try_lock_from
  try_lock_prv c kind = try_lock_from c.locker c kind

  -- `if let Err(err) = r { if err != quiche::Error::Done { … } }`: the error, unless it is `Done`
  abbrev pub failure : {A : Type 0} → Result q.QError A → Option q.QError
  failure (ok a) = none
  failure (err e) = if q.is_done e then none else some e

  -- The steps of `stream_close_prv`: shut the receiving side unless it is finished, and finish the
  -- sending side.
  unfoldable pub stop_receive : q.Connection → ℕ → ℕ → q.Connection × Outcome (Unit {0})
  stop_receive conn stream_id e =
      if q.stream_finished conn stream_id
      then (conn, ok tt)
      else (let (conn', r) = q.stream_shutdown_read conn stream_id e in
          (conn', elim (failure r) [ none ↦ ok tt | some x ↦ err (quiche x) ]))

  unfoldable pub shutdown_send : q.Connection → ℕ → q.Connection × Outcome (Unit {0})
  shutdown_send conn stream_id =
      let (conn', r) = q.stream_send conn stream_id [] true in
      (conn', elim (failure r) [ none ↦ ok tt | some x ↦ err (quiche x) ])

  unfoldable pub stream_close_prv : q.Connection → ℕ → ℕ → q.Connection × Outcome (Unit {0})
  unfolding stop_receive shutdown_send
  stream_close_prv conn stream_id e =
      if is_bidi stream_id
      then (let (conn', r) = stop_receive conn stream_id e in
          elim r [ ok u ↦ shutdown_send conn' stream_id | err x ↦ (conn', err x) ])
      else if is_local stream_id (q.is_server conn)
      then shutdown_send conn stream_id
      else stop_receive conn stream_id e

  -- the end of `stream_open_prv`, for the id taken
  unfoldable pub create_stream : Conn → ℕ → Conn × Outcome ℕ
  create_stream c stream_id =
      let (conn', r) = q.stream_priority c.wrapped stream_id 255 true in
      (record c { wrapped = conn' }, elim r [ ok u ↦ ok stream_id | err x ↦ err (quiche x) ])

  unfoldable pub stream_open_prv : Conn → StreamKind → Conn × Outcome ℕ
  unfolding create_stream
  stream_open_prv c uni =
      if q.peer_streams_left_uni c.wrapped == 0
      then (c, err retry)
      else create_stream (record c { local_stream_uni_next = add64 c.local_stream_uni_next 4 })
          c.local_stream_uni_next
  stream_open_prv c bidi =
      if q.peer_streams_left_bidi c.wrapped == 0
      then (c, err retry)
      else create_stream (record c { local_stream_bidi_next = add64 c.local_stream_bidi_next 4 })
          c.local_stream_bidi_next
