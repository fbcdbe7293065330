-- ===== src/Futures/Tasks.antt =====
-- crates/futures/src/lib.rs: one poll of each future of a connection and of a listener, for the task
-- of the waker. Where a future frees the mutex, `before` and `after` are what other threads do before
-- and after its call of the group.
use native.Mathlib.Decide.{ℕ_discrete}
use rtt.Prelude.{
  ℕ, Bool, true, false, Option, none, some, List, [], ◌∷◌, if◌then◌else◌, Checked, value, panic,
  ◌>>=◌,
}
use rtt.Prelude.Collections.{contains, remove}
use rtt.Prelude.Maps.{get, erase, put}
use rtt.Prelude.Io.{ok, err, IoResult, ErrorKind, broken_pipe, Poll, ready, pending}
use rtt.Api.{StreamKind}
use rtt.Net.{SocketAddr}
use rtt.Futures.{
  Event, Event-discrete, connected, stream_accept, open_event, Wakers, State, streams_of, stop,
  QuicBind, Worker, from_failure,
}

-- `QuicConn` without its group: the token, and whether it owns the group
pub record QuicConn : Type 0 where
  pub token : ℕ
  pub owns : Bool

-- `QuicStream` without its group
pub record QuicStream : Type 0 where
  pub token : ℕ
  pub stream_id : ℕ
  pub shutdown : Bool
  pub remote : Bool

abbrev pub wakers_of : State → ℕ → Wakers
wakers_of s token = elim (get ℕ_discrete token s.wakers) [ none ↦ [] | some conn ↦ conn ]

-- `state.wakers.entry(token).or_insert_with(Default::default).insert(event, waker)`
unfoldable pub register : State → ℕ → Event → ℕ → State
register s token event waker = record s {
  wakers = put ℕ_discrete token (put Event-discrete event waker (wakers_of s token)) s.wakers;
}

-- `state.wakers.get_mut(&token).unwrap().remove(&event)`
unfoldable pub unregister : State → ℕ → Event → Checked State
unregister s token event = elim (get ℕ_discrete token s.wakers) [
  | none ↦ panic
  | some conn ↦
      value (record s { wakers = put ℕ_discrete token (erase Event-discrete event conn) s.wakers })
]

-- `QuicConn::is_established`
unfoldable pub is_established : State → ℕ → ℕ → State × Poll (IoResult (Unit {0}))
unfolding register
is_established s token waker =
    if contains ℕ_discrete token s.established_conns
    then (
      record s { established_conns = remove ℕ_discrete token s.established_conns },
      ready (ok tt),
    )
    else (register s token connected waker, pending)

-- the part of `QuicConn::accept` for the streams that wait
unfoldable pub accept_from : State → ℕ → ℕ → List ℕ → State × Poll (IoResult QuicStream)
unfolding register
accept_from s token waker [] = (
  register (record s { incoming_streams = put ℕ_discrete token [] s.incoming_streams }) token
      stream_accept waker,
  pending,
)
accept_from s token waker (id ∷ ids) = (
  record s { incoming_streams = put ℕ_discrete token ids s.incoming_streams },
  ready (ok (record { token = token; stream_id = id; shutdown = false; remote = true })),
)

-- `QuicConn::accept`
unfoldable pub accept : State → ℕ → ℕ → State × Poll (IoResult QuicStream)
unfolding accept_from
accept s token waker =
    if s.stopped
    then (s, ready (err broken_pipe))
    else accept_from s token waker (streams_of token s.incoming_streams)

-- the part of `QuicListener::accept` for the connections that wait
unfoldable pub accept_conn_from : State → ℕ → List ℕ → State × Poll (IoResult QuicConn)
accept_conn_from s waker [] = (record s { accept = some waker }, pending)
accept_conn_from s waker (token ∷ conns) =
    (record s { incoming_conns = conns }, ready (ok (record { token = token; owns = false })))

-- `QuicListener::accept`
unfoldable pub accept_conn : State → ℕ → State × Poll (IoResult QuicConn)
unfolding accept_conn_from
accept_conn s waker =
    if s.stopped then (s, ready (err broken_pipe)) else accept_conn_from s waker s.incoming_conns

abbrev pub opened_stream : ℕ → ℕ → QuicStream
opened_stream token id = record { token = token; stream_id = id; shutdown = false; remote = false }

-- the result of `open_prv` in terms of its stream
abbrev pub map_stream : ℕ → Poll (IoResult (Option ℕ)) → Poll (IoResult (Option QuicStream))
map_stream token pending = pending
map_stream token (ready (err x)) = ready (err x)
map_stream token (ready (ok none)) = ready (ok none)
map_stream token (ready (ok (some id))) = ready (ok (some (opened_stream token id)))

-- the `?` and the `unwrap` of `open`
abbrev pub unwrap_stream :
    Poll (IoResult (Option QuicStream)) → Checked (Poll (IoResult QuicStream))
unwrap_stream pending = value pending
unwrap_stream (ready (err x)) = value (ready (err x))
unwrap_stream (ready (ok none)) = panic
unwrap_stream (ready (ok (some stream))) = value (ready (ok stream))

module _ (b : QuicBind) where
  abbrev pub Others : Type 0
  Others = Worker b → Worker b

  -- the match of `open_prv`, `send` and `recv` on the result of the group
  unfoldable pub finish :
      {A : Type 0} → Worker b → ℕ → Event → IoResult A → Checked (Worker b × Poll (IoResult A))
  unfolding unregister
  finish w token event (ok a) = do
    state ← unregister w.state token event
    value (record w { state = state }, ready (ok a))
  finish w token event (err ErrorKind.would_block) = value (w, pending)
  finish w token event (err x) = value (w, ready (err x))

  -- `open_prv`
  unfoldable pub open_prv :
      Worker b
      → ℕ
      → StreamKind
      → Bool
      → ℕ
      → Others
      → Others
      → Checked (Worker b × Poll (IoResult (Option QuicStream)))
  unfolding register finish
  open_prv w token kind non_blocking waker before after =
      if w.state.stopped then value (w, ready (err broken_pipe)) else (do
        let w1 = before (record w { state = register w.state token (open_event kind) waker })
        let (group, r) = b.stream_open w1.group token kind non_blocking
        let w2 = after (record w1 { group = group })
        (w3, result) ← finish w2 token (open_event kind) (from_failure b r)
        value (w3, map_stream token result))

  -- `open`
  unfoldable pub open_conn :
      Worker b
      → ℕ
      → StreamKind
      → ℕ
      → Others
      → Others
      → Checked (Worker b × Poll (IoResult QuicStream))
  unfolding open_prv
  open_conn w token kind waker before after = do
    (w', result) ← open_prv w token kind false waker before after
    stream ← unwrap_stream result
    value (w', stream)

  -- `QuicConn::drop`
  unfoldable pub drop_conn : Worker b → QuicConn → Worker b
  drop_conn w conn =
      let (group, closed) = b.close w.group conn.token false 0 [] in
      record { group = group; state = if conn.owns then stop w.state else w.state }

  -- `QuicListener::drop`
  unfoldable pub drop_listener : Worker b → Bool → Worker b
  drop_listener w owns = record w { state = if owns then stop w.state else w.state }

  -- `QuicConnector::create`, with the configuration after the call
  unfoldable pub create :
      Worker b
      → Option (List ℕ)
      → SocketAddr
      → SocketAddr
      → b.Config
      → Worker b × b.Config × IoResult QuicConn
  create w server_name local peer config =
      let (group, config', r) = b.connect w.group server_name local peer config in
      (
        record w { group = group },
        config',
        elim (from_failure b r) [
          | ok token ↦ ok (record { token = token; owns = false })
          | err x ↦ err x
        ],
      )
