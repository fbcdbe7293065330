-- ===== src/Futures.antt =====
-- crates/futures/src/lib.rs: the state of an asynchronous group and what its background thread does
-- to it. A waker is the number of its task, and `woken` has the tasks that were woken. A function of
-- `State` here is one critical section of the mutex.
pub mod Tasks
pub mod Streams
pub mod Wakers
pub mod Dispatching
pub mod Waiting
pub mod Asking
pub mod Stepping
pub mod Running
pub mod Keeping
pub mod Meanwhile
pub mod Hearing
pub mod Polling
pub mod Races
pub mod Closing
use native.Mathlib.Decide.{ℕ_discrete}
use rtt.Prelude.{
  ℕ, ◌≡◌, Bool, true, false, Option, none, some, List, [], ◌∷◌, ◌++◌, map, ◌==◌, ◌&&◌, Checked,
  value, panic, ◌>>=◌,
}
use rtt.Prelude.Collections.{insert}
use rtt.Prelude.Maps.{get, erase, put}
use rtt.Prelude.Io.{Result, ok, err, IoResult, ErrorKind}
use rtt.Api.{EventKind, StreamKind, StreamKind-discrete, uni, bidi}
use rtt.Api
use rtt.Net.{SocketAddr}

-- `Event`
pub data Event : Type 0 where
  connected stream_accept stream_open_bidi stream_open_uni : Event
  stream_send stream_recv : ℕ → Event

unfoldable pub Event-discrete : Discrete Event
Event-discrete = hlevel ℕ_discrete

-- the wakers of one connection
abbrev pub Wakers : Type 0
Wakers = List (Event × ℕ)

-- `State`
pub record State : Type 0 where
  pub stopped : Bool
  pub accept : Option ℕ
  pub wakers : List (ℕ × Wakers)
  pub incoming_conns : List ℕ
  pub established_conns : List ℕ
  pub incoming_streams : List (ℕ × List ℕ)
  pub woken : List ℕ

-- `State::default`
unfoldable pub new : State
new = record {
  stopped = false;
  accept = none;
  wakers = [];
  incoming_conns = [];
  established_conns = [];
  incoming_streams = [];
  woken = [];
}

-- the tasks of all wakers of a connection
abbrev pub tasks : Wakers → List ℕ
tasks [] = []
tasks ((event, waker) ∷ rest) = waker ∷ tasks rest

abbrev pub all_tasks : List (ℕ × Wakers) → List ℕ
all_tasks [] = []
all_tasks ((token, conn) ∷ rest) = tasks conn ++ all_tasks rest

-- `state.accept.take()`, and the wake-up of what was there
unfoldable pub wake_accept : State → State
wake_accept s = elim s.accept [
  | none ↦ s
  | some waker ↦ record s { accept = none; woken = s.woken ++ (waker ∷ []) }
]

-- `Group::stop`
unfoldable pub stop : State → State
unfolding wake_accept
stop s =
    let s' = wake_accept s in record s' { wakers = []; woken = s'.woken ++ all_tasks s'.wakers }

-- `Group::wake`
unfoldable pub wake : State → ℕ → Event → State
wake s token event = elim (get ℕ_discrete token s.wakers) [
  | none ↦ s
  | some conn ↦ elim (get Event-discrete event conn) [
    | none ↦ s
    | some waker ↦ record s {
      wakers = put ℕ_discrete token (erase Event-discrete event conn) s.wakers;
      woken = s.woken ++ (waker ∷ []);
    }
  ]
]

-- the part of `on_closed` that wakes the tasks
unfoldable pub wake_all : State → ℕ → State
wake_all s token = elim (get ℕ_discrete token s.wakers) [
  | none ↦ s
  | some conn ↦ record s { wakers = erase ℕ_discrete token s.wakers; woken = s.woken ++ tasks conn }
]

unfoldable pub on_closed : State → ℕ → State
unfolding wake_all
on_closed s token =
    let s' = wake_all s token in
    record s' { incoming_streams = erase ℕ_discrete token s'.incoming_streams }

unfoldable pub on_connected : State → ℕ → State
on_connected s token =
    wake (record s { established_conns = insert ℕ_discrete token s.established_conns }) token
      connected

unfoldable pub on_accept : State → ℕ → State
unfolding wake_accept
on_accept s token = wake_accept (record s { incoming_conns = s.incoming_conns ++ (token ∷ []) })

-- the event that a stream of a kind is opened by
abbrev pub open_event : StreamKind → Event
open_event uni = stream_open_uni
open_event bidi = stream_open_bidi

unfoldable pub on_stream_open : State → ℕ → StreamKind → State
on_stream_open s token kind = wake s token (open_event kind)

-- the value of a key, `Default::default()` for a new one
abbrev pub streams_of : ℕ → List (ℕ × List ℕ) → List ℕ
streams_of token m = elim (get ℕ_discrete token m) [ none ↦ [] | some ids ↦ ids ]

unfoldable pub on_stream_accept : State → ℕ → ℕ → State
on_stream_accept s token stream_id =
    let ids = streams_of token s.incoming_streams ++ (stream_id ∷ []) in
    wake (record s { incoming_streams = put ℕ_discrete token ids s.incoming_streams }) token
      stream_accept

unfoldable pub on_stream_send : State → ℕ → ℕ → State
on_stream_send s token stream_id = wake s token (stream_send stream_id)

unfoldable pub on_stream_recv : State → ℕ → ℕ → State
on_stream_recv s token stream_id = wake s token (stream_recv stream_id)

-- the match of `run_once` on an event's kind, `panic` at the `unreachable!`
unfoldable pub dispatch_kind : State → EventKind → ℕ → ℕ → Checked State
unfolding on_closed on_connected on_accept on_stream_open on_stream_accept on_stream_send
    on_stream_recv
dispatch_kind s EventKind.connected token id = value (on_connected s token)
dispatch_kind s EventKind.accept token id = value (on_accept s token)
dispatch_kind s EventKind.closed token id = value (on_closed s token)
dispatch_kind s EventKind.stream_open_bidi token id = value (on_stream_open s token bidi)
dispatch_kind s EventKind.stream_open_uni token id = value (on_stream_open s token uni)
dispatch_kind s EventKind.stream_accept token id = value (on_stream_accept s token id)
dispatch_kind s EventKind.stream_send token id = value (on_stream_send s token id)
dispatch_kind s EventKind.stream_recv token id = value (on_stream_recv s token id)
dispatch_kind s _ token id = panic

abbrev pub dispatch : State → Api.Event → Checked State
dispatch s e = dispatch_kind s e.kind e.token e.stream_id

-- the `for` of `run_once`
unfoldable pub dispatch_all : State → List Api.Event → Checked State
dispatch_all s [] = value s
dispatch_all s (e ∷ es) = dispatch s e >>= λ s'. dispatch_all s' es

-- The traits `QuicPoll`, `QuicClient` and `QuicBind`, which the crate is generic in: the operations
-- that it calls, with the group after them. `Failure` is the trait's `Error`, and `to_io` the bound
-- `std::io::Error: From<Q::Error>`.
pub record QuicBind : Type 1 where
  pub Bound : Type 0
  pub Failure : Type 0
  pub to_io : Failure → ErrorKind
  pub len : Bound → ℕ
  pub poll : Bound → Bound × Result Failure (List Api.Event × Option ℕ)
  pub close : Bound → ℕ → Bool → ℕ → List ℕ → Bound × Result Failure (Unit {0})
  pub stream_open : Bound → ℕ → StreamKind → Bool → Bound × Result Failure (Option ℕ)
  pub stream_shutdown : Bound → ℕ → ℕ → ℕ → Bound × Result Failure (Unit {0})
  pub stream_send : Bound → ℕ → ℕ → List ℕ → Bool → Bound × Result Failure ℕ
  -- with the caller's buffer after the call
  pub stream_recv : Bound → ℕ → ℕ → List ℕ → Bound × List ℕ × Result Failure (ℕ × Bool)
  pub Config : Type 0
  pub connect :
      Bound → Option (List ℕ) → SocketAddr → SocketAddr → Config → Bound × Config × Result Failure ℕ

module _ (b : QuicBind) where
  -- `GroupWorker`
  pub record Worker : Type 0 where
    pub group : b.Bound
    pub state : State

  -- `map_err(|err| Error::from(err))`
  abbrev pub from_failure : {A : Type 0} → Result b.Failure A → IoResult A
  from_failure (ok a) = ok a
  from_failure (err x) = err (b.to_io x)

  -- `run_once`: whether the loop of `run` ends. The poll of the group and the dispatch under the mutex
  -- are one step; the sleep until the next release, which holds the mutex, is left out.
  unfoldable pub run_once : Worker → Checked (Worker × IoResult Bool)
  run_once w =
      let (group, polled) = b.poll w.group in
      elim polled [
        | err x ↦ value (record w { group = group }, err (b.to_io x))
        | ok (events, release) ↦ (do
          state ← dispatch_all w.state events
          value (record { group = group; state = state }, ok ((b.len group == 0) && state.stopped)))
      ]

  -- `run`, for as many rounds as it is followed, with what other threads do before each of them; no
  -- result where it still runs
  unfoldable pub run :
      List (Worker → Worker) → Worker → Checked (Worker × Option (IoResult (Unit {0})))
  unfolding run_once
  run [] w = value (w, none)
  run (others ∷ rounds) w = do
    (w', result) ← run_once (others w)
    elim result [
      | err x ↦ value (w', some (err x))
      | ok true ↦ value (w', some (ok tt))
      | ok false ↦ run rounds w'
    ]
