-- ===== src/Futures/Stepping.antt =====
-- crates/futures/src/lib.rs: the critical sections of the background thread and of any tasks, in any
-- order.
use rtt.Prelude.{ℕ, ◌≡◌, true, List, [], ◌∷◌, IfReturns, IfReturns_bind, IfReturns_eq, value}
use rtt.Api.{EventKind}
use rtt.Api
use rtt.Futures.{Event, State, new, stop, dispatch, dispatch_all}
use rtt.Futures.Tasks.{register, unregister, is_established, accept, accept_conn, QuicStream}
use rtt.Futures.Streams.{wake_stream}
use rtt.Futures.Waiting.{Awake, new-Awake, Dispatched-Awake, dispatched_lem}
use rtt.Futures.Asking.{
  is_operation, stop-Awake, is_established-Awake, accept-Awake, accept_conn-Awake, register-Awake,
  unregister-Awake, wake-Awake,
}

pub data Step : State → State → Type 0 where
  -- the background thread
  dispatches : (s t : State) (e : Api.Event) → dispatch s e ≡ value t → Step s t
  -- `stop`
  stops : (s : State) → Step s (stop s)
  -- polls of `is_established`, `accept` of a connection and `accept` of a listener
  asks : (s : State) (token waker : ℕ) → Step s (is_established s token waker).0
  accepts : (s : State) (token waker : ℕ) → Step s (accept s token waker).0
  accepts_conn : (s : State) (waker : ℕ) → Step s (accept_conn s waker).0
  -- the two critical sections of a poll of `open`, `send` or `recv`
  registers :
      (s : State) (token : ℕ) (event : Event) (waker : ℕ)
      → is_operation event ≡ true
      → Step s (register s token event waker)
  unregisters :
      (s t : State) (token : ℕ) (event : Event) → unregister s token event ≡ value t → Step s t
  -- `shutdown` of a stream
  shuts : (s : State) (stream : QuicStream) → Step s (wake_stream s stream)

pub data Reach (s : State) : State → Type 0 where
  here : Reach s s
  next : {t u : State} → Reach s t → Step t u → Reach s u

Step-Awake : {s t : State} → Step s t → Awake s → Awake t
unfolding wake_stream
Step-Awake (dispatches s t e h) a =
    Dispatched-Awake s e.kind e.token e.stream_id a (dispatched_lem s t e h)
Step-Awake (stops s) a = stop-Awake s a
Step-Awake (asks s token waker) a = is_established-Awake s token waker a
Step-Awake (accepts s token waker) a = accept-Awake s token waker a
Step-Awake (accepts_conn s waker) a = accept_conn-Awake s waker a
Step-Awake (registers s token event waker op) a = register-Awake s token event waker op a
Step-Awake (unregisters s t token event h) a = unregister-Awake s t token event h a
Step-Awake (shuts s stream) a = wake-Awake _ _ _ (wake-Awake _ _ _ a)

-- However the critical sections of the background thread and of any tasks follow one another from
-- a new state, no task waits for what is there: none for a connection to accept while one is
-- queued, none for a stream to accept of a connection while one is queued for it, and none for a
-- connection to be established that is known to be; and the group is never marked as stopped.
pub Reach-Awake : {s : State} → Reach new s → Awake s
Reach-Awake here = new-Awake
Reach-Awake (next r st) = Step-Awake st (Reach-Awake r)

-- Dispatching a list of events takes steps of the relation.
pub dispatch_all-Reach :
    (s u : State) (es : List Api.Event) → Reach u s → IfReturns (dispatch_all s es) (Reach u)
unfolding dispatch_all
dispatch_all-Reach s u [] r = r
dispatch_all-Reach s u (e ∷ es) r =
    IfReturns_bind (Reach u) (dispatch s e) _
      (IfReturns_eq _ (dispatch s e) λ t h. dispatch_all-Reach t u es (next r (dispatches s t e h)))
