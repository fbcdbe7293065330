-- ===== src/Group.antt =====
-- crates/poll/src/group.rs: a group of connections. The mutex of the state makes each part of an
-- operation between two calls of `lock` atomic; an operation here runs its parts one after another.
-- Instants are arguments, one for each reading of the clock.
pub mod Driving
pub mod Serving
pub mod Removing
pub mod Validity
pub mod Unlocking
pub mod Guards
pub mod Operating
pub mod Closing
pub mod Registering
pub mod Packets
pub mod Receiving
pub mod Keeping
pub mod Accepting
pub mod Reaching
pub mod Sharing
pub mod Dropping
pub mod Sections
pub mod Calling
pub mod Joining
pub mod Interleaving
pub mod Holding
use native.Mathlib.Decide.{ℕ_discrete}
use rtt.Prelude.{
  ℕ, zero, suc, ◌+◌, ◌%◌, ◌^◌, Bool, true, false, Option, none, some, List, [], ◌∷◌, ◌++◌, ◌==◌,
  if◌then◌else◌, Checked, value, panic, ◌>>=◌, ◌>>◌, assert, length, not,
}
use rtt.Prelude.Collections.{list_discrete, beq}
use rtt.Prelude.Maps.{get, erase, put, is_some}
use rtt.Prelude.Io.{Result, ok, err}
use rtt.Api.{Error, quiche, retry, busy, not_found, StreamKind, Event}
use rtt.Net.{RecvInfo, SendInfo}
use rtt.Quiche.{Quiche}
use rtt.Readiness.{PriorityQueue, Readiness}
use rtt.Readiness
use rtt.Conn.{LocKind, LockContext, Conn, Outcome, try_lock_prv}
use rtt.Conn
use rtt.Conn.Methods
use rtt.Timing.{release_time}

abbrev pub u32_mod : ℕ
u32_mod = 2 ^ 32

-- `DEFAULT_RELEASE_TIMER_THRESHOLD`, in nanoseconds
abbrev pub release_timer_threshold : ℕ
release_timer_threshold = 250000

abbrev pub id_discrete : Discrete (List ℕ)
id_discrete = list_discrete ℕ_discrete

module _ (q : Quiche) (pq : PriorityQueue) where
  -- `State` and `Group`: a connection id is its bytes, an unparker the number of its thread, and
  -- `unparked` has the threads that were woken.
  pub record Group : Type 0 where
    pub token_next : ℕ
    pub conns : List (ℕ × Conn q)
    pub readiness : Readiness pq
    pub unparkers : List (ℕ × ℕ)
    pub scids : List (List ℕ × ℕ)
    pub unparked : List ℕ

  -- `Group::new`
  unfoldable pub new : Group
  new = record {
    token_next = 0;
    conns = [];
    readiness = Readiness.new pq;
    unparkers = [];
    scids = [];
    unparked = [];
  }

  abbrev pub set_conn : Group → ℕ → Conn q → Group
  set_conn g token c = record g { conns = put ℕ_discrete token c g.conns }

  -- The critical section of `deregister` on the state, and the one on the ids after it.
  unfoldable pub remove_conn : Group → ℕ → Group × Outcome q q.Connection
  remove_conn g token = elim (get ℕ_discrete token g.conns) [
    | none ↦ (g, err not_found)
    | some c ↦ (record g { conns = erase ℕ_discrete token g.conns }, ok c.wrapped)
  ]

  unfoldable pub forget_id : Group → List ℕ → ℕ → Checked Group
  forget_id g id token =
      assert (elim (get id_discrete id g.scids) [ none ↦ false | some t ↦ t == token ])
      >> value (record g { scids = erase id_discrete id g.scids })

  -- `deregister`, and its part after the first critical section
  abbrev pub after_removal :
      ℕ → Group × Outcome q q.Connection → Checked (Group × Outcome q q.Connection)
  after_removal token (g, err x) = value (g, err x)
  after_removal token (g, ok conn) = do
    g' ← forget_id g (q.source_id conn) token
    value (g', ok conn)

  unfoldable pub deregister : Group → ℕ → Checked (Group × Outcome q q.Connection)
  deregister g token = after_removal token (remove_conn g token)

  -- the part of `Group::unlock` that wakes the thread parked for a connection
  unfoldable pub unpark : Group → ℕ → Group
  unpark g token = elim (get ℕ_discrete token g.unparkers) [
    | none ↦ g
    | some thread ↦ record g {
      unparkers = erase ℕ_discrete token g.unparkers;
      unparked = g.unparked ++ (thread ∷ []);
    }
  ]

  -- The critical section of `Group::unlock`, and whether the connection is closed.
  unfoldable pub unlock_conn : Group → LockContext → ℕ → Checked (Group × Bool)
  unfolding unpark
  unlock_conn g ctx now =
      let g' = unpark g ctx.token in
      elim (get ℕ_discrete ctx.token g'.conns) [
        | none ↦ panic
        | some c ↦ (do
          (c', r', closed) ←
              Conn.Methods.unlock q pq c ctx.lock_count ctx.send_done now g'.readiness
          value (record (set_conn g' ctx.token c') { readiness = r' }, closed))
      ]

  -- `Group::unlock`
  unfoldable pub unlock : Group → LockContext → ℕ → Checked Group
  unfolding unlock_conn deregister
  unlock g ctx now = do
    (left, closed) ← unlock_conn g ctx now
    (if closed then (do (left', conn) ← deregister left ctx.token; value left') else value left)

  -- the part of `register` for a free token
  unfoldable pub register_at : Group → ℕ → q.Connection → ℕ → Checked (Group × Outcome q ℕ)
  register_at g token wrapped now = do
    let id = q.source_id wrapped
    assert (not (is_some (get id_discrete id g.scids)))
    let g' : Group = record g { scids = put id_discrete id token g.scids }
    (c, lock) ← try_lock_prv q (Conn.new q token wrapped) LocKind.read_lock
    elim lock [
      | err x ↦ value (g', err x)
      | ok guard ↦ (do
        (c', r', closed) ← Conn.Methods.unlock q pq c guard.lock_count false now g'.readiness
        value (record (set_conn g' token c') { readiness = r' }, ok token))
    ]

  -- `register`, its loop on fuel; `panic` where that runs out
  unfoldable pub register_loop : ℕ → Group → q.Connection → ℕ → Checked (Group × Outcome q ℕ)
  register_loop zero g wrapped now = panic
  register_loop (suc fuel) g wrapped now =
      let token = g.token_next in
      let g' : Group = record g { token_next = (g.token_next + 1) % u32_mod } in
      let rest = register_loop fuel g' wrapped now in
      if is_some (get ℕ_discrete token g.conns) then rest else register_at g' token wrapped now

  unfoldable pub register : Group → q.Connection → ℕ → Checked (Group × Outcome q ℕ)
  register g wrapped now = register_loop (suc (length g.conns)) g wrapped now
