-- ===== src/Group/Interleaving.antt =====
-- crates/poll/src/group.rs: the critical sections of any threads, in any order: `lock!`, what a thread
-- does with the connection under its guard, the drop of the guard, and the methods that lock and unlock
-- within one critical section.
use native.Mathlib.Decide.{ℕ_discrete}
use rtt.Prelude.{
  ℕ, ◌≡◌, sym, subst, inl, inr, Option-cases, Bool, true, Option, some, List, [], value,
  IfReturns_at, Returns_at,
}
use rtt.Prelude.Maps.{get, put, erase}
use rtt.Prelude.Io.{ok, err}
use rtt.Api.{Error, StreamKind, Event}
use rtt.Quiche.{Quiche, endpoint}
use rtt.Readiness.{PriorityQueue}
use rtt.Conn.{LocKind, Conn, LockContext, Outcome}
use rtt.Group.{Group, set_conn, id_discrete, unlock_conn, remove_conn, forget_id}
use rtt.Group.Driving.{lock, poll, close, stream_open, stream_shutdown}
use rtt.Group.Sharing.{Guards, IsShared, same-IsShared, remove-IsShared, forget-IsShared}
use rtt.Group.{register}
use rtt.Group.Joining.{register-IsShared}
use rtt.Group.Removing.{remove_conn_found, remove_conn_unknown}
use rtt.Group.Dropping.{unlock_conn-IsShared}
use rtt.Group.Sections.{is_guarded, LeftBy, lock-LeftBy, used-IsShared, polled-IsShared}
use rtt.Group.Calling.{close-IsShared, shutdown-IsShared, open-IsShared}

module _ (q : Quiche) (pq : PriorityQueue) where
  -- a step of the group, and of the guards that are held
  pub data Step : Group q pq → Guards → Group q pq → Guards → Type 0 where
    takes :
        {g t : Group q pq} {held : Guards} {c : Conn q} {ctx : LockContext} (token : ℕ)
        (kind : LocKind)
        → is_guarded kind ≡ true
        → lock q pq g token kind ≡ value (t, ok (c, ctx))
        → Step g held t (record held { locks = put ℕ_discrete token ctx.lock_count held.locks })
    refused :
        {g t : Group q pq} {held : Guards} {x : Error q.QError} (token : ℕ) (kind : LocKind)
        → is_guarded kind ≡ true
        → lock q pq g token kind ≡ value (t, err x)
        → Step g held t held
    -- a receiver leaves its unparker
    parks :
        {g : Group q pq} {held : Guards} (token thread : ℕ)
        → Step g held (record g { unparkers = put ℕ_discrete token thread g.unparkers }) held
    -- a method of `quiche` on the connection under a guard
    uses :
        {g : Group q pq} {held : Guards} (token count : ℕ) (c : Conn q) (conn : q.Connection)
        → get ℕ_discrete token held.locks ≡ some count
        → get ℕ_discrete token g.conns ≡ some c
        → endpoint q conn ≡ endpoint q c.wrapped
        → Step g held (set_conn q pq g token (record c { wrapped = conn })) held
    -- the critical section of the drop, of a guard whose connection is registered still
    drops :
        {g t : Group q pq} {held : Guards} {closed : Bool} (ctx : LockContext) (now : ℕ)
        → get ℕ_discrete ctx.token held.locks ≡ some ctx.lock_count
        → unlock_conn q pq g ctx now ≡ value (t, closed)
        → Step g held t (record held { locks = erase ℕ_discrete ctx.token held.locks })
    polls :
        {g t : Group q pq} {held : Guards} {events : List Event} {wait : Option ℕ} (now : ℕ)
        → poll q pq g [] now ≡ value (t, events, wait)
        → Step g held t held
    closes :
        {g t : Group q pq} {held : Guards} {r : Outcome q (Unit {0})} (token : ℕ) (app : Bool)
        (x : ℕ) (reason : List ℕ) (now : ℕ)
        → close q pq g token app x reason now ≡ value (t, r)
        → Step g held t held
    opens :
        {g t : Group q pq} {held : Guards} {r : Outcome q (Option ℕ)} (token : ℕ)
        (kind : StreamKind) (non_blocking : Bool) (now : ℕ)
        → stream_open q pq g token kind non_blocking now ≡ value (t, r)
        → Step g held t held
    shuts :
        {g t : Group q pq} {held : Guards} {r : Outcome q (Unit {0})} (token id x now : ℕ)
        → stream_shutdown q pq g token id x now ≡ value (t, r)
        → Step g held t held
    registers :
        {g t : Group q pq} {held : Guards} {r : Outcome q ℕ} (wrapped : q.Connection) (now : ℕ)
        → register q pq g wrapped now ≡ value (t, r)
        → Step g held t held
    -- the first critical section of `deregister`, of a connection under a guard too
    removes :
        {g t : Group q pq} {held : Guards} {conn : q.Connection} (token : ℕ)
        → remove_conn q pq g token ≡ (t, ok conn)
        → Step g held t (record {
          locks = erase ℕ_discrete token held.locks;
          ids = put id_discrete (q.source_id conn) token held.ids;
        })
    -- and the second
    forgets :
        {g t : Group q pq} {held : Guards} (id : List ℕ) (token : ℕ)
        → get id_discrete id held.ids ≡ some token
        → forget_id q pq g id token ≡ value t
        → Step g held t (record held { ids = erase id_discrete id held.ids })

  pub data Reach (g : Group q pq) (held : Guards) : Group q pq → Guards → Type 0 where
    here : Reach g held g held
    next :
        {t s : Group q pq} {left kept : Guards}
        → Reach g held t left
        → Step t left s kept
        → Reach g held s kept

  -- What the removal of a connection leaves, for what it gave.
  abbrev RemovedBy : Guards → ℕ → Group q pq × Outcome q q.Connection → Type 0
  RemovedBy held token (t, err x) = IsShared q pq t held
  RemovedBy held token (t, ok conn) = IsShared q pq t (record {
    locks = erase ℕ_discrete token held.locks;
    ids = put id_discrete (q.source_id conn) token held.ids;
  })

  remove_conn-RemovedBy :
      (g : Group q pq) (token : ℕ) (held : Guards)
      → IsShared q pq g held
      → RemovedBy held token (remove_conn q pq g token)
  remove_conn-RemovedBy g token held v = elim (Option-cases (get ℕ_discrete token g.conns)) [
    | inl e ↦ subst (RemovedBy held token) (sym (remove_conn_unknown q pq g token e)) v
    | inr (c, e) ↦
        subst (RemovedBy held token) (sym (remove_conn_found q pq g token c e))
          (remove-IsShared q pq g token c held v e)
  ]

  Step-IsShared :
      {g t : Group q pq} {held left : Guards}
      → Step g held t left
      → IsShared q pq g held
      → IsShared q pq t left
  Step-IsShared {g} {t} {held} (takes token kind k h) v =
      IfReturns_at (LeftBy q pq held token) _ (lock-LeftBy q pq g token kind held k v) h
  Step-IsShared {g} {t} {held} (refused token kind k h) v =
      IfReturns_at (LeftBy q pq held token) _ (lock-LeftBy q pq g token kind held k v) h
  Step-IsShared {g} {t} {held} (parks token thread) v =
      same-IsShared q pq g held g.readiness (put ℕ_discrete token thread g.unparkers) g.unparked v
        v.readiness
  Step-IsShared {g} {t} {held} (uses token count c conn mine e same) v =
      used-IsShared q pq g held token count c conn v mine e same
  Step-IsShared {g} {t} {held} (drops ctx now mine h) v =
      (Returns_at _ _ (unlock_conn-IsShared q pq g ctx held now v mine) h).0
  Step-IsShared {g} {t} {held} (polls now h) v =
      IfReturns_at (λ s. IsShared q pq s.0 held) _ (polled-IsShared q pq g held now v) h
  Step-IsShared {g} {t} {held} (closes token app x reason now h) v =
      IfReturns_at (λ s. IsShared q pq s.0 held) _
        (close-IsShared q pq g held token app x reason now v) h
  Step-IsShared {g} {t} {held} (opens token kind non_blocking now h) v =
      IfReturns_at (λ s. IsShared q pq s.0 held) _
        (open-IsShared q pq g held token kind non_blocking now v) h
  Step-IsShared {g} {t} {held} (shuts token id x now h) v =
      IfReturns_at (λ s. IsShared q pq s.0 held) _ (shutdown-IsShared q pq g held token id x now v)
        h
  Step-IsShared {g} {t} {held} (registers wrapped now h) v =
      IfReturns_at (λ s. IsShared q pq s.0 held) _ (register-IsShared q pq g wrapped now held v) h
  Step-IsShared {g} {t} {held} (removes token h) v =
      subst (RemovedBy held token) h (remove_conn-RemovedBy g token held v)
  Step-IsShared {g} {t} {held} (forgets id token mine h) v =
      Returns_at _ _ (forget-IsShared q pq g id token held v mine) h

  pub Reach-IsShared :
      {g : Group q pq} {held : Guards} {t : Group q pq} {left : Guards}
      → Reach g held t left
      → IsShared q pq g held
      → IsShared q pq t left
  Reach-IsShared here v = v
  Reach-IsShared (next r st) v = Step-IsShared st (Reach-IsShared r v)
