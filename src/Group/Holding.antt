-- ===== src/Group/Holding.antt =====
-- crates/poll/src/group.rs: whole operations of one thread, while other threads hold guards.
use native.Mathlib.Decide.{ℕ_discrete}
use rtt.Prelude.{
  ℕ, ◌≡◌, refl, ap, subst, ◌∙◌, inl, inr, Bool, false, Option, none, some, List, [], Option-cases,
  Bool-cases, Returns, Returns_bind, IfReturns, IfReturns_of, IfReturns_chain, IfReturns_weaken,
}
use rtt.Prelude.Maps.{get, put, erase, get-put_self}
use rtt.Net.{RecvInfo}
use rtt.Quiche.{Quiche, endpoint}
use rtt.Readiness.{PriorityQueue}
use rtt.Conn.{recv, unlocked, Conn, LockContext}
use rtt.Conn.Serving.{try_lock_prv_free, try_lock_prv_held, context}
use rtt.Conn.Handlers.{keep_retry}
use rtt.Timing.{release_time}
use rtt.Group.{
  Group, id_discrete, set_conn, release_timer_threshold, unlock_conn, unlock, deregister, register,
  forget_id,
}
use rtt.Group.Driving.{
  lock, poll, release, send, send_locked, recv_locked, recv_with_connection_id, is_done_error,
}
use rtt.Group.Removing.{remove_conn_found}
use rtt.Group.Sharing.{Guards, Agrees, IsShared, same-IsShared, remove-IsShared, forget-IsShared}
use rtt.Group.Dropping.{unlock_conn-IsShared}
use rtt.Group.Sections.{guarded_kind, retry-IsShared, free-IsShared, used-IsShared, polled-IsShared}
use rtt.Group.Accepting.{Keeps}
use rtt.Group.Joining.{register-IsShared}

module _ (q : Quiche) (pq : PriorityQueue) where
  -- Some guards fit the group: its connections are registered, and locked exactly where one is held.
  abbrev pub Shared : Group q pq → Type 0
  Shared g = (held : Guards) × IsShared q pq g held

  -- Removing a connection that is registered, under guards of others.
  deregister-Shared :
      (g : Group q pq) (token : ℕ) (c : Conn q) (held : Guards)
      → IsShared q pq g held
      → get ℕ_discrete token g.conns ≡ some c
      → Returns (deregister q pq g token) (λ t. Shared t.0)
  unfolding deregister
  deregister-Shared g token c held v here =
      let id = q.source_id c.wrapped in
      let left : Group q pq = record g { conns = erase ℕ_discrete token g.conns } in
      let gone : Guards = record {
        locks = erase ℕ_discrete token held.locks;
        ids = put id_discrete id token held.ids;
      } in
      rw (remove_conn_found q pq g token c here) (
        Returns_bind _ (forget_id q pq left id token) _
          (forget-IsShared q pq left id token gone (remove-IsShared q pq g token c held v here)
            (get-put_self id_discrete id token held.ids))
          λ t w. (_, w))

  -- Dropping a guard that is held.
  unlock-Shared :
      (g : Group q pq) (ctx : LockContext) (held : Guards) (now : ℕ)
      → IsShared q pq g held
      → get ℕ_discrete ctx.token held.locks ≡ some ctx.lock_count
      → Returns (unlock q pq g ctx now) Shared
  unfolding unlock
  unlock-Shared g ctx held now v mine =
      Returns_bind _ (unlock_conn q pq g ctx now) _
        (unlock_conn-IsShared q pq g ctx held now v mine)
        λ t w. elim (Bool-cases t.1) [
          | inl closed ↦
              let (c, here) = w.1 in
              rw closed (
                Returns_bind {P = λ s. Shared s.0} _ (deregister q pq t.0 ctx.token) _
                  (deregister-Shared t.0 ctx.token c _ w.0 here) λ s x. x)
          | inr kept ↦ rw kept (_, w.0)
        ]

  -- the guard that an operation took, and the connection under it
  release-Shared :
      (g : Group q pq) (held : Guards) (c : Conn q) (conn : q.Connection) (ctx : LockContext)
      (now : ℕ)
      → IsShared q pq g held
      → get ℕ_discrete ctx.token held.locks ≡ some ctx.lock_count
      → get ℕ_discrete ctx.token g.conns ≡ some c
      → endpoint q conn ≡ endpoint q c.wrapped
      → IfReturns (release q pq g c conn ctx now) Shared
  release-Shared g held c conn ctx now v mine here same =
      IfReturns_of _ _ (release q pq g c conn ctx now)
        (unlock-Shared _ ctx held now
          (used-IsShared q pq g held ctx.token ctx.lock_count c conn v mine here same) mine)
        λ t w. w

  -- An operation took a guard, used the connection and drops the guard.
  taken-Shared :
      (g : Group q pq) (token : ℕ) (c : Conn q) (conn : q.Connection) (send_done : Bool) (now : ℕ)
      (held : Guards)
      → IsShared q pq g held
      → get ℕ_discrete token g.conns ≡ some c
      → c.locker ≡ unlocked
      → endpoint q conn ≡ endpoint q c.wrapped
      → IfReturns
          (release q pq
            (set_conn q pq g token (record c { locker = recv }))
            (record c { locker = recv })
            conn
            (record (context q pq c) { send_done = send_done })
            now)
          Shared
  taken-Shared g token c conn send_done now held v e idle alike =
      let same = (v.registered token c e).same_token in
      let d : Conn q = record c { locker = recv } in
      let t : Group q pq = set_conn q pq g token d in
      let mine : Guards = record held { locks = put ℕ_discrete token c.lock_count held.locks } in
      let w : IsShared q pq t mine = free-IsShared q pq g token c recv held refl v e idle in
      let own : get ℕ_discrete c.token mine.locks ≡ some c.lock_count =
        ap (λ k. get ℕ_discrete k mine.locks) same
        ∙ get-put_self ℕ_discrete token c.lock_count held.locks in
      let here : get ℕ_discrete c.token t.conns ≡ some d =
        ap (λ k. get ℕ_discrete k t.conns) same ∙ get-put_self ℕ_discrete token d g.conns in
      release-Shared t mine d conn (record (context q pq c) { send_done = send_done }) now w own
        here alike

  locked-Shared :
      (g : Group q pq) (token : ℕ) (c : Conn q) (buf : List ℕ) (now unlock_now : ℕ) (held : Guards)
      → IsShared q pq g held
      → get ℕ_discrete token g.conns ≡ some c
      → c.locker ≡ unlocked
      → IfReturns
          (send_locked q pq
            (set_conn q pq g token (record c { locker = recv }))
            (record c { locker = recv })
            (context q pq c)
            buf
            now
            unlock_now)
          (λ t. Shared t.0)
  unfolding send_locked
  locked-Shared g token c buf now unlock_now held v e idle =
      let d : Conn q = record c { locker = recv } in
      let t : Group q pq = set_conn q pq g token d in
      elim (Option-cases (release_time q c.wrapped now release_timer_threshold)) [
        | inr (at, due) ↦
            rw (due, send_locked)
              (IfReturns_chain {P = Shared} _
                (release q pq t d c.wrapped (context q pq c) unlock_now) _
                (taken-Shared g token c c.wrapped false unlock_now held v e idle refl) λ s y. y)
        | inl none_due ↦
            let sent = q.send (q.on_timeout c.wrapped) buf in
            let ctx : LockContext = record (context q pq c) {
              send_done = is_done_error q pq sent.2;
            } in
            rw (none_due, send_locked)
              (IfReturns_chain {P = Shared} _ (release q pq t d sent.0 ctx unlock_now) _
                (taken-Shared g token c sent.0 ctx.send_done unlock_now held v e idle
                  (q.send_same (q.on_timeout c.wrapped) buf ∙ q.on_timeout_same c.wrapped))
                λ s y. y)
      ]

  -- `send` keeps it so that some guards fit.
  pub send-Shared :
      (g : Group q pq) (token : ℕ) (buf : List ℕ) (now unlock_now : ℕ)
      → Shared g
      → IfReturns (send q pq g token buf now unlock_now) (λ t. Shared t.0)
  unfolding send lock
  send-Shared g token buf now unlock_now (held, v) =
      let (x, w, n) = guarded_kind recv refl in
      elim (Option-cases (get ℕ_discrete token g.conns)) [
        | inl e ↦ rw (e, send, lock) (held, v)
        | inr (c, e) ↦ elim (Option-cases (get ℕ_discrete token held.locks)) [
          | inl free ↦
              let idle : c.locker ≡ unlocked = subst (Agrees q pq c) free (v.locks token c e) in
              rw (e, send, lock, try_lock_prv_free q pq c recv idle x)
                (locked-Shared g token c buf now unlock_now held v e idle)
          | inr (count, taken) ↦
              let a = subst (Agrees q pq c) taken (v.locks token c e) in
              rw (e, send, lock, try_lock_prv_held q pq c recv a.1 x n)
                (held, retry-IsShared q pq g token c recv held n v e)
        ]
      ]

  received-Shared :
      (g : Group q pq) (token : ℕ) (c : Conn q) (buf : List ℕ) (info : RecvInfo) (now : ℕ)
      (held : Guards)
      → IsShared q pq g held
      → get ℕ_discrete token g.conns ≡ some c
      → c.locker ≡ unlocked
      → IfReturns
          (recv_locked q pq
            (set_conn q pq g token (record c { locker = recv }))
            token
            (record c { locker = recv })
            (context q pq c)
            buf
            info
            now)
          (λ t. Shared t.0)
  received-Shared g token c buf info now held v e idle =
      let d : Conn q = record c { locker = recv } in
      let t : Group q pq = set_conn q pq g token d in
      let conn = (q.recv c.wrapped buf info).0 in
      IfReturns_chain {P = Shared} _ (release q pq t d conn (context q pq c) now) _
        (taken-Shared g token c conn false now held v e idle (q.recv_same c.wrapped buf info))
        λ s y. y

  -- A receiver that finds the connection locked may leave its unparker.
  abbrev left_unparker : Group q pq → ℕ → Conn q → Option ℕ → Group q pq
  left_unparker g token c unparker = elim unparker [
    | none ↦ set_conn q pq g token c
    | some thread ↦ record (set_conn q pq g token c) {
      unparkers = put ℕ_discrete token thread g.unparkers;
    }
  ]

  parked-Shared :
      (g : Group q pq) (token : ℕ) (c : Conn q) (held : Guards) (unparker : Option ℕ)
      → IsShared q pq (set_conn q pq g token c) held
      → Shared (left_unparker g token c unparker)
  parked-Shared g token c held none v = (held, v)
  parked-Shared g token c held (some thread) v = (
    held,
    same-IsShared q pq (set_conn q pq g token c) held g.readiness
        (put ℕ_discrete token thread g.unparkers) g.unparked v v.readiness,
  )

  -- Receiving a packet keeps it so, also where the receiver finds the connection locked.
  pub recv_with_connection_id-Shared :
      (g : Group q pq) (scid buf : List ℕ) (info : RecvInfo) (unparker : Option ℕ) (now : ℕ)
      → Shared g
      → IfReturns (recv_with_connection_id q pq g scid buf info unparker now) (λ t. Shared t.0)
  unfolding recv_with_connection_id
  recv_with_connection_id-Shared g scid buf info unparker now (held, v) =
      let (x, w, n) = guarded_kind recv refl in
      elim (Option-cases (get id_discrete scid g.scids)) [
        | inl unknown ↦ rw (unknown, recv_with_connection_id) (held, v)
        | inr (token, known) ↦ elim (Option-cases (get ℕ_discrete token g.conns)) [
          | inl e ↦ rw (known, recv_with_connection_id, e) (held, v)
          | inr (c, e) ↦ elim (Option-cases (get ℕ_discrete token held.locks)) [
            | inl free ↦
                let idle : c.locker ≡ unlocked = subst (Agrees q pq c) free (v.locks token c e) in
                rw (known, recv_with_connection_id, e, try_lock_prv_free q pq c recv idle x)
                  (received-Shared g token c buf info now held v e idle)
            | inr (count, taken) ↦
                let a = subst (Agrees q pq c) taken (v.locks token c e) in
                rw (known, recv_with_connection_id, e, try_lock_prv_held q pq c recv a.1 x n)
                  (parked-Shared g token (keep_retry q pq c recv) held unparker
                    (retry-IsShared q pq g token c recv held n v e))
          ]
        ]
      ]

  register-Shared :
      (g : Group q pq) (wrapped : q.Connection) (now : ℕ)
      → Shared g
      → IfReturns (register q pq g wrapped now) (λ t. Shared t.0)
  register-Shared g wrapped now (held, v) =
      IfReturns_weaken (λ t. IsShared q pq t.0 held) (λ t. Shared t.0) (register q pq g wrapped now)
        (register-IsShared q pq g wrapped now held v) λ t w. (held, w)

  pub poll-Shared :
      (g : Group q pq) (now : ℕ) → Shared g → IfReturns (poll q pq g [] now) (λ t. Shared t.0)
  poll-Shared g now (held, v) =
      IfReturns_weaken (λ t. IsShared q pq t.0 held) (λ t. Shared t.0) (poll q pq g [] now)
        (polled-IsShared q pq g held now v) λ t w. (held, w)

  pub Shared-Keeps : Keeps q pq Shared
  Shared-Keeps = record {
    registers = register-Shared;
    receives = recv_with_connection_id-Shared;
    sends = send-Shared;
  }
