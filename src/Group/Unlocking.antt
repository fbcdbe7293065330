-- ===== src/Group/Unlocking.antt =====
-- crates/poll/src/group.rs: `Group::unlock`, which a guard calls when it is dropped.
use native.Mathlib.Decide.{ℕ_discrete}
use rtt.Prelude.{
  Option, sym, subst, ℕ, ◌≡◌, refl, ap, ◌∙◌, inl, inr, Bool, true, false, none, some, List, [], ◌∷◌,
  ◌++◌, if◌then◌else◌, value, Bool-cases, Option-cases, Returns, Returns_bind, ◌>>=◌,
}
use rtt.Prelude.Collections.{beq_iff}
use rtt.Prelude.Maps.{get, get-put_self, put_cases}
use rtt.Prelude.Io.{ok}
use rtt.Quiche.{Quiche}
use rtt.Readiness.{PriorityQueue, Readiness}
use rtt.Readiness.View
use rtt.Conn.{unlocked, read_lock, LocKind-discrete, Conn, LockContext, is_kind}
use rtt.Conn.Methods as Methods
use rtt.Conn.Unlocking.{stays, Unlocked, unlock-Unlocked}
use rtt.Group.{Group, id_discrete, set_conn, deregister, unpark, unlock, unlock_conn}
use rtt.Group.Validity.{Registered, IsValid, IsGuarded, deregister-IsValid, erased}

module _ (q : Quiche) (pq : PriorityQueue) where
  -- the threads unparked once a connection's guard is gone
  abbrev pub woken : Group q pq → ℕ → List ℕ
  woken g token = elim (get ℕ_discrete token g.unparkers) [
    | none ↦ g.unparked
    | some thread ↦ g.unparked ++ (thread ∷ [])
  ]

  -- A connection that may be there is not closed.
  abbrev pub IsLive : Option (Conn q) → Type 0
  IsLive none = Unit {0}
  IsLive (some c) = q.is_closed c.wrapped ≡ false

  -- The group is valid, these are the threads woken so far, none waits for the connection, and the
  -- connection is deregistered if it is closed.
  pub record Finished (threads : List ℕ) (token : ℕ) (t : Group q pq) : Type 0 where
    pub valid : IsValid q pq t
    pub woke : t.unparked ≡ threads
    pub waits : get ℕ_discrete token t.unparkers ≡ none
    pub live : IsLive (get ℕ_discrete token t.conns)

  unpark-IsGuarded :
      (g : Group q pq) (ctx : LockContext) (c : Conn q) (token : ℕ)
      → IsGuarded q pq g ctx c
      → IsGuarded q pq (unpark q pq g token) ctx c
  unfolding unpark
  unpark-IsGuarded g ctx c token v = elim (Option-cases (get ℕ_discrete token g.unparkers)) [
    | inl e ↦ rw (e, unpark) v
    | inr (thread, e) ↦
        rw (e, unpark)
          (record {
            next = v.next;
            readiness = v.readiness;
            held = v.held;
            count = v.count;
            locked = v.locked;
            exclusive = v.exclusive;
            registered = v.registered;
            idle = v.idle;
          })
  ]

  unpark_lem :
      (g : Group q pq) (token : ℕ)
      → ((unpark q pq g token).unparked ≡ woken g token)
        × (get ℕ_discrete token (unpark q pq g token).unparkers ≡ none)
  unfolding unpark
  unpark_lem g token = elim (Option-cases (get ℕ_discrete token g.unparkers)) [
    | inl e ↦ rw (e, unpark, woken) (refl, e)
    | inr (thread, e) ↦ rw (e, unpark, woken) (refl, erased q pq ℕ_discrete token g.unparkers)
  ]

  -- The connection that was locked is put back unlocked.
  unguarded-IsValid :
      (g : Group q pq) (ctx : LockContext) (c d : Conn q) (r : Readiness pq)
      → IsGuarded q pq g ctx c
      → Registered q pq g.scids ctx.token d
      → d.locker ≡ unlocked
      → View.IsValid pq r
      → IsValid q pq (record (set_conn q pq g ctx.token d) { readiness = r })
  unguarded-IsValid g ctx c d r v new free ready = record {
    next = v.next;
    readiness = ready;
    registered = λ t e h. elim (put_cases ℕ_discrete ctx.token t d e g.conns h) [
      | inl (same, is) ↦ rw (same, is) new
      | inr (other, old) ↦ v.registered t e old
    ];
    idle = λ t e h. elim (put_cases ℕ_discrete ctx.token t d e g.conns h) [
      | inl (same, is) ↦ rw is free
      | inr (other, old) ↦ v.idle t e other old
    ];
  }

  -- The last part of `unlock`: a closed connection is deregistered.
  settle :
      (g left : Group q pq) (token : ℕ) (d : Conn q) (closed : Bool)
      → IsValid q pq left
      → get ℕ_discrete token left.conns ≡ some d
      → left.unparked ≡ woken g token
      → get ℕ_discrete token left.unparkers ≡ none
      → closed ≡ q.is_closed d.wrapped
      → Returns
          (if closed
            then (do (left', conn) ← deregister q pq left token; value left')
            else value left)
          (Finished (woken g token) token)
  settle g left token d true v here woke waits over =
      Returns_bind
        {P = λ t.
          (t.1 ≡ ok d.wrapped)
          × IsValid q pq t.0
          × (get ℕ_discrete token t.0.conns ≡ none)
          × (get id_discrete (q.source_id d.wrapped) t.0.scids ≡ none)
          × (t.0.unparked ≡ left.unparked)
          × (t.0.unparkers ≡ left.unparkers)}
        _ (deregister q pq left token) _ (deregister-IsValid q pq left token d v here)
        λ t h. record {
          valid = h.1;
          woke = h.4 ∙ woke;
          waits = ap (get ℕ_discrete token) h.5 ∙ waits;
          live = subst IsLive (sym h.2) tt;
        }
  settle g left token d false v here woke waits over = record {
    valid = v;
    woke = woke;
    waits = waits;
    live = subst IsLive (sym here) (sym over);
  }

  -- What the critical section of `unlock` leaves: a valid group with the connection in it, which the
  -- flag says whether it is closed, and nobody waiting for it.
  pub record Left (threads : List ℕ) (token : ℕ) (t : Group q pq × Bool) : Type 0 where
    pub conn : Conn q
    pub valid : IsValid q pq t.0
    pub found : get ℕ_discrete token t.0.conns ≡ some conn
    pub woke : t.0.unparked ≡ threads
    pub waits : get ℕ_discrete token t.0.unparkers ≡ none
    pub closed : t.1 ≡ q.is_closed conn.wrapped

  pub unlock_conn-Left :
      (g : Group q pq) (ctx : LockContext) (c : Conn q) (now : ℕ)
      → IsGuarded q pq g ctx c
      → Returns (unlock_conn q pq g ctx now) (Left (woken g ctx.token) ctx.token)
  unfolding unlock_conn
  unlock_conn-Left g ctx c now v =
      let g' = unpark q pq g ctx.token in
      let v' = unpark-IsGuarded g ctx c ctx.token v in
      let parked = unpark_lem g ctx.token in
      let reg = v'.registered ctx.token c v'.held in
      let x : stays q pq c ≡ false = elim (Bool-cases (is_kind c.locker read_lock)) [
        | inl r ↦ absurd (v'.exclusive ((beq_iff LocKind-discrete c.locker read_lock).0 r))
        | inr w ↦ rw w
      ] in
      rw (v'.held, unlock_conn)
        (Returns_bind {P = Unlocked q pq c} _
          (Methods.unlock q pq c ctx.lock_count ctx.send_done now g'.readiness) _
          (rw⁻¹ v'.count
            (unlock-Unlocked q pq c ctx.send_done now g'.readiness reg.lock v'.locked v'.readiness))
          λ t u. record {
            conn = t.0;
            valid =
                unguarded-IsValid g' ctx c t.0 t.1 v'
                  (record {
                    same_token = u.token ∙ reg.same_token;
                    lock = u.valid;
                    scid =
                        ap (λ (e : Bool × List ℕ). get id_discrete e.1 g'.scids) u.same ∙ reg.scid;
                  })
                  (u.locker ∙ rw x) u.readiness;
            found = get-put_self ℕ_discrete ctx.token t.0 g'.conns;
            woke = parked.0;
            waits = parked.1;
            closed = u.closed;
          })

  -- Dropping a guard, in a group where the guard holds its connection exclusively and every other
  -- is idle, never panics: the group is valid again, the connection is deregistered if it is
  -- closed, and the thread parked for the connection, if any, was unparked and waits no longer.
  pub unlock-Finished :
      (g : Group q pq) (ctx : LockContext) (c : Conn q) (now : ℕ)
      → IsGuarded q pq g ctx c
      → Returns (unlock q pq g ctx now) (Finished (woken g ctx.token) ctx.token)
  unfolding unlock
  unlock-Finished g ctx c now v =
      Returns_bind {P = Left (woken g ctx.token) ctx.token} _ (unlock_conn q pq g ctx now) _
        (unlock_conn-Left g ctx c now v)
        λ t l. settle g t.0 ctx.token l.conn t.1 l.valid l.found l.woke l.waits l.closed
