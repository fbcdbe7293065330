-- ===== src/Group/Guards.antt =====
-- crates/poll/src/group.rs: taking a guard and dropping it.
use native.Mathlib.Decide.{ℕ_discrete}
use rtt.Prelude.{
  ℕ, ◌≡◌, refl, sym, ap, ◌∙◌, inl, inr, Bool, false, none, some, List, value, arith, Returns, subst,
}
use rtt.Prelude.Collections.{beq_iff, beq_self}
use rtt.Prelude.Maps.{get, get-put, put_cases}
use rtt.Prelude.Io.{ok, err}
use rtt.Api.{not_found}
use rtt.Quiche.{Quiche, endpoint}
use rtt.Readiness.{PriorityQueue}
use rtt.Conn.{LocKind, unlocked, read_lock, LocKind-discrete, Conn, is_kind}
use rtt.Conn.Serving.{context, try_lock_prv_free, free_Held, Held-IsLockValid}
use rtt.Group.{Group, id_discrete, set_conn, unlock}
use rtt.Group.Driving.{lock, release}
use rtt.Group.Validity.{Registered, IsValid, IsGuarded}
use rtt.Group.Unlocking.{woken, Finished, unlock-Finished}

module _ (q : Quiche) (pq : PriorityQueue) where
  -- a connection as its guard holds it
  abbrev pub locked : Conn q → LocKind → Conn q
  locked c kind = record c { locker = kind }

  pub locked-IsGuarded :
      (g : Group q pq) (token : ℕ) (c : Conn q) (kind : LocKind) (conn : q.Connection)
      (send_done : Bool)
      → IsValid q pq g
      → get ℕ_discrete token g.conns ≡ some c
      → is_kind kind read_lock ≡ false
      → is_kind kind unlocked ≡ false
      → endpoint q conn ≡ endpoint q c.wrapped
      → IsGuarded q pq
          (set_conn q pq
            (set_conn q pq g token (locked c kind))
            token
            (record c { locker = kind; wrapped = conn }))
          (record { token = token; lock_count = c.lock_count; send_done = send_done })
          (record c { locker = kind; wrapped = conn })
  locked-IsGuarded g token c kind conn send_done v here x w same =
      let reg = v.registered token c here in
      let h = free_Held q pq c kind conn reg.lock (v.idle token c here) x w in
      let g1 = set_conn q pq g token (locked c kind) in
      let d : Conn q = record c { locker = kind; wrapped = conn } in
      let new : Registered q pq g.scids token d = record {
        same_token = reg.same_token;
        lock = Held-IsLockValid q pq h;
        scid = ap (λ (e : Bool × List ℕ). get id_discrete e.1 g.scids) same ∙ reg.scid;
      } in
      record {
        next = v.next;
        readiness = v.readiness;
        held = get-put ℕ_discrete token token d g1.conns ∙ rw (beq_self ℕ_discrete token);
        count = refl;
        locked = λ e. ground (arith, beq_iff LocKind-discrete kind unlocked);
        exclusive = λ e. ground (arith, beq_iff LocKind-discrete kind read_lock);
        registered = λ t e k. elim (put_cases ℕ_discrete token t d e g1.conns k) [
          | inl (one, is) ↦ rw (one, is) new
          | inr (other, old) ↦ elim (put_cases ℕ_discrete token t (locked c kind) e g.conns old) [
            | inl (one, is) ↦ absurd (other one)
            | inr (apart, older) ↦ v.registered t e older
          ]
        ];
        idle = λ t e other k. elim (put_cases ℕ_discrete token t d e g1.conns k) [
          | inl (one, is) ↦ absurd (other one)
          | inr (apart, old) ↦ elim (put_cases ℕ_discrete token t (locked c kind) e g.conns old) [
            | inl (one, is) ↦ absurd (other one)
            | inr (away, older) ↦ v.idle t e older
          ]
        ];
      }

  pub lock_lem :
      (g : Group q pq) (token : ℕ) (c : Conn q) (kind : LocKind)
      → IsValid q pq g
      → get ℕ_discrete token g.conns ≡ some c
      → is_kind kind read_lock ≡ false
      → lock q pq g token kind
        ≡ value (set_conn q pq g token (locked c kind), ok (locked c kind, context q pq c))
  unfolding lock
  lock_lem g token c kind v here x =
      rw (here, lock, try_lock_prv_free q pq c kind (v.idle token c here) x)

  pub lock_unknown :
      (g : Group q pq) (token : ℕ) (kind : LocKind)
      → get ℕ_discrete token g.conns ≡ none
      → lock q pq g token kind ≡ value (g, err not_found)
  unfolding lock
  lock_unknown g token kind e = rw (e, lock)

  -- Dropping the guard after the connection was used.
  pub release-Finished :
      (g : Group q pq) (token : ℕ) (c : Conn q) (kind : LocKind) (conn : q.Connection)
      (send_done : Bool) (now : ℕ)
      → IsValid q pq g
      → get ℕ_discrete token g.conns ≡ some c
      → is_kind kind read_lock ≡ false
      → is_kind kind unlocked ≡ false
      → endpoint q conn ≡ endpoint q c.wrapped
      → Returns
          (release q pq
            (set_conn q pq g token (locked c kind))
            (locked c kind)
            conn
            (record { token = c.token; lock_count = c.lock_count; send_done = send_done })
            now)
          (Finished q pq (woken q pq g token) token)
  release-Finished g token c kind conn send_done now v here x w same =
      let reg = v.registered token c here in
      let guarded = locked-IsGuarded g token c kind conn send_done v here x w same in
      let d : Conn q = record c { locker = kind; wrapped = conn } in
      subst
        (λ k.
          Returns
            (unlock q pq (set_conn q pq (set_conn q pq g token (locked c kind)) k d)
              (record { token = k; lock_count = c.lock_count; send_done = send_done }) now)
            (Finished q pq (woken q pq g token) token))
        (sym reg.same_token) (unlock-Finished q pq _ _ d now guarded)
