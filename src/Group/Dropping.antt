-- ===== src/Group/Dropping.antt =====
-- crates/poll/src/group.rs: the critical section in which a guard is dropped, while other guards are
-- held.
use native.Mathlib.Decide.{ℕ_discrete}
use rtt.Prelude.{
  ℕ, ◌≡◌, sym, ap, subst, ◌∙◌, inl, inr, Bool, false, some, List, [], ◌∷◌, ◌++◌, arith,
  Option-cases, Bool-cases, Returns, Returns_bind,
}
use rtt.Prelude.Collections.{beq_iff}
use rtt.Prelude.Maps.{get, erase, get-erase_self, get-erase_other, get-put_self}
use rtt.Quiche.{Quiche}
use rtt.Readiness.{PriorityQueue}
use rtt.Conn.{read_lock, LocKind-discrete, Conn, LockContext, is_kind}
use rtt.Conn.Methods
use rtt.Conn.Unlocking.{stays, Unlocked, unlock-Unlocked}
use rtt.Group.{Group, id_discrete, unpark, unlock_conn}
use rtt.Group.Sharing.{Guards, Agrees, IsShared, same-IsShared, same_apart, replace-IsShared}

module _ (q : Quiche) (pq : PriorityQueue) where
  unpark-IsShared :
      (g : Group q pq) (token : ℕ) (held : Guards)
      → IsShared q pq g held
      → IsShared q pq (unpark q pq g token) held
  unfolding unpark
  unpark-IsShared g token held v = elim (Option-cases (get ℕ_discrete token g.unparkers)) [
    | inl e ↦ rw (e, unpark) v
    | inr (thread, e) ↦
        rw (e, unpark)
          (same-IsShared q pq g held g.readiness (erase ℕ_discrete token g.unparkers)
            (g.unparked ++ (thread ∷ [])) v v.readiness)
  ]

  -- The critical section of dropping a guard that is held never panics, and the others stay as they
  -- are.
  pub unlock_conn-IsShared :
      (g : Group q pq) (ctx : LockContext) (held : Guards) (now : ℕ)
      → IsShared q pq g held
      → get ℕ_discrete ctx.token held.locks ≡ some ctx.lock_count
      → Returns (unlock_conn q pq g ctx now) (λ t.
        IsShared q pq t.0 (record held { locks = erase ℕ_discrete ctx.token held.locks })
        × ((c : Conn q) × (get ℕ_discrete ctx.token t.0.conns ≡ some c)))
  unfolding unlock_conn
  unlock_conn-IsShared g ctx held now v mine =
      let token = ctx.token in
      let g' = unpark q pq g token in
      let v' = unpark-IsShared g token held v in
      let gone = get-erase_self ℕ_discrete token held.locks in
      elim (Option-cases (get ℕ_discrete token g'.conns)) [
        | inl e ↦ let found = v'.guards token ctx.lock_count mine in absurd (ground arith)
        | inr (c, e) ↦
            let reg = v'.registered token c e in
            let (count, locked, exclusive) = subst (Agrees q pq c) mine (v'.locks token c e) in
            let x : stays q pq c ≡ false = elim (Bool-cases (is_kind c.locker read_lock)) [
              | inl r ↦ absurd (exclusive ((beq_iff LocKind-discrete c.locker read_lock).0 r))
              | inr w ↦ rw w
            ] in
            rw (e, unlock_conn)
              (Returns_bind {P = Unlocked q pq c} _
                (Methods.unlock q pq c ctx.lock_count ctx.send_done now g'.readiness) _
                (rw⁻¹ count (
                  unlock-Unlocked q pq c ctx.send_done now g'.readiness reg.lock locked
                    v'.readiness))
                λ t u. (
                  replace-IsShared q pq g' token t.0 t.1 held (erase ℕ_discrete token held.locks) v'
                      (record {
                        same_token = u.token ∙ reg.same_token;
                        lock = u.valid;
                        scid =
                            ap (λ (e : Bool × List ℕ). get id_discrete e.1 g'.scids) u.same
                            ∙ reg.scid;
                      })
                      (same_apart q pq g' held token c t.0.wrapped v' e u.same) u.readiness
                      (λ k other. get-erase_other ℕ_discrete token k held.locks other)
                      (subst (Agrees q pq t.0) (sym gone) (u.locker ∙ rw x)),
                  (t.0, get-put_self ℕ_discrete token t.0 g'.conns),
                ))
      ]
