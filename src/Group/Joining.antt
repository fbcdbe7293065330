-- ===== src/Group/Joining.antt =====
-- crates/poll/src/group.rs: `register` while guards are held.
use native.Mathlib.Decide.{ℕ_discrete}
use rtt.Prelude.{
  ℕ, zero, suc, ◌+◌, ◌%◌, ◌<◌, ◌≡◌, ◌≢◌, refl, sym, ap, subst, ◌∙◌, inl, inr, Bool, false, none,
  some, List, arith, Option-cases, IfReturns, IfReturns_of, IfReturns_chain, length,
}
use rtt.Prelude.Maps.{get, put, get-put_self, get-put_other}
use rtt.Quiche.{Quiche}
use rtt.Readiness.{PriorityQueue}
use rtt.Conn.{LocKind-discrete, new}
use rtt.Conn.Methods as Methods
use rtt.Conn.Unlocking.{Unlocked, unlock-Unlocked}
use rtt.Group.{u32_mod, Group, id_discrete, register_at, register_loop, register}
use rtt.Group.Registering.{named_Registered, reading, reading_lem, reading-IsLockValid}
use rtt.Group.Sharing.{Guards, Agrees, IsShared, replace-IsShared}

module _ (q : Quiche) (pq : PriorityQueue) where
  register_at-IsShared :
      (g : Group q pq) (wrapped : q.Connection) (token following now : ℕ) (held : Guards)
      → IsShared q pq g held
      → following < u32_mod
      → get ℕ_discrete token g.conns ≡ none
      → IfReturns
          (register_at q pq (record g { token_next = following }) token wrapped now)
          (λ t. IsShared q pq t.0 held)
  unfolding register_at new LocKind-discrete
  register_at-IsShared g wrapped token following now held v small free =
      let id = q.source_id wrapped in
      let c = reading q pq token wrapped in
      let own = get-put_self id_discrete id token g.scids in
      elim (Option-cases (get id_discrete id g.scids)) [
        | inr (other, known) ↦ rw (known, register_at) tt
        | inl fresh ↦
            let new_id : (other : List ℕ) (k : ℕ)
                → get id_discrete other held.ids ≡ some k
                → other ≢ id =
              λ other k h e.
                let there = v.leaving other k h in
                let absent = ap (λ i. get id_discrete i g.scids) e ∙ fresh in
                absurd (ground arith) in
            let named : Group q pq = record g {
              token_next = following;
              scids = put id_discrete id token g.scids;
            } in
            let v' : IsShared q pq named held = record {
              next = small;
              readiness = v.readiness;
              registered = λ t d e. named_Registered q pq id token fresh (v.registered t d e);
              locks = v.locks;
              guards = v.guards;
              leaving = λ other k h.
                  get-put_other id_discrete id other token g.scids (new_id other k h)
                  ∙ v.leaving other k h;
              apart = v.apart;
            } in
            let unheld : get ℕ_discrete token held.locks ≡ none =
              elim (Option-cases (get ℕ_discrete token held.locks)) [
                | inl e ↦ e
                | inr (count, e) ↦ let found = v.guards token count e in absurd (ground arith)
              ] in
            let unlocking = Methods.unlock q pq c 0 false now g.readiness in
            rw (fresh, reading_lem q pq token wrapped)
              (IfReturns_chain {P = Unlocked q pq c} _ unlocking _
                (IfReturns_of _ _ unlocking
                  (unlock-Unlocked q pq c false now g.readiness
                    (reading-IsLockValid q pq token wrapped) (λ e. ground arith) v.readiness)
                  (λ t u. u))
                λ t u.
                  replace-IsShared q pq named token t.0 t.1 held held.locks v'
                    (record {
                      same_token = u.token;
                      lock = u.valid;
                      scid =
                          ap
                            (λ (e : Bool × List ℕ).
                              get id_discrete e.1 (put id_discrete id token g.scids))
                            u.same
                          ∙ own;
                    })
                    (λ other k h e.
                      new_id other k h (sym e ∙ ap (λ (e : Bool × List ℕ). e.1) u.same))
                    u.readiness (λ k other. refl) (subst (Agrees q pq t.0) (sym unheld) u.locker))
      ]

  register_loop-IsShared :
      (fuel : ℕ) (g : Group q pq) (wrapped : q.Connection) (following now : ℕ) (held : Guards)
      → IsShared q pq g held
      → following < u32_mod
      → IfReturns
          (register_loop q pq fuel (record g { token_next = following }) wrapped now)
          (λ t. IsShared q pq t.0 held)
  unfolding register_loop
  register_loop-IsShared zero g wrapped following now held v small = tt
  register_loop-IsShared (suc fuel) g wrapped following now held v small =
      let after = (following + 1) % u32_mod in
      elim (Option-cases (get ℕ_discrete following g.conns)) [
        | inl free ↦
            rw free (register_at-IsShared g wrapped following after now held v (omega arith) free)
        | inr (c, taken) ↦
            rw taken (register_loop-IsShared fuel g wrapped after now held v (omega arith))
      ]

  pub register-IsShared :
      (g : Group q pq) (wrapped : q.Connection) (now : ℕ) (held : Guards)
      → IsShared q pq g held
      → IfReturns (register q pq g wrapped now) (λ t. IsShared q pq t.0 held)
  unfolding register
  register-IsShared g wrapped now held v =
      register_loop-IsShared (suc (length g.conns)) g wrapped g.token_next now held v v.next
