-- ===== src/Group/Removing.antt =====
-- crates/poll/src/group.rs: the two critical sections of `deregister`.
use native.Mathlib.Decide.{ℕ_discrete}
use rtt.Prelude.{ℕ, ◌≡◌, ap, ◌∙◌, none, some, List, Checked, value, ◌>>=◌, ==_refl}
use rtt.Prelude.Maps.{get, erase}
use rtt.Prelude.Io.{ok, err}
use rtt.Api.{not_found}
use rtt.Quiche.{Quiche}
use rtt.Readiness.{PriorityQueue}
use rtt.Conn.{Conn}
use rtt.Group.{Group, id_discrete, remove_conn, forget_id, after_removal, deregister}

module _ (q : Quiche) (pq : PriorityQueue) where
  pub remove_conn_found :
      (g : Group q pq) (token : ℕ) (c : Conn q)
      → get ℕ_discrete token g.conns ≡ some c
      → remove_conn q pq g token
        ≡ (record g { conns = erase ℕ_discrete token g.conns }, ok c.wrapped)
  unfolding remove_conn
  remove_conn_found g token c e = rw (e, remove_conn)

  pub remove_conn_unknown :
      (g : Group q pq) (token : ℕ)
      → get ℕ_discrete token g.conns ≡ none
      → remove_conn q pq g token ≡ (g, err not_found)
  unfolding remove_conn
  remove_conn_unknown g token e = rw (e, remove_conn)

  pub forget_id_found :
      (g : Group q pq) (id : List ℕ) (token : ℕ)
      → get id_discrete id g.scids ≡ some token
      → forget_id q pq g id token ≡ value (record g { scids = erase id_discrete id g.scids })
  unfolding forget_id
  forget_id_found g id token e = rw (e, forget_id, ==_refl token)

  pub deregister_found :
      (g : Group q pq) (token : ℕ) (c : Conn q)
      → get ℕ_discrete token g.conns ≡ some c
      → get id_discrete (q.source_id c.wrapped) g.scids ≡ some token
      → deregister q pq g token
        ≡ value (
          record g {
            conns = erase ℕ_discrete token g.conns;
            scids = erase id_discrete (q.source_id c.wrapped) g.scids;
          },
          ok c.wrapped,
        )
  unfolding deregister
  deregister_found g token c e named =
      let left : Group q pq = record g { conns = erase ℕ_discrete token g.conns } in
      ap (after_removal q pq token) (remove_conn_found g token c e)
      ∙ ap (λ (m : Checked (Group q pq)). m >>= (λ t. value (t, ok c.wrapped)))
          (forget_id_found left (q.source_id c.wrapped) token named)

  pub deregister_unknown :
      (g : Group q pq) (token : ℕ)
      → get ℕ_discrete token g.conns ≡ none
      → deregister q pq g token ≡ value (g, err not_found)
  unfolding deregister
  deregister_unknown g token e = ap (after_removal q pq token) (remove_conn_unknown g token e)
