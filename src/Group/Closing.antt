-- ===== src/Group/Closing.antt =====
-- crates/poll/src/group.rs: `close`, `stream_open` and `stream_shutdown` leave the group valid, and a
-- guard that outlives its connection panics.
use native.Mathlib.Decide.{ℕ_discrete}
use rtt.Prelude.{
  ℕ, ◌≡◌, refl, ap, ◌∙◌, inl, inr, Bool, none, some, List, Checked, panic, Option-cases, Returns,
  Returns_bind,
}
use rtt.Prelude.Maps.{get}
use rtt.Prelude.Io.{ok, err}
use rtt.Api.{not_found, quiche, StreamKind}
use rtt.Quiche.{Quiche, endpoint}
use rtt.Readiness.{PriorityQueue, Readiness}
use rtt.Conn.{Conn, LockContext, Outcome, stream_close_prv, failure}
use rtt.Conn.Opening.{answer, open_stream-Released}
use rtt.Conn.StreamIds.{opening_same, opening_token}
use rtt.Conn.Frame.{stream_close_prv_same}
use rtt.Conn.Serving.{Released, close_conn-Released, close_stream-Released}
use rtt.Group.{Group, id_discrete, unlock, unlock_conn, unpark, deregister}
use rtt.Group.Removing.{deregister_found}
use rtt.Group.Driving.{with_conn, close, stream_open, stream_shutdown}
use rtt.Group.Validity.{IsValid, IsGuarded, set_conn-IsValid, erased}

module _ (q : Quiche) (pq : PriorityQueue) where
  -- What a method of the connection of a token does: on an unknown token nothing, else the group stays
  -- valid and the result is the one that the connection before it decides.
  abbrev pub Served :
      {A : Type 0} → Group q pq → ℕ → (Conn q → Outcome q A) → Group q pq × Outcome q A → Type 0
  Served g token result t = elim (get ℕ_discrete token g.conns) [
    | none ↦ (t.0 ≡ g) × (t.1 ≡ err not_found)
    | some c ↦ IsValid q pq t.0 × (t.1 ≡ result c)
  ]

  with_conn-Served :
      {A : Type 0} (g : Group q pq) (token : ℕ)
      (method : Conn q → Checked (Conn q × Readiness pq × Outcome q A))
      (locked_as : Conn q → Conn q) (result : Conn q → Outcome q A)
      → IsValid q pq g
      → ((c : Conn q)
          → get ℕ_discrete token g.conns ≡ some c
          → Returns (method c) (Released q pq (locked_as c) (result c))
            × ((locked_as c).token ≡ c.token)
            × (endpoint q (locked_as c).wrapped ≡ endpoint q c.wrapped))
      → Returns (with_conn q pq g token method) (Served g token result)
  with_conn-Served g token method locked_as result v h =
      elim (Option-cases (get ℕ_discrete token g.conns)) [
        | inl e ↦ rw (with_conn, Served, e) (refl, refl)
        | inr (c, e) ↦
            let reg = v.registered token c e in
            let does = h c e in
            rw (with_conn, Served, e)
              (Returns_bind {P = Released q pq (locked_as c) (result c)} _ (method c) _ does.0
                λ t f. (
                  set_conn-IsValid q pq g token t.0 t.1 v
                      (record {
                        same_token = f.token ∙ does.1 ∙ reg.same_token;
                        lock = f.valid;
                        scid =
                            ap (λ (e : Bool × List ℕ). get id_discrete e.1 g.scids)
                              (f.same ∙ does.2)
                            ∙ reg.scid;
                      })
                      f.locker f.readiness,
                  f.returned,
                ))
      ]

  abbrev pub closed : Bool → ℕ → List ℕ → Conn q → Outcome q (Unit {0})
  closed app e reason c = elim (failure q (q.close c.wrapped app e reason).1) [
    | none ↦ ok tt
    | some x ↦ err (quiche x)
  ]

  -- Closing a connection of a valid group never panics: for an unknown token the group stays as
  -- it is and the error is NotFound, for a registered one the group stays valid and the result is
  -- an error exactly if `quiche` fails with one that is not `Done`.
  pub close-Served :
      (g : Group q pq) (token : ℕ) (app : Bool) (e : ℕ) (reason : List ℕ) (now : ℕ)
      → IsValid q pq g
      → Returns (close q pq g token app e reason now) (Served g token (closed app e reason))
  unfolding close
  close-Served g token app e reason now v = with_conn-Served g token _ _ _ v λ c here. (
    close_conn-Released q pq c app e reason now g.readiness (v.registered token c here).lock
        (v.idle token c here) v.readiness,
    refl,
    q.close_same c.wrapped app e reason,
  )

  -- Shutting a stream down in a valid group never panics: for an unknown token the group stays as
  -- it is and the error is NotFound, for a registered one the group stays valid and the result is
  -- that of `stream_close_prv`.
  pub stream_shutdown-Served :
      (g : Group q pq) (token id e now : ℕ)
      → IsValid q pq g
      → Returns
          (stream_shutdown q pq g token id e now)
          (Served g token λ c. (stream_close_prv q c.wrapped id e).1)
  unfolding stream_shutdown
  stream_shutdown-Served g token id e now v = with_conn-Served g token _ _ _ v λ c here. (
    close_stream-Released q pq c id e now g.readiness (v.registered token c here).lock
        (v.idle token c here) v.readiness,
    refl,
    stream_close_prv_same q c.wrapped id e,
  )

  -- Opening a stream in a valid group never panics: for an unknown token the group stays as it is
  -- and the error is NotFound, for a registered one the group stays valid and the result is the
  -- next id of the connection, the error of `quiche`, or, if the peer takes no more streams,
  -- nothing or a retry.
  pub stream_open-Served :
      (g : Group q pq) (token : ℕ) (kind : StreamKind) (non_blocking : Bool) (now : ℕ)
      → IsValid q pq g
      → Returns
          (stream_open q pq g token kind non_blocking now)
          (Served g token λ c. answer q pq c kind non_blocking)
  unfolding stream_open
  stream_open-Served g token kind non_blocking now v = with_conn-Served g token _ _ _ v λ c here. (
    open_stream-Released q pq c kind non_blocking now g.readiness (v.registered token c here).lock
        (v.idle token c here) v.readiness,
    opening_token q pq c kind,
    opening_same q pq c kind,
  )

  unlock_unregistered :
      (g : Group q pq) (ctx : LockContext) (now : ℕ)
      → get ℕ_discrete ctx.token g.conns ≡ none
      → unlock q pq g ctx now ≡ panic
  unfolding unlock unlock_conn unpark
  unlock_unregistered g ctx now e = elim (Option-cases (get ℕ_discrete ctx.token g.unparkers)) [
    | inl u ↦ rw (unlock, unlock_conn, u, unpark, e)
    | inr (thread, u) ↦ rw (unlock, unlock_conn, u, unpark, e)
  ]

  -- While a guard holds a connection, the connection can be deregistered, and that succeeds;
  -- dropping the guard panics then.
  pub deregister_guarded :
      (g : Group q pq) (ctx : LockContext) (c : Conn q) (now : ℕ)
      → IsGuarded q pq g ctx c
      → Returns
          (deregister q pq g ctx.token)
          λ t. (t.1 ≡ ok c.wrapped) × (unlock q pq t.0 ctx now ≡ panic)
  deregister_guarded g ctx c now v =
      let reg = v.registered ctx.token c v.held in
      rw (deregister_found q pq g ctx.token c v.held reg.scid)
        (refl, unlock_unregistered _ ctx now (erased q pq ℕ_discrete ctx.token g.conns))
