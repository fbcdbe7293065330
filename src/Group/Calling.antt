-- ===== src/Group/Calling.antt =====
-- crates/poll/src/group.rs: `close`, `stream_open` and `stream_shutdown` while guards are held.
use native.Mathlib.Decide.{ℕ_discrete}
use rtt.Prelude.{
  ℕ, ◌≡◌, ◌≢◌, refl, sym, ap, subst, ◌∙◌, inl, inr, Bool, true, false, some, List, [], Option-cases,
  Checked, value, Returns, IfReturns, IfReturns_of, IfReturns_chain,
}
use rtt.Prelude.Maps.{get}
use rtt.Prelude.Io.{ok, err}
use rtt.Api.{busy, bidi, StreamKind}
use rtt.Quiche.{Quiche, endpoint}
use rtt.Readiness.{PriorityQueue, Readiness}
use rtt.Conn.{LocKind, unlocked, need_retry, Conn, Outcome}
use rtt.Conn.Handlers.{keep_retry}
use rtt.Conn.Serving.{Released, close_conn-Released, close_stream-Released, methods_busy}
use rtt.Group.{Group, id_discrete}
use rtt.Group.Driving.{with_conn, close, stream_open, stream_shutdown}
use rtt.Conn.Frame.{stream_close_prv_same}
use rtt.Conn.Opening.{open_stream-Released}
use rtt.Conn.StreamIds.{opening_same, opening_token}
use rtt.Group.Sharing.{Guards, Agrees, IsShared, same_apart, replace-IsShared}
use rtt.Group.Sections.{retry-IsShared}

module _ (q : Quiche) (pq : PriorityQueue) where
  -- A method that locks and unlocks within one critical section: under a guard of another thread it
  -- only waits for a retry.
  with_conn-IsShared :
      {A : Type 0} (g : Group q pq) (token : ℕ) (held : Guards)
      (method : Conn q → Checked (Conn q × Readiness pq × Outcome q A))
      (locked_as : Conn q → Conn q) (result : Conn q → Outcome q A)
      → IsShared q pq g held
      → ((c : Conn q)
          → get ℕ_discrete token g.conns ≡ some c
          → c.locker ≡ unlocked
          → Returns (method c) (Released q pq (locked_as c) (result c))
            × ((locked_as c).token ≡ c.token)
            × (endpoint q (locked_as c).wrapped ≡ endpoint q c.wrapped))
      → ((c : Conn q)
          → c.locker ≢ unlocked
          → (kind : LocKind) × (need_retry kind ≡ true)
            × (r : Outcome q A) × (method c ≡ value (keep_retry q pq c kind, g.readiness, r)))
      → IfReturns (with_conn q pq g token method) (λ t. IsShared q pq t.0 held)
  with_conn-IsShared g token held method locked_as result v free busy_method =
      elim (Option-cases (get ℕ_discrete token g.conns)) [
        | inl e ↦ rw (with_conn, e) v
        | inr (c, e) ↦ elim (Option-cases (get ℕ_discrete token held.locks)) [
          | inl none_held ↦
              let idle = subst (Agrees q pq c) none_held (v.locks token c e) in
              let reg = v.registered token c e in
              let does = free c e idle in
              rw (with_conn, e)
                (IfReturns_chain {P = Released q pq (locked_as c) (result c)} _ (method c) _
                  (IfReturns_of _ _ (method c) does.0 (λ t f. f))
                  λ t f.
                    replace-IsShared q pq g token t.0 t.1 held held.locks v
                      (record {
                        same_token = f.token ∙ does.1 ∙ reg.same_token;
                        lock = f.valid;
                        scid =
                            ap (λ (e : Bool × List ℕ). get id_discrete e.1 g.scids)
                              (f.same ∙ does.2)
                            ∙ reg.scid;
                      })
                      (same_apart q pq g held token c t.0.wrapped v e (f.same ∙ does.2)) f.readiness
                      (λ k other. refl) (subst (Agrees q pq t.0) (sym none_held) f.locker))
          | inr (count, taken) ↦
              let a = subst (Agrees q pq c) taken (v.locks token c e) in
              let (kind, n, r, waits) = busy_method c a.1 in
              rw (with_conn, e, waits) (retry-IsShared q pq g token c kind held n v e)
        ]
      ]

  pub close-IsShared :
      (g : Group q pq) (held : Guards) (token : ℕ) (app : Bool) (x : ℕ) (reason : List ℕ) (now : ℕ)
      → IsShared q pq g held
      → IfReturns (close q pq g token app x reason now) (λ t. IsShared q pq t.0 held)
  unfolding close need_retry
  close-IsShared g held token app x reason now v =
      with_conn-IsShared g token held _ _ _ v
        (λ c here idle. (
          close_conn-Released q pq c app x reason now g.readiness (v.registered token c here).lock
              idle v.readiness,
          refl,
          q.close_same c.wrapped app x reason,
        ))
        λ c h. (
          LocKind.close app x reason,
          refl,
          ok tt,
          (methods_busy q pq c bidi app false 0 x now reason g.readiness h).0,
        )

  pub shutdown-IsShared :
      (g : Group q pq) (held : Guards) (token id x now : ℕ)
      → IsShared q pq g held
      → IfReturns (stream_shutdown q pq g token id x now) (λ t. IsShared q pq t.0 held)
  unfolding stream_shutdown need_retry
  shutdown-IsShared g held token id x now v =
      with_conn-IsShared g token held _ _ _ v
        (λ c here idle. (
          close_stream-Released q pq c id x now g.readiness (v.registered token c here).lock idle
              v.readiness,
          refl,
          stream_close_prv_same q c.wrapped id x,
        ))
        λ c h. (
          LocKind.stream_close id x,
          refl,
          ok tt,
          (methods_busy q pq c bidi false false id x now [] g.readiness h).1,
        )

  pub open-IsShared :
      (g : Group q pq) (held : Guards) (token : ℕ) (kind : StreamKind) (non_blocking : Bool)
      (now : ℕ)
      → IsShared q pq g held
      → IfReturns (stream_open q pq g token kind non_blocking now) (λ t. IsShared q pq t.0 held)
  unfolding stream_open need_retry
  open-IsShared g held token kind non_blocking now v =
      with_conn-IsShared g token held _ _ _ v
        (λ c here idle. (
          open_stream-Released q pq c kind non_blocking now g.readiness
              (v.registered token c here).lock idle v.readiness,
          opening_token q pq c kind,
          opening_same q pq c kind,
        ))
        λ c h. (
          LocKind.stream_open kind,
          refl,
          err busy,
          (methods_busy q pq c kind false non_blocking 0 0 now [] g.readiness h).2,
        )
