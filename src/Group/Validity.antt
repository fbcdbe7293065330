-- ===== src/Group/Validity.antt =====
-- crates/poll/src/group.rs: what holds of a group between its operations, and of one whose
-- connection a guard holds.
use native.Mathlib.Decide.{ℕ_discrete}
use rtt.Prelude.{
  ℕ, ◌<◌, ◌≡◌, ◌≢◌, refl, ap, ◌∙◌, inl, inr, false, none, some, List, arith, Bool-cases, Returns,
}
use rtt.Prelude.Collections.{beq, beq_iff, beq_self}
use rtt.Prelude.Maps.{get, erase, get-erase, put_cases, erase_found}
use rtt.Prelude.Io.{ok}
use rtt.Quiche.{Quiche}
use rtt.Readiness.{PriorityQueue, Readiness}
use rtt.Readiness.View
use rtt.Conn.{unlocked, read_lock, Conn, LockContext}
use rtt.Conn.Locking.{IsLockValid}
use rtt.Group.{u32_mod, Group, new, id_discrete, set_conn, deregister}
use rtt.Group.Removing.{deregister_found}

module _ (q : Quiche) (pq : PriorityQueue) where
  -- A registered connection: it carries its token, and its id leads to it.
  pub record Registered (scids : List (List ℕ × ℕ)) (token : ℕ) (c : Conn q) : Type 0 where
    pub same_token : c.token ≡ token
    pub lock : IsLockValid q c
    pub scid : get id_discrete (q.source_id c.wrapped) scids ≡ some token

  -- Between operations: every connection is registered and unlocked.
  pub record IsValid (g : Group q pq) : Type 0 where
    pub next : g.token_next < u32_mod
    pub readiness : View.IsValid pq g.readiness
    pub registered :
        (token : ℕ) (c : Conn q)
        → get ℕ_discrete token g.conns ≡ some c
        → Registered g.scids token c
    pub idle :
        (token : ℕ) (c : Conn q) → get ℕ_discrete token g.conns ≡ some c → c.locker ≡ unlocked

  pub new-IsValid : IsValid (new q pq)
  unfolding new get
  new-IsValid = record {
    next = omega arith;
    readiness = View.new-IsValid pq;
    registered = λ token c e. cc;
    idle = λ token c e. cc;
  }

  -- While a guard for `token` is held.
  pub record IsGuarded (g : Group q pq) (ctx : LockContext) (c : Conn q) : Type 0 where
    pub next : g.token_next < u32_mod
    pub readiness : View.IsValid pq g.readiness
    pub held : get ℕ_discrete ctx.token g.conns ≡ some c
    pub count : c.lock_count ≡ ctx.lock_count
    pub locked : c.locker ≢ unlocked
    pub exclusive : c.locker ≢ read_lock
    pub registered :
        (token : ℕ) (d : Conn q)
        → get ℕ_discrete token g.conns ≡ some d
        → Registered g.scids token d
    pub idle :
        (token : ℕ) (d : Conn q)
        → token ≢ ctx.token
        → get ℕ_discrete token g.conns ≡ some d
        → d.locker ≡ unlocked

  -- A registered connection is replaced.
  pub set_conn-IsValid :
      (g : Group q pq) (token : ℕ) (c : Conn q) (r : Readiness pq)
      → IsValid g
      → Registered g.scids token c
      → c.locker ≡ unlocked
      → View.IsValid pq r
      → IsValid (record (set_conn q pq g token c) { readiness = r })
  set_conn-IsValid g token c r v new free ready = record {
    next = v.next;
    readiness = ready;
    registered = λ t d e. elim (put_cases ℕ_discrete token t c d g.conns e) [
      | inl (same, is) ↦ rw (same, is) new
      | inr (other, old) ↦ v.registered t d old
    ];
    idle = λ t d e. elim (put_cases ℕ_discrete token t c d g.conns e) [
      | inl (same, is) ↦ rw is free
      | inr (other, old) ↦ v.idle t d old
    ];
  }

  pub erased :
      {K A : Type 0} (dec : Discrete K) (k : K) (m : List (K × A))
      → get dec k (erase dec k m) ≡ none
  erased dec k m = get-erase dec k k m ∙ rw (beq_self dec k)

  -- What is registered for another token stays registered without this one.
  pub kept_Registered :
      {scids : List (List ℕ × ℕ)} (id : List ℕ) {token t : ℕ} {d : Conn q}
      → get id_discrete id scids ≡ some token
      → t ≢ token
      → Registered scids t d
      → Registered (erase id_discrete id scids) t d
  kept_Registered {scids} id {token} {t} {d} h other reg =
      let found = reg.scid in
      let apart : beq id_discrete id (q.source_id d.wrapped) ≡ false =
        elim (Bool-cases (beq id_discrete id (q.source_id d.wrapped))) [
          | inl same ↦
              let one =
                ap (λ k. get id_discrete k scids)
                  ((beq_iff id_discrete id (q.source_id d.wrapped)).0 same) in
              absurd (ground arith)
          | inr differ ↦ differ
        ] in
      record {
        same_token = reg.same_token;
        lock = reg.lock;
        scid = get-erase id_discrete id (q.source_id d.wrapped) scids ∙ rw apart found;
      }

  -- Deregistering a registered connection of a valid group never panics and returns the
  -- connection; its token and its id lead to nothing then, the parked threads stay, and the group
  -- is valid.
  pub deregister-IsValid :
      (g : Group q pq) (token : ℕ) (c : Conn q)
      → IsValid g
      → get ℕ_discrete token g.conns ≡ some c
      → Returns (deregister q pq g token) λ t.
        (t.1 ≡ ok c.wrapped)
        × IsValid t.0
        × (get ℕ_discrete token t.0.conns ≡ none)
        × (get id_discrete (q.source_id c.wrapped) t.0.scids ≡ none)
        × (t.0.unparked ≡ g.unparked)
        × (t.0.unparkers ≡ g.unparkers)
  deregister-IsValid g token c v here =
      let reg = v.registered token c here in
      let id = q.source_id c.wrapped in
      rw (deregister_found q pq g token c here reg.scid) (
        refl,
        record {
          next = v.next;
          readiness = v.readiness;
          registered = λ t d e.
              let (other, old) = erase_found ℕ_discrete token t d g.conns e in
              kept_Registered id reg.scid other (v.registered t d old);
          idle = λ t d e. v.idle t d (erase_found ℕ_discrete token t d g.conns e).1;
        },
        erased ℕ_discrete token g.conns,
        erased id_discrete id g.scids,
        refl,
        refl,
      )
