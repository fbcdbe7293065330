-- ===== src/Group/Registering.antt =====
-- crates/poll/src/group.rs: `register` finds a free token.
use native.Mathlib.Decide.{ℕ_discrete}
use rtt.Prelude.{
  ℕ, zero, suc, ◌+◌, ◌%◌, ◌≤◌, ◌<◌, ◌≡◌, ◌≢◌, refl, sym, ap, ◌∙◌, ◌⊎◌, inl, inr, Bool, true, false,
  none, some, List, if◌then◌else◌, value, arith, Bool-cases, Option-cases, Returns, Returns_bind,
  length,
}
use rtt.Prelude.Collections.{beq, beq_iff, contains}
use rtt.Prelude.Maps.{
  get, erase, put, is_some, get-put, get-put_self, get-erase, length-erase_found,
}
use rtt.Prelude.Io.{ok}
use rtt.Quiche.{Quiche}
use rtt.Readiness.{PriorityQueue}
use rtt.Conn.{read_lock, LocKind-discrete, Conn, new, Outcome, try_lock_prv, try_lock_from}
use rtt.Conn.Methods as Methods
use rtt.Conn.Locking.{IsLockValid}
use rtt.Conn.Unlocking.{Unlocked, unlock-Unlocked}
use rtt.Group.{u32_mod, Group, id_discrete, register_at, register_loop, register}
use rtt.Group.Validity.{Registered, IsValid, set_conn-IsValid}

-- Of more tokens in a row than a map has entries, one is free.
pigeonhole :
    {A : Type 0} (k t : ℕ) (m : List (ℕ × A))
    → t < u32_mod
    → k ≤ u32_mod
    → ((j : ℕ) → j < k → is_some (get ℕ_discrete ((t + j) % u32_mod) m) ≡ true)
    → k ≤ length m
pigeonhole zero t m h l all = omega arith
pigeonhole (suc k) t m h l all =
    let first : (t + 0) % u32_mod ≡ t = omega arith in
    let here : is_some (get ℕ_discrete t m) ≡ true =
      ap (λ i. is_some (get ℕ_discrete i m)) (sym first) ∙ all 0 (omega arith) in
    let less = length-erase_found ℕ_discrete t m here in
    let rest : (j : ℕ)
        → j < k
        → is_some (get ℕ_discrete (((t + 1) % u32_mod + j) % u32_mod) (erase ℕ_discrete t m))
          ≡ true =
      λ j p.
        let i = ((t + 1) % u32_mod + j) % u32_mod in
        let same : (t + suc j) % u32_mod ≡ i = omega arith in
        let apart : t ≢ i = λ e. omega arith in
        let found = all (suc j) (omega arith) in
        ground (arith, get-erase ℕ_discrete t i m, beq_iff ℕ_discrete t i) in
    let ih =
      pigeonhole k ((t + 1) % u32_mod) (erase ℕ_discrete t m) (omega arith) (omega arith) rest in
    omega arith

module _ (q : Quiche) (pq : PriorityQueue) where
  -- The connection was registered for a token that no other has, and the group is valid.
  pub record Joined (g : Group q pq) (wrapped : q.Connection) (t : Group q pq × Outcome q ℕ)
      : Type 0 where
    pub token : ℕ
    pub returned : t.1 ≡ ok token
    pub fresh : get ℕ_discrete token g.conns ≡ none
    pub added : is_some (get ℕ_discrete token t.0.conns) ≡ true
    pub named : get id_discrete (q.source_id wrapped) t.0.scids ≡ some token
    pub others :
        (j : ℕ)
        → get ℕ_discrete j t.0.conns ≡ (
            if beq ℕ_discrete token j
            then get ℕ_discrete token t.0.conns
            else get ℕ_discrete j g.conns)
    pub valid : IsValid q pq t.0

  -- the connection while `register` holds its read lock
  abbrev pub reading : ℕ → q.Connection → Conn q
  reading token wrapped = record (new q token wrapped) { locker = read_lock; read_lock_count = 1 }

  pub reading_lem :
      (token : ℕ) (wrapped : q.Connection)
      → try_lock_prv q (new q token wrapped) read_lock
        ≡ value (
          reading token wrapped,
          ok (record { token = token; lock_count = 0; send_done = false }),
        )
  unfolding try_lock_prv try_lock_from new LocKind-discrete
  reading_lem token wrapped = refl

  pub reading-IsLockValid :
      (token : ℕ) (wrapped : q.Connection) → IsLockValid q (reading token wrapped)
  unfolding new contains
  reading-IsLockValid token wrapped = record {
    readers = λ e. omega arith;
    no_readers = λ e. absurd (e refl);
    small = omega arith;
    retries = λ kind e. cc;
  }

  -- What is registered stays registered with one more id.
  pub named_Registered :
      {scids : List (List ℕ × ℕ)} (id : List ℕ) (token : ℕ) {t : ℕ} {d : Conn q}
      → get id_discrete id scids ≡ none
      → Registered q pq scids t d
      → Registered q pq (put id_discrete id token scids) t d
  named_Registered {scids} id token {t} {d} new reg =
      let apart : beq id_discrete id (q.source_id d.wrapped) ≡ false =
        elim (Bool-cases (beq id_discrete id (q.source_id d.wrapped))) [
          | inl same ↦
              let one =
                ap (λ k. get id_discrete k scids)
                  ((beq_iff id_discrete id (q.source_id d.wrapped)).0 same) in
              let found = reg.scid in absurd (ground arith)
          | inr differ ↦ differ
        ] in
      record {
        same_token = reg.same_token;
        lock = reg.lock;
        scid = get-put id_discrete id (q.source_id d.wrapped) token scids ∙ rw apart reg.scid;
      }

  -- One more id in a valid group leads to no connection yet.
  pub named-IsValid :
      (g : Group q pq) (id : List ℕ) (token next : ℕ)
      → IsValid q pq g
      → next < u32_mod
      → get id_discrete id g.scids ≡ none
      → IsValid q pq (record g { token_next = next; scids = put id_discrete id token g.scids })
  named-IsValid g id token next v small new = record {
    next = small;
    readiness = v.readiness;
    registered = λ t d e. named_Registered id token new (v.registered t d e);
    idle = v.idle;
  }

  pub register_at-Joined :
      (g : Group q pq) (wrapped : q.Connection) (token next now : ℕ)
      → IsValid q pq g
      → next < u32_mod
      → get id_discrete (q.source_id wrapped) g.scids ≡ none
      → get ℕ_discrete token g.conns ≡ none
      → Returns
          (register_at q pq (record g { token_next = next }) token wrapped now)
          (Joined g wrapped)
  unfolding register_at new LocKind-discrete
  register_at-Joined g wrapped token next now v small new free =
      let id = q.source_id wrapped in
      let named = named-IsValid g id token next v small new in
      let c = reading token wrapped in
      let own = get-put_self id_discrete id token g.scids in
      rw (new, reading_lem token wrapped)
        (Returns_bind {P = Unlocked q pq c} _ (Methods.unlock q pq c 0 false now g.readiness) _
          (unlock-Unlocked q pq c false now g.readiness (reading-IsLockValid token wrapped)
            (λ e. ground arith) v.readiness)
          λ t u.
            let here = get-put_self ℕ_discrete token t.0 g.conns in
            let known : get id_discrete (q.source_id t.0.wrapped) (put id_discrete id token g.scids)
                ≡ some token =
              ap (λ (e : Bool × List ℕ). get id_discrete e.1 (put id_discrete id token g.scids))
                u.same
              ∙ own in
            record {
              token = token;
              returned = refl;
              fresh = free;
              added = ap is_some here;
              named = own;
              others = λ j. get-put ℕ_discrete token j t.0 g.conns ∙ rw here;
              valid =
                  set_conn-IsValid q pq _ token t.0 t.1 named
                    (record { same_token = u.token; lock = u.valid; scid = known }) u.locker
                    u.readiness;
            })

  -- The loop registers the connection, or all the tokens that it tried are taken.
  register_loop-Joined :
      (fuel : ℕ) (g : Group q pq) (wrapped : q.Connection) (next now : ℕ)
      → IsValid q pq g
      → next < u32_mod
      → get id_discrete (q.source_id wrapped) g.scids ≡ none
      → Returns
          (register_loop q pq fuel (record g { token_next = next }) wrapped now)
          (Joined g wrapped)
        ⊎ ((j : ℕ) → j < fuel → is_some (get ℕ_discrete ((next + j) % u32_mod) g.conns) ≡ true)
  unfolding register_loop
  register_loop-Joined zero g wrapped next now v small new = inr (λ j p. absurd (omega arith))
  register_loop-Joined (suc fuel) g wrapped next now v small new =
      elim (Option-cases (get ℕ_discrete next g.conns)) [
        | inl free ↦ inl (
            rw free (
              register_at-Joined g wrapped next ((next + 1) % u32_mod) now v (omega arith) new
                free))
        | inr (c, taken) ↦
            elim (register_loop-Joined fuel g wrapped ((next + 1) % u32_mod) now v (omega arith)
              new) [
                | inl joined ↦ inl (rw taken joined)
                | inr all ↦ inr (taken_more next fuel g taken small all)
              ]
      ]
    where
      taken_more :
          (next fuel : ℕ) (g : Group q pq) {c : Conn q}
          → get ℕ_discrete next g.conns ≡ some c
          → next < u32_mod
          → ((j : ℕ)
              → j < fuel
              → is_some (get ℕ_discrete (((next + 1) % u32_mod + j) % u32_mod) g.conns) ≡ true)
          → (j : ℕ) → j < suc fuel
          → is_some (get ℕ_discrete ((next + j) % u32_mod) g.conns) ≡ true
      taken_more next fuel g taken small all zero p =
          let same : (next + 0) % u32_mod ≡ next = omega arith in rw (same, taken)
      taken_more next fuel g taken small all (suc j) p =
          let same : (next + suc j) % u32_mod ≡ ((next + 1) % u32_mod + j) % u32_mod =
            omega arith in
          rw same (all j (omega arith))

  -- In a valid group of fewer than 2^32 connections, registering a connection whose id leads to
  -- none returns a token that no connection has, after at most one more round than there are
  -- connections; the token and the id lead to the connection, the other connections stay, and the
  -- group is valid.
  pub register-Joined :
      (g : Group q pq) (wrapped : q.Connection) (now : ℕ)
      → IsValid q pq g
      → length g.conns < u32_mod
      → get id_discrete (q.source_id wrapped) g.scids ≡ none
      → Returns (register q pq g wrapped now) (Joined g wrapped)
  unfolding register
  register-Joined g wrapped now v few new =
      elim (register_loop-Joined (suc (length g.conns)) g wrapped g.token_next now v v.next new) [
        | inl joined ↦ joined
        | inr all ↦
            let more =
              pigeonhole (suc (length g.conns)) g.token_next g.conns v.next (omega arith) all in
            absurd (omega arith)
      ]
