-- ===== src/Group/Sections.antt =====
-- crates/poll/src/group.rs: each critical section keeps the connections locked exactly where a guard
-- is held.
use native.Mathlib.Decide.{ℕ_discrete}
use rtt.Prelude.{
  ℕ, ◌≡◌, refl, sym, ap, subst, ◌∙◌, inl, inr, Bool, true, false, Option, none, some, List, [],
  arith, Option-cases, IfReturns, IfReturns_of, IfReturns_chain,
}
use rtt.Prelude.Collections.{beq_iff}
use rtt.Prelude.Maps.{get, put, get-put_self, get-put_other}
use rtt.Prelude.Io.{ok, err}
use rtt.Quiche.{Quiche, endpoint}
use rtt.Readiness.{PriorityQueue, Readiness}
use rtt.Readiness.Polling.{poll-Polled}
use rtt.Readiness
use rtt.Readiness.View
use rtt.Conn.{
  LocKind, unlocked, read_lock, LocKind-discrete, need_retry, is_kind, Conn, LockContext, Outcome,
}
use rtt.Conn.Handlers.{keep_retry}
use rtt.Conn.Frame.{insert-AreRetries}
use rtt.Conn.Serving.{try_lock_prv_free, try_lock_prv_held, free_Held, Held-IsLockValid}
use rtt.Group.{Group, id_discrete, set_conn, release_timer_threshold}
use rtt.Group.Driving.{lock, poll}
use rtt.Group.Validity.{Registered}
use rtt.Group.Sharing.{Guards, Agrees, IsShared, same-IsShared, same_apart, replace-IsShared}

-- the kinds that `lock!` is called with
abbrev pub is_guarded : LocKind → Bool
is_guarded LocKind.recv = true
is_guarded (LocKind.stream_send id len) = true
is_guarded (LocKind.stream_recv id) = true
is_guarded _ = false

pub guarded_kind :
    (kind : LocKind)
    → is_guarded kind ≡ true
    → (is_kind kind read_lock ≡ false) × (is_kind kind unlocked ≡ false) × (need_retry kind ≡ true)
unfolding need_retry LocKind-discrete
guarded_kind LocKind.recv h = (refl, refl, refl)
guarded_kind (LocKind.stream_send id len) h = (refl, refl, refl)
guarded_kind (LocKind.stream_recv id) h = (refl, refl, refl)
guarded_kind _ h = absurd (ground arith)

module _ (q : Quiche) (pq : PriorityQueue) where
  keep_retry-Registered :
      {scids : List (List ℕ × ℕ)} {token : ℕ} (c : Conn q) (kind : LocKind)
      → need_retry kind ≡ true
      → Registered q pq scids token c
      → Registered q pq scids token (keep_retry q pq c kind)
  keep_retry-Registered c kind n reg = record {
    same_token = reg.same_token;
    lock = record {
      readers = reg.lock.readers;
      no_readers = reg.lock.no_readers;
      small = reg.lock.small;
      retries = insert-AreRetries kind c.reties n reg.lock.retries;
    };
    scid = reg.scid;
  }

  -- A connection waits for a retry, or its `quiche` connection was used.
  pub retry-IsShared :
      (g : Group q pq) (token : ℕ) (c : Conn q) (kind : LocKind) (held : Guards)
      → need_retry kind ≡ true
      → IsShared q pq g held
      → get ℕ_discrete token g.conns ≡ some c
      → IsShared q pq (set_conn q pq g token (keep_retry q pq c kind)) held
  retry-IsShared g token c kind held n v here =
      replace-IsShared q pq g token (keep_retry q pq c kind) g.readiness held held.locks v
        (keep_retry-Registered c kind n (v.registered token c here))
        (same_apart q pq g held token c c.wrapped v here refl) v.readiness (λ t other. refl)
        (agrees_on (get ℕ_discrete token held.locks) (v.locks token c here))
    where
      agrees_on : (o : Option ℕ) → Agrees q pq c o → Agrees q pq (keep_retry q pq c kind) o
      agrees_on none a = a
      agrees_on (some count) a = a

  -- A connection without a guard is locked, and a guard of it is held.
  pub free-IsShared :
      (g : Group q pq) (token : ℕ) (c : Conn q) (kind : LocKind) (held : Guards)
      → is_guarded kind ≡ true
      → IsShared q pq g held
      → get ℕ_discrete token g.conns ≡ some c
      → c.locker ≡ unlocked
      → IsShared q pq
          (set_conn q pq g token (record c { locker = kind }))
          (record held { locks = put ℕ_discrete token c.lock_count held.locks })
  free-IsShared g token c kind held k v e idle =
      let (x, w, n) = guarded_kind kind k in
      let reg = v.registered token c e in
      let d : Conn q = record c { locker = kind } in
      let count = get-put_self ℕ_discrete token c.lock_count held.locks in
      replace-IsShared q pq g token d g.readiness held
        (put ℕ_discrete token c.lock_count held.locks) v
        (record {
          same_token = reg.same_token;
          lock = Held-IsLockValid q pq (free_Held q pq c kind c.wrapped reg.lock idle x w);
          scid = reg.scid;
        })
        (same_apart q pq g held token c c.wrapped v e refl) v.readiness
        (λ t other. get-put_other ℕ_discrete token t c.lock_count held.locks other)
        (subst (Agrees q pq d) (sym count) (
          refl,
          (λ e. ground (arith, beq_iff LocKind-discrete kind unlocked)),
          (λ e. ground (arith, beq_iff LocKind-discrete kind read_lock)),
        ))

  -- What `lock!` leaves, for what it gave.
  abbrev pub LeftBy : Guards → ℕ → Group q pq × Outcome q (Conn q × LockContext) → Type 0
  LeftBy held token (t, err x) = IsShared q pq t held
  LeftBy held token (t, ok (c, ctx)) =
      IsShared q pq t (record held { locks = put ℕ_discrete token ctx.lock_count held.locks })

  pub lock-LeftBy :
      (g : Group q pq) (token : ℕ) (kind : LocKind) (held : Guards)
      → is_guarded kind ≡ true
      → IsShared q pq g held
      → IfReturns (lock q pq g token kind) (LeftBy held token)
  unfolding lock
  lock-LeftBy g token kind held k v =
      let (x, w, n) = guarded_kind kind k in
      elim (Option-cases (get ℕ_discrete token g.conns)) [
        | inl e ↦ rw (e, lock) v
        | inr (c, e) ↦ elim (Option-cases (get ℕ_discrete token held.locks)) [
          | inl free ↦
              let idle : c.locker ≡ unlocked = subst (Agrees q pq c) free (v.locks token c e) in
              rw (e, lock, try_lock_prv_free q pq c kind idle x)
                (free-IsShared g token c kind held k v e idle)
          | inr (count, taken) ↦
              let a = subst (Agrees q pq c) taken (v.locks token c e) in
              rw (e, lock, try_lock_prv_held q pq c kind a.1 x n)
                (retry-IsShared g token c kind held n v e)
        ]
      ]

  pub used-IsShared :
      (g : Group q pq) (held : Guards) (token count : ℕ) (c : Conn q) (conn : q.Connection)
      → IsShared q pq g held
      → get ℕ_discrete token held.locks ≡ some count
      → get ℕ_discrete token g.conns ≡ some c
      → endpoint q conn ≡ endpoint q c.wrapped
      → IsShared q pq (set_conn q pq g token (record c { wrapped = conn })) held
  used-IsShared g held token count c conn v mine e same =
      let reg = v.registered token c e in
      let d : Conn q = record c { wrapped = conn } in
      let a = subst (Agrees q pq c) mine (v.locks token c e) in
      replace-IsShared q pq g token d g.readiness held held.locks v
        (record {
          same_token = reg.same_token;
          lock = record {
            readers = reg.lock.readers;
            no_readers = reg.lock.no_readers;
            small = reg.lock.small;
            retries = reg.lock.retries;
          };
          scid = ap (λ (e : Bool × List ℕ). get id_discrete e.1 g.scids) same ∙ reg.scid;
        })
        (same_apart q pq g held token c conn v e same) v.readiness (λ t other. refl)
        (subst (Agrees q pq d) (sym mine) a)

  pub polled-IsShared :
      (g : Group q pq) (held : Guards) (now : ℕ)
      → IsShared q pq g held
      → IfReturns (poll q pq g [] now) (λ t. IsShared q pq t.0 held)
  unfolding poll
  polled-IsShared g held now v =
      let polling = Readiness.poll pq g.readiness now release_timer_threshold [] in
      let polled = poll-Polled pq now release_timer_threshold g.readiness v.readiness in
      IfReturns_chain {P = λ t. View.IsValid pq t.0} _ polling _
        (IfReturns_of _ _ polling polled (λ t p. p.valid))
        λ t w. same-IsShared q pq g held t.0 g.unparkers g.unparked v w
