-- ===== src/Conn/Locking.antt =====
-- crates/poll/src/conn.rs: what the lock of a connection promises.
use rtt.Prelude.{
  ℕ, ◌+◌, ◌<◌, ◌≡◌, refl, sym, ◌∙◌, inl, inr, Bool, true, false, ltb, ◌==◌, if◌then◌else◌, arith,
  ◌≢◌, ◌&&◌, Bool-cases, Returns, u64_mod, add64, lt→ltb, subst,
}
use rtt.Prelude.Collections.{contains, contains-insert, beq_iff}
use rtt.Prelude.Io.{ok, err}
use rtt.Api.{busy}
use rtt.Quiche.{Quiche}
use rtt.Conn.{
  LocKind, unlocked, read_lock, LocKind-discrete, need_retry, is_kind, Conn, Outcome, LockContext,
  refused, try_lock_from, try_lock_prv, granted,
}

module _ (q : Quiche) where
  -- Readers are counted exactly while the read lock is held, the counters fit, and the operations
  -- that wait for a retry are ones that can be retried.
  pub record IsLockValid (c : Conn q) : Type 0 where
    pub readers : (c.locker ≡ read_lock) → 0 < c.read_lock_count
    pub no_readers : (c.locker ≢ read_lock) → c.read_lock_count ≡ 0
    pub small : c.read_lock_count + 1 < u64_mod
    pub retries :
        (kind : LocKind) → contains LocKind-discrete kind c.reties ≡ true → need_retry kind ≡ true

  -- Whether a lock of `kind` is given while `held` is held.
  abbrev pub compatible : LocKind → LocKind → Bool
  compatible unlocked kind = true
  compatible read_lock kind = is_kind kind read_lock
  compatible _ kind = false

  -- What `try_lock_prv` does.
  pub record Tried (c : Conn q) (kind : LocKind) (t : Conn q × Outcome q LockContext) : Type 0 where
    pub result : t.1 ≡ (
        if compatible c.locker kind
        then ok (record { token = c.token; lock_count = c.lock_count; send_done = false })
        else err busy)
    pub locker : t.0.locker ≡ (if compatible c.locker kind then kind else c.locker)
    pub count : t.0.lock_count ≡ c.lock_count
    pub waits :
        (other : LocKind)
        → contains LocKind-discrete other t.0.reties ≡ (
            if compatible c.locker kind
            then contains LocKind-discrete other c.reties
            else if is_kind kind other && need_retry kind
            then true
            else contains LocKind-discrete other c.reties)
    pub readers : t.0.read_lock_count ≡ (
        if compatible c.locker kind && is_kind kind read_lock
        then c.read_lock_count + 1
        else c.read_lock_count)

  refused-Tried :
      (c : Conn q) (kind : LocKind)
      → compatible c.locker kind ≡ false
      → Returns (refused q c kind) (Tried c kind)
  unfolding refused
  refused-Tried c kind h = record {
    result = rw h;
    locker = ground arith;
    count = ground arith;
    waits = λ other. ground (arith, contains-insert LocKind-discrete kind other c.reties);
    readers = ground arith;
  }

  granted-Tried :
      (c : Conn q) (kind : LocKind) (n : ℕ)
      → compatible c.locker kind ≡ true
      → n ≡ (if is_kind kind read_lock then c.read_lock_count + 1 else c.read_lock_count)
      → Returns (granted q (record c { read_lock_count = n; locker = kind })) (Tried c kind)
  granted-Tried c kind n h e = record {
    result = rw h;
    locker = rw h;
    count = refl;
    waits = λ other. rw h;
    readers = rw (h, e);
  }

  -- The lock is free.
  unlocked-Tried :
      (c : Conn q) (kind : LocKind)
      → c.locker ≡ unlocked
      → IsLockValid c
      → Returns (try_lock_from q unlocked c kind) (Tried c kind)
  unfolding try_lock_from
  unlocked-Tried c kind l v = elim (Bool-cases (is_kind kind read_lock)) [
    | inl r ↦
        let z : c.read_lock_count ≡ 0 = v.no_readers (λ e. ground arith) in
        let free : (c.read_lock_count == 0) ≡ true = ground arith in
        simp (r, free)
          (granted-Tried c kind (add64 c.read_lock_count 1) (rw l) (rw r (omega arith)))
    | inr w ↦ simp w (granted-Tried c kind c.read_lock_count (rw l) (rw w))
  ]

  -- The read lock is held.
  read_lock-Tried :
      (c : Conn q) (kind : LocKind)
      → c.locker ≡ read_lock
      → IsLockValid c
      → Returns (try_lock_from q read_lock c kind) (Tried c kind)
  unfolding try_lock_from
  read_lock-Tried c kind l v = elim (Bool-cases (is_kind kind read_lock)) [
    | inl r ↦
        let some_reader : ltb 0 c.read_lock_count ≡ true = lt→ltb 0 _ (v.readers l) in
        let same : kind ≡ read_lock = (beq_iff LocKind-discrete kind read_lock).0 r in
        let small = v.small in
        simp (r, some_reader)
          (subst
            (λ k.
              Returns
                (granted q (record c { read_lock_count = add64 c.read_lock_count 1; locker = k }))
                (Tried c kind))
            (same ∙ sym l)
            (granted-Tried c kind (add64 c.read_lock_count 1) (rw l r) (rw r (omega arith))))
    | inr w ↦ rw w (refused-Tried c kind (rw l w))
  ]

  try_lock_from-Tried :
      (held : LocKind) (c : Conn q) (kind : LocKind)
      → c.locker ≡ held
      → IsLockValid c
      → Returns (try_lock_from q held c kind) (Tried c kind)
  unfolding try_lock_from
  try_lock_from-Tried unlocked c kind l v = unlocked-Tried c kind l v
  try_lock_from-Tried read_lock c kind l v = read_lock-Tried c kind l v
  try_lock_from-Tried _ c kind l v = refused-Tried c kind (rw l)

  -- On a connection whose lock is valid, locking never panics. The lock is given exactly if it is
  -- free, or if it is a read lock and another is asked for; it is then held as asked, the readers
  -- are counted, and the context has the token and the lock count. Else the error is Busy, and
  -- exactly the operation asked for waits for a retry, if it can be retried.
  pub try_lock_prv-Tried :
      (c : Conn q) (kind : LocKind) → IsLockValid c → Returns (try_lock_prv q c kind) (Tried c kind)
  unfolding try_lock_prv
  try_lock_prv-Tried c kind v = try_lock_from-Tried c.locker c kind refl v
