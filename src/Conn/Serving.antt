-- ===== src/Conn/Serving.antt =====
-- crates/poll/src/conn.rs: what `close`, `stream_open` and `stream_close` do to a connection whose
-- lock is free, and to one whose lock is held.
use rtt.Prelude.{
  ℕ, ◌≡◌, ◌≢◌, refl, ap, ◌∙◌, Bool, true, false, none, some, List, value, arith, Returns,
  Returns_bind, add64,
}
use rtt.Prelude.Collections.{beq_iff}
use rtt.Prelude.Io.{ok, err}
use rtt.Api.{quiche, StreamKind, busy, would_block}
use rtt.Quiche.{Quiche, endpoint}
use rtt.Readiness.{PriorityQueue, Readiness}
use rtt.Readiness.View.{IsValid}
use rtt.Conn.{
  LocKind, unlocked, close, stream_open, stream_close, read_lock, LocKind-discrete, need_retry,
  is_kind, Conn, LockContext, failure, stream_close_prv, try_lock_prv, try_lock_from, refused,
}
use rtt.Conn.Frame.{AreRetries}
use rtt.Conn.Handlers.{keep_retry}
use rtt.Conn.Locking.{IsLockValid}
use rtt.Conn.Methods.{unlock, unlock_with, close_conn, open_stream, close_stream}
use rtt.Conn.Unlocking.{Unlocked, unlock-Unlocked}

module _ (q : Quiche) (pq : PriorityQueue) where
  -- The lock is free again, `unlock` has run, and the caller has its result.
  pub record Released {A : Type 0} (d : Conn q) (result : A) (t : Conn q × Readiness pq × A)
      : Type 0 where
    pub valid : IsLockValid q t.0
    pub token : t.0.token ≡ d.token
    pub locker : t.0.locker ≡ unlocked
    pub count : t.0.lock_count ≡ add64 d.lock_count 1
    pub readers : t.0.read_lock_count ≡ 0
    pub bidi_next : t.0.local_stream_bidi_next ≡ d.local_stream_bidi_next
    pub uni_next : t.0.local_stream_uni_next ≡ d.local_stream_uni_next
    pub same : endpoint q t.0.wrapped ≡ endpoint q d.wrapped
    pub drained : q.stream_readable_next t.0.wrapped ≡ none
    pub readiness : IsValid pq t.1
    pub returned : t.2 ≡ result

  -- a connection that an exclusive operation holds
  pub record Held (kind : LocKind) (d : Conn q) : Type 0 where
    pub locker : d.locker ≡ kind
    pub exclusive : is_kind kind read_lock ≡ false
    pub is_locked : is_kind kind unlocked ≡ false
    pub readers : d.read_lock_count ≡ 0
    pub retries : AreRetries d.reties

  pub Held-IsLockValid : {kind : LocKind} {d : Conn q} → Held kind d → IsLockValid q d
  Held-IsLockValid {kind} {d} h =
      let l = h.locker in
      let x = h.exclusive in
      let z = h.readers in
      let is_reader = beq_iff LocKind-discrete kind read_lock in
      record {
        readers = λ e. ground arith;
        no_readers = λ e. z;
        small = omega arith;
        retries = h.retries;
      }

  pub unlock_with-Released :
      {A : Type 0} (kind : LocKind) (d : Conn q) (guard : LockContext) (now : ℕ) (r : Readiness pq)
      (result : A)
      → Held kind d
      → guard.lock_count ≡ d.lock_count
      → IsValid pq r
      → Returns (unlock_with q pq d guard now r result) (Released d result)
  unlock_with-Released kind d guard now r result h same ready =
      let v = Held-IsLockValid h in
      let x : is_kind d.locker read_lock ≡ false = rw h.locker h.exclusive in
      let z = h.readers in
      let l = h.locker in
      let w = h.is_locked in
      let is_free = beq_iff LocKind-discrete kind unlocked in
      Returns_bind {P = Unlocked q pq d} _ (unlock q pq d guard.lock_count false now r) _
        (rw same (unlock-Unlocked q pq d false now r v (λ e. ground arith) ready))
        λ t u. record {
          valid = u.valid;
          token = u.token;
          locker = u.locker ∙ rw x;
          count = u.count ∙ rw x;
          readers = u.readers ∙ rw z;
          bidi_next = u.bidi_next;
          uni_next = u.uni_next;
          same = u.same;
          drained = u.drained;
          readiness = u.readiness;
          returned = refl;
        }

  abbrev pub context : Conn q → LockContext
  context c = record { token = c.token; lock_count = c.lock_count; send_done = false }

  pub try_lock_prv_free :
      (c : Conn q) (kind : LocKind)
      → c.locker ≡ unlocked
      → is_kind kind read_lock ≡ false
      → try_lock_prv q c kind ≡ value (record c { locker = kind }, ok (context c))
  unfolding try_lock_prv try_lock_from
  try_lock_prv_free c kind free x = ap (λ held. try_lock_from q held c kind) free ∙ rw x

  pub free_Held :
      (c : Conn q) (kind : LocKind) (conn : q.Connection)
      → IsLockValid q c
      → c.locker ≡ unlocked
      → is_kind kind read_lock ≡ false
      → is_kind kind unlocked ≡ false
      → Held kind (record c { locker = kind; wrapped = conn })
  free_Held c kind conn v free x w = record {
    locker = refl;
    exclusive = x;
    is_locked = w;
    readers = v.no_readers (λ e. ground arith);
    retries = v.retries;
  }

  -- `close` on a connection whose lock is valid and free never panics: `quiche` closes the
  -- connection, an error of it but `Done` is returned, the lock is free again with its count
  -- moved on, no stream is left in the queue of readable ones, and lock and readiness are valid.
  pub close_conn-Released :
      (c : Conn q) (app : Bool) (e : ℕ) (reason : List ℕ) (now : ℕ) (r : Readiness pq)
      → IsLockValid q c
      → c.locker ≡ unlocked
      → IsValid pq r
      → Returns (close_conn q pq c app e reason now r) (
          Released
            (record c { locker = close app e reason; wrapped = (q.close c.wrapped app e reason).0 })
            (elim (failure q (q.close c.wrapped app e reason).1) [
              | none ↦ ok tt
              | some x ↦ err (quiche x)
            ]))
  unfolding close_conn LocKind-discrete would_block
  close_conn-Released c app e reason now r v free ready =
      let kind = close app e reason in
      let held = free_Held c kind (q.close c.wrapped app e reason).0 v free refl refl in
      rw (try_lock_prv_free c kind free refl)
        (unlock_with-Released kind _ (context c) now r _ held refl ready)

  -- `stream_close` on a connection whose lock is valid and free never panics: it returns what
  -- `stream_close_prv` does, the lock is free again with its count moved on, no stream is left in
  -- the queue of readable ones, and lock and readiness are valid.
  pub close_stream-Released :
      (c : Conn q) (id e : ℕ) (now : ℕ) (r : Readiness pq)
      → IsLockValid q c
      → c.locker ≡ unlocked
      → IsValid pq r
      → Returns (close_stream q pq c id e now r) (
          Released
            (record c {
              locker = stream_close id e;
              wrapped = (stream_close_prv q c.wrapped id e).0;
            })
            (stream_close_prv q c.wrapped id e).1)
  unfolding close_stream LocKind-discrete would_block
  close_stream-Released c id e now r v free ready =
      let kind = stream_close id e in
      let held = free_Held c kind (stream_close_prv q c.wrapped id e).0 v free refl refl in
      rw (try_lock_prv_free c kind free refl)
        (unlock_with-Released kind _ (context c) now r _ held refl ready)

  -- A method that finds the lock held does nothing but ask for a retry: `close` and `stream_close`
  -- report success then, and `stream_open` that the lock is busy.
  try_lock_from_held :
      (held : LocKind) (c : Conn q) (kind : LocKind)
      → is_kind held unlocked ≡ false
      → is_kind kind read_lock ≡ false
      → need_retry kind ≡ true
      → try_lock_from q held c kind ≡ value (keep_retry q pq c kind, err busy)
  unfolding try_lock_from refused LocKind-discrete
  try_lock_from_held read_lock c kind h x n = rw (x, n)
  try_lock_from_held unlocked c kind h x n = ground arith
  try_lock_from_held _ c kind h x n = rw n

  pub try_lock_prv_held :
      (c : Conn q) (kind : LocKind)
      → c.locker ≢ unlocked
      → is_kind kind read_lock ≡ false
      → need_retry kind ≡ true
      → try_lock_prv q c kind ≡ value (keep_retry q pq c kind, err busy)
  unfolding try_lock_prv
  try_lock_prv_held c kind h x n =
      try_lock_from_held c.locker c kind
        (ground (arith, beq_iff LocKind-discrete c.locker unlocked)) x n

  -- On a connection whose lock is held, `close`, `stream_close` and `stream_open` only add
  -- themselves to the operations that wait for a retry; the first two report success, and
  -- `stream_open` that the connection is busy.
  pub methods_busy :
      (c : Conn q) (kind : StreamKind) (app non_blocking : Bool) (id e now : ℕ) (reason : List ℕ)
      (r : Readiness pq)
      → c.locker ≢ unlocked
      → (close_conn q pq c app e reason now r
          ≡ value (keep_retry q pq c (close app e reason), r, ok tt))
        × (close_stream q pq c id e now r ≡ value (keep_retry q pq c (stream_close id e), r, ok tt))
        × (open_stream q pq c kind non_blocking now r
            ≡ value (keep_retry q pq c (stream_open kind), r, err busy))
  unfolding close_conn close_stream open_stream would_block LocKind-discrete need_retry
  methods_busy c kind app non_blocking id e now reason r h = (
    rw (try_lock_prv_held c (close app e reason) h refl refl),
    rw (try_lock_prv_held c (stream_close id e) h refl refl),
    rw (try_lock_prv_held c (stream_open kind) h refl refl),
  )
