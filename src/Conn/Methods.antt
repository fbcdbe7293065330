-- ===== src/Conn/Methods.antt =====
-- crates/poll/src/conn.rs: `unlock`, and the methods that lock, call `quiche` and unlock.
use rtt.Prelude.{
  ℕ, Bool, false, Option, none, some, List, ◌==◌, if◌then◌else◌, Checked, value, ◌>>=◌, ◌>>◌,
  assert, add64, sub64, not,
}
use rtt.Prelude.Io.{ok, err, ready, pending}
use rtt.Api.{quiche, retry, StreamKind, would_block}
use rtt.Readiness.{PriorityQueue, Readiness}
use rtt.Quiche.{Quiche}
use rtt.Conn.{
  unlocked, close, stream_open, stream_close, read_lock, LockContext, Conn, Outcome, is_kind,
  failure, stream_close_prv, stream_open_prv, try_lock_prv,
}
use rtt.Conn.Handlers.{
  handle_retry_events, handle_stream_state_changed, handle_send, handle_state_changed, keep_retry,
}

module _ (q : Quiche) (pq : PriorityQueue) where
  -- the part of `unlock` that frees the lock; the last reader frees a read lock
  unfoldable pub free_lock : Conn q → Conn q
  free_lock c =
      if is_kind c.locker read_lock
      then (let left = sub64 c.read_lock_count 1 in
          if left == 0
          then record c {
            read_lock_count = left;
            lock_count = add64 c.lock_count 1;
            locker = unlocked;
          }
          else record c { read_lock_count = left })
      else record c { lock_count = add64 c.lock_count 1; locker = unlocked }

  -- the handlers that `unlock` runs then
  unfoldable pub after_unlock :
      Conn q → Bool → ℕ → Readiness pq → Checked (Conn q × Readiness pq × Bool)
  after_unlock c send_done now r = do
    (c1, r1) ← handle_retry_events q pq c r
    (c2, r2) ← handle_stream_state_changed q pq c1 r1
    value (handle_state_changed q pq c2 (handle_send q pq c2 r2 now send_done))

  unfoldable pub unlock :
      Conn q → ℕ → Bool → ℕ → Readiness pq → Checked (Conn q × Readiness pq × Bool)
  unlock c lock_count send_done now r =
      assert (not (is_kind c.locker unlocked))
      >> (assert (c.lock_count == lock_count) >> after_unlock (free_lock c) send_done now r)

  -- `unlock`, then a result made before it
  abbrev pub unlock_with {ℓ} :
      {A : Type ℓ}
      → Conn q
      → LockContext
      → ℕ
      → Readiness pq
      → A
      → Checked (Conn q × Readiness pq × A)
  unlock_with c guard now r result = do
    (c', r', closed) ← unlock c guard.lock_count false now r
    value (c', r', result)

  -- `QuicConn::close`
  unfoldable pub close_conn :
      Conn q
      → Bool
      → ℕ
      → List ℕ
      → ℕ
      → Readiness pq
      → Checked (Conn q × Readiness pq × Outcome q (Unit {0}))
  close_conn c app e reason now r = do
    (c', lock) ← try_lock_prv q c (close app e reason)
    elim (would_block lock) [
      | pending ↦ value (c', r, ok tt)
      | ready (err x) ↦ value (c', r, err x)
      | ready (ok guard) ↦
          let (conn', result) = q.close c'.wrapped app e reason in
          unlock_with (record c' { wrapped = conn' }) guard now r
            (elim (failure q result) [ none ↦ ok tt | some x ↦ err (quiche x) ])
    ]

  -- the match of `QuicConn::stream_open` on the result of `stream_open_prv`
  unfoldable pub opened :
      Conn q
      → Outcome q ℕ
      → LockContext
      → StreamKind
      → Bool
      → ℕ
      → Readiness pq
      → Checked (Conn q × Readiness pq × Outcome q (Option ℕ))
  opened c (err retry) guard kind non_blocking now r =
      unlock_with (keep_retry q pq c (stream_open kind)) guard now r
        (if non_blocking then ok none else err retry)
  opened c (ok id) guard kind non_blocking now r = unlock_with c guard now r (ok (some id))
  opened c (err x) guard kind non_blocking now r = unlock_with c guard now r (err x)

  -- `QuicConn::stream_open`
  unfoldable pub open_stream :
      Conn q
      → StreamKind
      → Bool
      → ℕ
      → Readiness pq
      → Checked (Conn q × Readiness pq × Outcome q (Option ℕ))
  open_stream c kind non_blocking now r = do
    (c', lock) ← try_lock_prv q c (stream_open kind)
    elim lock [
      | err x ↦ value (c', r, err x)
      | ok guard ↦
          let (c'', result) = stream_open_prv q c' kind in
          opened c'' result guard kind non_blocking now r
    ]

  -- `QuicConn::stream_close`
  unfoldable pub close_stream :
      Conn q → ℕ → ℕ → ℕ → Readiness pq → Checked (Conn q × Readiness pq × Outcome q (Unit {0}))
  close_stream c stream_id e now r = do
    (c', lock) ← try_lock_prv q c (stream_close stream_id e)
    elim (would_block lock) [
      | pending ↦ value (c', r, ok tt)
      | ready (err x) ↦ value (c', r, err x)
      | ready (ok guard) ↦
          let (conn', result) = stream_close_prv q c'.wrapped stream_id e in
          unlock_with (record c' { wrapped = conn' }) guard now r result
    ]
