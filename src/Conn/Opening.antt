-- ===== src/Conn/Opening.antt =====
-- crates/poll/src/conn.rs: `stream_open`, and the stream ids that it gives.
use rtt.Prelude.{
  ℕ, ◌≡◌, refl, sym, ap, ◌∙◌, inl, inr, Bool, true, Option, none, some, ◌==◌, if◌then◌else◌,
  Bool-cases, Returns,
}
use rtt.Prelude.Collections.{contains}
use rtt.Prelude.Io.{Result, ok, err}
use rtt.Api.{quiche, retry, StreamKind, uni, bidi}
use rtt.Quiche.{Quiche}
use rtt.Readiness.{PriorityQueue, Readiness}
use rtt.Readiness.View.{IsValid}
use rtt.Conn.{
  unlocked, stream_open, LocKind-discrete, LocKind, LockContext, need_retry, Conn, Outcome,
  stream_open_prv, create_stream,
}
use rtt.Conn.Frame.{insert-AreRetries}
use rtt.Conn.Handlers.{keep_retry}
use rtt.Conn.Locking.{IsLockValid}
use rtt.Conn.Methods.{open_stream, opened}
use rtt.Conn.Serving.{Released, Held, free_Held, context, try_lock_prv_free, unlock_with-Released}

module _ (q : Quiche) (pq : PriorityQueue) where
  -- how many more streams the peer takes, and the next id, of a kind
  abbrev pub streams_left : Conn q → StreamKind → ℕ
  streams_left c uni = q.peer_streams_left_uni c.wrapped
  streams_left c bidi = q.peer_streams_left_bidi c.wrapped

  abbrev pub next_id : Conn q → StreamKind → ℕ
  next_id c uni = c.local_stream_uni_next
  next_id c bidi = c.local_stream_bidi_next

  -- the connection that `unlock` is called on
  abbrev pub opening : Conn q → StreamKind → Conn q
  opening c kind =
      let (d, r) = stream_open_prv q (record c { locker = stream_open kind }) kind in
      if streams_left c kind == 0 then keep_retry q pq d (stream_open kind) else d

  -- what `stream_open` returns
  abbrev pub answer : Conn q → StreamKind → Bool → Outcome q (Option ℕ)
  answer c kind non_blocking =
      if streams_left c kind == 0
      then (if non_blocking then ok none else err retry)
      else elim (q.stream_priority c.wrapped (next_id c kind) 255 true).1 [
        | ok u ↦ ok (some (next_id c kind))
        | err x ↦ err (quiche x)
      ]

  stepped :
      {kind : LocKind} {c d : Conn q}
      → Held q pq kind c
      → d.locker ≡ c.locker
      → d.read_lock_count ≡ c.read_lock_count
      → d.reties ≡ c.reties
      → Held q pq kind d
  stepped h l n r = record {
    locker = l ∙ h.locker;
    exclusive = h.exclusive;
    is_locked = h.is_locked;
    readers = n ∙ h.readers;
    retries = λ other e. h.retries other (ap (contains LocKind-discrete other) (sym r) ∙ e);
  }

  exhausted-Released :
      (d : Conn q) (kind : StreamKind) (guard : LockContext) (non_blocking : Bool) (now : ℕ)
      (r : Readiness pq)
      → Held q pq (stream_open kind) d
      → guard.lock_count ≡ d.lock_count
      → IsValid pq r
      → Returns (opened q pq d (err retry) guard kind non_blocking now r) (
          Released q pq
            (keep_retry q pq d (stream_open kind))
            (if non_blocking then ok none else err retry))
  unfolding opened need_retry
  exhausted-Released d kind guard non_blocking now r h same ready =
      unlock_with-Released q pq (stream_open kind) _ guard now r _
        (record {
          locker = h.locker;
          exclusive = h.exclusive;
          is_locked = h.is_locked;
          readers = h.readers;
          retries = insert-AreRetries (stream_open kind) d.reties refl h.retries;
        })
        same ready

  created-Released :
      (d : Conn q) (kind : StreamKind) (guard : LockContext) (non_blocking : Bool) (now : ℕ)
      (r : Readiness pq) (id : ℕ) (result : Result q.QError (Unit {0}))
      → Held q pq (stream_open kind) d
      → guard.lock_count ≡ d.lock_count
      → IsValid pq r
      → Returns
          (opened q pq d
            (elim result [ ok u ↦ ok id | err x ↦ err (quiche x) ])
            guard
            kind
            non_blocking
            now
            r)
          (Released q pq d (elim result [ ok u ↦ ok (some id) | err x ↦ err (quiche x) ]))
  unfolding opened
  created-Released d kind guard non_blocking now r id (ok u) h same ready =
      unlock_with-Released q pq (stream_open kind) d guard now r _ h same ready
  created-Released d kind guard non_blocking now r id (err x) h same ready =
      unlock_with-Released q pq (stream_open kind) d guard now r _ h same ready

  opened-Released :
      (c : Conn q) (kind : StreamKind) (non_blocking : Bool) (now : ℕ) (r : Readiness pq)
      → IsLockValid q c
      → c.locker ≡ unlocked
      → IsValid pq r
      → let (d, result) = stream_open_prv q (record c { locker = stream_open kind }) kind in
        Returns
          (opened q pq d result (context q pq c) kind non_blocking now r)
          (Released q pq (opening c kind) (answer c kind non_blocking))
  unfolding stream_open_prv create_stream LocKind-discrete
  opened-Released c uni non_blocking now r v free ready =
      let held =
        λ (conn : q.Connection). free_Held q pq c (stream_open uni) conn v free refl refl in
      elim (Bool-cases (q.peer_streams_left_uni c.wrapped == 0)) [
        | inl z ↦ simp z (
            exhausted-Released _ uni (context q pq c) non_blocking now r (held c.wrapped) refl
              ready)
        | inr more ↦ simp more (
            created-Released _ uni (context q pq c) non_blocking now r _ _
              (stepped (held c.wrapped) refl refl refl) refl ready)
      ]
  opened-Released c bidi non_blocking now r v free ready =
      let held =
        λ (conn : q.Connection). free_Held q pq c (stream_open bidi) conn v free refl refl in
      elim (Bool-cases (q.peer_streams_left_bidi c.wrapped == 0)) [
        | inl z ↦ simp z (
            exhausted-Released _ bidi (context q pq c) non_blocking now r (held c.wrapped) refl
              ready)
        | inr more ↦ simp more (
            created-Released _ bidi (context q pq c) non_blocking now r _ _
              (stepped (held c.wrapped) refl refl refl) refl ready)
      ]

  pub open_stream-Released :
      (c : Conn q) (kind : StreamKind) (non_blocking : Bool) (now : ℕ) (r : Readiness pq)
      → IsLockValid q c
      → c.locker ≡ unlocked
      → IsValid pq r
      → Returns
          (open_stream q pq c kind non_blocking now r)
          (Released q pq (opening c kind) (answer c kind non_blocking))
  unfolding open_stream LocKind-discrete
  open_stream-Released c kind non_blocking now r v free ready =
      rw (try_lock_prv_free q pq c (stream_open kind) free refl)
        (opened-Released c kind non_blocking now r v free ready)
