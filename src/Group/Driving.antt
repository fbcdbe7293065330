-- ===== src/Group/Driving.antt =====
-- crates/poll/src/group.rs: the operations of a group on its connections, and its packets.
use native.Mathlib.Decide.{ℕ_discrete}
use rtt.Prelude.{
  ℕ, Bool, true, false, Option, none, some, List, if◌then◌else◌, Checked, value, ◌>>=◌, length,
}
use rtt.Prelude.Maps.{get, put}
use rtt.Prelude.Io.{Result, ok, err}
use rtt.Api.{quiche, retry, busy, not_found, StreamKind, Event}
use rtt.Net.{RecvInfo, SendInfo}
use rtt.Quiche.{Quiche}
use rtt.Readiness.{PriorityQueue, Readiness}
use rtt.Readiness
use rtt.Conn.{LocKind, LockContext, Conn, Outcome, try_lock_prv}
use rtt.Conn.Methods.{close_conn, open_stream, close_stream}
use rtt.Timing.{release_time}
use rtt.Group.{Group, release_timer_threshold, id_discrete, set_conn, unlock}

module _ (q : Quiche) (pq : PriorityQueue) where
  -- `len`
  unfoldable pub len : Group q pq → ℕ
  len g = length g.conns

  -- a method of the connection with a token
  abbrev pub with_conn :
      {A : Type 0}
      → Group q pq
      → ℕ
      → (Conn q → Checked (Conn q × Readiness pq × Outcome q A))
      → Checked (Group q pq × Outcome q A)
  with_conn g token method = elim (get ℕ_discrete token g.conns) [
    | none ↦ value (g, err not_found)
    | some c ↦ (do
      (c', r', result) ← method c
      value (record (set_conn q pq g token c') { readiness = r' }, result))
  ]

  unfoldable pub close :
      Group q pq → ℕ → Bool → ℕ → List ℕ → ℕ → Checked (Group q pq × Outcome q (Unit {0}))
  close g token app e reason now =
      with_conn g token λ c. close_conn q pq c app e reason now g.readiness

  unfoldable pub stream_open :
      Group q pq → ℕ → StreamKind → Bool → ℕ → Checked (Group q pq × Outcome q (Option ℕ))
  stream_open g token kind non_blocking now =
      with_conn g token λ c. open_stream q pq c kind non_blocking now g.readiness

  unfoldable pub stream_shutdown :
      Group q pq → ℕ → ℕ → ℕ → ℕ → Checked (Group q pq × Outcome q (Unit {0}))
  stream_shutdown g token stream_id e now =
      with_conn g token λ c. close_stream q pq c stream_id e now g.readiness

  unfoldable pub poll : Group q pq → List Event → ℕ → Checked (Group q pq × List Event × Option ℕ)
  poll g events now = do
    (r', events', wait) ← Readiness.poll pq g.readiness now release_timer_threshold events
    value (record g { readiness = r' }, events', wait)

  -- the macro `lock!`: the connection and the context of its guard
  unfoldable pub lock :
      Group q pq → ℕ → LocKind → Checked (Group q pq × Outcome q (Conn q × LockContext))
  lock g token kind = elim (get ℕ_discrete token g.conns) [
    | none ↦ value (g, err not_found)
    | some c ↦ (do
      (c', r) ← try_lock_prv q c kind
      value (set_conn q pq g token c', elim r [ ok ctx ↦ ok (c', ctx) | err x ↦ err x ]))
  ]

  -- The guard is dropped, after its connection became `conn`.
  abbrev pub release : Group q pq → Conn q → q.Connection → LockContext → ℕ → Checked (Group q pq)
  release g c conn ctx now =
      unlock q pq (set_conn q pq g ctx.token (record c { wrapped = conn })) ctx now

  -- the matches on the results of `quiche`
  abbrev pub send_result : {A : Type 0} → Result q.QError A → Outcome q A
  send_result (ok a) = ok a
  send_result (err x) = if q.is_done x then err retry else err (quiche x)

  abbrev pub recv_result : Bool → Result q.QError (ℕ × Bool) → Outcome q (ℕ × Bool)
  recv_result finished (ok a) = ok a
  recv_result finished (err x) =
      if q.is_done x then (if finished then ok (0, true) else err retry) else err (quiche x)

  abbrev pub is_done_error : {A : Type 0} → Result q.QError A → Bool
  is_done_error (ok a) = false
  is_done_error (err x) = q.is_done x

  unfoldable pub stream_send :
      Group q pq → ℕ → ℕ → List ℕ → Bool → ℕ → Checked (Group q pq × Outcome q ℕ)
  unfolding lock
  stream_send g token stream_id buf fin now = do
    (g', locked) ← lock g token (LocKind.stream_send stream_id (length buf))
    elim locked [
      | err x ↦ value (g', err x)
      | ok (c, ctx) ↦
          let (conn', r) = q.stream_send c.wrapped stream_id buf fin in
          (do g'' ← release g' c conn' ctx now; value (g'', send_result r))
    ]

  -- with the caller's buffer after the call
  unfoldable pub stream_recv :
      Group q pq → ℕ → ℕ → List ℕ → ℕ → Checked (Group q pq × List ℕ × Outcome q (ℕ × Bool))
  unfolding lock
  stream_recv g token stream_id buf now = do
    (g', locked) ← lock g token (LocKind.stream_recv stream_id)
    elim locked [
      | err x ↦ value (g', buf, err x)
      | ok (c, ctx) ↦
          let (conn', buf', r) = q.stream_recv c.wrapped stream_id buf in
          (do
            g'' ← release g' c conn' ctx now
            value (g'', buf', recv_result (q.stream_finished conn' stream_id) r))
    ]

  -- the match of `recv_with_connection_id` on a locked connection
  abbrev pub recv_locked :
      Group q pq
      → ℕ
      → Conn q
      → LockContext
      → List ℕ
      → RecvInfo
      → ℕ
      → Checked (Group q pq × List ℕ × Outcome q (ℕ × ℕ))
  recv_locked g token c ctx buf info now =
      let (conn', buf', r) = q.recv c.wrapped buf info in
      (do
        g' ← release g c conn' ctx now
        value (g', buf', elim r [ ok size ↦ ok (token, size) | err x ↦ err (quiche x) ]))

  -- `recv_with_connection_id`, with the caller's buffer after the call
  unfoldable pub recv_with_connection_id :
      Group q pq
      → List ℕ
      → List ℕ
      → RecvInfo
      → Option ℕ
      → ℕ
      → Checked (Group q pq × List ℕ × Outcome q (ℕ × ℕ))
  recv_with_connection_id g scid buf info unparker now = elim (get id_discrete scid g.scids) [
    | none ↦ value (g, buf, err not_found)
    | some token ↦ elim (get ℕ_discrete token g.conns) [
      | none ↦ value (g, buf, err not_found)
      | some c ↦ (do
        (c', r) ← try_lock_prv q c LocKind.recv
        let g' = set_conn q pq g token c'
        elim r [
          | ok ctx ↦ recv_locked g' token c' ctx buf info now
          | err x ↦ value (
            elim unparker [
              | none ↦ g'
              | some thread ↦ record g' { unparkers = put ℕ_discrete token thread g.unparkers }
            ],
            buf,
            err busy,
          )
        ])
    ]
  ]

  -- The part of `send` on a locked connection: the readings of the clock are at the release time and
  -- at the unlock.
  unfoldable pub send_locked :
      Group q pq
      → Conn q
      → LockContext
      → List ℕ
      → ℕ
      → ℕ
      → Checked (Group q pq × List ℕ × Outcome q (ℕ × SendInfo))
  send_locked g c ctx buf now unlock_now =
      elim (release_time q c.wrapped now release_timer_threshold) [
        | some t ↦ (do g' ← release g c c.wrapped ctx unlock_now; value (g', buf, err retry))
        | none ↦
            let (conn', buf', r) = q.send (q.on_timeout c.wrapped) buf in
            let ctx' = record ctx { send_done = is_done_error r } in
            (do g' ← release g c conn' ctx' unlock_now; value (g', buf', send_result r))
      ]

  -- `send`, with the caller's buffer after the call
  unfoldable pub send :
      Group q pq → ℕ → List ℕ → ℕ → ℕ → Checked (Group q pq × List ℕ × Outcome q (ℕ × SendInfo))
  unfolding lock send_locked
  send g token buf now unlock_now = do
    (g', locked) ← lock g token LocKind.recv
    elim locked [
      | err x ↦ value (g', buf, err x)
      | ok (c, ctx) ↦ send_locked g' c ctx buf now unlock_now
    ]
