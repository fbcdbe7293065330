-- ===== src/Group/Operating.antt =====
-- crates/poll/src/group.rs: the operations that take a guard leave the group valid.
use native.Mathlib.Decide.{ℕ_discrete}
use rtt.Prelude.{
  ℕ, ◌≡◌, refl, ◌∙◌, inl, inr, Bool, false, none, some, List, Option-cases, Returns, Returns_bind,
  length,
}
use rtt.Prelude.Maps.{get}
use rtt.Prelude.Io.{err}
use rtt.Api.{not_found, retry}
use rtt.Net.{SendInfo}
use rtt.Quiche.{Quiche}
use rtt.Readiness.{PriorityQueue}
use rtt.Timing.{release_time}
use rtt.Conn.{LocKind, LocKind-discrete, Conn, Outcome}
use rtt.Conn.Serving.{context}
use rtt.Group.{Group, set_conn, release_timer_threshold}
use rtt.Group.Driving.{
  release, send_result, recv_result, is_done_error, stream_send, stream_recv, send, send_locked,
}
use rtt.Group.Validity.{IsValid}
use rtt.Group.Unlocking.{woken, Finished}
use rtt.Group.Guards.{locked, lock_lem, lock_unknown, release-Finished}

module _ (q : Quiche) (pq : PriorityQueue) where
  -- What an operation on the connection of a token does: on an unknown token nothing, else it
  -- finishes with a result that the connection before it decides.
  abbrev pub Answered :
      {A : Type 0} → Group q pq → ℕ → (Conn q → Outcome q A) → Group q pq × Outcome q A → Type 0
  Answered g token result t = elim (get ℕ_discrete token g.conns) [
    | none ↦ (t.0 ≡ g) × (t.1 ≡ err not_found)
    | some c ↦ Finished q pq (woken q pq g token) token t.0 × (t.1 ≡ result c)
  ]

  -- the same, of an operation that fills the caller's buffer
  abbrev pub Filled :
      {A : Type 0}
      → Group q pq
      → ℕ
      → List ℕ
      → (Conn q → List ℕ × Outcome q A)
      → Group q pq × List ℕ × Outcome q A
      → Type 0
  Filled g token buf result t = elim (get ℕ_discrete token g.conns) [
    | none ↦ (t.0 ≡ g) × (t.1 ≡ buf) × (t.2 ≡ err not_found)
    | some c ↦
        Finished q pq (woken q pq g token) token t.0 × (t.1 ≡ (result c).0) × (t.2 ≡ (result c).1)
  ]

  -- Writing to a stream in a valid group never panics. For an unknown token the group stays as it
  -- is and the error is NotFound. For a registered one the result is that of `quiche`, with
  -- `Done` as a retry, the group is valid again, and whoever waited for the connection was woken.
  pub stream_send-Answered :
      (g : Group q pq) (token id : ℕ) (buf : List ℕ) (fin : Bool) (now : ℕ)
      → IsValid q pq g
      → Returns
          (stream_send q pq g token id buf fin now)
          (Answered g token λ c. send_result q pq (q.stream_send c.wrapped id buf fin).1)
  unfolding stream_send LocKind-discrete
  stream_send-Answered g token id buf fin now v =
      elim (Option-cases (get ℕ_discrete token g.conns)) [
        | inl e ↦
            rw (lock_unknown q pq g token (LocKind.stream_send id (length buf)) e, Answered, e)
              (refl, refl)
        | inr (c, e) ↦
            let kind = LocKind.stream_send id (length buf) in
            let same = q.stream_send_same c.wrapped id buf fin in
            let conn = (q.stream_send c.wrapped id buf fin).0 in
            rw (lock_lem q pq g token c kind v e refl, Answered, e)
              (Returns_bind {P = Finished q pq (woken q pq g token) token} _
                (release q pq (set_conn q pq g token (locked q pq c kind)) (locked q pq c kind) conn
                  (context q pq c) now)
                _ (release-Finished q pq g token c kind conn false now v e refl refl same)
                λ g' f. (f, refl))
      ]

  abbrev pub received : List ℕ → ℕ → Conn q → List ℕ × Outcome q (ℕ × Bool)
  received buf id c =
      let (conn', buf', r) = q.stream_recv c.wrapped id buf in
      (buf', recv_result q pq (q.stream_finished conn' id) r)

  -- Reading from a stream in a valid group never panics. For an unknown token the group and the
  -- buffer stay as they are and the error is NotFound. For a registered one the buffer and the
  -- result are those of `quiche`, with `Done` as the end of a finished stream and else as a
  -- retry, the group is valid again, and whoever waited for the connection was woken.
  pub stream_recv-Filled :
      (g : Group q pq) (token id : ℕ) (buf : List ℕ) (now : ℕ)
      → IsValid q pq g
      → Returns (stream_recv q pq g token id buf now) (Filled g token buf (received buf id))
  unfolding stream_recv LocKind-discrete
  stream_recv-Filled g token id buf now v = elim (Option-cases (get ℕ_discrete token g.conns)) [
    | inl e ↦
        rw (lock_unknown q pq g token (LocKind.stream_recv id) e, Filled, e) (refl, refl, refl)
    | inr (c, e) ↦
        let kind = LocKind.stream_recv id in
        let same = q.stream_recv_same c.wrapped id buf in
        let conn = (q.stream_recv c.wrapped id buf).0 in
        rw (lock_lem q pq g token c kind v e refl, Filled, e)
          (Returns_bind {P = Finished q pq (woken q pq g token) token} _
            (release q pq (set_conn q pq g token (locked q pq c kind)) (locked q pq c kind) conn
              (context q pq c) now)
            _ (release-Finished q pq g token c kind conn false now v e refl refl same)
            λ g' f. (f, refl, refl))
  ]

  -- what `send` fills the buffer with, and returns
  abbrev pub sent : List ℕ → ℕ → Conn q → List ℕ × Outcome q (ℕ × SendInfo)
  sent buf now c = elim (release_time q c.wrapped now release_timer_threshold) [
    | some t ↦ (buf, err retry)
    | none ↦
        let (conn', buf', r) = q.send (q.on_timeout c.wrapped) buf in (buf', send_result q pq r)
  ]

  -- Sending a packet of a valid group never panics. For an unknown token the group and the buffer
  -- stay as they are and the error is NotFound. For a registered one the buffer and the result
  -- are those that the release time and `quiche` decide (a release time ahead, and `Done`, ask
  -- for a retry), the group is valid again, and whoever waited for the connection was woken.
  pub send-Filled :
      (g : Group q pq) (token : ℕ) (buf : List ℕ) (now unlock_now : ℕ)
      → IsValid q pq g
      → Returns (send q pq g token buf now unlock_now) (Filled g token buf (sent buf now))
  unfolding send send_locked LocKind-discrete
  send-Filled g token buf now unlock_now v = elim (Option-cases (get ℕ_discrete token g.conns)) [
    | inl e ↦ rw (lock_unknown q pq g token LocKind.recv e, Filled, e) (refl, refl, refl)
    | inr (c, e) ↦
        let kind = LocKind.recv in
        let g1 = set_conn q pq g token (locked q pq c kind) in
        elim (Option-cases (release_time q c.wrapped now release_timer_threshold)) [
          | inl due ↦
              let timed = q.on_timeout c.wrapped in
              let done = is_done_error q pq (q.send timed buf).2 in
              let same = q.send_same timed buf ∙ q.on_timeout_same c.wrapped in
              rw (lock_lem q pq g token c kind v e refl, Filled, e, sent, due, send_locked)
                (Returns_bind {P = Finished q pq (woken q pq g token) token} _
                  (release q pq g1 (locked q pq c kind) (q.send timed buf).0
                    (record { token = c.token; lock_count = c.lock_count; send_done = done })
                    unlock_now)
                  _ (release-Finished q pq g token c kind _ done unlock_now v e refl refl same)
                  λ g' f. (f, refl, refl))
          | inr (at, later) ↦
              rw (lock_lem q pq g token c kind v e refl, Filled, e, sent, later, send_locked)
                (Returns_bind {P = Finished q pq (woken q pq g token) token} _
                  (release q pq g1 (locked q pq c kind) c.wrapped (context q pq c) unlock_now) _
                  (release-Finished q pq g token c kind c.wrapped false unlock_now v e refl refl
                    refl)
                  λ g' f. (f, refl, refl))
        ]
  ]
