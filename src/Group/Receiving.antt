-- ===== src/Group/Receiving.antt =====
-- crates/poll/src/group.rs: `recv_with_connection_id`, on an idle connection and on one that a guard
-- holds.
use native.Mathlib.Decide.{ℕ_discrete}
use rtt.Prelude.{
  ℕ, ◌≡◌, refl, inl, inr, false, Option, none, some, List, [], ◌∷◌, ◌++◌, value, Option-cases,
  Returns, Returns_bind, subst,
}
use rtt.Prelude.Maps.{get, put, get-put_self, put_cases}
use rtt.Prelude.Io.{ok, err}
use rtt.Api.{quiche, busy, not_found}
use rtt.Net.{RecvInfo}
use rtt.Quiche.{Quiche}
use rtt.Readiness.{PriorityQueue}
use rtt.Conn.{LocKind, LocKind-discrete, need_retry, Conn, LockContext, Outcome}
use rtt.Conn.Frame.{insert-AreRetries}
use rtt.Conn.Handlers.{keep_retry}
use rtt.Conn.Serving.{context, try_lock_prv_free, try_lock_prv_held}
use rtt.Group.{Group, id_discrete, set_conn, unlock}
use rtt.Group.Driving.{release, recv_with_connection_id}
use rtt.Group.Validity.{Registered, IsValid, IsGuarded}
use rtt.Group.Unlocking.{woken, Finished, unlock-Finished}
use rtt.Group.Guards.{locked, release-Finished}

module _ (q : Quiche) (pq : PriorityQueue) where
  -- what a packet for the connection of a token does
  abbrev pub Delivered :
      Group q pq → List ℕ → RecvInfo → Option ℕ → Group q pq × List ℕ × Outcome q (ℕ × ℕ) → Type 0
  Delivered g buf info none t = (t.0 ≡ g) × (t.1 ≡ buf) × (t.2 ≡ err not_found)
  Delivered g buf info (some token) t = elim (get ℕ_discrete token g.conns) [
    | none ↦ (t.0 ≡ g) × (t.1 ≡ buf) × (t.2 ≡ err not_found)
    | some c ↦
        Finished q pq (woken q pq g token) token t.0
        × (t.1 ≡ (q.recv c.wrapped buf info).1)
        × (t.2 ≡ elim (q.recv c.wrapped buf info).2 [
          | ok size ↦ ok (token, size)
          | err x ↦ err (quiche x)
        ])
  ]

  -- Receiving a packet for a connection id in a valid group never panics. For an unknown id the
  -- group and the buffer stay as they are and the error is NotFound. For a registered one the
  -- buffer and the result, with the token, are those of `quiche`, the group is valid again, and
  -- whoever waited for the connection was woken.
  pub recv-Delivered :
      (g : Group q pq) (scid buf : List ℕ) (info : RecvInfo) (unparker : Option ℕ) (now : ℕ)
      → IsValid q pq g
      → Returns
          (recv_with_connection_id q pq g scid buf info unparker now)
          (Delivered g buf info (get id_discrete scid g.scids))
  unfolding recv_with_connection_id LocKind-discrete
  recv-Delivered g scid buf info unparker now v =
      elim (Option-cases (get id_discrete scid g.scids)) [
        | inl u ↦ rw (u, recv_with_connection_id) (refl, refl, refl)
        | inr (token, u) ↦ elim (Option-cases (get ℕ_discrete token g.conns)) [
          | inl e ↦ rw (u, recv_with_connection_id, e, Delivered) (refl, refl, refl)
          | inr (c, e) ↦
              let same = q.recv_same c.wrapped buf info in
              let conn = (q.recv c.wrapped buf info).0 in
              let free = try_lock_prv_free q pq c LocKind.recv (v.idle token c e) refl in
              rw (u, recv_with_connection_id, e, Delivered, free)
                (Returns_bind {P = Finished q pq (woken q pq g token) token} _
                  (release q pq (set_conn q pq g token (locked q pq c LocKind.recv))
                    (locked q pq c LocKind.recv) conn (context q pq c) now)
                  _ (release-Finished q pq g token c LocKind.recv conn false now v e refl refl same)
                  λ g' f. (f, refl, refl))
        ]
      ]

  -- the group after a receiver parked for a connection that a guard holds
  abbrev pub parked : Group q pq → ℕ → Conn q → ℕ → Group q pq
  parked g token c thread = record (set_conn q pq g token (keep_retry q pq c LocKind.recv)) {
    unparkers = put ℕ_discrete token thread g.unparkers;
  }

  parked-IsGuarded :
      (g : Group q pq) (ctx : LockContext) (c : Conn q) (thread : ℕ)
      → IsGuarded q pq g ctx c
      → IsGuarded q pq (parked g ctx.token c thread) ctx (keep_retry q pq c LocKind.recv)
  unfolding need_retry
  parked-IsGuarded g ctx c thread v =
      let reg = v.registered ctx.token c v.held in
      let d = keep_retry q pq c LocKind.recv in
      let new : Registered q pq g.scids ctx.token d = record {
        same_token = reg.same_token;
        lock = record {
          readers = reg.lock.readers;
          no_readers = reg.lock.no_readers;
          small = reg.lock.small;
          retries = insert-AreRetries LocKind.recv c.reties refl reg.lock.retries;
        };
        scid = reg.scid;
      } in
      record {
        next = v.next;
        readiness = v.readiness;
        held = get-put_self ℕ_discrete ctx.token d g.conns;
        count = v.count;
        locked = v.locked;
        exclusive = v.exclusive;
        registered = λ t e k. elim (put_cases ℕ_discrete ctx.token t d e g.conns k) [
          | inl (one, is) ↦ rw (one, is) new
          | inr (other, old) ↦ v.registered t e old
        ];
        idle = λ t e other k. elim (put_cases ℕ_discrete ctx.token t d e g.conns k) [
          | inl (one, is) ↦ absurd (other one)
          | inr (apart, old) ↦ v.idle t e other old
        ];
      }

  recv_parks :
      (g : Group q pq) (ctx : LockContext) (c : Conn q) (scid buf : List ℕ) (info : RecvInfo)
      (thread now : ℕ)
      → IsGuarded q pq g ctx c
      → get id_discrete scid g.scids ≡ some ctx.token
      → recv_with_connection_id q pq g scid buf info (some thread) now
        ≡ value (parked g ctx.token c thread, buf, err busy)
  unfolding recv_with_connection_id LocKind-discrete need_retry
  recv_parks g ctx c scid buf info thread now v u =
      rw (
        u,
        recv_with_connection_id,
        v.held,
        try_lock_prv_held q pq c LocKind.recv v.locked refl refl,
      )

  -- A receiver that gives its unparker and finds the connection of the packet held by the guard
  -- of another thread is told that the connection is busy and keeps its buffer; when that guard
  -- is dropped the receiver is unparked, exactly once and last, the group is valid, and the
  -- connection is deregistered if it is closed.
  pub recv_parked-Woken :
      (g : Group q pq) (ctx : LockContext) (c : Conn q) (scid buf : List ℕ) (info : RecvInfo)
      (thread now unlock_now : ℕ)
      → IsGuarded q pq g ctx c
      → get id_discrete scid g.scids ≡ some ctx.token
      → Returns (recv_with_connection_id q pq g scid buf info (some thread) now) λ t.
        (t.1 ≡ buf)
        × (t.2 ≡ err busy)
        × Returns
            (unlock q pq t.0 ctx unlock_now)
            (Finished q pq (g.unparked ++ (thread ∷ [])) ctx.token)
  recv_parked-Woken g ctx c scid buf info thread now unlock_now v u =
      let g' = parked g ctx.token c thread in
      let waits = get-put_self ℕ_discrete ctx.token thread g.unparkers in
      let one : woken q pq g' ctx.token ≡ g.unparked ++ (thread ∷ []) = rw (woken, waits) in
      let done =
        unlock-Finished q pq g' ctx (keep_retry q pq c LocKind.recv) unlock_now
          (parked-IsGuarded g ctx c thread v) in
      rw (recv_parks g ctx c scid buf info thread now v u) (
        refl,
        refl,
        subst (λ w. Returns (unlock q pq g' ctx unlock_now) (Finished q pq w ctx.token)) one done,
      )
