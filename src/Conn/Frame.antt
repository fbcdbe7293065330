-- ===== src/Conn/Frame.antt =====
-- crates/poll/src/conn.rs: what every handler of `unlock` leaves alone.
use rtt.Prelude.{
  ℕ, ◌≡◌, refl, ◌∙◌, inl, inr, Bool, true, false, Option, none, List, [], ltb, if◌then◌else◌, arith,
  Bool-cases, Option-cases, Returns,
}
use rtt.Prelude.Collections.{contains, insert, contains-insert, beq_iff}
use rtt.Prelude.Io.{Result, ok, err}
use rtt.Api.{Event, EventKind, uni, bidi, is_bidi, is_local}
use rtt.Quiche.{Quiche, endpoint}
use rtt.Readiness.{PriorityQueue, Readiness, insert_event}
use rtt.Readiness.View.{IsValid, insert_event-IsValid}
use rtt.Conn.{
  LocKind, unlocked, send, recv, close, stream_open, stream_send, stream_recv, stream_close,
  read_lock, LocKind-discrete, need_retry, Conn, Outcome, failure, stream_close_prv, stop_receive,
  shutdown_send,
}
use rtt.Conn.Handlers.{event, handle_retry}

-- Every operation that waits for a retry is one that can be retried.
abbrev pub AreRetries : List LocKind → Type 0
AreRetries kinds =
    (kind : LocKind) → contains LocKind-discrete kind kinds ≡ true → need_retry kind ≡ true

pub insert-AreRetries :
    (kind : LocKind) (kinds : List LocKind)
    → need_retry kind ≡ true
    → AreRetries kinds
    → AreRetries (insert LocKind-discrete kind kinds)
insert-AreRetries kind kinds h all other c = ground (
  arith,
  contains-insert LocKind-discrete kind other kinds,
  all other,
  beq_iff LocKind-discrete kind other,
)

module _ (q : Quiche) where
  stop_receive_same :
      (c : q.Connection) (id e : ℕ) → endpoint q (stop_receive q c id e).0 ≡ endpoint q c
  unfolding stop_receive
  stop_receive_same c id e = ground (arith, q.stream_shutdown_same c id e)

  shutdown_send_same :
      (c : q.Connection) (id : ℕ) → endpoint q (shutdown_send q c id).0 ≡ endpoint q c
  unfolding shutdown_send
  shutdown_send_same c id = q.stream_send_same c id [] true

  pub stream_close_prv_same :
      (c : q.Connection) (id e : ℕ) → endpoint q (stream_close_prv q c id e).0 ≡ endpoint q c
  unfolding stream_close_prv
  stream_close_prv_same c id e = elim (Bool-cases (is_bidi id)) [
    | inl two ↦
        rw two (both (stop_receive q c id e).0 (stop_receive q c id e).1 ∙ stop_receive_same c id e)
    | inr one ↦ elim (Bool-cases (is_local id (q.is_server c))) [
      | inl own ↦ rw (one, own) (shutdown_send_same c id)
      | inr other ↦ rw (one, other) (stop_receive_same c id e)
    ]
  ]
    where
      both :
          (d : q.Connection) (r : Outcome q (Unit {0}))
          → endpoint q
              (elim r as (λ _. q.Connection × Outcome q (Unit {0})) [
                | ok u ↦ shutdown_send q d id
                | err x ↦ (d, err x)
              ]).0
            ≡ endpoint q d
      both d (ok u) = shutdown_send_same d id
      both d (err x) = refl

module _ (q : Quiche) (pq : PriorityQueue) where
  pub record Frame (c : Conn q) (r : Readiness pq) (t : Conn q × Readiness pq) : Type 0 where
    pub token : t.0.token ≡ c.token
    pub locker : t.0.locker ≡ c.locker
    pub lock_count : t.0.lock_count ≡ c.lock_count
    pub read_lock_count : t.0.read_lock_count ≡ c.read_lock_count
    pub bidi_next : t.0.local_stream_bidi_next ≡ c.local_stream_bidi_next
    pub uni_next : t.0.local_stream_uni_next ≡ c.local_stream_uni_next
    pub same : endpoint q t.0.wrapped ≡ endpoint q c.wrapped
    pub retries : AreRetries c.reties → AreRetries t.0.reties
    pub readiness : IsValid pq r → IsValid pq t.1

  pub Frame-refl : (c : Conn q) (r : Readiness pq) → Frame c r (c, r)
  Frame-refl c r = record {
    token = refl;
    locker = refl;
    lock_count = refl;
    read_lock_count = refl;
    bidi_next = refl;
    uni_next = refl;
    same = refl;
    retries = λ h. h;
    readiness = λ h. h;
  }

  pub Frame-trans :
      {c : Conn q} {r : Readiness pq} {t u : Conn q × Readiness pq}
      → Frame c r t
      → Frame t.0 t.1 u
      → Frame c r u
  Frame-trans f g = record {
    token = g.token ∙ f.token;
    locker = g.locker ∙ f.locker;
    lock_count = g.lock_count ∙ f.lock_count;
    read_lock_count = g.read_lock_count ∙ f.read_lock_count;
    bidi_next = g.bidi_next ∙ f.bidi_next;
    uni_next = g.uni_next ∙ f.uni_next;
    same = g.same ∙ f.same;
    retries = λ h. g.retries (f.retries h);
    readiness = λ h. g.readiness (f.readiness h);
  }

  pub make-Frame :
      (c : Conn q) (r r' : Readiness pq) (conn : q.Connection) (ties : List LocKind)
      (bidi_seen uni_seen : Option ℕ) (established : Bool)
      → endpoint q conn ≡ endpoint q c.wrapped
      → (AreRetries c.reties → AreRetries ties)
      → (IsValid pq r → IsValid pq r')
      → Frame c r (
        record c {
          wrapped = conn;
          reties = ties;
          remote_stream_bidi_seen = bidi_seen;
          remote_stream_uni_seen = uni_seen;
          established = established;
        },
        r',
      )
  make-Frame c r r' conn ties bs us est h k l = record {
    token = refl;
    locker = refl;
    lock_count = refl;
    read_lock_count = refl;
    bidi_next = refl;
    uni_next = refl;
    same = h;
    retries = k;
    readiness = l;
  }

  -- Another connection of the same role, one more event, and both.
  pub wrapped-Frame :
      (c : Conn q) (r : Readiness pq) (conn : q.Connection)
      → endpoint q conn ≡ endpoint q c.wrapped
      → Frame c r (record c { wrapped = conn }, r)
  wrapped-Frame c r conn h = make-Frame c r r conn _ _ _ _ h (λ k. k) (λ k. k)

  pub insert-Frame :
      (c : Conn q) (r : Readiness pq) (e : Event) (delay : Option ℕ)
      → Frame c r (c, insert_event pq r e delay)
  insert-Frame c r e delay =
      make-Frame c r (insert_event pq r e delay) c.wrapped _ _ _ _ refl (λ k. k)
        (insert_event-IsValid pq r e delay)

  pub notify-Frame :
      (c : Conn q) (r : Readiness pq) (conn : q.Connection) (e : Event)
      → endpoint q conn ≡ endpoint q c.wrapped
      → Frame c r (record c { wrapped = conn }, insert_event pq r e none)
  notify-Frame c r conn e h =
      make-Frame c r (insert_event pq r e none) conn _ _ _ _ h (λ k. k)
        (insert_event-IsValid pq r e none)

  keep-Frame :
      (c : Conn q) (r : Readiness pq) (kind : LocKind)
      → need_retry kind ≡ true
      → Frame c r (record c { reties = insert LocKind-discrete kind c.reties }, r)
  keep-Frame c r kind h =
      make-Frame c r r c.wrapped (insert LocKind-discrete kind c.reties) _ _ _ refl
        (insert-AreRetries kind c.reties h) (λ k. k)

  pub handle_retry-Frame :
      (c : Conn q) (r : Readiness pq) (kind : LocKind)
      → need_retry kind ≡ true
      → Returns (handle_retry q pq c r kind) (Frame c r)
  unfolding handle_retry need_retry
  handle_retry-Frame c r unlocked h = cc
  handle_retry-Frame c r send h = Frame-refl c r
  handle_retry-Frame c r recv h = insert-Frame c r _ none
  handle_retry-Frame c r (close app e reason) h =
      let same = q.close_same c.wrapped app e reason in
      elim (Option-cases (failure q (q.close c.wrapped app e reason).1)) [
        | inl done ↦ rw done (wrapped-Frame c r _ same)
        | inr (x, failed) ↦ rw failed (notify-Frame c r _ _ same)
      ]
  handle_retry-Frame c r (stream_open uni) h =
      elim (Bool-cases (ltb 0 (q.peer_streams_left_uni c.wrapped))) [
        | inl t ↦ rw t (insert-Frame c r _ none)
        | inr t ↦ rw t (keep-Frame c r (stream_open uni) refl)
      ]
  handle_retry-Frame c r (stream_open bidi) h =
      elim (Bool-cases (ltb 0 (q.peer_streams_left_bidi c.wrapped))) [
        | inl t ↦ rw t (insert-Frame c r _ none)
        | inr t ↦ rw t (keep-Frame c r (stream_open bidi) refl)
      ]
  handle_retry-Frame c r (stream_send id len) h =
      sent (q.stream_writable c.wrapped id len).0 (q.stream_writable c.wrapped id len).1
        (q.stream_writable_same c.wrapped id len)
    where
      sent :
          (conn : q.Connection) (result : Result q.QError Bool)
          → endpoint q conn ≡ endpoint q c.wrapped
          → Frame c r (elim result [
            | ok writable ↦
                if writable
                then (
                  record c { wrapped = conn },
                  insert_event pq r
                      (event q pq (record c { wrapped = conn }) EventKind.stream_send false id)
                      none,
                )
                else (record c { wrapped = conn }, r)
            | err x ↦ (
              record c { wrapped = conn },
              insert_event pq r
                  (event q pq (record c { wrapped = conn }) EventKind.stream_send true id)
                  none,
            )
          ])
      sent conn (ok true) same = notify-Frame c r conn _ same
      sent conn (ok false) same = wrapped-Frame c r conn same
      sent conn (err x) same = notify-Frame c r conn _ same
  handle_retry-Frame c r (stream_recv id) h = insert-Frame c r _ none
  handle_retry-Frame c r (stream_close id e) h =
      wrapped-Frame c r _ (stream_close_prv_same q c.wrapped id e)
  handle_retry-Frame c r read_lock h = insert-Frame c r _ none
