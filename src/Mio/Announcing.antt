-- ===== src/Mio/Announcing.antt =====
-- crates/mio/src/group.rs: `poll` hands out the events for its user only, and never none.
use rtt.Prelude.{
  ℕ, ◌≡◌, ◌≢◌, refl, ap, Bool, true, false, Option, none, some, List, [], ◌∷◌, ◌++◌, value, ◌>>=◌,
  IfReturns, IfReturns_bind, IfReturns_eq, IfReturns_at, IfReturns_weaken,
}
use rtt.Prelude.Io.{ok, err, IoResult}
use rtt.Api.{EventKind, Event}
use rtt.Quiche.{Quiche, Endpoint}
use rtt.Readiness.{PriorityQueue}
use rtt.Group.Driving
use rtt.Udp.{UdpSocket}
use rtt.Mio.{on_quic_send}
use rtt.Mio.Looping.{Bounds, Rest, Round, filter_event, filter_events, mio_poll_once, poll}

-- whether the loop of `poll` keeps the events of a kind from its user
abbrev pub is_packet : EventKind → Bool
is_packet EventKind.send = true
is_packet EventKind.recv = true
is_packet _ = false

-- No event asks to send or to receive a packet.
abbrev pub AreForUser : List Event → Type 0
AreForUser [] = Unit {0}
AreForUser (e ∷ es) = (is_packet e.kind ≡ false) × AreForUser es

AreForUser-snoc :
    (es : List Event) (e : Event)
    → AreForUser es
    → is_packet e.kind ≡ false
    → AreForUser (es ++ (e ∷ []))
AreForUser-snoc [] e h k = (k, tt)
AreForUser-snoc (f ∷ es) e h k = (h.0, AreForUser-snoc es e h.1 k)

-- what `poll` may hand out
abbrev HandsOut : Option (IoResult (List Event)) → Type 0
HandsOut none = Unit {0}
HandsOut (some (err x)) = Unit {0}
HandsOut (some (ok events)) = (events ≢ []) × AreForUser events

module _ (q : Quiche) (e : Endpoint q) (pq : PriorityQueue) (u : UdpSocket) where
  abbrev Filtered : Bounds q e pq u × IoResult (List Event) → Type 0
  Filtered (m, ok events) = AreForUser events
  Filtered (m, err x) = Unit {0}

  after_send :
      (rest : Rest q e pq u) (events : List Event) (m : Bounds q e pq u) (r : IoResult (Unit {0}))
      → IfReturns (rest events m) Filtered
      → IfReturns (elim r [ err x ↦ value (m, err x) | ok t ↦ rest events m ]) Filtered
  after_send rest events m (err x) h = tt
  after_send rest events m (ok t) h = h

  -- Whatever the rest of the loop does, it keeps its user's events only.
  abbrev IsFiltering : Rest q e pq u → Type 0
  IsFiltering rest =
      (events : List Event) (m : Bounds q e pq u)
      → AreForUser events
      → IfReturns (rest events m) Filtered

  kept-Filtered :
      (kind : EventKind) (event : Event) (nows : ℕ → ℕ × ℕ) (rest : Rest q e pq u)
      (events : List Event) (m : Bounds q e pq u)
      → event.kind ≡ kind
      → IsFiltering rest
      → AreForUser events
      → IfReturns (filter_event q e pq u kind event nows rest events m) Filtered
  unfolding filter_event
  kept-Filtered EventKind.send event nows rest events m k ih h =
      let sent = on_quic_send q e pq u m event.token (nows event.token).0 (nows event.token).1 in
      IfReturns_bind Filtered sent _
        (IfReturns_eq _ sent λ t x. after_send rest events t.0 t.1 (ih events t.0 h))
  kept-Filtered EventKind.recv event nows rest events m k ih h = ih events m h
  kept-Filtered EventKind.connected event nows rest events m k ih h =
      ih _ m (AreForUser-snoc events event h (ap is_packet k))
  kept-Filtered EventKind.accept event nows rest events m k ih h =
      ih _ m (AreForUser-snoc events event h (ap is_packet k))
  kept-Filtered EventKind.closed event nows rest events m k ih h =
      ih _ m (AreForUser-snoc events event h (ap is_packet k))
  kept-Filtered EventKind.stream_open_bidi event nows rest events m k ih h =
      ih _ m (AreForUser-snoc events event h (ap is_packet k))
  kept-Filtered EventKind.stream_open_uni event nows rest events m k ih h =
      ih _ m (AreForUser-snoc events event h (ap is_packet k))
  kept-Filtered EventKind.stream_accept event nows rest events m k ih h =
      ih _ m (AreForUser-snoc events event h (ap is_packet k))
  kept-Filtered EventKind.stream_send event nows rest events m k ih h =
      ih _ m (AreForUser-snoc events event h (ap is_packet k))
  kept-Filtered EventKind.stream_recv event nows rest events m k ih h =
      ih _ m (AreForUser-snoc events event h (ap is_packet k))
  kept-Filtered EventKind.read_lock event nows rest events m k ih h =
      ih _ m (AreForUser-snoc events event h (ap is_packet k))

  filter_events-IsFiltering :
      (ready : List Event) (nows : ℕ → ℕ × ℕ) → IsFiltering (filter_events q e pq u ready nows)
  unfolding filter_events
  filter_events-IsFiltering [] nows events m h = h
  filter_events-IsFiltering (event ∷ ready) nows events m h =
      kept-Filtered event.kind event nows _ events m refl (filter_events-IsFiltering ready nows) h

  poll_kept :
      (rounds : List (Round q e pq u)) (m : Bounds q e pq u) (thread : ℕ)
      → IfReturns (poll q e pq u rounds m thread) λ t. HandsOut t.1
  unfolding poll
  poll_kept [] m thread = tt
  poll_kept (round ∷ rounds) m thread =
      let m0 = round.others m in
      let P : Bounds q e pq u × Option (IoResult (List Event)) → Type 0 = λ t. HandsOut t.1 in
      let polled = Driving.poll q pq m0.group [] round.now in
      IfReturns_bind P polled _ (
        IfReturns_eq _ polled λ t x.
          let filtered = filter_events q e pq u t.1 round.nows [] (record m0 { group = t.0 }) in
          IfReturns_bind P filtered _ (
            IfReturns_weaken Filtered _ filtered
              (filter_events-IsFiltering t.1 round.nows [] (record m0 { group = t.0 }) tt)
              λ f k. after_filter round rounds f.0 thread f.1 k (λ m'. poll_kept rounds m' thread)))
    where
      after_poll :
          (rounds : List (Round q e pq u)) (m : Bounds q e pq u) (thread : ℕ)
          (r : Option (IoResult (Unit {0})))
          → ((m' : Bounds q e pq u) → IfReturns (poll q e pq u rounds m' thread) λ t. HandsOut t.1)
          → IfReturns {A = Bounds q e pq u × Option (IoResult (List Event))}
              (elim r [
                | none ↦ value (m, none)
                | some (err x) ↦ value (m, some (err x))
                | some (ok t) ↦ poll q e pq u rounds m thread
              ])
              λ t. HandsOut t.1
      after_poll rounds m thread none ih = tt
      after_poll rounds m thread (some (err x)) ih = tt
      after_poll rounds m thread (some (ok t)) ih = ih m

      after_filter :
          (round : Round q e pq u) (rounds : List (Round q e pq u)) (m : Bounds q e pq u)
          (thread : ℕ) (r : IoResult (List Event))
          → Filtered (m, r)
          → ((m' : Bounds q e pq u) → IfReturns (poll q e pq u rounds m' thread) λ t. HandsOut t.1)
          → IfReturns {A = Bounds q e pq u × Option (IoResult (List Event))}
              (elim r [
                | err x ↦ value (m, some (err x))
                | ok (event ∷ events) ↦ value (m, some (ok (event ∷ events)))
                | ok [] ↦ mio_poll_once q e pq u m round.polled thread >>= (λ p. elim p.1 [
                  | none ↦ value (p.0, none)
                  | some (err x) ↦ value (p.0, some (err x))
                  | some (ok t) ↦ poll q e pq u rounds p.0 thread
                ])
              ])
              λ t. HandsOut t.1
      after_filter round rounds m thread (err x) k ih = tt
      after_filter round rounds m thread (ok (event ∷ events)) k ih = (λ e. cc, k)
      after_filter round rounds m thread (ok []) k ih =
          let once = mio_poll_once q e pq u m round.polled thread in
          IfReturns_bind (λ (t : Bounds q e pq u × Option (IoResult (List Event))). HandsOut t.1)
            once _ (IfReturns_eq _ once λ p x. after_poll rounds p.0 thread p.1 ih)

  -- If `poll` of a bound group returns events, there is at least one, and none of them asks to
  -- send or to receive a packet.
  pub poll-HandsOut :
      (rounds : List (Round q e pq u)) (m t : Bounds q e pq u) (thread : ℕ) (events : List Event)
      → poll q e pq u rounds m thread ≡ value (t, some (ok events))
      → (events ≢ []) × AreForUser events
  poll-HandsOut rounds m t thread events h =
      IfReturns_at (λ t. HandsOut t.1) (poll q e pq u rounds m thread) (poll_kept rounds m thread) h
