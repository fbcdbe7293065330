-- ===== src/Mio/Polling.antt =====
-- crates/mio/src/group.rs: `poll`, with `mio_poll_once`, keeps a bound group sound.
use rtt.Prelude.{
  ℕ, ◌≡◌, sym, subst, inl, inr, true, false, Bool, Option, none, some, List, [], ◌∷◌, ◌==◌,
  Option-cases, Bool-cases, length, Checked, value, ◌>>=◌, IfReturns, IfReturns_chain,
}
use rtt.Prelude.Io.{ok, err, IoResult, Result-cases}
use rtt.Api.{EventKind, Event}
use rtt.Quiche.{Quiche, Endpoint}
use rtt.Readiness.{PriorityQueue}
use rtt.Group.{Group}
use rtt.Group.Driving as Driving
use rtt.Group.Holding.{Shared, poll-Shared}
use rtt.Udp.{UdpSocket}
use rtt.Mio.{Bound, on_quic_send}
use rtt.Mio.Looping.{
  MioEvent, Round, Tries, Rest, on_mio_events, mio_poll_once, read_ready, write_ready, filter_event,
  filter_events, poll,
}
use rtt.Mio.Keeping.{IsSound, regroup-IsSound, on_quic_send-Sound, on_udp_send-Sound}
use rtt.Mio.Receiving.{AreActs, acted, AllSteps, on_udp_recv-Sound}

module _ (q : Quiche) (e : Endpoint q) (pq : PriorityQueue) (u : UdpSocket) where
  abbrev Bounds : Type 0
  Bounds = Bound q e pq u

  abbrev Polled : Type 0
  Polled = IoResult (List (MioEvent × Tries q e pq u))

  abbrev IsSoundAfter : {A : Type 0} → Checked (Bounds × A) → Type 0
  IsSoundAfter m = IfReturns m (λ t. IsSound q e pq u t.0)

  abbrev pub AreFollowed : List (MioEvent × Tries q e pq u) → Type 0
  AreFollowed [] = Unit {0}
  AreFollowed (x ∷ xs) = AllSteps q e pq u x.1 × AreFollowed xs

  abbrev pub PollsActs : Polled → Type 0
  PollsActs (err x) = Unit {0}
  PollsActs (ok events) = AreFollowed events

  -- What other threads do before each round, and while the thread is parked, is critical
  -- sections on the group.
  abbrev pub AreRounds : List (Round q e pq u) → Type 0
  AreRounds [] = Unit {0}
  AreRounds (round ∷ rounds) =
      ((m : Bounds)
        → (g : Group q pq) × AreActs q e pq u m.group g × (round.others m ≡ record m { group = g }))
      × PollsActs round.polled
      × AreRounds rounds

  regrouped :
      (m : Bounds) (g : Group q pq)
      → IsSound q e pq u m
      → Shared q pq g
      → IsSound q e pq u (record m { group = g })
  regrouped m g v w = regroup-IsSound q e pq u m g m.acceptor v w

  read_ready-Sound :
      (readable : Bool) (m : Bounds) (token : ℕ) (tries : Tries q e pq u) (thread : ℕ)
      → AllSteps q e pq u tries
      → IsSound q e pq u m
      → IsSoundAfter (read_ready q e pq u readable m token tries thread)
  read_ready-Sound true m token tries thread h v =
      on_udp_recv-Sound q e pq u tries m token thread h v
  read_ready-Sound false m token tries thread h v = v

  write_ready-Sound :
      (writable : Bool) (m : Bounds) (token : ℕ)
      → IsSound q e pq u m
      → IsSoundAfter (write_ready q e pq u writable m token)
  write_ready-Sound true m token v = on_udp_send-Sound q e pq u m token v
  write_ready-Sound false m token v = v

  -- the part of the loop of `mio_poll_once` after the reading
  abbrev write_on :
      MioEvent
      → (Bounds → Checked (Bounds × Option (IoResult (Unit {0}))))
      → Bounds
      → Option (IoResult (Unit {0}))
      → Checked (Bounds × Option (IoResult (Unit {0})))
  write_on event next m read = elim read [
    | none ↦ value (m, none)
    | some (err x) ↦ value (m, some (err x))
    | some (ok t) ↦ (do
      (m2, written) ← write_ready q e pq u event.writable m event.token
      elim written [ err x ↦ value (m2, some (err x)) | ok t' ↦ next m2 ])
  ]

  write_on-Sound :
      (event : MioEvent) (next : Bounds → Checked (Bounds × Option (IoResult (Unit {0}))))
      (m : Bounds) (read : Option (IoResult (Unit {0})))
      → ((m' : Bounds) → IsSound q e pq u m' → IsSoundAfter (next m'))
      → IsSound q e pq u m
      → IsSoundAfter (write_on event next m read)
  write_on-Sound event next m none k v = v
  write_on-Sound event next m (some (err x)) k v = v
  write_on-Sound event next m (some (ok t)) k v =
      IfReturns_chain {P = λ t. IsSound q e pq u t.0} _
        (write_ready q e pq u event.writable m event.token) _
        (write_ready-Sound event.writable m event.token v)
        λ s w. elim (Result-cases s.1) [ inr (x, h) ↦ rw h w | inl (t', h) ↦ rw h (k s.0 w) ]

  on_mio_events-Sound :
      (events : List (MioEvent × Tries q e pq u)) (m : Bounds) (thread : ℕ)
      → AreFollowed events
      → IsSound q e pq u m
      → IsSoundAfter (on_mio_events q e pq u events m thread)
  unfolding on_mio_events
  on_mio_events-Sound [] m thread h v = v
  on_mio_events-Sound ((event, tries) ∷ rest) m thread h v =
      let next =
        λ (m' : Bounds) (w : IsSound q e pq u m'). on_mio_events-Sound rest m' thread h.1 w in
      elim (Bool-cases (event.token == length m.sockets)) [
        | inl wakes ↦ rw (wakes, on_mio_events) (next m v)
        | inr other ↦
            rw (other, on_mio_events)
              (IfReturns_chain {P = λ t. IsSound q e pq u t.0} _
                (read_ready q e pq u event.readable m event.token tries thread) _
                (read_ready-Sound event.readable m event.token tries thread h.0 v)
                λ t w.
                  write_on-Sound event (λ m'. on_mio_events q e pq u rest m' thread) t.0 t.1 next w)
      ]

  mio_poll_once-Sound :
      (m : Bounds) (polled : Polled) (thread : ℕ)
      → PollsActs polled
      → IsSound q e pq u m
      → IsSoundAfter (mio_poll_once q e pq u m polled thread)
  unfolding mio_poll_once
  mio_poll_once-Sound m (err x) thread h v = v
  mio_poll_once-Sound m (ok events) thread h v = on_mio_events-Sound events m thread h v

  -- The rest of the loop keeps what it is given sound.
  abbrev KeepsOn : Rest q e pq u → Type 0
  KeepsOn rest =
      (events : List Event) (m : Bounds) → IsSound q e pq u m → IsSoundAfter (rest events m)

  filter_event-Sound :
      (kind : EventKind) (event : Event) (nows : ℕ → ℕ × ℕ) (rest : Rest q e pq u)
      (events : List Event) (m : Bounds)
      → KeepsOn rest
      → IsSound q e pq u m
      → IsSoundAfter (filter_event q e pq u kind event nows rest events m)
  unfolding filter_event
  filter_event-Sound EventKind.send event nows rest events m k v =
      let (now, unlock_now) = nows event.token in
      IfReturns_chain {P = λ t. IsSound q e pq u t.0} _
        (on_quic_send q e pq u m event.token now unlock_now) _
        (on_quic_send-Sound q e pq u m event.token now unlock_now v)
        λ t w. elim (Result-cases t.1) [ inr (x, h) ↦ rw h w | inl (t', h) ↦ rw h (k events t.0 w) ]
  filter_event-Sound EventKind.recv event nows rest events m k v = k events m v
  filter_event-Sound _ event nows rest events m k v = k _ m v

  filter_events-Sound :
      (ready : List Event) (nows : ℕ → ℕ × ℕ) (events : List Event) (m : Bounds)
      → IsSound q e pq u m
      → IsSoundAfter (filter_events q e pq u ready nows events m)
  unfolding filter_events
  filter_events-Sound [] nows events m v = v
  filter_events-Sound (event ∷ ready) nows events m v =
      filter_event-Sound event.kind event nows (filter_events q e pq u ready nows) events m
        (λ kept m' w. filter_events-Sound ready nows kept m' w) v

  -- the end of a round of `poll`, for the events that it keeps
  abbrev end_round :
      (Bounds → Checked (Bounds × Option (IoResult (List Event))))
      → Polled
      → ℕ
      → Bounds
      → IoResult (List Event)
      → Checked (Bounds × Option (IoResult (List Event)))
  end_round next polled thread m filtered = elim filtered [
    | err x ↦ value (m, some (err x))
    | ok (event ∷ events) ↦ value (m, some (ok (event ∷ events)))
    | ok [] ↦ (do
      (m2, polled) ← mio_poll_once q e pq u m polled thread
      elim polled [
        | none ↦ value (m2, none)
        | some (err x) ↦ value (m2, some (err x))
        | some (ok t) ↦ next m2
      ])
  ]

  end_round-Sound :
      (next : Bounds → Checked (Bounds × Option (IoResult (List Event)))) (polled : Polled)
      (thread : ℕ) (m : Bounds) (filtered : IoResult (List Event))
      → ((m' : Bounds) → IsSound q e pq u m' → IsSoundAfter (next m'))
      → PollsActs polled
      → IsSound q e pq u m
      → IsSoundAfter (end_round next polled thread m filtered)
  end_round-Sound next polled thread m (err x) k h v = v
  end_round-Sound next polled thread m (ok (event ∷ events)) k h v = v
  end_round-Sound next polled thread m (ok []) k h v =
      IfReturns_chain {P = λ t. IsSound q e pq u t.0} _ (mio_poll_once q e pq u m polled thread) _
        (mio_poll_once-Sound m polled thread h v)
        λ t w. elim (Option-cases t.1) [
          | inl none_yet ↦ rw none_yet w
          | inr (r, some_result) ↦ elim (Result-cases r) [
            | inr (x, failed) ↦ rw (some_result, failed) w
            | inl (t', done) ↦ rw (some_result, done) (k t.0 w)
          ]
        ]

  -- Polling a sound bound group keeps it sound, if it returns.
  pub poll-Sound :
      (rounds : List (Round q e pq u)) (m : Bounds) (thread : ℕ)
      → AreRounds rounds
      → IsSound q e pq u m
      → IsSoundAfter (poll q e pq u rounds m thread)
  unfolding poll
  poll-Sound [] m thread h v = v
  poll-Sound (round ∷ rounds) m thread h v =
      let (g, reached, is) = h.0 m in
      let sound : IsSound q e pq u (round.others m) =
        subst (IsSound q e pq u) (sym is)
          (regrouped m g v (acted q e pq u m.group g reached v.group)) in
      let m0 = round.others m in
      IfReturns_chain {P = λ t. Shared q pq t.0} _ (Driving.poll q pq m0.group [] round.now) _
        (poll-Shared q pq m0.group round.now sound.group)
        λ t w.
          IfReturns_chain {P = λ t. IsSound q e pq u t.0} _
            (filter_events q e pq u t.1 round.nows [] (record m0 { group = t.0 })) _
            (filter_events-Sound t.1 round.nows [] (record m0 { group = t.0 })
              (regrouped m0 t.0 sound w))
            λ s z.
              end_round-Sound (λ m'. poll q e pq u rounds m' thread) round.polled thread s.0 s.1
                (λ m' y. poll-Sound rounds m' thread h.2 y) h.1 z
