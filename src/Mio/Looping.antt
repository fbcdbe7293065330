-- ===== src/Mio/Looping.antt =====
-- crates/mio/src/group.rs: `mio_poll_once` and `poll`, the loop over the events of the group and of the
-- sockets.
use rtt.Prelude.{
  ℕ, Bool, true, false, Option, none, some, List, [], ◌∷◌, ◌++◌, ◌==◌, Checked, value, ◌>>=◌,
  length,
}
use rtt.Prelude.Io.{ok, err, IoResult}
use rtt.Api.{EventKind, Event}
use rtt.Quiche.{Quiche, Endpoint}
use rtt.Readiness.{PriorityQueue}
use rtt.Group.Driving
use rtt.Udp.{UdpSocket}
use rtt.Mio.{Bound, on_quic_send, on_udp_send}
use rtt.Mio.Packets.{Try, on_udp_recv}

-- an event of the poller
pub record MioEvent : Type 0 where
  pub token : ℕ
  pub readable : Bool
  pub writable : Bool

module _ (q : Quiche) (e : Endpoint q) (pq : PriorityQueue) (u : UdpSocket) where
  abbrev pub Bounds : Type 0
  Bounds = Bound q e pq u

  -- the packets that are followed for one readable socket
  abbrev pub Tries : Type 0
  Tries = List (List (Try q e pq u))

  -- the part of `mio_poll_once` for an event that is readable
  abbrev pub read_ready :
      Bool → Bounds → ℕ → Tries → ℕ → Checked (Bounds × Option (IoResult (Unit {0})))
  read_ready true m token tries thread = on_udp_recv q e pq u tries m token thread
  read_ready false m token tries thread = value (m, some (ok tt))

  -- and for one that is writable
  abbrev pub write_ready : Bool → Bounds → ℕ → Checked (Bounds × IoResult (Unit {0}))
  write_ready true m token = on_udp_send q e pq u m token
  write_ready false m token = value (m, ok tt)

  -- the loop of `mio_poll_once`; no result where a call of `on_udp_recv` has none
  unfoldable pub on_mio_events :
      List (MioEvent × Tries) → Bounds → ℕ → Checked (Bounds × Option (IoResult (Unit {0})))
  on_mio_events [] m thread = value (m, some (ok tt))
  on_mio_events ((event, tries) ∷ rest) m thread =
      let next = λ (m' : Bounds). on_mio_events rest m' thread in
      elim (event.token == length m.sockets) [
        | true ↦ next m
        | false ↦ (do
          (m1, read) ← read_ready event.readable m event.token tries thread
          elim read [
            | none ↦ value (m1, none)
            | some (err x) ↦ value (m1, some (err x))
            | some (ok t) ↦ (do
              (m2, written) ← write_ready event.writable m1 event.token
              elim written [ err x ↦ value (m2, some (err x)) | ok t' ↦ next m2 ])
          ])
      ]

  -- `mio_poll_once`, for what the poller returns
  unfoldable pub mio_poll_once :
      Bounds
      → IoResult (List (MioEvent × Tries))
      → ℕ
      → Checked (Bounds × Option (IoResult (Unit {0})))
  unfolding on_mio_events
  mio_poll_once m (err x) thread = value (m, some (err x))
  mio_poll_once m (ok events) thread = on_mio_events events m thread

  -- the rest of the `for` of `poll`, from the events kept so far
  abbrev pub Rest : Type 0
  Rest = List Event → Bounds → Checked (Bounds × IoResult (List Event))

  -- The body of that loop, by the kind of the event. `nows` has the instants that `send` reads for a
  -- token.
  unfoldable pub filter_event :
      EventKind
      → Event
      → (ℕ → ℕ × ℕ)
      → Rest
      → List Event
      → Bounds
      → Checked (Bounds × IoResult (List Event))
  filter_event EventKind.send event nows rest events m = do
    (m', r) ← on_quic_send q e pq u m event.token (nows event.token).0 (nows event.token).1
    elim r [ err x ↦ value (m', err x) | ok t ↦ rest events m' ]
  filter_event EventKind.recv event nows rest events m = rest events m
  filter_event _ event nows rest events m = rest (events ++ (event ∷ [])) m

  -- The `for` of `poll`: the events that ask for no packet, after those kept so far.
  unfoldable pub filter_events : List Event → (ℕ → ℕ × ℕ) → Rest
  unfolding filter_event
  filter_events [] nows events m = value (m, ok events)
  filter_events (event ∷ ready) nows events m =
      filter_event event.kind event nows (filter_events ready nows) events m

  -- One round of `poll`: its instant, the instants of `send`, what the poller returns, and what other
  -- threads did before.
  pub record Round : Type 0 where
    pub others : Bounds → Bounds
    pub now : ℕ
    pub nows : ℕ → ℕ × ℕ
    pub polled : IoResult (List (MioEvent × Tries))

  -- `poll`, from an empty list of events and for the rounds that it is followed: the events handed
  -- out, or no result where it still runs
  unfoldable pub poll : List Round → Bounds → ℕ → Checked (Bounds × Option (IoResult (List Event)))
  unfolding mio_poll_once filter_events
  poll [] m thread = value (m, none)
  poll (round ∷ rounds) m thread = do
    let m0 = round.others m
    (group, ready, wait) ← Driving.poll q pq m0.group [] round.now
    (m1, filtered) ← filter_events ready round.nows [] (record m0 { group = group })
    elim filtered [
      | err x ↦ value (m1, some (err x))
      | ok (event ∷ events) ↦ value (m1, some (ok (event ∷ events)))
      | ok [] ↦ (do
        (m2, polled) ← mio_poll_once m1 round.polled thread
        elim polled [
          | none ↦ value (m2, none)
          | some (err x) ↦ value (m2, some (err x))
          | some (ok t) ↦ poll rounds m2 thread
        ])
    ]
