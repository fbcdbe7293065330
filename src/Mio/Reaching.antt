-- ===== src/Mio/Reaching.antt =====
-- crates/mio/src/group.rs: the bound groups that the event loop, and the operations of other threads,
-- lead to.
use rtt.Prelude.{ℕ, ◌≡◌, Option, List, value}
use rtt.Prelude.Io.{IoResult}
use rtt.Api.{Event}
use rtt.Quiche.{Quiche, Endpoint}
use rtt.Readiness.{PriorityQueue}
use rtt.Acceptor.{Acceptor}
use rtt.Group.{Group}
use rtt.Mio.Receiving.{AreActs}
use rtt.Udp.{UdpSocket}
use rtt.Mio.{Bound}
use rtt.Mio.Looping.{Round, poll}
use rtt.Mio.Polling.{AreRounds}

module _ (q : Quiche) (e : Endpoint q) (pq : PriorityQueue) (u : UdpSocket) where
  abbrev Bounds : Type 0
  Bounds = Bound q e pq u

  pub data Step : Bounds → Bounds → Type 0 where
    -- `poll`, while other threads act on the group
    polls :
        {m t : Bounds} {r : Option (IoResult (List Event))} (rounds : List (Round q e pq u))
        (thread : ℕ)
        → AreRounds q e pq u rounds
        → poll q e pq u rounds m thread ≡ value (t, r)
        → Step m t
    -- critical sections of other threads
    acts :
        {m : Bounds} {g : Group q pq} → AreActs q e pq u m.group g → Step m (record m { group = g })

  pub data Reach (m : Bounds) : Bounds → Type 0 where
    here : Reach m m
    next : {t s : Bounds} → Reach m t → Step t s → Reach m s
