-- ===== src/Mio/Operations.antt =====
-- crates/mio/src/group.rs: `QuicPoll` and `QuicClient` of the bound group. `wake` is what waking the
-- poller gives.
use rtt.Prelude.{ℕ, Bool, Option, List, Checked, value, ◌>>=◌, ◌>>◌, assert}
use rtt.Prelude.Maps.{get, is_some}
use rtt.Prelude.Io.{IoResult}
use rtt.Api.{StreamKind}
use rtt.Net.{SocketAddr, SocketAddr-discrete}
use rtt.Quiche.{Quiche, Endpoint}
use rtt.Readiness.{PriorityQueue}
use rtt.Conn.{Outcome}
use rtt.Group.{Group}
use rtt.Group
use rtt.Group.Driving
use rtt.Group.Serving
use rtt.Udp.{UdpSocket}
use rtt.Mio.{Bound, after_wake}

module _ (q : Quiche) (e : Endpoint q) (pq : PriorityQueue) (u : UdpSocket) where
  abbrev Bounds : Type 0
  Bounds = Bound q e pq u

  -- an operation of the group, and the waking after it
  abbrev pub wrap :
      {A : Type 0}
      → Bounds
      → IoResult (Unit {0})
      → Checked (Group q pq × Outcome q A)
      → Checked (Bounds × IoResult A)
  wrap m wake operation = do
    (group, r) ← operation
    value (record m { group = group }, after_wake q e pq u wake r)

  unfoldable pub len : Bounds → ℕ
  len m = Driving.len q pq m.group

  unfoldable pub register :
      Bounds → q.Connection → ℕ → IoResult (Unit {0}) → Checked (Bounds × IoResult ℕ)
  register m wrapped now wake = wrap m wake (Group.register q pq m.group wrapped now)

  unfoldable pub deregister :
      Bounds → ℕ → IoResult (Unit {0}) → Checked (Bounds × IoResult q.Connection)
  deregister m token wake = wrap m wake (Group.deregister q pq m.group token)

  unfoldable pub close :
      Bounds
      → ℕ
      → Bool
      → ℕ
      → List ℕ
      → ℕ
      → IoResult (Unit {0})
      → Checked (Bounds × IoResult (Unit {0}))
  close m token app x reason now wake =
      wrap m wake (Driving.close q pq m.group token app x reason now)

  unfoldable pub stream_open :
      Bounds
      → ℕ
      → StreamKind
      → Bool
      → ℕ
      → IoResult (Unit {0})
      → Checked (Bounds × IoResult (Option ℕ))
  stream_open m token kind non_blocking now wake =
      wrap m wake (Driving.stream_open q pq m.group token kind non_blocking now)

  unfoldable pub stream_shutdown :
      Bounds → ℕ → ℕ → ℕ → ℕ → IoResult (Unit {0}) → Checked (Bounds × IoResult (Unit {0}))
  stream_shutdown m token stream_id x now wake =
      wrap m wake (Driving.stream_shutdown q pq m.group token stream_id x now)

  unfoldable pub stream_send :
      Bounds → ℕ → ℕ → List ℕ → Bool → ℕ → IoResult (Unit {0}) → Checked (Bounds × IoResult ℕ)
  stream_send m token stream_id buf fin now wake =
      wrap m wake (Driving.stream_send q pq m.group token stream_id buf fin now)

  -- with the caller's buffer after the call
  unfoldable pub stream_recv :
      Bounds
      → ℕ
      → ℕ
      → List ℕ
      → ℕ
      → IoResult (Unit {0})
      → Checked (Bounds × List ℕ × IoResult (ℕ × Bool))
  stream_recv m token stream_id buf now wake = do
    (group, buf', r) ← Driving.stream_recv q pq m.group token stream_id buf now
    value (record m { group = group }, buf', after_wake q e pq u wake r)

  -- `connect`, with the random connection id and the configuration after the call
  unfoldable pub connect :
      Bounds
      → Option (List ℕ)
      → SocketAddr
      → SocketAddr
      → e.Config
      → List ℕ
      → ℕ
      → IoResult (Unit {0})
      → Checked (Bounds × e.Config × IoResult ℕ)
  connect m server_name local peer config id now wake = do
    assert (is_some (get SocketAddr-discrete local m.laddrs))
    (group, config', r) ← Serving.connect q e pq m.group server_name local peer config id now
    value (record m { group = group }, config', after_wake q e pq u wake r)
