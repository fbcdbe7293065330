-- ===== src/Mio/Malformed.antt =====
-- crates/mio/src/group.rs: a packet that `quiche` cannot parse ends the loop of a client.
use rtt.Prelude.{ℕ, ◌≡◌, refl, none, some, List, ◌∷◌, take, Returns, get_elem?, arith}
use rtt.Prelude.Io.{ok, err, other}
use rtt.Api.{io_would_block}
use rtt.Net.{SocketAddr}
use rtt.FixedBuf.{readable_buf_filled, new_lem}
use rtt.FixedBuf
use rtt.Quiche.{Quiche, Endpoint}
use rtt.Readiness.{PriorityQueue}
use rtt.Udp.{UdpSocket, QuicSocket, buf_size}
use rtt.Udp.Receiving.{recv_from_ok}
use rtt.Mio.Packets.{Bounds, Try, on_udp_recv}

module _ (q : Quiche) (e : Endpoint q) (pq : PriorityQueue) (u : UdpSocket) where
  -- In a bound group without an acceptor, a received packet that `quiche` cannot parse makes
  -- `on_udp_recv` return an error.
  pub recv_malformed :
      (tries : List (Try q e pq u)) (more : List (List (Try q e pq u))) (m : Bounds q e pq u)
      (index thread : ℕ) (s : QuicSocket u) (size : ℕ) (from : SocketAddr) (x : q.QError)
      → m.acceptor ≡ none
      → get_elem? m.sockets index ≡ some s
      → (u.recv_from s.socket (FixedBuf.new buf_size).buf).2 ≡ ok (size, from)
      → e.header_from_slice (take size (u.recv_from s.socket (FixedBuf.new buf_size).buf).1) ≡ err x
      → Returns (on_udp_recv q e pq u (tries ∷ more) m index thread) λ t. t.1 ≡ some (err other)
  unfolding on_udp_recv io_would_block
  recv_malformed tries more m index thread s size from x client here comes bad =
      let (runs, small, whole) =
        recv_from_ok u s (FixedBuf.new buf_size) size from (new_lem buf_size).0 comes in
      rw
        (
          here,
          on_udp_recv,
          runs,
          client,
          readable_buf_filled
              (record { buf = (u.recv_from s.socket (FixedBuf.new buf_size).buf).1; len = size })
              (omega arith),
          bad,
        )
        refl
