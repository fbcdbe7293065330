-- ===== src/Mio/Packets.antt =====
-- crates/mio/src/group.rs: `on_udp_recv`, the packets that a socket received. A thread that meets a
-- busy connection is parked, and tries again when it is woken.
use rtt.Prelude.{
  ℕ, Bool, true, false, Option, none, some, List, [], ◌∷◌, ◌==◌, if◌then◌else◌, Checked, value,
  panic, ◌>>=◌, get_elem?,
}
use rtt.Prelude.Io.{ok, err, IoResult, other, ready, pending}
use rtt.Api.{io_would_block, retry, busy}
use rtt.Net.{SocketAddr, RecvInfo, SendInfo}
use rtt.FixedBuf.{ArrayBuf}
use rtt.FixedBuf
use rtt.Quiche.{Quiche, Endpoint}
use rtt.Readiness.{PriorityQueue}
use rtt.Conn.{Outcome}
use rtt.Acceptor.{Acceptor}
use rtt.Group.{Group}
use rtt.Group.Driving.{recv_with_connection_id}
use rtt.Group.Serving.{Clock, recv_with_acceptor}
use rtt.Udp.{UdpSocket, QuicSocket, QuicSocketError, buf_size, from_socket}
use rtt.Udp
use rtt.Mio.{Bound, set_socket, queued}

module _ (q : Quiche) (e : Endpoint q) (pq : PriorityQueue) (u : UdpSocket) where
  abbrev pub Bounds : Type 0
  Bounds = Bound q e pq u

  -- One try to hand a packet to the group: what other threads did to the group before, while this one
  -- was parked, with the instants and the random connection id of the try.
  pub record Try : Type 0 where
    pub others : Group q pq → Group q pq
    pub clock : Clock q e pq
    pub new_scid : List ℕ

  -- `Err(Busy) | Err(Retry)`
  abbrev pub must_park : {A : Type 0} → Outcome q A → Bool
  must_park (err busy) = true
  must_park (err retry) = true
  must_park r = false

  -- The inner loop for a server, for the tries that it is followed: no result while it is parked.
  unfoldable pub serve :
      List Try
      → Group q pq
      → Acceptor q e
      → List ℕ
      → ℕ
      → RecvInfo
      → ℕ
      → Checked (Group q pq × Acceptor q e × List ℕ × Option (Outcome q (ℕ × SendInfo)))
  serve [] g a buf size info thread = value (g, a, buf, none)
  serve (t ∷ ts) g a buf size info thread = do
    (g', a', buf', r) ←
        recv_with_acceptor q e pq (t.others g) a buf size info (some thread) t.clock t.new_scid
    elim (must_park r) [
      | true ↦ serve ts g' a' buf' size info thread
      | false ↦ value (g', a', buf', some r)
    ]

  -- the same for a client, by the destination id of the packet
  unfoldable pub pass_on :
      List Try
      → Group q pq
      → List ℕ
      → List ℕ
      → RecvInfo
      → ℕ
      → Checked (Group q pq × Option (Outcome q (ℕ × ℕ)))
  pass_on [] g dcid packet info thread = value (g, none)
  pass_on (t ∷ ts) g dcid packet info thread = do
    (g', packet', r) ←
        recv_with_connection_id q pq (t.others g) dcid packet info (some thread) t.clock.recv_at
    elim (must_park r) [
      | true ↦ pass_on ts g' dcid packet' info thread
      | false ↦ value (g', some r)
    ]

  -- the answer to a packet, if the group has one
  unfoldable pub answer :
      Bounds
      → ℕ
      → QuicSocket u
      → ArrayBuf
      → Outcome q (ℕ × SendInfo)
      → Checked (Bounds × IoResult (Unit {0}))
  answer m index s buf (err x) = value (m, ok tt)
  answer m index s buf (ok (size, info)) = if size == 0 then value (m, ok tt) else (do
    buf' ← FixedBuf.writable_consume buf_size buf size
    (s', len) ← Udp.send_to u s buf' info.to
    value (set_socket q e pq u m index s', queued q e pq u len))

  -- a packet of a server
  unfoldable pub serve_packet :
      List Try
      → Bounds
      → Acceptor q e
      → ℕ
      → QuicSocket u
      → ArrayBuf
      → RecvInfo
      → ℕ
      → Checked (Bounds × Option (IoResult (Unit {0})))
  unfolding serve answer
  serve_packet tries m a index s buf info thread = do
    (g, a', bytes, r) ← serve tries m.group a buf.buf buf.len info thread
    let m' : Bounds = record m { group = g; acceptor = some a' }
    elim r [
      | none ↦ value (m', none)
      | some result ↦ (do
        (m'', answered) ← answer m' index s (record buf { buf = bytes }) result
        value (m'', some answered))
    ]

  -- a packet of a client
  unfoldable pub pass_packet :
      List Try → Bounds → ArrayBuf → RecvInfo → ℕ → Checked (Bounds × Option (IoResult (Unit {0})))
  unfolding pass_on
  pass_packet tries m buf info thread = do
    packet ← FixedBuf.readable_buf buf
    elim (e.header_from_slice packet) [
      | err x ↦ value (m, some (err other))
      | ok header ↦ (do
        (g, r) ← pass_on tries m.group header.dcid packet info thread
        value (record m { group = g }, elim r [ none ↦ none | some result ↦ some (ok tt) ]))
    ]

  -- what becomes of a packet from an address
  unfoldable pub on_packet :
      List Try
      → Bounds
      → ℕ
      → QuicSocket u
      → ArrayBuf
      → SocketAddr
      → ℕ
      → Checked (Bounds × Option (IoResult (Unit {0})))
  unfolding serve_packet pass_packet
  on_packet tries m index s buf from thread =
      let info : RecvInfo = record { from = from; to = s.local_addr } in
      elim m.acceptor [
        | some a ↦ serve_packet tries m a index s buf info thread
        | none ↦ pass_packet tries m buf info thread
      ]

  -- `on_udp_recv`, for the packets that it is followed: no result while it still runs or is parked
  unfoldable pub on_udp_recv :
      List (List Try) → Bounds → ℕ → ℕ → Checked (Bounds × Option (IoResult (Unit {0})))
  unfolding on_packet
  on_udp_recv [] m index thread = value (m, none)
  on_udp_recv (tries ∷ more) m index thread = elim (get_elem? m.sockets index) [
    | none ↦ panic
    | some s ↦ (do
      (s', buf, received) ← Udp.recv_from u s (FixedBuf.new buf_size)
      let m1 = set_socket q e pq u m index s'
      elim (io_would_block (from_socket received)) [
        | pending ↦ value (m1, some (ok tt))
        | ready (err x) ↦ value (m1, some (err x))
        | ready (ok from) ↦ (do
          (m2, result) ← on_packet tries m1 index s' buf from thread
          elim result [
            | none ↦ value (m2, none)
            | some (err x) ↦ value (m2, some (err x))
            | some (ok t) ↦ on_udp_recv more m2 index thread
          ])
      ])
  ]
