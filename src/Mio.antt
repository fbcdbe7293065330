-- ===== src/Mio.antt =====
-- crates/mio/src/group.rs: a group bound to UDP sockets. The mutex of the poll state is held by one
-- thread, which drives the sockets; other threads act on the group between its calls. `mio` is a
-- third-party crate: what its calls return is an argument.
pub mod Operations
pub mod Packets
pub mod Looping
pub mod Validity
pub mod Keeping
pub mod Receiving
pub mod Polling
pub mod Reaching
pub mod Sending
pub mod Malformed
pub mod Announcing
use rtt.Prelude.{
  ℕ, suc, ◌+◌, Bool, true, false, Option, none, some, List, [], ◌∷◌, ◌++◌, ◌==◌, ltb, if◌then◌else◌,
  Checked, value, panic, ◌>>=◌, ◌>>◌, assert, length, get_elem?, set,
}
use rtt.Prelude.Maps.{get, put}
use rtt.Prelude.Io.{Result, ok, err, IoResult, Poll, ready, pending}
use rtt.Api.{io_would_block, EventKind, Event, map_err, to_io_error}
use rtt.Net.{SocketAddr, SocketAddr-discrete, SendInfo}
use rtt.FixedBuf.{ArrayBuf}
use rtt.FixedBuf
use rtt.Quiche.{Quiche, Endpoint}
use rtt.Readiness.{PriorityQueue}
use rtt.Conn.{Outcome}
use rtt.Acceptor.{Acceptor}
use rtt.Group.{Group}
use rtt.Group
use rtt.Group.Driving
use rtt.Udp.{UdpSocket, QuicSocket, QuicSocketError, io, is_full, io_error, from_socket, buf_size}
use rtt.Udp

-- the sockets by their local addresses
abbrev pub Laddrs : Type 0
Laddrs = List (SocketAddr × ℕ)

module _ (q : Quiche) (e : Endpoint q) (pq : PriorityQueue) (u : UdpSocket) where
  -- `Group` and `PollState`, less the poller and its waker
  pub record Bound : Type 0 where
    pub group : Group q pq
    pub laddrs : Laddrs
    pub acceptor : Option (Acceptor q e)
    pub sockets : List (QuicSocket u)

  -- What binding an address gives: the socket, and whether the poller registers it.
  pub record Binding : Type 0 where
    pub bound : IoResult u.Socket
    pub registered : IoResult (Unit {0})

  -- the limit of a socket's queue
  abbrev pub queue_limit : ℕ
  queue_limit = 1024

  -- the body of the loop of `bind`
  unfoldable pub bind_one :
      Binding → Laddrs → List (QuicSocket u) → IoResult (Laddrs × List (QuicSocket u))
  bind_one b laddrs sockets = elim b.bound [
    | err x ↦ err x
    | ok socket ↦ elim (u.local_addr socket) [
      | err x ↦ err x
      | ok local_addr ↦ elim b.registered [
        | err x ↦ err x
        | ok t ↦ elim (Udp.new u socket queue_limit) [
          | err x ↦ err (io_error x)
          | ok quic_socket ↦ ok (
            put SocketAddr-discrete local_addr (length sockets) laddrs,
            sockets ++ (quic_socket ∷ []),
          )
        ]
      ]
    ]
  ]

  -- the loop of `bind`
  unfoldable pub bind_all :
      List Binding → Laddrs → List (QuicSocket u) → IoResult (Laddrs × List (QuicSocket u))
  unfolding bind_one
  bind_all [] laddrs sockets = ok (laddrs, sockets)
  bind_all (b ∷ bs) laddrs sockets = elim (bind_one b laddrs sockets) [
    | err x ↦ err x
    | ok (laddrs', sockets') ↦ bind_all bs laddrs' sockets'
  ]

  -- `QuicBind::bind`, with what making the waker gives
  unfoldable pub bind : List Binding → IoResult (Unit {0}) → Option (Acceptor q e) → IoResult Bound
  unfolding bind_all
  bind bindings waker acceptor = elim (bind_all bindings [] []) [
    | err x ↦ err x
    | ok (laddrs, sockets) ↦ elim waker [
      | err x ↦ err x
      | ok t ↦ ok (record {
        group = Group.new q pq;
        laddrs = laddrs;
        acceptor = acceptor;
        sockets = sockets;
      })
    ]
  ]

  abbrev pub set_socket : Bound → ℕ → QuicSocket u → Bound
  set_socket m index s = record m { sockets = set m.sockets index s }

  -- the match of `on_quic_send` on the result of `send_to`
  abbrev pub queued : Result QuicSocketError ℕ → IoResult (Unit {0})
  queued (ok len) = ok tt
  queued (err (is_full buf)) = ok tt
  queued (err (io x)) = err x

  -- the end of `on_quic_send`, for the buffer that was filled
  unfoldable pub send_packet : Bound → ArrayBuf → SendInfo → Checked (Bound × IoResult (Unit {0}))
  send_packet m buf info = elim (get SocketAddr-discrete info.from m.laddrs) [
    | none ↦ panic
    | some index ↦ elim (get_elem? m.sockets index) [
      | none ↦ panic
      | some s ↦ (do
        (s', len) ← Udp.send_to u s buf info.to
        value (set_socket m index s', queued len))
    ]
  ]

  -- `on_quic_send`
  unfoldable pub on_quic_send : Bound → ℕ → ℕ → ℕ → Checked (Bound × IoResult (Unit {0}))
  unfolding send_packet
  on_quic_send m token now unlock_now = do
    let buf = FixedBuf.new buf_size
    (group, bytes, sent) ← Driving.send q pq m.group token buf.buf now unlock_now
    let m' : Bound = record m { group = group }
    elim sent [
      | err x ↦ value (m', ok tt)
      | ok (size, info) ↦ (do
        assert (ltb 0 size)
        buf' ← FixedBuf.writable_consume buf_size (record buf { buf = bytes }) size
        send_packet m' buf' info)
    ]

  -- `on_udp_send`
  unfoldable pub on_udp_send : Bound → ℕ → Checked (Bound × IoResult (Unit {0}))
  on_udp_send m index = elim (get_elem? m.sockets index) [
    | none ↦ panic
    | some s ↦ (do
      (s', flushed) ← Udp.flush u s
      value (
        set_socket m index s',
        elim (io_would_block (from_socket flushed)) [ pending ↦ ok tt | ready r ↦ r ],
      ))
  ]

  -- The wrappers of the group's operations: the waker of the poller is woken after the call, and an
  -- error of that comes first.
  abbrev pub after_wake : {A : Type 0} → IoResult (Unit {0}) → Outcome q A → IoResult A
  after_wake (err x) r = err x
  after_wake (ok t) r = map_err r
