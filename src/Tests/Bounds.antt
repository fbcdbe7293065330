-- ===== src/Tests/Bounds.antt =====
-- The event loop of a bound group, on small inputs.
use native.Mathlib.Decide.{ℕ_discrete}
use rtt.Prelude.{
  ℕ, ◌≡◌, ◌≢◌, refl, sym, inl, inr, none, some, List, [], ◌∷◌, arith, ap, length, min, get_elem?,
  zero, suc, subst, Returns, IfReturns,
}
use rtt.Prelude.Maps.{get, put}
use rtt.Prelude.Io.{ok}
use rtt.Net.{SocketAddr-discrete}
use rtt.Timing.{release_time, filter_later}
use rtt.Udp.{UdpSocket, QuicSocket, Packet, buf_size, io, flush, send_to}
use rtt.Mio.{Bound, on_quic_send}
use rtt.Mio.Looping.{poll}
use rtt.Mio.Looping.{Round}
use rtt.Tests.Peer.{Peer, server_peer}
use rtt.Tests.Groups.{Groups}
use rtt.Prelude.{true}
use rtt.Conn.{Conn, unlocked, recv, LocKind-discrete}
use rtt.Group.{set_conn, register}
use rtt.Group.Driving.{lock}
use rtt.Prelude.Maps.{erase}
use rtt.Group.Interleaving
use rtt.Tests.Groups.{empty}
use rtt.Mio.{Binding}
use rtt.Prelude.{value}
use rtt.Mio.Announcing.{AreForUser, poll-HandsOut}
use rtt.Api.{Event, EventKind}
use rtt.Tests.Events.{some_event}
use rtt.Tests.Heap.{heap}
use rtt.Tests.Peer.{peers, endpoints, some_address}
use rtt.Tests.Sockets.{scripted}

-- a group bound to one address, a round of `poll` with nothing due, and what a thread then did
abbrev bound_empty : Bound peers endpoints heap scripted
bound_empty = record {
  group = empty;
  laddrs = put SocketAddr-discrete some_address 0 [];
  acceptor = none;
  sockets =
      record { sending_buffer_limits = 1024; sending = []; socket = []; local_addr = some_address }
      ∷ [];
}

abbrev a_binding : Binding peers endpoints heap scripted
a_binding = record { bound = ok []; registered = ok tt }

abbrev quiet : Round peers endpoints heap scripted
quiet = record { others = λ m. m; now = 5; nows = λ token. (5, 6); polled = ok [] }

-- A thread registers a connection and takes it to receive, and another parks for it.
abbrev a_peer : Peer
a_peer = record server_peer { readable = []; writable = [] }

abbrev connection : Conn peers
connection = record {
  token = 0;
  local_stream_bidi_next = 1;
  remote_stream_bidi_seen = none;
  local_stream_uni_next = 3;
  remote_stream_uni_seen = none;
  locker = unlocked;
  reties = [];
  lock_count = 1;
  read_lock_count = 0;
  established = true;
  wrapped = a_peer;
}

abbrev a_send : Event
a_send = record (some_event EventKind.send) { stream_id = 0 }

abbrev registered_first : Groups
registered_first = record {
  token_next = 1;
  conns = (0, connection) ∷ [];
  readiness = record { delayed = heap.new; events = a_send ∷ [] };
  unparkers = [];
  scids = (7 ∷ 7 ∷ [], 0) ∷ [];
  unparked = [];
}

abbrev held_first : Groups
held_first = record registered_first { conns = (0, record connection { locker = recv }) ∷ [] }

abbrev parked_first : Groups
parked_first = record held_first { unparkers = (0, 12) ∷ [] }

registered : register peers heap empty a_peer 5 ≡ value (registered_first, ok 0)
unfolding register rtt.Group.register_loop rtt.Group.register_at rtt.Group.new get erase
    rtt.Conn.new rtt.Conn.try_lock_prv LocKind-discrete rtt.Conn.Methods.unlock
    rtt.Conn.Methods.after_unlock rtt.Conn.Handlers.handle_retry_events
    rtt.Conn.Handlers.handle_retries rtt.Conn.Methods.free_lock
    rtt.Conn.Handlers.handle_stream_state_changed rtt.Conn.Handlers.writable_loop
    rtt.Conn.Handlers.readable_loop rtt.Conn.Handlers.handle_readable
    rtt.Conn.Handlers.handle_state_changed rtt.Conn.Handlers.handle_established
    rtt.Conn.Handlers.handle_send rtt.Conn.Handlers.handle_retry rtt.Timing.delay_send
    rtt.Timing.min_of_some rtt.Readiness.insert_event rtt.Readiness.new
    rtt.Prelude.Collections.insert rtt.Prelude.Collections.remove rtt.Prelude.Collections.contains
    rtt.Api.is_local rtt.Api.is_bidi ℕ_discrete
registered = refl

-- The loop polls while the guard is held, and `send` finds the connection locked.
abbrev left_bound : Bound peers endpoints heap scripted
left_bound = record bound_empty {
  group = record parked_first {
    conns = (0, record connection { locker = recv; reties = recv ∷ [] }) ∷ [];
    readiness = record { delayed = heap.new; events = [] };
  };
}

-- an accepted connection and a packet to send are due in a group bound to one address
abbrev an_accept : Event
an_accept = some_event EventKind.accept

abbrev due : Bound peers endpoints heap scripted
due = record bound_empty {
  group = record empty {
    readiness = record {
      delayed = heap.new;
      events = some_event EventKind.send ∷ (an_accept ∷ []);
    };
  };
}

handed_out :
    poll peers endpoints heap scripted (quiet ∷ []) due 12
    ≡ value (bound_empty, some (ok (an_accept ∷ [])))
unfolding poll rtt.Group.Driving.poll rtt.Readiness.poll rtt.Readiness.poll_loop rtt.Readiness.new
    rtt.Group.new rtt.Mio.Looping.filter_events rtt.Mio.Looping.filter_event rtt.Mio.on_quic_send
    rtt.Group.Driving.send rtt.Group.Driving.lock get
handed_out = refl

poll-HandsOut_example : ((an_accept ∷ []) ≢ []) × AreForUser (an_accept ∷ [])
poll-HandsOut_example =
    poll-HandsOut peers endpoints heap scripted (quiet ∷ []) due bound_empty 12 (an_accept ∷ [])
      handed_out
