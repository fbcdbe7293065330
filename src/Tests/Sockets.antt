-- ===== src/Tests/Sockets.antt =====
-- A UDP socket whose answers are given, and a bound group over it.
use native.Mathlib.Decide.{ℕ_discrete}
use rtt.Prelude.{
  ℕ, ◌≡◌, ◌≢◌, refl, sym, inl, inr, none, some, List, [], ◌∷◌, arith, ap, length, min, get_elem?,
  zero, suc, subst, Returns,
}
use rtt.Prelude.Maps.{get, put, put_cases}
use rtt.Prelude.Io.{ok, err, IoResult, would_block, other}
use rtt.Net.{SocketAddr, SocketAddr-discrete}
use rtt.FixedBuf.{new_lem}
use rtt.Timing.{release_time, filter_later}
use rtt.Udp.{UdpSocket, QuicSocket, Packet, buf_size, io, flush, send_to}
use rtt.Udp.Flushing.{Flushed, flush-Flushed}
use rtt.Udp.Queueing.{Queued, send_to-Queued}
use rtt.Udp.Blocking.{headed, send_to_refused}
use rtt.Mio.{Bound, on_quic_send}
use rtt.Mio.Packets.{on_udp_recv}
use rtt.Conn.{Conn, unlocked, recv, LocKind-discrete}
use rtt.Mio.Validity.{IsQueue, IsValid}
use rtt.Mio.Sending.{blank, packet, AllFit, Sends, on_quic_send-Sends}
use rtt.Mio.Malformed.{recv_malformed}
use rtt.Tests.Heap.{heap}
use rtt.Tests.Peer.{peers, endpoints, some_address, invalid}
use rtt.Tests.Groups.{one, one-IsValid}

-- the socket's answer to a packet
abbrev answer : List (IoResult ℕ) → List ℕ → List (IoResult ℕ) × IoResult ℕ
answer [] bytes = ([], ok (length bytes))
answer (r ∷ rest) bytes = (rest, r)

-- Its state is the answers that it still gives; then it takes every packet.
abbrev pub scripted : UdpSocket
scripted = record {
  Socket = List (IoResult ℕ);
  local_addr = λ s. ok some_address;
  send_to = λ s bytes target. answer s bytes;
  recv_from = λ s buf. (s, buf, ok (min (length s) (length buf), some_address));
  recv_from_fits = λ s buf. (refl, omega arith);
}

-- It refuses every packet.
abbrev refusing : UdpSocket
refusing = record scripted { send_to = λ s bytes target. (s, err other) }

abbrev three_bytes : Packet
three_bytes = (record { buf = 1 ∷ 2 ∷ 3 ∷ []; len = 3 }, some_address)

abbrev blocked : QuicSocket scripted
blocked = record {
  sending_buffer_limits = 2;
  sending = three_bytes ∷ (three_bytes ∷ []);
  socket = ok 3 ∷ (err would_block ∷ []);
  local_addr = some_address;
}

flush-Flushed_example : Returns (flush scripted blocked) λ t.
    Flushed scripted blocked.socket blocked.sending (t.0.socket, t.0.sending, t.1)
    × (t.0.sending_buffer_limits ≡ 2)
    × (t.0.local_addr ≡ some_address)
flush-Flushed_example = flush-Flushed scripted blocked (omega arith, (omega arith, tt))

send_to-Queued_example :
    Returns
      (send_to scripted blocked three_bytes.0 some_address)
      (Queued scripted blocked three_bytes)
send_to-Queued_example =
    send_to-Queued scripted blocked three_bytes (omega arith, (omega arith, tt)) (omega arith)
      (omega arith)

abbrev a_socket : QuicSocket refusing
a_socket = record {
  sending_buffer_limits = 2;
  sending = [];
  socket = [];
  local_addr = some_address;
}

send_to_refused_example :
    Returns
      (send_to refusing (headed refusing three_bytes other a_socket []) three_bytes.0 some_address)
      λ t. (t.1 ≡ err (io other)) × (later : List Packet) × (t.0.sending ≡ three_bytes ∷ later)
send_to_refused_example =
    send_to_refused refusing three_bytes other a_socket [] three_bytes (omega arith) (λ e. cc)
      (omega arith) (λ s. refl)

-- the group of one connection, on a socket that takes every packet
abbrev free : QuicSocket scripted
free = record blocked { sending_buffer_limits = 1024; socket = [] }

abbrev bound_one : Bound peers endpoints heap scripted
bound_one = record {
  group = one;
  laddrs = put SocketAddr-discrete some_address 0 [];
  acceptor = none;
  sockets = free ∷ [];
}

free-IsQueue : IsQueue peers endpoints heap scripted free
free-IsQueue = record {
  filled = (omega arith, (omega arith, tt));
  bounded = omega arith;
  limit = refl;
}

no_other : (index : ℕ) (s : QuicSocket scripted) → get_elem? (free ∷ []) index ≡ some s → free ≡ s
no_other zero s e = ground arith
no_other (suc index) s e = absurd (cc)

nowhere : (addr : SocketAddr) (index : ℕ) → get SocketAddr-discrete addr [] ≢ some index
unfolding get
nowhere addr index = λ e. cc

bound_one-IsValid : IsValid peers endpoints heap scripted bound_one
bound_one-IsValid = record {
  group = one-IsValid;
  bound = λ addr index e. elim (put_cases SocketAddr-discrete some_address addr 0 index [] e) [
    | inl (same, first) ↦ (free, rw first refl, sym same)
    | inr (other_one, old) ↦ absurd (nowhere addr index old)
  ];
  queues =
      λ index s e. subst (IsQueue peers endpoints heap scripted) (no_other index s e) free-IsQueue;
}

packet_fits :
    AllFit peers endpoints heap scripted bound_one
      (packet peers endpoints heap scripted 0 5 bound_one)
unfolding release_time filter_later get ℕ_discrete SocketAddr-discrete rtt.Conn.new
packet_fits = (omega arith, omega arith, (new_lem buf_size).0, refl)

on_quic_send-Sends_example : Returns (on_quic_send peers endpoints heap scripted bound_one 0 5 6) (
    Sends peers endpoints heap scripted bound_one 0
      (packet peers endpoints heap scripted 0 5 bound_one))
on_quic_send-Sends_example =
    on_quic_send-Sends peers endpoints heap scripted bound_one 0 5 6 bound_one-IsValid packet_fits

recv_malformed_example :
    Returns
      (on_udp_recv peers endpoints heap scripted ([] ∷ []) bound_one 0 12)
      λ t. t.1 ≡ some (err other)
recv_malformed_example =
    let nothing : min 0 (length (blank peers endpoints heap scripted)) ≡ 0 = omega arith in
    recv_malformed peers endpoints heap scripted [] [] bound_one 0 12 free 0 some_address invalid
      refl refl (ap (λ n. ok (n, some_address)) nothing) refl
