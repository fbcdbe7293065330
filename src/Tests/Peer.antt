-- ===== src/Tests/Peer.antt =====
-- A small connection that meets what the code relies on of `quiche::Connection`.
use rtt.Prelude.{
  ℕ, ◌-◌, ◌<◌, ◌≡◌, refl, ap, Bool, true, false, Option, none, some, List, [], ◌∷◌, ◌==◌,
  if◌then◌else◌, arith, length, subst,
}
use rtt.Prelude.Io.{ok, err}
use rtt.Tests.Heap.{injective}
use rtt.Net.{SocketAddr, SendInfo, v4}
use rtt.Quiche.{Quiche, Endpoint, identity}

-- its role and id, the streams it may still open, and the streams that are readable and writable
pub record Peer : Type 0 where
  pub is_server : Bool
  pub id : List ℕ
  pub left : ℕ
  pub readable : List ℕ
  pub writable : List ℕ
  pub closed : Bool

-- `Done`, or another error
pub data PeerError : Type 0 where
  done invalid : PeerError

abbrev pub next_readable : Peer → Option (ℕ × Peer)
next_readable p = elim p.readable [ [] ↦ none | x ∷ xs ↦ some (x, record p { readable = xs }) ]

abbrev pub next_writable : Peer → Option (ℕ × Peer)
next_writable p = elim p.writable [ [] ↦ none | x ∷ xs ↦ some (x, record p { writable = xs }) ]

abbrev pub who : Peer → Bool × List ℕ
who = identity (λ p. p.is_server) (λ p. p.id)

readable_less :
    (p p' : Peer) (xs : List ℕ) (id : ℕ)
    → next_readable (record p { readable = xs }) ≡ some (id, p')
    → (length p'.readable < length xs) × (who p' ≡ who p)
readable_less p p' [] id h = ground arith
readable_less p p' (x ∷ xs) id h =
    subst (λ (d : Peer). (length d.readable < length (x ∷ xs)) × (who d ≡ who p))
      (ap (λ (y : ℕ × Peer). y.1) (injective h)) (omega arith, refl)

writable_less :
    (p p' : Peer) (xs : List ℕ) (id : ℕ)
    → next_writable (record p { writable = xs }) ≡ some (id, p')
    → (length p'.writable < length xs) × (who p' ≡ who p)
writable_less p p' [] id h = ground arith
writable_less p p' (x ∷ xs) id h =
    subst (λ (d : Peer). (length d.writable < length (x ∷ xs)) × (who d ≡ who p))
      (ap (λ (y : ℕ × Peer). y.1) (injective h)) (omega arith, refl)

pub readable_next :
    (p p' : Peer) (id : ℕ)
    → next_readable p ≡ some (id, p')
    → (length p'.readable < length p.readable) × (who p' ≡ who p)
readable_next p p' id h = readable_less p p' p.readable id h

pub writable_next :
    (p p' : Peer) (id : ℕ)
    → next_writable p ≡ some (id, p')
    → (length p'.writable < length p.writable) × (who p' ≡ who p)
writable_next p p' id h = writable_less p p' p.writable id h

abbrev pub some_address : SocketAddr
some_address = record { ip = v4 (127 ∷ 0 ∷ 0 ∷ 1 ∷ []); port = 4433 }

abbrev pub a_packet : SendInfo
a_packet = record { from = some_address; to = some_address; at = 0 }

abbrev pub peers : Quiche
peers = record {
  QError = PeerError;
  is_done = λ e. elim e [ done ↦ true | invalid ↦ false ];
  Connection = Peer;
  is_server = λ p. p.is_server;
  is_established = λ p. true;
  is_closed = λ p. p.closed;
  source_id = λ p. p.id;
  close = λ p app e reason. (record p { closed = true }, ok tt);
  peer_streams_left_uni = λ p. p.left;
  peer_streams_left_bidi = λ p. p.left;
  stream_priority = λ p id urgency incremental. (record p { left = p.left - 1 }, ok tt);
  stream_finished = λ p id. false;
  stream_shutdown_read = λ p id e. (p, ok tt);
  stream_send = λ p id buf fin. (p, ok (length buf));
  stream_recv = λ p id buf. (p, buf, err done);
  stream_writable = λ p id len. (p, ok true);
  stream_writable_next = next_writable;
  stream_readable_next = next_readable;
  timeout_instant = λ p. some 50;
  next_release = λ p now. none;
  on_timeout = λ p. p;
  recv = λ p buf info. (p, buf, ok (length buf));
  send = λ p buf. (p, buf, if p.left == 9 then ok (3, a_packet) else err done);
  writable_count = λ p. length p.writable;
  readable_count = λ p. length p.readable;
  writable_next_less = λ p p' id h. (writable_next p p' id h).0;
  readable_next_less = λ p p' id h. (readable_next p p' id h).0;
  close_same = λ p app e reason. refl;
  stream_priority_same = λ p id urgency incremental. refl;
  stream_shutdown_same = λ p id e. refl;
  stream_send_same = λ p id buf fin. refl;
  stream_recv_same = λ p id buf. refl;
  stream_writable_same = λ p id len. refl;
  writable_next_same = λ p p' id h. (writable_next p p' id h).1;
  readable_next_same = λ p p' id h. (readable_next p p' id h).1;
  on_timeout_same = λ p. refl;
  recv_same = λ p buf info. refl;
  send_same = λ p buf. refl;
}

-- a server's connection with two readable streams, and a client's with none
abbrev pub server_peer : Peer
server_peer = record {
  is_server = true;
  id = 7 ∷ 7 ∷ [];
  left = 9;
  readable = 4 ∷ 2 ∷ [];
  writable = 1 ∷ [];
  closed = false;
}

abbrev pub endpoints : Endpoint peers
endpoints = record {
  Config = Unit {0};
  header_from_slice = λ buf. elim buf [
    | [] ↦ err invalid
    | b ∷ bs ↦ ok (record { version = 1; scid = []; dcid = b ∷ bs; token = none })
  ];
  version_is_supported = λ version. version == 1;
  accept = λ config scid odcid local peer. (config, ok (record server_peer { id = scid }));
  retry = λ scid dcid new_scid token version buf. (buf, ok 20);
  negotiate_version = λ scid dcid buf. (buf, ok 10);
  connect =
      λ config name id local peer. (config, ok (record server_peer { is_server = false; id = id }));
}
