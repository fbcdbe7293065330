-- ===== src/Quiche.antt =====
-- `quiche::Connection`, a third-party crate: a parameter of the model. A method that takes `&mut self`
-- returns the connection after it. The hypotheses at the end are what the crate documents and the
-- code relies on: a connection keeps its role, and its source id, since the code gives it no other; and
-- each stream taken from the writable or readable queue leaves one fewer in it.
use rtt.Prelude.{ℕ, ◌<◌, ◌≡◌, Bool, Option, some, List}
use rtt.Prelude.Io.{Result}
use rtt.Net.{SocketAddr, RecvInfo, SendInfo}

-- the fields of `quiche::Header` that the code reads
pub record Header : Type 0 where
  pub version : ℕ
  pub scid : List ℕ
  pub dcid : List ℕ
  pub token : Option (List ℕ)

-- the two answers that stay the same
abbrev pub identity : {C : Type 0} → (C → Bool) → (C → List ℕ) → C → Bool × List ℕ
identity is_server source_id c = (is_server c, source_id c)

pub record Quiche : Type 1 where
  pub QError : Type 0
  -- `err == quiche::Error::Done`
  pub is_done : QError → Bool
  pub Connection : Type 0
  pub is_server : Connection → Bool
  pub is_established : Connection → Bool
  pub is_closed : Connection → Bool
  pub source_id : Connection → List ℕ
  pub close : Connection → Bool → ℕ → List ℕ → Connection × Result QError (Unit {0})
  pub peer_streams_left_uni : Connection → ℕ
  pub peer_streams_left_bidi : Connection → ℕ
  pub stream_priority : Connection → ℕ → ℕ → Bool → Connection × Result QError (Unit {0})
  pub stream_finished : Connection → ℕ → Bool
  -- `stream_shutdown` with `Shutdown::Read`
  pub stream_shutdown_read : Connection → ℕ → ℕ → Connection × Result QError (Unit {0})
  pub stream_send : Connection → ℕ → List ℕ → Bool → Connection × Result QError ℕ
  -- with the caller's buffer after the call
  pub stream_recv : Connection → ℕ → List ℕ → Connection × List ℕ × Result QError (ℕ × Bool)
  pub stream_writable : Connection → ℕ → ℕ → Connection × Result QError Bool
  pub stream_writable_next : Connection → Option (ℕ × Connection)
  pub stream_readable_next : Connection → Option (ℕ × Connection)
  pub timeout_instant : Connection → Option ℕ
  -- `get_next_release_time().and_then(|release| release.time(now))`
  pub next_release : Connection → ℕ → Option ℕ
  pub on_timeout : Connection → Connection
  -- with the caller's buffer after the call
  pub recv : Connection → List ℕ → RecvInfo → Connection × List ℕ × Result QError ℕ
  pub send : Connection → List ℕ → Connection × List ℕ × Result QError (ℕ × SendInfo)
  -- how many streams the writable and the readable queue hold
  pub writable_count : Connection → ℕ
  pub readable_count : Connection → ℕ
  pub writable_next_less :
      (c c' : Connection) (id : ℕ)
      → stream_writable_next c ≡ some (id, c')
      → writable_count c' < writable_count c
  pub readable_next_less :
      (c c' : Connection) (id : ℕ)
      → stream_readable_next c ≡ some (id, c')
      → readable_count c' < readable_count c
  pub close_same :
      (c : Connection) (app : Bool) (e : ℕ) (reason : List ℕ)
      → identity is_server source_id (close c app e reason).0 ≡ identity is_server source_id c
  pub stream_priority_same :
      (c : Connection) (id urgency : ℕ) (incremental : Bool)
      → identity is_server source_id (stream_priority c id urgency incremental).0
        ≡ identity is_server source_id c
  pub stream_shutdown_same :
      (c : Connection) (id e : ℕ)
      → identity is_server source_id (stream_shutdown_read c id e).0
        ≡ identity is_server source_id c
  pub stream_send_same :
      (c : Connection) (id : ℕ) (buf : List ℕ) (fin : Bool)
      → identity is_server source_id (stream_send c id buf fin).0 ≡ identity is_server source_id c
  pub stream_recv_same :
      (c : Connection) (id : ℕ) (buf : List ℕ)
      → identity is_server source_id (stream_recv c id buf).0 ≡ identity is_server source_id c
  pub stream_writable_same :
      (c : Connection) (id len : ℕ)
      → identity is_server source_id (stream_writable c id len).0 ≡ identity is_server source_id c
  pub writable_next_same :
      (c c' : Connection) (id : ℕ)
      → stream_writable_next c ≡ some (id, c')
      → identity is_server source_id c' ≡ identity is_server source_id c
  pub readable_next_same :
      (c c' : Connection) (id : ℕ)
      → stream_readable_next c ≡ some (id, c')
      → identity is_server source_id c' ≡ identity is_server source_id c
  pub on_timeout_same :
      (c : Connection)
      → identity is_server source_id (on_timeout c) ≡ identity is_server source_id c
  pub recv_same :
      (c : Connection) (buf : List ℕ) (info : RecvInfo)
      → identity is_server source_id (recv c buf info).0 ≡ identity is_server source_id c
  pub send_same :
      (c : Connection) (buf : List ℕ)
      → identity is_server source_id (send c buf).0 ≡ identity is_server source_id c

-- the role of a connection, and its id
abbrev pub endpoint : (q : Quiche) → q.Connection → Bool × List ℕ
endpoint q = identity q.is_server q.source_id

-- The functions of the crate that are no methods of a connection. A function that takes `&mut` of a
-- buffer or of a configuration returns it after the call.
pub record Endpoint (q : Quiche) : Type 1 where
  pub Config : Type 0
  pub header_from_slice : List ℕ → Result q.QError Header
  pub version_is_supported : ℕ → Bool
  -- the id of the connection, the original destination id, the local and the peer's address
  pub accept :
      Config → List ℕ → List ℕ → SocketAddr → SocketAddr → Config × Result q.QError q.Connection
  -- the source, destination and new source id, the token and the version
  pub retry : List ℕ → List ℕ → List ℕ → List ℕ → ℕ → List ℕ → List ℕ × Result q.QError ℕ
  pub negotiate_version : List ℕ → List ℕ → List ℕ → List ℕ × Result q.QError ℕ
  -- the server's name, the id of the connection, the local and the peer's address
  pub connect :
      Config
      → Option (List ℕ)
      → List ℕ
      → SocketAddr
      → SocketAddr
      → Config × Result q.QError q.Connection
