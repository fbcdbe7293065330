-- ===== src/Udp.antt =====
-- crates/mio/src/udp.rs: a UDP socket with a queue of the packets that it could not send yet.
-- `mio::net::UdpSocket` is a third-party type: a parameter. The counters of metrics are left out.
pub mod Flushing
pub mod Queueing
pub mod Bounds
pub mod Blocking
pub mod Receiving
use rtt.Prelude.{
  ℕ, ◌≤◌, ◌≡◌, Bool, not, List, [], ◌∷◌, ◌++◌, ltb, ◌==◌, if◌then◌else◌, Checked, value, ◌>>=◌,
  ◌>>◌, assert, length,
}
use rtt.Prelude.Io.{Result, ok, err, IoResult, ErrorKind, other, Poll, ready, pending}
use rtt.Api.{io_would_block}
use rtt.Net.{SocketAddr}
use rtt.FixedBuf.{ArrayBuf}
use rtt.FixedBuf

-- what `recv_from` does to the caller's buffer
abbrev pub Fits : List ℕ → List ℕ × IoResult (ℕ × SocketAddr) → Type 0
Fits buf (buf', ok (size, from)) = (length buf' ≡ length buf) × (size ≤ length buf)
Fits buf (buf', err x) = length buf' ≡ length buf

-- A call returns the socket after it, and `recv_from` the caller's buffer. The law is what the
-- standard library documents: no more bytes are received than the buffer holds.
pub record UdpSocket : Type 1 where
  pub Socket : Type 0
  pub local_addr : Socket → IoResult SocketAddr
  pub send_to : Socket → List ℕ → SocketAddr → Socket × IoResult ℕ
  pub recv_from : Socket → List ℕ → Socket × List ℕ × IoResult (ℕ × SocketAddr)
  pub recv_from_fits :
      (s : Socket) (buf : List ℕ) → Fits buf ((recv_from s buf).1, (recv_from s buf).2)

-- the capacity of `QuicBuf`
abbrev pub buf_size : ℕ
buf_size = 1600

-- `QuicSocketError`
pub data QuicSocketError : Type 0 where
  is_full : ArrayBuf → QuicSocketError
  io : ErrorKind → QuicSocketError

-- `From<QuicSocketError> for std::io::Error`
unfoldable pub io_error : QuicSocketError → ErrorKind
io_error (is_full buf) = other
io_error (io x) = x

abbrev pub Packet : Type 0
Packet = ArrayBuf × SocketAddr

-- `map_err(std::io::Error::from)`
abbrev pub from_socket : {A : Type 0} → Result QuicSocketError A → IoResult A
from_socket (ok a) = ok a
from_socket (err x) = err (io_error x)

-- `_ = self.flush().map_err(std::io::Error::from).would_block()?`, less its early return
abbrev pub unless_blocked : Poll (IoResult (Unit {0})) → Result QuicSocketError (Unit {0})
unless_blocked pending = ok tt
unless_blocked (ready (ok u)) = ok tt
unless_blocked (ready (err x)) = err (io x)

module _ (u : UdpSocket) where
  -- `QuicSocket`
  pub record QuicSocket : Type 0 where
    pub sending_buffer_limits : ℕ
    pub sending : List Packet
    pub socket : u.Socket
    pub local_addr : SocketAddr

  -- `QuicSocket::new`
  unfoldable pub new : u.Socket → ℕ → Result QuicSocketError QuicSocket
  new socket sending_buffer_limits = elim (u.local_addr socket) [
    | err x ↦ err (io x)
    | ok local_addr ↦ ok (record {
      sending_buffer_limits = sending_buffer_limits;
      sending = [];
      socket = socket;
      local_addr = local_addr;
    })
  ]

  -- `is_full`
  abbrev pub full : QuicSocket → Bool
  full q = length q.sending == q.sending_buffer_limits

  -- the loop of `flush`
  unfoldable pub flush_queue :
      u.Socket → List Packet → Checked (u.Socket × List Packet × Result QuicSocketError (Unit {0}))
  flush_queue s [] = value (s, [], ok tt)
  flush_queue s ((buf, target) ∷ rest) = do
    bytes ← FixedBuf.readable_buf buf
    let (s', r) = u.send_to s bytes target
    elim r [ ok size ↦ flush_queue s' rest | err x ↦ value (s', (buf, target) ∷ rest, err (io x)) ]

  -- `flush`
  unfoldable pub flush : QuicSocket → Checked (QuicSocket × Result QuicSocketError (Unit {0}))
  unfolding flush_queue
  flush q = do
    (s, sending, r) ← flush_queue q.socket q.sending
    value (record q { socket = s; sending = sending }, r)

  unfoldable pub try_flush : QuicSocket → Checked (QuicSocket × Result QuicSocketError (Unit {0}))
  unfolding flush
  try_flush q = do (q', r) ← flush q; value (q', unless_blocked (io_would_block (from_socket r)))

  -- the part of `send_to` once there may be room
  unfoldable pub enqueue :
      QuicSocket → ArrayBuf → SocketAddr → Checked (QuicSocket × Result QuicSocketError ℕ)
  unfolding try_flush
  enqueue q buf target = if full q then value (q, err (is_full buf)) else (do
    let q' : QuicSocket = record q { sending = q.sending ++ ((buf, target) ∷ []) }
    assert (not (ltb q'.sending_buffer_limits (length q'.sending)))
    (q'', r) ← try_flush q'
    elim r [ ok u ↦ value (q'', ok (length q''.sending)) | err x ↦ value (q'', err x) ])

  -- `send_to`
  unfoldable pub send_to :
      QuicSocket → ArrayBuf → SocketAddr → Checked (QuicSocket × Result QuicSocketError ℕ)
  unfolding enqueue try_flush
  send_to q buf target = do
    (q', r) ← (if full q then try_flush q else value (q, ok tt))
    elim r [ ok u ↦ enqueue q' buf target | err x ↦ value (q', err x) ]

  -- `recv_from`, with the caller's buffer after the call
  unfoldable pub recv_from :
      QuicSocket → ArrayBuf → Checked (QuicSocket × ArrayBuf × Result QuicSocketError SocketAddr)
  recv_from q buf =
      let (s, bytes, r) = u.recv_from q.socket buf.buf in
      let q' : QuicSocket = record q { socket = s } in
      let buf' : ArrayBuf = record buf { buf = bytes } in
      elim r [
        | err x ↦ value (q', buf', err (io x))
        | ok (size, from) ↦ (do
          buf'' ← FixedBuf.writable_consume buf_size buf' size
          value (q', buf'', ok from))
      ]
