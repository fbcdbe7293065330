-- ===== src/Api.antt =====
-- crates/api/src/lib.rs: the types and stream-id tests that the other crates share. `E` stands for
-- `quiche::Error`.
use native.Mathlib.Decide.{ℕ_discrete}
use rtt.Prelude.{ℕ, ◌+◌, ◌*◌, ◌≡◌, refl, arith, ◌%◌, ◌/◌, Bool, true, false, ◌==◌, if◌then◌else◌}
use rtt.Prelude.Io.{Result, ok, err, IoResult, ErrorKind, Poll, ready, pending}

-- `Error`
pub data Error (E : Type 0) : Type 0 where
  quiche : E → Error E
  retry busy not_found validate_address max_streams : Error E

-- `From<Error> for std::io::Error`, the kind of the error made
unfoldable pub to_io_error : {E : Type 0} → Error E → ErrorKind
to_io_error (quiche e) = ErrorKind.other
to_io_error retry = ErrorKind.would_block
to_io_error busy = ErrorKind.would_block
to_io_error not_found = ErrorKind.not_found
to_io_error validate_address = ErrorKind.other
to_io_error max_streams = ErrorKind.other

-- `WouldBlock::would_block` of `Result<T>`
unfoldable pub would_block : {E A : Type 0} → Result (Error E) A → Poll (Result (Error E) A)
would_block (err busy) = pending
would_block (err retry) = pending
would_block r = ready r

-- `WouldBlock::would_block` of `std::io::Result<T>`
unfoldable pub io_would_block : {A : Type 0} → IoResult A → Poll (IoResult A)
io_would_block (err ErrorKind.would_block) = pending
io_would_block r = ready r

-- `map_err(std::io::Error::from)`
unfoldable pub map_err : {E A : Type 0} → Result (Error E) A → IoResult A
unfolding to_io_error
map_err (ok a) = ok a
map_err (err e) = err (to_io_error e)

-- `is_server as u64`
abbrev pub as_u64 : Bool → ℕ
as_u64 true = 1
as_u64 false = 0

-- `stream_id & 0x1` is `stream_id % 2`, and `stream_id & 0x2` is 0 if the next bit is.
unfoldable pub is_local : ℕ → Bool → Bool
is_local stream_id is_server = stream_id % 2 == as_u64 is_server

unfoldable pub is_bidi : ℕ → Bool
is_bidi stream_id = stream_id / 2 % 2 == 0

pub data EventKind : Type 0 where
  send recv connected accept closed stream_open_bidi stream_open_uni : EventKind
  stream_accept stream_send stream_recv read_lock : EventKind

pub EventKind-discrete : Discrete EventKind
EventKind-discrete = hlevel

-- `Event`; a `Token` is its u32.
pub record Event : Type 0 where
  pub token : ℕ
  pub kind : EventKind
  pub is_server : Bool
  pub is_error : Bool
  pub stream_id : ℕ

unfoldable pub Event-discrete : Discrete Event
Event-discrete = hlevel ℕ_discrete

pub data StreamKind : Type 0 where
  uni bidi : StreamKind

unfoldable pub StreamKind-discrete : Discrete StreamKind
StreamKind-discrete = hlevel

-- `From<u64> for StreamKind`
unfoldable pub stream_kind : ℕ → StreamKind
stream_kind value = if is_bidi value then bidi else uni

-- the same `Poll` with its error as one of std::io
abbrev pub poll_map_err : {E A : Type 0} → Poll (Result (Error E) A) → Poll (IoResult A)
poll_map_err pending = pending
poll_map_err (ready r) = ready (map_err r)

-- Turning a result into one of std::io and filtering the errors that would block gives what
-- filtering first and turning the rest gives.
pub io_would_block-map_err :
    {E A : Type 0} (r : Result (Error E) A)
    → io_would_block (map_err r) ≡ poll_map_err (would_block r)
unfolding io_would_block map_err would_block
io_would_block-map_err (ok a) = refl
io_would_block-map_err (err (quiche e)) = refl
io_would_block-map_err (err retry) = refl
io_would_block-map_err (err busy) = refl
io_would_block-map_err (err not_found) = refl
io_would_block-map_err (err validate_address) = refl
io_would_block-map_err (err max_streams) = refl

-- The low bits of a stream id name its endpoint and its kind: of the ids 4 n + 0, 1, 2 and 3, the
-- even ones are the client's, and the first two are of bidirectional streams.
pub stream_ids :
    (n : ℕ)
    → (is_local (4 * n) false ≡ true)
      × (stream_kind (4 * n) ≡ bidi)
      × (is_local (4 * n + 1) true ≡ true)
      × (stream_kind (4 * n + 1) ≡ bidi)
      × (is_local (4 * n + 2) false ≡ true)
      × (stream_kind (4 * n + 2) ≡ uni)
      × (is_local (4 * n + 3) true ≡ true)
      × (stream_kind (4 * n + 3) ≡ uni)
unfolding is_local stream_kind is_bidi
stream_ids n = (
  ground arith,
  ground arith,
  ground arith,
  ground arith,
  ground arith,
  ground arith,
  ground arith,
  ground arith,
)
