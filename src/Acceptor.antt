-- ===== src/Acceptor.antt =====
-- crates/api/src/acceptor.rs: the retry tokens of the default address validator, and the handshake of
-- a server. Instants are nanoseconds since the epoch, and times and random bytes are arguments.
pub mod Tokens
use native.Mathlib.Decide.{ℕ_discrete}
use rtt.Prelude.{
  ℕ, zero, suc, ◌+◌, ◌-◌, ◌*◌, ◌/◌, ◌%◌, ◌≡◌, Bool, true, false, not, Option, none, some, List, [],
  ◌∷◌, ◌++◌, ltb, if◌then◌else◌, Checked, value, panic, ◌>>=◌, ◌>>◌, assert, length, slice,
}
use rtt.Prelude.Collections.{list_discrete, beq}
use rtt.Prelude.Io.{Result, ok, err}
use rtt.Api.{Error, quiche, validate_address}
use rtt.Net.{IpAddr, v4, v6, SocketAddr, RecvInfo}
use rtt.Quiche.{Quiche, Header, Endpoint}

-- `to_be_bytes` of a number of `n` bytes, and `from_be_bytes`
pub to_be_bytes : ℕ → ℕ → List ℕ
to_be_bytes zero x = []
to_be_bytes (suc n) x = to_be_bytes n (x / 256) ++ (x % 256 ∷ [])

pub from_be : ℕ → List ℕ → ℕ
from_be acc [] = acc
from_be acc (b ∷ bs) = from_be (acc * 256 + b) bs

abbrev pub from_be_bytes : List ℕ → ℕ
from_be_bytes = from_be 0

abbrev pub bytes_eq : List ℕ → List ℕ → Bool
bytes_eq = beq (list_discrete ℕ_discrete)

-- `octets`
unfoldable pub octets : IpAddr → List ℕ
octets (v4 a) = a
octets (v6 a) = a

abbrev pub nanos_per_sec : ℕ
nanos_per_sec = 1000000000

-- `SimpleAddressValidator`
pub record SimpleAddressValidator : Type 0 where
  pub seed : List ℕ
  pub expiration_interval : ℕ

-- `sha256` is the digest of `boring::sha::Sha256`.
module _ (sha256 : List ℕ → List ℕ) where
  -- `SimpleAddressValidator::mint_retry_token`, at the instant `now`
  pub mint_retry_token : SimpleAddressValidator → List ℕ → List ℕ → List ℕ → SocketAddr → ℕ → List ℕ
  unfolding octets to_be_bytes
  mint_retry_token v scid dcid new_scid src now =
      let token = octets src.ip ++ (to_be_bytes 8 (now / nanos_per_sec) ++ dcid) in
      token ++ sha256 (v.seed ++ (token ++ new_scid))

  -- The last part of `validate_address`, for the address's length and the token's timestamp: the
  -- subtraction of durations panics if the timestamp lies ahead.
  pub check_token : SimpleAddressValidator → List ℕ → List ℕ → ℕ → ℕ → ℕ → Checked (Option (List ℕ))
  check_token v dcid token addr_len timestamp now = do
    assert (not (ltb now timestamp))
    (if ltb v.expiration_interval (now - timestamp) then value none else (do
      digest ← slice token (length token - 32) (length token)
      signed ← slice token 0 (length token - 32)
      odcid ← slice token (addr_len + 8) (length token - 32)
      value (if bytes_eq digest (sha256 (v.seed ++ (signed ++ dcid))) then some odcid else none)))

  -- `SimpleAddressValidator::validate_address`
  pub validate :
      SimpleAddressValidator → List ℕ → List ℕ → SocketAddr → List ℕ → ℕ → Checked (Option (List ℕ))
  unfolding check_token octets from_be
  validate v scid dcid src token now =
      let addr = octets src.ip in
      if ltb (length token) (length addr + 40) then value none else (do
        prefix ← slice token 0 (length addr)
        (if not (bytes_eq addr prefix) then value none else (do
          secs ← slice token (length addr) (length addr + 8)
          check_token v dcid token (length addr) (from_be_bytes secs * nanos_per_sec) now)))

-- `AddressValidator`, at an instant
pub record AddressValidator (E : Type 0) : Type 0 where
  pub mint_retry_token : List ℕ → List ℕ → List ℕ → SocketAddr → ℕ → Result (Error E) (List ℕ)
  pub validate_address : List ℕ → List ℕ → SocketAddr → List ℕ → ℕ → Checked (Option (List ℕ))

pub simple : {E : Type 0} → (List ℕ → List ℕ) → SimpleAddressValidator → AddressValidator E
simple sha256 v = record {
  mint_retry_token =
      λ scid dcid new_scid src now. ok (mint_retry_token sha256 v scid dcid new_scid src now);
  validate_address = λ scid dcid src token now. validate sha256 v scid dcid src token now;
}

-- `Handshake`
pub data Handshake (C : Type 0) : Type 0 where
  handshake : ℕ → Handshake C
  accept : C → Handshake C

module _ (q : Quiche) (e : Endpoint q) where
  -- `Acceptor`
  pub record Acceptor : Type 0 where
    pub config : e.Config
    pub address_validator : AddressValidator q.QError

  abbrev pub Handshaken : Type 0
  Handshaken = Result (Error q.QError) (Handshake q.Connection)

  -- the packet size in a result, or its error
  abbrev pub sent : Result q.QError ℕ → Handshaken
  sent (ok size) = ok (handshake size)
  sent (err x) = err (quiche x)

  -- `retry`, with the random connection id
  unfoldable pub retry : Acceptor → Header → List ℕ → RecvInfo → ℕ → List ℕ → List ℕ × Handshaken
  retry a header buf info now new_scid =
      elim (a.address_validator.mint_retry_token header.scid header.dcid new_scid info.from now) [
        | err x ↦ (buf, err x)
        | ok token ↦
            let (buf', r) = e.retry header.scid header.dcid new_scid token header.version buf in
            (buf', sent r)
      ]

  unfoldable pub negotiate_version : Header → List ℕ → List ℕ × Handshaken
  negotiate_version header buf =
      let (buf', r) = e.negotiate_version header.scid header.dcid buf in (buf', sent r)

  -- the end of `handshake`, for the original destination id
  unfoldable pub accept_from : Acceptor → Header → RecvInfo → List ℕ → Acceptor × Handshaken
  accept_from a header info odcid =
      let (config', r) = e.accept a.config header.dcid odcid info.to info.from in
      (
        record a { config = config' },
        elim r [ ok conn ↦ ok (accept conn) | err x ↦ err (quiche x) ],
      )

  -- the part of `handshake` that reads a token
  unfoldable pub handshake_token :
      Acceptor
      → Header
      → List ℕ
      → RecvInfo
      → ℕ
      → List ℕ
      → List ℕ
      → Checked (Acceptor × List ℕ × Handshaken)
  handshake_token a header buf info now new_scid [] =
      let (buf', r) = retry a header buf info now new_scid in value (a, buf', r)
  handshake_token a header buf info now new_scid token = do
    valid ← a.address_validator.validate_address header.scid header.dcid info.from token now
    elim valid [
      | none ↦ value (a, buf, err validate_address)
      | some odcid ↦ let (a', r) = accept_from a header info odcid in value (a', buf, r)
    ]

  -- `Acceptor::handshake`: `panic` at the `unwrap` of the token
  unfoldable pub shake :
      Acceptor → Header → List ℕ → RecvInfo → ℕ → List ℕ → Checked (Acceptor × List ℕ × Handshaken)
  unfolding handshake_token
  shake a header buf info now new_scid =
      if not (e.version_is_supported header.version)
      then (let (buf', r) = negotiate_version header buf in value (a, buf', r))
      else elim header.token [
        | none ↦ panic
        | some token ↦ handshake_token a header buf info now new_scid token
      ]
