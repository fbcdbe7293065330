-- ===== src/Acceptor/Tokens.antt =====
-- crates/api/src/acceptor.rs: retry tokens, minted and validated.
use native.Mathlib.Decide.{ℕ_discrete}
use rtt.Prelude.{
  ℕ, zero, suc, ◌+◌, ◌-◌, ◌*◌, ◌/◌, ◌%◌, ◌^◌, ◌≤◌, ◌<◌, ◌≡◌, ◌≢◌, refl, sym, ap, ◌∙◌, true, false,
  none, some, List, [], ◌∷◌, ◌++◌, ltb, value, panic, arith, length, slice, slice-append,
  length-append, append_assoc, append-nil, inl, inr, Bool-cases,
}
use rtt.Prelude.Collections.{list_discrete, beq_iff, beq_self}
use rtt.Net.{SocketAddr, RecvInfo}
use rtt.Quiche.{Quiche, Header, Endpoint}
use rtt.Acceptor.{
  to_be_bytes, from_be, from_be_bytes, bytes_eq, octets, nanos_per_sec, SimpleAddressValidator,
  mint_retry_token, check_token, validate, Acceptor, shake,
}

length-to_be_bytes : (n x : ℕ) → length (to_be_bytes n x) ≡ n
unfolding to_be_bytes
length-to_be_bytes zero x = refl
length-to_be_bytes (suc n) x =
    omega (
      arith,
      length-append (to_be_bytes n (x / 256)) (x % 256 ∷ []),
      length-to_be_bytes n (x / 256),
    )

from_be-append :
    (acc : ℕ) (xs : List ℕ) (y : ℕ) → from_be acc (xs ++ (y ∷ [])) ≡ from_be acc xs * 256 + y
unfolding from_be
from_be-append acc [] y = refl
from_be-append acc (x ∷ xs) y = from_be-append (acc * 256 + x) xs y

-- Big-endian bytes read back.
from_be-to_be_bytes : (n x : ℕ) → x < 256 ^ n → from_be_bytes (to_be_bytes n x) ≡ x
unfolding to_be_bytes from_be
from_be-to_be_bytes zero x h = omega arith
from_be-to_be_bytes (suc n) x h =
    from_be-append 0 (to_be_bytes n (x / 256)) (x % 256)
    ∙ ap (λ y. y * 256 + x % 256) (from_be-to_be_bytes n (x / 256) (omega arith))
    ∙ omega arith

module _ (sha256 : List ℕ → List ℕ) where
  -- The part of `validate_address` before the timestamp is compared, on a token put together.
  validate_parts :
      (v : SimpleAddressValidator) (scid dcid : List ℕ) (src : SocketAddr) (secs now : ℕ)
      (rest : List ℕ)
      → secs < 256 ^ 8
      → 32 ≤ length rest
      → let token = octets src.ip ++ (to_be_bytes 8 secs ++ rest) in
        validate sha256 v scid dcid src token now
        ≡ check_token sha256 v dcid token (length (octets src.ip)) (secs * nanos_per_sec) now
  unfolding validate
  validate_parts v scid dcid src secs now rest h long =
      let addr = octets src.ip in
      let time = to_be_bytes 8 secs in
      let token = addr ++ (time ++ rest) in
      let size = length-append addr (time ++ rest) in
      let size' = length-append time rest in
      let eight = length-to_be_bytes 8 secs in
      let enough : ltb (length token) (length addr + 40) ≡ false = ground arith in
      let front : slice token 0 (length addr) ≡ value addr =
        slice-append [] addr (time ++ rest) 0 (length addr) refl (omega arith) in
      let stamp : slice token (length addr) (length addr + 8) ≡ value time =
        slice-append addr time rest (length addr) (length addr + 8) refl (omega arith) in
      rw (
        enough,
        front,
        beq_self (list_discrete ℕ_discrete) addr,
        stamp,
        from_be-to_be_bytes 8 secs h,
      )

  -- `check_token` on a token put together: what was signed, and its digest.
  check_signed :
      (v : SimpleAddressValidator) (addr time odcid dcid : List ℕ) (timestamp now : ℕ)
      → length time ≡ 8
      → timestamp ≤ now
      → now - timestamp ≤ v.expiration_interval
      → let digest = sha256 (v.seed ++ ((addr ++ (time ++ odcid)) ++ dcid)) in
        length digest ≡ 32
        → check_token sha256 v dcid
            (addr ++ (time ++ (odcid ++ digest)))
            (length addr)
            timestamp
            now
          ≡ value (some odcid)
  unfolding check_token
  check_signed v addr time odcid dcid timestamp now eight old fresh long =
      let signed = addr ++ (time ++ odcid) in
      let digest = sha256 (v.seed ++ (signed ++ dcid)) in
      let token = addr ++ (time ++ (odcid ++ digest)) in
      let size = length-append addr (time ++ (odcid ++ digest)) in
      let size1 = length-append time (odcid ++ digest) in
      let size2 = length-append odcid digest in
      let size3 = length-append addr (time ++ odcid) in
      let size4 = length-append time odcid in
      let size5 = length-append addr time in
      let split : token ≡ signed ++ digest = simp append_assoc in
      let split' : token ≡ (addr ++ time) ++ (odcid ++ digest) = simp append_assoc in
      let past : ltb now timestamp ≡ false = ground arith in
      let young : ltb v.expiration_interval (now - timestamp) ≡ false = ground arith in
      let end : slice token (length token - 32) (length token) ≡ value digest =
        ap (λ t. slice t (length token - 32) (length token))
          (split ∙ ap (◌++◌ signed) (sym (append-nil digest)))
        ∙ slice-append signed digest [] _ _ (omega arith) (omega arith) in
      let body : slice token 0 (length token - 32) ≡ value signed =
        ap (λ t. slice t 0 (length token - 32)) split
        ∙ slice-append [] signed digest 0 (length token - 32) refl (omega arith) in
      let id : slice token (length addr + 8) (length token - 32) ≡ value odcid =
        ap (λ t. slice t (length addr + 8) (length token - 32)) split'
        ∙ slice-append (addr ++ time) odcid digest _ _ (omega arith) (omega arith) in
      rw (past, young, end, body, id, beq_self (list_discrete ℕ_discrete) digest)

  -- A retry token that was minted for an address, and is validated from this address with the
  -- source id that it was minted for as the destination id, gives the original destination id
  -- back, if the clock has not gone back, the token has not expired, the seconds of its instant
  -- fit u64 and the digest has 32 bytes.
  pub validate-mint :
      (v : SimpleAddressValidator) (scid scid' dcid new_scid : List ℕ) (src : SocketAddr)
      (minted now : ℕ)
      → ((xs : List ℕ) → length (sha256 xs) ≡ 32)
      → minted ≤ now
      → now - minted / nanos_per_sec * nanos_per_sec ≤ v.expiration_interval
      → minted / nanos_per_sec < 2 ^ 64
      → validate sha256 v scid' new_scid src
          (mint_retry_token sha256 v scid dcid new_scid src minted)
          now
        ≡ value (some dcid)
  unfolding mint_retry_token
  validate-mint v scid scid' dcid new_scid src minted now long old fresh small =
      let addr = octets src.ip in
      let secs = minted / nanos_per_sec in
      let time = to_be_bytes 8 secs in
      let digest = sha256 (v.seed ++ ((addr ++ (time ++ dcid)) ++ new_scid)) in
      let tail = length-append dcid digest in
      let size = long (v.seed ++ ((addr ++ (time ++ dcid)) ++ new_scid)) in
      let split : (addr ++ (time ++ dcid)) ++ digest ≡ addr ++ (time ++ (dcid ++ digest)) =
        simp append_assoc in
      ap (λ t. validate sha256 v scid' new_scid src t now) split
      ∙ validate_parts v scid' new_scid src secs now (dcid ++ digest) (omega arith) (omega arith)
      ∙ check_signed v addr time dcid new_scid (secs * nanos_per_sec) now
          (length-to_be_bytes 8 secs) (omega arith) fresh size

  -- A retry token that starts with the octets of the sender and a timestamp ahead of the clock,
  -- whose seconds fit u64, makes the validation panic, whatever the at least 32 bytes after them
  -- are.
  pub validate_future :
      (v : SimpleAddressValidator) (scid dcid rest : List ℕ) (src : SocketAddr) (secs now : ℕ)
      → secs < 2 ^ 64
      → 32 ≤ length rest
      → now < secs * nanos_per_sec
      → validate sha256 v scid dcid src (octets src.ip ++ (to_be_bytes 8 secs ++ rest)) now ≡ panic
  unfolding check_token
  validate_future v scid dcid rest src secs now small long ahead =
      let early : ltb now (secs * nanos_per_sec) ≡ true = ground arith in
      validate_parts v scid dcid src secs now rest (omega arith) long ∙ rw early

  -- A retry token that starts with other octets than those of the sender, of the same number, is
  -- refused.
  pub validate_other_address :
      (v : SimpleAddressValidator) (scid dcid octets' rest : List ℕ) (src : SocketAddr) (now : ℕ)
      → length octets' ≡ length (octets src.ip)
      → octets' ≢ octets src.ip
      → validate sha256 v scid dcid src (octets' ++ rest) now ≡ value none
  unfolding validate
  validate_other_address v scid dcid octets' rest src now size differ =
      let addr = octets src.ip in
      let start : ltb (length (octets' ++ rest)) (length addr + 40) ≡ false
          → slice (octets' ++ rest) 0 (length addr) ≡ value octets' =
        λ h. slice-append [] octets' rest 0 (length addr) refl (omega arith) in
      let apart : bytes_eq addr octets' ≡ false = elim (Bool-cases (bytes_eq addr octets')) [
        | inl same ↦
            absurd (differ (sym ((beq_iff (list_discrete ℕ_discrete) addr octets').0 same)))
        | inr differs ↦ differs
      ] in
      elim (Bool-cases (ltb (length (octets' ++ rest)) (length addr + 40))) [
        | inl short ↦ rw short
        | inr enough ↦ rw (enough, start enough, apart)
      ]

-- A packet of a supported version without a token makes the handshake panic.
pub shake_without_token :
    (q : Quiche) (e : Endpoint q) (a : Acceptor q e) (header : Header) (buf new_scid : List ℕ)
    (info : RecvInfo) (now : ℕ)
    → e.version_is_supported header.version ≡ true
    → header.token ≡ none
    → shake q e a header buf info now new_scid ≡ panic
unfolding shake
shake_without_token q e a header buf new_scid info now supported missing = rw (supported, missing)
