-- ===== src/Tests/Tokens.antt =====
-- Retry tokens, on small inputs.
use rtt.Prelude.{
  ℕ, ◌+◌, ◌*◌, ◌≡◌, ◌≢◌, some, List, [], ◌∷◌, ◌++◌, value, panic, arith, length, replicate,
  length-replicate,
}
use rtt.Acceptor.{
  SimpleAddressValidator, octets, to_be_bytes, mint_retry_token, validate, nanos_per_sec, Acceptor,
  simple,
}
use rtt.Acceptor.Tokens.{validate-mint, validate_future}
use rtt.Tests.Peer.{peers, endpoints, some_address}

-- a digest of 32 bytes
abbrev pub digest : List ℕ → List ℕ
digest xs = replicate 32 (length xs)

abbrev pub validator : SimpleAddressValidator
validator = record { seed = 1 ∷ 2 ∷ []; expiration_interval = 60 * nanos_per_sec }

validate-mint_example :
    validate digest validator []
      (5 ∷ [])
      some_address
      (mint_retry_token digest validator []
        (9 ∷ 8 ∷ [])
        (5 ∷ [])
        some_address
        (100 * nanos_per_sec + 5))
      (101 * nanos_per_sec)
    ≡ value (some (9 ∷ 8 ∷ []))
validate-mint_example =
    validate-mint digest validator [] [] (9 ∷ 8 ∷ []) (5 ∷ []) some_address
      (100 * nanos_per_sec + 5) (101 * nanos_per_sec) (λ xs. length-replicate 32 (length xs))
      (omega arith) (omega arith) (omega arith)

validate_future_example :
    validate digest validator []
      (5 ∷ [])
      some_address
      (octets some_address.ip ++ (to_be_bytes 8 200 ++ replicate 32 0))
      (101 * nanos_per_sec)
    ≡ panic
validate_future_example =
    validate_future digest validator [] (5 ∷ []) (replicate 32 0) some_address 200
      (101 * nanos_per_sec) (omega arith) (omega (arith, length-replicate {A = ℕ} 32 0))
      (omega arith)

other_address : (10 ∷ 0 ∷ 0 ∷ 1 ∷ []) ≢ octets some_address.ip
unfolding octets
other_address e = ground arith

abbrev pub acceptor : Acceptor peers endpoints
acceptor = record { config = tt; address_validator = simple digest validator }
