-- ===== src/Programs/Trials/Ed448Trial.antt =====
-- src/bin/test_ed448.rs: the Ed448 wrapper step by step. A `panic!` of a failed step is an assertion; the
-- verdicts that are only printed are the result.
mod Run
use blackchain_crypto_lib_ru.Base.{
  Bool, none, some, List, [], ◌∷◌, ◌==◌, Bytes, codes, plain, ok, ◌>>=◌, ◌>>◌, assert_that,
  from_crate, or_panic, unwrapped, succeeds, fails, bytes_eq, slice, length,
}
use blackchain_crypto_lib_ru.Crates.{Hashes, Ed448Rust, Goldilocks, Entropy}
use blackchain_crypto_lib_ru.Ed448.{
  PublicKey, PrivateKey, public_from_bytes, verify_sig, sign_msg, as_bytes, generate_key, seed_size,
  public_key_size, private_key_size, signature_size,
}
use blackchain_crypto_lib_ru.Ed448.Scheme.{scheme, new_key_from_seed}
use blackchain_crypto_lib_ru.Error.{Fallible}
use blackchain_crypto_lib_ru.Programs.Trials.{flip_first, dynamic_step}
use blackchain_crypto_lib_ru.Sign.{SignatureOpts}

abbrev pub message : Bytes
message = codes "Hello from Blackchain PQC via Ed448!"

abbrev pub msg2 : Bytes
msg2 = codes "network roundtrip test"

abbrev pub tx_opts : SignatureOpts
tx_opts = record { context = codes "blackchain-tx" }

module _ (h : Hashes) (r : Ed448Rust) (g : Goldilocks) where
  -- Steps 2 to 4.
  unfoldable pub plain_steps : PublicKey h r g → PrivateKey h r g → Fallible (Unit {0})
  plain_steps pk sk = do
    signature ← or_panic (λ e. plain "Failed to sign") (sign_msg h r g sk message none)
    snippet ← slice 0 16 signature
    assert_that (length signature == signature_size) (plain "assertion `left == right` failed")
    verified ← succeeds (verify_sig h r g pk message signature none)
    assert_that verified (plain "Verification should have succeeded")
    bad_sig ← flip_first 0xff signature
    rejected ← fails (verify_sig h r g pk message bad_sig none)
    assert_that rejected (plain "Bad verification should have failed")

  -- Step 5: whether the signature verifies with its context, and whether it is refused without.
  unfoldable pub context_step : PublicKey h r g → PrivateKey h r g → Fallible (Bool × Bool)
  context_step pk sk = do
    ctx_sig ← or_panic (λ e. plain "Failed context sign") (sign_msg h r g sk message (some tx_opts))
    verified ← succeeds (verify_sig h r g pk message ctx_sig (some tx_opts))
    rejected ← fails (verify_sig h r g pk message ctx_sig none)
    ok (verified, rejected)

  -- Step 6.
  unfoldable pub seed_step : Entropy → Fallible (Unit {0})
  seed_step entropy = do
    root_seed ← or_panic (λ e. e) (from_crate (λ e. e) (entropy seed_size))
    (pk_a, _) ← new_key_from_seed h r g root_seed
    (pk_b, _) ← new_key_from_seed h r g root_seed
    assert_that (bytes_eq pk_a.raw pk_b.raw) (plain "Deterministic tests failed")

  -- Step 7.
  unfoldable pub roundtrip_step : Entropy → Fallible (Unit {0})
  roundtrip_step entropy = do
    (pk_orig, sk_orig) ← unwrapped (generate_key h r g entropy)
    sig2 ← unwrapped (sign_msg h r g sk_orig msg2 none)
    pk_recv ← unwrapped (public_from_bytes h r g pk_orig.raw)
    verified ← succeeds (verify_sig h r g pk_recv msg2 sig2 none)
    assert_that verified (plain "Public key roundtrip verification failed")

  -- The verdicts of steps 5 and 8. Each key draws its own randomness.
  unfoldable pub main : Entropy → Entropy → Entropy → Entropy → Fallible (List Bool)
  main keys root trip dynamic = do
    (pk, sk) ← or_panic (λ e. plain "Failed to generate keys") (generate_key h r g keys)
    sk_bytes ← unwrapped (as_bytes h r g sk)
    assert_that (length pk.raw == public_key_size) (plain "assertion `left == right` failed")
    assert_that (length sk_bytes == private_key_size) (plain "assertion `left == right` failed")
    plain_steps pk sk
    (context_ok, cross_rejected) ← context_step pk sk
    seed_step root
    roundtrip_step trip
    dynamic_ok ← dynamic_step (scheme h r g) message dynamic []
    ok (context_ok ∷ cross_rejected ∷ dynamic_ok ∷ [])
