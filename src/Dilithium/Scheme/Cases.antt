-- ===== src/Dilithium/Scheme/Cases.antt =====
-- src/dilithium/mod.rs: the tests beside the code on keys, their sizes and signing, as functions that
-- panic where an assertion fails.
use blackchain_crypto_lib_ru.Base.{
  ◌≡◌, refl, not, Bytes, codes, plain, ok, ◌>>=◌, ◌>>◌, assert_that, or_panic, succeeds, fails,
  bytes_eq, bytes_eq_iff, ◌==◌, length, replicate, length-replicate, arith, ℕ, Bool, Panics,
}
use blackchain_crypto_lib_ru.Crates.{MlDsa, Entropy}
use blackchain_crypto_lib_ru.Crates.Laws.{MlDsaLaws}
use blackchain_crypto_lib_ru.Dilithium.{
  seed_size, public_key_size, private_key_size, signature_size, to_vec, seed_bytes, sign_internal,
  verify_internal, generate_key, from_seed, new_key_from_seed, derive_key_with_seed,
}
use blackchain_crypto_lib_ru.Dilithium.Keys.{
  expanded, private_from_bytes_lem, new_key_from_seed_lem, signed_verifies,
  derive_key_with_seed_wrong,
}
use blackchain_crypto_lib_ru.Dilithium.Scheme.{scheme, derive_key}
use blackchain_crypto_lib_ru.Dilithium.Scheme.Contract.{seed_bytes_lem, ml_dsa_scheme-Honours}
use blackchain_crypto_lib_ru.Error.{Fallible}
use blackchain_crypto_lib_ru.Programs.Trials.{Draws}
use blackchain_crypto_lib_ru.Sign.{DynPublicKey, DynPrivateKey}

abbrev check : Bool → Fallible (Unit {0})
check b = assert_that b (plain "assertion failed")

abbrev pub roundtrip_message : Bytes
roundtrip_message = codes "Blackchain PQC ML-DSA-87 round-trip"

module _ (m : MlDsa) where
  unfoldable pub scheme_metadata : Fallible (Unit {0})
  scheme_metadata = do
    check (bytes_eq (codes (scheme m).name) (codes "ML-DSA-87"))
    check ((scheme m).public_key_size == public_key_size)
    check ((scheme m).private_key_size == private_key_size)
    check ((scheme m).signature_size == signature_size)
    check ((scheme m).seed_size == seed_size)
    check (not (scheme m).supports_context)

  unfoldable pub generate_key_produces_correct_sizes : Entropy → Fallible (Unit {0})
  generate_key_produces_correct_sizes entropy = do
    (pk, sk) ← or_panic (λ e. plain "keygen") (generate_key m entropy)
    check (length (to_vec m pk) == public_key_size)
    seed ← or_panic (λ e. plain "seed_bytes") (seed_bytes m sk)
    check (length seed == private_key_size)

  unfoldable pub derive_key_is_deterministic : Fallible (Unit {0})
  derive_key_is_deterministic = do
    let seed : Bytes = replicate 32 0xab
    (pk1, sk1) ← or_panic (λ e. plain "seed") (new_key_from_seed m seed)
    (pk2, sk2) ← or_panic (λ e. plain "seed") (new_key_from_seed m seed)
    check (bytes_eq (to_vec m pk1) (to_vec m pk2))
    seed1 ← or_panic (λ e. plain "seed_bytes") (seed_bytes m sk1)
    seed2 ← or_panic (λ e. plain "seed_bytes") (seed_bytes m sk2)
    check (bytes_eq seed1 seed2)

  -- The test that should panic.
  unfoldable pub derive_key_panics_on_wrong_seed_size : Fallible (DynPublicKey × DynPrivateKey)
  derive_key_panics_on_wrong_seed_size = derive_key m (replicate 31 0)

  unfoldable pub derive_key_with_seed_errors_on_wrong_size : Fallible (Unit {0})
  derive_key_with_seed_errors_on_wrong_size = do
    rejected ← fails (derive_key_with_seed m (replicate 33 0))
    check rejected

  unfoldable pub sign_verify_roundtrip_typed : Entropy → Fallible (Unit {0})
  sign_verify_roundtrip_typed entropy = do
    (pk, sk) ← or_panic (λ e. plain "keygen") (generate_key m entropy)
    sig ← or_panic (λ e. plain "sign") (sign_internal m sk roundtrip_message)
    check (length sig == signature_size)
    verified ← succeeds (verify_internal m pk roundtrip_message sig)
    check verified

  unfoldable pub signing_is_deterministic : Fallible (Unit {0})
  signing_is_deterministic = do
    (_, sk) ← or_panic (λ e. plain "seed") (new_key_from_seed m (replicate 32 0x7))
    sig1 ← or_panic (λ e. plain "sign") (sign_internal m sk (codes "same"))
    sig2 ← or_panic (λ e. plain "sign") (sign_internal m sk (codes "same"))
    check (bytes_eq sig1 sig2)

  scheme_metadata_lem : scheme_metadata ≡ ok tt
  unfolding scheme_metadata scheme
  scheme_metadata_lem = let name = codes "ML-DSA-87" in rw ((bytes_eq_iff name name).1 refl) refl

  module _ (laws : MlDsaLaws m) where
    made :
        (entropy : Entropy) (d : Draws 32 entropy)
        → generate_key m entropy ≡ ok ((expanded m laws d.seed).public, expanded m laws d.seed)
    unfolding generate_key from_seed
    made entropy d = rw (d.drawn, private_from_bytes_lem m laws d.seed d.sized) refl

    generate_key_sizes_lem :
        (entropy : Entropy) → Draws 32 entropy → generate_key_produces_correct_sizes entropy ≡ ok tt
    unfolding generate_key_produces_correct_sizes to_vec
    generate_key_sizes_lem entropy d =
        rw
          (
            made entropy d,
            laws.length-encode (expanded m laws d.seed).public,
            seed_bytes_lem m laws d.seed d.sized,
            d.sized,
          )
          refl

    derive_key_is_deterministic_lem : derive_key_is_deterministic ≡ ok tt
    unfolding derive_key_is_deterministic
    derive_key_is_deterministic_lem =
        let seed = replicate {A = ℕ} 32 0xab in
        let sized : length seed ≡ 32 = length-replicate 32 0xab in
        let pk = to_vec m (expanded m laws seed).public in
        rw
          (
            new_key_from_seed_lem m laws seed sized,
            (bytes_eq_iff pk pk).1 refl,
            seed_bytes_lem m laws seed sized,
            (bytes_eq_iff seed seed).1 refl,
          )
          refl

    derive_key_panics_lem : Panics derive_key_panics_on_wrong_seed_size
    unfolding derive_key_panics_on_wrong_seed_size scheme
    derive_key_panics_lem =
        (ml_dsa_scheme-Honours m laws).wrong_seed (replicate 31 0)
          (λ e. omega (arith, e, length-replicate {A = ℕ} 31 0))

    derive_key_with_seed_errors_lem : derive_key_with_seed_errors_on_wrong_size ≡ ok tt
    unfolding derive_key_with_seed_errors_on_wrong_size
    derive_key_with_seed_errors_lem =
        let refused =
          derive_key_with_seed_wrong m laws (replicate 33 0)
            (λ e. omega (arith, e, length-replicate {A = ℕ} 33 0)) in
        rw refused.0 refl

    sign_verify_roundtrip_lem :
        (entropy : Entropy) → Draws 32 entropy → sign_verify_roundtrip_typed entropy ≡ ok tt
    unfolding sign_verify_roundtrip_typed
    sign_verify_roundtrip_lem entropy d =
        let (sig, signed, sized, verified) = signed_verifies m laws d.seed roundtrip_message in
        rw (made entropy d, signed, sized, verified) refl

    signing_is_deterministic_lem : signing_is_deterministic ≡ ok tt
    unfolding signing_is_deterministic
    signing_is_deterministic_lem =
        let seed = replicate {A = ℕ} 32 0x7 in
        let (sig, signed, _, _) = signed_verifies m laws seed (codes "same") in
        rw
          (
            new_key_from_seed_lem m laws seed (length-replicate 32 0x7),
            signed,
            (bytes_eq_iff sig sig).1 refl,
          )
          refl
