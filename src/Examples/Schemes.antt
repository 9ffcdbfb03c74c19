-- ===== src/Examples/Schemes.antt =====
-- The three signature schemes on small inputs.
use blackchain_crypto_lib_ru.Base.{
  Panics, ℕ, none, [], ◌∷◌, Bytes, ok, ◌≡◌, ◌≢◌, ◌↔◌, replicate, length, arith, Panics,
  length-replicate,
}
use blackchain_crypto_lib_ru.Crates.Toy.Curve.{
  toy_public, toy_public-All, toy_ed448_rust, toy_ed448_rust-Ed448RustLaws,
}
use blackchain_crypto_lib_ru.Crates.Toy.Group.{one_of, class, toy_goldilocks, toy_curve_laws}
use blackchain_crypto_lib_ru.Crates.Toy.Signatures.{
  toy_hashes, toy_hashes-HashLaws, toy_p521, toy_p521-P521Laws, toy_ml_dsa, toy_ml_dsa-MlDsaLaws,
}
use blackchain_crypto_lib_ru.Dilithium
use blackchain_crypto_lib_ru.Dilithium.Keys.{verify_internal-sign_internal}
use blackchain_crypto_lib_ru.Ed448
use blackchain_crypto_lib_ru.Ed448.Equation.{reduce_lem}
use blackchain_crypto_lib_ru.Ed448.Keys.{verify_sig-sign_msg}
use blackchain_crypto_lib_ru.Ed448.Point.{decode_canonical_point}
use blackchain_crypto_lib_ru.Ed448.Point.Canonical.{IsCanonical, decode_canonical_point_iff}
use blackchain_crypto_lib_ru.Examples.Shared.{message}
use blackchain_crypto_lib_ru.P521
use blackchain_crypto_lib_ru.P521.Derive
use blackchain_crypto_lib_ru.P521.Keys.{verify_sig-public_key_typed}

decode_canonical_point_iff_example :
    (decode_canonical_point toy_goldilocks toy_public ≡ ok one_of)
    ↔ IsCanonical toy_goldilocks toy_public one_of
decode_canonical_point_iff_example =
    decode_canonical_point_iff toy_goldilocks toy_public toy_public-All one_of

reduce_lem_example : Ed448.reduce toy_hashes toy_ed448_rust toy_goldilocks (5 ∷ 1 ∷ []) ≡ class 261
reduce_lem_example =
    reduce_lem toy_hashes toy_ed448_rust toy_goldilocks toy_curve_laws (5 ∷ 1 ∷ [])
      (omega arith, (omega arith, tt))

verify_sig-sign_msg_example :
    (pk parsed : Ed448.PublicKey toy_hashes toy_ed448_rust toy_goldilocks) × (sk : Ed448.PrivateKey
      toy_hashes toy_ed448_rust toy_goldilocks)
    × (sig : Bytes) × (Ed448.from_seed toy_hashes toy_ed448_rust toy_goldilocks (replicate 57 3)
        ≡ ok (pk, sk))
    × (Ed448.public_from_bytes toy_hashes toy_ed448_rust toy_goldilocks pk.raw ≡ ok parsed)
    × (Ed448.sign_msg toy_hashes toy_ed448_rust toy_goldilocks sk message none ≡ ok sig)
    × (length sig ≡ 114)
    × (Ed448.verify_sig toy_hashes toy_ed448_rust toy_goldilocks pk message sig none ≡ ok tt)
    × (Ed448.verify_sig toy_hashes toy_ed448_rust toy_goldilocks parsed message sig none ≡ ok tt)
verify_sig-sign_msg_example =
    verify_sig-sign_msg toy_hashes toy_ed448_rust toy_goldilocks toy_curve_laws toy_hashes-HashLaws
      toy_ed448_rust-Ed448RustLaws (replicate 57 3) message none (length-replicate 57 3) tt

derive_keypair_from_seed_iff_example :
    (length (replicate {A = ℕ} 66 7) ≡ 66
      → (P521.derive_keypair_from_seed toy_p521 toy_hashes (replicate 66 7) ≡ ok (0, 0)) ↔ (
          Derive.FirstAccepted toy_p521 toy_hashes 256 0 (replicate 66 7) 0
          × (0 ≡ P521.public_key_typed toy_p521 0)))
    × (length (replicate {A = ℕ} 66 7) ≢ 66
        → Panics (P521.derive_keypair_from_seed toy_p521 toy_hashes (replicate 66 7)))
derive_keypair_from_seed_iff_example =
    Derive.derive_keypair_from_seed_iff toy_p521 toy_hashes toy_hashes-HashLaws (replicate 66 7) 0 0

-- Without randomness the crate of the example returns the high form.
verify_sig-public_key_typed_example :
    (length (P521.sign_msg toy_p521 4 message []) ≡ 132)
    × (P521.verify_sig toy_p521
          (P521.public_key_typed toy_p521 4)
          message
          (P521.sign_msg toy_p521 4 message [])
        ≡ ok tt)
verify_sig-public_key_typed_example =
    verify_sig-public_key_typed toy_p521 toy_p521-P521Laws 4 message []

verify_internal-sign_internal_example :
    (pk : Dilithium.PublicKey toy_ml_dsa) × (sk : Dilithium.PrivateKey toy_ml_dsa) × (packed
      sig : Bytes)
    × (Dilithium.derive_key_with_seed toy_ml_dsa (replicate 32 5) ≡ ok (pk, sk))
    × (Dilithium.seed_bytes toy_ml_dsa sk ≡ ok (replicate 32 5))
    × (Dilithium.pack toy_ml_dsa pk ≡ ok packed)
    × (Dilithium.public_from_bytes toy_ml_dsa packed ≡ ok pk)
    × (Dilithium.sign_internal toy_ml_dsa sk message ≡ ok sig)
    × (length sig ≡ 4627)
    × (Dilithium.verify_internal toy_ml_dsa pk message sig ≡ ok tt)
verify_internal-sign_internal_example =
    verify_internal-sign_internal toy_ml_dsa toy_ml_dsa-MlDsaLaws (replicate 32 5) message
      (length-replicate 32 5)
