-- ===== src/Crypto/RoundTrip.antt =====
-- Composite signing followed by verification (src/crypto.rs), and public keys through their bytes.
use blackchain_crypto_lib_ru.Base.{
  ◌≡◌, refl, true, none, [], ◌∷◌, ◌++◌, Bytes, ok, length, replicate,
}
use blackchain_crypto_lib_ru.Crates.Laws.{CrateLaws}
use blackchain_crypto_lib_ru.Crates.{Crates}
use blackchain_crypto_lib_ru.Crypto.Checks.{Authentic, Authentic-length, verify_message_iff}
use blackchain_crypto_lib_ru.Crypto.Keys.{IsKeyPair, generate-IsKeyPair}
use blackchain_crypto_lib_ru.Crypto.PrivateKey.{BlackChainPrivateKey, generate, sign_message}
use blackchain_crypto_lib_ru.Crypto.PublicKey.{BlackChainPublicKey, verify_message}
use blackchain_crypto_lib_ru.Dilithium
use blackchain_crypto_lib_ru.Dilithium.Keys.{expanded}
use blackchain_crypto_lib_ru.Ed448
use blackchain_crypto_lib_ru.Ed448.Keys.{derived, derived_public}
use blackchain_crypto_lib_ru.P521
use blackchain_crypto_lib_ru.P521.Keys

module _ (c : Crates) (laws : CrateLaws c) where
  open c use {hashes, ml_dsa, ecdsa, ed448_rust, goldilocks}

  module _ (sk : BlackChainPrivateKey) (pk : BlackChainPublicKey) (pair : IsKeyPair c laws sk pk)
      (hash h_combined nonce : Bytes) where
    abbrev pub dil_secret : Dilithium.PrivateKey ml_dsa
    dil_secret = expanded ml_dsa laws.ml_dsa_laws pair.dil_seed

    abbrev pub ed448_secret : ed448_rust.PrivateKey
    ed448_secret = ed448_rust.private_from pair.ed448_seed

    abbrev pub p521_part : Bytes
    p521_part = P521.sign_msg ecdsa pair.p521_key (hash ++ (h_combined ++ 1 ∷ [])) nonce

    -- The three signatures that a key pair makes of a hash form an authentic composite.
    pub signed_parts :
        (dil_sig ed448_sig : Bytes) × (Dilithium.sign_internal ml_dsa dil_secret hash ≡ ok dil_sig)
        × (Ed448.sign_msg hashes ed448_rust goldilocks
              (derived hashes ed448_rust goldilocks ed448_secret)
              (hash ++ (h_combined ++ 2 ∷ []))
              none
            ≡ ok ed448_sig)
        × Authentic c pk hash h_combined (dil_sig ++ (p521_part ++ ed448_sig))
    signed_parts =
        let (dil_sig, dil_signed, dil_length, dil_verified) =
          Dilithium.Keys.signed_verifies ml_dsa laws.ml_dsa_laws pair.dil_seed hash in
        let (ed448_sig, ed448_signed, ed448_length, trusted, ed448_verified) =
          Ed448.Keys.signed_verifies hashes ed448_rust goldilocks laws.curve_laws laws.hash_laws
            laws.rust_laws ed448_secret (hash ++ (h_combined ++ 2 ∷ [])) none tt in
        let (p521_length, p521_verified) =
          Keys.verify_sig-public_key_typed ecdsa laws.p521_laws pair.p521_key
            (hash ++ (h_combined ++ 1 ∷ [])) nonce in
        (
          dil_sig,
          ed448_sig,
          dil_signed,
          ed448_signed,
          record {
            dil_key = dil_secret.public;
            p521_key = P521.public_key_typed ecdsa pair.p521_key;
            ed448_key = record {
              raw = (derived_public hashes ed448_rust goldilocks ed448_secret).raw;
              trusted_inner = none;
            };
            dil_sig = dil_sig;
            p521_sig = p521_part;
            ed448_sig = ed448_sig;
            splits = refl;
            length_dil = dil_length;
            length_p521 = p521_length;
            length_ed448 = ed448_length;
            dil_parses =
                rw pair.pk_dilithium
                  (Dilithium.Keys.public_from_bytes-encode ml_dsa laws.ml_dsa_laws _);
            dil_verifies = dil_verified;
            p521_parses = rw pair.pk_p521 (Keys.public_from_bytes-as_bytes ecdsa laws.p521_laws _);
            p521_verifies = p521_verified;
            ed448_parses = rw pair.pk_ed448 (
                Ed448.Keys.public_from_bytes_derived hashes ed448_rust goldilocks laws.curve_laws
                  laws.hash_laws laws.rust_laws ed448_secret);
            ed448_verifies = ed448_verified;
          },
        )

  -- The binding of a message signature, over the zero nonce.
  abbrev message_binding : BlackChainPublicKey → Bytes
  message_binding pk =
      hashes.shake256 (pk.dilithium ++ (pk.p521 ++ (pk.ed448 ++ replicate 16 0))) 32

  sign_message_lem :
      (sk : BlackChainPrivateKey) (pk : BlackChainPublicKey) (pair : IsKeyPair c laws sk pk)
      (message nonce : Bytes)
      → let hash = hashes.keccak256 message in
        let parts = signed_parts sk pk pair hash (message_binding pk) nonce in
        sign_message c sk message nonce
        ≡ ok (parts.0 ++ (p521_part sk pk pair hash (message_binding pk) nonce ++ parts.1))
  unfolding sign_message
  sign_message_lem sk pk pair message nonce =
      let hash = hashes.keccak256 message in
      let parts = signed_parts sk pk pair hash (message_binding pk) nonce in
      rw (
        pair.sk_public,
        pair.sk_dilithium,
        Dilithium.Keys.private_from_bytes_lem ml_dsa laws.ml_dsa_laws pair.dil_seed pair.length_dil,
        parts.2,
        pair.sk_p521,
        Keys.private_from_bytes-as_bytes ecdsa laws.p521_laws pair.p521_key,
        pair.sk_ed448,
        Ed448.Keys.private_from_bytes_lem hashes ed448_rust goldilocks pair.ed448_seed
            pair.length_ed448,
        parts.3,
      )

  -- What a generated key signs verifies under its public key, for every message and every randomness:
  -- signing returns a signature and verification returns true.
  pub verify_message-sign_message :
      (seed message nonce : Bytes) (sk : BlackChainPrivateKey) (pk : BlackChainPublicKey)
      → generate c seed ≡ ok (sk, pk)
      → (sig : Bytes) × (sign_message c sk message nonce ≡ ok sig)
        × (length sig ≡ 4873)
        × (verify_message c pk message sig ≡ ok true)
  verify_message-sign_message seed message nonce sk pk made =
      let pair = (generate-IsKeyPair c laws seed sk pk made).1 in
      let parts = signed_parts sk pk pair (hashes.keccak256 message) (message_binding pk) nonce in
      (
        _,
        sign_message_lem sk pk pair message nonce,
        Authentic-length c pk _ _ _ parts.4,
        (verify_message_iff c pk message _).1 parts.4,
      )
