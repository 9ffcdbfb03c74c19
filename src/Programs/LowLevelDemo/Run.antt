-- ===== src/Programs/LowLevelDemo/Run.antt =====
-- The demonstration signs what it then verifies (src/bin/low_level_demo.rs).
use mathlib.Core.Path.{subst}
use blackchain_crypto_lib_ru.Base.{
  ◌+◌, ◌-◌, ◌≡◌, refl, none, [], ◌∷◌, ◌++◌, append_assoc, Bytes, ok, arith, copy_from_slice_exact,
  slice, slice_front, slice_middle, slice_back, slice_inside, length, length-append, length-take,
  length-drop, take, drop,
}
use blackchain_crypto_lib_ru.Crates.{Crates}
use blackchain_crypto_lib_ru.Crates.Laws.{CrateLaws}
use blackchain_crypto_lib_ru.Dilithium
use blackchain_crypto_lib_ru.Dilithium.Keys.{expanded, public_from_bytes-encode}
use blackchain_crypto_lib_ru.Ed448
use blackchain_crypto_lib_ru.Error.{CryptoError}
use blackchain_crypto_lib_ru.P521
use blackchain_crypto_lib_ru.P521.Keys.{public_from_bytes-as_bytes, verify_sig-public_key_typed}
use blackchain_crypto_lib_ru.Programs.LowLevelDemo.{
  DemoKeys, derive_keys, address_of, binding, receive, sign_and_verify, unsigned_tx,
}
use blackchain_crypto_lib_ru.Programs.LowLevelDemo.Keys.{keys_for, derived}
use blackchain_crypto_lib_ru.Transaction.Signing.{signature_hash}

-- Three parts that are cut out of their concatenation.
abbrev Cuts : Bytes → Bytes → Bytes → Type 0
Cuts a b d =
    (slice {E = CryptoError} 0 (length a) (a ++ (b ++ d)) ≡ ok a)
    × (slice {E = CryptoError} (length a) (length a + length b) (a ++ (b ++ d)) ≡ ok b)
    × (slice {E = CryptoError} (length a + length b) (length (a ++ (b ++ d))) (a ++ (b ++ d))
        ≡ ok d)

cuts : (a b d : Bytes) → Cuts a b d
cuts a b d = (
  slice_front (length a) a (b ++ d) refl,
  slice_middle (length a) (length a + length b) a b d refl refl,
  rw (← append_assoc) (slice_back (length a + length b) (a ++ b) d (length-append a b)),
)

module _ (c : Crates) (laws : CrateLaws c) where
  open c use {hashes, ml_dsa, ecdsa, ed448_rust, goldilocks}

  address_total : (pk_bytes : Bytes) → (address : Bytes) × (address_of c pk_bytes ≡ ok address)
  unfolding address_of
  address_total pk_bytes =
      let hash = hashes.keccak256 pk_bytes in
      let whole = laws.hash_laws.length-keccak256 pk_bytes in
      let sized : length (take 20 (drop 12 hash)) ≡ 20 =
        length-take 20 (drop 12 hash) (omega (arith, length-drop 12 hash)) in
      (
        take 20 (drop 12 hash),
        rw (
          slice_inside {E = CryptoError} 12 32 hash (omega arith) (omega arith),
          copy_from_slice_exact {E = CryptoError} 20 (take 20 (drop 12 hash)) sized,
        ),
      )

  length-p521_public : (pk : P521.PublicKey ecdsa) → length (P521.public_as_bytes ecdsa pk) ≡ 133
  unfolding P521.public_as_bytes
  length-p521_public pk = laws.p521_laws.length-to_encoded_point pk

  received :
      (dil_seed : Bytes) (p521_sk : P521.PrivateKey ecdsa) (inner : ed448_rust.PrivateKey)
      (hash address dil_sig p521_sig ed448_sig : Bytes)
      → let dil_pk = (expanded ml_dsa laws.ml_dsa_laws dil_seed).public in
        let p521_pk = P521.public_key_typed ecdsa p521_sk in
        let raw = (Ed448.Keys.derived_public hashes ed448_rust goldilocks inner).raw in
        let pk_bytes = ml_dsa.encode dil_pk ++ (P521.public_as_bytes ecdsa p521_pk ++ raw) in
        let bound =
          binding c (ml_dsa.encode dil_pk) (P521.public_as_bytes ecdsa p521_pk) raw address in
        address_of c pk_bytes ≡ ok address
        → Dilithium.verify_internal ml_dsa dil_pk hash dil_sig ≡ ok tt
        → P521.verify_sig ecdsa p521_pk (hash ++ (bound ++ 1 ∷ [])) p521_sig ≡ ok tt
        → Ed448.verify_sig hashes ed448_rust goldilocks
            (record { raw = raw; trusted_inner = none })
            (hash ++ (bound ++ 2 ∷ []))
            ed448_sig
            none
          ≡ ok tt
        → receive c pk_bytes
            (dil_sig ++ (p521_sig ++ ed448_sig))
            hash
            (length dil_sig)
            (length ed448_sig)
          ≡ ok tt
  unfolding receive
  received dil_seed p521_sk inner hash address dil_sig p521_sig ed448_sig found dil_ok p521_ok
        ed448_ok =
      let dil_pk = (expanded ml_dsa laws.ml_dsa_laws dil_seed).public in
      let p521_pk = P521.public_key_typed ecdsa p521_sk in
      let a = ml_dsa.encode dil_pk in
      let b = P521.public_as_bytes ecdsa p521_pk in
      let d = (Ed448.Keys.derived_public hashes ed448_rust goldilocks inner).raw in
      let length_a : length a ≡ 2592 = laws.ml_dsa_laws.length-encode dil_pk in
      let length_b : length b ≡ 133 = length-p521_public p521_pk in
      let front : slice {E = CryptoError} 0 2592 (a ++ (b ++ d)) ≡ ok a =
        slice_front 2592 a (b ++ d) length_a in
      let middle : slice {E = CryptoError} 2592 2725 (a ++ (b ++ d)) ≡ ok b =
        slice_middle 2592 2725 a b d length_a (omega arith) in
      let back : slice {E = CryptoError} 2725 (length (a ++ (b ++ d))) (a ++ (b ++ d)) ≡ ok d =
        rw (← append_assoc) (slice_back 2725 (a ++ b) d (omega (arith, length-append a b))) in
      let (first, second, third) = cuts dil_sig p521_sig ed448_sig in
      let offset : length (dil_sig ++ (p521_sig ++ ed448_sig)) - length ed448_sig
          ≡ length dil_sig + length p521_sig =
        omega (
          arith,
          length-append dil_sig (p521_sig ++ ed448_sig),
          length-append p521_sig ed448_sig,
        ) in
      rw (
        front,
        middle,
        back,
        found,
        offset,
        first,
        second,
        third,
        public_from_bytes-encode ml_dsa laws.ml_dsa_laws dil_pk,
        dil_ok,
        public_from_bytes-as_bytes ecdsa laws.p521_laws p521_pk,
        p521_ok,
        Ed448.Keys.public_from_bytes_derived hashes ed448_rust goldilocks laws.curve_laws
            laws.hash_laws laws.rust_laws inner,
        ed448_ok,
      )

  signs :
      (dil_seed : Bytes) (p521_sk : P521.PrivateKey ecdsa) (inner : ed448_rust.PrivateKey)
      (nonce : Bytes)
      → sign_and_verify c (keys_for c laws dil_seed p521_sk inner) nonce ≡ ok tt
  unfolding sign_and_verify
  signs dil_seed p521_sk inner nonce =
      let p521_pk = P521.public_key_typed ecdsa p521_sk in
      let a = ml_dsa.encode (expanded ml_dsa laws.ml_dsa_laws dil_seed).public in
      let b = P521.public_as_bytes ecdsa p521_pk in
      let d = (Ed448.Keys.derived_public hashes ed448_rust goldilocks inner).raw in
      let hash = signature_hash c unsigned_tx in
      let (address, found) = address_total (a ++ (b ++ d)) in
      let bound = binding c a b d address in
      let (dil_sig, dil_signed, dil_sized, dil_ok) =
        Dilithium.Keys.signed_verifies ml_dsa laws.ml_dsa_laws dil_seed hash in
      let (ed448_sig, ed448_signed, ed448_sized, trusted, ed448_ok) =
        Ed448.Keys.signed_verifies hashes ed448_rust goldilocks laws.curve_laws laws.hash_laws
          laws.rust_laws inner (hash ++ (bound ++ 2 ∷ [])) none tt in
      let p521_sig = P521.sign_msg ecdsa p521_sk (hash ++ (bound ++ 1 ∷ [])) nonce in
      rw (found, dil_signed, ed448_signed)
        (received dil_seed p521_sk inner hash address dil_sig p521_sig ed448_sig found dil_ok
          (verify_sig-public_key_typed ecdsa laws.p521_laws p521_sk (hash ++ (bound ++ 1 ∷ []))
            nonce).1
          ed448_ok)

  -- Once the demonstration has derived its keys from a child seed, it signs and verifies without an
  -- error.
  pub sign_and_verify-derive_keys :
      (child_seed nonce : Bytes) (keys : DemoKeys c)
      → derive_keys c child_seed ≡ ok keys
      → sign_and_verify c keys nonce ≡ ok tt
  sign_and_verify-derive_keys child_seed nonce keys made =
      let (dil_seed, p521_sk, inner, same) = derived c laws child_seed keys made in
      subst (λ k. sign_and_verify c k nonce ≡ ok tt) same (signs dil_seed p521_sk inner nonce)
