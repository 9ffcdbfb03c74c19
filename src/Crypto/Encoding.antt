-- ===== src/Crypto/Encoding.antt =====
-- The byte form of composite public keys (src/crypto.rs): which strings parse, and to what.
use mathlib.Core.Path.{subst}
use blackchain_crypto_lib_ru.Base.{
  ◌≡◌, ◌↔◌, none, ap, sym, ◌∙◌, not, ◌++◌, ◌==◌, Bytes, ok, ◌>>◌, arith, length, length-append,
  take, drop, length-take, length-drop, map_err, refuse_if, slice, slice_inside, slice_front,
  slice_middle, slice_back, append_assoc, three_parts, >>=-eq-ok, map_err-eq-ok, ok-injective,
}
use blackchain_crypto_lib_ru.Crates.Laws.{CrateLaws}
use blackchain_crypto_lib_ru.Crates.{Crates}
use blackchain_crypto_lib_ru.Crypto.Keys.{IsKeyPair}
use blackchain_crypto_lib_ru.Crypto.PrivateKey.{BlackChainPrivateKey}
use blackchain_crypto_lib_ru.Crypto.PublicKey.{BlackChainPublicKey, to_bytes, from_bytes}
use blackchain_crypto_lib_ru.Dilithium
use blackchain_crypto_lib_ru.Dilithium.Keys.{expanded}
use blackchain_crypto_lib_ru.Ed448
use blackchain_crypto_lib_ru.Ed448.Keys.{derived_public}
use blackchain_crypto_lib_ru.Error.{CryptoError, Fallible}
use blackchain_crypto_lib_ru.P521
use blackchain_crypto_lib_ru.P521.Keys

-- Three parts of the fixed sizes, each of which its backend takes as a public key.
pub record IsComposite (c : Crates) (pk : BlackChainPublicKey) : Type 0 where
  pub dil_key : Dilithium.PublicKey c.ml_dsa
  pub p521_key : P521.PublicKey c.ecdsa
  pub ed448_key : Ed448.PublicKey c.hashes c.ed448_rust c.goldilocks
  pub length_dil : length pk.dilithium ≡ 2592
  pub length_p521 : length pk.p521 ≡ 133
  pub length_ed448 : length pk.ed448 ≡ 57
  pub dil_parses : Dilithium.public_from_bytes c.ml_dsa pk.dilithium ≡ ok dil_key
  pub p521_parses : P521.public_from_bytes c.ecdsa pk.p521 ≡ ok p521_key
  pub ed448_parses :
      Ed448.public_from_bytes c.hashes c.ed448_rust c.goldilocks pk.ed448 ≡ ok ed448_key

module _ (c : Crates) where
  open c use {hashes, ml_dsa, ecdsa, ed448_rust, goldilocks}

  -- The parts that `from_bytes` cuts a string of the right length into.
  abbrev cut : Bytes → BlackChainPublicKey
  cut bytes = record {
    dilithium = take 2592 bytes;
    p521 = take 133 (drop 2592 bytes);
    ed448 = take 57 (drop 2725 bytes);
  }

  abbrev checked : BlackChainPublicKey → Fallible BlackChainPublicKey
  checked pk = do
    map_err Dilithium.into (Dilithium.public_from_bytes ml_dsa pk.dilithium)
    P521.public_from_bytes ecdsa pk.p521
    Ed448.public_from_bytes hashes ed448_rust goldilocks pk.ed448
    ok pk

  from_bytes_sized :
      (bytes : Bytes) → length bytes ≡ 2782 → from_bytes c bytes ≡ checked (cut bytes)
  unfolding from_bytes
  from_bytes_sized bytes e = rw (
    e,
    slice_inside {E = CryptoError} 0 2592 bytes (omega arith) (omega arith),
    slice_inside {E = CryptoError} 2592 2725 bytes (omega arith) (omega arith),
    slice_inside {E = CryptoError} 2725 2782 bytes (omega arith) (omega arith),
  )

  from_bytes_size :
      (bytes : Bytes) (pk : BlackChainPublicKey) → from_bytes c bytes ≡ ok pk → length bytes ≡ 2782
  unfolding from_bytes
  from_bytes_size bytes pk h =
      let (u, sized, v) = >>=-eq-ok (refuse_if (not (length bytes == 2782)) _) _ h in ground arith

  parses :
      (bytes : Bytes) (pk : BlackChainPublicKey)
      → from_bytes c bytes ≡ ok pk
      → (bytes ≡ to_bytes pk) × IsComposite c pk
  unfolding to_bytes
  parses bytes pk h =
      let size = from_bytes_size bytes pk h in
      let made = sym (from_bytes_sized bytes size) ∙ h in
      let (dil_key, dil_parsed, rest) =
        >>=-eq-ok (map_err Dilithium.into (Dilithium.public_from_bytes ml_dsa (take 2592 bytes))) _
          made in
      let (p521_key, p521_parsed, rest') =
        >>=-eq-ok (P521.public_from_bytes ecdsa (take 133 (drop 2592 bytes))) _ rest in
      let (ed448_key, ed448_parsed, end) =
        >>=-eq-ok (Ed448.public_from_bytes hashes ed448_rust goldilocks (take 57 (drop 2725 bytes)))
          _ rest' in
      subst (λ q. (bytes ≡ q.dilithium ++ (q.p521 ++ q.ed448)) × IsComposite c q) (ok-injective end)
        (
          three_parts 2592 133 57 bytes size,
          record {
            dil_key = dil_key;
            p521_key = p521_key;
            ed448_key = ed448_key;
            length_dil = length-take 2592 bytes (omega arith);
            length_p521 = length-take 133 (drop 2592 bytes) (omega (arith, length-drop 2592 bytes));
            length_ed448 = length-take 57 (drop 2725 bytes) (omega (arith, length-drop 2725 bytes));
            dil_parses =
                map_err-eq-ok _ (Dilithium.public_from_bytes ml_dsa (take 2592 bytes)) dil_parsed;
            p521_parses = p521_parsed;
            ed448_parses = ed448_parsed;
          },
        )

  pub from_bytes-to_bytes :
      (pk : BlackChainPublicKey) → IsComposite c pk → from_bytes c (to_bytes pk) ≡ ok pk
  unfolding from_bytes to_bytes
  from_bytes-to_bytes pk k =
      let size : length (pk.dilithium ++ (pk.p521 ++ pk.ed448)) ≡ 2782 = omega (
        arith,
        length-append pk.dilithium (pk.p521 ++ pk.ed448),
        length-append pk.p521 pk.ed448,
        k.length_dil,
        k.length_p521,
        k.length_ed448,
      ) in
      let first : slice {E = CryptoError} 0 2592 (pk.dilithium ++ (pk.p521 ++ pk.ed448))
          ≡ ok pk.dilithium =
        slice_front 2592 pk.dilithium _ k.length_dil in
      let second : slice {E = CryptoError} 2592 2725 (pk.dilithium ++ (pk.p521 ++ pk.ed448))
          ≡ ok pk.p521 =
        slice_middle 2592 2725 pk.dilithium pk.p521 pk.ed448 k.length_dil
          (omega (arith, k.length_p521)) in
      let front : length (pk.dilithium ++ pk.p521) ≡ 2725 =
        omega (arith, length-append pk.dilithium pk.p521, k.length_dil, k.length_p521) in
      let last : slice {E = CryptoError} 2725 2782 (pk.dilithium ++ (pk.p521 ++ pk.ed448))
          ≡ ok pk.ed448 =
        subst
          (λ n.
            slice {E = CryptoError} 2725 n (pk.dilithium ++ (pk.p521 ++ pk.ed448)) ≡ ok pk.ed448)
          size (rw (← append_assoc) (slice_back 2725 (pk.dilithium ++ pk.p521) pk.ed448 front)) in
      rw (size, first, second, last, k.dil_parses, k.p521_parses, k.ed448_parses)

  -- A string parses to a composite key exactly when it is that key's byte form and each part has its
  -- size and is a public key of its backend.
  pub from_bytes_iff :
      (bytes : Bytes) (pk : BlackChainPublicKey)
      → (from_bytes c bytes ≡ ok pk) ↔ ((bytes ≡ to_bytes pk) × IsComposite c pk)
  from_bytes_iff bytes pk =
      (parses bytes pk, λ h. let (same, k) = h in rw same (from_bytes-to_bytes pk k))

  -- The public key of a key pair is a composite key.
  pub IsKeyPair-IsComposite :
      (laws : CrateLaws c) (sk : BlackChainPrivateKey) (pk : BlackChainPublicKey)
      → IsKeyPair c laws sk pk
      → IsComposite c pk
  unfolding P521.public_as_bytes
  IsKeyPair-IsComposite laws sk pk pair =
      let inner = ed448_rust.private_from pair.ed448_seed in
      record {
        dil_key = (expanded ml_dsa laws.ml_dsa_laws pair.dil_seed).public;
        p521_key = P521.public_key_typed ecdsa pair.p521_key;
        ed448_key = record {
          raw = (derived_public hashes ed448_rust goldilocks inner).raw;
          trusted_inner = none;
        };
        length_dil = ap length pair.pk_dilithium ∙ laws.ml_dsa_laws.length-encode _;
        length_p521 = ap length pair.pk_p521 ∙ laws.p521_laws.length-to_encoded_point _;
        length_ed448 = ap length pair.pk_ed448 ∙ laws.rust_laws.length-public_bytes _;
        dil_parses =
            rw pair.pk_dilithium
              (Dilithium.Keys.public_from_bytes-encode ml_dsa laws.ml_dsa_laws _);
        p521_parses = rw pair.pk_p521 (Keys.public_from_bytes-as_bytes ecdsa laws.p521_laws _);
        ed448_parses = rw pair.pk_ed448 (
            Ed448.Keys.public_from_bytes_derived hashes ed448_rust goldilocks laws.curve_laws
              laws.hash_laws laws.rust_laws inner);
      }
