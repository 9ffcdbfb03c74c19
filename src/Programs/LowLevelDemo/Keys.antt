-- ===== src/Programs/LowLevelDemo/Keys.antt =====
-- The keys that the demonstration derives from a child seed (src/bin/low_level_demo.rs).
use blackchain_crypto_lib_ru.Base.{
  ◌≢◌, copy_from_slice, ◌≡◌, sym, ap, ◌∙◌, Bool-cases, ==_iff, ◌==◌, false, inl, inr, Bytes, ok,
  arith, map_err, map_err-eq-ok, >>=-eq-ok, ok-injective, slice, length,
}
use blackchain_crypto_lib_ru.Crates.{Crates}
use blackchain_crypto_lib_ru.Crates.Laws.{CrateLaws}
use blackchain_crypto_lib_ru.Dilithium
use blackchain_crypto_lib_ru.Dilithium.Keys.{expanded, public_from_bytes-encode}
use blackchain_crypto_lib_ru.Ed448
use blackchain_crypto_lib_ru.Dilithium.Scheme.Contract.{from_seed_inv}
use blackchain_crypto_lib_ru.Ed448.Scheme.{new_key_from_seed}
use blackchain_crypto_lib_ru.HdWallet.Derivation.{derive_mdecc_curve_seed}
use blackchain_crypto_lib_ru.P521.Derive.{derive_keypair_from_seed_iff}
use blackchain_crypto_lib_ru.P521.Scheme.{derive_key_typed}
use blackchain_crypto_lib_ru.P521
use blackchain_crypto_lib_ru.Programs.LowLevelDemo.{DemoKeys, derive_curve_keys, derive_keys}

module _ (c : Crates) (laws : CrateLaws c) where
  open c use {hashes, ml_dsa, ecdsa, ed448_rust, goldilocks}

  abbrev pub keys_of :
      Bytes
      → Dilithium.PrivateKey ml_dsa
      → P521.PublicKey ecdsa
      → P521.PrivateKey ecdsa
      → Ed448.PublicKey hashes ed448_rust goldilocks
      → Ed448.PrivateKey hashes ed448_rust goldilocks
      → DemoKeys c
  keys_of dil_pk_buf dil_sk p521_pk p521_sk ed448_pk ed448_sk = record {
    dil_pk_buf = dil_pk_buf;
    dil_sk = dil_sk;
    p521_pk = p521_pk;
    p521_sk = p521_sk;
    ed448_pk = ed448_pk;
    ed448_sk = ed448_sk;
  }

  -- The keys that belong to three secrets.
  abbrev pub keys_for : Bytes → P521.PrivateKey ecdsa → ed448_rust.PrivateKey → DemoKeys c
  keys_for dil_seed p521_sk inner =
      keys_of (ml_dsa.encode (expanded ml_dsa laws.ml_dsa_laws dil_seed).public)
        (expanded ml_dsa laws.ml_dsa_laws dil_seed) (P521.public_key_typed ecdsa p521_sk) p521_sk
        (Ed448.Keys.derived_public hashes ed448_rust goldilocks inner)
        (Ed448.Keys.derived hashes ed448_rust goldilocks inner)

  from_seed_sized :
      (seed : Bytes)
      (keys : Ed448.PublicKey hashes ed448_rust goldilocks
        × Ed448.PrivateKey hashes ed448_rust goldilocks)
      → (length seed == 57) ≡ false
      → Ed448.from_seed hashes ed448_rust goldilocks seed ≢ ok keys
  unfolding Ed448.from_seed
  from_seed_sized seed keys other made = cc (rw other at made)

  p521_typed :
      (seed : Bytes) (keys : P521.PublicKey ecdsa × P521.PrivateKey ecdsa)
      → derive_key_typed ecdsa hashes seed ≡ ok keys
      → P521.public_key_typed ecdsa keys.1 ≡ keys.0
  unfolding derive_key_typed
  p521_typed seed keys made =
      let iff = derive_keypair_from_seed_iff ecdsa hashes laws.hash_laws seed keys.0 keys.1 in
      elim (Bool-cases (length seed == 66)) [
        | inl sized ↦ sym (((iff.0 ((==_iff (length seed) 66).0 sized)).0 made).1)
        | inr other ↦ absurd (rw made at (iff.1 (λ e. ground arith)))
      ]

  ed448_typed :
      (seed : Bytes)
      (keys : Ed448.PublicKey hashes ed448_rust goldilocks
        × Ed448.PrivateKey hashes ed448_rust goldilocks)
      → new_key_from_seed hashes ed448_rust goldilocks seed ≡ ok keys
      → (
        Ed448.Keys.derived_public hashes ed448_rust goldilocks (ed448_rust.private_from seed),
        Ed448.Keys.derived hashes ed448_rust goldilocks (ed448_rust.private_from seed),
      )
        ≡ keys
  unfolding new_key_from_seed
  ed448_typed seed keys made = elim (Bool-cases (length seed == 57)) [
    | inl sized ↦ ok-injective (
        rw
          (Ed448.Keys.from_seed_lem hashes ed448_rust goldilocks seed
            ((==_iff (length seed) 57).0 sized))
          at made)
    | inr other ↦ absurd (from_seed_sized seed keys other made)
  ]

  -- The two curve keys, behind ML-DSA keys that are given.
  abbrev with_curves :
      Bytes
      → Dilithium.PrivateKey ml_dsa
      → P521.PrivateKey ecdsa
      → ed448_rust.PrivateKey
      → DemoKeys c
  with_curves dil_pk_buf dil_sk p521_sk inner =
      keys_of dil_pk_buf dil_sk (P521.public_key_typed ecdsa p521_sk) p521_sk
        (Ed448.Keys.derived_public hashes ed448_rust goldilocks inner)
        (Ed448.Keys.derived hashes ed448_rust goldilocks inner)

  curves_derived :
      (dil_pk_buf : Bytes) (dil_sk : Dilithium.PrivateKey ml_dsa) (mdecc_seed : Bytes)
      (keys : DemoKeys c)
      → derive_curve_keys c dil_pk_buf dil_sk mdecc_seed ≡ ok keys
      → (p521_sk : P521.PrivateKey ecdsa) × (inner : ed448_rust.PrivateKey) × (with_curves
            dil_pk_buf dil_sk p521_sk inner
          ≡ keys)
  unfolding derive_curve_keys
  curves_derived dil_pk_buf dil_sk mdecc_seed keys made =
      let (p521_seed, p521_derived, h1) =
        >>=-eq-ok (derive_mdecc_curve_seed hashes mdecc_seed 1 66) _ made in
      let (p521, p521_made, h2) = >>=-eq-ok (derive_key_typed ecdsa hashes p521_seed) _ h1 in
      let (ed448_seed, ed448_derived, h3) =
        >>=-eq-ok (derive_mdecc_curve_seed hashes mdecc_seed 2 57) _ h2 in
      let (ed448, ed448_made, h4) =
        >>=-eq-ok (new_key_from_seed hashes ed448_rust goldilocks ed448_seed) _ h3 in
      let (sk_bytes, ed448_kept, end) =
        >>=-eq-ok (Ed448.as_bytes hashes ed448_rust goldilocks ed448.1) _ h4 in
      (
        p521.1,
        ed448_rust.private_from ed448_seed,
        ap (λ k. keys_of dil_pk_buf dil_sk (P521.public_key_typed ecdsa p521.1) p521.1 k.0 k.1)
              (ed448_typed ed448_seed ed448 ed448_made)
            ∙ ap (λ t. keys_of dil_pk_buf dil_sk t p521.1 ed448.0 ed448.1)
                (p521_typed p521_seed p521 p521_made)
            ∙ ok-injective end,
      )

  dil_typed :
      (seed buf : Bytes) (keys : Dilithium.PublicKey ml_dsa × Dilithium.PrivateKey ml_dsa)
      → map_err Dilithium.into (Dilithium.new_key_from_seed ml_dsa seed) ≡ ok keys
      → map_err Dilithium.into (Dilithium.pack ml_dsa keys.0) ≡ ok buf
      → ◌≡◌ {A = Bytes × Dilithium.PrivateKey ml_dsa}
          (
            ml_dsa.encode (expanded ml_dsa laws.ml_dsa_laws seed).public,
            expanded ml_dsa laws.ml_dsa_laws seed,
          )
          (buf, keys.1)
  unfolding Dilithium.new_key_from_seed
  dil_typed seed buf keys made packed =
      let same =
        (from_seed_inv ml_dsa laws.ml_dsa_laws seed keys (map_err-eq-ok Dilithium.into _ made)).1 in
      let buf_same : ml_dsa.encode keys.0 ≡ buf = ok-injective (
        sym (Dilithium.Keys.pack_lem ml_dsa laws.ml_dsa_laws keys.0)
        ∙ map_err-eq-ok Dilithium.into _ packed) in
      ap (λ k. (ml_dsa.encode k.0, k.1)) same ∙ ap (λ t. (t, keys.1)) buf_same

  pub derived :
      (child_seed : Bytes) (keys : DemoKeys c)
      → derive_keys c child_seed ≡ ok keys
      → (dil_seed : Bytes) × (p521_sk : P521.PrivateKey ecdsa) × (inner : ed448_rust.PrivateKey)
        × (keys_for dil_seed p521_sk inner ≡ keys)
  unfolding derive_keys
  derived child_seed keys made =
      let (dil_slice, sliced, h1) = >>=-eq-ok (slice 0 32 child_seed) _ made in
      let (dil_seed, copied, h2) = >>=-eq-ok (copy_from_slice 32 dil_slice) _ h1 in
      let (mdecc_seed, master, h3) = >>=-eq-ok (slice 32 64 child_seed) _ h2 in
      let (dil, dil_made, h4) =
        >>=-eq-ok (map_err Dilithium.into (Dilithium.new_key_from_seed ml_dsa dil_seed)) _ h3 in
      let (buf, packed, h5) =
        >>=-eq-ok (map_err Dilithium.into (Dilithium.pack ml_dsa dil.0)) _ h4 in
      let (sk_buf, sk_packed, end) =
        >>=-eq-ok (map_err Dilithium.into (Dilithium.pack_private ml_dsa dil.1)) _ h5 in
      let (p521_sk, inner, same) = curves_derived buf dil.1 mdecc_seed keys end in
      (
        dil_seed,
        p521_sk,
        inner,
        ap (λ k. with_curves k.0 k.1 p521_sk inner) (dil_typed dil_seed buf dil dil_made packed)
            ∙ same,
      )
