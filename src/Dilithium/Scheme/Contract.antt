-- ===== src/Dilithium/Scheme/Contract.antt =====
-- ML-DSA-87 behind the interface of a scheme (src/dilithium/mod.rs, src/sign.rs).
use mathlib.Core.Path.{subst}
use blackchain_crypto_lib_ru.Base.{
  answer_cases, map_ok-eq-ok, map_ok-eq-err, map_err-eq-err, true, err, ◌≡◌, ◌≢◌, refl, ap, ◌∙◌,
  false, Bool-cases, ==_iff, ◌==◌, Option, none, some, inl, inr, Bytes, ok, arith, length, map_ok,
  map_err, bytes_eq_iff, map_err-eq-ok, ok-injective, copy_from_slice_exact, Panics,
}
use blackchain_crypto_lib_ru.Crates.{MlDsa, Entropy}
use blackchain_crypto_lib_ru.Crates.Laws.{MlDsaLaws}
use blackchain_crypto_lib_ru.Dilithium
use blackchain_crypto_lib_ru.Dilithium.{
  PublicKey, PrivateKey, into, from_seed, seed_bytes, to_vec, public_key_size, seed_from_slice,
  private_from_bytes, public_from_bytes, new_key_from_seed,
}
use blackchain_crypto_lib_ru.Dilithium.Keys.{
  expanded, private_from_bytes_lem, public_from_bytes-encode, signed_verifies,
}
use blackchain_crypto_lib_ru.Dilithium.Scheme.{
  dyn_public, dyn_private, boxed, scheme, scheme_generate_key, derive_key, sign, verify,
  unmarshal_binary_public_key, unmarshal_binary_private_key,
}
use blackchain_crypto_lib_ru.Error.{CryptoError}
use blackchain_crypto_lib_ru.Sign.{SignatureOpts, DynPublicKey, DynPrivateKey, has_context}
use blackchain_crypto_lib_ru.Sign.Contract.{Admits, IsPair, Honours}

module _ (m : MlDsa) (laws : MlDsaLaws m) where
  pub seed_bytes_lem :
      (seed : Bytes) → length seed ≡ 32 → seed_bytes m (expanded m laws seed) ≡ ok seed
  unfolding seed_bytes
  seed_bytes_lem seed e = rw (laws.to_seed-from_seed seed e) (copy_from_slice_exact 32 seed e)

  -- A seed that expands at all has 32 bytes.
  pub from_seed_inv :
      (seed : Bytes) (keys : PublicKey m × PrivateKey m)
      → from_seed m seed ≡ ok keys
      → (length seed ≡ 32) × (((expanded m laws seed).public, expanded m laws seed) ≡ keys)
  unfolding from_seed private_from_bytes seed_from_slice
  from_seed_inv seed keys h = elim (Bool-cases (length seed == 32)) [
    | inl sized ↦
        let e = (==_iff (length seed) 32).0 sized in
        (e, ok-injective (rw (laws.seed_array_exact seed e) at h))
    | inr other ↦
        let none_there : m.seed_array seed ≡ none = laws.seed_array_other seed (ground arith) in
        cc (rw none_there at h)
  ]

  plain_opts : (opts : Option SignatureOpts) → Admits (scheme m) opts → has_context opts ≡ false
  unfolding scheme
  plain_opts none h = refl
  plain_opts (some o) h = ground (arith, h.0 refl)

  pair :
      (seed : Bytes)
      → length seed ≡ 32
      → IsPair
          (scheme m)
          (dyn_public m (expanded m laws seed).public)
          (dyn_private m (expanded m laws seed))
  unfolding scheme dyn_public dyn_private to_vec sign verify unmarshal_binary_public_key
      unmarshal_binary_private_key
  pair seed e =
      let sk = expanded m laws seed in
      let whole = laws.length-encode sk.public in
      record {
        public_bytes = m.encode sk.public;
        private_bytes = seed;
        marshals_public = refl;
        marshals_private = rw (seed_bytes_lem seed e);
        length_public = whole;
        length_private = e;
        names_public = refl;
        equals_itself = rw (whole, (bytes_eq_iff (m.encode sk.public) (m.encode sk.public)).1 refl);
        signs = λ message opts nonce fits.
            let (sig, signed, sized, verified) = signed_verifies m laws seed message in
            (
              sig,
              rw (
                plain_opts opts fits,
                seed_bytes_lem seed e,
                private_from_bytes_lem m laws seed e,
                signed,
              ),
              sized,
              rw (plain_opts opts fits, public_from_bytes-encode m laws sk.public, verified),
            );
        reads_public =
            (dyn_public m sk.public, rw (public_from_bytes-encode m laws sk.public), refl);
        reads_private = (
          dyn_private m sk,
          rw (private_from_bytes_lem m laws seed e),
          rw (seed_bytes_lem seed e),
        );
      }

  -- Whatever the wrapped constructors return is a pair.
  boxed_pair :
      (seed : Bytes) (keys : DynPublicKey × DynPrivateKey)
      → map_ok (boxed m) (map_err into (from_seed m seed)) ≡ ok keys
      → IsPair (scheme m) keys.0 keys.1
  boxed_pair seed keys h =
      let (typed, made, same) = map_ok-eq-ok (boxed m) (map_err into (from_seed m seed)) h in
      let (e, typed_same) = from_seed_inv seed typed (map_err-eq-ok into (from_seed m seed) made) in
      subst (λ k. IsPair (scheme m) k.0 k.1) (ap (boxed m) typed_same ∙ same) (pair seed e)

  derives :
      (seed : Bytes) (pk : DynPublicKey) (sk : DynPrivateKey)
      → derive_key m seed ≡ ok (pk, sk)
      → IsPair (scheme m) pk sk
  unfolding derive_key new_key_from_seed
  derives seed pk sk h = elim (Bool-cases (length seed == 32)) [
    | inl sized ↦
        boxed_pair seed (pk, sk)
          (rw
            (
              sized,
              copy_from_slice_exact {E = CryptoError} 32 seed ((==_iff (length seed) 32).0 sized),
            )
            at h)
    | inr other ↦ cc (rw other at h)
  ]

  generates :
      (entropy : Entropy) (pk : DynPublicKey) (sk : DynPrivateKey)
      → scheme_generate_key m entropy ≡ ok (pk, sk)
      → IsPair (scheme m) pk sk
  unfolding scheme_generate_key Dilithium.generate_key
  generates entropy pk sk h = elim (answer_cases (entropy 32)) [
    | inl (e, failed) ↦ cc (rw failed at h)
    | inr (seed, drawn) ↦ boxed_pair seed (pk, sk) (rw drawn at h)
  ]

  wrong_seed : (seed : Bytes) → length seed ≢ 32 → Panics (derive_key m seed)
  unfolding derive_key
  wrong_seed seed ne = elim (Bool-cases (length seed == 32)) [
    | inl sized ↦ absurd (ne ((==_iff (length seed) 32).0 sized))
    | inr other ↦ rw other tt
  ]

  -- Options that the scheme does not take have a context.
  context : (o : SignatureOpts) → ¬ Admits (scheme m) (some o) → has_context (some o) ≡ true
  unfolding scheme
  context o unfit = elim (Bool-cases (length o.context == 0)) [
    | inl empty ↦
        let none_there = (==_iff (length o.context) 0).0 empty in
        absurd (unfit (λ unsupported. none_there, omega arith))
    | inr other ↦ rw other refl
  ]

  sign_foreign :
      (sk : DynPrivateKey) (bytes message : Bytes) (opts : Option SignatureOpts) (e : CryptoError)
      → sk.marshal_binary ≡ ok bytes
      → unmarshal_binary_private_key m bytes ≡ err e
      → Panics (sign m sk message opts)
  unfolding sign unmarshal_binary_private_key
  sign_foreign sk bytes message opts e marshals foreign =
      let (x, failed) =
        map_err-eq-err into (map_ok (dyn_private m) (private_from_bytes m bytes)) foreign in
      let refused = map_ok-eq-err (dyn_private m) (private_from_bytes m bytes) failed in
      elim (Bool-cases (has_context opts)) [
        | inl present ↦ rw present tt
        | inr absent ↦ rw (absent, marshals, refused) tt
      ]

  verify_foreign :
      (pk : DynPublicKey) (bytes message sig : Bytes) (opts : Option SignatureOpts)
      (e : CryptoError)
      → pk.marshal_binary ≡ ok bytes
      → unmarshal_binary_public_key m bytes ≡ err e
      → verify m pk message sig opts ≡ ok false
  unfolding verify unmarshal_binary_public_key
  verify_foreign pk bytes message sig opts e marshals foreign =
      let (x, failed) =
        map_err-eq-err into (map_ok (dyn_public m) (public_from_bytes m bytes)) foreign in
      let refused = map_ok-eq-err (dyn_public m) (public_from_bytes m bytes) failed in
      elim (Bool-cases (has_context opts)) [
        | inl present ↦ rw present refl
        | inr absent ↦ rw (absent, marshals, refused) refl
      ]

  -- The dynamic ML-DSA-87 scheme does what `Honours` lists. Whatever keys it derives from a seed or
  -- generates are a pair of the declared sizes, which is read back from its bytes and signs what
  -- verifies; a seed that is not of 32 bytes panics. With a context that is not empty, and with a
  -- key whose bytes do not parse as one of its own, signing panics, and verification under a key
  -- that marshals is false (where src/sign.rs documents a panic).
  pub ml_dsa_scheme-Honours : Honours (scheme m)
  unfolding scheme sign verify
  ml_dsa_scheme-Honours = record {
    derives = derives;
    generates = generates;
    wrong_seed = wrong_seed;
    sign_refuses = λ o unfit sk message nonce. rw (context o unfit) tt;
    verify_refuses = λ o unfit pk bytes message sig marshals. rw (context o unfit) refl;
    sign_mismatch = λ sk bytes message nonce opts e marshals foreign.
        sign_foreign sk bytes message opts e marshals foreign;
    verify_mismatch = λ pk bytes message sig opts e marshals foreign.
        verify_foreign pk bytes message sig opts e marshals foreign;
    verifies_by_bytes = λ pk pk' message sig opts same. rw same;
  }
