-- ===== src/P521/Scheme/Contract.antt =====
-- P-521 behind the interface of a scheme (src/mdecc/p521.rs, src/sign.rs).
use mathlib.Core.Path.{subst}
use blackchain_crypto_lib_ru.Base.{
  ◌≡◌, ◌≢◌, refl, ap, sym, true, err, map_ok-eq-err, false, Bool-cases, ==_iff, ◌==◌, Option, none,
  some, inl, inr, Bytes, ok, arith, length, bytes_eq_iff, >>=-eq-ok, ok-injective, Panics,
}
use blackchain_crypto_lib_ru.Crates.{P521Ecdsa, Hashes, Entropy}
use blackchain_crypto_lib_ru.Crates.Laws.{P521Laws, HashLaws}
use blackchain_crypto_lib_ru.Error.{CryptoError}
use blackchain_crypto_lib_ru.P521.{
  PublicKey, PrivateKey, public_as_bytes, private_as_bytes, public_key_typed, sign_msg,
  derive_keypair_from_seed, generate_key, private_from_bytes, public_from_bytes,
}
use blackchain_crypto_lib_ru.P521.Derive.{derive_keypair_from_seed_iff}
use blackchain_crypto_lib_ru.P521.Keys.{
  private_from_bytes-as_bytes, public_from_bytes-as_bytes, verify_sig-public_key_typed,
}
use blackchain_crypto_lib_ru.P521.Scheme.{
  dyn_public, dyn_private, scheme, scheme_generate_key, derive_key, sign, verify,
  unmarshal_binary_public_key, unmarshal_binary_private_key,
}
use blackchain_crypto_lib_ru.Sign.{SignatureOpts, DynPublicKey, DynPrivateKey, has_context}
use blackchain_crypto_lib_ru.Sign.Contract.{Admits, IsPair, Honours}

module _ (p : P521Ecdsa) (laws : P521Laws p) (h : Hashes) (hash_laws : HashLaws h) where
  plain_opts : (opts : Option SignatureOpts) → Admits (scheme p h) opts → has_context opts ≡ false
  unfolding scheme
  plain_opts none a = refl
  plain_opts (some o) a = ground (arith, a.0 refl)

  pair :
      (sk : PrivateKey p)
      → IsPair (scheme p h) (dyn_public p (public_key_typed p sk)) (dyn_private p sk)
  unfolding scheme dyn_public dyn_private sign verify unmarshal_binary_public_key
      unmarshal_binary_private_key public_as_bytes private_as_bytes
  pair sk =
      let pk = public_key_typed p sk in
      record {
        public_bytes = public_as_bytes p pk;
        private_bytes = private_as_bytes p sk;
        marshals_public = refl;
        marshals_private = refl;
        length_public = laws.length-to_encoded_point pk;
        length_private = laws.length-to_bytes sk;
        names_public = refl;
        equals_itself = ap ok ((bytes_eq_iff (public_as_bytes p pk) (public_as_bytes p pk)).1 refl);
        signs = λ message opts nonce fits.
            let (sized, verified) = verify_sig-public_key_typed p laws sk message nonce in
            (
              sign_msg p sk message nonce,
              rw (plain_opts opts fits, private_from_bytes-as_bytes p laws sk),
              sized,
              rw (plain_opts opts fits, public_from_bytes-as_bytes p laws pk, verified),
            );
        reads_public = (dyn_public p pk, rw (public_from_bytes-as_bytes p laws pk), refl);
        reads_private = (dyn_private p sk, rw (private_from_bytes-as_bytes p laws sk), refl);
      }

  boxed_pair :
      (keys : PublicKey p × PrivateKey p) (pk : DynPublicKey) (sk : DynPrivateKey)
      → keys.0 ≡ public_key_typed p keys.1
      → ◌≡◌ {A = DynPublicKey × DynPrivateKey} (dyn_public p keys.0, dyn_private p keys.1) (pk, sk)
      → IsPair (scheme p h) pk sk
  boxed_pair keys pk sk typed same =
      subst (λ k. IsPair (scheme p h) k.0 k.1) same
        (subst (λ q. IsPair (scheme p h) (dyn_public p q) (dyn_private p keys.1)) (sym typed)
          (pair keys.1))

  wrong_seed : (seed : Bytes) → length seed ≢ 66 → Panics (derive_key p h seed)
  unfolding derive_key derive_keypair_from_seed
  wrong_seed seed ne = elim (Bool-cases (length seed == 66)) [
    | inl sized ↦ absurd (ne ((==_iff (length seed) 66).0 sized))
    | inr other ↦ rw other tt
  ]

  unsized :
      (seed : Bytes) (keys : PublicKey p × PrivateKey p)
      → (length seed == 66) ≡ false
      → derive_keypair_from_seed p h seed ≢ ok keys
  unfolding derive_keypair_from_seed
  unsized seed keys other found = cc (rw other at found)

  derives :
      (seed : Bytes) (pk : DynPublicKey) (sk : DynPrivateKey)
      → derive_key p h seed ≡ ok (pk, sk)
      → IsPair (scheme p h) pk sk
  unfolding derive_key
  derives seed pk sk made =
      let (keys, found, end) = >>=-eq-ok (derive_keypair_from_seed p h seed) _ made in
      elim (Bool-cases (length seed == 66)) [
        | inl sized ↦
            let first =
              ((derive_keypair_from_seed_iff p h hash_laws seed keys.0 keys.1).0
                  ((==_iff (length seed) 66).0 sized)).0
                found in
            boxed_pair keys pk sk first.1 (ok-injective end)
        | inr other ↦ absurd (unsized seed keys other found)
      ]

  generates :
      (entropy : Entropy) (pk : DynPublicKey) (sk : DynPrivateKey)
      → scheme_generate_key p entropy ≡ ok (pk, sk)
      → IsPair (scheme p h) pk sk
  unfolding scheme_generate_key generate_key public_key_typed
  generates entropy pk sk made =
      boxed_pair (p.verifying_key (p.random entropy), p.random entropy) pk sk refl
        (ok-injective made)

  -- Options that the scheme does not take have a context.
  context : (o : SignatureOpts) → ¬ Admits (scheme p h) (some o) → has_context (some o) ≡ true
  unfolding scheme
  context o unfit = elim (Bool-cases (length o.context == 0)) [
    | inl empty ↦
        let none_there = (==_iff (length o.context) 0).0 empty in
        absurd (unfit (λ unsupported. none_there, omega arith))
    | inr other ↦ rw other refl
  ]

  sign_foreign :
      (sk : DynPrivateKey) (bytes message nonce : Bytes) (opts : Option SignatureOpts)
      (e : CryptoError)
      → sk.marshal_binary ≡ ok bytes
      → unmarshal_binary_private_key p bytes ≡ err e
      → Panics (sign p sk message opts nonce)
  unfolding sign unmarshal_binary_private_key
  sign_foreign sk bytes message nonce opts e marshals foreign =
      let refused = map_ok-eq-err (dyn_private p) (private_from_bytes p bytes) foreign in
      elim (Bool-cases (has_context opts)) [
        | inl present ↦ rw present tt
        | inr absent ↦ rw (absent, marshals, refused) tt
      ]

  verify_foreign :
      (pk : DynPublicKey) (bytes message sig : Bytes) (opts : Option SignatureOpts)
      (e : CryptoError)
      → pk.marshal_binary ≡ ok bytes
      → unmarshal_binary_public_key p bytes ≡ err e
      → verify p pk message sig opts ≡ ok false
  unfolding verify unmarshal_binary_public_key
  verify_foreign pk bytes message sig opts e marshals foreign =
      let refused = map_ok-eq-err (dyn_public p) (public_from_bytes p bytes) foreign in
      elim (Bool-cases (has_context opts)) [
        | inl present ↦ rw present refl
        | inr absent ↦ rw (absent, marshals, refused) refl
      ]

  -- The dynamic P-521 scheme does what `Honours` lists. Whatever keys it derives from a seed or
  -- generates are a pair of the declared sizes, which is read back from its bytes and signs what
  -- verifies; a seed that is not of 66 bytes panics. With a context that is not empty, and with a
  -- key whose bytes do not parse as one of its own, signing panics, and verification under a key
  -- that marshals is false (where src/sign.rs documents a panic).
  pub p521_scheme-Honours : Honours (scheme p h)
  unfolding scheme sign verify
  p521_scheme-Honours = record {
    derives = derives;
    generates = generates;
    wrong_seed = wrong_seed;
    sign_refuses = λ o unfit sk message nonce. rw (context o unfit) tt;
    verify_refuses = λ o unfit pk bytes message sig marshals. rw (context o unfit) refl;
    sign_mismatch = sign_foreign;
    verify_mismatch = verify_foreign;
    verifies_by_bytes = λ pk pk' message sig opts same. rw same;
  }
