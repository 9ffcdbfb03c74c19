-- ===== src/Ed448/Scheme/Contract.antt =====
-- Ed448 behind the interface of a scheme (src/mdecc/ed448.rs, src/sign.rs).
use mathlib.Core.Path.{subst}
use blackchain_crypto_lib_ru.Base.{
  answer_cases, ◌≡◌, ◌≢◌, refl, false, Bool-cases, ==_iff, ◌==◌, Option, none, some, inl, inr,
  Bytes, ok, length, map_ok, bytes_eq_iff, ok-injective, Panics,
}
use blackchain_crypto_lib_ru.Crates.{Hashes, Ed448Rust, Goldilocks, Entropy}
use blackchain_crypto_lib_ru.Crates.Laws.{HashLaws, GoldilocksLaws, Ed448RustLaws}
use blackchain_crypto_lib_ru.Ed448
use blackchain_crypto_lib_ru.Ed448.{
  PublicKey, PrivateKey, from_seed, private_from_bytes, public_from_bytes, from_opts, context_opt,
  prehash_context, ed448, sign_msg, sign_with, verify_sig,
}
use blackchain_crypto_lib_ru.Ed448.Keys.{
  ContextFits, derived, derived_public, from_seed_lem, private_from_bytes_lem, as_bytes_lem,
  public_from_bytes_derived, signed_verifies,
}
use blackchain_crypto_lib_ru.Ed448.Scheme.Refusals.{
  too_long, sign_long, verify_long, sign_foreign, verify_foreign,
}
use blackchain_crypto_lib_ru.Ed448.Scheme.{
  dyn_public, dyn_private, boxed, private_try_from, scheme, scheme_generate_key, derive_key, sign,
  verify, new_key_from_seed, unmarshal_binary_public_key, unmarshal_binary_private_key,
}
use blackchain_crypto_lib_ru.Sign.{SignatureOpts, DynPublicKey, DynPrivateKey}
use blackchain_crypto_lib_ru.Sign.Contract.{Admits, IsPair, Honours}

module _ (h : Hashes) (hash_laws : HashLaws h) (r : Ed448Rust) (g : Goldilocks)
    (laws : GoldilocksLaws g) (rust : Ed448RustLaws h r g laws) where
  fits_opts : (opts : Option SignatureOpts) → Admits (scheme h r g) opts → ContextFits opts
  fits_opts none a = tt
  fits_opts (some o) a = a.1

  pair :
      (seed : Bytes)
      → length seed ≡ 57
      → IsPair
          (scheme h r g)
          (dyn_public h r g (derived_public h r g (r.private_from seed)))
          (dyn_private h r g (derived h r g (r.private_from seed)))
  unfolding scheme dyn_public dyn_private sign verify private_try_from unmarshal_binary_public_key
      unmarshal_binary_private_key
  pair seed e =
      let inner = r.private_from seed in
      let raw = (derived_public h r g inner).raw in
      let whole = rust.length-public_bytes (r.public_from inner) in
      let kept = as_bytes_lem h r g laws hash_laws rust seed e in
      let parsed = public_from_bytes_derived h r g laws hash_laws rust inner in
      record {
        public_bytes = raw;
        private_bytes = seed;
        marshals_public = refl;
        marshals_private = kept;
        length_public = whole;
        length_private = e;
        names_public = refl;
        equals_itself = rw (whole, (bytes_eq_iff raw raw).1 refl);
        signs = λ message opts nonce fits.
            let (sig, signed, sized, trusted, verified) =
              signed_verifies h r g laws hash_laws rust inner message opts (fits_opts opts fits) in
            (
              sig,
              rw (kept, private_from_bytes_lem h r g seed e, signed),
              sized,
              rw (parsed, verified),
            );
        reads_public =
            (dyn_public h r g (record { raw = raw; trusted_inner = none }), rw parsed, refl);
        reads_private = (
          dyn_private h r g (derived h r g inner),
          rw (private_from_bytes_lem h r g seed e),
          kept,
        );
      }

  boxed_pair :
      (seed : Bytes) (keys : DynPublicKey × DynPrivateKey)
      → length seed ≡ 57
      → map_ok (boxed h r g) (from_seed h r g seed) ≡ ok keys
      → IsPair (scheme h r g) keys.0 keys.1
  boxed_pair seed keys e made =
      subst (λ k. IsPair (scheme h r g) k.0 k.1)
        (ok-injective (rw (from_seed_lem h r g seed e) at made)) (pair seed e)

  derives :
      (seed : Bytes) (pk : DynPublicKey) (sk : DynPrivateKey)
      → derive_key h r g seed ≡ ok (pk, sk)
      → IsPair (scheme h r g) pk sk
  unfolding derive_key new_key_from_seed
  derives seed pk sk made = elim (Bool-cases (length seed == 57)) [
    | inl sized ↦ boxed_pair seed (pk, sk) ((==_iff (length seed) 57).0 sized) (rw sized at made)
    | inr other ↦ cc (rw other at made)
  ]

  unsized :
      (seed : Bytes) (keys : DynPublicKey × DynPrivateKey)
      → (length seed == 57) ≡ false
      → map_ok (boxed h r g) (from_seed h r g seed) ≢ ok keys
  unfolding from_seed
  unsized seed keys other made = cc (rw other at made)

  generates :
      (entropy : Entropy) (pk : DynPublicKey) (sk : DynPrivateKey)
      → scheme_generate_key h r g entropy ≡ ok (pk, sk)
      → IsPair (scheme h r g) pk sk
  unfolding scheme_generate_key Ed448.generate_key
  generates entropy pk sk made = elim (answer_cases (entropy 57)) [
    | inl (e, failed) ↦ cc (rw failed at made)
    | inr (seed, drawn) ↦ elim (Bool-cases (length seed == 57)) [
      | inl sized ↦ boxed_pair seed (pk, sk) ((==_iff (length seed) 57).0 sized) (rw drawn at made)
      | inr other ↦ absurd (unsized seed (pk, sk) other (rw drawn at made))
    ]
  ]

  wrong_seed : (seed : Bytes) → length seed ≢ 57 → Panics (derive_key h r g seed)
  unfolding derive_key
  wrong_seed seed ne = elim (Bool-cases (length seed == 57)) [
    | inl sized ↦ absurd (ne ((==_iff (length seed) 57).0 sized))
    | inr other ↦ rw other tt
  ]

  -- The dynamic Ed448 scheme does what `Honours` lists. Whatever keys it derives from a seed or
  -- generates are a pair of the declared sizes, which is read back from its bytes and signs what
  -- verifies, with contexts of up to 255 bytes; a seed that is not of 57 bytes panics. With a
  -- context of more than 255 bytes, and with a key whose bytes do not parse as one of its own,
  -- signing panics, and verification under a key that marshals is false (where src/sign.rs
  -- documents a panic for such a key).
  pub ed448_scheme-Honours : Honours (scheme h r g)
  unfolding scheme sign verify
  ed448_scheme-Honours = record {
    derives = derives;
    generates = generates;
    wrong_seed = wrong_seed;
    sign_refuses = λ o unfit sk message nonce.
        sign_long h hash_laws r g laws rust o (too_long h hash_laws r g laws rust o unfit) sk
          message;
    verify_refuses = λ o unfit pk bytes message sig marshals.
        verify_long h hash_laws r g laws rust o (too_long h hash_laws r g laws rust o unfit) pk
          bytes message sig marshals;
    sign_mismatch = λ sk bytes message nonce opts e marshals foreign.
        sign_foreign h hash_laws r g laws rust sk bytes message opts e marshals foreign;
    verify_mismatch = verify_foreign h hash_laws r g laws rust;
    verifies_by_bytes = λ pk pk' message sig opts same. rw same;
  }
