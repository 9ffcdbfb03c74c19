-- ===== src/Ed448/Scheme/Refusals.antt =====
-- What the dynamic Ed448 scheme refuses: contexts of more than 255 bytes, and keys that are none of its own
-- (src/mdecc/ed448.rs).
use blackchain_crypto_lib_ru.Base.{
  sym, not, refuse_if, copy_from_slice, >>=-eq-ok, ◌<◌, ap, arith, bytes_eq, err, map_ok-eq-err,
  or_panic-Panics, ◌≡◌, ◌≢◌, refl, false, Bool-cases, ◌==◌, Option, none, some, inl, inr, Bytes, ok,
  length, bytes_eq_iff, ok-injective, Panics,
}
use blackchain_crypto_lib_ru.Crates.{Hashes, Ed448Rust, Goldilocks}
use blackchain_crypto_lib_ru.Crates.Laws.{HashLaws, GoldilocksLaws, Ed448RustLaws}
use blackchain_crypto_lib_ru.Ed448.{
  PublicKey, private_from_bytes, public_from_bytes, from_opts, context_opt, prehash_context, ed448,
  sign_msg, sign_with, verify_sig,
}
use blackchain_crypto_lib_ru.Ed448.Point.{decode_canonical_point}
use blackchain_crypto_lib_ru.Ed448.Returns.{ed448_key-Returns, ed448_verify-Returns, long_context}
use blackchain_crypto_lib_ru.Base.Returns.{outcome_cases}
use blackchain_crypto_lib_ru.Error.{CryptoError, invalid_key_size}
use native.Mathlib.Decide.{dec_lt}
use blackchain_crypto_lib_ru.Ed448.Scheme.{
  dyn_public, private_try_from, scheme, sign, verify, unmarshal_binary_public_key,
  unmarshal_binary_private_key,
}
use blackchain_crypto_lib_ru.Sign.{SignatureOpts, DynPublicKey, DynPrivateKey}
use blackchain_crypto_lib_ru.Sign.Contract.{Admits}

module _ (h : Hashes) (hash_laws : HashLaws h) (r : Ed448Rust) (g : Goldilocks)
    (laws : GoldilocksLaws g) (rust : Ed448RustLaws h r g laws) where
  -- Contexts are supported up to 255 bytes.
  pub too_long : (o : SignatureOpts) → ¬ Admits (scheme h r g) (some o) → 255 < length o.context
  unfolding scheme
  too_long o unfit = elim (dec_lt 255 (length o.context)) [
    | yes long ↦ long
    | no fits ↦ absurd (unfit (λ unsupported. cc, omega arith))
  ]

  -- A long context is no prehash marker, and is passed on as it is.
  long_mode :
      (o : SignatureOpts)
      → 255 < length o.context
      → (from_opts (some o) ≡ ed448) × (context_opt ed448 (some o) ≡ some o.context)
  unfolding from_opts context_opt
  long_mode o long = elim (Bool-cases (bytes_eq o.context prehash_context)) [
    | inl same ↦
        let nine = ap length ((bytes_eq_iff o.context prehash_context).0 same) in
        absurd (omega (arith, nine))
    | inr other ↦ (rw other refl, ground arith)
  ]

  pub sign_long :
      (o : SignatureOpts)
      → 255 < length o.context
      → (sk : DynPrivateKey) (message : Bytes) → Panics (sign h r g sk message (some o))
  unfolding sign sign_msg sign_with
  sign_long o long sk message = or_panic-Panics _ sk.marshal_binary _ (λ bytes.
      or_panic-Panics _ (private_try_from h r g bytes) _ (λ typed.
        let (e, refused) = rust.sign_too_long typed.inner message (some o.context) long in
        let (mode, ctx) = long_mode o long in rw (mode, ctx, refused) tt))

  -- A key that is read from bytes is verified by the equation.
  untrusted :
      (bytes : Bytes) (pk : PublicKey h r g)
      → public_from_bytes h r g bytes ≡ ok pk
      → pk.trusted_inner ≡ none
  unfolding public_from_bytes
  untrusted bytes pk read =
      let size = invalid_key_size 57 (length bytes) in
      let (_, _, h1) = >>=-eq-ok (refuse_if (not (length bytes == 57)) size) _ read in
      let (raw, _, h2) = >>=-eq-ok (copy_from_slice 57 bytes) _ h1 in
      let (_, _, end) = >>=-eq-ok (decode_canonical_point g raw) _ h2 in
      ap (λ k. k.trusted_inner) (sym (ok-injective end))

  long_refused :
      (o : SignatureOpts)
      → 255 < length o.context
      → (pk : PublicKey h r g) (message sig : Bytes) → pk.trusted_inner ≡ none
      → verify_sig h r g pk message sig (some o) ≢ ok tt
  unfolding verify_sig
  long_refused o long pk message sig plain_key accepted =
      let size = invalid_key_size 114 (length sig) in
      let (_, _, h1) = >>=-eq-ok (refuse_if (not (length sig == 114)) size) _ accepted in
      let (whole, _, h2) = >>=-eq-ok (copy_from_slice 114 sig) _ h1 in
      let (mode, ctx) = long_mode o long in
      long_context h r g pk.raw message whole (some o.context) ed448 long
        (rw (plain_key, mode, ctx) at h2)

  pub verify_long :
      (o : SignatureOpts)
      → 255 < length o.context
      → (pk : DynPublicKey) (bytes message sig : Bytes) → pk.marshal_binary ≡ ok bytes
      → verify h r g pk message sig (some o) ≡ ok false
  unfolding verify
  verify_long o long pk bytes message sig marshals =
      elim (outcome_cases (public_from_bytes h r g bytes) (ed448_key-Returns h r g bytes)) [
        | inl (e, unread) ↦ rw (marshals, unread) refl
        | inr (typed, read) ↦
            elim (outcome_cases (verify_sig h r g typed message sig (some o))
              (ed448_verify-Returns h r g typed message sig (some o))) [
                | inl (e, refused) ↦ rw (marshals, read, refused) refl
                | inr (done, accepted) ↦
                    absurd
                      (long_refused o long typed message sig (untrusted bytes typed read) accepted)
              ]
      ]

  pub sign_foreign :
      (sk : DynPrivateKey) (bytes message : Bytes) (opts : Option SignatureOpts) (e : CryptoError)
      → sk.marshal_binary ≡ ok bytes
      → unmarshal_binary_private_key h r g bytes ≡ err e
      → Panics (sign h r g sk message opts)
  unfolding sign unmarshal_binary_private_key private_try_from
  sign_foreign sk bytes message opts e marshals foreign =
      let refused = map_ok-eq-err _ (private_from_bytes h r g bytes) foreign in
      rw (marshals, refused) tt

  pub verify_foreign :
      (pk : DynPublicKey) (bytes message sig : Bytes) (opts : Option SignatureOpts)
      (e : CryptoError)
      → pk.marshal_binary ≡ ok bytes
      → unmarshal_binary_public_key h r g bytes ≡ err e
      → verify h r g pk message sig opts ≡ ok false
  unfolding verify unmarshal_binary_public_key
  verify_foreign pk bytes message sig opts e marshals foreign =
      let refused = map_ok-eq-err (dyn_public h r g) (public_from_bytes h r g bytes) foreign in
      rw (marshals, refused) refl
