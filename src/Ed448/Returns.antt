-- ===== src/Ed448/Returns.antt =====
-- Reading keys and verifying give a value or an error and never panic (src/mdecc/ed448.rs), and a context
-- of more than 255 bytes is never accepted.
use mathlib.Core.Option.{get_or}
use blackchain_crypto_lib_ru.Base.{
  ◌≡◌, ◌≢◌, ◌<◌, ◌==◌, Bool-cases, ==_iff, inl, inr, Option, none, some, [], Bytes, arith, length,
  copy_from_slice, copy_from_slice_exact, length-take, length-drop, take, drop, slice, slice_inside,
  ok, map_err, ok_or, refuse_if, refuse_if-eq-ok, ltb, lt→ltb, >>=-eq-ok, plain,
}
use blackchain_crypto_lib_ru.Base.Returns.{Returns, Returns-err, returns_rules}
use blackchain_crypto_lib_ru.Crates.{Hashes, Ed448Rust, Goldilocks}
use blackchain_crypto_lib_ru.Ed448.Point.{decode_canonical_point}
use blackchain_crypto_lib_ru.Ed448.{
  SigningMode, ed448, ed448_ph, PublicKey, public_from_bytes, verify_via_goldilocks, verify_trusted,
  verify_sig,
}
use blackchain_crypto_lib_ru.Error.{CryptoError, curve_error, signature_error}
use blackchain_crypto_lib_ru.Sign.{SignatureOpts}

pub point-Returns : (g : Goldilocks) (raw : Bytes) → Returns (decode_canonical_point g raw)
unfolding decode_canonical_point
point-Returns g raw = search returns_rules

module _ (h : Hashes) (r : Ed448Rust) (g : Goldilocks) where
  pub ed448_key-Returns : (bytes : Bytes) → Returns (public_from_bytes h r g bytes)
  unfolding public_from_bytes
  ed448_key-Returns bytes = elim (Bool-cases (length bytes == 57)) [
    | inr other ↦ rw other (Returns-err _)
    | inl sized ↦
        rw
          (
            sized,
            copy_from_slice_exact {E = CryptoError} 57 bytes ((==_iff (length bytes) 57).0 sized),
          )
          (search (returns_rules, point-Returns g))
  ]

  goldilocks-Returns :
      (raw msg sig : Bytes) (ctx : Option Bytes) (mode : SigningMode)
      → length sig ≡ 114
      → Returns (verify_via_goldilocks h r g raw msg sig ctx mode)
  unfolding verify_via_goldilocks
  goldilocks-Returns raw msg sig ctx mode e =
      let front : length (take 57 sig) ≡ 57 = length-take 57 sig (omega arith) in
      let back : length (take 57 (drop 57 sig)) ≡ 57 =
        length-take 57 (drop 57 sig) (omega (arith, length-drop 57 sig)) in
      rw
        (
          e,
          slice_inside {E = CryptoError} 0 57 sig (omega arith) (omega arith),
          slice_inside {E = CryptoError} 57 114 sig (omega arith) (omega arith),
          copy_from_slice_exact {E = CryptoError} 57 (take 57 sig) front,
          copy_from_slice_exact {E = CryptoError} 57 (take 57 (drop 57 sig)) back,
        )
        (search (returns_rules, point-Returns g) depth 12)

  trusted-Returns :
      (inner : r.PublicKey) (msg sig : Bytes) (ctx : Option Bytes) (mode : SigningMode)
      → Returns (verify_trusted h r g inner msg sig ctx mode)
  unfolding verify_trusted
  trusted-Returns inner msg sig ctx ed448 = search returns_rules
  trusted-Returns inner msg sig ctx ed448_ph = search returns_rules

  verify_with :
      (inner : Option r.PublicKey) (raw msg sig : Bytes) (opts : Option SignatureOpts)
      → length sig ≡ 114
      → Returns (verify_sig h r g (record { raw = raw; trusted_inner = inner }) msg sig opts)
  unfolding verify_sig
  verify_with none raw msg sig opts e =
      rw (e, copy_from_slice_exact {E = CryptoError} 114 sig e)
        (goldilocks-Returns raw msg sig _ _ e)
  verify_with (some inner) raw msg sig opts e =
      rw (e, copy_from_slice_exact {E = CryptoError} 114 sig e) (trusted-Returns inner msg sig _ _)

  pub ed448_verify-Returns :
      (pk : PublicKey h r g) (msg sig : Bytes) (opts : Option SignatureOpts)
      → Returns (verify_sig h r g pk msg sig opts)
  unfolding verify_sig
  ed448_verify-Returns pk msg sig opts = elim (Bool-cases (length sig == 114)) [
    | inr other ↦ rw other (Returns-err _)
    | inl sized ↦
        verify_with pk.trusted_inner pk.raw msg sig opts ((==_iff (length sig) 114).0 sized)
  ]

  -- Whatever else it is given, the equation of RFC 8032 is not tried with a longer context.
  pub long_context :
      (raw msg sig : Bytes) (ctx : Option Bytes) (mode : SigningMode)
      → 255 < length (get_or ctx [])
      → verify_via_goldilocks h r g raw msg sig ctx mode ≢ ok tt
  unfolding verify_via_goldilocks
  long_context raw msg sig ctx mode long done =
      let (_, _, h1) =
        >>=-eq-ok
          (map_err (λ _. curve_error (plain "public key decompression failed"))
            (decode_canonical_point g raw))
          _ done in
      let (r_slice, _, h2) = >>=-eq-ok (slice 0 57 sig) _ h1 in
      let (r_bytes, _, h3) = >>=-eq-ok (copy_from_slice 57 r_slice) _ h2 in
      let (s_slice, _, h4) = >>=-eq-ok (slice 57 (length sig) sig) _ h3 in
      let (s_bytes, _, h5) = >>=-eq-ok (copy_from_slice 57 s_slice) _ h4 in
      let (_, _, h6) =
        >>=-eq-ok
          (map_err (λ _. signature_error (plain "signature R decompression failed"))
            (decode_canonical_point g r_bytes))
          _ h5 in
      let (_, _, h7) =
        >>=-eq-ok
          (ok_or (signature_error (plain "non-canonical Ed448 S scalar (S >= L)"))
            (g.from_canonical_bytes s_bytes))
          _ h6 in
      let too_long = signature_error (plain "Ed448 context string exceeds 255 bytes") in
      let (_, passed, _) = >>=-eq-ok (refuse_if (ltb 255 (length (get_or ctx []))) too_long) _ h7 in
      cc (
        lt→ltb 255 (length (get_or ctx [])) long,
        refuse_if-eq-ok (ltb 255 (length (get_or ctx []))) too_long passed,
      )
