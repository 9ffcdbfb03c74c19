-- ===== src/Ed448/Malleation.antt =====
-- A signature whose S is replaced by bytes that are no canonical scalar is refused
-- (src/mdecc/ed448.rs).
use mathlib.Core.Path.{subst}
use blackchain_crypto_lib_ru.Base.{
  ◌≡◌, refl, ap, sym, ◌∙◌, not, none, ◌++◌, ◌==◌, Bytes, Option, plain, ok, err, ok-injective,
  >>=-eq-ok, map_err, refuse_if, slice, slice_front, slice_back, slice_inside, copy_from_slice,
  copy_from_slice_exact, length, length-append, length-take, take, arith,
}
use blackchain_crypto_lib_ru.Crates.{Hashes, Ed448Rust, Goldilocks}
use blackchain_crypto_lib_ru.Ed448.{
  SigningMode, PublicKey, public_from_bytes, verify_sig, verify_via_goldilocks, from_opts,
  context_opt,
}
use blackchain_crypto_lib_ru.Ed448.Point.{decode_canonical_point, public_key_size}
use blackchain_crypto_lib_ru.Error.{CryptoError, signature_error, curve_error}
use blackchain_crypto_lib_ru.Sign.{SignatureOpts}

abbrev pub noncanonical_s : CryptoError
noncanonical_s = signature_error (plain "non-canonical Ed448 S scalar (S >= L)")

module _ (h : Hashes) (r : Ed448Rust) (g : Goldilocks) where
  -- A key that is read from bytes has no trusted form.
  untrusted :
      (bytes : Bytes) (pk : PublicKey h r g)
      → public_from_bytes h r g bytes ≡ ok pk
      → pk.trusted_inner ≡ none
  unfolding public_from_bytes
  untrusted bytes pk made =
      let (_, sized, h1) = >>=-eq-ok (refuse_if (not (length bytes == public_key_size)) _) _ made in
      let (raw, copied, h2) = >>=-eq-ok (copy_from_slice public_key_size bytes) _ h1 in
      let (point, decoded, end) = >>=-eq-ok (decode_canonical_point g raw) _ h2 in
      sym (ap (λ k. k.trusted_inner) (ok-injective end))

  refused_via :
      (raw msg sig s_bytes : Bytes) (ctx : Option Bytes) (mode : SigningMode)
      → length sig ≡ 114
      → length s_bytes ≡ 57
      → verify_via_goldilocks h r g raw msg sig ctx mode ≡ ok tt
      → g.from_canonical_bytes s_bytes ≡ none
      → verify_via_goldilocks h r g raw msg (take 57 sig ++ s_bytes) ctx mode ≡ err noncanonical_s
  unfolding verify_via_goldilocks
  refused_via raw msg sig s_bytes ctx mode whole sized verified refused =
      let front : length (take 57 sig) ≡ 57 = length-take 57 sig (omega arith) in
      let (a_point, a_ok, h1) =
        >>=-eq-ok
          (map_err (λ _. curve_error (plain "public key decompression failed"))
            (decode_canonical_point g raw))
          _ verified in
      let (r_slice, r_cut, h2) = >>=-eq-ok (slice 0 57 sig) _ h1 in
      let (r_bytes, r_copied, h3) = >>=-eq-ok (copy_from_slice 57 r_slice) _ h2 in
      let (s_slice, s_cut, h4) = >>=-eq-ok (slice 57 (length sig) sig) _ h3 in
      let (old_s, s_copied, h5) = >>=-eq-ok (copy_from_slice 57 s_slice) _ h4 in
      let (r_point, r_ok, h6) =
        >>=-eq-ok
          (map_err (λ _. signature_error (plain "signature R decompression failed"))
            (decode_canonical_point g r_bytes))
          _ h5 in
      let cut : r_slice ≡ take 57 sig =
        ok-injective
          (sym r_cut ∙ slice_inside {E = CryptoError} 0 57 sig (omega arith) (omega arith)) in
      let copied : r_bytes ≡ take 57 sig = ok-injective (
        sym r_copied
        ∙ ap (copy_from_slice {E = CryptoError} 57) cut
        ∙ copy_from_slice_exact 57 (take 57 sig) front) in
      let first : slice {E = CryptoError} 0 57 (take 57 sig ++ s_bytes) ≡ ok (take 57 sig) =
        slice_front 57 (take 57 sig) s_bytes front in
      let second : slice {E = CryptoError} 57 (length (take 57 sig ++ s_bytes))
            (take 57 sig ++ s_bytes)
          ≡ ok s_bytes =
        slice_back 57 (take 57 sig) s_bytes front in
      let r_again =
        subst
          (λ b.
            map_err (λ _. signature_error (plain "signature R decompression failed"))
              (decode_canonical_point g b)
            ≡ ok r_point)
          copied r_ok in
      rw
        (
          a_ok,
          first,
          copy_from_slice_exact {E = CryptoError} 57 (take 57 sig) front,
          second,
          copy_from_slice_exact {E = CryptoError} 57 s_bytes sized,
          r_again,
          refused,
        )
        refl

  -- Under a key that is read from bytes, a signature that verifies is refused once its second half is
  -- replaced by 57 bytes that are no canonical scalar.
  pub verify_sig_noncanonical :
      (bytes msg sig s_bytes : Bytes) (pk : PublicKey h r g) (opts : Option SignatureOpts)
      → public_from_bytes h r g bytes ≡ ok pk
      → length sig ≡ 114
      → length s_bytes ≡ 57
      → verify_sig h r g pk msg sig opts ≡ ok tt
      → g.from_canonical_bytes s_bytes ≡ none
      → verify_sig h r g pk msg (take 57 sig ++ s_bytes) opts ≡ err noncanonical_s
  unfolding verify_sig
  verify_sig_noncanonical bytes msg sig s_bytes pk opts made whole sized verified refused =
      let none_kept = untrusted bytes pk made in
      let front : length (take 57 sig) ≡ 57 = length-take 57 sig (omega arith) in
      let total : length (take 57 sig ++ s_bytes) ≡ 114 =
        omega (arith, length-append (take 57 sig) s_bytes) in
      let direct : verify_via_goldilocks h r g pk.raw msg sig (context_opt (from_opts opts) opts)
            (from_opts opts)
          ≡ ok tt =
        rw (whole, copy_from_slice_exact {E = CryptoError} 114 sig whole, none_kept) at verified in
      rw
        (
          total,
          copy_from_slice_exact {E = CryptoError} 114 (take 57 sig ++ s_bytes) total,
          none_kept,
        )
        (refused_via pk.raw msg sig s_bytes _ _ whole sized direct refused)
