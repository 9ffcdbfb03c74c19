-- ===== src/Ed448/Verify.antt =====
-- Signatures made by `sign_msg` verify (src/mdecc/ed448.rs), by a key read from bytes and by a
-- key derived in memory.
use mathlib.Core.Option.{get_or}
use blackchain_crypto_lib_ru.Base.{
  ◌≤◌, true, [], ◌≡◌, Bytes, IsByte, All, ok, le_number, length, slice_front, slice_back,
  le→not_ltb, copy_from_slice_exact, Option, slice,
}
use blackchain_crypto_lib_ru.Crates.Laws.{HashLaws, GoldilocksLaws, IsSignature}
use blackchain_crypto_lib_ru.Crates.{Hashes, Ed448Rust, Goldilocks}
use blackchain_crypto_lib_ru.Ed448.Equation.{
  reduce_lem, equation_lhs_identity, identity_has_small_order,
}
use blackchain_crypto_lib_ru.Ed448.Point.Canonical.{IsCanonical, decode_canonical_point_iff}
use blackchain_crypto_lib_ru.Ed448.{
  SigningMode, challenge_input, verify_via_goldilocks, reduce, equation_lhs,
}
use blackchain_crypto_lib_ru.Error.{CryptoError}

module _ (h : Hashes) (r : Ed448Rust) (g : Goldilocks) (laws : GoldilocksLaws g)
    (hash_laws : HashLaws h) where
  module _ (secret : g.Scalar) (raw msg ctx : Bytes) (mode : SigningMode) where
    abbrev challenge : Bytes → Bytes
    challenge r_bytes = h.shake256 (challenge_input h mode ctx r_bytes raw msg) 114

    -- The equation holds on an honest signature.
    equation_holds :
        (sig : Bytes) (s : IsSignature h r g laws secret raw mode ctx msg sig)
        → g.point_eq
            (g.double (
              g.double (
                equation_lhs h r g
                  (g.plus s.nonce (g.times (laws.of_nat (le_number (challenge s.r_bytes))) secret))
                  (reduce h r g (challenge s.r_bytes))
                  (g.scalar_mul g.generator secret)
                  (g.scalar_mul g.generator s.nonce))))
            g.identity
          ≡ true
    equation_holds sig s =
        rw
          (
            reduce_lem h r g laws (challenge s.r_bytes) (hash_laws.bytes-shake256 _ 114),
            equation_lhs_identity h r g laws s.nonce _ secret,
          )
          (identity_has_small_order h r g laws)

  pub IsSignature-verifies :
      (secret : g.Scalar) (raw msg sig : Bytes) (ctx : Option Bytes) (mode : SigningMode)
      → All IsByte raw
      → IsCanonical g raw (g.scalar_mul g.generator secret)
      → length (get_or ctx []) ≤ 255
      → IsSignature h r g laws secret raw mode (get_or ctx []) msg sig
      → verify_via_goldilocks h r g raw msg sig ctx mode ≡ ok tt
  unfolding verify_via_goldilocks
  IsSignature-verifies secret raw msg sig ctx mode bytes key short s =
      let first : slice {E = CryptoError} 0 57 sig ≡ ok s.r_bytes =
        rw s.splits (slice_front 57 s.r_bytes s.s_bytes s.length_r) in
      let second : slice {E = CryptoError} 57 (length sig) sig ≡ ok s.s_bytes =
        rw s.splits (slice_back 57 s.r_bytes s.s_bytes s.length_r) in
      rw (
        (decode_canonical_point_iff g raw bytes _).1 key,
        first,
        copy_from_slice_exact 57 s.r_bytes s.length_r,
        second,
        copy_from_slice_exact 57 s.s_bytes s.length_s,
        (decode_canonical_point_iff g s.r_bytes s.bytes_r _).1 s.r_encodes,
        s.s_encodes,
        le→not_ltb 255 _ short,
        equation_holds secret raw msg (get_or ctx []) mode sig s,
      )
