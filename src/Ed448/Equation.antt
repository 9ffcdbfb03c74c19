-- ===== src/Ed448/Equation.antt =====
-- The challenge and the verification equation of `verify_via_goldilocks` (src/mdecc/ed448.rs).
use mathlib.Core.List.{reverse-cons}
use blackchain_crypto_lib_ru.Base.{
  ℕ, true, ◌≡◌, refl, ◌∙◌, Bytes, IsByte, All, [], ◌∷◌, ◌++◌, arith, le_number,
}
use blackchain_crypto_lib_ru.Crates.Laws.{GoldilocksLaws}
use blackchain_crypto_lib_ru.Crates.{Hashes, Ed448Rust, Goldilocks}
use blackchain_crypto_lib_ru.Ed448.{reduce_from, reduce, equation_lhs}

module _ (h : Hashes) (r : Ed448Rust) (g : Goldilocks) (laws : GoldilocksLaws g) where
  reduce_from-append :
      (k : g.Scalar) (xs ys : Bytes)
      → reduce_from h r g k (xs ++ ys) ≡ reduce_from h r g (reduce_from h r g k xs) ys
  unfolding reduce_from
  reduce_from-append k [] ys = refl
  reduce_from-append k (x ∷ xs) ys =
      reduce_from-append (g.plus (g.times k (g.from_u32 256)) (g.from_u32 x)) xs ys

  -- One more byte at the low end is one more round.
  reduce-cons :
      (x : ℕ) (xs : Bytes)
      → reduce h r g (x ∷ xs) ≡ g.plus (g.times (reduce h r g xs) (g.from_u32 256)) (g.from_u32 x)
  unfolding reduce reduce_from
  reduce-cons x xs = rw (reverse-cons, reduce_from-append)

  -- The loop computes the class of the little-endian number of the hash.
  pub reduce_lem :
      (bytes : Bytes) → All IsByte bytes → reduce h r g bytes ≡ laws.of_nat (le_number bytes)
  reduce_lem [] b = unfold reduce reduce_from in laws.zero_scalar_lem
  reduce_lem (x ∷ xs) b = simp (
    reduce-cons,
    reduce_lem xs b.1,
    laws.from_u32_lem 256 (omega arith),
    laws.from_u32_lem x (omega arith),
    laws.times-of_nat,
    laws.plus-of_nat,
  )

  -- With S = nonce + k * secret, A = [secret]B and R = [nonce]B the left side is the identity.
  pub equation_lhs_identity :
      (nonce k secret : g.Scalar)
      → equation_lhs h r g
          (g.plus nonce (g.times k secret))
          k
          (g.scalar_mul g.generator secret)
          (g.scalar_mul g.generator nonce)
        ≡ g.identity
  unfolding equation_lhs
  equation_lhs_identity nonce k secret =
      let a = g.scalar_mul g.generator secret in
      let p = g.scalar_mul g.generator nonce in
      let q = g.scalar_mul a k in
      cc (
        laws.scalar_mul-plus g.generator nonce (g.times k secret),
        laws.scalar_mul-times g.generator k secret,
        laws.add_assoc p q (g.negate q),
        laws.add_negate q,
        laws.add_identity p,
        laws.add_negate p,
      )

  double_identity : g.double g.identity ≡ g.identity
  double_identity = laws.double_lem g.identity ∙ laws.add_identity g.identity

  pub identity_has_small_order : g.point_eq (g.double (g.double g.identity)) g.identity ≡ true
  identity_has_small_order = rw (double_identity, double_identity, laws.point_eq_refl)
