-- ===== src/Crates/Laws/Curve.antt =====
-- Laws of `ed448_goldilocks` (scalars are the integers modulo the group order, points a commutative
-- group on which they act) and of `ed448_rust` (keys and signatures of RFC 8032, section 5.2).
use blackchain_crypto_lib_ru.Base.{
  ℕ, ◌+◌, ◌*◌, ◌^◌, ◌≤◌, ◌<◌, ◌≡◌, Option, some, Message, inl, inr, true, [], ◌++◌, Bytes, All,
  IsByte, length, le_number,
}
use blackchain_crypto_lib_ru.Crates.{Hashes, Ed448Rust, Goldilocks}
use blackchain_crypto_lib_ru.Ed448.{SigningMode, ed448, ed448_ph, challenge_input}
use blackchain_crypto_lib_ru.Ed448.Point.Canonical.{IsCanonical}
use mathlib.Core.Option.{get_or}

-- `of_nat` is the class of a number modulo the group order.
pub record GoldilocksLaws (g : Goldilocks) : Type 0 where
  pub of_nat : ℕ → g.Scalar
  pub zero_scalar_lem : g.zero_scalar ≡ of_nat 0
  pub from_u32_lem : (n : ℕ) → n < 2 ^ 32 → g.from_u32 n ≡ of_nat n
  pub plus-of_nat : (a b : ℕ) → g.plus (of_nat a) (of_nat b) ≡ of_nat (a + b)
  pub times-of_nat : (a b : ℕ) → g.times (of_nat a) (of_nat b) ≡ of_nat (a * b)
  pub add_assoc : (p q t : g.Point) → g.add (g.add p q) t ≡ g.add p (g.add q t)
  pub add_identity : (p : g.Point) → g.add p g.identity ≡ p
  pub add_negate : (p : g.Point) → g.add p (g.negate p) ≡ g.identity
  pub double_lem : (p : g.Point) → g.double p ≡ g.add p p
  pub point_eq_refl : (p : g.Point) → g.point_eq p p ≡ true
  pub scalar_mul-plus :
      (p : g.Point) (a b : g.Scalar)
      → g.scalar_mul p (g.plus a b) ≡ g.add (g.scalar_mul p a) (g.scalar_mul p b)
  pub scalar_mul-times :
      (p : g.Point) (a b : g.Scalar)
      → g.scalar_mul p (g.times a b) ≡ g.scalar_mul (g.scalar_mul p b) a

module _ (h : Hashes) (r : Ed448Rust) (g : Goldilocks) where
  -- RFC 8032, 5.2.6: a signature R ‖ S with R = [nonce]B and S = nonce + k * secret.
  pub record IsSignature (laws : GoldilocksLaws g) (secret : g.Scalar) (raw : Bytes)
      (mode : SigningMode) (ctx msg signature : Bytes) : Type 0 where
    pub nonce : g.Scalar
    pub r_bytes : Bytes
    pub s_bytes : Bytes
    pub splits : signature ≡ r_bytes ++ s_bytes
    pub length_r : length r_bytes ≡ 57
    pub length_s : length s_bytes ≡ 57
    pub bytes_r : All IsByte r_bytes
    pub r_encodes : IsCanonical g r_bytes (g.scalar_mul g.generator nonce)
    pub s_encodes :
        g.from_canonical_bytes s_bytes
        ≡ some (
            g.plus nonce (
              g.times
                (laws.of_nat
                  (le_number (h.shake256 (challenge_input h mode ctx r_bytes raw msg) 114)))
                secret))

  pub record Ed448RustLaws (laws : GoldilocksLaws g) : Type 0 where
    pub secret : r.PrivateKey → g.Scalar
    pub private_bytes-private_from :
        (seed : Bytes) → length seed ≡ 57 → r.private_bytes (r.private_from seed) ≡ seed
    pub length-public_bytes : (pk : r.PublicKey) → length (r.public_bytes pk) ≡ 57
    pub bytes-public_bytes : (pk : r.PublicKey) → All IsByte (r.public_bytes pk)
    -- The public key encodes [secret]B, which is not of small order.
    pub public_encodes :
        (sk : r.PrivateKey)
        → IsCanonical g (r.public_bytes (r.public_from sk)) (g.scalar_mul g.generator (secret sk))
    pub signs :
        (sk : r.PrivateKey) (msg : Bytes) (ctx : Option Bytes)
        → length (get_or ctx []) ≤ 255
        → (signature : Bytes) × (r.sign sk msg ctx ≡ inr signature)
          × (r.verify (r.public_from sk) msg signature ctx ≡ inr tt)
          × IsSignature laws
              (secret sk)
              (r.public_bytes (r.public_from sk))
              ed448
              (get_or ctx [])
              msg
              signature
    pub signs_ph :
        (sk : r.PrivateKey) (msg : Bytes) (ctx : Option Bytes)
        → length (get_or ctx []) ≤ 255
        → (signature : Bytes) × (r.sign_ph sk msg ctx ≡ inr signature)
          × (r.verify_ph (r.public_from sk) msg signature ctx ≡ inr tt)
          × IsSignature laws
              (secret sk)
              (r.public_bytes (r.public_from sk))
              ed448_ph
              (get_or ctx [])
              msg
              signature
    -- A context of more than 255 bytes is an error (`ContextTooLong`).
    pub sign_too_long :
        (sk : r.PrivateKey) (msg : Bytes) (ctx : Option Bytes)
        → 255 < length (get_or ctx [])
        → (e : Message) × (r.sign sk msg ctx ≡ inl e)
