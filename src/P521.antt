-- ===== src/P521.antt =====
-- src/mdecc/p521.rs: P-521 ECDSA keys and signatures over the `p521` crate. The public and the
-- private key are newtypes of the crate's keys.
pub mod Keys
pub mod Derive
pub mod Scheme
use Prim.Native.Nat.{zero, suc}
use mathlib.Core.Option.{get_or}
use blackchain_crypto_lib_ru.Base.{
  ℕ, ◌+◌, Bool, true, false, none, some, [], ◌∷◌, ◌++◌, inl, inr, ◌==◌, Bytes, plain, text, number,
  ok, panic, ◌>>=◌, ◌>>◌, refuse_if, assert_that, from_crate, codes, copy_from_slice, length,
  replicate,
}
use blackchain_crypto_lib_ru.Error.{signature_error, curve_error, Fallible}
use blackchain_crypto_lib_ru.Crates.{Hashes, P521Ecdsa, Entropy}
use blackchain_crypto_lib_ru.Sign.{err_seed_size}

abbrev pub private_key_size : ℕ
private_key_size = 66

abbrev pub public_key_size : ℕ
public_key_size = 133

abbrev pub signature_size : ℕ
signature_size = 132

abbrev pub seed_size : ℕ
seed_size = private_key_size

module _ (p : P521Ecdsa) where
  abbrev pub PublicKey : Type 0
  PublicKey = p.VerifyingKey

  abbrev pub PrivateKey : Type 0
  PrivateKey = p.SigningKey

  unfoldable pub public_as_bytes : PublicKey → Bytes
  public_as_bytes pk = p.to_encoded_point pk

  unfoldable pub public_from_bytes : Bytes → Fallible PublicKey
  public_from_bytes bytes = from_crate curve_error (p.from_sec1_bytes bytes)

  abbrev is_high_s : p.Signature → Bool
  is_high_s sig = elim (p.normalize_s sig) [ none ↦ false | some low ↦ true ]

  unfoldable pub verify_sig : PublicKey → Bytes → Bytes → Fallible (Unit {0})
  verify_sig pk msg signature = do
    sig ← from_crate signature_error (p.signature_from_slice signature)
    refuse_if (is_high_s sig)
        (signature_error (plain "non-canonical high-S P-521 signature rejected"))
    from_crate signature_error (p.verify pk msg sig)

  unfoldable pub private_as_bytes : PrivateKey → Bytes
  private_as_bytes sk = p.to_bytes sk

  unfoldable pub private_from_bytes : Bytes → Fallible PrivateKey
  private_from_bytes bytes = from_crate curve_error (p.from_slice bytes)

  unfoldable pub public_key_typed : PrivateKey → PublicKey
  public_key_typed sk = p.verifying_key sk

  -- `nonce` is the randomness that the crate draws.
  unfoldable pub sign_msg : PrivateKey → Bytes → Bytes → Bytes
  sign_msg sk msg nonce =
      let sig = p.sign sk nonce msg in p.signature_to_bytes (get_or (p.normalize_s sig) sig)

  -- The key that replaces the scalar on drop: the scalar 1, if the crate takes it.
  unfoldable pub zeroize : PrivateKey → PrivateKey
  zeroize sk = elim (p.from_slice (replicate 65 0 ++ 1 ∷ [])) [
    | inl e ↦ sk
    | inr dummy_key ↦ dummy_key
  ]

  unfoldable pub generate_key : Entropy → Fallible (PublicKey × PrivateKey)
  generate_key entropy = let sk = p.random entropy in ok (p.verifying_key sk, sk)

  module _ (h : Hashes) where
    -- The scalar that one counter gives: SHA-512 of the seed behind two zero bytes.
    pub scalar_bytes : Bytes → ℕ → Fallible Bytes
    scalar_bytes seed counter = do
      digest ←
          copy_from_slice 64 (h.sha512 (codes "blackchain-p521-derive-v1" ++ seed ++ counter ∷ []))
      ok (replicate 2 0 ++ digest)

    -- `for counter in 0u8..=255`: the rounds that are left, and the counter.
    pub derive_from : ℕ → ℕ → Bytes → Fallible (PublicKey × PrivateKey)
    derive_from zero counter seed =
        panic (plain "derive_keypair_from_seed: no valid scalar found in 256 attempts")
    derive_from (suc rounds) counter seed =
        let rest = derive_from rounds (counter + 1) seed in
        do
          scalar ← scalar_bytes seed counter
          elim (p.from_slice scalar) [ inl e ↦ rest | inr sk ↦ ok (p.verifying_key sk, sk) ]

    unfoldable pub derive_keypair_from_seed : Bytes → Fallible (PublicKey × PrivateKey)
    derive_keypair_from_seed seed = do
      assert_that (length seed == seed_size)
          (err_seed_size ++ text "; expected 66, got " ∷ number (length seed) ∷ [])
      derive_from 256 0 seed
