-- ===== src/Crypto/Keys.antt =====
-- What `generate` makes of a seed (src/crypto.rs), and the parts of the keys that it returns.
mod Parts
pub use Parts.{IsKeyPair}
use Parts.{p521_part, searched, total}
use blackchain_crypto_lib_ru.Base.{
  plain, lt→ltb, ap, sym, ◌∙◌, refl, ok-injective, ◌<◌, ℕ, ◌≤◌, ◌≡◌, le→not_ltb, [], ◌∷◌, ◌++◌,
  Bytes, ok, err, panic, ◌>>=◌, arith, length, take, drop, length-take, slice, slice_inside,
  copy_from_slice_exact,
}
use blackchain_crypto_lib_ru.Crates.Laws.{CrateLaws, HashLaws}
use blackchain_crypto_lib_ru.Crates.{Crates, Hashes}
use blackchain_crypto_lib_ru.Crypto.PrivateKey.{BlackChainPrivateKey, generate, derive_public_key}
use blackchain_crypto_lib_ru.Crypto.PublicKey.{BlackChainPublicKey}
use blackchain_crypto_lib_ru.Dilithium.Keys.{
  expanded, new_key_from_seed_lem, pack_lem, pack_private_lem,
}
use blackchain_crypto_lib_ru.Ed448.Keys.{derived_public, from_seed_lem, as_bytes_lem}
use native.Mathlib.Decide.{dec_lt}
use blackchain_crypto_lib_ru.Error.{seed_error, CryptoError, Fallible}
use blackchain_crypto_lib_ru.HdWallet.Derivation.{derive_mdecc_curve_seed}
use blackchain_crypto_lib_ru.P521
use blackchain_crypto_lib_ru.P521.Derive
use mathlib.Core.Path.{subst}

module _ (c : Crates) (laws : CrateLaws c) where
  pub generate_short :
      (seed : Bytes)
      → length seed < 64
      → generate c seed
        ≡ err (seed_error (plain "seed must be at least 64 bytes for BlackChain key derivation"))
  unfolding generate
  generate_short seed short = rw (lt→ltb (length seed) 64 short)

  -- A result of `generate` comes from a seed of at least 64 bytes, is a key pair that keeps the seed,
  -- and `derive_public_key` gives the same public key again.
  pub generate-IsKeyPair :
      (seed : Bytes) (sk : BlackChainPrivateKey) (pk : BlackChainPublicKey)
      → generate c seed ≡ ok (sk, pk)
      → (64 ≤ length seed)
        × IsKeyPair c laws sk pk
        × (sk.seed ≡ seed)
        × (derive_public_key c sk ≡ ok pk)
  generate-IsKeyPair seed sk pk made = elim (dec_lt (length seed) 64) [
    | yes short ↦ cc (generate_short seed short)
    | no enough ↦
        let long : 64 ≤ length seed = omega arith in
        let (pair, kept, again) = searched c laws seed long _ refl sk pk made in
        (long, pair, kept, again)
  ]

  -- `generate` refuses every seed below 64 bytes, with no condition on it. A longer seed gives a pair of
  -- keys if some counter from 0 to 255 gives an acceptable P-521 scalar from the P-521 seed of its bytes
  -- 32 to 63.
  pub generate_total :
      (seed : Bytes)
      → (64 ≤ length seed
          → (p521_seed : Bytes) × (derive_mdecc_curve_seed c.hashes (take 32 (drop 32 seed)) 1 66
              ≡ ok p521_seed)
            × (j : ℕ) × (j < 256)
            × ¬ Derive.Rejected c.ecdsa c.hashes p521_seed j)
      → (length seed < 64
          → generate c seed
            ≡ err
                (seed_error (plain "seed must be at least 64 bytes for BlackChain key derivation")))
        × (64 ≤ length seed
            → (sk : BlackChainPrivateKey) × (pk : BlackChainPublicKey) × (generate c seed
                ≡ ok (sk, pk)))
  generate_total seed found = (
    generate_short seed,
    λ long.
        let (p521_seed, derived, j, lt, taken) = found long in
        let same = ok-injective (sym derived ∙ (p521_part c laws seed long).1) in
        total c laws seed long j lt
          (subst (λ s. ¬ Derive.Rejected c.ecdsa c.hashes s j) same taken),
  )
