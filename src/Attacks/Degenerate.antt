-- ===== src/Attacks/Degenerate.antt =====
-- src/attack_vectors.rs, sections D and E: bad phrases, paths, seeds and keys.
mod Run
use blackchain_crypto_lib_ru.Base.{
  ℕ, ◌+◌, ◌-◌, not, String, [], ◌∷◌, ◌++◌, Bytes, Chars, codes, plain, ok, ◌>>=◌, ◌>>◌, assert_that,
  unwrapped, fails, succeeds, bytes_eq, replicate,
}
use blackchain_crypto_lib_ru.Crates.{Crates}
use blackchain_crypto_lib_ru.Crypto.PrivateKey.{generate}
use blackchain_crypto_lib_ru.Crypto.PublicKey.{from_bytes, composite_pk_size}
use blackchain_crypto_lib_ru.Error.{Fallible}
use blackchain_crypto_lib_ru.HdWallet.Derivation.{
  derive_child_seed, derive_mdecc_curve_seed, curve_id_p521, curve_id_ed448,
}
use blackchain_crypto_lib_ru.HdWallet.Mnemonic.{seed_from_mnemonic, validate_mnemonic}
use blackchain_crypto_lib_ru.P521

-- Twenty-four times the same word.
abbrev pub bad : Chars
bad =
    codes
      "abandon abandon abandon abandon abandon abandon abandon abandon abandon abandon abandon abandon abandon abandon abandon abandon abandon abandon abandon abandon abandon abandon abandon abandon"

abbrev pub twelve : Chars
twelve =
    codes
      "abandon abandon abandon abandon abandon abandon abandon abandon abandon abandon abandon about"

module _ (c : Crates) where
  -- What both tests of phrases assert.
  abbrev pub phrase_rejected : Chars → String → String → Fallible (Unit {0})
  phrase_rejected phrase valid seeded = do
    assert_that (not (validate_mnemonic c.bip39 phrase)) (plain valid)
    rejected ← fails (seed_from_mnemonic c.bip39 phrase [])
    assert_that rejected (plain seeded)

  unfoldable pub attack_bip39_bad_checksum_rejected : Fallible (Unit {0})
  attack_bip39_bad_checksum_rejected =
      phrase_rejected bad "assertion failed: !validate_mnemonic(bad)"
        "assertion failed: seed_from_mnemonic(bad, \"\").is_err()"

  unfoldable pub attack_bip39_wrong_word_count_rejected : Fallible (Unit {0})
  attack_bip39_wrong_word_count_rejected =
      phrase_rejected twelve "assertion failed: !validate_mnemonic(twelve)"
        "assertion failed: seed_from_mnemonic(twelve, \"\").is_err()"

  unfoldable pub attack_bip32_nonhardened_index_rejected : Fallible (Unit {0})
  attack_bip32_nonhardened_index_rejected = do
    let master = replicate 64 7
    first ← fails (derive_child_seed c.bip32 master (0 ∷ []))
    assert_that first (plain "assertion failed: derive_child_seed(&master, &[0u32]).is_err()")
    second ← fails (derive_child_seed c.bip32 master (44 ∷ []))
    assert_that second (plain "assertion failed: derive_child_seed(&master, &[44]).is_err()")
    third ← succeeds (derive_child_seed c.bip32 master (0x8000_002C ∷ []))
    assert_that third
        (plain "assertion failed: derive_child_seed(&master, &[0x8000_002Cu32]).is_ok()")

  unfoldable pub attack_short_seed_rejected : Fallible (Unit {0})
  attack_short_seed_rejected = do
    first ← fails (generate c (replicate 32 0))
    assert_that first (plain "assertion failed: generate(&[0u8; 32]).is_err()")
    second ← fails (generate c (replicate 63 0))
    assert_that second (plain "assertion failed: generate(&[0u8; 63]).is_err()")
    third ← succeeds (generate c (replicate 64 0))
    assert_that third (plain "assertion failed: generate(&[0u8; 64]).is_ok()")

  unfoldable pub attack_kdf_curve_domain_separation : Fallible (Unit {0})
  attack_kdf_curve_domain_separation = do
    let master = replicate 16 0x33
    p521_seed ← unwrapped (derive_mdecc_curve_seed c.hashes master curve_id_p521 32)
    ed448_seed ← unwrapped (derive_mdecc_curve_seed c.hashes master curve_id_ed448 32)
    assert_that (not (bytes_eq p521_seed ed448_seed))
        (plain "curve-ID domain separation must make sub-seeds independent")

  unfoldable pub attack_all_zero_composite_pubkey_rejected : Fallible (Unit {0})
  attack_all_zero_composite_pubkey_rejected = do
    rejected ← fails (from_bytes c (replicate composite_pk_size 0))
    assert_that rejected
        (plain "all-zero composite public key must be rejected (invalid P-521 / Ed448 point)")

  unfoldable pub attack_wrong_length_composite_pubkey_rejected : Fallible (Unit {0})
  attack_wrong_length_composite_pubkey_rejected = do
    let total = composite_pk_size
    first ← fails (from_bytes c (replicate (total - 1) 0))
    assert_that first (plain "assertion failed: from_bytes(&vec![0u8; total - 1]).is_err()")
    second ← fails (from_bytes c (replicate (total + 1) 0))
    assert_that second (plain "assertion failed: from_bytes(&vec![0u8; total + 1]).is_err()")

  unfoldable pub attack_all_zero_p521_pubkey_rejected : Fallible (Unit {0})
  attack_all_zero_p521_pubkey_rejected = do
    rejected ← fails (P521.public_from_bytes c.ecdsa (replicate P521.public_key_size 0))
    assert_that rejected
        (plain "assertion failed: P521PublicKey::from_bytes(&[0u8; P521_PK]).is_err()")
