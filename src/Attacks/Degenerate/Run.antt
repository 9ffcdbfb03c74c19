-- ===== src/Attacks/Degenerate/Run.antt =====
-- The attacks of sections D and E of src/attack_vectors.rs end without a failed assertion, where it
-- takes an answer of a crate, if the crate gives that answer.
use mathlib.Core.Path.{subst}
use blackchain_crypto_lib_ru.Attacks.Degenerate.{
  bad, attack_bip39_bad_checksum_rejected, attack_bip39_wrong_word_count_rejected,
  attack_bip32_nonhardened_index_rejected, attack_short_seed_rejected,
  attack_wrong_length_composite_pubkey_rejected, attack_all_zero_p521_pubkey_rejected,
  attack_kdf_curve_domain_separation, attack_all_zero_composite_pubkey_rejected,
}
use blackchain_crypto_lib_ru.Base.{
  ap, ◌∙◌, ◌++◌, bytes_ne, replicate-add, slice, slice_front, slice_middle, slice_back,
  append_assoc, length-append, ℕ, ◌<◌, ◌≡◌, ◌≢◌, refl, true, inl, [], ◌∷◌, Bytes, fails, ok, err,
  Message, length, replicate, length-replicate, arith, count_words, is_whitespace, lt→ltb,
}
use blackchain_crypto_lib_ru.Crates.{Crates}
use blackchain_crypto_lib_ru.Crates.Laws.{CrateLaws}
use blackchain_crypto_lib_ru.Crypto.Keys.{generate_short}
use blackchain_crypto_lib_ru.Crypto.PrivateKey.{BlackChainPrivateKey, generate}
use blackchain_crypto_lib_ru.Crypto.PublicKey.{BlackChainPublicKey, from_bytes}
use blackchain_crypto_lib_ru.Error.{invalid_key_size, CryptoError}
use blackchain_crypto_lib_ru.Dilithium.Keys.{public_from_bytes_total}
use blackchain_crypto_lib_ru.HdWallet.Derivation.{
  derive_mdecc_curve_seed, curve_id_p521, curve_id_ed448, derive_child_seed, check_hardened,
}
use blackchain_crypto_lib_ru.HdWallet.Mnemonic.{seed_from_mnemonic, validate_mnemonic}
use blackchain_crypto_lib_ru.P521

module _ (c : Crates) where
  attack_bip39_bad_checksum_lem :
      (e : Message) → c.bip39.parse bad ≡ inl e → attack_bip39_bad_checksum_rejected c ≡ ok tt
  unfolding attack_bip39_bad_checksum_rejected validate_mnemonic seed_from_mnemonic count_words
      is_whitespace
  attack_bip39_bad_checksum_lem e refused = rw refused refl

  attack_bip39_wrong_word_count_lem : attack_bip39_wrong_word_count_rejected c ≡ ok tt
  unfolding attack_bip39_wrong_word_count_rejected validate_mnemonic seed_from_mnemonic count_words
      is_whitespace
  attack_bip39_wrong_word_count_lem = refl

  -- A path of one index that is not hardened is refused.
  refused_index :
      (index : ℕ) (seed : Bytes)
      → index < 0x8000_0000
      → fails {F = CryptoError} (derive_child_seed c.bip32 seed (index ∷ [])) ≡ ok true
  unfolding derive_child_seed check_hardened
  refused_index index seed low = rw (lt→ltb index 0x8000_0000 low) refl

  attack_bip32_nonhardened_lem :
      (seed : Bytes)
      → derive_child_seed c.bip32 (replicate 64 7) (0x8000_002C ∷ []) ≡ ok seed
      → attack_bip32_nonhardened_index_rejected c ≡ ok tt
  unfolding attack_bip32_nonhardened_index_rejected
  attack_bip32_nonhardened_lem seed derived =
      rw
        (
          refused_index 0 (replicate 64 7) (omega arith),
          refused_index 44 (replicate 64 7) (omega arith),
          derived,
        )
        refl

  attack_short_seed_lem :
      CrateLaws c
      → (sk : BlackChainPrivateKey) (pk : BlackChainPublicKey)
      → generate c (replicate 64 0) ≡ ok (sk, pk)
      → attack_short_seed_rejected c ≡ ok tt
  unfolding attack_short_seed_rejected
  attack_short_seed_lem laws sk pk made =
      rw
        (
          generate_short c laws (replicate 32 0) (omega (arith, length-replicate {A = ℕ} 32 0)),
          generate_short c laws (replicate 63 0) (omega (arith, length-replicate {A = ℕ} 63 0)),
          made,
        )
        refl

  -- A key of another length is refused with both lengths.
  from_bytes_wrong :
      (bytes : Bytes)
      → length bytes ≢ 2782
      → from_bytes c bytes ≡ err (invalid_key_size 2782 (length bytes))
  unfolding from_bytes
  from_bytes_wrong bytes other = ground arith

  attack_wrong_length_lem : attack_wrong_length_composite_pubkey_rejected c ≡ ok tt
  unfolding attack_wrong_length_composite_pubkey_rejected
  attack_wrong_length_lem =
      rw
        (
          from_bytes_wrong (replicate 2781 0) (omega (arith, length-replicate {A = ℕ} 2781 0)),
          from_bytes_wrong (replicate 2783 0) (omega (arith, length-replicate {A = ℕ} 2783 0)),
        )
        refl

  attack_all_zero_p521_lem :
      (e : Message)
      → c.ecdsa.from_sec1_bytes (replicate 133 0) ≡ inl e
      → attack_all_zero_p521_pubkey_rejected c ≡ ok tt
  unfolding attack_all_zero_p521_pubkey_rejected P521.public_from_bytes
  attack_all_zero_p521_lem e refused = rw refused refl

  attack_kdf_curve_domain_separation_lem :
      (p521_seed ed448_seed : Bytes)
      → derive_mdecc_curve_seed c.hashes (replicate 16 0x33) curve_id_p521 32 ≡ ok p521_seed
      → derive_mdecc_curve_seed c.hashes (replicate 16 0x33) curve_id_ed448 32 ≡ ok ed448_seed
      → p521_seed ≢ ed448_seed
      → attack_kdf_curve_domain_separation c ≡ ok tt
  unfolding attack_kdf_curve_domain_separation
  attack_kdf_curve_domain_separation_lem p521_seed ed448_seed first second differ =
      rw (first, second, bytes_ne p521_seed ed448_seed differ) refl

  -- The three parts of the all-zero key.
  zeros : replicate {A = ℕ} 2782 0 ≡ replicate 2592 0 ++ (replicate 133 0 ++ replicate 57 0)
  zeros = replicate-add 2592 190 0 ∙ ap (◌++◌ (replicate 2592 0)) (replicate-add 133 57 0)

  attack_all_zero_composite_lem :
      CrateLaws c
      → (e : Message) → c.ecdsa.from_sec1_bytes (replicate 133 0) ≡ inl e
      → attack_all_zero_composite_pubkey_rejected c ≡ ok tt
  unfolding attack_all_zero_composite_pubkey_rejected from_bytes P521.public_from_bytes
  attack_all_zero_composite_lem laws e refused =
      let dil = replicate {A = ℕ} 2592 0 in
      let p521 = replicate {A = ℕ} 133 0 in
      let ed448 = replicate {A = ℕ} 57 0 in
      let dil_sized : length dil ≡ 2592 = length-replicate 2592 0 in
      let p521_sized : length p521 ≡ 133 = length-replicate 133 0 in
      let ed448_sized : length ed448 ≡ 57 = length-replicate 57 0 in
      let whole : length (dil ++ (p521 ++ ed448)) ≡ 2782 =
        omega (arith, length-append dil (p521 ++ ed448), length-append p521 ed448) in
      let first : slice {E = CryptoError} 0 2592 (dil ++ (p521 ++ ed448)) ≡ ok dil =
        slice_front 2592 dil (p521 ++ ed448) dil_sized in
      let second : slice {E = CryptoError} 2592 2725 (dil ++ (p521 ++ ed448)) ≡ ok p521 =
        slice_middle 2592 2725 dil p521 ed448 dil_sized (omega arith) in
      let third : slice {E = CryptoError} 2725 2782 (dil ++ (p521 ++ ed448)) ≡ ok ed448 =
        subst (λ n. slice {E = CryptoError} 2725 n (dil ++ (p521 ++ ed448)) ≡ ok ed448) whole
          (rw (← append_assoc) (
            slice_back {E = CryptoError} 2725 (dil ++ p521) ed448
              (omega (arith, length-append dil p521)))) in
      rw
        (
          zeros,
          whole,
          first,
          second,
          third,
          public_from_bytes_total c.ml_dsa laws.ml_dsa_laws dil dil_sized,
          refused,
        )
        refl
