-- ===== src/HdWallet/Mnemonic.antt =====
-- src/hdwallet/bip39.rs: mnemonics of 24 words, over the `bip39` crate.
use blackchain_crypto_lib_ru.Base.{
  ℕ, Bool, true, false, not, if◌then◌else◌, [], ◌∷◌, inl, inr, ◌==◌, Bytes, Chars, count_words,
  text, number, ok, ◌>>=◌, ◌>>◌, refuse_if, from_crate,
}
use blackchain_crypto_lib_ru.Crates.{Bip39, Entropy}
use blackchain_crypto_lib_ru.Error.{custom, bip39_error, Fallible}

abbrev pub entropy_bytes : ℕ
entropy_bytes = 32

abbrev pub mnemonic_word_count : ℕ
mnemonic_word_count = 24

abbrev word_count : Chars → ℕ
word_count phrase = count_words false phrase

module _ (b : Bip39) where
  unfoldable pub generate_mnemonic : Entropy → Fallible Chars
  generate_mnemonic entropy = do
    bytes ← from_crate custom (entropy entropy_bytes)
    mnemonic ← from_crate bip39_error (b.from_entropy bytes)
    ok (b.to_string mnemonic)

  unfoldable pub seed_from_mnemonic : Chars → Chars → Fallible Bytes
  seed_from_mnemonic phrase password = do
    refuse_if (not (word_count phrase == mnemonic_word_count)) (
        custom (
          text "BlackChain requires a 24-word mnemonic (256-bit entropy); got "
          ∷ number (word_count phrase)
          ∷ text " words"
          ∷ []))
    mnemonic ← from_crate bip39_error (b.parse phrase)
    ok (b.to_seed mnemonic password)

  unfoldable pub validate_mnemonic : Chars → Bool
  validate_mnemonic phrase =
      if not (word_count phrase == mnemonic_word_count)
      then false
      else elim (b.parse phrase) [ inl e ↦ false | inr mnemonic ↦ true ]
