-- ===== src/HdWallet/Phrases.antt =====
-- Which phrases are valid (src/hdwallet/bip39.rs).
use blackchain_crypto_lib_ru.Base.{
  ◌≡◌, ◌↔◌, refl, true, false, inl, inr, ◌==◌, answer_cases, Bool-cases, count_words, Bytes, Chars,
  ok,
}
use blackchain_crypto_lib_ru.Crates.{Bip39}
use blackchain_crypto_lib_ru.HdWallet.Mnemonic.{seed_from_mnemonic, validate_mnemonic}

-- A phrase is valid exactly when it gives a seed, whatever the password.
pub validate_mnemonic_iff :
    (b : Bip39) (phrase password : Chars)
    → (validate_mnemonic b phrase ≡ true)
      ↔ ((seed : Bytes) × (seed_from_mnemonic b phrase password ≡ ok seed))
unfolding validate_mnemonic seed_from_mnemonic
validate_mnemonic_iff b phrase password = elim (Bool-cases (count_words false phrase == 24)) [
  | inr wrong ↦ rw wrong (λ h. cc, λ h. cc h.1)
  | inl right ↦ elim (answer_cases (b.parse phrase)) [
    | inl (e, refused) ↦ rw (right, refused) (λ h. cc, λ h. cc h.1)
    | inr (m, parsed) ↦ rw (right, parsed) (λ h. (b.to_seed m password, refl), λ h. refl)
  ]
]
