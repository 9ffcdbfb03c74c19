-- ===== src/Fuzz/MnemonicSeed.antt =====
-- fuzz/fuzz_targets/fuzz_mnemonic_seed.rs. The mnemonic of an input is the text that
-- `String::from_utf8_lossy` makes of its bytes; the BIP-39 seed is an array of 64 bytes.
use mathlib.Core.Path.{subst}
use blackchain_crypto_lib_ru.Base.{
  ◌↔◌, All, ◌++◌, count_words, refuse_if, from_crate, ℕ, ◌≡◌, ◌≤◌, refl, inl, inr, Bool, true,
  false, not, List, [], ◌∷◌, ◌==◌, leb, Bytes, Chars, length, take, plain, ok, ◌>>=◌, ◌>>◌,
  assert_that, attempt, ignored, is_ok, if◌then◌else◌, arith, >>=-eq-ok, ok-injective,
}
use blackchain_crypto_lib_ru.Base.Returns.{outcome_cases, ignored-Returns}
use blackchain_crypto_lib_ru.Crates.{Crates}
use blackchain_crypto_lib_ru.Crates.Laws.{CrateLaws}
use blackchain_crypto_lib_ru.Error.{CryptoError, Fallible, bip39_error}
use blackchain_crypto_lib_ru.HdWallet.Derivation.{
  derive_mdecc_curve_seed, derive_child_seed, curve_id_p521, curve_id_ed448,
}
use blackchain_crypto_lib_ru.HdWallet.Mnemonic.{
  seed_from_mnemonic, validate_mnemonic, mnemonic_word_count,
}
use blackchain_crypto_lib_ru.HdWallet.Hardened.{derive_child_seed_hardened}
use blackchain_crypto_lib_ru.HdWallet.Phrases.{validate_mnemonic_iff}
use blackchain_crypto_lib_ru.HdWallet.Path.{parse_hardened_path}
use blackchain_crypto_lib_ru.HdWallet.Returns.{
  parse_hardened_path-Returns, derive_child_seed-Returns, derive_mdecc_curve_seed-Returns,
  seed_from_mnemonic-Returns,
}

pub record FuzzInput : Type 0 where
  pub mnemonic : Chars
  pub passphrase : Chars
  pub master_seed : Bytes
  pub path : List ℕ
  pub mdecc_seed : Bytes
  pub curve_id : ℕ
  pub seed_size : ℕ
  pub path_string : Chars

abbrev min_of : ℕ → ℕ → ℕ
min_of a b = if leb a b then a else b

module _ (c : Crates) where
  -- `if is_valid { match seed_result { .. } }`
  unfoldable pub check_seed : Bool → Fallible Bytes → Fallible (Unit {0})
  check_seed is_valid seed_result = do
    result ← attempt seed_result
    if is_valid
        then elim result [
          | inl e ↦ ok tt
          | inr seed ↦ assert_that (length seed == 64) (plain "BIP-39 seed must always be 64 bytes")
        ]
        else ok tt

  unfoldable pub assert_derives : Bytes → ℕ → ℕ → Fallible (Unit {0})
  assert_derives seed curve_id size =
      assert_that (is_ok (derive_mdecc_curve_seed c.hashes seed curve_id size))
        (plain "derive_mdecc_curve_seed must succeed for spec curve IDs with any non-empty seed")

  -- The loop over the sizes of one curve.
  unfoldable pub assert_sizes : Bytes → ℕ → List ℕ → Fallible (Unit {0})
  assert_sizes seed curve_id [] = ok tt
  assert_sizes seed curve_id (size ∷ sizes) = do
    assert_derives seed curve_id size
    assert_sizes seed curve_id sizes

  -- The loop over the curves.
  unfoldable pub assert_curves : Bytes → List ℕ → Fallible (Unit {0})
  assert_curves seed [] = ok tt
  assert_curves seed (curve_id ∷ curves) = do
    assert_sizes seed curve_id (32 ∷ 57 ∷ 66 ∷ [])
    assert_curves seed curves

  unfoldable pub fuzz_mnemonic_seed : FuzzInput → Fallible (Unit {0})
  fuzz_mnemonic_seed input = do
    let is_valid = validate_mnemonic c.bip39 input.mnemonic
    check_seed is_valid (seed_from_mnemonic c.bip39 input.mnemonic input.passphrase)
    ignored (parse_hardened_path input.path_string)
    ignored (derive_child_seed c.bip32 input.master_seed (take 32 input.path))
    let capped_size = min_of input.seed_size 1024
    ignored (derive_mdecc_curve_seed c.hashes input.mdecc_seed input.curve_id capped_size)
    if length input.mdecc_seed == 0
        then ok tt
        else assert_curves input.mdecc_seed (curve_id_p521 ∷ curve_id_ed448 ∷ [])

  module _ (laws : CrateLaws c)
      (sized : (m : c.bip39.Mnemonic) (password : Chars)
        → length (c.bip39.to_seed m password) ≡ 64) where
    derives :
        (seed : Bytes) (curve_id size : ℕ)
        → size ≤ 16320
        → assert_derives seed curve_id size ≡ ok tt
    unfolding assert_derives derive_mdecc_curve_seed
    derives seed curve_id size fits =
        let (out, expanded, whole) =
          laws.hash_laws.hkdf_expands (c.hashes.shake256 (seed ++ curve_id ∷ []) 32) size fits in
        rw expanded refl

    curves_total : (seed : Bytes) (curves : List ℕ) → assert_curves seed curves ≡ ok tt
    unfolding assert_curves assert_sizes
    curves_total seed [] = refl
    curves_total seed (id ∷ curves) =
        rw
          (
            derives seed id 32 (omega arith),
            derives seed id 57 (omega arith),
            derives seed id 66 (omega arith),
          )
          (curves_total seed curves)

    seed_sized :
        (phrase password seed : Bytes)
        → seed_from_mnemonic c.bip39 phrase password ≡ ok seed
        → length seed ≡ 64
    unfolding seed_from_mnemonic
    seed_sized phrase password seed h =
        let (u, words, h1) =
          >>=-eq-ok (refuse_if (not (count_words false phrase == mnemonic_word_count)) _) _ h in
        let (m, parsed, end) = >>=-eq-ok (from_crate bip39_error (c.bip39.parse phrase)) _ h1 in
        subst (λ s. length s ≡ 64) (ok-injective end) (sized m password)

    abbrev done : Fallible (Unit {0})
    done = ok tt

    both : (is_valid : Bool) → (if is_valid then done else done) ≡ done
    both true = refl
    both false = refl

    check_seed_total :
        (is_valid : Bool) (phrase password : Chars)
        → check_seed is_valid (seed_from_mnemonic c.bip39 phrase password) ≡ ok tt
    unfolding check_seed
    check_seed_total is_valid phrase password =
        elim (outcome_cases _ (seed_from_mnemonic-Returns c.bip39 phrase password)) [
          | inl (e, failed) ↦ rw failed (both is_valid)
          | inr (seed, made) ↦ rw (made, seed_sized phrase password seed made) (both is_valid)
        ]

    -- The call that only runs to its end.
    runs : (input : FuzzInput) → fuzz_mnemonic_seed input ≡ ok tt
    unfolding fuzz_mnemonic_seed
    runs input =
        rw
          (
            check_seed_total (validate_mnemonic c.bip39 input.mnemonic) input.mnemonic
                input.passphrase,
            ignored-Returns {F = CryptoError} _ (parse_hardened_path-Returns input.path_string),
            ignored-Returns {F = CryptoError} _
                (derive_child_seed-Returns c.bip32 input.master_seed (take 32 input.path)),
            ignored-Returns {F = CryptoError} _ (
                derive_mdecc_curve_seed-Returns c.hashes input.mdecc_seed input.curve_id
                  (min_of input.seed_size 1024)),
            curves_total input.mdecc_seed (curve_id_p521 ∷ curve_id_ed448 ∷ []),
          )
          (both (length input.mdecc_seed == 0))

    -- The wallet target runs to its end on every input without a panic, and the invariants that it
    -- announces hold for the input: the phrase is valid exactly when it gives a seed, then of 64 bytes;
    -- and a child seed is derived only along a path whose indices all have the hardening bit.
    pub fuzz_mnemonic_seed_total :
        (input : FuzzInput)
        → (fuzz_mnemonic_seed input ≡ ok tt)
          × ((validate_mnemonic c.bip39 input.mnemonic ≡ true) ↔ (
              (seed : Bytes) × (seed_from_mnemonic c.bip39 input.mnemonic input.passphrase
                ≡ ok seed)
              × (length seed ≡ 64)))
          × ((child : Bytes)
              → derive_child_seed c.bip32 input.master_seed (take 32 input.path) ≡ ok child
              → All (λ index. 0x8000_0000 ≤ index) (take 32 input.path))
    fuzz_mnemonic_seed_total input =
        let valid = validate_mnemonic_iff c.bip39 input.mnemonic input.passphrase in
        (
          runs input,
          (
            λ yes_valid.
                let (seed, made) = valid.0 yes_valid in
                (seed, made, seed_sized input.mnemonic input.passphrase seed made),
            λ gives. valid.1 (gives.0, gives.1),
          ),
          λ child derived.
              derive_child_seed_hardened c.bip32 input.master_seed (take 32 input.path) child
                derived,
        )
