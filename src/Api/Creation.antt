-- ===== src/Api/Creation.antt =====
-- Which wallet is created from the entropy that is drawn (src/api.rs, src/hdwallet).
use blackchain_crypto_lib_ru.Api.{create_wallet, restore_wallet, default_account_path}
use blackchain_crypto_lib_ru.Base.{
  ℕ, ◌<◌, ◌≡◌, refl, ap, sym, inr, false, List, [], ◌∷◌, Bytes, ok, ok-injective, >>=-eq-ok, arith,
  length, length-append, take, drop, count_words, from_crate, text,
}
use blackchain_crypto_lib_ru.Crates.{Crates, Bip32, Entropy}
use blackchain_crypto_lib_ru.Crates.Laws.{CrateLaws}
use blackchain_crypto_lib_ru.Crypto.Keys.{generate-IsKeyPair, generate_total}
use blackchain_crypto_lib_ru.Crypto.PrivateKey.{BlackChainPrivateKey, generate}
use blackchain_crypto_lib_ru.Error.{custom}
use blackchain_crypto_lib_ru.HdWallet.Derivation.{
  check_hardened, derive_children, derive_child_seed, derive_mdecc_curve_seed,
}
use blackchain_crypto_lib_ru.HdWallet.Mnemonic.{generate_mnemonic, seed_from_mnemonic}
use blackchain_crypto_lib_ru.HdWallet.Path.{parse_hardened_path}
use blackchain_crypto_lib_ru.P521.Derive
use mathlib.Core.Path.{subst}

-- m/44'/60'/0'/0'/0'
abbrev pub account_indices : List ℕ
account_indices = 0x8000_002c ∷ 0x8000_003c ∷ 0x8000_0000 ∷ 0x8000_0000 ∷ 0x8000_0000 ∷ []

default_path_lem : parse_hardened_path default_account_path ≡ ok account_indices
unfolding parse_hardened_path
default_path_lem = refl

-- A child seed is the key and the chain code, of 32 bytes each.
length-derive_child_seed :
    (b : Bip32)
    → ((key : b.XPrv) → length (b.private_key_bytes key) ≡ 32)
    → ((key : b.XPrv) → length (b.chain_code key) ≡ 32)
    → (root child : Bytes) (path : List ℕ) → derive_child_seed b root path ≡ ok child
    → length child ≡ 64
unfolding derive_child_seed
length-derive_child_seed b key_sized code_sized root child path derived =
    let (_, _, h1) = >>=-eq-ok (check_hardened 0 path) _ derived in
    let (master, _, h2) =
      >>=-eq-ok
        (from_crate (λ e. custom (text "BIP32 master key creation failed: " ∷ e)) (b.new_key root))
        _ h1 in
    let (key, _, end) = >>=-eq-ok (derive_children b master path) _ h2 in
    let whole = ap length (ok-injective end) in
    omega (
      arith,
      sym whole,
      length-append (b.private_key_bytes key) (b.chain_code key),
      key_sized key,
      code_sized key,
    )

module _ (c : Crates) (laws : CrateLaws c) where
  open c use {bip39, bip32}

  -- Entropy that is drawn, 32 bytes being asked for, gives a wallet, whatever the passphrase: its phrase is that of
  -- the mnemonic of the entropy, and its key is generated from the child seed at m/44'/60'/0'/0'/0' below
  -- the mnemonic and the passphrase; the phrase and the passphrase restore the same key. The conditions
  -- are that the mnemonic of the entropy has 24 words and is read back from them, that the derivation of
  -- the child gives a key and a chain code, of 32 bytes each, and that one of the 256 counters gives a
  -- P-521 scalar.
  pub create_wallet_total :
      (entropy : Entropy) (drawn : Bytes) (m : bip39.Mnemonic) (passphrase child p521_seed : Bytes)
      (j : ℕ)
      → entropy 32 ≡ inr drawn
      → bip39.from_entropy drawn ≡ inr m
      → count_words false (bip39.to_string m) ≡ 24
      → bip39.parse (bip39.to_string m) ≡ inr m
      → ((key : bip32.XPrv) → length (bip32.private_key_bytes key) ≡ 32)
      → ((key : bip32.XPrv) → length (bip32.chain_code key) ≡ 32)
      → derive_child_seed bip32 (bip39.to_seed m passphrase) account_indices ≡ ok child
      → derive_mdecc_curve_seed c.hashes (take 32 (drop 32 child)) 1 66 ≡ ok p521_seed
      → j < 256
      → ¬ Derive.Rejected c.ecdsa c.hashes p521_seed j
      → (key : BlackChainPrivateKey) × (generate c child ≡ ok (key, key.public))
        × (create_wallet c passphrase entropy ≡ ok (bip39.to_string m, key))
        × (restore_wallet c (bip39.to_string m) passphrase ≡ ok key)
  unfolding create_wallet restore_wallet generate_mnemonic seed_from_mnemonic
  create_wallet_total entropy drawn m passphrase child p521_seed j draws made words reads key_sized
        code_sized derived curve below taken =
      let sized =
        length-derive_child_seed bip32 key_sized code_sized (bip39.to_seed m passphrase) child
          account_indices derived in
      let (key, pk, generated) =
        (generate_total c laws child (λ long. (p521_seed, curve, j, below, taken))).1
          (omega arith) in
      let kept = (generate-IsKeyPair c laws child key pk generated).1.sk_public in
      (
        key,
        subst (λ k. generate c child ≡ ok (key, k)) (sym kept) generated,
        rw (draws, made, words, reads, default_path_lem, derived, generated) refl,
        rw (words, reads, default_path_lem, derived, generated) refl,
      )
