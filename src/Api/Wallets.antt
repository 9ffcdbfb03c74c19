-- ===== src/Api/Wallets.antt =====
-- Wallets that are created and restored (src/api.rs).
use blackchain_crypto_lib_ru.Api.{create_wallet, restore_wallet, default_account_path}
use blackchain_crypto_lib_ru.Base.{◌≡◌, ap, ◌∙◌, Bytes, sym, Chars, ok, >>=-eq-ok, ok-injective}
use blackchain_crypto_lib_ru.Crates.{Crates, Entropy}
use blackchain_crypto_lib_ru.Crates.Laws.{CrateLaws}
use blackchain_crypto_lib_ru.Crypto.Keys.{IsKeyPair, generate-IsKeyPair}
use blackchain_crypto_lib_ru.Crypto.PrivateKey.{BlackChainPrivateKey, generate}
use blackchain_crypto_lib_ru.Crypto.PublicKey.{BlackChainPublicKey}
use blackchain_crypto_lib_ru.HdWallet.Derivation.{derive_child_seed}
use blackchain_crypto_lib_ru.HdWallet.Mnemonic.{generate_mnemonic, seed_from_mnemonic}
use blackchain_crypto_lib_ru.HdWallet.Path.{parse_hardened_path}
use mathlib.Core.Path.{subst}

module _ (c : Crates) where
  -- The key of a restored wallet is generated from some seed.
  pub restored_from :
      (phrase passphrase : Chars) (key : BlackChainPrivateKey)
      → restore_wallet c phrase passphrase ≡ ok key
      → (seed : Bytes) × (pk : BlackChainPublicKey) × (generate c seed ≡ ok (key, pk))
  unfolding restore_wallet
  restored_from phrase passphrase key h =
      let (root_seed, root_ok, h1) = >>=-eq-ok (seed_from_mnemonic c.bip39 phrase passphrase) _ h in
      let (path, path_ok, h2) = >>=-eq-ok (parse_hardened_path default_account_path) _ h1 in
      let (child_seed, child_ok, h3) = >>=-eq-ok (derive_child_seed c.bip32 root_seed path) _ h2 in
      let (keys, made, end) = >>=-eq-ok (generate c child_seed) _ h3 in
      (child_seed, keys.1, made ∙ ap (λ k. ok (k, keys.1)) (ok-injective end))

module _ (c : Crates) (laws : CrateLaws c) where
  restored-IsKeyPair :
      (phrase passphrase : Chars) (key : BlackChainPrivateKey)
      → restore_wallet c phrase passphrase ≡ ok key
      → IsKeyPair c laws key key.public
  restored-IsKeyPair phrase passphrase key h =
      let (seed, pk, made) = restored_from c phrase passphrase key h in
      let pair = (generate-IsKeyPair c laws seed key pk made).1 in
      subst (IsKeyPair c laws key) (sym pair.sk_public) pair

  -- A wallet that was created is restored from its phrase and passphrase with the same private key,
  -- whose parts fit the public key that it keeps.
  pub restore_wallet-create_wallet :
      (passphrase : Chars) (entropy : Entropy) (phrase : Chars) (key : BlackChainPrivateKey)
      → create_wallet c passphrase entropy ≡ ok (phrase, key)
      → (restore_wallet c phrase passphrase ≡ ok key) × IsKeyPair c laws key key.public
  unfolding create_wallet
  restore_wallet-create_wallet passphrase entropy phrase key h =
      let (made, phrase_ok, later) = >>=-eq-ok (generate_mnemonic c.bip39 entropy) _ h in
      let (restored, restore_ok, end) = >>=-eq-ok (restore_wallet c made passphrase) _ later in
      let same = ok-injective end in
      let again : restore_wallet c phrase passphrase ≡ ok key =
        subst (λ p. restore_wallet c p.0 passphrase ≡ ok p.1) same restore_ok in
      (again, restored-IsKeyPair phrase passphrase key again)

  -- The key of a wallet that was created is generated from some seed, with the public key that it keeps.
  pub created_from :
      (passphrase : Chars) (entropy : Entropy) (phrase : Chars) (key : BlackChainPrivateKey)
      → create_wallet c passphrase entropy ≡ ok (phrase, key)
      → (seed : Bytes) × (generate c seed ≡ ok (key, key.public))
  created_from passphrase entropy phrase key h =
      let (restored, pair) = restore_wallet-create_wallet passphrase entropy phrase key h in
      let (seed, pk, made) = restored_from c phrase passphrase key restored in
      let kept = (generate-IsKeyPair c laws seed key pk made).1.sk_public in
      (seed, subst (λ k. generate c seed ≡ ok (key, k)) (sym kept) made)
