-- ===== src/Wasm/Calls.antt =====
-- What a browser wallet can rely on (src/wasm.rs).
use mathlib.Core.Path.{subst}
use blackchain_crypto_lib_ru.Api.Wallets.{restored_from}
use blackchain_crypto_lib_ru.Api.{restore_wallet, default_account_path}
use blackchain_crypto_lib_ru.Base.{
  ◌≡◌, ◌↔◌, refl, sym, ap, ◌∙◌, Bool, true, false, inl, inr, ◌++◌, Bytes, Chars, Result, ok, err,
  panic, ◌>>=◌, map_err, >>=-eq-ok, map_err-eq-ok, ok-injective, replicate, decimal,
}
use blackchain_crypto_lib_ru.Base.Returns.{outcome_cases}
use blackchain_crypto_lib_ru.Crates.{Crates}
use blackchain_crypto_lib_ru.Crates.Laws.{CrateLaws}
use blackchain_crypto_lib_ru.Crypto.Checks.{Authentic, verify_message_iff}
use blackchain_crypto_lib_ru.Crypto.PrivateKey.{BlackChainPrivateKey, generate}
use blackchain_crypto_lib_ru.Crypto.PublicKey
use blackchain_crypto_lib_ru.Crypto.PublicKey.{BlackChainPublicKey, from_bytes, derive_address}
use blackchain_crypto_lib_ru.Crypto.Keys.{generate-IsKeyPair}
use blackchain_crypto_lib_ru.Crypto.Returns.{verify_message-Returns}
use blackchain_crypto_lib_ru.HdWallet.Derivation.{derive_child_seed}
use blackchain_crypto_lib_ru.HdWallet.Mnemonic.{seed_from_mnemonic}
use blackchain_crypto_lib_ru.HdWallet.Path.{parse_hardened_path}
use blackchain_crypto_lib_ru.Transaction.Signing.RoundTrip.{recover_sender-sign_transaction}
use blackchain_crypto_lib_ru.Transaction.Types.{BlackChainTxType, IsU64}
use blackchain_crypto_lib_ru.Wasm.{
  TextFormats, BlackWallet, account_path, js_err, from_mnemonic, from_mnemonic_at, verify_message,
  prefixed, addr_hex, address, sign_transaction, recover_sender,
}

-- Converting the error once, or after each step.
map_err-bind :
    {E F A B D : Type 0} (f : E → F) (m : Result E A) (k : A → Result E B) (out : B → Result F D)
    → (map_err f (m >>= k) >>= out) ≡ (map_err f m >>= λ a. map_err f (k a) >>= out)
map_err-bind f (ok a) k out = refl
map_err-bind f (err e) k out = refl
map_err-bind f (panic t) k out = refl

same_steps :
    {E A B : Type 0} (m : Result E A) (f g : A → Result E B)
    → ((a : A) → f a ≡ g a)
    → (m >>= f) ≡ (m >>= g)
same_steps (ok a) f g h = h a
same_steps (err e) f g h = refl
same_steps (panic t) f g h = refl

account_path_zero : account_path 0 ≡ default_account_path
unfolding account_path decimal
account_path_zero = refl

module _ (c : Crates) where
  -- Account 0 is the account that is restored from the mnemonic alone.
  pub from_mnemonic-from_mnemonic_at :
      (phrase passphrase : Chars)
      → from_mnemonic c phrase passphrase ≡ from_mnemonic_at c phrase passphrase 0
  unfolding from_mnemonic from_mnemonic_at restore_wallet
  from_mnemonic-from_mnemonic_at phrase passphrase = rw account_path_zero (
      map_err-bind (js_err c) (seed_from_mnemonic c.bip39 phrase passphrase) _ _
      ∙ same_steps _ _ _ (λ root_seed.
        map_err-bind (js_err c) (parse_hardened_path default_account_path) _ _
        ∙ same_steps _ _ _ (λ path.
          map_err-bind (js_err c) (derive_child_seed c.bip32 root_seed path) _ _
          ∙ same_steps _ _ _ (λ child_seed. map_err-bind (js_err c) (generate c child_seed) _ _))))

  -- Under a public key that parses, a call of `verifyMessage` returns, and it returns true exactly for
  -- the composites whose three signatures verify.
  pub verify_message_answers :
      (message sig bytes : Bytes) (pk : BlackChainPublicKey)
      → from_bytes c bytes ≡ ok pk
      → (answer : Bool) × (verify_message c message sig bytes ≡ ok answer)
        × ((answer ≡ true)
            ↔ Authentic c pk
                (c.hashes.keccak256 message)
                (c.hashes.shake256 (pk.dilithium ++ (pk.p521 ++ (pk.ed448 ++ replicate 16 0))) 32)
                sig)
  unfolding verify_message
  verify_message_answers message sig bytes pk parsed =
      let iff = verify_message_iff c pk message sig in
      elim (outcome_cases (PublicKey.verify_message c pk message sig)
        (verify_message-Returns c pk message sig)) [
          | inl (e, failed) ↦
              (false, rw (parsed, failed) refl, (λ h. cc, λ a. cc (iff.1 a, failed)))
          | inr (b, done) ↦ (
            b,
            rw (parsed, done) refl,
            (λ h. iff.0 (done ∙ ap ok h), λ a. ok-injective (sym done ∙ iff.1 a)),
          )
        ]

  module _ (laws : CrateLaws c) (formats : TextFormats)
      (printed : (tx : BlackChainTxType)
        → (text : Chars) × (formats.to_string tx ≡ inr text)
          × (formats.from_str text ≡ inr tx)) where
    key_recovers :
        (key : BlackChainPrivateKey) (pk : BlackChainPublicKey) (seed nonce : Bytes)
        (phrase tx_json : Chars) (tx : BlackChainTxType)
        → generate c seed ≡ ok (key, pk)
        → formats.from_str tx_json ≡ inr tx
        → IsU64 tx.chain_id
        → let w : BlackWallet = record { key = key; phrase = phrase } in
          (signed sender : Chars) × (sign_transaction c formats w tx_json nonce ≡ ok signed)
          × (address c formats w ≡ ok sender)
          × (recover_sender c formats signed ≡ ok sender)
    unfolding sign_transaction address addr_hex recover_sender
    key_recovers key pk seed nonce phrase tx_json tx made read small =
        let (tx', addr, signed_ok, same, found, recovered) =
          recover_sender-sign_transaction c laws seed nonce key pk tx made small in
        let (signed, shown, read_again) = printed tx' in
        let kept = (generate-IsKeyPair c laws seed key pk made).1 in
        (
          signed,
          prefixed c formats addr,
          rw (read, signed_ok, shown) refl,
          rw (kept.sk_public, found) refl,
          rw (read_again, recovered) refl,
        )

    -- A wallet restored from a mnemonic signs every transaction that its JSON text stands for, if the
    -- chain id has 64 bits, and the sender recovered from the signed text is the wallet's address.
    pub recover_sender-sign_json :
        (phrase passphrase tx_json : Chars) (nonce : Bytes) (w : BlackWallet)
        (tx : BlackChainTxType)
        → from_mnemonic c phrase passphrase ≡ ok w
        → formats.from_str tx_json ≡ inr tx
        → IsU64 tx.chain_id
        → (signed sender : Chars) × (sign_transaction c formats w tx_json nonce ≡ ok signed)
          × (address c formats w ≡ ok sender)
          × (recover_sender c formats signed ≡ ok sender)
    unfolding from_mnemonic
    recover_sender-sign_json phrase passphrase tx_json nonce w tx restored read small =
        let (key, key_ok, end) =
          >>=-eq-ok (map_err (js_err c) (restore_wallet c phrase passphrase)) _ restored in
        let (seed, pk, made) =
          restored_from c phrase passphrase key
            (map_err-eq-ok (js_err c) (restore_wallet c phrase passphrase) key_ok) in
        subst
          (λ w.
            (signed sender : Chars) × (sign_transaction c formats w tx_json nonce ≡ ok signed)
            × (address c formats w ≡ ok sender)
            × (recover_sender c formats signed ≡ ok sender))
          (ok-injective end) (key_recovers key pk seed nonce phrase tx_json tx made read small)
