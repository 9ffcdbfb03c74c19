-- ===== src/Programs/Demo/Run.antt =====
-- The demonstration of the API succeeds (src/bin/demo.rs).
use blackchain_crypto_lib_ru.Api.{
  create_wallet, sign_message, verify_message, sign_transaction, verify_transaction,
}
use blackchain_crypto_lib_ru.Api.Wallets.{created_from}
use blackchain_crypto_lib_ru.Base.{
  ◌≡◌, refl, true, Bytes, Chars, ok, arith, bytes_eq_iff, slice_inside,
}
use blackchain_crypto_lib_ru.Crates.{Crates, Entropy}
use blackchain_crypto_lib_ru.Crates.Laws.{CrateLaws}
use blackchain_crypto_lib_ru.Crypto.PrivateKey.{BlackChainPrivateKey, generate}
use blackchain_crypto_lib_ru.Crypto.PublicKey.{derive_address}
use blackchain_crypto_lib_ru.Crypto.RoundTrip.{verify_message-sign_message}
use blackchain_crypto_lib_ru.Error.{CryptoError}
use blackchain_crypto_lib_ru.Programs.Demo.{
  secure_passphrase, auth_message, demo_tx, message_steps, transaction_steps, main,
}
use blackchain_crypto_lib_ru.Transaction.Signing.Envelope.{signed-IsU64}
use blackchain_crypto_lib_ru.Transaction.Signing.Recovery.{recover_sender_iff}
use blackchain_crypto_lib_ru.Transaction.Signing.RoundTrip.{recover_sender-sign_transaction}

module _ (c : Crates) (laws : CrateLaws c) (seed : Bytes) (key : BlackChainPrivateKey)
    (made : generate c seed ≡ ok (key, key.public)) where
  message_steps_total : (nonce : Bytes) → message_steps c key nonce ≡ ok tt
  unfolding message_steps sign_message verify_message
  message_steps_total nonce =
      let (sig, signed, sized, verified) =
        verify_message-sign_message c laws seed auth_message nonce key key.public made in
      rw (signed, slice_inside {E = CryptoError} 0 32 sig (omega arith) (omega arith), verified)
        refl

  transaction_steps_total :
      (nonce : Bytes)
      → (address : Bytes) × (derive_address c key.public ≡ ok address)
        × (transaction_steps c key address nonce ≡ ok true)
  unfolding transaction_steps sign_transaction verify_transaction
  transaction_steps_total nonce =
      let (signed, address, signs, same, found, recovered) =
        recover_sender-sign_transaction c laws seed nonce key key.public demo_tx made
          (omega arith) in
      let (sig, _, has_sig, _, _, _, _, _) =
        (recover_sender_iff c signed address (signed-IsU64 demo_tx signed same (omega arith))).0
          recovered in
      (address, found, rw (signs, has_sig, recovered, (bytes_eq_iff address address).1 refl) refl)

module _ (c : Crates) (laws : CrateLaws c) where
  -- Once a wallet is created, the demonstration of the API runs to its normal end: the message signature
  -- is valid, and the sender recovered from the signed transaction is the address of the wallet.
  pub main-create_wallet :
      (entropy : Entropy) (message_nonce tx_nonce : Bytes) (phrase : Chars)
      (key : BlackChainPrivateKey)
      → create_wallet c secure_passphrase entropy ≡ ok (phrase, key)
      → main c entropy message_nonce tx_nonce ≡ ok true
  unfolding main
  main-create_wallet entropy message_nonce tx_nonce phrase key created =
      let (seed, made) = created_from c laws secure_passphrase entropy phrase key created in
      let (address, found, ends) = transaction_steps_total c laws seed key made tx_nonce in
      rw (created, found, message_steps_total c laws seed key made message_nonce, ends) refl
