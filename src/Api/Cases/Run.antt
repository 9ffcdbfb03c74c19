-- ===== src/Api/Cases/Run.antt =====
-- The tests of src/api.rs that sign and verify end without a failed assertion, once a wallet is created.
use blackchain_crypto_lib_ru.Api.{
  create_wallet, sign_message, verify_message, sign_transaction, verify_transaction,
}
use blackchain_crypto_lib_ru.Api.Cases.{
  null_message, build_test_tx, test_wallet, test_sign_verify_empty_message,
  test_sign_verify_message_with_null_bytes, test_sign_deterministic_or_documented_nondeterministic,
  test_verify_message_truncated_signature_fails, test_verify_message_empty_signature_fails,
  test_verify_message_garbage_signature_fails, test_verify_message_appended_bytes_fails,
  test_sign_and_verify_transaction_roundtrip, test_verify_unsigned_transaction_fails,
  test_sign_transaction_recovers_same_sender_when_resigned,
}
use blackchain_crypto_lib_ru.Api.Wallets.{created_from}
use blackchain_crypto_lib_ru.Base.{
  ◌≡◌, ◌≢◌, ◌≤◌, refl, sym, ◌∙◌, true, [], ◌++◌, take, Bytes, Chars, ok, ok-injective, arith,
  bytes_eq_iff, codes, length, length-take, length-append, length-replicate, replicate,
  slice_inside, ℕ, fails,
}
use blackchain_crypto_lib_ru.Crates.{Crates, Entropy}
use blackchain_crypto_lib_ru.Crates.Laws.{CrateLaws}
use blackchain_crypto_lib_ru.Crypto.PrivateKey.{BlackChainPrivateKey}
use blackchain_crypto_lib_ru.Crypto.PublicKey
use blackchain_crypto_lib_ru.Crypto.PublicKey.{BlackChainPublicKey}
use blackchain_crypto_lib_ru.Crypto.RoundTrip.{verify_message-sign_message}
use blackchain_crypto_lib_ru.Error.{CryptoError}
use blackchain_crypto_lib_ru.Transaction.Signing.{recover_sender}
use blackchain_crypto_lib_ru.Transaction.Signing.Envelope.{signed-IsU64}
use blackchain_crypto_lib_ru.Transaction.Signing.RoundTrip.{recover_sender-sign_transaction}

module _ (c : Crates) where
  -- A composite of another length is refused before anything is verified.
  sized_wrong :
      (pk : BlackChainPublicKey) (message sig : Bytes)
      → length sig ≢ 4873
      → fails {F = CryptoError} (verify_message c message sig pk) ≡ ok true
  unfolding verify_message PublicKey.verify_message
  sized_wrong pk message sig wrong = ground arith

  test_verify_unsigned_transaction_lem : test_verify_unsigned_transaction_fails c ≡ ok tt
  unfolding test_verify_unsigned_transaction_fails verify_transaction recover_sender
  test_verify_unsigned_transaction_lem = refl

module _ (c : Crates) (laws : CrateLaws c) (entropy : Entropy) (phrase : Chars)
    (key : BlackChainPrivateKey) (created : create_wallet c [] entropy ≡ ok (phrase, key)) where
  wallet_made : test_wallet c entropy ≡ ok key
  unfolding test_wallet
  wallet_made = rw created refl

  signed_message :
      (message nonce : Bytes)
      → (sig : Bytes) × (sign_message c message key nonce ≡ ok sig)
        × (length sig ≡ 4873)
        × (verify_message c message sig key.public ≡ ok true)
  unfolding sign_message verify_message
  signed_message message nonce =
      let (seed, made) = created_from c laws [] entropy phrase key created in
      verify_message-sign_message c laws seed message nonce key key.public made

  test_sign_verify_empty_message_lem :
      (nonce : Bytes) → test_sign_verify_empty_message c entropy nonce ≡ ok tt
  unfolding test_sign_verify_empty_message
  test_sign_verify_empty_message_lem nonce =
      let (sig, signed, sized, verified) = signed_message [] nonce in
      rw (wallet_made, signed, verified) refl

  test_sign_verify_message_with_null_bytes_lem :
      (nonce : Bytes) → test_sign_verify_message_with_null_bytes c entropy nonce ≡ ok tt
  unfolding test_sign_verify_message_with_null_bytes
  test_sign_verify_message_with_null_bytes_lem nonce =
      let (sig, signed, sized, verified) = signed_message null_message nonce in
      rw (wallet_made, signed, verified) refl

  test_sign_deterministic_lem :
      (nonce nonce2 : Bytes)
      → test_sign_deterministic_or_documented_nondeterministic c entropy nonce nonce2 ≡ ok tt
  unfolding test_sign_deterministic_or_documented_nondeterministic
  test_sign_deterministic_lem nonce nonce2 =
      let (sig1, signed1, _, verified1) = signed_message (codes "determinism probe") nonce in
      let (sig2, signed2, _, verified2) = signed_message (codes "determinism probe") nonce2 in
      rw (wallet_made, signed1, signed2, verified1, verified2) refl

  test_verify_message_truncated_lem :
      (nonce : Bytes) → test_verify_message_truncated_signature_fails c entropy nonce ≡ ok tt
  unfolding test_verify_message_truncated_signature_fails
  test_verify_message_truncated_lem nonce =
      let message = codes "truncation probe" in
      let (sig, signed, sized, _) = signed_message message nonce in
      let half : 2436 ≤ length sig = omega arith in
      rw
        (
          wallet_made,
          signed,
          sized,
          slice_inside {E = CryptoError} 0 2436 sig (omega arith) half,
          sized_wrong c key.public message (take 2436 sig)
              (λ e. omega (arith, length-take 2436 sig half)),
        )
        refl

  test_verify_message_empty_lem : test_verify_message_empty_signature_fails c entropy ≡ ok tt
  unfolding test_verify_message_empty_signature_fails
  test_verify_message_empty_lem =
      rw
        (wallet_made, sized_wrong c key.public (codes "empty sig probe") [] (λ e. omega (arith, e)))
        refl

  test_verify_message_garbage_lem : test_verify_message_garbage_signature_fails c entropy ≡ ok tt
  unfolding test_verify_message_garbage_signature_fails
  test_verify_message_garbage_lem =
      rw
        (
          wallet_made,
          sized_wrong c key.public (codes "garbage sig probe") (replicate 4800 0x42)
              (λ e. omega (arith, e, length-replicate {A = ℕ} 4800 0x42)),
        )
        refl

  test_verify_message_appended_lem :
      (nonce : Bytes) → test_verify_message_appended_bytes_fails c entropy nonce ≡ ok tt
  unfolding test_verify_message_appended_bytes_fails
  test_verify_message_appended_lem nonce =
      let message = codes "trailing bytes probe" in
      let (sig, signed, sized, _) = signed_message message nonce in
      let tail = replicate {A = ℕ} 16 0xff in
      rw
        (
          wallet_made,
          signed,
          sized_wrong c key.public message (sig ++ tail) (λ e.
              omega (arith, e, sized, length-append sig tail, length-replicate {A = ℕ} 16 0xff)),
        )
        refl

  test_sign_and_verify_transaction_lem :
      (nonce : Bytes) → test_sign_and_verify_transaction_roundtrip c entropy nonce ≡ ok tt
  unfolding test_sign_and_verify_transaction_roundtrip sign_transaction verify_transaction
  test_sign_and_verify_transaction_lem nonce =
      let (seed, made) = created_from c laws [] entropy phrase key created in
      let (signed, address, signs, same, found, recovered) =
        recover_sender-sign_transaction c laws seed nonce key key.public
          (build_test_tx 0 1000000000000000000) made (omega arith) in
      rw (wallet_made, signs, recovered, found, (bytes_eq_iff address address).1 refl) refl

  -- The address is the wallet's, whatever was signed.
  test_sign_transaction_resigned_lem :
      (nonce nonce2 : Bytes)
      → test_sign_transaction_recovers_same_sender_when_resigned c entropy nonce nonce2 ≡ ok tt
  unfolding test_sign_transaction_recovers_same_sender_when_resigned sign_transaction
      verify_transaction
  test_sign_transaction_resigned_lem nonce nonce2 =
      let (seed, made) = created_from c laws [] entropy phrase key created in
      let tx = build_test_tx 2 1 in
      let (signed, address, signs, same, found, recovered) =
        recover_sender-sign_transaction c laws seed nonce key key.public tx made (omega arith) in
      let (again, address2, signs2, _, found2, recovered2) =
        recover_sender-sign_transaction c laws seed nonce2 key key.public signed made
          (signed-IsU64 tx signed same (omega arith)) in
      let one : address ≡ address2 = ok-injective (sym found ∙ found2) in
      rw (wallet_made, signs, recovered, signs2, recovered2, (bytes_eq_iff address address2).1 one)
        refl
