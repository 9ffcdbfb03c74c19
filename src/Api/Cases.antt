-- ===== src/Api/Cases.antt =====
-- src/api.rs: the tests beside the code that sign and verify, as functions that panic where an assertion
-- fails. `entropy` makes the wallet, and each signature draws its own `nonce`.
mod Run
use blackchain_crypto_lib_ru.Api.{
  create_wallet, sign_message, verify_message, sign_transaction, verify_transaction,
}
use blackchain_crypto_lib_ru.Base.{
  ℕ, none, some, [], ◌∷◌, ◌++◌, ◌/◌, Bytes, codes, plain, ok, ◌>>=◌, ◌>>◌, assert_that, unwrapped,
  fails, bytes_eq, slice, length, replicate,
}
use blackchain_crypto_lib_ru.Crates.{Crates, Entropy}
use blackchain_crypto_lib_ru.Crypto.PrivateKey.{BlackChainPrivateKey}
use blackchain_crypto_lib_ru.Crypto.PublicKey.{derive_address}
use blackchain_crypto_lib_ru.Error.{Fallible}
use blackchain_crypto_lib_ru.Transaction.Types.{BlackChainTxType}

abbrev pub build_test_tx : ℕ → ℕ → BlackChainTxType
build_test_tx nonce value = record {
  chain_id = 1;
  nonce = nonce;
  max_priority_fee_per_gas = 1500000000;
  max_fee_per_gas = 30000000000;
  gas_limit = 21000;
  to = some (replicate 20 0xaa);
  value = value;
  input = 1 ∷ 2 ∷ 3 ∷ 4 ∷ [];
  v = none;
  r = none;
  s = none;
  pqc_signature = none;
  pub_key = none;
}

abbrev pub null_message : Bytes
null_message = codes "before" ++ 0 ∷ (codes "middle" ++ 0 ∷ codes "after")

module _ (c : Crates) where
  -- `let (_, key) = create_wallet("").unwrap()`
  unfoldable pub test_wallet : Entropy → Fallible BlackChainPrivateKey
  test_wallet entropy = do (phrase, key) ← unwrapped (create_wallet c [] entropy); ok key

  unfoldable pub test_sign_verify_empty_message : Entropy → Bytes → Fallible (Unit {0})
  test_sign_verify_empty_message entropy nonce = do
    key ← test_wallet entropy
    signature ← unwrapped (sign_message c [] key nonce)
    is_valid ← unwrapped (verify_message c [] signature key.public)
    assert_that is_valid (plain "empty messages must still be signable and verifiable")

  unfoldable pub test_sign_verify_message_with_null_bytes : Entropy → Bytes → Fallible (Unit {0})
  test_sign_verify_message_with_null_bytes entropy nonce = do
    key ← test_wallet entropy
    let message = null_message
    signature ← unwrapped (sign_message c message key nonce)
    is_valid ← unwrapped (verify_message c message signature key.public)
    assert_that is_valid (plain "assertion failed: verify_message(..).unwrap()")

  unfoldable pub test_sign_deterministic_or_documented_nondeterministic :
      Entropy → Bytes → Bytes → Fallible (Unit {0})
  test_sign_deterministic_or_documented_nondeterministic entropy nonce nonce2 = do
    key ← test_wallet entropy
    let message = codes "determinism probe"
    sig1 ← unwrapped (sign_message c message key nonce)
    sig2 ← unwrapped (sign_message c message key nonce2)
    first ← unwrapped (verify_message c message sig1 key.public)
    assert_that first (plain "assertion failed: verify_message(..).unwrap()")
    second ← unwrapped (verify_message c message sig2 key.public)
    assert_that second (plain "assertion failed: verify_message(..).unwrap()")

  unfoldable pub test_verify_message_truncated_signature_fails :
      Entropy → Bytes → Fallible (Unit {0})
  test_verify_message_truncated_signature_fails entropy nonce = do
    key ← test_wallet entropy
    let message = codes "truncation probe"
    signature ← unwrapped (sign_message c message key nonce)
    truncated ← slice 0 (length signature / 2) signature
    rejected ← fails (verify_message c message truncated key.public)
    assert_that rejected (plain "assertion failed: verify_message(..).is_err()")

  unfoldable pub test_verify_message_empty_signature_fails : Entropy → Fallible (Unit {0})
  test_verify_message_empty_signature_fails entropy = do
    key ← test_wallet entropy
    rejected ← fails (verify_message c (codes "empty sig probe") [] key.public)
    assert_that rejected (plain "assertion failed: verify_message(..).is_err()")

  unfoldable pub test_verify_message_garbage_signature_fails : Entropy → Fallible (Unit {0})
  test_verify_message_garbage_signature_fails entropy = do
    key ← test_wallet entropy
    let garbage : Bytes = replicate 4800 0x42
    rejected ← fails (verify_message c (codes "garbage sig probe") garbage key.public)
    assert_that rejected (plain "assertion failed: verify_message(..).is_err()")

  unfoldable pub test_verify_message_appended_bytes_fails : Entropy → Bytes → Fallible (Unit {0})
  test_verify_message_appended_bytes_fails entropy nonce = do
    key ← test_wallet entropy
    let message = codes "trailing bytes probe"
    signature ← unwrapped (sign_message c message key nonce)
    rejected ← fails (verify_message c message (signature ++ replicate 16 0xff) key.public)
    assert_that rejected (plain "assertion failed: verify_message(..).is_err()")

  unfoldable pub test_sign_and_verify_transaction_roundtrip : Entropy → Bytes → Fallible (Unit {0})
  test_sign_and_verify_transaction_roundtrip entropy nonce = do
    key ← test_wallet entropy
    tx ← unwrapped (sign_transaction c (build_test_tx 0 1000000000000000000) key nonce)
    recovered ← unwrapped (verify_transaction c tx)
    address ← derive_address c key.public
    assert_that (bytes_eq recovered address) (plain "assertion `left == right` failed")

  unfoldable pub test_verify_unsigned_transaction_fails : Fallible (Unit {0})
  test_verify_unsigned_transaction_fails = do
    rejected ← fails (verify_transaction c (build_test_tx 0 0))
    assert_that rejected (plain "assertion failed: verify_transaction(&tx).is_err()")

  unfoldable pub test_sign_transaction_recovers_same_sender_when_resigned :
      Entropy → Bytes → Bytes → Fallible (Unit {0})
  test_sign_transaction_recovers_same_sender_when_resigned entropy nonce nonce2 = do
    key ← test_wallet entropy
    tx ← unwrapped (sign_transaction c (build_test_tx 2 1) key nonce)
    addr1 ← unwrapped (verify_transaction c tx)
    tx ← unwrapped (sign_transaction c tx key nonce2)
    addr2 ← unwrapped (verify_transaction c tx)
    assert_that (bytes_eq addr1 addr2) (plain "assertion `left == right` failed")
