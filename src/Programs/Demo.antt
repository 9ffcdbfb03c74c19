-- ===== src/Programs/Demo.antt =====
-- src/bin/demo.rs: the entry points of the API one after the other. What is only printed is left out.
-- The result is whether the program ends normally, and not by `exit(1)`.
pub mod Run
use blackchain_crypto_lib_ru.Api.{
  create_wallet, sign_message, verify_message, sign_transaction, verify_transaction,
}
use blackchain_crypto_lib_ru.Base.{
  Bool, none, some, [], ◌∷◌, Bytes, Chars, codes, plain, ok, ◌>>=◌, ◌>>◌, assert_that,
  some_or_panic, bytes_eq, slice, replicate,
}
use blackchain_crypto_lib_ru.Crates.{Crates, Entropy}
use blackchain_crypto_lib_ru.Crypto.PrivateKey.{BlackChainPrivateKey}
use blackchain_crypto_lib_ru.Crypto.PublicKey.{derive_address}
use blackchain_crypto_lib_ru.Error.{Fallible}
use blackchain_crypto_lib_ru.Transaction.Types.{BlackChainTxType}

abbrev pub secure_passphrase : Chars
secure_passphrase = codes "my_secure_passphrase"

abbrev pub auth_message : Bytes
auth_message = codes "Auth verification: user_login_token_12345"

-- Step 4.
abbrev pub demo_tx : BlackChainTxType
demo_tx = record {
  chain_id = 1;
  nonce = 42;
  max_priority_fee_per_gas = 1500000000;
  max_fee_per_gas = 30000000000;
  gas_limit = 21000;
  to = some (replicate 20 0xaa);
  value = 500000000000000000;
  input = 0xde ∷ 0xad ∷ 0xbe ∷ 0xef ∷ [];
  v = none;
  r = none;
  s = none;
  pqc_signature = none;
  pub_key = none;
}

module _ (c : Crates) where
  -- Steps 2 and 3.
  unfoldable pub message_steps : BlackChainPrivateKey → Bytes → Fallible (Unit {0})
  message_steps private_key nonce = do
    signature ← sign_message c auth_message private_key nonce
    prefix ← slice 0 32 signature
    is_valid ← verify_message c auth_message signature private_key.public
    assert_that is_valid (plain "Freshly generated message signature must be valid")

  -- Steps 4 to 6.
  unfoldable pub transaction_steps : BlackChainPrivateKey → Bytes → Bytes → Fallible Bool
  transaction_steps private_key address nonce = do
    tx ← sign_transaction c demo_tx private_key nonce
    composite ← some_or_panic (plain "called `Option::unwrap()` on a `None` value") tx.pqc_signature
    recovered_address ← verify_transaction c tx
    ok (bytes_eq recovered_address address)

  -- The two signatures draw their own randomness.
  unfoldable pub main : Entropy → Bytes → Bytes → Fallible Bool
  main entropy message_nonce tx_nonce = do
    (mnemonic, private_key) ← create_wallet c secure_passphrase entropy
    address ← derive_address c private_key.public
    message_steps private_key message_nonce
    transaction_steps private_key address tx_nonce
