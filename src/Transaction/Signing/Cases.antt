-- ===== src/Transaction/Signing/Cases.antt =====
-- src/transaction/signing.rs: the tests beside the code, as functions that panic where an assertion
-- fails. Both make their key from the seed of bytes `i * 7 + 13`, that of the fuzz target.
mod Run
use blackchain_crypto_lib_ru.Base.{
  Bool, true, false, Option, none, some, [], ◌∷◌, Bytes, plain, ok, ◌>>=◌, ◌>>◌, assert_that,
  or_panic, unwrapped, succeeds, fails, bytes_eq, replicate,
}
use blackchain_crypto_lib_ru.Crates.{Crates}
use blackchain_crypto_lib_ru.Crypto.PrivateKey.{generate}
use blackchain_crypto_lib_ru.Crypto.PublicKey.{derive_address}
use blackchain_crypto_lib_ru.Error.{Fallible}
use blackchain_crypto_lib_ru.Fuzz.CompositeSigVerify.{fixed_seed}
use blackchain_crypto_lib_ru.Transaction.Codec.{is_some}
use blackchain_crypto_lib_ru.Transaction.Signing.{sign_transaction, recover_sender}
use blackchain_crypto_lib_ru.Transaction.Types.{BlackChainTxType}

abbrev pub roundtrip_tx : BlackChainTxType
roundtrip_tx = record {
  chain_id = 1;
  nonce = 10;
  max_priority_fee_per_gas = 1500000000;
  max_fee_per_gas = 30000000000;
  gas_limit = 21000;
  to = some (replicate 20 0xaa);
  value = 100000000000000000;
  input = 1 ∷ 2 ∷ 3 ∷ 4 ∷ [];
  v = none;
  r = none;
  s = none;
  pqc_signature = none;
  pub_key = none;
}

abbrev pub base_tx : BlackChainTxType
base_tx = record {
  chain_id = 1;
  nonce = 3;
  max_priority_fee_per_gas = 1;
  max_fee_per_gas = 2;
  gas_limit = 21000;
  to = some (replicate 20 0xaa);
  value = 5;
  input = 9 ∷ 9 ∷ 9 ∷ [];
  v = none;
  r = none;
  s = none;
  pqc_signature = none;
  pub_key = none;
}

-- `bad_v`, `bad_r` and `bad_s`
abbrev pub with_bad_v : BlackChainTxType → BlackChainTxType
with_bad_v tx = record tx { v = some 9999 }

abbrev pub with_bad_r : BlackChainTxType → BlackChainTxType
with_bad_r tx = record tx { r = some 1 }

abbrev pub with_bad_s : BlackChainTxType → BlackChainTxType
with_bad_s tx = record tx { s = some 1 }

module _ (c : Crates) where
  unfoldable pub test_composite_sign_and_recover_roundtrip : Bytes → Fallible (Unit {0})
  test_composite_sign_and_recover_roundtrip nonce = do
    (priv_key, pub_key) ← unwrapped (generate c fixed_seed)
    address ← derive_address c pub_key
    tx ←
        or_panic (λ e. plain "Failed to sign transaction")
          (sign_transaction c roundtrip_tx priv_key nonce)
    assert_that (is_some tx.pqc_signature) (plain "assertion failed: tx.pqc_signature.is_some()")
    assert_that (is_some tx.pub_key) (plain "assertion failed: tx.pub_key.is_some()")
    assert_that (is_some tx.v) (plain "assertion failed: tx.v.is_some()")
    assert_that (is_some tx.r) (plain "assertion failed: tx.r.is_some()")
    assert_that (is_some tx.s) (plain "assertion failed: tx.s.is_some()")
    recovered ← or_panic (λ e. plain "Failed to recover sender") (recover_sender c tx)
    assert_that (bytes_eq recovered address) (plain "assertion `left == right` failed")

  unfoldable pub mutated_vrs_envelope_is_rejected : Bytes → Fallible (Unit {0})
  mutated_vrs_envelope_is_rejected nonce = do
    (priv_key, _) ← unwrapped (generate c fixed_seed)
    signed ← unwrapped (sign_transaction c base_tx priv_key nonce)
    recovers ← succeeds (recover_sender c signed)
    assert_that recovers (plain "assertion failed: signed.recover_sender().is_ok()")
    v_rejected ← fails (recover_sender c (with_bad_v signed))
    assert_that v_rejected (plain "mutated v must be rejected")
    r_rejected ← fails (recover_sender c (with_bad_r signed))
    assert_that r_rejected (plain "mutated r must be rejected")
    s_rejected ← fails (recover_sender c (with_bad_s signed))
    assert_that s_rejected (plain "mutated s must be rejected")
