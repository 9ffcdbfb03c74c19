-- ===== src/Attacks/Malleation.antt =====
-- src/attack_vectors.rs, section A: the twin (r, n - s) of a P-521 signature, alone, in a composite
-- and in a transaction. The twin is made by `p521::ecdsa` (`Scalars`).
pub mod Parts
pub mod Noncanonical
mod Run
use blackchain_crypto_lib_ru.Attacks.{
  Scalars, p521_high_s_twin, p521_sig_range, ed448_sig_range, or_byte, write_slice, wallet,
  sample_tx,
}
use blackchain_crypto_lib_ru.Base.{
  ℕ, ◌+◌, ◌≡◌, not, some, Bytes, codes, plain, ok, ◌>>=◌, ◌>>◌, assert_that, unwrapped, fails,
  is_ok, bytes_eq, slice, length, take, drop, Bool, some_or_panic,
}
use blackchain_crypto_lib_ru.Crates.{Crates, Entropy}
use blackchain_crypto_lib_ru.Crypto.PrivateKey.{sign_message}
use blackchain_crypto_lib_ru.Crypto.PublicKey.{verify_message, derive_address}
use blackchain_crypto_lib_ru.Error.{Fallible}
use blackchain_crypto_lib_ru.P521
use blackchain_crypto_lib_ru.Transaction.Signing.{sign_transaction, recover_sender}
use blackchain_crypto_lib_ru.Transaction.Types.{BlackChainTxType}

module _ (c : Crates) (scalars : Scalars c.ecdsa) where
  -- The attack on a signature of a message under a key.
  unfoldable pub p521_attack : P521.PublicKey c.ecdsa → Bytes → Bytes → Fallible (Unit {0})
  p521_attack pk msg sig = do
    assert_that (is_ok (P521.verify_sig c.ecdsa pk msg sig))
        (plain "assertion failed: pk.verify_sig(msg, &sig).is_ok()")
    twin ← p521_high_s_twin c.ecdsa scalars sig
    assert_that (not (bytes_eq twin sig)) (plain "twin must differ from the canonical signature")
    twin_r ← slice 0 66 twin
    sig_r ← slice 0 66 sig
    assert_that (bytes_eq twin_r sig_r) (plain "r component must be identical")
    twin_s ← slice 66 (length twin) twin
    sig_s ← slice 66 (length sig) sig
    assert_that (not (bytes_eq twin_s sig_s)) (plain "s component must differ (n - s)")
    rejected ← fails (P521.verify_sig c.ecdsa pk msg twin)
    assert_that rejected (plain "high-S malleability twin must be rejected")

  -- `entropy` draws the key, `nonce` the randomness of the signature.
  unfoldable pub attack_p521_high_s_twin_is_rejected : Entropy → Bytes → Fallible (Unit {0})
  attack_p521_high_s_twin_is_rejected entropy nonce = do
    (pk, sk) ← unwrapped (P521.generate_key c.ecdsa entropy)
    let msg = codes "malleability probe"
    let sig = P521.sign_msg c.ecdsa sk msg nonce
    p521_attack pk msg sig

  -- The composite with the twin of its P-521 part.
  unfoldable pub malleated : Bytes → Fallible Bytes
  malleated composite = do
    part ← slice p521_sig_range.0 p521_sig_range.1 composite
    twin ← p521_high_s_twin c.ecdsa scalars part
    write_slice p521_sig_range.0 p521_sig_range.1 twin composite

  unfoldable pub attack_composite_message_p521_malleation_rejected : Bytes → Fallible (Unit {0})
  attack_composite_message_p521_malleation_rejected nonce = do
    (sk, pk) ← wallet c 1
    let msg = codes "composite malleability"
    composite ← unwrapped (sign_message c sk msg nonce)
    valid ← unwrapped (verify_message c pk msg composite)
    assert_that valid (plain "assertion failed: pk.verify_message(msg, &composite).unwrap()")
    composite ← malleated composite
    rejected ← fails (verify_message c pk msg composite)
    assert_that rejected (plain "composite with malleated P-521 sub-signature must be rejected")

  -- The transaction with the twin in its signature.
  unfoldable pub malleated_tx : BlackChainTxType → Fallible BlackChainTxType
  malleated_tx tx = do
    comp ← some_or_panic (plain "called `Option::unwrap()` on a `None` value") tx.pqc_signature
    comp ← malleated comp
    let changed : BlackChainTxType = record tx { pqc_signature = some comp }
    ok changed

  unfoldable pub attack_transaction_p521_malleation_breaks_recovery : Bytes → Fallible (Unit {0})
  attack_transaction_p521_malleation_breaks_recovery nonce = do
    (sk, pk) ← wallet c 2
    expected ← derive_address c pk
    tx ← unwrapped (sign_transaction c sample_tx sk nonce)
    recovered ← unwrapped (recover_sender c tx)
    assert_that (bytes_eq recovered expected)
        (plain "assertion failed: tx.recover_sender().unwrap() == expected")
    tx ← malleated_tx tx
    rejected ← fails (recover_sender c tx)
    assert_that rejected
        (plain "malleated transaction must not recover a sender (txid malleability blocked)")

-- The composite with the two top bits of byte `byte_idx` of S set.
unfoldable pub spoiled : ℕ → Bytes → Fallible Bytes
spoiled byte_idx base = or_byte (ed448_sig_range.0 + 57 + byte_idx) 0xC0 base

module _ (c : Crates) where
  unfoldable pub attack_ed448_noncanonical_s_rejected : Bytes → Fallible (Unit {0})
  attack_ed448_noncanonical_s_rejected nonce = do
    (sk, pk) ← wallet c 3
    let msg = codes "ed448 canonical probe"
    base ← unwrapped (sign_message c sk msg nonce)
    valid ← unwrapped (verify_message c pk msg base)
    assert_that valid (plain "assertion failed: pk.verify_message(msg, &base).unwrap()")
    comp ← spoiled 56 base
    first ← fails (verify_message c pk msg comp)
    assert_that first (plain "non-canonical Ed448 S (byte 56) must be rejected")
    comp ← spoiled 55 base
    second ← fails (verify_message c pk msg comp)
    assert_that second (plain "non-canonical Ed448 S (byte 55) must be rejected")
