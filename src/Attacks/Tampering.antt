-- ===== src/Attacks/Tampering.antt =====
-- src/attack_vectors.rs, section C: changed transactions and malformed encodings.
mod Run
mod Wire
use blackchain_crypto_lib_ru.Attacks.{wallet, sample_tx}
use blackchain_crypto_lib_ru.Base.{
  not, Option, none, some, inl, inr, [], ◌∷◌, ◌++◌, Bytes, plain, ok, ◌>>=◌, ◌>>◌, assert_that,
  attempt, unwrapped, fails, bytes_eq, length, replicate, Bool, true, false,
}
use blackchain_crypto_lib_ru.Crates.{Crates}
use blackchain_crypto_lib_ru.Crypto.PublicKey.{derive_address, to_bytes}
use blackchain_crypto_lib_ru.Error.{Fallible}
use blackchain_crypto_lib_ru.Transaction.Codec.{encode, decode}
use blackchain_crypto_lib_ru.Transaction.Signing.{sign_transaction, recover_sender}
use blackchain_crypto_lib_ru.Transaction.Types.{BlackChainTxType}

-- `tx.to = Some(Address::repeat_byte(0xbb))`
abbrev pub redirected : BlackChainTxType → BlackChainTxType
redirected tx = record tx { to = some (replicate 20 0xbb) }

-- `tx.value = U256::from(999_999_999u64)`
abbrev pub inflated : BlackChainTxType → BlackChainTxType
inflated tx = record tx { value = 999999999 }

abbrev pub is_none {ℓ} : {A : Type ℓ} → Option A → Bool
is_none none = true
is_none (some a) = false

module _ (c : Crates) where
  unfoldable pub attack_tx_tamper_recipient_breaks_recovery : Bytes → Fallible (Unit {0})
  attack_tx_tamper_recipient_breaks_recovery nonce = do
    (sk, pk) ← wallet c 30
    signer ← derive_address c pk
    tx ← unwrapped (sign_transaction c sample_tx sk nonce)
    recovered ← unwrapped (recover_sender c tx)
    assert_that (bytes_eq recovered signer)
        (plain "assertion failed: tx.recover_sender().unwrap() == signer")
    result ← attempt (recover_sender c (redirected tx))
    elim result [
      | inl e ↦ ok tt
      | inr addr ↦
          assert_that (not (bytes_eq addr signer))
            (plain "tampered recipient must not recover signer")
    ]

  unfoldable pub attack_tx_tamper_value_breaks_recovery : Bytes → Fallible (Unit {0})
  attack_tx_tamper_value_breaks_recovery nonce = do
    (sk, pk) ← wallet c 31
    signer ← derive_address c pk
    tx ← unwrapped (sign_transaction c sample_tx sk nonce)
    result ← attempt (recover_sender c (inflated tx))
    elim result [
      | inl e ↦ ok tt
      | inr addr ↦
          assert_that (not (bytes_eq addr signer)) (plain "assertion failed: addr != signer")
    ]

  unfoldable pub attack_tx_swapped_pubkey_rejected : Bytes → Fallible (Unit {0})
  attack_tx_swapped_pubkey_rejected nonce = do
    (sk_a, pk_a) ← wallet c 32
    (sk_b, pk_b) ← wallet c 33
    tx ← unwrapped (sign_transaction c sample_tx sk_a nonce)
    let swapped : BlackChainTxType = record tx { pub_key = some (to_bytes pk_b) }
    rejected ← fails (recover_sender c swapped)
    assert_that rejected (plain "A's signature under B's public key must not recover")

  unfoldable pub attack_rlp_trailing_bytes_rejected_via_decode : Fallible (Unit {0})
  attack_rlp_trailing_bytes_rejected_via_decode = do
    let out = encode c.rlp sample_tx ++ 0xde ∷ 0xad ∷ []
    (decoded, slice) ← unwrapped (decode c.rlp out)
    assert_that (is_none decoded.v) (plain "trailing bytes must not become signature fields")
    assert_that (bytes_eq slice (0xde ∷ 0xad ∷ [])) (plain "trailing bytes must be left unconsumed")

  -- The fields up to the recipient, then `to_bytes` in its place, and an empty rest.
  unfoldable pub crafted_body : Bytes → Bytes
  crafted_body to_bytes =
      c.rlp.encode_u64 1
      ++ (c.rlp.encode_u64 0
          ++ (c.rlp.encode_u256 0
              ++ (c.rlp.encode_u256 0
                  ++ (c.rlp.encode_u64 0
                      ++ (c.rlp.encode_bytes to_bytes
                          ++ (c.rlp.encode_u256 0 ++ c.rlp.encode_bytes []))))))

  unfoldable pub attack_rlp_oversized_to_rejected : Fallible (Unit {0})
  attack_rlp_oversized_to_rejected = do
    let body = crafted_body (replicate 21 0x11)
    let framed = c.rlp.encode_header true (length body) ++ body
    rejected ← fails (decode c.rlp framed)
    assert_that rejected (plain "a 21-byte `to` field must be rejected")
