-- ===== src/Fuzz/TxSignRecover.antt =====
-- fuzz/fuzz_targets/fuzz_tx_sign_recover.rs. The address of the input is an array of 20 bytes.
-- The values that the last assertion shows behind its text are left out.
use blackchain_crypto_lib_ru.Base.{
  ℕ, ◌*◌, ◌^◌, ◌%◌, ◌≡◌, refl, inl, inr, Bool, none, some, ◌∷◌, Bytes, plain, text, ok, ◌>>=◌,
  assert_that, attempt, or_panic, bytes_eq, bytes_eq_iff, bit_or, if◌then◌else◌,
}
use blackchain_crypto_lib_ru.Base.Returns.{Returns, outcome_cases}
use blackchain_crypto_lib_ru.Crates.{Crates}
use blackchain_crypto_lib_ru.Crates.Laws.{CrateLaws}
use blackchain_crypto_lib_ru.Crypto.PrivateKey.{BlackChainPrivateKey, generate}
use blackchain_crypto_lib_ru.Crypto.PublicKey.{BlackChainPublicKey, derive_address}
use blackchain_crypto_lib_ru.Error.{Fallible, display}
use blackchain_crypto_lib_ru.Transaction.Signing.{sign_transaction, recover_sender}
use blackchain_crypto_lib_ru.Transaction.Signing.RoundTrip.{recover_sender-sign_transaction}
use blackchain_crypto_lib_ru.Transaction.Types.{BlackChainTxType, IsU64}

pub record FuzzInput : Type 0 where
  pub seed : Bytes
  pub chain_id : ℕ
  pub nonce : ℕ
  pub gas_limit : ℕ
  pub value_lo : ℕ
  pub value_hi : ℕ
  pub max_priority_fee : ℕ
  pub max_fee : ℕ
  pub has_to : Bool
  pub to_bytes : Bytes
  pub call_data : Bytes

-- The unsigned transaction of an input; the two halves of the value are joined in 256 bits.
unfoldable pub input_tx : FuzzInput → BlackChainTxType
input_tx input = record {
  chain_id = input.chain_id;
  nonce = input.nonce;
  max_priority_fee_per_gas = input.max_priority_fee;
  max_fee_per_gas = input.max_fee;
  gas_limit = input.gas_limit;
  to = if input.has_to then some input.to_bytes else none;
  value = bit_or (input.value_hi * 2 ^ 128 % 2 ^ 256) input.value_lo;
  input = input.call_data;
  v = none;
  r = none;
  s = none;
  pqc_signature = none;
  pub_key = none;
}

module _ (c : Crates) where
  -- Signing with the keys of the seed, and recovery. `nonce` is the randomness of the signature.
  unfoldable pub sign_and_recover :
      FuzzInput → BlackChainPrivateKey → BlackChainPublicKey → Bytes → Fallible (Unit {0})
  sign_and_recover input priv_key pub_key nonce = do
    expected_addr ← derive_address c pub_key
    signed ← attempt (sign_transaction c (input_tx input) priv_key nonce)
    elim signed [
      | inl e ↦ ok tt
      | inr tx ↦ do
        recovered ←
            or_panic
              (λ e.
                text "recover_sender failed on a freshly-signed tx: " ∷ display c.rlp.error_text e)
              (recover_sender c tx)
        assert_that (bytes_eq recovered expected_addr)
            (plain "recovered address must match the signing key's address")
    ]

  unfoldable pub fuzz_tx_sign_recover : FuzzInput → Bytes → Fallible (Unit {0})
  fuzz_tx_sign_recover input nonce = do
    keys ← attempt (generate c input.seed)
    elim keys [
      | inl e ↦ ok tt
      | inr (priv_key, pub_key) ↦ sign_and_recover input priv_key pub_key nonce
    ]

  module _ (laws : CrateLaws c) where
    chain_id-input_tx : (input : FuzzInput) → (input_tx input).chain_id ≡ input.chain_id
    unfolding input_tx
    chain_id-input_tx input = refl

    signed_total :
        (input : FuzzInput) (nonce : Bytes) (sk : BlackChainPrivateKey) (pk : BlackChainPublicKey)
        → generate c input.seed ≡ ok (sk, pk)
        → IsU64 input.chain_id
        → sign_and_recover input sk pk nonce ≡ ok tt
    unfolding sign_and_recover
    signed_total input nonce sk pk made small =
        let (signed, address, signed_ok, same, found, recovered) =
          recover_sender-sign_transaction c laws input.seed nonce sk pk (input_tx input) made
            (rw (chain_id-input_tx input) small) in
        rw (found, signed_ok, recovered, (bytes_eq_iff address address).1 refl) refl

    -- The signing target succeeds on every input for whose seed key generation does not panic: the
    -- sender recovered from the signed transaction is the address of the key.
    pub fuzz_tx_sign_recover_total :
        (input : FuzzInput) (nonce : Bytes)
        → IsU64 input.chain_id
        → Returns (generate c input.seed)
        → fuzz_tx_sign_recover input nonce ≡ ok tt
    unfolding fuzz_tx_sign_recover
    fuzz_tx_sign_recover_total input nonce small returns =
        elim (outcome_cases (generate c input.seed) returns) [
          | inl (e, failed) ↦ rw failed refl
          | inr ((sk, pk), made) ↦ rw made (signed_total input nonce sk pk made small)
        ]
