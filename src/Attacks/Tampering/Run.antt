-- ===== src/Attacks/Tampering/Run.antt =====
-- The attacks of section C of src/attack_vectors.rs end without a failed assertion. Those on a signature
-- rest on what is assumed of Keccak-256 and ML-DSA for the transactions of the attack.
use mathlib.Core.Path.{subst}
use blackchain_crypto_lib_ru.Attacks.{wallet, sample_tx, tagged_seed}
use blackchain_crypto_lib_ru.Attacks.Tampering.{
  redirected, inflated, attack_tx_tamper_recipient_breaks_recovery,
  attack_tx_tamper_value_breaks_recovery, attack_tx_swapped_pubkey_rejected,
}
use blackchain_crypto_lib_ru.Base.{
  ℕ, Option, some, err, ◌≡◌, ◌≢◌, refl, ap, sym, ◌∙◌, ◌∷◌, Bytes, ok, bytes_eq_iff, replicate,
  length-replicate, arith,
}
use blackchain_crypto_lib_ru.Crates.{Crates}
use blackchain_crypto_lib_ru.Crates.Laws.{CrateLaws}
use blackchain_crypto_lib_ru.Crypto.PrivateKey.{BlackChainPrivateKey, generate}
use blackchain_crypto_lib_ru.Crypto.PublicKey.{BlackChainPublicKey, derive_address, to_bytes}
use blackchain_crypto_lib_ru.Dilithium
use blackchain_crypto_lib_ru.Error.{CryptoError}
use blackchain_crypto_lib_ru.Transaction.Signing.{
  unsigned, signature_hash, sign_transaction, recover_sender,
}
use blackchain_crypto_lib_ru.Transaction.Signing.Binding.{BindsMessage, BindsKey}
use blackchain_crypto_lib_ru.Transaction.Signing.Commitment.{NoCollision, NoCollisionOf}
use blackchain_crypto_lib_ru.Transaction.Signing.RoundTrip.{
  recover_sender-sign_transaction, pub_key-sign_transaction,
}
use blackchain_crypto_lib_ru.Transaction.Signing.Tampering.{
  recover_sender_tampered, recover_sender-swapped, recovered-IsValid, signature_hash_same,
}
use blackchain_crypto_lib_ru.Transaction.Types.{BlackChainTxType, IsValid}

pub sample_tx-IsValid : IsValid sample_tx
unfolding replicate
sample_tx-IsValid = record {
  chain_id_u64 = omega arith;
  nonce_u64 = omega arith;
  priority_u256 = omega arith;
  max_fee_u256 = omega arith;
  gas_limit_u64 = omega arith;
  to_address = refl;
  value_u256 = omega arith;
  v_u256 = tt;
  r_u256 = tt;
  s_u256 = tt;
}

first_byte : Option Bytes → ℕ
first_byte (some (b ∷ bs)) = b
first_byte _ = 0

module _ (c : Crates) (laws : CrateLaws c) where
  module _ (nonce : Bytes) (sk : BlackChainPrivateKey) (pk : BlackChainPublicKey) (seed : Bytes)
      (made : generate c seed ≡ ok (sk, pk)) (change : BlackChainTxType → BlackChainTxType)
      (changes : (tx : BlackChainTxType) → unsigned (change tx) ≡ change (unsigned tx))
      (keeps_sig : (tx : BlackChainTxType) → (change tx).pqc_signature ≡ tx.pqc_signature)
      (keeps_pk : (tx : BlackChainTxType) → (change tx).pub_key ≡ tx.pub_key)
      (changed_IsValid : (tx : BlackChainTxType) → IsValid tx → IsValid (change tx))
      (differs : unsigned (change sample_tx) ≢ unsigned sample_tx)
      (no_collision : NoCollision c sample_tx (change sample_tx))
      (binds : BindsMessage c.ml_dsa
        (signature_hash c sample_tx)
        (signature_hash c (change sample_tx))) where
    same_change :
        (signed : BlackChainTxType)
        → unsigned signed ≡ unsigned sample_tx
        → unsigned (change signed) ≡ unsigned (change sample_tx)
    same_change signed same = changes signed ∙ ap change same ∙ sym (changes sample_tx)

    -- What the tests on a changed field run into, once the transaction is signed.
    changed_refused :
        (signed : BlackChainTxType) × (address : Bytes) × (e : CryptoError) × (sign_transaction c
            sample_tx sk nonce
          ≡ ok signed)
        × (derive_address c pk ≡ ok address)
        × (recover_sender c signed ≡ ok address)
        × (recover_sender c (change signed) ≡ err e)
    changed_refused =
        let (signed, address, signs, same, found, recovered) =
          recover_sender-sign_transaction c laws seed nonce sk pk sample_tx made (omega arith) in
        let valid = recovered-IsValid c sample_tx signed address sample_tx-IsValid same recovered in
        let same' = same_change signed same in
        let (e, refused) =
          recover_sender_tampered c laws signed (change signed) address valid
            (changed_IsValid signed valid) recovered (keeps_sig signed) (keeps_pk signed)
            (λ kept. differs (sym same' ∙ sym kept ∙ same))
            (subst (λ u. NoCollisionOf c u (unsigned (change signed))) (sym same)
              (subst (λ u. NoCollisionOf c (unsigned sample_tx) u) (sym same') no_collision))
            (subst (λ h. BindsMessage c.ml_dsa h (signature_hash c (change signed)))
              (sym (signature_hash_same c signed sample_tx same))
              (subst (λ h. BindsMessage c.ml_dsa (signature_hash c sample_tx) h)
                (sym (signature_hash_same c (change signed) (change sample_tx) same')) binds)) in
        (signed, address, e, signs, found, recovered, refused)

  redirected_lem : (tx : BlackChainTxType) → unsigned (redirected tx) ≡ redirected (unsigned tx)
  unfolding unsigned
  redirected_lem tx = refl

  inflated_lem : (tx : BlackChainTxType) → unsigned (inflated tx) ≡ inflated (unsigned tx)
  unfolding unsigned
  inflated_lem tx = refl

  redirected-IsValid : (tx : BlackChainTxType) → IsValid tx → IsValid (redirected tx)
  redirected-IsValid tx valid = record {
    chain_id_u64 = valid.chain_id_u64;
    nonce_u64 = valid.nonce_u64;
    priority_u256 = valid.priority_u256;
    max_fee_u256 = valid.max_fee_u256;
    gas_limit_u64 = valid.gas_limit_u64;
    to_address = length-replicate {A = ℕ} 20 0xbb;
    value_u256 = valid.value_u256;
    v_u256 = valid.v_u256;
    r_u256 = valid.r_u256;
    s_u256 = valid.s_u256;
  }

  inflated-IsValid : (tx : BlackChainTxType) → IsValid tx → IsValid (inflated tx)
  inflated-IsValid tx valid = record {
    chain_id_u64 = valid.chain_id_u64;
    nonce_u64 = valid.nonce_u64;
    priority_u256 = valid.priority_u256;
    max_fee_u256 = valid.max_fee_u256;
    gas_limit_u64 = valid.gas_limit_u64;
    to_address = valid.to_address;
    value_u256 = omega arith;
    v_u256 = valid.v_u256;
    r_u256 = valid.r_u256;
    s_u256 = valid.s_u256;
  }

  redirected-≢ : unsigned (redirected sample_tx) ≢ unsigned sample_tx
  unfolding unsigned replicate first_byte
  redirected-≢ h = let heads : ◌≡◌ {A = ℕ} 0xbb 0xaa = ap (λ t. first_byte t.to) h in omega arith

  inflated-≢ : unsigned (inflated sample_tx) ≢ unsigned sample_tx
  unfolding unsigned
  inflated-≢ h = let values : ◌≡◌ {A = ℕ} 999999999 1000000 = ap (λ t. t.value) h in omega arith

  module _ (nonce : Bytes) (sk : BlackChainPrivateKey) (pk : BlackChainPublicKey) where
    attack_tx_tamper_recipient_lem :
        generate c (tagged_seed 64 0 30) ≡ ok (sk, pk)
        → NoCollision c sample_tx (redirected sample_tx)
        → BindsMessage c.ml_dsa
            (signature_hash c sample_tx)
            (signature_hash c (redirected sample_tx))
        → attack_tx_tamper_recipient_breaks_recovery c nonce ≡ ok tt
    unfolding attack_tx_tamper_recipient_breaks_recovery wallet
    attack_tx_tamper_recipient_lem made no_collision binds =
        let (signed, address, e, signs, found, recovered, refused) =
          changed_refused nonce sk pk (tagged_seed 64 0 30) made redirected redirected_lem
            (λ tx. refl) (λ tx. refl) redirected-IsValid redirected-≢ no_collision binds in
        rw (made, found, signs, recovered, (bytes_eq_iff address address).1 refl, refused) refl

    attack_tx_tamper_value_lem :
        generate c (tagged_seed 64 0 31) ≡ ok (sk, pk)
        → NoCollision c sample_tx (inflated sample_tx)
        → BindsMessage c.ml_dsa (signature_hash c sample_tx) (signature_hash c (inflated sample_tx))
        → attack_tx_tamper_value_breaks_recovery c nonce ≡ ok tt
    unfolding attack_tx_tamper_value_breaks_recovery wallet
    attack_tx_tamper_value_lem made no_collision binds =
        let (signed, address, e, signs, found, recovered, refused) =
          changed_refused nonce sk pk (tagged_seed 64 0 31) made inflated inflated_lem (λ tx. refl)
            (λ tx. refl) inflated-IsValid inflated-≢ no_collision binds in
        rw (made, found, signs, refused) refl

  attack_tx_swapped_pubkey_lem :
      (nonce : Bytes) (sk_a sk_b : BlackChainPrivateKey) (pk_a pk_b : BlackChainPublicKey)
      (d_a d_b : c.ml_dsa.VerifyingKey)
      → generate c (tagged_seed 64 0 32) ≡ ok (sk_a, pk_a)
      → generate c (tagged_seed 64 0 33) ≡ ok (sk_b, pk_b)
      → Dilithium.public_from_bytes c.ml_dsa pk_a.dilithium ≡ ok d_a
      → Dilithium.public_from_bytes c.ml_dsa pk_b.dilithium ≡ ok d_b
      → d_a ≢ d_b
      → BindsKey c.ml_dsa d_a d_b
      → attack_tx_swapped_pubkey_rejected c nonce ≡ ok tt
  unfolding attack_tx_swapped_pubkey_rejected wallet
  attack_tx_swapped_pubkey_lem nonce sk_a sk_b pk_a pk_b d_a d_b made_a made_b parsed_a parsed_b
        differ binds =
      let (signed, address, signs, same, found, recovered) =
        recover_sender-sign_transaction c laws (tagged_seed 64 0 32) nonce sk_a pk_a sample_tx
          made_a (omega arith) in
      let (signed_b, _, signs_b, _, _, _) =
        recover_sender-sign_transaction c laws (tagged_seed 64 0 33) nonce sk_b pk_b sample_tx
          made_b (omega arith) in
      let (has_key, read) =
        pub_key-sign_transaction c laws (tagged_seed 64 0 32) nonce sk_a pk_a sample_tx signed
          made_a signs in
      let (_, read_b) =
        pub_key-sign_transaction c laws (tagged_seed 64 0 33) nonce sk_b pk_b sample_tx signed_b
          made_b signs_b in
      let valid = recovered-IsValid c sample_tx signed address sample_tx-IsValid same recovered in
      let (e, refused) =
        recover_sender-swapped c laws signed address (to_bytes pk_a) (to_bytes pk_b) pk_a pk_b d_a
          d_b valid.chain_id_u64 recovered has_key read read_b parsed_a parsed_b differ binds in
      rw (made_a, made_b, signs, refused) refl
