-- ===== src/Transaction/Signing/Commitment.antt =====
-- What the hash to sign commits to (src/transaction/signing.rs, src/transaction/rlp.rs).
use blackchain_crypto_lib_ru.Base.{
  ◌≡◌, ◌↔◌, sym, ap, ◌∙◌, [], ◌∷◌, append-nil, Bytes, Result, ok, ok-injective, drop,
}
use blackchain_crypto_lib_ru.Crates.{Crates}
use blackchain_crypto_lib_ru.Crates.Laws.{CrateLaws}
use blackchain_crypto_lib_ru.Error.{RlpFailure}
use blackchain_crypto_lib_ru.Transaction.Codec.{encode, decode, has_signature}
use blackchain_crypto_lib_ru.Transaction.Codec.RoundTrip.{decode-encode}
use blackchain_crypto_lib_ru.Transaction.Signing.{signature_hash, unsigned}
use blackchain_crypto_lib_ru.Transaction.Types.{BlackChainTxType, IsValid, tx_type}

module _ (c : Crates) where
  -- Keccak-256 does not collide on the preimages of two unsigned copies.
  abbrev pub NoCollisionOf : BlackChainTxType → BlackChainTxType → Type 0
  NoCollisionOf u u' =
      c.hashes.keccak256 (tx_type ∷ encode c.rlp u) ≡ c.hashes.keccak256 (tx_type ∷ encode c.rlp u')
      → ◌≡◌ {A = Bytes} (tx_type ∷ encode c.rlp u) (tx_type ∷ encode c.rlp u')

  -- Keccak-256 does not collide on what two transactions hash.
  abbrev pub NoCollision : BlackChainTxType → BlackChainTxType → Type 0
  NoCollision tx tx' = NoCollisionOf (unsigned tx) (unsigned tx')

  pub unsigned-IsValid : (tx : BlackChainTxType) → IsValid tx → IsValid (unsigned tx)
  unfolding unsigned
  unsigned-IsValid tx valid = record {
    chain_id_u64 = valid.chain_id_u64;
    nonce_u64 = valid.nonce_u64;
    priority_u256 = valid.priority_u256;
    max_fee_u256 = valid.max_fee_u256;
    gas_limit_u64 = valid.gas_limit_u64;
    to_address = valid.to_address;
    value_u256 = valid.value_u256;
    v_u256 = tt;
    r_u256 = tt;
    s_u256 = tt;
  }

  module _ (laws : CrateLaws c) where
    decodes :
        (tx : BlackChainTxType)
        → IsValid tx
        → decode c.rlp (encode c.rlp (unsigned tx)) ≡ ok (unsigned tx, [])
    unfolding unsigned has_signature
    decodes tx valid =
        rw (append-nil (encode c.rlp (unsigned tx))) at
          (decode-encode c.rlp laws.rlp_laws (unsigned tx) [] (unsigned-IsValid tx valid)).0

    -- Two transactions with fields in the ranges of their types have the same hash to sign exactly when
    -- they agree in every unsigned field, provided that Keccak-256 does not collide on the two.
    pub signature_hash_iff :
        (tx tx' : BlackChainTxType)
        → IsValid tx
        → IsValid tx'
        → NoCollision tx tx'
        → (signature_hash c tx ≡ signature_hash c tx') ↔ (unsigned tx ≡ unsigned tx')
    unfolding signature_hash
    signature_hash_iff tx tx' valid valid' differ = (
      λ same.
          let encodings : encode c.rlp (unsigned tx) ≡ encode c.rlp (unsigned tx') =
            ap (drop 1) (differ same) in
          let decoded : ◌≡◌ {A = Result RlpFailure (BlackChainTxType × Bytes)}
              (ok (unsigned tx, [])) (ok (unsigned tx', [])) =
            sym (decodes tx valid) ∙ ap (decode c.rlp) encodings ∙ decodes tx' valid' in
          ap (λ p. p.0) (ok-injective decoded),
      λ same. ap (λ t. c.hashes.keccak256 (tx_type ∷ encode c.rlp t)) same,
    )
