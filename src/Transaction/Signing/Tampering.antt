-- ===== src/Transaction/Signing/Tampering.antt =====
-- A signature with its key belongs to one transaction (src/transaction/signing.rs).
use mathlib.Core.Path.{subst}
use blackchain_crypto_lib_ru.Base.{
  ◌∷◌, ◌+◌, ◌*◌, ℕ, ◌≡◌, ◌≢◌, refl, ap, sym, ◌∙◌, some, inl, inr, Bytes, ok, err, ok-injective,
  arith,
}
use blackchain_crypto_lib_ru.Base.Returns.{outcome_cases}
use blackchain_crypto_lib_ru.Crates.{Crates}
use blackchain_crypto_lib_ru.Crates.Laws.{CrateLaws}
use blackchain_crypto_lib_ru.Crypto.Checks.{Authentic}
use blackchain_crypto_lib_ru.Crypto.PublicKey.{BlackChainPublicKey, from_bytes}
use blackchain_crypto_lib_ru.Dilithium
use blackchain_crypto_lib_ru.Error.{CryptoError}
use blackchain_crypto_lib_ru.Transaction.Returns.{recover_sender-Returns}
use blackchain_crypto_lib_ru.Transaction.Signing.{
  recover_sender, signature_hash, unsigned, compute_h_combined, compute_entanglement_nonce,
}
use blackchain_crypto_lib_ru.Transaction.Signing.Commitment.{
  NoCollision, unsigned-IsValid, signature_hash_iff,
}
use blackchain_crypto_lib_ru.Transaction.Signing.Recovery.{recover_sender_iff, VerifiesAs}
use blackchain_crypto_lib_ru.Transaction.Types.{
  BlackChainTxType, IsValid, IsU64, IsU256, IsOptionalU256, tx_type,
}
use blackchain_crypto_lib_ru.Transaction.Codec.{encode}
use blackchain_crypto_lib_ru.Transaction.Signing.Binding.{
  BindsMessage, BindsKey, same_message, same_key, same_dil, some-injective,
}

module _ (c : Crates) where
  -- The hash to sign is that of the unsigned fields.
  pub signature_hash_same :
      (tx tx' : BlackChainTxType)
      → unsigned tx ≡ unsigned tx'
      → signature_hash c tx ≡ signature_hash c tx'
  unfolding signature_hash
  signature_hash_same tx tx' same = ap (λ u. c.hashes.keccak256 (tx_type ∷ encode c.rlp u)) same

  -- A transaction from which a sender is recovered is in range where its unsigned fields are.
  pub recovered-IsValid :
      (tx signed : BlackChainTxType) (address : Bytes)
      → IsValid tx
      → unsigned signed ≡ unsigned tx
      → recover_sender c signed ≡ ok address
      → IsValid signed
  unfolding unsigned
  recovered-IsValid tx signed address valid same h =
      let fields = subst IsValid (sym same) (unsigned-IsValid c tx valid) in
      let (_, _, _, _, v_ok, r_ok, s_ok, _) =
        (recover_sender_iff c signed address fields.chain_id_u64).0 h in
      let small : IsU256 (signed.chain_id * 2 + 35) = omega (arith, fields.chain_id_u64) in
      record {
        chain_id_u64 = fields.chain_id_u64;
        nonce_u64 = fields.nonce_u64;
        priority_u256 = fields.priority_u256;
        max_fee_u256 = fields.max_fee_u256;
        gas_limit_u64 = fields.gas_limit_u64;
        to_address = fields.to_address;
        value_u256 = fields.value_u256;
        v_u256 = subst IsOptionalU256 (sym v_ok) small;
        r_u256 = subst IsOptionalU256 (sym r_ok) (omega arith);
        s_u256 = subst IsOptionalU256 (sym s_ok) (omega arith);
      }

  -- One composite that is authentic under one key for two hashes.
  same_hashes :
      (pk pk' : BlackChainPublicKey) (hash hash' bound bound' sig : Bytes)
      → pk' ≡ pk
      → BindsMessage c.ml_dsa hash hash'
      → Authentic c pk hash bound sig
      → Authentic c pk' hash' bound' sig
      → hash ≡ hash'
  same_hashes pk pk' hash hash' bound bound' sig same binds a b =
      let key : b.dil_key ≡ a.dil_key = ok-injective (
        sym b.dil_parses
        ∙ ap (λ k. Dilithium.public_from_bytes c.ml_dsa k.dilithium) same
        ∙ a.dil_parses) in
      same_message c.ml_dsa a.dil_key hash hash' a.dil_sig binds a.dil_verifies (
        subst (λ k. Dilithium.verify_internal c.ml_dsa k hash' a.dil_sig ≡ ok tt) key
          (subst (λ s. Dilithium.verify_internal c.ml_dsa b.dil_key hash' s ≡ ok tt)
            (sym (same_dil c pk pk' hash hash' bound bound' sig a b)) b.dil_verifies))

  -- Two senders that are recovered by one signature and one key, for two hashes.
  same_hashes-VerifiesAs :
      (hash hash' : Bytes) (chain_id chain_id' : ℕ) (key sig sig' key' address address' : Bytes)
      → sig' ≡ sig
      → key' ≡ key
      → BindsMessage c.ml_dsa hash hash'
      → VerifiesAs c hash chain_id key sig address
      → VerifiesAs c hash' chain_id' key' sig' address'
      → hash ≡ hash'
  same_hashes-VerifiesAs hash hash' chain_id chain_id' key sig sig' key' address address' sigs keys
        binds v v' =
      let parsed : v'.key ≡ v.key =
        ok-injective (sym v'.key_parses ∙ ap (from_bytes c) keys ∙ v.key_parses) in
      let bound' = compute_h_combined c v'.key (compute_entanglement_nonce c chain_id' address') in
      same_hashes v.key v'.key hash hash' _ bound' sig parsed binds v.authentic
        (subst (λ s. Authentic c v'.key hash' bound' s) sigs v'.authentic)

  module _ (laws : CrateLaws c) where
    -- Changing any unsigned field of a transaction from which a sender is recovered, and keeping the
    -- signature and the public key, makes recovery fail with an error. Both transactions have fields in
    -- the ranges of their types, Keccak-256 does not collide on the two, and no ML-DSA signature
    -- verifies under one key for both hashes.
    pub recover_sender_tampered :
        (tx tx' : BlackChainTxType) (address : Bytes)
        → IsValid tx
        → IsValid tx'
        → recover_sender c tx ≡ ok address
        → tx'.pqc_signature ≡ tx.pqc_signature
        → tx'.pub_key ≡ tx.pub_key
        → unsigned tx ≢ unsigned tx'
        → NoCollision c tx tx'
        → BindsMessage c.ml_dsa (signature_hash c tx) (signature_hash c tx')
        → (e : CryptoError) × (recover_sender c tx' ≡ err e)
    recover_sender_tampered tx tx' address valid valid' h same_sig same_pk differ no_collision
          binds =
        elim (outcome_cases (recover_sender c tx') (recover_sender-Returns c laws tx')) [
          | inl failed ↦ failed
          | inr (address', h') ↦
              let (sig, key, has_sig, has_key, _, _, _, good) =
                (recover_sender_iff c tx address valid.chain_id_u64).0 h in
              let (sig', key', has_sig', has_key', _, _, _, good') =
                (recover_sender_iff c tx' address' valid'.chain_id_u64).0 h' in
              let sigs : sig' ≡ sig = some-injective (sym has_sig' ∙ same_sig ∙ has_sig) in
              let keys : key' ≡ key = some-injective (sym has_key' ∙ same_pk ∙ has_key) in
              let hashes =
                same_hashes-VerifiesAs (signature_hash c tx) (signature_hash c tx') tx.chain_id
                  tx'.chain_id key sig sig' key' address address' sigs keys binds good good' in
              absurd
                (differ ((signature_hash_iff c laws tx tx' valid valid' no_collision).0 hashes))
        ]

    abbrev pub swapped : BlackChainTxType → Bytes → BlackChainTxType
    swapped tx key = record tx { pub_key = some key }

    same_hash :
        (tx : BlackChainTxType) (key : Bytes)
        → signature_hash c (swapped tx key) ≡ signature_hash c tx
    unfolding signature_hash unsigned
    same_hash tx key = refl

    -- The keys of two authentic readings of one composite for one hash.
    same_dil_key :
        (pk pk' : BlackChainPublicKey) (hash bound bound' sig : Bytes)
        (d d' : c.ml_dsa.VerifyingKey)
        → Dilithium.public_from_bytes c.ml_dsa pk.dilithium ≡ ok d
        → Dilithium.public_from_bytes c.ml_dsa pk'.dilithium ≡ ok d'
        → BindsKey c.ml_dsa d d'
        → Authentic c pk hash bound sig
        → Authentic c pk' hash bound' sig
        → d ≡ d'
    same_dil_key pk pk' hash bound bound' sig d d' parsed parsed' binds a b =
        let k : a.dil_key ≡ d = ok-injective (sym a.dil_parses ∙ parsed) in
        let k' : b.dil_key ≡ d' = ok-injective (sym b.dil_parses ∙ parsed') in
        same_key c.ml_dsa d d' hash a.dil_sig binds
          (subst (λ x. Dilithium.verify_internal c.ml_dsa x hash a.dil_sig ≡ ok tt) k
            a.dil_verifies)
          (subst (λ x. Dilithium.verify_internal c.ml_dsa x hash a.dil_sig ≡ ok tt) k'
            (subst (λ s. Dilithium.verify_internal c.ml_dsa b.dil_key hash s ≡ ok tt)
              (sym (same_dil c pk pk' hash hash bound bound' sig a b)) b.dil_verifies))

    -- Putting a public key with another ML-DSA part into a transaction from which a sender is recovered
    -- makes recovery fail with an error, if no ML-DSA signature verifies under both keys.
    pub recover_sender-swapped :
        (tx : BlackChainTxType) (address key_bytes key_bytes' : Bytes)
        (pk pk' : BlackChainPublicKey) (d d' : c.ml_dsa.VerifyingKey)
        → IsU64 tx.chain_id
        → recover_sender c tx ≡ ok address
        → tx.pub_key ≡ some key_bytes
        → from_bytes c key_bytes ≡ ok pk
        → from_bytes c key_bytes' ≡ ok pk'
        → Dilithium.public_from_bytes c.ml_dsa pk.dilithium ≡ ok d
        → Dilithium.public_from_bytes c.ml_dsa pk'.dilithium ≡ ok d'
        → d ≢ d'
        → BindsKey c.ml_dsa d d'
        → (e : CryptoError) × (recover_sender c (swapped tx key_bytes') ≡ err e)
    recover_sender-swapped tx address key_bytes key_bytes' pk pk' d d' small h present made made'
          parsed parsed' differ binds =
        let tx' = swapped tx key_bytes' in
        elim (outcome_cases (recover_sender c tx') (recover_sender-Returns c laws tx')) [
          | inl failed ↦ failed
          | inr (address', h') ↦
              let (sig, key, has_sig, has_key, _, _, _, v) =
                (recover_sender_iff c tx address small).0 h in
              let (sig', key', has_sig', has_key', _, _, _, v') =
                (recover_sender_iff c tx' address' small).0 h' in
              let sigs : sig' ≡ sig = some-injective (sym has_sig' ∙ has_sig) in
              let first : v.key ≡ pk = ok-injective (
                sym v.key_parses
                ∙ ap (from_bytes c) (some-injective (sym has_key ∙ present))
                ∙ made) in
              let second : v'.key ≡ pk' =
                ok-injective
                  (sym v'.key_parses ∙ ap (from_bytes c) (sym (some-injective has_key')) ∙ made') in
              let bound' =
                compute_h_combined c v'.key (compute_entanglement_nonce c tx.chain_id address') in
              absurd (
                differ (
                  same_dil_key v.key v'.key (signature_hash c tx) _ bound' sig d d'
                    (ap (λ k. Dilithium.public_from_bytes c.ml_dsa k.dilithium) first ∙ parsed)
                    (ap (λ k. Dilithium.public_from_bytes c.ml_dsa k.dilithium) second ∙ parsed')
                    binds v.authentic
                    (subst (λ s. Authentic c v'.key (signature_hash c tx) bound' s) sigs
                      (subst (λ x. Authentic c v'.key x bound' sig') (same_hash tx key_bytes')
                        v'.authentic))))
        ]
