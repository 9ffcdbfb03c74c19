-- ===== src/Transaction/Signing/RoundTrip.antt =====
-- Signing a transaction followed by the recovery of its sender (src/transaction/signing.rs).
use blackchain_crypto_lib_ru.Base.{
  ℕ, ◌≡◌, refl, ap, sym, ◌∙◌, none, some, [], ◌∷◌, ◌++◌, Bytes, ok, ok-injective, length,
  slice_inside, copy_from_slice_exact, take, drop, length-take, length-drop, arith,
}
use blackchain_crypto_lib_ru.Crates.{Crates}
use blackchain_crypto_lib_ru.Crates.Laws.{CrateLaws}
use blackchain_crypto_lib_ru.Crypto.Checks.{Authentic}
use blackchain_crypto_lib_ru.Crypto.Encoding.{from_bytes-to_bytes, IsKeyPair-IsComposite}
use blackchain_crypto_lib_ru.Crypto.Keys.{IsKeyPair, generate-IsKeyPair}
use blackchain_crypto_lib_ru.Crypto.PrivateKey.{BlackChainPrivateKey, generate}
use blackchain_crypto_lib_ru.Crypto.PublicKey.{
  BlackChainPublicKey, to_bytes, from_bytes, derive_address,
}
use blackchain_crypto_lib_ru.Crypto.RoundTrip.{signed_parts, p521_part, dil_secret, ed448_secret}
use blackchain_crypto_lib_ru.Dilithium
use blackchain_crypto_lib_ru.Ed448
use blackchain_crypto_lib_ru.P521
use blackchain_crypto_lib_ru.Error.{CryptoError}
use blackchain_crypto_lib_ru.Transaction.Signing.{
  compute_entanglement_nonce, compute_h_combined, signature_hash, expected_v, sign_transaction,
  recover_sender, unsigned,
}
use blackchain_crypto_lib_ru.Transaction.Signing.Recovery.{recover_sender_iff, expected_v_lem}
use blackchain_crypto_lib_ru.Transaction.Types.{BlackChainTxType, IsU64}

-- The transaction with its five signature fields filled in.
abbrev enveloped : BlackChainTxType → Bytes → Bytes → BlackChainTxType
enveloped tx sig key = record tx {
  pqc_signature = some sig;
  pub_key = some key;
  v = some (expected_v tx.chain_id);
  r = some 0;
  s = some 0;
}

module _ (c : Crates) (laws : CrateLaws c) where
  open c use {hashes, ml_dsa, ecdsa, ed448_rust, goldilocks}

  -- The binding of a transaction signature, over the nonce of the chain and the address.
  abbrev binding : BlackChainPublicKey → ℕ → Bytes → Bytes
  binding pk chain_id address =
      compute_h_combined c pk (compute_entanglement_nonce c chain_id address)

  module _ (sk : BlackChainPrivateKey) (pk : BlackChainPublicKey) (pair : IsKeyPair c laws sk pk)
      (tx : BlackChainTxType) (address nonce : Bytes)
      (found : derive_address c pk ≡ ok address) where
    abbrev parts :
        let hash = signature_hash c tx in
        let bound = binding pk tx.chain_id address in
        (dil_sig ed448_sig : Bytes) × (Dilithium.sign_internal ml_dsa
            (dil_secret c laws sk pk pair hash bound nonce)
            hash
          ≡ ok dil_sig)
        × (Ed448.sign_msg hashes ed448_rust goldilocks
              (Ed448.Keys.derived hashes ed448_rust goldilocks
                (ed448_secret c laws sk pk pair hash bound nonce))
              (hash ++ (bound ++ 2 ∷ []))
              none
            ≡ ok ed448_sig)
        × Authentic c pk hash bound
            (dil_sig ++ (p521_part c laws sk pk pair hash bound nonce ++ ed448_sig))
    parts =
        signed_parts c laws sk pk pair (signature_hash c tx) (binding pk tx.chain_id address) nonce

    abbrev composite : Bytes
    composite =
        parts.0
        ++ (p521_part c laws sk pk pair (signature_hash c tx) (binding pk tx.chain_id address) nonce
            ++ parts.1)

    sign_transaction_lem :
        sign_transaction c tx sk nonce ≡ ok (enveloped tx composite (to_bytes pk))
    unfolding sign_transaction
    sign_transaction_lem = rw (
      pair.sk_public,
      found,
      pair.sk_dilithium,
      pair.length_dil,
      Dilithium.Keys.private_from_bytes_lem ml_dsa laws.ml_dsa_laws pair.dil_seed pair.length_dil,
      parts.2,
      pair.sk_p521,
      P521.Keys.private_from_bytes-as_bytes ecdsa laws.p521_laws pair.p521_key,
      pair.sk_ed448,
      Ed448.Keys.private_from_bytes_lem hashes ed448_rust goldilocks pair.ed448_seed
          pair.length_ed448,
      parts.3,
    )

    recovers :
        IsU64 tx.chain_id → recover_sender c (enveloped tx composite (to_bytes pk)) ≡ ok address
    unfolding signature_hash unsigned
    recovers small = (recover_sender_iff c (enveloped tx composite (to_bytes pk)) address small).1 (
      composite,
      to_bytes pk,
      refl,
      refl,
      ap some (expected_v_lem tx.chain_id small),
      refl,
      refl,
      record {
        key = pk;
        key_parses = from_bytes-to_bytes c pk (IsKeyPair-IsComposite c laws sk pk pair);
        address_derives = found;
        authentic = parts.4;
      },
    )

  pub derive_address_total :
      (pk : BlackChainPublicKey)
      → (address : Bytes) × (derive_address c pk ≡ ok address) × (length address ≡ 20)
  unfolding derive_address
  derive_address_total pk =
      let hash = hashes.keccak256 (pk.dilithium ++ (pk.p521 ++ pk.ed448)) in
      let whole = laws.hash_laws.length-keccak256 (pk.dilithium ++ (pk.p521 ++ pk.ed448)) in
      let sized : length (take 20 (drop 12 hash)) ≡ 20 =
        length-take 20 (drop 12 hash) (omega (arith, length-drop 12 hash)) in
      (
        take 20 (drop 12 hash),
        rw (
          slice_inside {E = CryptoError} 12 32 hash (omega arith) (omega arith),
          copy_from_slice_exact {E = CryptoError} 20 (take 20 (drop 12 hash)) sized,
        ),
        sized,
      )

  -- The public key that signing writes.
  pub pub_key-sign_transaction :
      (seed nonce : Bytes) (sk : BlackChainPrivateKey) (pk : BlackChainPublicKey)
      (tx signed : BlackChainTxType)
      → generate c seed ≡ ok (sk, pk)
      → sign_transaction c tx sk nonce ≡ ok signed
      → (signed.pub_key ≡ some (to_bytes pk)) × (from_bytes c (to_bytes pk) ≡ ok pk)
  pub_key-sign_transaction seed nonce sk pk tx signed made signs =
      let pair = (generate-IsKeyPair c laws seed sk pk made).1 in
      let (address, found, sized) = derive_address_total pk in
      let same =
        ok-injective (sym signs ∙ sign_transaction_lem sk pk pair tx address nonce found) in
      (ap (λ t. t.pub_key) same, from_bytes-to_bytes c pk (IsKeyPair-IsComposite c laws sk pk pair))

  -- A generated key signs every transaction with a 64-bit chain id: the signed transaction is returned,
  -- it differs in the signature fields alone, and the sender recovered from it is the key's address.
  pub recover_sender-sign_transaction :
      (seed nonce : Bytes) (sk : BlackChainPrivateKey) (pk : BlackChainPublicKey)
      (tx : BlackChainTxType)
      → generate c seed ≡ ok (sk, pk)
      → IsU64 tx.chain_id
      → (signed : BlackChainTxType) × (address : Bytes) × (sign_transaction c tx sk nonce
          ≡ ok signed)
        × (unsigned signed ≡ unsigned tx)
        × (derive_address c pk ≡ ok address)
        × (recover_sender c signed ≡ ok address)
  unfolding unsigned
  recover_sender-sign_transaction seed nonce sk pk tx made small =
      let pair = (generate-IsKeyPair c laws seed sk pk made).1 in
      let (address, found, sized) = derive_address_total pk in
      (
        _,
        address,
        sign_transaction_lem sk pk pair tx address nonce found,
        refl,
        found,
        recovers sk pk pair tx address nonce found small,
      )
