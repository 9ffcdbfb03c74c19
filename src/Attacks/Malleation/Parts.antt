-- ===== src/Attacks/Malleation/Parts.antt =====
-- A composite signature or a transaction with the twin of its P-521 part is refused
-- (src/attack_vectors.rs, section A; src/mdecc/p521.rs, src/crypto.rs, src/transaction/signing.rs).
use mathlib.Core.Path.{subst}
use blackchain_crypto_lib_ru.Attacks.{Scalars, p521_high_s_twin, write_slice}
use blackchain_crypto_lib_ru.Attacks.Malleation.{malleated, malleated_tx}
use blackchain_crypto_lib_ru.Base.{
  ℕ, ◌+◌, ◌≡◌, refl, ap, sym, ◌∙◌, true, none, some, inr, [], ◌∷◌, ◌++◌, Bytes, plain, ok, err,
  length, length-append, slice, slice_middle, drop, take-append, drop-append, append_assoc,
  copy_from_slice_exact, arith,
}
use blackchain_crypto_lib_ru.Crates.{Crates, P521Ecdsa}
use blackchain_crypto_lib_ru.Crates.Laws.{CrateLaws, P521Laws}
use blackchain_crypto_lib_ru.Crypto.Checks.{
  Authentic, checks, checks_p521_fails, verify_message_iff,
}
use blackchain_crypto_lib_ru.Crypto.PublicKey.{BlackChainPublicKey, verify_message, failed}
use blackchain_crypto_lib_ru.Error.{CryptoError, signature_error, display}
use blackchain_crypto_lib_ru.P521
use blackchain_crypto_lib_ru.P521.Keys.{verify_sig_iff, verify_sig_high}
use blackchain_crypto_lib_ru.Transaction.Signing.{
  recover_sender, signature_hash, unsigned, compute_h_combined, compute_entanglement_nonce,
}
use blackchain_crypto_lib_ru.Transaction.Signing.Recovery.{
  recover_sender_iff, recover_sender-checks,
}
use blackchain_crypto_lib_ru.Transaction.Types.{BlackChainTxType, IsU64}

-- What is documented of the scalars: a signature is the bytes of r before those of s, and the
-- signature with -s, which is well formed, has the low-S signature as its low-S form.
pub record ScalarLaws (p : P521Ecdsa) (scalars : Scalars p) : Type 0 where
  pub signature_to_bytes_lem :
      (s : p.Signature) → p.signature_to_bytes s ≡ scalars.r_bytes s ++ scalars.s_bytes s
  pub length-r_bytes : (s : p.Signature) → length (scalars.r_bytes s) ≡ 66
  pub from_scalars_neg :
      (s : p.Signature)
      → (t : p.Signature) × (scalars.from_scalars (scalars.r_bytes s) (scalars.neg_s_bytes s)
          ≡ inr t)
        × (scalars.r_bytes t ≡ scalars.r_bytes s)
        × (p.normalize_s s ≡ none → p.normalize_s t ≡ some s)

abbrev pub high_s_refused : CryptoError
high_s_refused = signature_error (plain "non-canonical high-S P-521 signature rejected")

module _ (p : P521Ecdsa) (laws : P521Laws p) (scalars : Scalars p)
    (twins : ScalarLaws p scalars) where
  -- The twin of a low-S signature, which it has as its low-S form.
  pub p521_high_s_twin_lem :
      (s : p.Signature) (signature : Bytes)
      → p.signature_from_slice signature ≡ inr s
      → p.normalize_s s ≡ none
      → (twin : p.Signature) × (p521_high_s_twin p scalars signature
          ≡ ok (p.signature_to_bytes twin))
        × (scalars.r_bytes twin ≡ scalars.r_bytes s)
        × (p.normalize_s twin ≡ some s)
  unfolding p521_high_s_twin
  p521_high_s_twin_lem s signature parsed low =
      let (twin, made, same_r, high) = twins.from_scalars_neg s in
      (twin, rw (parsed, made) refl, same_r, high low)

  -- Of every P-521 signature that is accepted the twin can be made, and the crate verifies it as well;
  -- but `verify_sig` refuses it for its high S.
  pub verify_sig-p521_high_s_twin :
      (pk : P521.PublicKey p) (msg signature : Bytes)
      → P521.verify_sig p pk msg signature ≡ ok tt
      → (twin : p.Signature) × (p521_high_s_twin p scalars signature
          ≡ ok (p.signature_to_bytes twin))
        × (p.verify pk msg twin ≡ inr tt)
        × (P521.verify_sig p pk msg (p.signature_to_bytes twin) ≡ err high_s_refused)
  verify_sig-p521_high_s_twin pk msg signature h =
      let a = (verify_sig_iff p pk msg signature).0 h in
      let (twin, made, same_r, high) = p521_high_s_twin_lem a.sig signature a.parses a.low_s in
      (
        twin,
        made,
        laws.verify-normalize_s pk msg twin a.sig high ∙ a.verifies,
        verify_sig_high p pk msg (p.signature_to_bytes twin) twin a.sig
            (laws.signature_from_slice-signature_to_bytes twin) high,
      )

-- Writing over the middle part of three.
pub write_slice_middle :
    (n m : ℕ) (a b d patch : Bytes)
    → length a ≡ n
    → n + length b ≡ m
    → length patch ≡ length b
    → write_slice n m patch (a ++ (b ++ d)) ≡ ok (a ++ (patch ++ d))
unfolding write_slice
write_slice_middle n m a b d patch front middle same =
    let rest : drop m (a ++ (b ++ d)) ≡ d =
      subst (λ l. drop m l ≡ d) (append_assoc a b d)
        (drop-append m (a ++ b) d (omega (arith, length-append a b))) in
    rw
      (
        slice_middle {E = CryptoError} n m a b d front middle,
        copy_from_slice_exact {E = CryptoError} (length b) patch same,
        take-append n a (b ++ d) front,
        rest,
      )
      refl

-- What `checks` says of the composite with the twin.
abbrev pub malleated_refused : Crates → CryptoError
malleated_refused c = failed "P-521 verification failed: " (display c.rlp.error_text high_s_refused)

module _ (c : Crates) (laws : CrateLaws c) (scalars : Scalars c.ecdsa)
    (twins : ScalarLaws c.ecdsa scalars) where
  module _ (pk : BlackChainPublicKey) (hash bound sig : Bytes)
      (a : Authentic c pk hash bound sig) where
    abbrev twin_of :
        (twin : c.ecdsa.Signature) × (p521_high_s_twin c.ecdsa scalars a.p521_sig
          ≡ ok (c.ecdsa.signature_to_bytes twin))
        × (c.ecdsa.verify a.p521_key (hash ++ (bound ++ 1 ∷ [])) twin ≡ inr tt)
        × (P521.verify_sig c.ecdsa a.p521_key
              (hash ++ (bound ++ 1 ∷ []))
              (c.ecdsa.signature_to_bytes twin)
            ≡ err high_s_refused)
    twin_of =
        verify_sig-p521_high_s_twin c.ecdsa laws.p521_laws scalars twins a.p521_key _ a.p521_sig
          a.p521_verifies

    abbrev forged : Bytes
    forged = a.dil_sig ++ (c.ecdsa.signature_to_bytes twin_of.0 ++ a.ed448_sig)

    malleated_lem : malleated c scalars sig ≡ ok forged
    unfolding malleated
    malleated_lem =
        let whole : slice {E = CryptoError} 4627 4759 sig ≡ ok a.p521_sig =
          subst (λ s. slice {E = CryptoError} 4627 4759 s ≡ ok a.p521_sig) (sym a.splits)
            (slice_middle 4627 4759 a.dil_sig a.p521_sig a.ed448_sig a.length_dil
              (omega (arith, a.length_p521))) in
        let twin = c.ecdsa.signature_to_bytes twin_of.0 in
        let written : write_slice 4627 4759 twin sig ≡ ok forged =
          subst (λ s. write_slice 4627 4759 twin s ≡ ok forged) (sym a.splits)
            (write_slice_middle 4627 4759 a.dil_sig a.p521_sig a.ed448_sig twin a.length_dil
              (omega (arith, a.length_p521))
              (laws.p521_laws.length-signature_to_bytes twin_of.0 ∙ sym a.length_p521)) in
        rw (whole, twin_of.1, written) refl

    pub checks-malleated :
        {A : Type 0} (result : A)
        → (malleated c scalars sig ≡ ok forged)
          × (checks c pk hash bound forged result ≡ err (malleated_refused c))
    checks-malleated result = (
      malleated_lem,
      checks_p521_fails c pk hash bound (c.ecdsa.signature_to_bytes twin_of.0) sig result
          high_s_refused a (laws.p521_laws.length-signature_to_bytes twin_of.0) twin_of.3,
    )

  -- A message signature that is accepted is refused once its P-521 part is replaced by the twin, with the
  -- error of the high S.
  pub verify_message-malleated :
      (pk : BlackChainPublicKey) (message sig : Bytes)
      → verify_message c pk message sig ≡ ok true
      → (forged : Bytes) × (malleated c scalars sig ≡ ok forged)
        × (verify_message c pk message forged ≡ err (malleated_refused c))
  unfolding verify_message
  verify_message-malleated pk message sig h =
      let (made, refused) =
        checks-malleated pk _ _ sig ((verify_message_iff c pk message sig).0 h) true in
      (forged pk _ _ sig ((verify_message_iff c pk message sig).0 h), made, refused)

  abbrev resigned : BlackChainTxType → Bytes → BlackChainTxType
  resigned tx sig = record tx { pqc_signature = some sig }

  same_hash :
      (tx : BlackChainTxType) (sig : Bytes)
      → signature_hash c (resigned tx sig) ≡ signature_hash c tx
  unfolding signature_hash unsigned
  same_hash tx sig = refl

  -- A transaction whose sender is recovered gives the error of the high S once the P-521 part of its
  -- signature is replaced by the twin.
  pub recover_sender-malleated_tx :
      (tx : BlackChainTxType) (address : Bytes)
      → IsU64 tx.chain_id
      → recover_sender c tx ≡ ok address
      → (forged : BlackChainTxType) × (malleated_tx c scalars tx ≡ ok forged)
        × (recover_sender c forged ≡ err (malleated_refused c))
  unfolding malleated_tx
  recover_sender-malleated_tx tx address small h =
      let (sig, key, has_sig, has_key, v_ok, r_ok, s_ok, good) =
        (recover_sender_iff c tx address small).0 h in
      let bound =
        compute_h_combined c good.key (compute_entanglement_nonce c tx.chain_id address) in
      let hash = signature_hash c tx in
      let (made, refused) = checks-malleated good.key hash bound sig good.authentic address in
      let sig' = forged good.key hash bound sig good.authentic in
      (
        resigned tx sig',
        rw (has_sig, made) refl,
        recover_sender-checks c (resigned tx sig') sig' key address good.key small refl has_key v_ok
              r_ok s_ok good.key_parses good.address_derives
            ∙ ap (λ h. checks c good.key h bound sig' address) (same_hash tx sig')
            ∙ refused,
      )
