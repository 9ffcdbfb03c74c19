-- ===== src/Attacks/Malleation/Run.antt =====
-- The attacks of section A of src/attack_vectors.rs end without a failed assertion.
use blackchain_crypto_lib_ru.Attacks.{Scalars, wallet, sample_tx, tagged_seed}
use blackchain_crypto_lib_ru.Attacks.Malleation.{
  attack_p521_high_s_twin_is_rejected, p521_attack,
  attack_composite_message_p521_malleation_rejected,
  attack_transaction_p521_malleation_breaks_recovery,
}
use blackchain_crypto_lib_ru.Attacks.Malleation.Parts.{
  ScalarLaws, p521_high_s_twin_lem, verify_message-malleated, recover_sender-malleated_tx,
}
use blackchain_crypto_lib_ru.Base.{
  ◌≡◌, ◌≢◌, refl, ap, sym, ◌∙◌, none, some, inr, Bytes, codes, ok, bytes_ne, bytes_eq_iff, slice,
  slice_front, slice_back, length, arith,
}
use blackchain_crypto_lib_ru.Crates.{Crates, Entropy, P521Ecdsa}
use blackchain_crypto_lib_ru.Crates.Laws.{CrateLaws, P521Laws}
use blackchain_crypto_lib_ru.Crypto.PrivateKey.{BlackChainPrivateKey, generate}
use blackchain_crypto_lib_ru.Crypto.PublicKey.{BlackChainPublicKey}
use blackchain_crypto_lib_ru.Crypto.RoundTrip.{verify_message-sign_message}
use blackchain_crypto_lib_ru.Error.{CryptoError}
use blackchain_crypto_lib_ru.P521
use blackchain_crypto_lib_ru.P521.Keys.{sign_msg_low, verify_sig_high, verify_sig-public_key_typed}
use blackchain_crypto_lib_ru.Transaction.Signing.Envelope.{signed-IsU64}
use blackchain_crypto_lib_ru.Transaction.Signing.RoundTrip.{recover_sender-sign_transaction}

module _ (p : P521Ecdsa) (laws : P521Laws p) (scalars : Scalars p) (twins : ScalarLaws p scalars)
    (s t : p.Signature) (low : p.normalize_s s ≡ none) (high : p.normalize_s t ≡ some s)
    (same_r : scalars.r_bytes t ≡ scalars.r_bytes s) where
  differ : p.signature_to_bytes t ≢ p.signature_to_bytes s
  differ same =
      let read : ◌≡◌ {A = _} (inr t) (inr s) =
        sym (laws.signature_from_slice-signature_to_bytes t)
        ∙ ap p.signature_from_slice same
        ∙ laws.signature_from_slice-signature_to_bytes s in
      cc

  differ_s : scalars.s_bytes t ≢ scalars.s_bytes s
  differ_s same =
      differ
        (twins.signature_to_bytes_lem t ∙ cc (same, same_r) ∙ sym (twins.signature_to_bytes_lem s))

  r_part :
      (x : p.Signature)
      → slice {E = CryptoError} 0 66 (p.signature_to_bytes x) ≡ ok (scalars.r_bytes x)
  r_part x =
      rw (twins.signature_to_bytes_lem x)
        (slice_front 66 (scalars.r_bytes x) (scalars.s_bytes x) (twins.length-r_bytes x))

  s_part :
      (x : p.Signature)
      → slice {E = CryptoError} 66 (length (p.signature_to_bytes x)) (p.signature_to_bytes x)
        ≡ ok (scalars.s_bytes x)
  s_part x =
      rw (twins.signature_to_bytes_lem x)
        (slice_back 66 (scalars.r_bytes x) (scalars.s_bytes x) (twins.length-r_bytes x))

module _ (c : Crates) (laws : CrateLaws c) (scalars : Scalars c.ecdsa)
    (twins : ScalarLaws c.ecdsa scalars) where
  twin_refused :
      (sk : P521.PrivateKey c.ecdsa) (msg nonce : Bytes)
      → p521_attack c scalars
          (P521.public_key_typed c.ecdsa sk)
          msg
          (P521.sign_msg c.ecdsa sk msg nonce)
        ≡ ok tt
  unfolding p521_attack
  twin_refused sk msg nonce =
      let (s, signed, low) = sign_msg_low c.ecdsa laws.p521_laws sk msg nonce in
      let pk = P521.public_key_typed c.ecdsa sk in
      let accepted = (verify_sig-public_key_typed c.ecdsa laws.p521_laws sk msg nonce).1 in
      let read = laws.p521_laws.signature_from_slice-signature_to_bytes in
      let (t, made, same_r, high) =
        p521_high_s_twin_lem c.ecdsa laws.p521_laws scalars twins s (c.ecdsa.signature_to_bytes s)
          (read s) low in
      rw
        (
          accepted,
          signed,
          made,
          bytes_ne _ _ (differ c.ecdsa laws.p521_laws scalars twins s t low high same_r),
          r_part c.ecdsa laws.p521_laws scalars twins s t low high same_r t,
          r_part c.ecdsa laws.p521_laws scalars twins s t low high same_r s,
          same_r,
          (bytes_eq_iff (scalars.r_bytes s) (scalars.r_bytes s)).1 refl,
          s_part c.ecdsa laws.p521_laws scalars twins s t low high same_r t,
          s_part c.ecdsa laws.p521_laws scalars twins s t low high same_r s,
          bytes_ne _ _ (differ_s c.ecdsa laws.p521_laws scalars twins s t low high same_r),
          verify_sig_high c.ecdsa pk msg (c.ecdsa.signature_to_bytes t) t s (read t) high,
        )
        refl

  attack_p521_high_s_twin_lem :
      (entropy : Entropy) (nonce : Bytes)
      → attack_p521_high_s_twin_is_rejected c scalars entropy nonce ≡ ok tt
  unfolding attack_p521_high_s_twin_is_rejected P521.generate_key P521.public_key_typed
  attack_p521_high_s_twin_lem entropy nonce =
      twin_refused (c.ecdsa.random entropy) (codes "malleability probe") nonce

  module _ (nonce : Bytes) (sk : BlackChainPrivateKey) (pk : BlackChainPublicKey) where
    attack_composite_message_lem :
        generate c (tagged_seed 64 0 1) ≡ ok (sk, pk)
        → attack_composite_message_p521_malleation_rejected c scalars nonce ≡ ok tt
    unfolding attack_composite_message_p521_malleation_rejected wallet
    attack_composite_message_lem made =
        let msg = codes "composite malleability" in
        let (sig, signed, sized, verified) =
          verify_message-sign_message c laws (tagged_seed 64 0 1) msg nonce sk pk made in
        let (forged, malleable, refused) =
          verify_message-malleated c laws scalars twins pk msg sig verified in
        rw (made, signed, verified, malleable, refused) refl

    attack_transaction_lem :
        generate c (tagged_seed 64 0 2) ≡ ok (sk, pk)
        → attack_transaction_p521_malleation_breaks_recovery c scalars nonce ≡ ok tt
    unfolding attack_transaction_p521_malleation_breaks_recovery wallet
    attack_transaction_lem made =
        let (signed, address, signs, same, found, recovered) =
          recover_sender-sign_transaction c laws (tagged_seed 64 0 2) nonce sk pk sample_tx made
            (omega arith) in
        let (forged, malleable, refused) =
          recover_sender-malleated_tx c laws scalars twins signed address
            (signed-IsU64 sample_tx signed same (omega arith)) recovered in
        rw
          (made, found, signs, recovered, (bytes_eq_iff address address).1 refl, malleable, refused)
          refl
