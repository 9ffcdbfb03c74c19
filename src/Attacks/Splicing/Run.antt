-- ===== src/Attacks/Splicing/Run.antt =====
-- Composites with a part of another identity are refused (src/attack_vectors.rs, section B;
-- src/crypto.rs).
use mathlib.Core.Path.{subst}
use blackchain_crypto_lib_ru.Attacks.{wallet, tagged_seed, write_slice}
use blackchain_crypto_lib_ru.Attacks.Malleation.Parts.{write_slice_middle}
use blackchain_crypto_lib_ru.Attacks.Splicing.{
  spliced, attack_splice_mldsa_subsig_from_other_identity,
}
use blackchain_crypto_lib_ru.Base.{
  ◌≡◌, ◌≢◌, refl, ap, sym, ◌∙◌, true, inl, inr, [], ◌++◌, Bytes, codes, ok, err, ok-injective,
  slice, slice_front, take, take-append, arith,
}
use blackchain_crypto_lib_ru.Base.Returns.{outcome_cases}
use blackchain_crypto_lib_ru.Crates.{Crates}
use blackchain_crypto_lib_ru.Crates.Laws.{CrateLaws}
use blackchain_crypto_lib_ru.Crypto.Checks.{Authentic, verify_message_iff, authentic}
use blackchain_crypto_lib_ru.Crypto.PrivateKey.{BlackChainPrivateKey, generate}
use blackchain_crypto_lib_ru.Crypto.PublicKey.{BlackChainPublicKey, verify_message}
use blackchain_crypto_lib_ru.Crypto.Returns.{verify_message-Returns}
use blackchain_crypto_lib_ru.Crypto.RoundTrip.{verify_message-sign_message}
use blackchain_crypto_lib_ru.Dilithium
use blackchain_crypto_lib_ru.Error.{CryptoError}
use blackchain_crypto_lib_ru.Transaction.Signing.Binding.{BindsKey, same_key}

module _ (c : Crates) (laws : CrateLaws c) where
  -- The ML-DSA part of one authentic composite in front of the other parts of another.
  spliced_lem :
      (pk_a pk_b : BlackChainPublicKey) (hash bound_a bound_b sig_a sig_b : Bytes)
      (a : Authentic c pk_a hash bound_a sig_a) (b : Authentic c pk_b hash bound_b sig_b)
      → spliced 0 4627 sig_b sig_a ≡ ok (b.dil_sig ++ (a.p521_sig ++ a.ed448_sig))
  unfolding spliced
  spliced_lem pk_a pk_b hash bound_a bound_b sig_a sig_b a b =
      let cut : slice {E = CryptoError} 0 4627 sig_b ≡ ok b.dil_sig =
        subst (λ s. slice {E = CryptoError} 0 4627 s ≡ ok b.dil_sig) (sym b.splits)
          (slice_front 4627 b.dil_sig (b.p521_sig ++ b.ed448_sig) b.length_dil) in
      let written : write_slice 0 4627 b.dil_sig sig_a
          ≡ ok (b.dil_sig ++ (a.p521_sig ++ a.ed448_sig)) =
        subst (λ s. write_slice 0 4627 b.dil_sig s ≡ ok (b.dil_sig ++ (a.p521_sig ++ a.ed448_sig)))
          (sym a.splits)
          (write_slice_middle 0 4627 [] a.dil_sig (a.p521_sig ++ a.ed448_sig) b.dil_sig refl
            (omega (arith, a.length_dil)) (b.length_dil ∙ sym a.length_dil)) in
      rw (cut, written) refl

  -- The ML-DSA keys of two composites with one ML-DSA part for one hash.
  same_dil_part :
      (pk_a pk_b : BlackChainPublicKey) (hash bound_a bound_b sig_b forged : Bytes)
      (d_a d_b : c.ml_dsa.VerifyingKey)
      → Dilithium.public_from_bytes c.ml_dsa pk_a.dilithium ≡ ok d_a
      → Dilithium.public_from_bytes c.ml_dsa pk_b.dilithium ≡ ok d_b
      → BindsKey c.ml_dsa d_a d_b
      → (f : Authentic c pk_a hash bound_a forged) (b : Authentic c pk_b hash bound_b sig_b)
      → f.dil_sig ≡ b.dil_sig
      → d_a ≡ d_b
  same_dil_part pk_a pk_b hash bound_a bound_b sig_b forged d_a d_b parsed_a parsed_b binds f b
        same =
      let k : f.dil_key ≡ d_a = ok-injective (sym f.dil_parses ∙ parsed_a) in
      let k' : b.dil_key ≡ d_b = ok-injective (sym b.dil_parses ∙ parsed_b) in
      same_key c.ml_dsa d_a d_b hash b.dil_sig binds
        (subst (λ x. Dilithium.verify_internal c.ml_dsa x hash b.dil_sig ≡ ok tt) k
          (subst (λ s. Dilithium.verify_internal c.ml_dsa f.dil_key hash s ≡ ok tt) same
            f.dil_verifies))
        (subst (λ x. Dilithium.verify_internal c.ml_dsa x hash b.dil_sig ≡ ok tt) k' b.dil_verifies)

  -- Putting the ML-DSA part of one signer's accepted signature of a message into another signer's
  -- accepted signature of it makes it refused under the other's key, if no ML-DSA signature verifies
  -- under both of their different keys.
  pub verify_message-spliced :
      (pk_a pk_b : BlackChainPublicKey) (message sig_a sig_b : Bytes)
      (d_a d_b : c.ml_dsa.VerifyingKey)
      → verify_message c pk_a message sig_a ≡ ok true
      → verify_message c pk_b message sig_b ≡ ok true
      → Dilithium.public_from_bytes c.ml_dsa pk_a.dilithium ≡ ok d_a
      → Dilithium.public_from_bytes c.ml_dsa pk_b.dilithium ≡ ok d_b
      → d_a ≢ d_b
      → BindsKey c.ml_dsa d_a d_b
      → (forged : Bytes) × (e : CryptoError) × (spliced 0 4627 sig_b sig_a ≡ ok forged)
        × (verify_message c pk_a message forged ≡ err e)
  unfolding verify_message
  verify_message-spliced pk_a pk_b message sig_a sig_b d_a d_b h_a h_b parsed_a parsed_b differ
        binds =
      let a = (verify_message_iff c pk_a message sig_a).0 h_a in
      let b = (verify_message_iff c pk_b message sig_b).0 h_b in
      let forged = b.dil_sig ++ (a.p521_sig ++ a.ed448_sig) in
      let made = spliced_lem pk_a pk_b _ _ _ sig_a sig_b a b in
      elim (outcome_cases (verify_message c pk_a message forged)
        (verify_message-Returns c pk_a message forged)) [
          | inl (e, failed) ↦ (forged, e, made, failed)
          | inr (answer, answered) ↦
              let f = (authentic c pk_a _ _ forged true answer answered).0 in
              let same : f.dil_sig ≡ b.dil_sig =
                sym (take-append 4627 f.dil_sig (f.p521_sig ++ f.ed448_sig) f.length_dil)
                ∙ ap (take 4627) (sym f.splits)
                ∙ take-append 4627 b.dil_sig (a.p521_sig ++ a.ed448_sig) b.length_dil in
              absurd (
                differ (
                  same_dil_part pk_a pk_b _ _ _ sig_b forged d_a d_b parsed_a parsed_b binds f b
                    same))
        ]

  attack_splice_mldsa_lem :
      (nonce_a nonce_b : Bytes) (sk_a sk_b : BlackChainPrivateKey) (pk_a pk_b : BlackChainPublicKey)
      (d_a d_b : c.ml_dsa.VerifyingKey)
      → generate c (tagged_seed 64 0 12) ≡ ok (sk_a, pk_a)
      → generate c (tagged_seed 64 0 13) ≡ ok (sk_b, pk_b)
      → Dilithium.public_from_bytes c.ml_dsa pk_a.dilithium ≡ ok d_a
      → Dilithium.public_from_bytes c.ml_dsa pk_b.dilithium ≡ ok d_b
      → d_a ≢ d_b
      → BindsKey c.ml_dsa d_a d_b
      → attack_splice_mldsa_subsig_from_other_identity c nonce_a nonce_b ≡ ok tt
  unfolding attack_splice_mldsa_subsig_from_other_identity wallet
  attack_splice_mldsa_lem nonce_a nonce_b sk_a sk_b pk_a pk_b d_a d_b made_a made_b parsed_a
        parsed_b differ binds =
      let msg = codes "mldsa binding probe" in
      let (sig_a, signed_a, _, verified_a) =
        verify_message-sign_message c laws (tagged_seed 64 0 12) msg nonce_a sk_a pk_a made_a in
      let (sig_b, signed_b, _, verified_b) =
        verify_message-sign_message c laws (tagged_seed 64 0 13) msg nonce_b sk_b pk_b made_b in
      let (forged, e, made, refused) =
        verify_message-spliced pk_a pk_b msg sig_a sig_b d_a d_b verified_a verified_b parsed_a
          parsed_b differ binds in
      rw (made_a, made_b, signed_a, signed_b, made, refused) refl
