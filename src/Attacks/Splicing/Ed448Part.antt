-- ===== src/Attacks/Splicing/Ed448Part.antt =====
-- Composites with the Ed448 part of another identity (src/attack_vectors.rs, section B).
use mathlib.Core.Path.{subst}
use blackchain_crypto_lib_ru.Attacks.{wallet, tagged_seed, write_slice}
use blackchain_crypto_lib_ru.Attacks.Malleation.Parts.{write_slice_middle}
use blackchain_crypto_lib_ru.Attacks.Splicing.{
  spliced, attack_splice_ed448_subsig_from_other_identity,
}
use blackchain_crypto_lib_ru.Base.{
  ◌≡◌, refl, ap, sym, ◌∙◌, true, none, [], ◌∷◌, ◌++◌, append-nil, append_assoc, Bytes, codes, ok,
  err, slice, slice_middle, length, length-append, arith,
}
use blackchain_crypto_lib_ru.Crates.{Crates}
use blackchain_crypto_lib_ru.Crates.Laws.{CrateLaws}
use blackchain_crypto_lib_ru.Crypto.Checks.{Authentic, checks_ed448_fails, verify_message_iff}
use blackchain_crypto_lib_ru.Crypto.PrivateKey.{BlackChainPrivateKey, generate}
use blackchain_crypto_lib_ru.Crypto.PublicKey.{BlackChainPublicKey, verify_message, failed}
use blackchain_crypto_lib_ru.Crypto.RoundTrip.{verify_message-sign_message}
use blackchain_crypto_lib_ru.Ed448
use blackchain_crypto_lib_ru.Error.{CryptoError, display}

module _ (c : Crates) where
  open c use {hashes, ed448_rust, goldilocks}

  -- What verifies under the key of one identity for its binding does not under that of the other.
  abbrev pub Separate :
      (hash bound_a bound_b : Bytes) → BlackChainPublicKey → BlackChainPublicKey → Type 0
  Separate hash bound_a bound_b pk_a pk_b =
      (key_a key_b : Ed448.PublicKey hashes ed448_rust goldilocks) (sig : Bytes)
      → Ed448.public_from_bytes hashes ed448_rust goldilocks pk_a.ed448 ≡ ok key_a
      → Ed448.public_from_bytes hashes ed448_rust goldilocks pk_b.ed448 ≡ ok key_b
      → Ed448.verify_sig hashes ed448_rust goldilocks key_b (hash ++ (bound_b ++ 2 ∷ [])) sig none
        ≡ ok tt
      → (e : CryptoError) × (Ed448.verify_sig hashes ed448_rust goldilocks key_a
            (hash ++ (bound_a ++ 2 ∷ [])) sig none
          ≡ err e)

  -- The two leading parts, and the last one as a middle part with nothing behind it.
  last_apart : (x y z : Bytes) → x ++ (y ++ z) ≡ (x ++ y) ++ (z ++ [])
  last_apart x y z = sym (append_assoc x y z) ∙ ap (◌++◌ (x ++ y)) (sym (append-nil z))

  spliced_last :
      (pk_a pk_b : BlackChainPublicKey) (hash bound_a bound_b sig_a sig_b : Bytes)
      (a : Authentic c pk_a hash bound_a sig_a) (b : Authentic c pk_b hash bound_b sig_b)
      → spliced 4759 4873 sig_b sig_a ≡ ok (a.dil_sig ++ (a.p521_sig ++ b.ed448_sig))
  unfolding spliced
  spliced_last pk_a pk_b hash bound_a bound_b sig_a sig_b a b =
      let front_a : length (a.dil_sig ++ a.p521_sig) ≡ 4759 =
        omega (arith, length-append a.dil_sig a.p521_sig, a.length_dil, a.length_p521) in
      let front_b : length (b.dil_sig ++ b.p521_sig) ≡ 4759 =
        omega (arith, length-append b.dil_sig b.p521_sig, b.length_dil, b.length_p521) in
      let cut : slice {E = CryptoError} 4759 4873 sig_b ≡ ok b.ed448_sig =
        subst (λ s. slice {E = CryptoError} 4759 4873 s ≡ ok b.ed448_sig)
          (sym (b.splits ∙ last_apart b.dil_sig b.p521_sig b.ed448_sig))
          (slice_middle 4759 4873 (b.dil_sig ++ b.p521_sig) b.ed448_sig [] front_b
            (omega (arith, b.length_ed448))) in
      let written : write_slice 4759 4873 b.ed448_sig sig_a
          ≡ ok ((a.dil_sig ++ a.p521_sig) ++ (b.ed448_sig ++ [])) =
        subst
          (λ s.
            write_slice 4759 4873 b.ed448_sig s
            ≡ ok ((a.dil_sig ++ a.p521_sig) ++ (b.ed448_sig ++ [])))
          (sym (a.splits ∙ last_apart a.dil_sig a.p521_sig a.ed448_sig))
          (write_slice_middle 4759 4873 (a.dil_sig ++ a.p521_sig) a.ed448_sig [] b.ed448_sig front_a
            (omega (arith, a.length_ed448)) (b.length_ed448 ∙ sym a.length_ed448)) in
      rw cut (written ∙ ap ok (sym (last_apart a.dil_sig a.p521_sig b.ed448_sig)))

  spliced_refused :
      (pk_a pk_b : BlackChainPublicKey) (message sig_a sig_b : Bytes)
      → verify_message c pk_a message sig_a ≡ ok true
      → verify_message c pk_b message sig_b ≡ ok true
      → ((hash bound_a bound_b : Bytes) → Separate hash bound_a bound_b pk_a pk_b)
      → (forged : Bytes) × (e : CryptoError) × (spliced 4759 4873 sig_b sig_a ≡ ok forged)
        × (verify_message c pk_a message forged
            ≡ err (failed "Ed448 verification failed: " (display c.rlp.error_text e)))
  unfolding verify_message
  spliced_refused pk_a pk_b message sig_a sig_b verified_a verified_b separate =
      let a = (verify_message_iff c pk_a message sig_a).0 verified_a in
      let b = (verify_message_iff c pk_b message sig_b).0 verified_b in
      let (e, apart) =
        separate _ _ _ a.ed448_key b.ed448_key b.ed448_sig a.ed448_parses b.ed448_parses
          b.ed448_verifies in
      (
        a.dil_sig ++ (a.p521_sig ++ b.ed448_sig),
        e,
        spliced_last pk_a pk_b _ _ _ sig_a sig_b a b,
        checks_ed448_fails c pk_a _ _ b.ed448_sig sig_a true e a b.length_ed448 apart,
      )

  attack_splice_ed448_lem :
      CrateLaws c
      → (nonce_a nonce_b : Bytes) (sk_a sk_b : BlackChainPrivateKey)
        (pk_a pk_b : BlackChainPublicKey)
      → generate c (tagged_seed 64 0 10) ≡ ok (sk_a, pk_a)
      → generate c (tagged_seed 64 0 11) ≡ ok (sk_b, pk_b)
      → ((hash bound_a bound_b : Bytes) → Separate hash bound_a bound_b pk_a pk_b)
      → attack_splice_ed448_subsig_from_other_identity c nonce_a nonce_b ≡ ok tt
  unfolding attack_splice_ed448_subsig_from_other_identity wallet
  attack_splice_ed448_lem laws nonce_a nonce_b sk_a sk_b pk_a pk_b made_a made_b separate =
      let msg = codes "splice probe" in
      let (sig_a, signed_a, _, verified_a) =
        verify_message-sign_message c laws (tagged_seed 64 0 10) msg nonce_a sk_a pk_a made_a in
      let (sig_b, signed_b, _, verified_b) =
        verify_message-sign_message c laws (tagged_seed 64 0 11) msg nonce_b sk_b pk_b made_b in
      let (forged, e, made, refused) =
        spliced_refused pk_a pk_b msg sig_a sig_b verified_a verified_b separate in
      rw (made_a, made_b, signed_a, signed_b, made, refused) refl
