-- ===== src/Transaction/Signing/Binding.antt =====
-- When ML-DSA signatures bind their message and their key (src/dilithium/mod.rs, src/crypto.rs).
use mathlib.Core.Path.{subst}
use blackchain_crypto_lib_ru.Base.{
  ◌≡◌, refl, ap, sym, ◌∙◌, true, false, not, some, [], ◌++◌, ◌==◌, Bytes, ok, err, >>=-eq-ok,
  refuse_if, ok_or, ok_or-eq-ok, Result, Bool, take, take-append, length, if◌then◌else◌,
}
use blackchain_crypto_lib_ru.Crates.{Crates, MlDsa}
use blackchain_crypto_lib_ru.Crypto.Checks.{Authentic}
use blackchain_crypto_lib_ru.Crypto.PublicKey.{BlackChainPublicKey}
use blackchain_crypto_lib_ru.Dilithium

pub some-injective : {A : Type 0} {a b : A} → some a ≡ some b → a ≡ b
some-injective h = cc

module _ (m : MlDsa) where
  -- No ML-DSA signature verifies under one key for both messages.
  abbrev pub BindsMessage : Bytes → Bytes → Type 0
  BindsMessage msg msg' =
      (pk : m.VerifyingKey) (sig : m.Signature)
      → m.verify_with_context pk msg [] sig ≡ true
      → m.verify_with_context pk msg' [] sig ≡ true
      → msg ≡ msg'

  -- No ML-DSA signature verifies under both keys for one message.
  abbrev pub BindsKey : m.VerifyingKey → m.VerifyingKey → Type 0
  BindsKey pk pk' =
      (msg : Bytes) (sig : m.Signature)
      → m.verify_with_context pk msg [] sig ≡ true
      → m.verify_with_context pk' msg [] sig ≡ true
      → pk ≡ pk'

  verifies_if :
      (b : Bool)
      → ◌≡◌ {A = Result Dilithium.Error (Unit {0})}
          (if b then ok tt else err Dilithium.verification_failed)
          (ok tt)
      → b ≡ true
  verifies_if true h = refl
  verifies_if false h = cc

  verified_inside :
      (pk : m.VerifyingKey) (msg signature : Bytes)
      → Dilithium.verify_internal m pk msg signature ≡ ok tt
      → (sig : m.Signature) × (m.signature_try_from signature ≡ some sig)
        × (m.verify_with_context pk msg [] sig ≡ true)
  unfolding Dilithium.verify_internal
  verified_inside pk msg signature h =
      let (_, sized, rest) = >>=-eq-ok (refuse_if (not (length signature == 4627)) _) _ h in
      let (sig, parsed, answer) = >>=-eq-ok (ok_or _ (m.signature_try_from signature)) _ rest in
      (sig, ok_or-eq-ok _ (m.signature_try_from signature) parsed, verifies_if _ answer)

  -- What two verifications of the same signature bytes have in common.
  pub same_message :
      (pk : m.VerifyingKey) (msg msg' signature : Bytes)
      → BindsMessage msg msg'
      → Dilithium.verify_internal m pk msg signature ≡ ok tt
      → Dilithium.verify_internal m pk msg' signature ≡ ok tt
      → msg ≡ msg'
  same_message pk msg msg' signature binds h h' =
      let (sig, parsed, good) = verified_inside pk msg signature h in
      let (sig', parsed', good') = verified_inside pk msg' signature h' in
      let same : sig' ≡ sig = some-injective (sym parsed' ∙ parsed) in
      binds pk sig good (subst (λ s. m.verify_with_context pk msg' [] s ≡ true) same good')

  pub same_key :
      (pk pk' : m.VerifyingKey) (msg signature : Bytes)
      → BindsKey pk pk'
      → Dilithium.verify_internal m pk msg signature ≡ ok tt
      → Dilithium.verify_internal m pk' msg signature ≡ ok tt
      → pk ≡ pk'
  same_key pk pk' msg signature binds h h' =
      let (sig, parsed, good) = verified_inside pk msg signature h in
      let (sig', parsed', good') = verified_inside pk' msg signature h' in
      let same : sig' ≡ sig = some-injective (sym parsed' ∙ parsed) in
      binds msg sig good (subst (λ s. m.verify_with_context pk' msg [] s ≡ true) same good')

module _ (c : Crates) where
  -- Two authentic readings of one composite have the same ML-DSA part.
  pub same_dil :
      (pk pk' : BlackChainPublicKey) (hash hash' bound bound' sig : Bytes)
      (a : Authentic c pk hash bound sig) (b : Authentic c pk' hash' bound' sig)
      → a.dil_sig ≡ b.dil_sig
  same_dil pk pk' hash hash' bound bound' sig a b =
      sym (take-append 4627 a.dil_sig (a.p521_sig ++ a.ed448_sig) a.length_dil)
      ∙ ap (take 4627) (sym a.splits ∙ b.splits)
      ∙ take-append 4627 b.dil_sig (b.p521_sig ++ b.ed448_sig) b.length_dil
