-- ===== src/P521/Keys.antt =====
-- Keys, their byte forms, and signing followed by verification (src/mdecc/p521.rs).
use mathlib.Core.Option.{get_or}
use mathlib.Core.Path.{subst}
use blackchain_crypto_lib_ru.Base.{
  ◌≡◌, refl, ◌∙◌, sym, none, some, inr, Bytes, plain, ok, err, arith, length, Option, ◌↔◌, ◌⊎◌,
  >>=-eq-ok, from_crate-eq-ok, from_crate, refuse_if,
}
use blackchain_crypto_lib_ru.Crates.Laws.{P521Laws}
use blackchain_crypto_lib_ru.Crates.{P521Ecdsa}
use blackchain_crypto_lib_ru.Error.{signature_error}
use blackchain_crypto_lib_ru.P521.{
  PublicKey, PrivateKey, public_as_bytes, public_from_bytes, private_as_bytes, private_from_bytes,
  public_key_typed, sign_msg, verify_sig, is_high_s, signature_size,
}

inr-injective : {A B : Type 0} {a b : B} → ◌≡◌ {A = A ⊎ B} (inr a) (inr b) → a ≡ b
inr-injective h = cc

-- What makes `verify_sig` accept: the bytes are a signature, in its low-S form, that the crate verifies.
pub record Accepts (p : P521Ecdsa) (pk : PublicKey p) (msg signature : Bytes) : Type 0 where
  pub sig : p.Signature
  pub parses : p.signature_from_slice signature ≡ inr sig
  pub low_s : p.normalize_s sig ≡ none
  pub verifies : p.verify pk msg sig ≡ inr tt

module _ (p : P521Ecdsa) where
  accepted :
      (pk : PublicKey p) (msg signature : Bytes)
      → verify_sig p pk msg signature ≡ ok tt
      → Accepts p pk msg signature
  unfolding verify_sig
  accepted pk msg signature h =
      let (sig, parsed, later) =
        >>=-eq-ok (from_crate signature_error (p.signature_from_slice signature)) _ h in
      let (checked, low, verified) = >>=-eq-ok (refuse_if (is_high_s p sig) _) _ later in
      record {
        sig = sig;
        parses = from_crate-eq-ok signature_error (p.signature_from_slice signature) parsed;
        low_s = ground arith;
        verifies = from_crate-eq-ok signature_error (p.verify pk msg sig) verified;
      }

  accepts :
      (pk : PublicKey p) (msg signature : Bytes)
      → Accepts p pk msg signature
      → verify_sig p pk msg signature ≡ ok tt
  unfolding verify_sig
  accepts pk msg signature a = rw (a.parses, is_high_s, a.low_s, a.verifies)

  -- `verify_sig` accepts exactly the parseable low-S signatures that the crate verifies.
  pub verify_sig_iff :
      (pk : PublicKey p) (msg signature : Bytes)
      → (verify_sig p pk msg signature ≡ ok tt) ↔ Accepts p pk msg signature
  verify_sig_iff pk msg signature = (accepted pk msg signature, accepts pk msg signature)

  -- A signature that has another low-S form is refused, whether or not the crate verifies it.
  pub verify_sig_high :
      (pk : PublicKey p) (msg signature : Bytes) (sig low : p.Signature)
      → p.signature_from_slice signature ≡ inr sig
      → p.normalize_s sig ≡ some low
      → verify_sig p pk msg signature
        ≡ err (signature_error (plain "non-canonical high-S P-521 signature rejected"))
  unfolding verify_sig
  verify_sig_high pk msg signature sig low parsed high = rw (parsed, is_high_s, high) refl

  pub public_from_bytes-as_bytes :
      P521Laws p → (pk : PublicKey p) → public_from_bytes p (public_as_bytes p pk) ≡ ok pk
  unfolding public_from_bytes public_as_bytes
  public_from_bytes-as_bytes laws pk = rw (laws.from_sec1_bytes-to_encoded_point pk)

  pub private_from_bytes-as_bytes :
      P521Laws p → (sk : PrivateKey p) → private_from_bytes p (private_as_bytes p sk) ≡ ok sk
  unfolding private_from_bytes private_as_bytes
  private_from_bytes-as_bytes laws sk = rw (laws.from_slice-to_bytes sk)

  module _ (laws : P521Laws p) (sk : PrivateKey p) (msg nonce : Bytes) where
    -- The low-S form of the crate's signature is accepted, whichever form the crate returned.
    pub signed-Accepts : Accepts p (public_key_typed p sk) msg (sign_msg p sk msg nonce)
    unfolding public_key_typed sign_msg
    signed-Accepts = from (p.normalize_s (p.sign sk nonce msg)) refl
      where
        from :
            (low : Option p.Signature)
            → p.normalize_s (p.sign sk nonce msg) ≡ low
            → Accepts p
                (p.verifying_key sk)
                msg
                (p.signature_to_bytes (get_or low (p.sign sk nonce msg)))
        from none e = record {
          sig = p.sign sk nonce msg;
          parses = laws.signature_from_slice-signature_to_bytes _;
          low_s = e;
          verifies = laws.signs sk nonce msg;
        }
        from (some low) e = record {
          sig = low;
          parses = laws.signature_from_slice-signature_to_bytes low;
          low_s = laws.normalize_s_low _ low e;
          verifies = sym (laws.verify-normalize_s _ msg _ low e) ∙ laws.signs sk nonce msg;
        }

    -- What is signed is the byte form of a low-S signature.
    pub sign_msg_low :
        (s : p.Signature) × (sign_msg p sk msg nonce ≡ p.signature_to_bytes s)
        × (p.normalize_s s ≡ none)
    unfolding sign_msg
    sign_msg_low =
        let sig = p.sign sk nonce msg in
        let s = get_or (p.normalize_s sig) sig in
        let a = signed-Accepts in
        let read : p.signature_from_slice (p.signature_to_bytes s) ≡ inr a.sig = a.parses in
        let same : a.sig ≡ s =
          inr-injective (sym read ∙ laws.signature_from_slice-signature_to_bytes s) in
        (s, refl, subst (λ q. p.normalize_s q ≡ none) same a.low_s)

    -- A signature has 132 bytes and verifies under the key's public key, whatever the nonce.
    pub verify_sig-public_key_typed :
        (length (sign_msg p sk msg nonce) ≡ signature_size)
        × (verify_sig p (public_key_typed p sk) msg (sign_msg p sk msg nonce) ≡ ok tt)
    unfolding sign_msg
    verify_sig-public_key_typed = (
      laws.length-signature_to_bytes _,
      accepts (public_key_typed p sk) msg (sign_msg p sk msg nonce) signed-Accepts,
    )
