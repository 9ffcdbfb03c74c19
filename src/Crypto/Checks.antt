-- ===== src/Crypto/Checks.antt =====
-- What it takes for a composite signature to be accepted. `checks` is the tail that `verify_message`
-- (src/crypto.rs) and `verify_signature` (src/transaction/signing.rs) have in common.
use blackchain_crypto_lib_ru.Base.{
  append_assoc, three_parts, replicate, ◌≡◌, refl, ap, sym, ◌∙◌, ◌↔◌, true, not, none, [], ◌∷◌,
  ◌++◌, ◌==◌, Bytes, text, number, ok, err, ◌>>=◌, ◌>>◌, arith, refuse_if, map_err, map_err-eq-ok,
  >>=-eq-ok, ok-injective, slice, slice_front, slice_middle, slice_back, slice_inside, length,
  length-append, length-take, length-drop, take, drop,
}
use mathlib.Core.Path.{subst}
use blackchain_crypto_lib_ru.Crates.{Crates}
use blackchain_crypto_lib_ru.Crypto.PublicKey.{BlackChainPublicKey, failed, verify_message}
use blackchain_crypto_lib_ru.Dilithium
use blackchain_crypto_lib_ru.Ed448
use blackchain_crypto_lib_ru.Error.{CryptoError, signature_error, display, Fallible}
use blackchain_crypto_lib_ru.P521

-- The three verifications that a composite signature of `hash`, bound by `h_combined`, must pass.
pub record Authentic (c : Crates) (pk : BlackChainPublicKey) (hash h_combined sig : Bytes)
    : Type 0 where
  pub dil_key : Dilithium.PublicKey c.ml_dsa
  pub p521_key : P521.PublicKey c.ecdsa
  pub ed448_key : Ed448.PublicKey c.hashes c.ed448_rust c.goldilocks
  pub dil_sig : Bytes
  pub p521_sig : Bytes
  pub ed448_sig : Bytes
  pub splits : sig ≡ dil_sig ++ (p521_sig ++ ed448_sig)
  pub length_dil : length dil_sig ≡ 4627
  pub length_p521 : length p521_sig ≡ 132
  pub length_ed448 : length ed448_sig ≡ 114
  pub dil_parses : Dilithium.public_from_bytes c.ml_dsa pk.dilithium ≡ ok dil_key
  pub dil_verifies : Dilithium.verify_internal c.ml_dsa dil_key hash dil_sig ≡ ok tt
  pub p521_parses : P521.public_from_bytes c.ecdsa pk.p521 ≡ ok p521_key
  pub p521_verifies :
      P521.verify_sig c.ecdsa p521_key (hash ++ (h_combined ++ 1 ∷ [])) p521_sig ≡ ok tt
  pub ed448_parses :
      Ed448.public_from_bytes c.hashes c.ed448_rust c.goldilocks pk.ed448 ≡ ok ed448_key
  pub ed448_verifies :
      Ed448.verify_sig c.hashes c.ed448_rust c.goldilocks ed448_key
        (hash ++ (h_combined ++ 2 ∷ []))
        ed448_sig
        none
      ≡ ok tt

pub Authentic-length :
    (c : Crates) (pk : BlackChainPublicKey) (hash h_combined sig : Bytes)
    → Authentic c pk hash h_combined sig
    → length sig ≡ 4873
Authentic-length c pk hash h_combined sig a = omega (
  arith,
  ap length a.splits,
  length-append a.dil_sig (a.p521_sig ++ a.ed448_sig),
  length-append a.p521_sig a.ed448_sig,
  a.length_dil,
  a.length_p521,
  a.length_ed448,
)

module _ (c : Crates) (pk : BlackChainPublicKey) (hash h_combined : Bytes) where
  open c use {hashes, ml_dsa, ecdsa, ed448_rust, goldilocks, rlp}

  abbrev pub parts_verify : {A : Type 0} → Bytes → Bytes → Bytes → A → Fallible A
  parts_verify dil_sig p521_sig ed448_sig result = do
    dil_pk ←
        map_err (λ e. failed "ML-DSA-87 public key parse error: " (Dilithium.error_text e))
          (Dilithium.public_from_bytes ml_dsa pk.dilithium)
    map_err (λ e. failed "ML-DSA-87 verification failed: " (Dilithium.error_text e))
        (Dilithium.verify_internal ml_dsa dil_pk hash dil_sig)
    p521_pk ←
        map_err (λ e. failed "P-521 public key parse error: " (display rlp.error_text e))
          (P521.public_from_bytes ecdsa pk.p521)
    map_err (λ e. failed "P-521 verification failed: " (display rlp.error_text e))
        (P521.verify_sig ecdsa p521_pk (hash ++ (h_combined ++ 1 ∷ [])) p521_sig)
    ed448_pk ←
        map_err (λ e. failed "Ed448 public key parse error: " (display rlp.error_text e))
          (Ed448.public_from_bytes hashes ed448_rust goldilocks pk.ed448)
    map_err (λ e. failed "Ed448 verification failed: " (display rlp.error_text e))
        (Ed448.verify_sig hashes ed448_rust goldilocks ed448_pk (hash ++ (h_combined ++ 2 ∷ []))
          ed448_sig none)
    ok result

  abbrev pub checks : {A : Type 0} → Bytes → A → Fallible A
  checks sig result = do
    refuse_if (not (length sig == 4873)) (
        signature_error (
          text "composite signature has wrong length: "
          ∷ number (length sig)
          ∷ text " bytes (expected "
          ∷ number 4873
          ∷ text ")"
          ∷ []))
    dil_sig ← slice 0 4627 sig
    p521_sig ← slice 4627 4759 sig
    ed448_sig ← slice 4759 (length sig) sig
    parts_verify dil_sig p521_sig ed448_sig result

  -- A composite of the right length falls into its three parts.
  pub checks_sized :
      {A : Type 0} (sig : Bytes) (result : A)
      → length sig ≡ 4873
      → checks sig result
        ≡ parts_verify (take 4627 sig) (take 132 (drop 4627 sig)) (take 114 (drop 4759 sig)) result
  checks_sized sig result e = rw (
    e,
    slice_inside {E = CryptoError} 0 4627 sig (omega arith) (omega arith),
    slice_inside {E = CryptoError} 4627 4759 sig (omega arith) (omega arith),
    slice_inside {E = CryptoError} 4759 4873 sig (omega arith) (omega arith),
  )

  -- Three parts of the right sizes are cut out again.
  pub checks_parts :
      {A : Type 0} (dil_sig p521_sig ed448_sig : Bytes) (result : A)
      → length dil_sig ≡ 4627
      → length p521_sig ≡ 132
      → length ed448_sig ≡ 114
      → checks (dil_sig ++ (p521_sig ++ ed448_sig)) result
        ≡ parts_verify dil_sig p521_sig ed448_sig result
  checks_parts dil_sig p521_sig ed448_sig result dil_length p521_length ed448_length =
      let sig = dil_sig ++ (p521_sig ++ ed448_sig) in
      let whole : length sig ≡ 4873 =
        omega (
          arith,
          length-append dil_sig (p521_sig ++ ed448_sig),
          length-append p521_sig ed448_sig,
        ) in
      let first : slice {E = CryptoError} 0 4627 sig ≡ ok dil_sig =
        slice_front 4627 dil_sig _ dil_length in
      let second : slice {E = CryptoError} 4627 4759 sig ≡ ok p521_sig =
        slice_middle 4627 4759 dil_sig p521_sig ed448_sig dil_length (omega arith) in
      let front : length (dil_sig ++ p521_sig) ≡ 4759 =
        omega (arith, length-append dil_sig p521_sig) in
      let last : slice {E = CryptoError} 4759 (length sig) sig ≡ ok ed448_sig =
        rw (← append_assoc) (slice_back 4759 (dil_sig ++ p521_sig) ed448_sig front) in
      let third : slice {E = CryptoError} 4759 4873 sig ≡ ok ed448_sig =
        subst (λ n. slice {E = CryptoError} 4759 n sig ≡ ok ed448_sig) whole last in
      rw (whole, first, second, third)

  accepts :
      {A : Type 0} (sig : Bytes) (result : A)
      → Authentic c pk hash h_combined sig
      → checks sig result ≡ ok result
  accepts sig result a =
      subst (λ s. checks s result ≡ ok result) (sym a.splits)
        (checks_parts a.dil_sig a.p521_sig a.ed448_sig result a.length_dil a.length_p521
            a.length_ed448
          ∙ rw
              (
                a.dil_parses, a.dil_verifies, a.p521_parses, a.p521_verifies, a.ed448_parses,
                a.ed448_verifies,
              )
              refl)

  -- Where the ML-DSA part verifies and the P-521 part does not, the error is that of P-521.
  pub checks_p521_fails :
      {A : Type 0} (p521_sig : Bytes) (sig : Bytes) (result : A) (e : CryptoError)
      → (a : Authentic c pk hash h_combined sig) → length p521_sig ≡ 132
      → P521.verify_sig ecdsa a.p521_key (hash ++ (h_combined ++ 1 ∷ [])) p521_sig ≡ err e
      → checks (a.dil_sig ++ (p521_sig ++ a.ed448_sig)) result
        ≡ err (failed "P-521 verification failed: " (display rlp.error_text e))
  checks_p521_fails p521_sig sig result e a sized refused =
      checks_parts a.dil_sig p521_sig a.ed448_sig result a.length_dil sized a.length_ed448
      ∙ rw (a.dil_parses, a.dil_verifies, a.p521_parses, refused) refl

  -- Where the other two parts verify and the Ed448 part does not, the error is that of Ed448.
  pub checks_ed448_fails :
      {A : Type 0} (ed448_sig sig : Bytes) (result : A) (e : CryptoError)
      → (a : Authentic c pk hash h_combined sig) → length ed448_sig ≡ 114
      → Ed448.verify_sig hashes ed448_rust goldilocks a.ed448_key
          (hash ++ (h_combined ++ 2 ∷ []))
          ed448_sig
          none
        ≡ err e
      → checks (a.dil_sig ++ (a.p521_sig ++ ed448_sig)) result
        ≡ err (failed "Ed448 verification failed: " (display rlp.error_text e))
  checks_ed448_fails ed448_sig sig result e a sized refused =
      checks_parts a.dil_sig a.p521_sig ed448_sig result a.length_dil a.length_p521 sized
      ∙ rw (a.dil_parses, a.dil_verifies, a.p521_parses, a.p521_verifies, a.ed448_parses, refused)
          refl

  pub authentic :
      {A : Type 0} (sig : Bytes) (result out : A)
      → checks sig result ≡ ok out
      → Authentic c pk hash h_combined sig × (result ≡ out)
  authentic sig result out h =
      let (sized, right, _) = >>=-eq-ok (refuse_if (not (length sig == 4873)) _) _ h in
      let whole : length sig ≡ 4873 = ground arith in
      let verified = sym (checks_sized sig result whole) ∙ h in
      let (dil_key, dil_parsed, from_dil) =
        >>=-eq-ok (map_err _ (Dilithium.public_from_bytes ml_dsa pk.dilithium)) _ verified in
      let (u, dil_ok, from_p521) =
        >>=-eq-ok (map_err _ (Dilithium.verify_internal ml_dsa dil_key hash _)) _ from_dil in
      let (p521_key, p521_parsed, from_p521_key) =
        >>=-eq-ok (map_err _ (P521.public_from_bytes ecdsa pk.p521)) _ from_p521 in
      let (v, p521_ok, from_ed448) =
        >>=-eq-ok (map_err _ (P521.verify_sig ecdsa p521_key _ _)) _ from_p521_key in
      let (ed448_key, ed448_parsed, from_ed448_key) =
        >>=-eq-ok (map_err _ (Ed448.public_from_bytes hashes ed448_rust goldilocks pk.ed448)) _
          from_ed448 in
      let (w, ed448_ok, end) =
        >>=-eq-ok (map_err _ (Ed448.verify_sig hashes ed448_rust goldilocks ed448_key _ _ none)) _
          from_ed448_key in
      (
        record {
          dil_key = dil_key;
          p521_key = p521_key;
          ed448_key = ed448_key;
          dil_sig = take 4627 sig;
          p521_sig = take 132 (drop 4627 sig);
          ed448_sig = take 114 (drop 4759 sig);
          splits = three_parts 4627 132 114 sig whole;
          length_dil = length-take 4627 sig (omega arith);
          length_p521 = length-take 132 (drop 4627 sig) (omega (arith, length-drop 4627 sig));
          length_ed448 = length-take 114 (drop 4759 sig) (omega (arith, length-drop 4759 sig));
          dil_parses = map_err-eq-ok _ (Dilithium.public_from_bytes ml_dsa pk.dilithium) dil_parsed;
          dil_verifies = map_err-eq-ok _ (Dilithium.verify_internal ml_dsa dil_key hash _) dil_ok;
          p521_parses = map_err-eq-ok _ (P521.public_from_bytes ecdsa pk.p521) p521_parsed;
          p521_verifies = map_err-eq-ok _ (P521.verify_sig ecdsa p521_key _ _) p521_ok;
          ed448_parses =
              map_err-eq-ok _ (Ed448.public_from_bytes hashes ed448_rust goldilocks pk.ed448)
                ed448_parsed;
          ed448_verifies =
              map_err-eq-ok _ (Ed448.verify_sig hashes ed448_rust goldilocks ed448_key _ _ none)
                ed448_ok;
        },
        ok-injective end,
      )

  pub checks_iff :
      {A : Type 0} (sig : Bytes) (result : A)
      → (checks sig result ≡ ok result) ↔ Authentic c pk hash h_combined sig
  checks_iff sig result = (λ h. (authentic sig result result h).0, accepts sig result)

-- A message signature is accepted exactly when it has the composite length and its three parts verify
-- over the message's Keccak hash, the two curves with the binding of the zero nonce.
pub verify_message_iff :
    (c : Crates) (pk : BlackChainPublicKey) (message sig : Bytes)
    → (verify_message c pk message sig ≡ ok true)
      ↔ Authentic c pk
          (c.hashes.keccak256 message)
          (c.hashes.shake256 (pk.dilithium ++ (pk.p521 ++ (pk.ed448 ++ replicate 16 0))) 32)
          sig
unfolding verify_message
verify_message_iff c pk message sig = checks_iff c pk _ _ sig true
