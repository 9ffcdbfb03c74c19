-- ===== src/Crates/Laws/Signatures.antt =====
-- Laws of the hash functions (fixed output lengths), of `ml_dsa` (FIPS 204: fixed sizes, inverse
-- encodings, a signature verifies) and of `p521` (SEC 1 and FIPS 186-4, with the low-S form).
use blackchain_crypto_lib_ru.Base.{
  ℕ, ◌≤◌, ◌≡◌, ◌≢◌, none, some, inr, true, [], Bytes, All, IsByte, length,
}
use blackchain_crypto_lib_ru.Crates.{Hashes, MlDsa, P521Ecdsa}

pub record HashLaws (h : Hashes) : Type 0 where
  pub length-keccak256 : (input : Bytes) → length (h.keccak256 input) ≡ 32
  pub length-shake256 : (input : Bytes) (n : ℕ) → length (h.shake256 input n) ≡ n
  pub bytes-shake256 : (input : Bytes) (n : ℕ) → All IsByte (h.shake256 input n)
  pub length-sha512 : (input : Bytes) → length (h.sha512 input) ≡ 64
  -- HKDF gives up to 255 blocks of 64 bytes.
  pub hkdf_expands :
      (ikm : Bytes) (n : ℕ)
      → n ≤ 16320
      → (out : Bytes) × (h.hkdf_expand ikm n ≡ some out) × (length out ≡ n)

pub record MlDsaLaws (m : MlDsa) : Type 0 where
  pub seed_array_exact : (input : Bytes) → length input ≡ 32 → m.seed_array input ≡ some input
  pub seed_array_other : (input : Bytes) → length input ≢ 32 → m.seed_array input ≡ none
  pub key_array_exact : (input : Bytes) → length input ≡ 2592 → m.key_array input ≡ some input
  pub to_seed-from_seed : (xi : Bytes) → length xi ≡ 32 → m.to_seed (m.from_seed xi) ≡ xi
  pub length-encode : (pk : m.VerifyingKey) → length (m.encode pk) ≡ 2592
  pub decode-encode : (pk : m.VerifyingKey) → m.decode (m.encode pk) ≡ pk
  pub length-encode_signature : (s : m.Signature) → length (m.encode_signature s) ≡ 4627
  pub signature_try_from-encode_signature :
      (s : m.Signature) → m.signature_try_from (m.encode_signature s) ≡ some s
  pub signs :
      (sk : m.SigningKey) (msg : Bytes)
      → (s : m.Signature) × (m.try_sign sk msg ≡ some s)
        × (m.verify_with_context (m.verifying_key sk) msg [] s ≡ true)

pub record P521Laws (p : P521Ecdsa) : Type 0 where
  pub length-to_encoded_point : (pk : p.VerifyingKey) → length (p.to_encoded_point pk) ≡ 133
  pub from_sec1_bytes-to_encoded_point :
      (pk : p.VerifyingKey) → p.from_sec1_bytes (p.to_encoded_point pk) ≡ inr pk
  pub length-to_bytes : (sk : p.SigningKey) → length (p.to_bytes sk) ≡ 66
  pub from_slice-to_bytes : (sk : p.SigningKey) → p.from_slice (p.to_bytes sk) ≡ inr sk
  pub length-signature_to_bytes : (s : p.Signature) → length (p.signature_to_bytes s) ≡ 132
  pub signature_from_slice-signature_to_bytes :
      (s : p.Signature) → p.signature_from_slice (p.signature_to_bytes s) ≡ inr s
  -- The low-S form is low.
  pub normalize_s_low : (s t : p.Signature) → p.normalize_s s ≡ some t → p.normalize_s t ≡ none
  -- (r, s) and (r, n - s) verify alike.
  pub verify-normalize_s :
      (pk : p.VerifyingKey) (msg : Bytes) (s t : p.Signature)
      → p.normalize_s s ≡ some t
      → p.verify pk msg s ≡ p.verify pk msg t
  pub signs :
      (sk : p.SigningKey) (nonce msg : Bytes)
      → p.verify (p.verifying_key sk) msg (p.sign sk nonce msg) ≡ inr tt
