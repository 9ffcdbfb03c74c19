-- ===== src/Dilithium.antt =====
-- src/dilithium/mod.rs: ML-DSA-87 keys and signatures over the `ml_dsa` crate. `PublicKey` is a
-- newtype of the crate's verifying key. `assert!` and `expect` are panics.
pub mod Keys
pub mod Scheme
use blackchain_crypto_lib_ru.Base.{
  ℕ, Bool, not, String, [], ◌∷◌, if◌then◌else◌, ◌==◌, leb, Bytes, Message, plain, text, number,
  Result, ok, err, ◌>>=◌, ◌>>◌, refuse_if, assert_that, from_crate, ok_or, or_panic, some_or_panic,
  succeeds, copy_from_slice, length, drop, ◌++◌,
}
use blackchain_crypto_lib_ru.Error.{CryptoError, signature_error}
use blackchain_crypto_lib_ru.Crates.{MlDsa, Entropy}

abbrev pub seed_size : ℕ
seed_size = 32

abbrev pub public_key_size : ℕ
public_key_size = 2592

abbrev pub private_key_size : ℕ
private_key_size = seed_size

abbrev pub signature_size : ℕ
signature_size = 4627

pub data Error : Type 0 where
  invalid_size : ℕ → ℕ → String → Error
  verification_failed : Error
  internal : Message → Error
  context_not_supported : Error
  type_mismatch : Error

-- `Display`
unfoldable pub error_text : Error → Message
error_text (invalid_size expected actual context) =
    text "ml-dsa-87: invalid "
    ∷ text context
    ∷ text " size: expected "
    ∷ number expected
    ∷ text ", got "
    ∷ number actual
    ∷ []
error_text verification_failed = plain "ml-dsa-87: signature verification failed"
error_text (internal m) = text "ml-dsa-87: internal error: " ∷ m
error_text context_not_supported = plain "ml-dsa-87: context strings are not supported"
error_text type_mismatch = plain "ml-dsa-87: key type mismatch"

-- `From<Error> for CryptoError`, which `?` and `into` apply.
unfoldable pub into : Error → CryptoError
into e = signature_error (error_text e)

module _ (m : MlDsa) where
  abbrev pub PublicKey : Type 0
  PublicKey = m.VerifyingKey

  pub record PrivateKey : Type 0 where
    pub inner : m.SigningKey
    pub public : PublicKey

  unfoldable pub seed_from_slice : Bytes → Result Error Bytes
  seed_from_slice input = ok_or (invalid_size seed_size (length input) "seed") (m.seed_array input)

  -- `pack` and `to_vec` of the public key.
  unfoldable pub pack : PublicKey → Result Error Bytes
  pack pk = copy_from_slice public_key_size (m.encode pk)

  unfoldable pub to_vec : PublicKey → Bytes
  to_vec pk = m.encode pk

  unfoldable pub public_from_bytes : Bytes → Result Error PublicKey
  public_from_bytes input = do
    refuse_if (not (length input == public_key_size))
        (invalid_size public_key_size (length input) "public key")
    enc ← ok_or (internal (plain "invalid ML-DSA verifying key encoding")) (m.key_array input)
    ok (m.decode enc)

  unfoldable pub verify_internal : PublicKey → Bytes → Bytes → Result Error (Unit {0})
  verify_internal pk msg signature = do
    refuse_if (not (length signature == signature_size))
        (invalid_size signature_size (length signature) "signature")
    sig ← ok_or verification_failed (m.signature_try_from signature)
    if m.verify_with_context pk msg [] sig then ok tt else err verification_failed

  unfoldable pub seed_bytes : PrivateKey → Result Error Bytes
  seed_bytes sk = copy_from_slice seed_size (m.to_seed sk.inner)

  -- `PrivateKey::pack`
  unfoldable pub pack_private : PrivateKey → Result Error Bytes
  pack_private sk = copy_from_slice private_key_size (m.to_seed sk.inner)

  unfoldable pub sign_internal : PrivateKey → Bytes → Result Error Bytes
  sign_internal sk msg = do
    sig ← some_or_panic (plain "ML-DSA deterministic signing") (m.try_sign sk.inner msg)
    ok (m.encode_signature sig)

  -- `sign_to` overwrites the front of the caller's buffer.
  unfoldable pub sign_to : PrivateKey → Bytes → Bytes → Result Error Bytes
  sign_to sk msg buffer = do
    assert_that (leb signature_size (length buffer)) (plain "ml-dsa-87: signature buffer too small")
    s ← some_or_panic (plain "ML-DSA deterministic signing") (m.try_sign sk.inner msg)
    written ← copy_from_slice signature_size (m.encode_signature s)
    ok (written ++ drop signature_size buffer)

  unfoldable pub private_from_bytes : Bytes → Result Error PrivateKey
  private_from_bytes input = do
    xi ← seed_from_slice input
    ok (record { inner = m.from_seed xi; public = m.verifying_key (m.from_seed xi) })

  unfoldable pub from_seed : Bytes → Result Error (PublicKey × PrivateKey)
  from_seed seed = do sk ← or_panic error_text (private_from_bytes seed); ok (sk.public, sk)

  unfoldable pub new_key_from_seed : Bytes → Result Error (PublicKey × PrivateKey)
  new_key_from_seed seed = from_seed seed

  unfoldable pub generate_key : Entropy → Result Error (PublicKey × PrivateKey)
  generate_key entropy = do
    seed ← from_crate (λ e. internal (text "RNG failure: " ∷ e)) (entropy seed_size)
    from_seed seed

  unfoldable pub derive_key_with_seed : Bytes → Result Error (PublicKey × PrivateKey)
  derive_key_with_seed seed = do
    refuse_if (not (length seed == seed_size)) (invalid_size seed_size (length seed) "seed")
    s ← copy_from_slice seed_size seed
    new_key_from_seed s

  -- The free function `verify`.
  unfoldable pub verify : PublicKey → Bytes → Bytes → Result Error Bool
  verify pk msg signature = succeeds (verify_internal pk msg signature)
