-- ===== src/Dilithium/Scheme.antt =====
-- src/dilithium/mod.rs: the dynamic and the typed scheme of ML-DSA-87 over the functions of `Dilithium`.
-- The text of the error that `expect` and `panic!` show behind theirs is left out.
pub mod Contract
pub mod Cases
use blackchain_crypto_lib_ru.Base.{
  Bool, true, false, not, Option, [], ◌∷◌, ◌++◌, ◌==◌, Bytes, Result, ok, ◌>>=◌, ◌>>◌, assert_that,
  or_panic, map_ok, map_err, succeeds, if◌then◌else◌, plain, text, number, length, copy_from_slice,
}
use blackchain_crypto_lib_ru.Crates.{MlDsa, Entropy}
use blackchain_crypto_lib_ru.Dilithium.{
  seed_size, public_key_size, private_key_size, signature_size, into, PublicKey, PrivateKey, to_vec,
  public_from_bytes, verify_internal, seed_bytes, sign_internal, private_from_bytes,
  new_key_from_seed,
}
use blackchain_crypto_lib_ru.Dilithium
use blackchain_crypto_lib_ru.Error.{CryptoError, Fallible}
use blackchain_crypto_lib_ru.Sign.{
  SignatureOpts, DynPublicKey, DynPrivateKey, Scheme, has_context, same_sized, err_type_mismatch,
  err_seed_size, err_context_not_supported,
}

module _ (m : MlDsa) where
  unfoldable pub dyn_public : PublicKey m → DynPublicKey
  dyn_public pk = record {
    marshal_binary = ok (to_vec m pk);
    equal = same_sized public_key_size (ok (m.encode pk));
  }

  unfoldable pub dyn_private : PrivateKey m → DynPrivateKey
  dyn_private sk = record {
    marshal_binary = map_err into (seed_bytes m sk);
    public_key_bytes = to_vec m sk.public;
    equal = same_sized private_key_size (map_err into (seed_bytes m sk));
  }

  abbrev pub boxed : PublicKey m × PrivateKey m → DynPublicKey × DynPrivateKey
  boxed (pk, sk) = (dyn_public pk, dyn_private sk)

  unfoldable pub scheme_generate_key : Entropy → Fallible (DynPublicKey × DynPrivateKey)
  scheme_generate_key entropy = map_ok boxed (map_err into (Dilithium.generate_key m entropy))

  unfoldable pub derive_key : Bytes → Fallible (DynPublicKey × DynPrivateKey)
  derive_key seed = do
    assert_that (length seed == seed_size)
        (err_seed_size ++ text "; expected 32, got " ∷ number (length seed) ∷ [])
    s ← copy_from_slice seed_size seed
    map_ok boxed (map_err into (new_key_from_seed m s))

  unfoldable pub sign : DynPrivateKey → Bytes → Option SignatureOpts → Fallible Bytes
  sign sk message opts = do
    assert_that (not (has_context opts)) err_context_not_supported
    sk_bytes ← or_panic (λ e. plain "marshal ML-DSA SK") sk.marshal_binary
    typed_sk ← or_panic (λ e. err_type_mismatch) (private_from_bytes m sk_bytes)
    map_err into (sign_internal m typed_sk message)

  unfoldable pub verify : DynPublicKey → Bytes → Bytes → Option SignatureOpts → Fallible Bool
  verify pk message signature opts =
      if has_context opts
      then ok false
      else succeeds (do
        pk_bytes ← pk.marshal_binary
        typed_pk ← map_err into (public_from_bytes m pk_bytes)
        map_err into (verify_internal m typed_pk message signature))

  unfoldable pub unmarshal_binary_public_key : Bytes → Fallible DynPublicKey
  unmarshal_binary_public_key buf = map_err into (map_ok dyn_public (public_from_bytes m buf))

  unfoldable pub unmarshal_binary_private_key : Bytes → Fallible DynPrivateKey
  unmarshal_binary_private_key buf = map_err into (map_ok dyn_private (private_from_bytes m buf))

  -- The implementation of `sign::Scheme`; signing is deterministic.
  unfoldable pub scheme : Scheme
  scheme = record {
    name = "ML-DSA-87";
    generate_key = scheme_generate_key;
    derive_key = derive_key;
    sign = λ sk message opts nonce. sign sk message opts;
    verify = verify;
    unmarshal_binary_public_key = unmarshal_binary_public_key;
    unmarshal_binary_private_key = unmarshal_binary_private_key;
    public_key_size = public_key_size;
    private_key_size = private_key_size;
    signature_size = signature_size;
    seed_size = seed_size;
    supports_context = false;
    supports_priv_key_unmarshal = true;
  }

  unfoldable pub generate_key_typed : Entropy → Fallible (PublicKey m × PrivateKey m)
  generate_key_typed entropy = map_err into (Dilithium.generate_key m entropy)

  unfoldable pub derive_key_typed : Bytes → Fallible (PublicKey m × PrivateKey m)
  derive_key_typed seed = do
    assert_that (length seed == seed_size) err_seed_size
    s ← copy_from_slice seed_size seed
    map_err into (new_key_from_seed m s)

  unfoldable pub sign_typed : PrivateKey m → Bytes → Option SignatureOpts → Fallible Bytes
  sign_typed sk msg opts = do
    assert_that (not (has_context opts)) err_context_not_supported
    map_err into (sign_internal m sk msg)

  unfoldable pub verify_typed : PublicKey m → Bytes → Bytes → Option SignatureOpts → Fallible Bool
  verify_typed pk msg sig opts = succeeds (verify_internal m pk msg sig)

  unfoldable pub unmarshal_public_key_typed : Bytes → Fallible (PublicKey m)
  unmarshal_public_key_typed buf = map_err into (public_from_bytes m buf)

  unfoldable pub unmarshal_private_key_typed : Bytes → Fallible (PrivateKey m)
  unmarshal_private_key_typed buf = map_err into (private_from_bytes m buf)
