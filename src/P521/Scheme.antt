-- ===== src/P521/Scheme.antt =====
-- src/mdecc/p521.rs: the dynamic and the typed scheme of P-521 over the functions of `P521`.
pub mod Contract
use blackchain_crypto_lib_ru.Base.{
  ◌≡◌, refl, Panics, Bool, true, false, not, Option, Bytes, ok, ◌>>=◌, ◌>>◌, assert_that, or_panic,
  map_ok, succeeds, if◌then◌else◌, plain,
}
use blackchain_crypto_lib_ru.Crates.{P521Ecdsa, Hashes, Entropy}
use blackchain_crypto_lib_ru.Error.{Fallible}
use blackchain_crypto_lib_ru.P521.{
  seed_size, public_key_size, private_key_size, signature_size, PublicKey, PrivateKey,
  public_as_bytes, public_from_bytes, private_as_bytes, private_from_bytes, public_key_typed,
  sign_msg, verify_sig, derive_keypair_from_seed,
}
use blackchain_crypto_lib_ru.P521
use blackchain_crypto_lib_ru.P521.Keys.{
  private_from_bytes-as_bytes, public_from_bytes-as_bytes, verify_sig-public_key_typed,
}
use blackchain_crypto_lib_ru.Crates.Laws.{P521Laws}
use blackchain_crypto_lib_ru.Sign.{
  SignatureOpts, DynPublicKey, DynPrivateKey, Scheme, has_context, same_bytes, err_type_mismatch,
  err_context_not_supported,
}

module _ (p : P521Ecdsa) where
  unfoldable pub dyn_public : PublicKey p → DynPublicKey
  dyn_public pk = record {
    marshal_binary = ok (public_as_bytes p pk);
    equal = same_bytes (public_as_bytes p pk);
  }

  unfoldable pub dyn_private : PrivateKey p → DynPrivateKey
  dyn_private sk = record {
    marshal_binary = ok (private_as_bytes p sk);
    public_key_bytes = public_as_bytes p (public_key_typed p sk);
    equal = same_bytes (private_as_bytes p sk);
  }

  unfoldable pub scheme_generate_key : Entropy → Fallible (DynPublicKey × DynPrivateKey)
  scheme_generate_key entropy = do
    (pk, sk) ← P521.generate_key p entropy
    ok (dyn_public pk, dyn_private sk)

  unfoldable pub derive_key : Hashes → Bytes → Fallible (DynPublicKey × DynPrivateKey)
  derive_key h seed = do
    (pk, sk) ← derive_keypair_from_seed p h seed
    ok (dyn_public pk, dyn_private sk)

  -- `nonce` is the randomness of the signature.
  unfoldable pub sign : DynPrivateKey → Bytes → Option SignatureOpts → Bytes → Fallible Bytes
  sign sk message opts nonce = do
    assert_that (not (has_context opts)) err_context_not_supported
    sk_bytes ← or_panic (λ e. plain "marshal P521 SK") sk.marshal_binary
    typed_sk ← or_panic (λ e. err_type_mismatch) (private_from_bytes p sk_bytes)
    ok (sign_msg p typed_sk message nonce)

  unfoldable pub verify : DynPublicKey → Bytes → Bytes → Option SignatureOpts → Fallible Bool
  verify pk message signature opts =
      if has_context opts
      then ok false
      else succeeds (do
        pk_bytes ← pk.marshal_binary
        typed_pk ← public_from_bytes p pk_bytes
        verify_sig p typed_pk message signature)

  unfoldable pub unmarshal_binary_public_key : Bytes → Fallible DynPublicKey
  unmarshal_binary_public_key buf = map_ok dyn_public (public_from_bytes p buf)

  unfoldable pub unmarshal_binary_private_key : Bytes → Fallible DynPrivateKey
  unmarshal_binary_private_key buf = map_ok dyn_private (private_from_bytes p buf)

  -- The implementation of `sign::Scheme`, over the hash of the derivation.
  unfoldable pub scheme : Hashes → Scheme
  scheme h = record {
    name = "P-521";
    generate_key = scheme_generate_key;
    derive_key = derive_key h;
    sign = sign;
    verify = verify;
    unmarshal_binary_public_key = unmarshal_binary_public_key;
    unmarshal_binary_private_key = unmarshal_binary_private_key;
    public_key_size = public_key_size;
    private_key_size = private_key_size;
    signature_size = signature_size;
    seed_size = seed_size;
    supports_context = false;
    supports_priv_key_unmarshal = true;
  }

  unfoldable pub generate_key_typed : Entropy → Fallible (PublicKey p × PrivateKey p)
  generate_key_typed entropy = P521.generate_key p entropy

  unfoldable pub derive_key_typed : Hashes → Bytes → Fallible (PublicKey p × PrivateKey p)
  derive_key_typed h seed = derive_keypair_from_seed p h seed

  unfoldable pub unmarshal_public_key_typed : Bytes → Fallible (PublicKey p)
  unmarshal_public_key_typed buf = public_from_bytes p buf

  unfoldable pub unmarshal_private_key_typed : Bytes → Fallible (PrivateKey p)
  unmarshal_private_key_typed buf = private_from_bytes p buf

  unfoldable pub sign_typed : PrivateKey p → Bytes → Option SignatureOpts → Bytes → Fallible Bytes
  sign_typed sk msg opts nonce = do
    assert_that (not (has_context opts)) err_context_not_supported
    ok (sign_msg p sk msg nonce)

  unfoldable pub verify_typed : PublicKey p → Bytes → Bytes → Option SignatureOpts → Fallible Bool
  verify_typed pk msg sig opts = succeeds (verify_sig p pk msg sig)

module _ (p : P521Ecdsa) (laws : P521Laws p) (sk : PrivateKey p) (msg nonce : Bytes)
    (opts : Option SignatureOpts) where
  -- Through the dynamic interface a key signs and its public key verifies if the options have no
  -- context; with a context signing panics and verification of anything is false.
  pub verify-sign :
      (has_context opts ≡ false
        → (sig : Bytes) × (sign p (dyn_private p sk) msg opts nonce ≡ ok sig)
          × (verify p (dyn_public p (public_key_typed p sk)) msg sig opts ≡ ok true))
      × (has_context opts ≡ true
          → Panics (sign p (dyn_private p sk) msg opts nonce)
            × ((pk : DynPublicKey) (sig : Bytes) → verify p pk msg sig opts ≡ ok false))
  unfolding sign verify dyn_private dyn_public
  verify-sign = (
    λ plain_opts. (
      sign_msg p sk msg nonce,
      rw (plain_opts, private_from_bytes-as_bytes p laws sk) refl,
      rw
          (
            plain_opts,
            public_from_bytes-as_bytes p laws (public_key_typed p sk),
            (verify_sig-public_key_typed p laws sk msg nonce).1,
          )
          refl,
    ),
    λ context. (rw context tt, λ pk sig. rw context refl),
  )
