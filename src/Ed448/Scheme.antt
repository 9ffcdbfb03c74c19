-- ===== src/Ed448/Scheme.antt =====
-- src/mdecc/ed448.rs: the dynamic and the typed scheme of Ed448 over the functions of `Ed448`.
-- The text of the error that `expect` and `panic!` show behind theirs is left out.
pub mod Contract
pub mod Refusals
use blackchain_crypto_lib_ru.Base.{
  Bool, true, Option, [], ◌∷◌, ◌++◌, ◌==◌, Bytes, ok, ◌>>=◌, ◌>>◌, assert_that, or_panic, map_ok,
  succeeds, plain, text, number, length,
}
use blackchain_crypto_lib_ru.Crates.{Hashes, Ed448Rust, Goldilocks, Entropy}
use blackchain_crypto_lib_ru.Ed448.{
  seed_size, public_key_size, private_key_size, signature_size, PublicKey, PrivateKey, as_bytes,
  public_from_bytes, verify_sig, sign_msg, from_seed, private_from_bytes,
}
use blackchain_crypto_lib_ru.Ed448
use blackchain_crypto_lib_ru.Error.{Fallible, display}
use blackchain_crypto_lib_ru.Sign.{
  SignatureOpts, DynPublicKey, DynPrivateKey, Scheme, same_sized, err_type_mismatch, err_seed_size,
}

module _ (h : Hashes) (r : Ed448Rust) (g : Goldilocks) where
  unfoldable pub dyn_public : PublicKey h r g → DynPublicKey
  dyn_public pk = record {
    marshal_binary = ok pk.raw;
    equal = same_sized public_key_size (ok pk.raw);
  }

  unfoldable pub dyn_private : PrivateKey h r g → DynPrivateKey
  dyn_private sk = record {
    marshal_binary = as_bytes h r g sk;
    public_key_bytes = sk.public.raw;
    equal = same_sized private_key_size (as_bytes h r g sk);
  }

  abbrev pub boxed : PublicKey h r g × PrivateKey h r g → DynPublicKey × DynPrivateKey
  boxed (pk, sk) = (dyn_public pk, dyn_private sk)

  -- `PrivateKey::try_from`
  unfoldable pub private_try_from : Bytes → Fallible (PrivateKey h r g)
  private_try_from bytes = map_ok (λ pair. pair.1) (private_from_bytes h r g bytes)

  unfoldable pub new_key_from_seed : Bytes → Fallible (PublicKey h r g × PrivateKey h r g)
  new_key_from_seed seed = from_seed h r g seed

  unfoldable pub scheme_generate_key : Entropy → Fallible (DynPublicKey × DynPrivateKey)
  scheme_generate_key entropy = map_ok boxed (Ed448.generate_key h r g entropy)

  unfoldable pub derive_key : Bytes → Fallible (DynPublicKey × DynPrivateKey)
  derive_key seed = do
    assert_that (length seed == seed_size)
        (err_seed_size ++ text "; expected 57, got " ∷ number (length seed) ∷ [])
    map_ok boxed (new_key_from_seed seed)

  unfoldable pub sign : DynPrivateKey → Bytes → Option SignatureOpts → Fallible Bytes
  sign sk message opts = do
    sk_bytes ← or_panic (λ e. plain "marshal private key") sk.marshal_binary
    typed_sk ← or_panic (λ e. err_type_mismatch) (private_try_from sk_bytes)
    or_panic (λ e. plain "ed448 sign") (sign_msg h r g typed_sk message opts)

  unfoldable pub verify : DynPublicKey → Bytes → Bytes → Option SignatureOpts → Fallible Bool
  verify pk message signature opts = succeeds (do
    pk_bytes ← pk.marshal_binary
    typed_pk ← public_from_bytes h r g pk_bytes
    verify_sig h r g typed_pk message signature opts)

  unfoldable pub unmarshal_binary_public_key : Bytes → Fallible DynPublicKey
  unmarshal_binary_public_key buf = map_ok dyn_public (public_from_bytes h r g buf)

  unfoldable pub unmarshal_binary_private_key : Bytes → Fallible DynPrivateKey
  unmarshal_binary_private_key buf =
      map_ok (λ pair. dyn_private pair.1) (private_from_bytes h r g buf)

  -- The implementation of `sign::Scheme`; signing is deterministic.
  unfoldable pub scheme : Scheme
  scheme = record {
    name = "Ed448";
    generate_key = scheme_generate_key;
    derive_key = derive_key;
    sign = λ sk message opts nonce. sign sk message opts;
    verify = verify;
    unmarshal_binary_public_key = unmarshal_binary_public_key;
    unmarshal_binary_private_key = unmarshal_binary_private_key;
    public_key_size = public_key_size;
    private_key_size = private_key_size;
    signature_size = signature_size;
    seed_size = seed_size;
    supports_context = true;
    supports_priv_key_unmarshal = true;
  }

  unfoldable pub generate_key_typed : Entropy → Fallible (PublicKey h r g × PrivateKey h r g)
  generate_key_typed entropy = Ed448.generate_key h r g entropy

  unfoldable pub derive_key_typed : Bytes → Fallible (PublicKey h r g × PrivateKey h r g)
  derive_key_typed seed = new_key_from_seed seed

  unfoldable pub unmarshal_public_key_typed : Bytes → Fallible (PublicKey h r g)
  unmarshal_public_key_typed buf = public_from_bytes h r g buf

  unfoldable pub unmarshal_private_key_typed : Bytes → Fallible (PrivateKey h r g)
  unmarshal_private_key_typed buf = private_try_from buf

  unfoldable pub sign_typed : PrivateKey h r g → Bytes → Option SignatureOpts → Fallible Bytes
  sign_typed sk msg opts = or_panic (λ e. plain "ed448 sign") (sign_msg h r g sk msg opts)

  unfoldable pub verify_typed :
      PublicKey h r g → Bytes → Bytes → Option SignatureOpts → Fallible Bool
  verify_typed pk msg sig opts = succeeds (verify_sig h r g pk msg sig opts)
