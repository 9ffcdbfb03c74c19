-- ===== src/Sign.antt =====
-- src/sign.rs: the options, the sentinel texts and the traits that the three backends share. A
-- trait object is the record of its methods; `&self` is the record's own closure, and the method
-- `scheme` of a key, which leads back to its scheme, is left out.
pub mod Contract
use blackchain_crypto_lib_ru.Base.{
  none, some, if◌then◌else◌, ◌>>=◌, false, not, ok, err, panic, bytes_eq, length, ◌==◌, ℕ, Bool,
  Option, String, Bytes, Message, plain,
}
use blackchain_crypto_lib_ru.Error.{Fallible}
use blackchain_crypto_lib_ru.Crates.{Entropy}

-- The context is kept as its UTF-8 bytes.
pub record SignatureOpts : Type 0 where
  pub context : Bytes

abbrev pub err_type_mismatch : Message
err_type_mismatch = plain "types mismatch"

abbrev pub err_seed_size : Message
err_seed_size = plain "wrong seed size"

abbrev pub err_context_not_supported : Message
err_context_not_supported = plain "context not supported"

-- `dyn PublicKey`
pub record DynPublicKey : Type 0 where
  pub marshal_binary : Fallible Bytes
  pub equal : Fallible Bytes → Fallible Bool

-- `dyn PrivateKey`
pub record DynPrivateKey : Type 0 where
  pub marshal_binary : Fallible Bytes
  pub public_key_bytes : Bytes
  pub equal : Fallible Bytes → Fallible Bool

-- `dyn Scheme`. `sign` takes the random bytes of a randomised scheme last. A method that can panic gives
-- a `Fallible`, also where the source has no `Result`.
pub record Scheme : Type 0 where
  pub name : String
  pub generate_key : Entropy → Fallible (DynPublicKey × DynPrivateKey)
  pub derive_key : Bytes → Fallible (DynPublicKey × DynPrivateKey)
  pub sign : DynPrivateKey → Bytes → Option SignatureOpts → Bytes → Fallible Bytes
  pub verify : DynPublicKey → Bytes → Bytes → Option SignatureOpts → Fallible Bool
  pub unmarshal_binary_public_key : Bytes → Fallible DynPublicKey
  pub unmarshal_binary_private_key : Bytes → Fallible DynPrivateKey
  pub public_key_size : ℕ
  pub private_key_size : ℕ
  pub signature_size : ℕ
  pub seed_size : ℕ
  pub supports_context : Bool
  pub supports_priv_key_unmarshal : Bool

-- `if let Some(o) = opts && !o.context.is_empty()`
abbrev pub has_context : Option SignatureOpts → Bool
has_context none = false
has_context (some o) = not (length o.context == 0)

-- Constant-time equality with what another key marshals to, false on its error.
abbrev pub same_bytes : Bytes → Fallible Bytes → Fallible Bool
same_bytes mine (ok other) = ok (bytes_eq other mine)
same_bytes mine (err e) = ok false
same_bytes mine (panic m) = panic m

-- The same with a test of the length first, against what this key marshals to.
abbrev pub same_sized : ℕ → Fallible Bytes → Fallible Bytes → Fallible Bool
same_sized n mine (ok other) =
    if length other == n then (do bytes ← mine; ok (bytes_eq other bytes)) else ok false
same_sized n mine (err e) = ok false
same_sized n mine (panic m) = panic m
