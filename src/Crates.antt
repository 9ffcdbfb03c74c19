-- ===== src/Crates.antt =====
-- The code that the library calls and does not contain: hash functions, the three signature
-- crates, BIP-39, BIP-32 and RLP. Each crate is a record of the functions that the source uses;
-- every model takes the crates it needs as an argument. `Crates.Laws` states what is documented of
-- them, and `Crates.Toy` has small functions that meet the laws, for the witnesses.
pub mod Laws
pub mod Toy
use blackchain_crypto_lib_ru.Base.{ℕ, Bool, Option, ◌⊎◌, Bytes, Message}
use blackchain_crypto_lib_ru.Error.{RlpFailure}

-- The operating system's generator: the bytes that it gives for each length, or its failure.
abbrev pub Entropy : Type 0
Entropy = ℕ → Message ⊎ Bytes

-- sha3, sha2 and hkdf. `shake256 input n` reads n bytes; `hkdf_expand` is `none` when refused.
pub record Hashes : Type 0 where
  pub keccak256 : Bytes → Bytes
  pub shake256 : Bytes → ℕ → Bytes
  pub sha512 : Bytes → Bytes
  pub hkdf_expand : Bytes → ℕ → Option Bytes

-- ml_dsa: `seed_array` is `B32::try_from`, `key_array` is `EncodedVerifyingKey::try_from`.
pub record MlDsa : Type 1 where
  pub SigningKey : Type 0
  pub VerifyingKey : Type 0
  pub Signature : Type 0
  pub seed_array : Bytes → Option Bytes
  pub from_seed : Bytes → SigningKey
  pub to_seed : SigningKey → Bytes
  pub verifying_key : SigningKey → VerifyingKey
  pub encode : VerifyingKey → Bytes
  pub key_array : Bytes → Option Bytes
  pub decode : Bytes → VerifyingKey
  pub try_sign : SigningKey → Bytes → Option Signature
  pub encode_signature : Signature → Bytes
  pub signature_try_from : Bytes → Option Signature
  pub verify_with_context : VerifyingKey → Bytes → Bytes → Signature → Bool

-- p521::ecdsa. `sign` takes the random bytes that the crate draws for its nonce.
pub record P521Ecdsa : Type 1 where
  pub SigningKey : Type 0
  pub VerifyingKey : Type 0
  pub Signature : Type 0
  pub from_sec1_bytes : Bytes → Message ⊎ VerifyingKey
  pub to_encoded_point : VerifyingKey → Bytes
  pub verifying_key : SigningKey → VerifyingKey
  pub from_slice : Bytes → Message ⊎ SigningKey
  pub to_bytes : SigningKey → Bytes
  pub random : Entropy → SigningKey
  pub sign : SigningKey → Bytes → Bytes → Signature
  pub signature_from_slice : Bytes → Message ⊎ Signature
  pub signature_to_bytes : Signature → Bytes
  pub normalize_s : Signature → Option Signature
  pub verify : VerifyingKey → Bytes → Signature → Message ⊎ Unit {0}

-- ed448_rust: key expansion, signing, and verification by keys that it derived itself.
pub record Ed448Rust : Type 1 where
  pub PrivateKey : Type 0
  pub PublicKey : Type 0
  pub private_from : Bytes → PrivateKey
  pub private_bytes : PrivateKey → Bytes
  pub public_from : PrivateKey → PublicKey
  pub public_bytes : PublicKey → Bytes
  pub sign : PrivateKey → Bytes → Option Bytes → Message ⊎ Bytes
  pub sign_ph : PrivateKey → Bytes → Option Bytes → Message ⊎ Bytes
  pub verify : PublicKey → Bytes → Bytes → Option Bytes → Message ⊎ Unit {0}
  pub verify_ph : PublicKey → Bytes → Bytes → Option Bytes → Message ⊎ Unit {0}

-- ed448_goldilocks: points and scalars.
pub record Goldilocks : Type 1 where
  pub Point : Type 0
  pub Scalar : Type 0
  pub decompress : Bytes → Option Point
  pub identity : Point
  pub generator : Point
  pub double : Point → Point
  pub add : Point → Point → Point
  pub negate : Point → Point
  pub scalar_mul : Point → Scalar → Point
  pub point_eq : Point → Point → Bool
  pub from_canonical_bytes : Bytes → Option Scalar
  pub zero_scalar : Scalar
  pub from_u32 : ℕ → Scalar
  pub plus : Scalar → Scalar → Scalar
  pub times : Scalar → Scalar → Scalar

-- bip39.
pub record Bip39 : Type 1 where
  pub Mnemonic : Type 0
  pub from_entropy : Bytes → Message ⊎ Mnemonic
  pub to_string : Mnemonic → Bytes
  pub parse : Bytes → Message ⊎ Mnemonic
  pub to_seed : Mnemonic → Bytes → Bytes

-- bip32.
pub record Bip32 : Type 1 where
  pub XPrv : Type 0
  pub ChildNumber : Type 0
  pub new_key : Bytes → Message ⊎ XPrv
  pub new_child_number : ℕ → Bool → Message ⊎ ChildNumber
  pub derive_child : XPrv → ChildNumber → Message ⊎ XPrv
  pub private_key_bytes : XPrv → Bytes
  pub chain_code : XPrv → Bytes

-- alloy_rlp. `error_text` is the `Display` of its errors. Decoders return the value and the bytes that follow it.
pub record Rlp : Type 0 where
  pub error_text : RlpFailure → Message
  pub encode_u64 : ℕ → Bytes
  pub encode_u256 : ℕ → Bytes
  pub encode_bytes : Bytes → Bytes
  pub encode_address : Bytes → Bytes
  pub encode_header : Bool → ℕ → Bytes
  pub length_u64 : ℕ → ℕ
  pub length_u256 : ℕ → ℕ
  pub length_bytes : Bytes → ℕ
  pub length_address : Bytes → ℕ
  pub length_of_length : ℕ → ℕ
  pub decode_u64 : Bytes → RlpFailure ⊎ (ℕ × Bytes)
  pub decode_u256 : Bytes → RlpFailure ⊎ (ℕ × Bytes)
  pub decode_bytes : Bytes → RlpFailure ⊎ (Bytes × Bytes)
  pub decode_header : Bytes → RlpFailure ⊎ (Bool × ℕ × Bytes)

-- All of them, as the composite keys and the wallet use them.
pub record Crates : Type 1 where
  pub hashes : Hashes
  pub ml_dsa : MlDsa
  pub ecdsa : P521Ecdsa
  pub ed448_rust : Ed448Rust
  pub goldilocks : Goldilocks
  pub bip39 : Bip39
  pub bip32 : Bip32
  pub rlp : Rlp
