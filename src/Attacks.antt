-- ===== src/Attacks.antt =====
-- src/attack_vectors.rs: inputs of an attacker against the library. Each attack is a function that
-- panics where an assertion of it fails; the children hold the attacks and what is true of them.
pub mod Malleation
pub mod Splicing
pub mod Tampering
pub mod Degenerate
use blackchain_crypto_lib_ru.Base.{
  ℕ, zero, suc, ◌+◌, ◌%◌, bit_xor, bit_or, panic, some, none, [], ◌∷◌, ◌++◌, Bytes, Message, ◌⊎◌,
  plain, ok, ◌>>=◌, ◌>>◌, from_crate, or_panic, unwrapped, slice, copy_from_slice, length, take,
  drop, replicate,
}
use blackchain_crypto_lib_ru.Crates.{Crates, P521Ecdsa}
use blackchain_crypto_lib_ru.Crypto.PrivateKey.{BlackChainPrivateKey, generate}
use blackchain_crypto_lib_ru.Crypto.PublicKey.{BlackChainPublicKey}
use blackchain_crypto_lib_ru.Dilithium
use blackchain_crypto_lib_ru.Ed448
use blackchain_crypto_lib_ru.Error.{Fallible}
use blackchain_crypto_lib_ru.P521
use blackchain_crypto_lib_ru.Transaction.Types.{BlackChainTxType}

-- The bytes of the seed of a tag from index `i` on, for the bytes that are left.
unfoldable pub tagged_seed : ℕ → ℕ → ℕ → Bytes
tagged_seed zero i tag = []
tagged_seed (suc left) i tag = bit_xor (bit_xor i tag) 0x5a ∷ tagged_seed left (i + 1) tag

abbrev pub sample_tx : BlackChainTxType
sample_tx = record {
  chain_id = 1;
  nonce = 3;
  max_priority_fee_per_gas = 1500000000;
  max_fee_per_gas = 30000000000;
  gas_limit = 21000;
  to = some (replicate 20 0xaa);
  value = 1000000;
  input = 1 ∷ 2 ∷ 3 ∷ 4 ∷ [];
  v = none;
  r = none;
  s = none;
  pqc_signature = none;
  pub_key = none;
}

-- The bounds of the P-521 and of the Ed448 part of a composite signature.
abbrev pub p521_sig_range : ℕ × ℕ
p521_sig_range = (Dilithium.signature_size, Dilithium.signature_size + P521.signature_size)

abbrev pub ed448_sig_range : ℕ × ℕ
ed448_sig_range = (
  Dilithium.signature_size + P521.signature_size,
  Dilithium.signature_size + P521.signature_size + Ed448.signature_size,
)

-- `target[from..to].copy_from_slice(patch)`
unfoldable pub write_slice : ℕ → ℕ → Bytes → Bytes → Fallible Bytes
write_slice from to patch target = do
  old ← slice from to target
  new ← copy_from_slice (length old) patch
  ok (take from target ++ (new ++ drop to target))

-- `bytes[i] |= bits`
pub or_byte : ℕ → ℕ → Bytes → Fallible Bytes
or_byte i bits [] = panic (plain "index out of bounds")
or_byte zero bits (b ∷ bytes) = ok (bit_or b bits ∷ bytes)
or_byte (suc i) bits (b ∷ bytes) = do rest ← or_byte i bits bytes; ok (b ∷ rest)

-- The two scalars of a signature of `p521::ecdsa`: `r`, `s`, `-s` as bytes, and `from_scalars`.
pub record Scalars (p : P521Ecdsa) : Type 0 where
  pub r_bytes : p.Signature → Bytes
  pub s_bytes : p.Signature → Bytes
  pub neg_s_bytes : p.Signature → Bytes
  pub from_scalars : Bytes → Bytes → Message ⊎ p.Signature

unfoldable pub p521_high_s_twin : (p : P521Ecdsa) → Scalars p → Bytes → Fallible Bytes
p521_high_s_twin p scalars sig132 = do
  s ←
      or_panic (λ e. plain "valid P-521 signature")
        (from_crate (λ e. e) (p.signature_from_slice sig132))
  twin ←
      or_panic (λ e. plain "negated-s signature is well-formed")
        (from_crate (λ e. e) (scalars.from_scalars (scalars.r_bytes s) (scalars.neg_s_bytes s)))
  ok (p.signature_to_bytes twin)

-- A wallet from a tag.
unfoldable pub wallet : (c : Crates) → ℕ → Fallible (BlackChainPrivateKey × BlackChainPublicKey)
wallet c tag = unwrapped (generate c (tagged_seed 64 0 tag))
