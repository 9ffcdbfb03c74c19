-- ===== src/Crates/Toy.antt =====
-- Small functions in the place of the crates, which meet their laws: the witnesses run on them.
pub mod Group
pub mod Signatures
pub mod Curve
pub mod Wire
pub mod Text
use blackchain_crypto_lib_ru.Base.{inr, take, ◌++◌, replicate, Bytes}
use blackchain_crypto_lib_ru.Crates.{Crates, Bip39, Bip32}
use blackchain_crypto_lib_ru.Crates.Laws.{CrateLaws}
use Group.{toy_goldilocks, toy_curve_laws}
use Signatures.{
  toy_hashes, toy_ml_dsa, toy_p521, toy_hashes-HashLaws, toy_ml_dsa-MlDsaLaws, toy_p521-P521Laws,
}
use Curve.{toy_ed448_rust, toy_ed448_rust-Ed448RustLaws}
use Wire.{toy_rlp, toy_rlp-RlpLaws}

-- A phrase is its entropy.
abbrev pub toy_bip39 : Bip39
toy_bip39 = record {
  Mnemonic = Bytes;
  from_entropy = λ entropy. inr entropy;
  to_string = λ m. m;
  parse = λ phrase. inr phrase;
  to_seed = λ m passphrase. take 64 (m ++ (passphrase ++ replicate 64 0));
}

-- A child key is the key behind its index.
abbrev pub toy_bip32 : Bip32
toy_bip32 = record {
  XPrv = Bytes;
  ChildNumber = Bytes;
  new_key = λ seed. inr seed;
  new_child_number = λ index hardened. inr (replicate 1 index);
  derive_child = λ key child. inr (child ++ key);
  private_key_bytes = λ key. take 32 (key ++ replicate 32 0);
  chain_code = λ key. replicate 32 1;
}

abbrev pub toy : Crates
toy = record {
  hashes = toy_hashes;
  ml_dsa = toy_ml_dsa;
  ecdsa = toy_p521;
  ed448_rust = toy_ed448_rust;
  goldilocks = toy_goldilocks;
  bip39 = toy_bip39;
  bip32 = toy_bip32;
  rlp = toy_rlp;
}

pub toy-CrateLaws : CrateLaws toy
toy-CrateLaws = record {
  hash_laws = toy_hashes-HashLaws;
  ml_dsa_laws = toy_ml_dsa-MlDsaLaws;
  p521_laws = toy_p521-P521Laws;
  curve_laws = toy_curve_laws;
  rust_laws = toy_ed448_rust-Ed448RustLaws;
  rlp_laws = toy_rlp-RlpLaws;
}
