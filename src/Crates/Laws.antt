-- ===== src/Crates/Laws.antt =====
-- What is documented of the crates, and what the library relies on.
mod Signatures
mod Curve
mod Wire
pub use Signatures.*
pub use Curve.*
pub use Wire.*
use Signatures.{HashLaws, MlDsaLaws, P521Laws}
use Curve.{GoldilocksLaws, Ed448RustLaws}
use Wire.{RlpLaws}
use blackchain_crypto_lib_ru.Crates.{Crates}

pub record CrateLaws (c : Crates) : Type 0 where
  pub hash_laws : HashLaws c.hashes
  pub ml_dsa_laws : MlDsaLaws c.ml_dsa
  pub p521_laws : P521Laws c.ecdsa
  pub curve_laws : GoldilocksLaws c.goldilocks
  pub rust_laws : Ed448RustLaws c.hashes c.ed448_rust c.goldilocks curve_laws
  pub rlp_laws : RlpLaws c.rlp
