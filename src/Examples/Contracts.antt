-- ===== src/Examples/Contracts.antt =====
-- The contract of the three schemes on small crates.
use blackchain_crypto_lib_ru.Crates.Toy.Curve.{toy_ed448_rust, toy_ed448_rust-Ed448RustLaws}
use blackchain_crypto_lib_ru.Crates.Toy.Group.{toy_goldilocks, toy_curve_laws}
use blackchain_crypto_lib_ru.Crates.Toy.Signatures.{
  toy_hashes, toy_hashes-HashLaws, toy_ml_dsa, toy_ml_dsa-MlDsaLaws, toy_p521, toy_p521-P521Laws,
}
use blackchain_crypto_lib_ru.Dilithium
use blackchain_crypto_lib_ru.Dilithium.Scheme
use blackchain_crypto_lib_ru.Dilithium.Scheme.Contract.{ml_dsa_scheme-Honours}
use blackchain_crypto_lib_ru.Ed448.Scheme.Contract.{ed448_scheme-Honours}
use blackchain_crypto_lib_ru.Ed448
use blackchain_crypto_lib_ru.P521
use blackchain_crypto_lib_ru.P521.Scheme.Contract.{p521_scheme-Honours}
use blackchain_crypto_lib_ru.Sign.Contract.{Honours}

ml_dsa_scheme-Honours_example : Honours (Dilithium.Scheme.scheme toy_ml_dsa)
ml_dsa_scheme-Honours_example = ml_dsa_scheme-Honours toy_ml_dsa toy_ml_dsa-MlDsaLaws

p521_scheme-Honours_example : Honours (P521.Scheme.scheme toy_p521 toy_hashes)
p521_scheme-Honours_example =
    p521_scheme-Honours toy_p521 toy_p521-P521Laws toy_hashes toy_hashes-HashLaws

ed448_scheme-Honours_example :
    Honours (Ed448.Scheme.scheme toy_hashes toy_ed448_rust toy_goldilocks)
ed448_scheme-Honours_example =
    ed448_scheme-Honours toy_hashes toy_hashes-HashLaws toy_ed448_rust toy_goldilocks toy_curve_laws
      toy_ed448_rust-Ed448RustLaws
