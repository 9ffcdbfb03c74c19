-- ===== src/Examples/Shared.antt =====
-- The seed, the keys and the transaction of the examples.
use blackchain_crypto_lib_ru.Base.{
  none, some, [], ◌∷◌, Bytes, ok, ◌≡◌, refl, replicate, take, drop, arith, plain,
}
use blackchain_crypto_lib_ru.Crates.Toy.{toy, toy-CrateLaws}
use blackchain_crypto_lib_ru.Crates.Toy.Signatures.{toy_hashes}
use blackchain_crypto_lib_ru.Crypto.Keys.{generate_total}
use blackchain_crypto_lib_ru.Crypto.PrivateKey.{BlackChainPrivateKey, generate}
use blackchain_crypto_lib_ru.Crypto.PublicKey.{BlackChainPublicKey}
use blackchain_crypto_lib_ru.HdWallet.Derivation.{derive_mdecc_curve_seed}
use blackchain_crypto_lib_ru.P521.Derive
use blackchain_crypto_lib_ru.Transaction.Types.{BlackChainTxType, IsValid}

abbrev pub seed : Bytes
seed = replicate 64 7

pub derived : derive_mdecc_curve_seed toy.hashes (take 32 (drop 32 seed)) 1 66 ≡ ok (replicate 66 7)
unfolding derive_mdecc_curve_seed toy_hashes replicate
derived = refl

-- The scalar of counter 0 is refused, that of counter 1 taken.
pub taken : ¬ Derive.Rejected toy.ecdsa toy.hashes (replicate 66 7) 1
unfolding toy_hashes replicate
taken = λ h. let (e, same) = h in cc

pub refused : Derive.Rejected toy.ecdsa toy.hashes (replicate 66 7) 0
unfolding toy_hashes replicate
refused = (plain "zero scalar", refl)

pub generated :
    (sk : BlackChainPrivateKey) × (pk : BlackChainPublicKey) × (generate toy seed ≡ ok (sk, pk))
unfolding replicate
generated =
    (generate_total toy toy-CrateLaws seed
        (λ long. (replicate 66 7, derived, 1, omega arith, taken))).1
      (omega arith)

abbrev pub private_key : BlackChainPrivateKey
private_key = generated.0

abbrev pub public_key : BlackChainPublicKey
public_key = generated.1

pub made : generate toy seed ≡ ok (private_key, public_key)
made = generated.2

abbrev pub message : Bytes
message = 104 ∷ 105 ∷ []

abbrev pub transaction : BlackChainTxType
transaction = record {
  chain_id = 7;
  nonce = 1;
  max_priority_fee_per_gas = 2;
  max_fee_per_gas = 30;
  gas_limit = 21000;
  to = some (replicate 20 9);
  value = 1000;
  input = 1 ∷ 2 ∷ 3 ∷ [];
  v = none;
  r = none;
  s = none;
  pqc_signature = none;
  pub_key = none;
}

pub transaction-IsValid : IsValid transaction
unfolding replicate
transaction-IsValid = record {
  chain_id_u64 = omega arith;
  nonce_u64 = omega arith;
  priority_u256 = omega arith;
  max_fee_u256 = omega arith;
  gas_limit_u64 = omega arith;
  to_address = refl;
  value_u256 = omega arith;
  v_u256 = tt;
  r_u256 = tt;
  s_u256 = tt;
}
