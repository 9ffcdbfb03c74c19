-- ===== src/Examples/Targets.antt =====
-- The fuzz targets, the ranges of decoded transactions and the hash to sign, on small inputs.
use blackchain_crypto_lib_ru.Base.{
  All, ◌≤◌, Panics, take, drop, ℕ, ◌%◌, ◌+◌, ◌^◌, ◌≡◌, ◌↔◌, refl, ap, false, true, [], ◌∷◌, ◌++◌,
  Bytes, codes, ok, replicate, length, length-replicate, arith, length-take, length-append,
}
use blackchain_crypto_lib_ru.Base.Returns.{Returns-eq}
use blackchain_crypto_lib_ru.Crates.Toy.{toy, toy-CrateLaws, toy_bip39}
use blackchain_crypto_lib_ru.Crates.Toy.Signatures.{toy_hashes}
use blackchain_crypto_lib_ru.Crypto.PublicKey.{BlackChainPublicKey, to_bytes, derive_address}
use blackchain_crypto_lib_ru.Ed448.Point.{byte_at}
use blackchain_crypto_lib_ru.Examples.Shared.{
  seed, made, public_key, transaction, transaction-IsValid,
}
use blackchain_crypto_lib_ru.Crypto.Keys.{generate_total}
use blackchain_crypto_lib_ru.Crypto.PrivateKey.{BlackChainPrivateKey, generate}
use blackchain_crypto_lib_ru.HdWallet.Derivation.{derive_mdecc_curve_seed}
use blackchain_crypto_lib_ru.P521.Derive
use blackchain_crypto_lib_ru.Transaction.Signing.Recovery.{VerifiesAs}
use blackchain_crypto_lib_ru.Fuzz.CompositeSigVerify
use blackchain_crypto_lib_ru.Fuzz.MnemonicSeed
use blackchain_crypto_lib_ru.Fuzz.PubkeyParse
use blackchain_crypto_lib_ru.Fuzz.SignatureHash
use blackchain_crypto_lib_ru.Fuzz.TxDecode
use blackchain_crypto_lib_ru.Fuzz.TxSignRecover
use blackchain_crypto_lib_ru.Transaction.Codec
use blackchain_crypto_lib_ru.HdWallet.Derivation.{derive_child_seed}
use blackchain_crypto_lib_ru.HdWallet.Mnemonic.{seed_from_mnemonic, validate_mnemonic}
use blackchain_crypto_lib_ru.Transaction.Signing.{signature_hash, unsigned}
use blackchain_crypto_lib_ru.Transaction.Signing.Commitment.{NoCollision, signature_hash_iff}
use blackchain_crypto_lib_ru.Transaction.Types.{BlackChainTxType}

-- The toy encoding of the transaction, with one byte behind it.
abbrev buffer : Bytes
buffer = 1 ∷ 31 ∷ 7 ∷ 1 ∷ 2 ∷ 30 ∷ 21000 ∷ 20 ∷ (replicate 20 9 ++ 1000 ∷ 3 ∷ 1 ∷ 2 ∷ 3 ∷ 5 ∷ [])

fuzz_tx_decode_total_example : TxDecode.fuzz_tx_decode toy buffer ≡ ok tt
fuzz_tx_decode_total_example = TxDecode.fuzz_tx_decode_total toy toy-CrateLaws buffer

abbrev sign_input : TxSignRecover.FuzzInput
sign_input = record {
  seed = seed;
  chain_id = 7;
  nonce = 1;
  gas_limit = 21000;
  value_lo = 1;
  value_hi = 2;
  max_priority_fee = 3;
  max_fee = 4;
  has_to = true;
  to_bytes = replicate 20 9;
  call_data = 5 ∷ [];
}

fuzz_tx_sign_recover_total_example :
    TxSignRecover.fuzz_tx_sign_recover toy sign_input (1 ∷ []) ≡ ok tt
fuzz_tx_sign_recover_total_example =
    TxSignRecover.fuzz_tx_sign_recover_total toy toy-CrateLaws sign_input (1 ∷ []) (omega arith)
      (Returns-eq made)

-- The toy hash keeps the first 32 bytes, among them the chain id.
chains_differ :
    (tx : BlackChainTxType) → tx.chain_id ≡ 7 → NoCollision toy tx (SignatureHash.next_chain tx)
unfolding unsigned SignatureHash.next_chain Codec.encode toy_hashes
chains_differ tx seven same =
    let chain : tx.chain_id ≡ (tx.chain_id + 1) % 2 ^ 64 = ap (λ l. byte_at l 3) same in
    absurd (omega arith)

signature_hash_iff_example :
    (signature_hash toy transaction ≡ signature_hash toy (SignatureHash.next_chain transaction))
    ↔ (unsigned transaction ≡ unsigned (SignatureHash.next_chain transaction))
signature_hash_iff_example =
    signature_hash_iff toy toy-CrateLaws transaction (SignatureHash.next_chain transaction)
      transaction-IsValid (SignatureHash.next_chain-IsValid transaction transaction-IsValid)
      (chains_differ transaction refl)

abbrev wallet_input : MnemonicSeed.FuzzInput
wallet_input = record {
  mnemonic = codes "a b c d e f g h i j k l m n o p q r s t u v w x";
  passphrase = [];
  master_seed = 1 ∷ [];
  path = 1 ∷ [];
  mdecc_seed = 2 ∷ [];
  curve_id = 3;
  seed_size = 2000;
  path_string = codes "m/44'";
}

seed_sized : (m password : Bytes) → length (toy_bip39.to_seed m password) ≡ 64
seed_sized m password = length-take 64 (m ++ (password ++ replicate 64 0)) (
    omega (
      arith,
      length-append m (password ++ replicate 64 0),
      length-append password (replicate 64 0),
      length-replicate {A = ℕ} 64 0,
    ))

fuzz_mnemonic_seed_total_example :
    (MnemonicSeed.fuzz_mnemonic_seed toy wallet_input ≡ ok tt)
    × ((validate_mnemonic toy_bip39 wallet_input.mnemonic ≡ true) ↔ (
        (seed : Bytes) × (seed_from_mnemonic toy_bip39 wallet_input.mnemonic [] ≡ ok seed)
        × (length seed ≡ 64)))
    × ((child : Bytes)
        → derive_child_seed toy.bip32 (1 ∷ []) (1 ∷ []) ≡ ok child
        → All (λ index. 0x8000_0000 ≤ index) (1 ∷ []))
fuzz_mnemonic_seed_total_example =
    MnemonicSeed.fuzz_mnemonic_seed_total toy toy-CrateLaws seed_sized wallet_input

fixed_derived :
    derive_mdecc_curve_seed toy.hashes (take 32 (drop 32 CompositeSigVerify.fixed_seed)) 1 66
    ≡ ok (replicate 66 237)
unfolding derive_mdecc_curve_seed toy_hashes replicate CompositeSigVerify.fixed_bytes
fixed_derived = refl

fixed_taken : ¬ Derive.Rejected toy.ecdsa toy.hashes (replicate 66 237) 1
unfolding toy_hashes replicate
fixed_taken = λ h. let (e, same) = h in cc

fixed_keys :
    (sk : BlackChainPrivateKey) × (pk : BlackChainPublicKey) × (generate toy
        CompositeSigVerify.fixed_seed
      ≡ ok (sk, pk))
unfolding CompositeSigVerify.fixed_bytes
fixed_keys =
    (generate_total toy toy-CrateLaws CompositeSigVerify.fixed_seed
        (λ long. (replicate 66 237, fixed_derived, 1, omega arith, fixed_taken))).1
      (omega arith)

fuzz_composite_sig_verify_iff_example :
    let tx = CompositeSigVerify.claimed_tx (1 ∷ []) (to_bytes fixed_keys.1) in
    (address : Bytes) × (derive_address toy fixed_keys.1 ≡ ok address)
    × (Panics (CompositeSigVerify.fuzz_composite_sig_verify toy (1 ∷ []) [])
        ↔ VerifiesAs toy (signature_hash toy tx) 1 (to_bytes fixed_keys.1) (1 ∷ []) address)
fuzz_composite_sig_verify_iff_example =
    CompositeSigVerify.fuzz_composite_sig_verify_iff toy toy-CrateLaws (1 ∷ []) [] fixed_keys.0
      fixed_keys.1 fixed_keys.2

fuzz_pubkey_parse_total_example : PubkeyParse.fuzz_pubkey_parse toy (to_bytes public_key) ≡ ok tt
fuzz_pubkey_parse_total_example =
    PubkeyParse.fuzz_pubkey_parse_total toy toy-CrateLaws (to_bytes public_key)

abbrev hash_input : SignatureHash.FuzzInput
hash_input = record {
  chain_id = 7;
  nonce = 1;
  gas_limit = 21000;
  max_priority_fee_lo = 1;
  max_priority_fee_hi = 2;
  max_fee_lo = 3;
  max_fee_hi = 4;
  value_lo = 5;
  value_hi = 6;
  has_to = true;
  to_bytes = replicate 20 9;
  call_data = 5 ∷ [];
  has_sig = true;
  v_val = 49;
  pqc_sig_len = 3;
  pub_key_len = 2;
}

hash_input-IsInput : SignatureHash.IsInput hash_input
hash_input-IsInput = record {
  chain_id_u64 = omega arith;
  nonce_u64 = omega arith;
  gas_limit_u64 = omega arith;
  max_priority_fee_lo_u64 = omega arith;
  max_fee_lo_u64 = omega arith;
  value_lo_u128 = omega arith;
  to_array = length-replicate 20 9;
}

on_chain_seven : (SignatureHash.build_tx hash_input false).chain_id ≡ 7
unfolding SignatureHash.build_tx
on_chain_seven = refl

fuzz_signature_hash_total_example : SignatureHash.fuzz_signature_hash toy hash_input ≡ ok tt
fuzz_signature_hash_total_example =
    SignatureHash.fuzz_signature_hash_total toy toy-CrateLaws hash_input hash_input-IsInput
      (chains_differ (SignatureHash.build_tx hash_input false) on_chain_seven)
