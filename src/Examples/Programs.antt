-- ===== src/Examples/Programs.antt =====
-- The demonstrations on small seeds.
use blackchain_crypto_lib_ru.Base.{
  true, count_words, ◌≡◌, refl, [], ◌∷◌, ok, replicate, length-replicate, copy_from_slice, slice,
  arith,
}
use blackchain_crypto_lib_ru.Api.{create_wallet, restore_wallet}
use blackchain_crypto_lib_ru.Crates.Toy.{toy, toy-CrateLaws}
use blackchain_crypto_lib_ru.Crates.Toy.Signatures.{toy_hashes, toy_hashes-HashLaws}
use blackchain_crypto_lib_ru.Dilithium
use blackchain_crypto_lib_ru.Ed448
use blackchain_crypto_lib_ru.Examples.Shared.{seed, taken}
use blackchain_crypto_lib_ru.Examples.Wallets.{phrase, entropy, child_keys}
use blackchain_crypto_lib_ru.HdWallet.Derivation.{
  derive_mdecc_curve_seed, check_hardened, derive_children, derive_step, derive_child_seed,
}
use blackchain_crypto_lib_ru.HdWallet.Mnemonic.{generate_mnemonic, seed_from_mnemonic}
use blackchain_crypto_lib_ru.HdWallet.Path.{parse_hardened_path}
use blackchain_crypto_lib_ru.P521
use blackchain_crypto_lib_ru.P521.Derive
use blackchain_crypto_lib_ru.Programs.Demo
use blackchain_crypto_lib_ru.Programs.Demo.Run.{main-create_wallet}
use blackchain_crypto_lib_ru.Programs.LowLevelDemo.{
  DemoKeys, derive_keys, derive_curve_keys, sign_and_verify,
}
use blackchain_crypto_lib_ru.Programs.LowLevelDemo.Keys.{keys_for}
use blackchain_crypto_lib_ru.Programs.LowLevelDemo.Run.{sign_and_verify-derive_keys}

searched :
    (sk : P521.PrivateKey toy.ecdsa) × (P521.derive_keypair_from_seed toy.ecdsa toy.hashes
        (replicate 66 7)
      ≡ ok (P521.public_key_typed toy.ecdsa sk, sk))
searched =
    Derive.derive_keypair_from_seed_total toy.ecdsa toy.hashes toy_hashes-HashLaws (replicate 66 7)
      1 (length-replicate 66 7) (omega arith) taken

abbrev keys : DemoKeys toy
keys =
    keys_for toy toy-CrateLaws (replicate 32 7) searched.0
      (toy.ed448_rust.private_from (replicate 57 7))

keys_derived : derive_keys toy seed ≡ ok keys
unfolding derive_keys derive_curve_keys P521.Scheme.derive_key_typed Ed448.Scheme.new_key_from_seed
    Ed448.from_seed Ed448.from_trusted_inner Ed448.as_bytes Dilithium.new_key_from_seed
    Dilithium.from_seed Dilithium.private_from_bytes Dilithium.seed_from_slice Dilithium.pack
    Dilithium.pack_private derive_mdecc_curve_seed toy_hashes replicate copy_from_slice slice
keys_derived = rw searched.1 refl

sign_and_verify-derive_keys_example : sign_and_verify toy keys (1 ∷ []) ≡ ok tt
sign_and_verify-derive_keys_example =
    sign_and_verify-derive_keys toy toy-CrateLaws seed (1 ∷ []) keys keys_derived

demo_created : create_wallet toy Demo.secure_passphrase entropy ≡ ok (phrase, child_keys.0)
unfolding create_wallet restore_wallet generate_mnemonic seed_from_mnemonic parse_hardened_path
    derive_child_seed derive_children derive_step check_hardened count_words replicate
demo_created = rw child_keys.2 refl

main-create_wallet_example : Demo.main toy entropy [] (1 ∷ []) ≡ ok true
main-create_wallet_example =
    main-create_wallet toy toy-CrateLaws entropy [] (1 ∷ []) phrase child_keys.0 demo_created
