-- ===== src/Examples/Wallets.antt =====
-- Paths, phrases and wallets on small inputs.
use blackchain_crypto_lib_ru.Api.{create_wallet, restore_wallet}
use blackchain_crypto_lib_ru.Api.Creation.{account_indices, create_wallet_total}
use blackchain_crypto_lib_ru.Api.Wallets.{restore_wallet-create_wallet}
use blackchain_crypto_lib_ru.Crates.Toy.{toy, toy-CrateLaws}
use blackchain_crypto_lib_ru.Base.{
  ◌≡◌, ℕ, false, length, length-take, length-append, length-replicate, [], ◌∷◌, All, Bytes, Chars,
  codes, ok, refl, inr, count_words, is_whitespace, take, drop, ◌++◌, replicate, arith,
}
use blackchain_crypto_lib_ru.HdWallet.Derivation.{
  check_hardened, derive_children, derive_step, derive_child_seed, derive_mdecc_curve_seed,
}
use blackchain_crypto_lib_ru.Crates.{Entropy}
use blackchain_crypto_lib_ru.Crates.Toy.Signatures.{toy_hashes}
use blackchain_crypto_lib_ru.Crypto.Keys.{generate_total}
use blackchain_crypto_lib_ru.Crypto.PrivateKey.{BlackChainPrivateKey, generate}
use blackchain_crypto_lib_ru.Crypto.PublicKey.{BlackChainPublicKey}
use blackchain_crypto_lib_ru.P521.Derive
use blackchain_crypto_lib_ru.HdWallet.Hardened.{IsHardened, parse_hardened_path-IsHardened}
use blackchain_crypto_lib_ru.HdWallet.Mnemonic.{generate_mnemonic, seed_from_mnemonic}
use blackchain_crypto_lib_ru.HdWallet.Path.{parse_hardened_path}

parsed : parse_hardened_path (codes "m/44'/0") ≡ ok (0x8000_002c ∷ 0x8000_0000 ∷ [])
unfolding parse_hardened_path
parsed = refl

parse_hardened_path-IsHardened_example :
    All IsHardened (0x8000_002c ∷ 0x8000_0000 ∷ [])
    × (check_hardened 0 (0x8000_002c ∷ 0x8000_0000 ∷ []) ≡ ok tt)
parse_hardened_path-IsHardened_example =
    parse_hardened_path-IsHardened (codes "m/44'/0") (0x8000_002c ∷ 0x8000_0000 ∷ []) parsed

abbrev pub phrase : Chars
phrase = codes "a b c d e f g h i j k l m n o p q r s t u v w x"

abbrev pub entropy : Entropy
entropy n = inr phrase

-- The seed that the default path gives below the phrase.
abbrev pub child_seed : Bytes
child_seed =
    take 32 (0 ∷ 0 ∷ 0 ∷ 60 ∷ 44 ∷ codes "a b c d e f g h i j k l m n o p q r s t u v w x")
    ++ replicate 32 1

derived :
    derive_mdecc_curve_seed toy.hashes (take 32 (drop 32 child_seed)) 1 66 ≡ ok (replicate 66 1)
unfolding derive_mdecc_curve_seed toy_hashes replicate
derived = refl

taken : ¬ Derive.Rejected toy.ecdsa toy.hashes (replicate 66 1) 1
unfolding toy_hashes replicate
taken = λ h. let (e, same) = h in cc

pub child_keys :
    (sk : BlackChainPrivateKey) × (pk : BlackChainPublicKey) × (generate toy child_seed
      ≡ ok (sk, pk))
unfolding replicate
child_keys =
    (generate_total toy toy-CrateLaws child_seed
        (λ long. (replicate 66 1, derived, 1, omega arith, taken))).1
      (omega arith)

words_counted : count_words false phrase ≡ 24
unfolding count_words is_whitespace
words_counted = refl

key_sized : (key : Bytes) → length (take 32 (key ++ replicate 32 0)) ≡ 32
key_sized key =
    length-take 32 (key ++ replicate 32 0)
      (omega (arith, length-append key (replicate 32 0), length-replicate {A = ℕ} 32 0))

child_derived :
    derive_child_seed toy.bip32 (toy.bip39.to_seed phrase []) account_indices ≡ ok child_seed
unfolding derive_child_seed derive_children derive_step check_hardened replicate
child_derived = refl

created : create_wallet toy [] entropy ≡ ok (phrase, child_keys.0)
unfolding create_wallet restore_wallet generate_mnemonic seed_from_mnemonic parse_hardened_path
    derive_child_seed derive_children derive_step check_hardened count_words replicate
created = rw child_keys.2 refl

pub restored : restore_wallet toy phrase [] ≡ ok child_keys.0
restored = (restore_wallet-create_wallet toy toy-CrateLaws [] entropy phrase child_keys.0 created).0

-- The toy crates take the drawn bytes as the phrase.
create_wallet_total_example :
    (key : BlackChainPrivateKey) × (generate toy child_seed ≡ ok (key, key.public))
    × (create_wallet toy [] entropy ≡ ok (phrase, key))
    × (restore_wallet toy phrase [] ≡ ok key)
create_wallet_total_example =
    create_wallet_total toy toy-CrateLaws entropy phrase phrase [] child_seed (replicate 66 1) 1
      refl refl words_counted refl key_sized (λ key. length-replicate 32 1) child_derived derived
      (omega arith) taken
