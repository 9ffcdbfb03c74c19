-- ===== src/Examples/Browser.antt =====
-- The calls of a browser wallet on small inputs.
use blackchain_crypto_lib_ru.Base.{
  ◌^◌, ◌<◌, ◌≤◌, err, text, number, ◌≡◌, ◌↔◌, refl, Bool, true, [], ◌∷◌, ◌++◌, Chars, ok, replicate,
  arith,
}
use blackchain_crypto_lib_ru.Crates.Toy.{toy, toy-CrateLaws}
use blackchain_crypto_lib_ru.Crates.Toy.Text.{toy_formats, toy_formats_printed}
use blackchain_crypto_lib_ru.Crypto.Checks.{Authentic}
use blackchain_crypto_lib_ru.Crypto.Encoding.{from_bytes-to_bytes, IsKeyPair-IsComposite}
use blackchain_crypto_lib_ru.Crypto.Keys.{generate-IsKeyPair}
use blackchain_crypto_lib_ru.Crypto.PublicKey.{from_bytes, to_bytes}
use blackchain_crypto_lib_ru.Examples.Shared.{
  seed, public_key, private_key, made, message, transaction,
}
use blackchain_crypto_lib_ru.Examples.Wallets.{phrase, child_keys, restored}
use blackchain_crypto_lib_ru.Error.{custom}
use blackchain_crypto_lib_ru.HdWallet.Path.{parse_hardened_path}
use blackchain_crypto_lib_ru.Wasm.Accounts.{parse_hardened_path-account_path}
use blackchain_crypto_lib_ru.Wasm.{
  account_path, BlackWallet, address, from_mnemonic, recover_sender, sign_transaction,
  verify_message,
}
use blackchain_crypto_lib_ru.Wasm.Calls.{recover_sender-sign_json, verify_message_answers}

parsed : from_bytes toy (to_bytes public_key) ≡ ok public_key
parsed = from_bytes-to_bytes toy public_key (
    IsKeyPair-IsComposite toy toy-CrateLaws private_key public_key
      (generate-IsKeyPair toy toy-CrateLaws seed private_key public_key made).1)

verify_message_answers_example :
    (answer : Bool) × (verify_message toy message (1 ∷ []) (to_bytes public_key) ≡ ok answer)
    × ((answer ≡ true)
        ↔ Authentic toy public_key
            (toy.hashes.keccak256 message)
            (toy.hashes.shake256
              (public_key.dilithium ++ (public_key.p521 ++ (public_key.ed448 ++ replicate 16 0)))
              32)
            (1 ∷ []))
verify_message_answers_example =
    verify_message_answers toy message (1 ∷ []) (to_bytes public_key) public_key parsed

abbrev wallet : BlackWallet
wallet = record { key = child_keys.0; phrase = phrase }

unlocked : from_mnemonic toy phrase [] ≡ ok wallet
unfolding from_mnemonic
unlocked = rw restored refl

abbrev tx_json : Chars
tx_json = (toy_formats_printed transaction).0

recover_sender-sign_json_example :
    (signed sender : Chars) × (sign_transaction toy toy_formats wallet tx_json (1 ∷ []) ≡ ok signed)
    × (address toy toy_formats wallet ≡ ok sender)
    × (recover_sender toy toy_formats signed ≡ ok sender)
recover_sender-sign_json_example =
    recover_sender-sign_json toy toy-CrateLaws toy_formats toy_formats_printed phrase [] tx_json
      (1 ∷ []) wallet transaction unlocked (toy_formats_printed transaction).2 (omega arith)

parse_hardened_path-account_path_example :
    (7 < 2 ^ 31
      → parse_hardened_path (account_path 7)
        ≡ ok (0x8000_002c ∷ 0x8000_003c ∷ 0x8000_0000 ∷ 0x8000_0000 ∷ 0x8000_0007 ∷ []))
    × (2 ^ 31 ≤ 7
        → 7 < 2 ^ 32
        → parse_hardened_path (account_path 7)
          ≡ err (
              custom (text "BIP32: index too large before hardening at position " ∷ number 4 ∷ [])))
parse_hardened_path-account_path_example = parse_hardened_path-account_path 7
