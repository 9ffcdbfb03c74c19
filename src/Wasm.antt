-- ===== src/Wasm.antt =====
-- src/wasm.rs: the calls of a browser wallet. A JS exception is the text of the error. serde_json and
-- hex are parameters.
pub mod Calls
pub mod Accounts
use blackchain_crypto_lib_ru.Api
use blackchain_crypto_lib_ru.Base.{
  ℕ, Bool, true, false, ◌⊎◌, inl, inr, [], ◌∷◌, ◌++◌, Bytes, Chars, Message, Result, ok, ◌>>=◌,
  attempt, codes, decimal, from_crate, map_err, map_ok,
}
use blackchain_crypto_lib_ru.Crates.{Crates, Entropy}
use blackchain_crypto_lib_ru.Crypto.PrivateKey
use blackchain_crypto_lib_ru.Crypto.PrivateKey.{BlackChainPrivateKey}
use blackchain_crypto_lib_ru.Crypto.PublicKey
use blackchain_crypto_lib_ru.Crypto.PublicKey.{
  BlackChainPublicKey, derive_address, to_bytes, from_bytes,
}
use blackchain_crypto_lib_ru.Error.{CryptoError, display}
use blackchain_crypto_lib_ru.HdWallet.Derivation.{derive_child_seed}
use blackchain_crypto_lib_ru.HdWallet.Mnemonic.{seed_from_mnemonic}
use blackchain_crypto_lib_ru.HdWallet.Mnemonic
use blackchain_crypto_lib_ru.HdWallet.Path.{parse_hardened_path}
use blackchain_crypto_lib_ru.Transaction.Signing
use blackchain_crypto_lib_ru.Transaction.Types.{BlackChainTxType}

-- `serde_json` on transactions, and `hex::encode`.
pub record TextFormats : Type 0 where
  pub from_str : Chars → Message ⊎ BlackChainTxType
  pub to_string : BlackChainTxType → Message ⊎ Chars
  pub hex_encode : Bytes → Chars

-- `Result<A, JsError>`
abbrev pub JsResult : Type 0 → Type 0
JsResult A = Result Message A

pub record BlackWallet : Type 0 where
  pub key : BlackChainPrivateKey
  pub phrase : Chars

-- The derivation path of an account.
unfoldable pub account_path : ℕ → Chars
account_path index = codes "m/44'/60'/0'/0'/" ++ (decimal 10 index ++ codes "'")

module _ (c : Crates) where
  unfoldable pub js_err : CryptoError → Message
  js_err e = display c.rlp.error_text e

  unfoldable pub create : Chars → Entropy → JsResult BlackWallet
  create passphrase entropy = do
    (mnemonic, key) ← map_err js_err (Api.create_wallet c passphrase entropy)
    ok (record { key = key; phrase = mnemonic })

  unfoldable pub from_mnemonic : Chars → Chars → JsResult BlackWallet
  from_mnemonic mnemonic passphrase = do
    key ← map_err js_err (Api.restore_wallet c mnemonic passphrase)
    ok (record { key = key; phrase = mnemonic })

  unfoldable pub from_mnemonic_at : Chars → Chars → ℕ → JsResult BlackWallet
  from_mnemonic_at mnemonic passphrase index = do
    root_seed ← map_err js_err (seed_from_mnemonic c.bip39 mnemonic passphrase)
    path ← map_err js_err (parse_hardened_path (account_path index))
    child_seed ← map_err js_err (derive_child_seed c.bip32 root_seed path)
    (key, pub_key) ← map_err js_err (PrivateKey.generate c child_seed)
    ok (record { key = key; phrase = mnemonic })

  unfoldable pub mnemonic : BlackWallet → Chars
  mnemonic w = w.phrase

  unfoldable pub public_key : BlackWallet → Bytes
  public_key w = to_bytes w.key.public

  -- `nonce` is the randomness of the P-521 signature.
  unfoldable pub sign_message : BlackWallet → Bytes → Bytes → JsResult Bytes
  sign_message w message nonce = map_err js_err (PrivateKey.sign_message c w.key message nonce)

  -- `unwrap_or(false)` on the answer.
  unfoldable pub verify_message : Bytes → Bytes → Bytes → JsResult Bool
  verify_message message signature public_key = do
    pk ← map_err js_err (from_bytes c public_key)
    answer ← attempt (PublicKey.verify_message c pk message signature)
    ok (elim answer [ inl e ↦ false | inr verified ↦ verified ])

  unfoldable pub validate_mnemonic : Chars → Bool
  validate_mnemonic phrase = Mnemonic.validate_mnemonic c.bip39 phrase

  module _ (formats : TextFormats) where
    -- An address in hexadecimal.
    unfoldable pub prefixed : Bytes → Chars
    prefixed address = codes "0x" ++ formats.hex_encode address

    unfoldable pub addr_hex : BlackChainPublicKey → JsResult Chars
    addr_hex pk = map_ok prefixed (map_err js_err (derive_address c pk))

    unfoldable pub address : BlackWallet → JsResult Chars
    address w = addr_hex w.key.public

    unfoldable pub sign_transaction : BlackWallet → Chars → Bytes → JsResult Chars
    sign_transaction w tx_json nonce = do
      tx ← from_crate (λ e. e) (formats.from_str tx_json)
      signed ← map_err js_err (Signing.sign_transaction c tx w.key nonce)
      from_crate (λ e. e) (formats.to_string signed)

    unfoldable pub recover_sender : Chars → JsResult Chars
    recover_sender signed_tx_json = do
      tx ← from_crate (λ e. e) (formats.from_str signed_tx_json)
      addr ← map_err js_err (Signing.recover_sender c tx)
      ok (prefixed addr)
