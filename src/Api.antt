-- ===== src/Api.antt =====
-- src/api.rs: wallets from fresh or known mnemonics, and the entry points for signing.
pub mod Wallets
pub mod Cases
pub mod Creation
use blackchain_crypto_lib_ru.Base.{Bool, Bytes, Chars, codes, ok, ◌>>=◌}
use blackchain_crypto_lib_ru.Crates.{Crates, Entropy}
use blackchain_crypto_lib_ru.Crypto.PrivateKey
use blackchain_crypto_lib_ru.Crypto.PrivateKey.{BlackChainPrivateKey}
use blackchain_crypto_lib_ru.Crypto.PublicKey
use blackchain_crypto_lib_ru.Crypto.PublicKey.{BlackChainPublicKey}
use blackchain_crypto_lib_ru.Error.{Fallible}
use blackchain_crypto_lib_ru.HdWallet.Derivation.{derive_child_seed}
use blackchain_crypto_lib_ru.HdWallet.Mnemonic.{generate_mnemonic, seed_from_mnemonic}
use blackchain_crypto_lib_ru.HdWallet.Path.{parse_hardened_path}
use blackchain_crypto_lib_ru.Transaction.Signing
use blackchain_crypto_lib_ru.Transaction.Types.{BlackChainTxType}

abbrev pub default_account_path : Chars
default_account_path = codes "m/44'/60'/0'/0'/0'"

module _ (c : Crates) where
  unfoldable pub restore_wallet : Chars → Chars → Fallible BlackChainPrivateKey
  restore_wallet mnemonic passphrase = do
    root_seed ← seed_from_mnemonic c.bip39 mnemonic passphrase
    path ← parse_hardened_path default_account_path
    child_seed ← derive_child_seed c.bip32 root_seed path
    (priv_key, pub_key) ← PrivateKey.generate c child_seed
    ok priv_key

  unfoldable pub create_wallet : Chars → Entropy → Fallible (Chars × BlackChainPrivateKey)
  create_wallet passphrase entropy = do
    mnemonic ← generate_mnemonic c.bip39 entropy
    priv_key ← restore_wallet mnemonic passphrase
    ok (mnemonic, priv_key)

  unfoldable pub sign_message : Bytes → BlackChainPrivateKey → Bytes → Fallible Bytes
  sign_message message key nonce = PrivateKey.sign_message c key message nonce

  unfoldable pub verify_message : Bytes → Bytes → BlackChainPublicKey → Fallible Bool
  verify_message message signature pub_key = PublicKey.verify_message c pub_key message signature

  unfoldable pub sign_transaction :
      BlackChainTxType → BlackChainPrivateKey → Bytes → Fallible BlackChainTxType
  sign_transaction tx key nonce = Signing.sign_transaction c tx key nonce

  unfoldable pub verify_transaction : BlackChainTxType → Fallible Bytes
  verify_transaction tx = Signing.recover_sender c tx
