-- ===== src/Transaction/Returns.antt =====
-- Checking a transaction's signature and recovering its sender give a value or an error on every
-- input (src/transaction/signing.rs).
use blackchain_crypto_lib_ru.Base.{ℕ, Bytes}
use blackchain_crypto_lib_ru.Base.Returns.{Returns, Returns-eq, Returns-bind, returns_rules}
use blackchain_crypto_lib_ru.Crates.{Crates}
use blackchain_crypto_lib_ru.Crates.Laws.{CrateLaws}
use blackchain_crypto_lib_ru.Crypto.PublicKey.{BlackChainPublicKey, from_bytes, derive_address}
use blackchain_crypto_lib_ru.Crypto.Returns.{from_bytes-Returns, checks-Returns}
use blackchain_crypto_lib_ru.Transaction.Signing.{recover_sender, verify_signature}
use blackchain_crypto_lib_ru.Transaction.Signing.RoundTrip.{derive_address_total}
use blackchain_crypto_lib_ru.Transaction.Types.{BlackChainTxType}

module _ (c : Crates) (laws : CrateLaws c) where
  address-Returns : (pk : BlackChainPublicKey) → Returns (derive_address c pk)
  address-Returns pk =
      let (address, found, sized) = derive_address_total c laws pk in Returns-eq found

  pub verify_signature-Returns :
      (hash : Bytes) (chain_id : ℕ) (pub_key_bytes sig : Bytes)
      → Returns (verify_signature c hash chain_id pub_key_bytes sig)
  unfolding verify_signature
  verify_signature-Returns hash chain_id pub_key_bytes sig =
      Returns-bind (from_bytes c pub_key_bytes) _ (from_bytes-Returns c pub_key_bytes) (λ pk read.
        Returns-bind (derive_address c pk) _ (address-Returns pk)
          (λ address found. checks-Returns c pk hash _ sig address))

  -- Recovery of a sender never panics, whatever the transaction holds.
  pub recover_sender-Returns : (tx : BlackChainTxType) → Returns (recover_sender c tx)
  unfolding recover_sender
  recover_sender-Returns tx = search (returns_rules, verify_signature-Returns) depth 10
