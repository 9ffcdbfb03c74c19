-- ===== src/Transaction/Codec/Returns.antt =====
-- Decoding gives a transaction or an error on every buffer (src/transaction/rlp.rs).
use blackchain_crypto_lib_ru.Base.{[], ◌∷◌, Bytes}
use blackchain_crypto_lib_ru.Base.Returns.{Returns, returns_rules}
use blackchain_crypto_lib_ru.Crates.{Rlp}
use blackchain_crypto_lib_ru.Transaction.Codec.{
  decode, decode_payload, decode_to, decode_signature, decode_pub_key,
}

module _ (rlp : Rlp) where
  to-Returns : (bytes : Bytes) → Returns (decode_to rlp bytes)
  unfolding decode_to
  to-Returns bytes = search returns_rules

  pub_key-Returns : (bytes : Bytes) → Returns (decode_pub_key rlp bytes)
  unfolding decode_pub_key
  pub_key-Returns [] = search returns_rules
  pub_key-Returns (b ∷ body) = search returns_rules

  signature-Returns : (bytes : Bytes) → Returns (decode_signature rlp bytes)
  unfolding decode_signature
  signature-Returns [] = search returns_rules
  signature-Returns (b ∷ body) = search (returns_rules, pub_key-Returns) depth 12

  payload-Returns : (payload : Bytes) → Returns (decode_payload rlp payload)
  unfolding decode_payload
  payload-Returns payload = search (returns_rules, to-Returns, signature-Returns) depth 16

  pub decode-Returns : (buf : Bytes) → Returns (decode rlp buf)
  unfolding decode
  decode-Returns buf = search (returns_rules, payload-Returns) depth 12
