-- ===== src/Transaction/Codec/Recipients.antt =====
-- Which recipients the decoder takes (src/transaction/rlp.rs).
use blackchain_crypto_lib_ru.Base.{
  ℕ, ◌<◌, ◌≡◌, ◌≢◌, refl, true, [], ◌∷◌, ◌++◌, Bytes, err, length, length-append, take-append,
  arith, le→not_ltb, ◌≤◌,
}
use blackchain_crypto_lib_ru.Crates.{Rlp}
use blackchain_crypto_lib_ru.Crates.Laws.{RlpLaws}
use blackchain_crypto_lib_ru.Error.{unexpected_length}
use blackchain_crypto_lib_ru.Transaction.Codec.{decode, decode_payload, decode_to}
use blackchain_crypto_lib_ru.Transaction.Types.{IsU64, IsU256}

module _ (rlp : Rlp) where
  -- The fields up to the recipient, then `to_bytes` in its place and what follows it.
  abbrev pub fields_to : ℕ → ℕ → ℕ → ℕ → ℕ → Bytes → Bytes → Bytes
  fields_to chain_id nonce priority max_fee gas_limit to_bytes after =
      rlp.encode_u64 chain_id
      ++ (rlp.encode_u64 nonce
          ++ (rlp.encode_u256 priority
              ++ (rlp.encode_u256 max_fee
                  ++ (rlp.encode_u64 gas_limit ++ (rlp.encode_bytes to_bytes ++ after)))))

  refused_to :
      (to_bytes : Bytes)
      → 0 < length to_bytes
      → length to_bytes ≢ 20
      → decode_to rlp to_bytes ≡ err unexpected_length
  unfolding decode_to
  refused_to [] h k = absurd (omega arith)
  refused_to (b ∷ bs) h k = ground arith

  module _ (laws : RlpLaws rlp) (chain_id nonce priority max_fee gas_limit : ℕ)
      (to_bytes after : Bytes) where
    refused_payload :
        IsU64 chain_id
        → IsU64 nonce
        → IsU256 priority
        → IsU256 max_fee
        → IsU64 gas_limit
        → 0 < length to_bytes
        → length to_bytes ≢ 20
        → decode_payload rlp (fields_to chain_id nonce priority max_fee gas_limit to_bytes after)
          ≡ err unexpected_length
    unfolding decode_payload
    refused_payload h_chain h_nonce h_priority h_fee h_gas h k =
        let e_to = rlp.encode_bytes to_bytes ++ after in
        let e_gas = rlp.encode_u64 gas_limit ++ e_to in
        let e_fee = rlp.encode_u256 max_fee ++ e_gas in
        let e_priority = rlp.encode_u256 priority ++ e_fee in
        rw
          (
            laws.decode_u64-encode_u64 chain_id (rlp.encode_u64 nonce ++ e_priority) h_chain,
            laws.decode_u64-encode_u64 nonce e_priority h_nonce,
            laws.decode_u256-encode_u256 priority e_fee h_priority,
            laws.decode_u256-encode_u256 max_fee e_gas h_fee,
            laws.decode_u64-encode_u64 gas_limit e_to h_gas,
            laws.decode_bytes-encode_bytes to_bytes after,
            refused_to to_bytes h k,
          )
          refl

    -- A list whose first five fields are numbers in the ranges of their types and whose recipient is
    -- neither empty nor of 20 bytes is refused, whatever follows the recipient and the list.
    pub decode_bad_recipient :
        (rest : Bytes)
        → IsU64 chain_id
        → IsU64 nonce
        → IsU256 priority
        → IsU256 max_fee
        → IsU64 gas_limit
        → 0 < length to_bytes
        → length to_bytes ≢ 20
        → let payload = fields_to chain_id nonce priority max_fee gas_limit to_bytes after in
          decode rlp (rlp.encode_header true (length payload) ++ (payload ++ rest))
          ≡ err unexpected_length
    unfolding decode
    decode_bad_recipient rest h_chain h_nonce h_priority h_fee h_gas h k =
        let payload = fields_to chain_id nonce priority max_fee gas_limit to_bytes after in
        let n = length payload in
        let fits : n ≤ length (payload ++ rest) = omega (arith, length-append payload rest) in
        rw
          (
            laws.decode_header-encode_header n (payload ++ rest) fits,
            le→not_ltb (length (payload ++ rest)) n fits,
            take-append n payload rest refl,
            refused_payload h_chain h_nonce h_priority h_fee h_gas h k,
          )
          refl
