-- ===== src/Transaction/Codec/Lengths.antt =====
-- The length that is announced for a transaction is that of its encoding (src/transaction/rlp.rs).
use mathlib.Core.Option.{get_or}
use blackchain_crypto_lib_ru.Base.{
  ◌+◌, ◌≡◌, refl, Option, none, some, inl, inr, [], ◌++◌, Bool-cases, Bytes, length, arith,
  length-append,
}
use blackchain_crypto_lib_ru.Crates.{Rlp}
use blackchain_crypto_lib_ru.Crates.Laws.{RlpLaws}
use blackchain_crypto_lib_ru.Transaction.Codec.{
  has_signature, encode_to, length_to, encode_payload, encode_signature, rlp_payload_length,
  signature_length,
}
use blackchain_crypto_lib_ru.Transaction.Types.{BlackChainTxType}

five_lengths :
    (a b d e f : Bytes)
    → length (a ++ (b ++ (d ++ (e ++ f)))) ≡ length a + length b + length d + length e + length f
five_lengths a b d e f = omega (
  arith,
  length-append a (b ++ (d ++ (e ++ f))),
  length-append b (d ++ (e ++ f)),
  length-append d (e ++ f),
  length-append e f,
)

module _ (rlp : Rlp) (laws : RlpLaws rlp) where
  length-encode_to : (to : Option Bytes) → length (encode_to rlp to) ≡ length_to rlp to
  length-encode_to none = laws.length-encode_bytes []
  length-encode_to (some a) = laws.length-encode_address a

  length-encode_signature :
      (tx : BlackChainTxType) → length (encode_signature rlp tx) ≡ signature_length rlp tx
  unfolding encode_signature signature_length
  length-encode_signature tx = elim (Bool-cases (has_signature tx)) [
    | inl present ↦ rw present (
        omega (
          arith,
          five_lengths (rlp.encode_u256 (get_or tx.v 0)) (rlp.encode_u256 (get_or tx.r 0))
              (rlp.encode_u256 (get_or tx.s 0)) (rlp.encode_bytes (get_or tx.pqc_signature []))
              (rlp.encode_bytes (get_or tx.pub_key [])),
          laws.length-encode_u256 (get_or tx.v 0),
          laws.length-encode_u256 (get_or tx.r 0),
          laws.length-encode_u256 (get_or tx.s 0),
          laws.length-encode_bytes (get_or tx.pqc_signature []),
          laws.length-encode_bytes (get_or tx.pub_key []),
        ))
    | inr absent ↦ rw absent refl
  ]

  pub length-encode_payload :
      (tx : BlackChainTxType) → length (encode_payload rlp tx) ≡ rlp_payload_length rlp tx
  unfolding encode_payload rlp_payload_length
  length-encode_payload tx =
      simp
        (
          length-append, laws.length-encode_u64, laws.length-encode_u256, laws.length-encode_bytes,
          length-encode_to, length-encode_signature,
        )
        (omega arith)
