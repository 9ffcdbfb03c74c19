-- ===== src/Fuzz/TxDecode.antt =====
-- fuzz/fuzz_targets/fuzz_tx_decode.rs. The reads of single fields, whose results are dropped, are
-- left out.
use blackchain_crypto_lib_ru.Base.{
  ◌≡◌, refl, inl, inr, [], ◌∷◌, append-nil, ◌==◌, Bytes, length, plain, ok, ◌>>=◌, ◌>>◌,
  assert_that, attempt, ignored, slice, bytes_eq, bytes_eq_iff, slice_back,
}
use blackchain_crypto_lib_ru.Base.Returns.{outcome_cases, ignored-Returns}
use blackchain_crypto_lib_ru.Crates.{Crates}
use blackchain_crypto_lib_ru.Crates.Laws.{CrateLaws}
use blackchain_crypto_lib_ru.Error.{CryptoError, Fallible}
use blackchain_crypto_lib_ru.Transaction.Codec.{decode, encode}
use blackchain_crypto_lib_ru.Transaction.Codec.Ranges.{decode-IsValid}
use blackchain_crypto_lib_ru.Transaction.Codec.Returns.{decode-Returns}
use blackchain_crypto_lib_ru.Transaction.Codec.RoundTrip.{decode-encode, with_fields, kept_fields}
use blackchain_crypto_lib_ru.Transaction.Returns.{recover_sender-Returns}
use blackchain_crypto_lib_ru.Transaction.Signing.{signature_hash, recover_sender, unsigned}
use blackchain_crypto_lib_ru.Transaction.Types.{BlackChainTxType, IsValid, tx_type}

module _ (c : Crates) where
  -- What the target does with a transaction that was decoded.
  unfoldable pub after_decode : BlackChainTxType → Fallible (Unit {0})
  after_decode tx = do
    let hash = signature_hash c tx
    assert_that (length hash == 32) (plain "signature_hash must always return 32 bytes")
    ignored (recover_sender c tx)
    let encoded = tx_type ∷ encode c.rlp tx
    re_encoded_slice ← slice 1 (length encoded) encoded
    again ← attempt (decode c.rlp re_encoded_slice)
    elim again [
      | inl e ↦ ok tt
      | inr (tx2, rest) ↦
          assert_that (bytes_eq (signature_hash c tx) (signature_hash c tx2))
            (plain "encode→decode roundtrip must preserve signature_hash")
    ]

  unfoldable pub fuzz_tx_decode : Bytes → Fallible (Unit {0})
  fuzz_tx_decode input = do
    decoded ← attempt (decode c.rlp input)
    elim decoded [ inl e ↦ ok tt | inr (tx, rest) ↦ after_decode tx ]

  module _ (laws : CrateLaws c) where
    same_hash :
        (tx : BlackChainTxType)
        → signature_hash c (with_fields tx (kept_fields tx)) ≡ signature_hash c tx
    unfolding signature_hash unsigned
    same_hash tx = refl

    hash_sized : (tx : BlackChainTxType) → length (signature_hash c tx) ≡ 32
    unfolding signature_hash
    hash_sized tx = laws.hash_laws.length-keccak256 (tx_type ∷ encode c.rlp (unsigned tx))

    decodes_again :
        (tx : BlackChainTxType)
        → IsValid tx
        → decode c.rlp (encode c.rlp tx) ≡ ok (with_fields tx (kept_fields tx), [])
    decodes_again tx valid =
        rw (append-nil (encode c.rlp tx)) at (decode-encode c.rlp laws.rlp_laws tx [] valid).0

    after_decode_total : (tx : BlackChainTxType) → IsValid tx → after_decode tx ≡ ok tt
    unfolding after_decode
    after_decode_total tx valid =
        let hash = signature_hash c tx in
        rw
          (
            hash_sized tx,
            ignored-Returns {F = CryptoError} (recover_sender c tx)
                (recover_sender-Returns c laws tx),
            slice_back {E = CryptoError} 1 (tx_type ∷ []) (encode c.rlp tx) refl,
            decodes_again tx valid,
            same_hash tx,
            (bytes_eq_iff hash hash).1 refl,
          )
          refl

    -- The decoding target succeeds on every input: the library does not panic, a decoded transaction
    -- has a hash of 32 bytes, and the hash survives encoding and decoding.
    pub fuzz_tx_decode_total : (input : Bytes) → fuzz_tx_decode input ≡ ok tt
    unfolding fuzz_tx_decode
    fuzz_tx_decode_total input =
        elim (outcome_cases (decode c.rlp input) (decode-Returns c.rlp input)) [
          | inl (e, failed) ↦ rw failed refl
          | inr (read, decoded) ↦ rw decoded (
              after_decode_total read.0
                (decode-IsValid c.rlp laws.rlp_laws input read.0 read.1 decoded))
        ]
