-- ===== src/Examples/Wire.antt =====
-- Decoding and the envelope on small inputs.
use blackchain_crypto_lib_ru.Base.{Bytes, replicate, ◌≡◌, ◌++◌, [], ◌∷◌, refl, ok}
use blackchain_crypto_lib_ru.Crates.Toy.{toy}
use blackchain_crypto_lib_ru.Crates.Toy.Wire.{toy_rlp, toy_rlp-RlpLaws}
use blackchain_crypto_lib_ru.Examples.Composite.{
  signed_transaction, sender, signed-IsU64, signed_run,
}
use blackchain_crypto_lib_ru.Examples.Shared.{transaction}
use blackchain_crypto_lib_ru.Transaction.Codec
use blackchain_crypto_lib_ru.Transaction.Codec.Canonical.{decode_canonical}
use blackchain_crypto_lib_ru.Transaction.Signing.Envelope.{recover_sender_unique}

-- The toy encoding of the transaction, with one byte behind it.
abbrev buffer : Bytes
buffer = 1 ∷ 31 ∷ 7 ∷ 1 ∷ 2 ∷ 30 ∷ 21000 ∷ 20 ∷ (replicate 20 9 ++ 1000 ∷ 3 ∷ 1 ∷ 2 ∷ 3 ∷ 5 ∷ [])

decoded : Codec.decode toy_rlp buffer ≡ ok (transaction, 5 ∷ [])
unfolding Codec.decode Codec.decode_payload replicate
decoded = refl

decode_canonical_example : buffer ≡ Codec.encode toy_rlp transaction ++ 5 ∷ []
unfolding Codec.has_signature
decode_canonical_example =
    decode_canonical toy_rlp toy_rlp-RlpLaws buffer transaction (5 ∷ []) (λ h. cc h) decoded

recover_sender_unique_example : signed_transaction ≡ signed_transaction
recover_sender_unique_example =
    recover_sender_unique toy signed_transaction signed_transaction sender sender signed-IsU64
      signed-IsU64 signed_run.5 signed_run.5 refl refl refl
