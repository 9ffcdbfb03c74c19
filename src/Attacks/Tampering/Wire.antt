-- ===== src/Attacks/Tampering/Wire.antt =====
-- The attacks of section C of src/attack_vectors.rs on the encoding end without a failed assertion.
use blackchain_crypto_lib_ru.Attacks.{sample_tx}
use blackchain_crypto_lib_ru.Attacks.Tampering.{
  attack_rlp_trailing_bytes_rejected_via_decode, crafted_body, attack_rlp_oversized_to_rejected,
}
use blackchain_crypto_lib_ru.Attacks.Tampering.Run.{sample_tx-IsValid}
use blackchain_crypto_lib_ru.Base.{
  ℕ, ◌≡◌, refl, [], ◌∷◌, ◌++◌, append-nil, Bytes, ok, bytes_eq_iff, length, replicate,
  length-replicate, arith,
}
use blackchain_crypto_lib_ru.Crates.{Crates}
use blackchain_crypto_lib_ru.Crates.Laws.{CrateLaws}
use blackchain_crypto_lib_ru.Transaction.Codec.{has_signature}
use blackchain_crypto_lib_ru.Transaction.Codec.Recipients.{decode_bad_recipient}
use blackchain_crypto_lib_ru.Transaction.Codec.RoundTrip.{decode-encode}

module _ (c : Crates) (laws : CrateLaws c) where
  attack_rlp_trailing_bytes_lem : attack_rlp_trailing_bytes_rejected_via_decode c ≡ ok tt
  unfolding attack_rlp_trailing_bytes_rejected_via_decode has_signature
  attack_rlp_trailing_bytes_lem =
      let junk : Bytes = 0xde ∷ 0xad ∷ [] in
      rw
        (
          (decode-encode c.rlp laws.rlp_laws sample_tx junk sample_tx-IsValid).0,
          (bytes_eq_iff junk junk).1 refl,
        )
        refl

  attack_rlp_oversized_to_lem : attack_rlp_oversized_to_rejected c ≡ ok tt
  unfolding attack_rlp_oversized_to_rejected crafted_body
  attack_rlp_oversized_to_lem =
      let to_bytes : Bytes = replicate 21 0x11 in
      let size : length to_bytes ≡ 21 = length-replicate {A = ℕ} 21 0x11 in
      let after = c.rlp.encode_u256 0 ++ c.rlp.encode_bytes [] in
      let refused =
        decode_bad_recipient c.rlp laws.rlp_laws 1 0 0 0 0 to_bytes after [] (omega arith)
          (omega arith) (omega arith) (omega arith) (omega arith) (omega arith) (omega arith) in
      rw (rw (append-nil (crafted_body c to_bytes)) at refused) refl
