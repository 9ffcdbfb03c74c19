-- ===== src/Transaction/Signing/Cases/Run.antt =====
-- The tests of src/transaction/signing.rs end without a failed assertion, once the fixed seed gives a key.
use blackchain_crypto_lib_ru.Base.{
  ◌≡◌, refl, ap, some, inl, inr, ◌+◌, ◌*◌, Bytes, ok, err, bytes_eq_iff, arith,
}
use blackchain_crypto_lib_ru.Base.Returns.{outcome_cases}
use blackchain_crypto_lib_ru.Crates.{Crates}
use blackchain_crypto_lib_ru.Crates.Laws.{CrateLaws}
use blackchain_crypto_lib_ru.Crypto.PrivateKey.{BlackChainPrivateKey, generate}
use blackchain_crypto_lib_ru.Crypto.PublicKey.{BlackChainPublicKey}
use blackchain_crypto_lib_ru.Error.{CryptoError}
use blackchain_crypto_lib_ru.Fuzz.CompositeSigVerify.{fixed_seed}
use blackchain_crypto_lib_ru.Transaction.Returns.{recover_sender-Returns}
use blackchain_crypto_lib_ru.Transaction.Signing.{unsigned, recover_sender}
use blackchain_crypto_lib_ru.Transaction.Signing.Binding.{some-injective}
use blackchain_crypto_lib_ru.Transaction.Signing.Cases.{
  roundtrip_tx, base_tx, with_bad_v, with_bad_r, with_bad_s,
  test_composite_sign_and_recover_roundtrip, mutated_vrs_envelope_is_rejected,
}
use blackchain_crypto_lib_ru.Transaction.Signing.Envelope.{signed-IsU64}
use blackchain_crypto_lib_ru.Transaction.Signing.Recovery.{recover_sender_iff}
use blackchain_crypto_lib_ru.Transaction.Signing.RoundTrip.{recover_sender-sign_transaction}
use blackchain_crypto_lib_ru.Transaction.Types.{BlackChainTxType, IsU64}

module _ (c : Crates) (laws : CrateLaws c) where
  test_composite_sign_and_recover_roundtrip_lem :
      (nonce : Bytes) (sk : BlackChainPrivateKey) (pk : BlackChainPublicKey)
      → generate c fixed_seed ≡ ok (sk, pk)
      → test_composite_sign_and_recover_roundtrip c nonce ≡ ok tt
  unfolding test_composite_sign_and_recover_roundtrip
  test_composite_sign_and_recover_roundtrip_lem nonce sk pk made =
      let (signed, address, signs, same, found, recovered) =
        recover_sender-sign_transaction c laws fixed_seed nonce sk pk roundtrip_tx made
          (omega arith) in
      let (sig, key, has_sig, has_key, has_v, has_r, has_s, _) =
        (recover_sender_iff c signed address
            (signed-IsU64 roundtrip_tx signed same (omega arith))).0
          recovered in
      rw
        (
          made,
          found,
          signs,
          has_sig,
          has_key,
          has_v,
          has_r,
          has_s,
          recovered,
          (bytes_eq_iff address address).1 refl,
        )
        refl

  -- A transaction whose envelope fields are not the mandated ones is refused, whatever it holds else.
  mutated_refused :
      (tx : BlackChainTxType)
      → IsU64 tx.chain_id
      → ¬ ((tx.v ≡ some (tx.chain_id * 2 + 35)) × (tx.r ≡ some 0) × (tx.s ≡ some 0))
      → (e : CryptoError) × (recover_sender c tx ≡ err e)
  mutated_refused tx small wrong =
      elim (outcome_cases (recover_sender c tx) (recover_sender-Returns c laws tx)) [
        | inl refused ↦ refused
        | inr (address, recovered) ↦
            let (_, _, _, _, has_v, has_r, has_s, _) =
              (recover_sender_iff c tx address small).0 recovered in
            absurd (wrong (has_v, has_r, has_s))
      ]

  mutated_vrs_envelope_is_rejected_lem :
      (nonce : Bytes) (sk : BlackChainPrivateKey) (pk : BlackChainPublicKey)
      → generate c fixed_seed ≡ ok (sk, pk)
      → mutated_vrs_envelope_is_rejected c nonce ≡ ok tt
  unfolding mutated_vrs_envelope_is_rejected unsigned
  mutated_vrs_envelope_is_rejected_lem nonce sk pk made =
      let (signed, address, signs, same, found, recovered) =
        recover_sender-sign_transaction c laws fixed_seed nonce sk pk base_tx made (omega arith) in
      let small = signed-IsU64 base_tx signed same (omega arith) in
      let chain : signed.chain_id ≡ 1 = ap (λ t. t.chain_id) same in
      let (_, v_refused) =
        mutated_refused (with_bad_v signed) small
          (λ fields. let e = some-injective fields.0 in omega arith) in
      let (_, r_refused) =
        mutated_refused (with_bad_r signed) small
          (λ fields. let e = some-injective fields.1 in omega arith) in
      let (_, s_refused) =
        mutated_refused (with_bad_s signed) small
          (λ fields. let e = some-injective fields.2 in omega arith) in
      rw (made, signs, recovered, v_refused, r_refused, s_refused) refl
