-- ===== src/Fuzz/PubkeyParse.antt =====
-- fuzz/fuzz_targets/fuzz_pubkey_parse.rs. The error that `expect` shows behind its text is left out.
use blackchain_crypto_lib_ru.Base.{
  ◌≡◌, refl, inl, inr, [], ◌++◌, ◌==◌, arith, Bytes, length, length-append, plain, ok, ◌>>=◌, ◌>>◌,
  assert_that, attempt, or_panic, bytes_eq, bytes_eq_iff,
}
use blackchain_crypto_lib_ru.Base.Returns.{outcome_cases}
use blackchain_crypto_lib_ru.Crates.{Crates}
use blackchain_crypto_lib_ru.Crates.Laws.{CrateLaws}
use blackchain_crypto_lib_ru.Crypto.Encoding.{IsComposite, from_bytes_iff}
use blackchain_crypto_lib_ru.Crypto.PublicKey.{
  BlackChainPublicKey, from_bytes, to_bytes, derive_address, composite_pk_size,
}
use blackchain_crypto_lib_ru.Crypto.Returns.{from_bytes-Returns}
use blackchain_crypto_lib_ru.Error.{Fallible}
use blackchain_crypto_lib_ru.Transaction.Signing.RoundTrip.{derive_address_total}

module _ (c : Crates) where
  -- What the target asserts of a key that was parsed.
  unfoldable pub after_parse : BlackChainPublicKey → Fallible (Unit {0})
  after_parse pk = do
    assert_that (length pk.dilithium == 2592) (plain "dilithium sub-key must be 2592 bytes")
    assert_that (length pk.p521 == 133) (plain "P-521 sub-key must be 133 bytes")
    assert_that (length pk.ed448 == 57) (plain "Ed448 sub-key must be 57 bytes")
    let bytes = to_bytes pk
    assert_that (length bytes == composite_pk_size) []
    pk2 ←
        or_panic (λ e. plain "re-parsing to_bytes output must always succeed") (from_bytes c bytes)
    assert_that (bytes_eq (to_bytes pk) (to_bytes pk2)) (plain "roundtrip must be identity")
    addr ← derive_address c pk
    addr2 ← derive_address c pk2
    assert_that (bytes_eq addr addr2) (plain "same key bytes must yield same address")

  unfoldable pub fuzz_pubkey_parse : Bytes → Fallible (Unit {0})
  fuzz_pubkey_parse input = do
    result ← attempt (from_bytes c input)
    elim result [ inl e ↦ ok tt | inr pk ↦ after_parse pk ]

  module _ (laws : CrateLaws c) where
    to_bytes_size :
        (pk : BlackChainPublicKey) → IsComposite c pk → length (to_bytes pk) ≡ composite_pk_size
    unfolding to_bytes
    to_bytes_size pk k = omega (
      arith,
      length-append pk.dilithium (pk.p521 ++ pk.ed448),
      length-append pk.p521 pk.ed448,
      k.length_dil,
      k.length_p521,
      k.length_ed448,
    )

    after_parse_total : (pk : BlackChainPublicKey) → IsComposite c pk → after_parse pk ≡ ok tt
    unfolding after_parse
    after_parse_total pk k =
        let (address, found, sized) = derive_address_total c laws pk in
        rw
          (
            k.length_dil,
            k.length_p521,
            k.length_ed448,
            to_bytes_size pk k,
            (from_bytes_iff c (to_bytes pk) pk).1 (refl, k),
            (bytes_eq_iff (to_bytes pk) (to_bytes pk)).1 refl,
            found,
            (bytes_eq_iff address address).1 refl,
          )
          refl

    -- The key parsing target succeeds on every input: parsing does not panic, and a parsed key has
    -- parts of the fixed sizes, is parsed again from its bytes, and has one address.
    pub fuzz_pubkey_parse_total : (input : Bytes) → fuzz_pubkey_parse input ≡ ok tt
    unfolding fuzz_pubkey_parse
    fuzz_pubkey_parse_total input =
        elim (outcome_cases (from_bytes c input) (from_bytes-Returns c input)) [
          | inl (e, failed) ↦ rw failed refl
          | inr (pk, parsed) ↦
              rw parsed (after_parse_total pk ((from_bytes_iff c input pk).0 parsed).1)
        ]
