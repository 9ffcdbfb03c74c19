-- ===== src/Attacks/Splicing/MixedKey.antt =====
-- A key made of the parts of two keys (src/attack_vectors.rs, section B; src/crypto.rs).
use blackchain_crypto_lib_ru.Attacks.{wallet, tagged_seed}
use blackchain_crypto_lib_ru.Attacks.Splicing.{
  attack_frankenstein_pubkey_recovers_new_address_not_victim,
}
use blackchain_crypto_lib_ru.Base.{
  ℕ, ◌-◌, ◌≡◌, ◌≢◌, refl, ap, ◌∙◌, true, ◌++◌, Bytes, codes, ok, err, slice, slice_inside, take-all,
  length, arith, bytes_ne,
}
use blackchain_crypto_lib_ru.Crates.{Crates}
use blackchain_crypto_lib_ru.Crates.Laws.{CrateLaws}
use blackchain_crypto_lib_ru.Crypto.Encoding.{
  IsComposite, IsKeyPair-IsComposite, from_bytes-to_bytes,
}
use blackchain_crypto_lib_ru.Crypto.Keys.{generate-IsKeyPair}
use blackchain_crypto_lib_ru.Crypto.PrivateKey.{BlackChainPrivateKey, generate}
use blackchain_crypto_lib_ru.Crypto.PublicKey.{
  BlackChainPublicKey, to_bytes, from_bytes, verify_message,
}
use blackchain_crypto_lib_ru.Crypto.RoundTrip.{verify_message-sign_message}
use blackchain_crypto_lib_ru.Error.{CryptoError}
use blackchain_crypto_lib_ru.Transaction.Signing.RoundTrip.{derive_address_total}

-- The ML-DSA part of one key and the curve parts of another.
abbrev pub mixed : BlackChainPublicKey → BlackChainPublicKey → BlackChainPublicKey
mixed pk_a pk_b = record pk_b { dilithium = pk_a.dilithium }

slice_whole :
    (n : ℕ) (bytes : Bytes) → length bytes ≡ n → slice {E = CryptoError} 0 n bytes ≡ ok bytes
slice_whole n bytes e =
    slice_inside 0 n bytes (omega arith) (omega arith)
    ∙ ap ok (take-all (n - 0) bytes (omega arith))

module _ (c : Crates) where
  mixed-IsComposite :
      (pk_a pk_b : BlackChainPublicKey)
      → IsComposite c pk_a
      → IsComposite c pk_b
      → IsComposite c (mixed pk_a pk_b)
  mixed-IsComposite pk_a pk_b a b = record {
    dil_key = a.dil_key;
    p521_key = b.p521_key;
    ed448_key = b.ed448_key;
    length_dil = a.length_dil;
    length_p521 = b.length_p521;
    length_ed448 = b.length_ed448;
    dil_parses = a.dil_parses;
    p521_parses = b.p521_parses;
    ed448_parses = b.ed448_parses;
  }

  -- The mixed key parses. The attack ends without a failed assertion if its address is that of neither
  -- identity, and if it accepts nothing that the first one has signed.
  attack_frankenstein_lem :
      (laws : CrateLaws c) (nonce : Bytes) (sk_a sk_b : BlackChainPrivateKey)
      (pk_a pk_b : BlackChainPublicKey)
      → generate c (tagged_seed 64 0 20) ≡ ok (sk_a, pk_a)
      → generate c (tagged_seed 64 0 21) ≡ ok (sk_b, pk_b)
      → (derive_address_total c laws (mixed pk_a pk_b)).0 ≢ (derive_address_total c laws pk_a).0
      → (derive_address_total c laws (mixed pk_a pk_b)).0 ≢ (derive_address_total c laws pk_b).0
      → ((message sig : Bytes)
          → verify_message c pk_a message sig ≡ ok true
          → (e : CryptoError) × (verify_message c (mixed pk_a pk_b) message sig ≡ err e))
      → attack_frankenstein_pubkey_recovers_new_address_not_victim c nonce ≡ ok tt
  unfolding attack_frankenstein_pubkey_recovers_new_address_not_victim wallet to_bytes
  attack_frankenstein_lem laws nonce sk_a sk_b pk_a pk_b made_a made_b not_a not_b apart =
      let a =
        IsKeyPair-IsComposite c laws sk_a pk_a
          (generate-IsKeyPair c laws (tagged_seed 64 0 20) sk_a pk_a made_a).1 in
      let b =
        IsKeyPair-IsComposite c laws sk_b pk_b
          (generate-IsKeyPair c laws (tagged_seed 64 0 21) sk_b pk_b made_b).1 in
      let parsed : from_bytes c (pk_a.dilithium ++ (pk_b.p521 ++ pk_b.ed448))
          ≡ ok (mixed pk_a pk_b) =
        from_bytes-to_bytes c (mixed pk_a pk_b) (mixed-IsComposite pk_a pk_b a b) in
      let (address, found, _) = derive_address_total c laws (mixed pk_a pk_b) in
      let (address_a, found_a, _) = derive_address_total c laws pk_a in
      let (address_b, found_b, _) = derive_address_total c laws pk_b in
      let msg = codes "franken probe" in
      let (sig, signed, _, verified) =
        verify_message-sign_message c laws (tagged_seed 64 0 20) msg nonce sk_a pk_a made_a in
      let (e, refused) = apart msg sig verified in
      rw
        (
          made_a,
          made_b,
          slice_whole 2592 pk_a.dilithium a.length_dil,
          slice_whole 133 pk_b.p521 b.length_p521,
          slice_whole 57 pk_b.ed448 b.length_ed448,
          parsed,
          found,
          found_a,
          bytes_ne address address_a not_a,
          found_b,
          bytes_ne address address_b not_b,
          signed,
          refused,
        )
        refl
