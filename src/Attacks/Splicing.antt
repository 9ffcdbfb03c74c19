-- ===== src/Attacks/Splicing.antt =====
-- src/attack_vectors.rs, section B: parts of two identities in one signature or one key.
mod Run
mod Ed448Part
mod MixedKey
use blackchain_crypto_lib_ru.Attacks.{ed448_sig_range, write_slice, wallet}
use blackchain_crypto_lib_ru.Base.{
  ℕ, not, ◌++◌, Bytes, codes, plain, ok, ◌>>=◌, ◌>>◌, assert_that, unwrapped, fails, bytes_eq,
  slice,
}
use blackchain_crypto_lib_ru.Crates.{Crates}
use blackchain_crypto_lib_ru.Crypto.PrivateKey.{sign_message}
use blackchain_crypto_lib_ru.Crypto.PublicKey.{from_bytes, verify_message, derive_address}
use blackchain_crypto_lib_ru.Dilithium
use blackchain_crypto_lib_ru.Ed448
use blackchain_crypto_lib_ru.Error.{Fallible}
use blackchain_crypto_lib_ru.P521

-- `target[from..to].copy_from_slice(&source[from..to])`
unfoldable pub spliced : ℕ → ℕ → Bytes → Bytes → Fallible Bytes
spliced from to source target = do patch ← slice from to source; write_slice from to patch target

module _ (c : Crates) where
  -- `nonce_a` and `nonce_b` are the randomness of the two signatures.
  unfoldable pub attack_splice_ed448_subsig_from_other_identity :
      Bytes → Bytes → Fallible (Unit {0})
  attack_splice_ed448_subsig_from_other_identity nonce_a nonce_b = do
    (sk_a, pk_a) ← wallet c 10
    (sk_b, pk_b) ← wallet c 11
    let msg = codes "splice probe"
    comp_a ← unwrapped (sign_message c sk_a msg nonce_a)
    comp_b ← unwrapped (sign_message c sk_b msg nonce_b)
    forged ← spliced ed448_sig_range.0 ed448_sig_range.1 comp_b comp_a
    rejected ← fails (verify_message c pk_a msg forged)
    assert_that rejected
        (plain "A's signature with B's Ed448 sub-signature must not verify under A")

  unfoldable pub attack_splice_mldsa_subsig_from_other_identity :
      Bytes → Bytes → Fallible (Unit {0})
  attack_splice_mldsa_subsig_from_other_identity nonce_a nonce_b = do
    (sk_a, pk_a) ← wallet c 12
    (sk_b, pk_b) ← wallet c 13
    let msg = codes "mldsa binding probe"
    comp_a ← unwrapped (sign_message c sk_a msg nonce_a)
    comp_b ← unwrapped (sign_message c sk_b msg nonce_b)
    forged ← spliced 0 Dilithium.signature_size comp_b comp_a
    rejected ← fails (verify_message c pk_a msg forged)
    assert_that rejected
        (plain "A's signature with B's ML-DSA sub-signature must not verify under A")

  unfoldable pub attack_frankenstein_pubkey_recovers_new_address_not_victim :
      Bytes → Fallible (Unit {0})
  attack_frankenstein_pubkey_recovers_new_address_not_victim nonce = do
    (sk_a, pk_a) ← wallet c 20
    (sk_b, pk_b) ← wallet c 21
    dil ← slice 0 Dilithium.public_key_size pk_a.dilithium
    p521 ← slice 0 P521.public_key_size pk_b.p521
    ed448 ← slice 0 Ed448.public_key_size pk_b.ed448
    franken_pk ← unwrapped (from_bytes c (dil ++ (p521 ++ ed448)))
    address ← derive_address c franken_pk
    address_a ← derive_address c pk_a
    assert_that (not (bytes_eq address address_a))
        (plain "assertion failed: franken_pk.derive_address() != pk_a.derive_address()")
    address_b ← derive_address c pk_b
    assert_that (not (bytes_eq address address_b))
        (plain "assertion failed: franken_pk.derive_address() != pk_b.derive_address()")
    let msg = codes "franken probe"
    comp_a ← unwrapped (sign_message c sk_a msg nonce)
    rejected ← fails (verify_message c franken_pk msg comp_a)
    assert_that rejected (plain "A's signature must not verify under a spliced composite key")
