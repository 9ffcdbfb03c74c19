-- ===== src/Transaction/Signing/Recovery.antt =====
-- When `verify_signature` and `recover_sender` accept (src/transaction/signing.rs).
use mathlib.Core.Path.{subst}
use blackchain_crypto_lib_ru.Base.{
  ℕ, ◌+◌, ◌*◌, ◌≡◌, ◌↔◌, refl, ap, sym, ◌∙◌, Bool, true, false, not, ◌||◌, ==_iff, Option, none,
  some, Bytes, ok, arith, refuse_if, ok_or, ok_or-eq-ok, >>=-eq-ok, refuse_if-eq-ok,
}
use blackchain_crypto_lib_ru.Crates.{Crates}
use blackchain_crypto_lib_ru.Crypto.Checks.{Authentic, checks, checks_iff, authentic}
use blackchain_crypto_lib_ru.Crypto.PublicKey.{BlackChainPublicKey, from_bytes, derive_address}
use blackchain_crypto_lib_ru.Transaction.Signing.{
  compute_entanglement_nonce, compute_h_combined, verify_signature, recover_sender, signature_hash,
  expected_v, equals_some,
}
use blackchain_crypto_lib_ru.Transaction.Types.{BlackChainTxType, IsU64}

-- The wrapping arithmetic of `U256` does not wrap on a chain id of 64 bits.
pub expected_v_lem : (chain_id : ℕ) → IsU64 chain_id → expected_v chain_id ≡ chain_id * 2 + 35
unfolding expected_v
expected_v_lem chain_id h = omega arith

equals_some_iff : (o : Option ℕ) (x : ℕ) → (equals_some o x ≡ true) ↔ (o ≡ some x)
equals_some_iff none x = (λ h. cc, λ h. cc)
equals_some_iff (some y) x = (λ h. ap some ((==_iff y x).0 h), λ h. ground arith)

three_hold :
    (a b d : Bool) → not a || (not b || not d) ≡ false → (a ≡ true) × (b ≡ true) × (d ≡ true)
three_hold true true true h = (refl, refl, refl)
three_hold true true false h = cc
three_hold true false d h = cc
three_hold false b d h = cc

-- The key parses, `address` is its address, and the three parts verify under the chain's binding.
pub record VerifiesAs (c : Crates) (hash : Bytes) (chain_id : ℕ) (pub_key_bytes sig address : Bytes)
    : Type 0 where
  pub key : BlackChainPublicKey
  pub key_parses : from_bytes c pub_key_bytes ≡ ok key
  pub address_derives : derive_address c key ≡ ok address
  pub authentic :
      Authentic c key hash
        (compute_h_combined c key (compute_entanglement_nonce c chain_id address))
        sig

module _ (c : Crates) where
  verifies :
      (hash : Bytes) (chain_id : ℕ) (pub_key_bytes sig address : Bytes)
      → verify_signature c hash chain_id pub_key_bytes sig ≡ ok address
      → VerifiesAs c hash chain_id pub_key_bytes sig address
  unfolding verify_signature
  verifies hash chain_id pub_key_bytes sig address h =
      let (key, key_parsed, rest) = >>=-eq-ok (from_bytes c pub_key_bytes) _ h in
      let (derived, address_made, end) = >>=-eq-ok (derive_address c key) _ rest in
      let (accepted, same) = authentic c key hash _ sig derived address end in
      subst (VerifiesAs c hash chain_id pub_key_bytes sig) same (record {
        key = key;
        key_parses = key_parsed;
        address_derives = address_made;
        authentic = accepted;
      })

  -- A signature verifies to an address exactly when its key parses to one with that address, and the
  -- composite is authentic for the binding of that address and chain.
  pub verify_signature_iff :
      (hash : Bytes) (chain_id : ℕ) (pub_key_bytes sig address : Bytes)
      → (verify_signature c hash chain_id pub_key_bytes sig ≡ ok address)
        ↔ VerifiesAs c hash chain_id pub_key_bytes sig address
  unfolding verify_signature
  verify_signature_iff hash chain_id pub_key_bytes sig address = (
    verifies hash chain_id pub_key_bytes sig address,
    λ a.
        rw (a.key_parses, a.address_derives)
          ((checks_iff c a.key hash _ sig address).1 a.authentic),
  )

  recovers :
      (tx : BlackChainTxType) (address : Bytes)
      → IsU64 tx.chain_id
      → recover_sender c tx ≡ ok address
      → (sig : Bytes) × (key : Bytes) × (tx.pqc_signature ≡ some sig)
        × (tx.pub_key ≡ some key)
        × (tx.v ≡ some (tx.chain_id * 2 + 35))
        × (tx.r ≡ some 0)
        × (tx.s ≡ some 0)
        × VerifiesAs c (signature_hash c tx) tx.chain_id key sig address
  unfolding recover_sender
  recovers tx address small h =
      let (sig, sig_present, rest) = >>=-eq-ok (ok_or _ tx.pqc_signature) _ h in
      let (key, key_present, checked) = >>=-eq-ok (ok_or _ tx.pub_key) _ rest in
      let (u, canonical, verified) = >>=-eq-ok (refuse_if _ _) _ checked in
      let (v_ok, r_ok, s_ok) = three_hold _ _ _ (refuse_if-eq-ok _ _ canonical) in
      (
        sig,
        key,
        ok_or-eq-ok _ _ sig_present,
        ok_or-eq-ok _ _ key_present,
        (equals_some_iff tx.v _).0 v_ok ∙ ap some (expected_v_lem tx.chain_id small),
        (equals_some_iff tx.r 0).0 r_ok,
        (equals_some_iff tx.s 0).0 s_ok,
        verifies _ _ key sig address verified,
      )

  -- In a well-formed envelope with a key that parses, recovery is the checks of the composite.
  pub recover_sender-checks :
      (tx : BlackChainTxType) (sig key_bytes address : Bytes) (key : BlackChainPublicKey)
      → IsU64 tx.chain_id
      → tx.pqc_signature ≡ some sig
      → tx.pub_key ≡ some key_bytes
      → tx.v ≡ some (tx.chain_id * 2 + 35)
      → tx.r ≡ some 0
      → tx.s ≡ some 0
      → from_bytes c key_bytes ≡ ok key
      → derive_address c key ≡ ok address
      → recover_sender c tx
        ≡ checks c key
            (signature_hash c tx)
            (compute_h_combined c key (compute_entanglement_nonce c tx.chain_id address))
            sig
            address
  unfolding recover_sender verify_signature
  recover_sender-checks tx sig key_bytes address key small has_sig has_key v_ok r_ok s_ok parsed
        derived =
      simp (
        has_sig,
        has_key,
        (equals_some_iff tx.v _).1 (v_ok ∙ ap some (sym (expected_v_lem tx.chain_id small))),
        r_ok,
        s_ok,
        parsed,
        derived,
      )

  recovered :
      (tx : BlackChainTxType) (address : Bytes)
      → IsU64 tx.chain_id
      → (sig : Bytes) × (key : Bytes) × (tx.pqc_signature ≡ some sig)
        × (tx.pub_key ≡ some key)
        × (tx.v ≡ some (tx.chain_id * 2 + 35))
        × (tx.r ≡ some 0)
        × (tx.s ≡ some 0)
        × VerifiesAs c (signature_hash c tx) tx.chain_id key sig address
      → recover_sender c tx ≡ ok address
  recovered tx address small (sig, key, has_sig, has_key, v_ok, r_ok, s_ok, good) =
      recover_sender-checks tx sig key address good.key small has_sig has_key v_ok r_ok s_ok
        good.key_parses good.address_derives
      ∙ (checks_iff c good.key _ _ sig address).1 good.authentic

  -- A sender is recovered exactly from a transaction with both signature fields whose v, r and s hold
  -- chain_id * 2 + 35, 0 and 0, if the signature verifies to it over the hash of the unsigned copy.
  pub recover_sender_iff :
      (tx : BlackChainTxType) (address : Bytes)
      → IsU64 tx.chain_id
      → (recover_sender c tx ≡ ok address) ↔ (
          (sig : Bytes) × (key : Bytes) × (tx.pqc_signature ≡ some sig)
          × (tx.pub_key ≡ some key)
          × (tx.v ≡ some (tx.chain_id * 2 + 35))
          × (tx.r ≡ some 0)
          × (tx.s ≡ some 0)
          × VerifiesAs c (signature_hash c tx) tx.chain_id key sig address)
  recover_sender_iff tx address small = (recovers tx address small, recovered tx address small)
