-- ===== src/Fuzz/CompositeSigVerify.antt =====
-- fuzz/fuzz_targets/fuzz_composite_sig_verify.rs. The key that the source makes once and keeps is made
-- from the fixed seed on each run.
use blackchain_crypto_lib_ru.Base.{
  ℕ, zero, suc, ◌+◌, ◌*◌, ◌%◌, ◌≡◌, ◌↔◌, refl, ap, sym, not, Bool-cases, some, none, inl, inr, [],
  ◌∷◌, Bytes, Message, ok-injective, plain, ok, err, ◌>>=◌, ◌>>◌, assert_that, attempt, ignored,
  or_panic, unwrapped, Panics, panic, bytes_eq, bytes_eq_iff, replicate, arith,
}
use blackchain_crypto_lib_ru.Base.Returns.{outcome_cases, ignored-Returns}
use blackchain_crypto_lib_ru.Crates.{Crates}
use blackchain_crypto_lib_ru.Crates.Laws.{CrateLaws}
use blackchain_crypto_lib_ru.Crypto.PrivateKey.{BlackChainPrivateKey, generate}
use blackchain_crypto_lib_ru.Crypto.PublicKey.{BlackChainPublicKey, derive_address, to_bytes}
use blackchain_crypto_lib_ru.Error.{CryptoError, Fallible}
use blackchain_crypto_lib_ru.Transaction.Returns.{recover_sender-Returns}
use blackchain_crypto_lib_ru.Transaction.Signing.{sign_transaction, recover_sender, signature_hash}
use blackchain_crypto_lib_ru.Transaction.Signing.Recovery.{recover_sender_iff, VerifiesAs}
use blackchain_crypto_lib_ru.Transaction.Signing.RoundTrip.{
  recover_sender-sign_transaction, derive_address_total,
}
use blackchain_crypto_lib_ru.Transaction.Signing.Binding.{some-injective}
use mathlib.Core.Path.{subst}
use blackchain_crypto_lib_ru.Transaction.Types.{BlackChainTxType}

-- `FIXED_SEED` from index `i` on, for the bytes that are left.
unfoldable pub fixed_bytes : ℕ → ℕ → Bytes
fixed_bytes zero i = []
fixed_bytes (suc left) i = (i * 7 + 13) % 256 ∷ fixed_bytes left (i + 1)

abbrev pub fixed_seed : Bytes
fixed_seed = fixed_bytes 64 0

-- The transaction whose signature is the input.
abbrev pub claimed_tx : Bytes → Bytes → BlackChainTxType
claimed_tx input pub_key = record {
  chain_id = 1;
  nonce = 42;
  max_priority_fee_per_gas = 1500000000;
  max_fee_per_gas = 30000000000;
  gas_limit = 21000;
  to = some (replicate 20 0xaa);
  value = 1000000000000000000;
  input = [];
  v = some (2 + 35);
  r = some 0;
  s = some 0;
  pqc_signature = some input;
  pub_key = some pub_key;
}

-- The transaction that is signed for the second part.
abbrev pub plain_tx : BlackChainTxType
plain_tx = record {
  chain_id = 1;
  nonce = 1;
  max_priority_fee_per_gas = 0;
  max_fee_per_gas = 0;
  gas_limit = 21000;
  to = none;
  value = 0;
  input = [];
  v = none;
  r = none;
  s = none;
  pqc_signature = none;
  pub_key = none;
}

-- `assert_ne!` panics exactly on equal byte strings.
assert_ne_iff :
    (a b : Bytes) (m : Message)
    → Panics (assert_that {E = CryptoError} (not (bytes_eq a b)) m) ↔ (a ≡ b)
assert_ne_iff a b m = elim (Bool-cases (bytes_eq a b)) [
  | inl same ↦ rw same (λ h. (bytes_eq_iff a b).0 same, λ h. tt)
  | inr differ ↦ rw differ (λ h. absurd h, λ h. cc (differ, (bytes_eq_iff a b).1 h))
]

module _ (c : Crates) where
  -- The input as the signature.
  unfoldable pub try_signature : BlackChainTxType → Bytes → Fallible (Unit {0})
  try_signature tx signer_addr = do
    result ← attempt (recover_sender c tx)
    elim result [
      | inl e ↦ ok tt
      | inr recovered ↦
          assert_that (not (bytes_eq recovered signer_addr))
            (plain "fuzzer-provided sig must not verify as the signer's address")
    ]

  -- The input as the public key, beside a real signature.
  unfoldable pub try_pub_key :
      BlackChainPrivateKey → BlackChainTxType → Bytes → Bytes → Fallible (Unit {0})
  try_pub_key priv_key tx input nonce = do
    result ← attempt (sign_transaction c plain_tx priv_key nonce)
    elim result [
      | inl e ↦ ignored (recover_sender c tx)
      | inr signed ↦
          let tx2 : BlackChainTxType = record signed { pub_key = some input } in
          ignored (recover_sender c tx2)
    ]

  unfoldable pub fuzz_composite_sig_verify : Bytes → Bytes → Fallible (Unit {0})
  fuzz_composite_sig_verify input nonce = do
    (priv_key, signer_key) ←
        or_panic (λ e. plain "keygen must succeed for fixed seed") (generate c fixed_seed)
    signer_addr ← derive_address c signer_key
    (_, pub_key) ← unwrapped (generate c fixed_seed)
    let tx = claimed_tx input (to_bytes pub_key)
    try_signature tx signer_addr
    try_pub_key priv_key tx input nonce

  module _ (laws : CrateLaws c) where
    try_pub_key_total :
        (priv_key : BlackChainPrivateKey) (pk : BlackChainPublicKey) (tx : BlackChainTxType)
        (input nonce : Bytes)
        → generate c fixed_seed ≡ ok (priv_key, pk)
        → try_pub_key priv_key tx input nonce ≡ ok tt
    unfolding try_pub_key
    try_pub_key_total priv_key pk tx input nonce made =
        let (signed, address, signs, _, _, _) =
          recover_sender-sign_transaction c laws fixed_seed nonce priv_key pk plain_tx made
            (omega arith) in
        rw signs
          (ignored-Returns {F = CryptoError} (recover_sender c _) (recover_sender-Returns c laws _))

    try_signature_iff :
        (tx : BlackChainTxType) (address : Bytes)
        → Panics (try_signature tx address) ↔ (recover_sender c tx ≡ ok address)
    unfolding try_signature
    try_signature_iff tx address =
        elim (outcome_cases (recover_sender c tx) (recover_sender-Returns c laws tx)) [
          | inl (e, failed) ↦ rw failed (λ h. absurd h, λ h. cc)
          | inr (other, recovered) ↦
              let same =
                assert_ne_iff other address
                  (plain "fuzzer-provided sig must not verify as the signer's address") in
              rw recovered (λ h. ap ok (same.0 h), λ h. same.1 (ok-injective h))
        ]

    -- The signature and the key that recovery reads are those that were claimed.
    claimed :
        (input key address : Bytes)
        → let tx = claimed_tx input key in
          ((sig : Bytes) × (found : Bytes) × (tx.pqc_signature ≡ some sig)
            × (tx.pub_key ≡ some found)
            × (tx.v ≡ some (tx.chain_id * 2 + 35))
            × (tx.r ≡ some 0)
            × (tx.s ≡ some 0)
            × VerifiesAs c (signature_hash c tx) tx.chain_id found sig address)
          → VerifiesAs c (signature_hash c tx) 1 key input address
    claimed input key address (sig, found, has_sig, has_key, _, _, _, v) =
        let hash = signature_hash c (claimed_tx input key) in
        subst (λ s. VerifiesAs c hash 1 key s address) (sym (some-injective has_sig))
          (subst (λ k. VerifiesAs c hash 1 k sig address) (sym (some-injective has_key)) v)

    -- What comes behind a step that ends well cannot change whether the step panics.
    then_iff : (m n : Fallible (Unit {0})) → n ≡ ok tt → Panics (m >> n) ↔ Panics m
    then_iff (ok tt) n h = rw h (λ p. p, λ p. p)
    then_iff (err e) n h = (λ p. p, λ p. p)
    then_iff (panic m) n h = (λ p. p, λ p. p)

    -- The composite fuzz target panics on an input exactly when the input is a valid signature of the
    -- fixed key for the transaction that claims it: it can report nothing but a forgery, and it reports
    -- every forgery. The randomness of the second part does not matter. The condition is that the fixed
    -- seed gives a key.
    pub fuzz_composite_sig_verify_iff :
        (input nonce : Bytes) (sk : BlackChainPrivateKey) (pk : BlackChainPublicKey)
        → generate c fixed_seed ≡ ok (sk, pk)
        → let tx = claimed_tx input (to_bytes pk) in
          (address : Bytes) × (derive_address c pk ≡ ok address)
          × (Panics (fuzz_composite_sig_verify input nonce)
              ↔ VerifiesAs c (signature_hash c tx) 1 (to_bytes pk) input address)
    unfolding fuzz_composite_sig_verify
    fuzz_composite_sig_verify_iff input nonce sk pk made =
        let tx = claimed_tx input (to_bytes pk) in
        let (address, found, sized) = derive_address_total c laws pk in
        let reported = try_signature_iff tx address in
        let step =
          then_iff (try_signature tx address) (try_pub_key sk tx input nonce)
            (try_pub_key_total sk pk tx input nonce made) in
        let recovers = recover_sender_iff c tx address (omega arith) in
        (
          address,
          found,
          rw (made, found)
              (
                λ p. claimed input (to_bytes pk) address (recovers.0 (reported.0 (step.0 p))),
                λ v.
                    step.1 (
                      reported.1
                        (recovers.1 (input, to_bytes pk, refl, refl, refl, refl, refl, v))),
              ),
        )
