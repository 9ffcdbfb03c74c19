-- ===== src/Programs/Trials/DilithiumTrial.antt =====
-- src/bin/test_dilithium.rs: the ML-DSA-87 wrapper step by step. The verdicts that are printed are the
-- result. `==` on verifying keys is that of the `ml_dsa` crate.
use blackchain_crypto_lib_ru.Base.{
  ◌≡◌, refl, option_cases, inl, inr, true, Bool, some, false, List, [], ◌∷◌, Bytes, codes, plain,
  ok, err, ◌>>=◌, map_err, or_panic, unwrapped, succeeds, fails, bytes_eq, bytes_eq_iff, replicate,
  length, length-replicate, copy_from_slice_exact, ℕ,
}
use blackchain_crypto_lib_ru.Crates.{MlDsa, Entropy}
use blackchain_crypto_lib_ru.Crates.Laws.{MlDsaLaws}
use blackchain_crypto_lib_ru.Dilithium
use blackchain_crypto_lib_ru.Dilithium.{
  verification_failed, into, to_vec, seed_bytes, sign_internal, verify_internal, generate_key,
  from_seed, new_key_from_seed,
}
use blackchain_crypto_lib_ru.Dilithium.Keys.{
  expanded, private_from_bytes_lem, new_key_from_seed_lem, public_from_bytes-encode,
  signed_verifies,
}
use blackchain_crypto_lib_ru.Dilithium.Scheme.{
  dyn_public, dyn_private, scheme, scheme_generate_key, derive_key_typed,
  unmarshal_binary_public_key,
}
use blackchain_crypto_lib_ru.Dilithium.Scheme.Contract.{ml_dsa_scheme-Honours, seed_bytes_lem}
use blackchain_crypto_lib_ru.Error.{CryptoError, Fallible}
use blackchain_crypto_lib_ru.Programs.Trials.{
  Draws, flip_first, flip_first_lem, dynamic_step, dynamic_step_total,
}

abbrev pub message : Bytes
message = codes "Hello from Blackchain PQC via ML-DSA-87!"

module _ (m : MlDsa) (key_eq : m.VerifyingKey → m.VerifyingKey → Bool) where
  -- Step 1: whether the bytes of the unmarshalled key match.
  unfoldable pub key_step : Dilithium.PublicKey m → Dilithium.PrivateKey m → Fallible Bool
  key_step pk sk = do
    sk_bytes ← unwrapped (map_err into (seed_bytes m sk))
    pk2 ←
        or_panic (λ e. plain "Failed to unmarshal public key")
          (unmarshal_binary_public_key m (to_vec m pk))
    pk2_bytes ← unwrapped pk2.marshal_binary
    ok (bytes_eq pk2_bytes (to_vec m pk))

  -- Steps 2 to 4: whether the signature verifies, and whether the changed one is refused.
  unfoldable pub signature_steps :
      Dilithium.PublicKey m → Dilithium.PrivateKey m → Fallible (Bool × Bool)
  signature_steps pk sk = do
    signature ← map_err into (sign_internal m sk message)
    verified ← succeeds (verify_internal m pk message signature)
    bad_sig ← flip_first 1 signature
    rejected ← fails (verify_internal m pk message bad_sig)
    ok (verified, rejected)

  -- Step 5.
  unfoldable pub seed_step : Fallible Bool
  seed_step = do
    let seed : Bytes = replicate 32 0x42
    (seed_pk1, _) ← derive_key_typed m seed
    (seed_pk2, _) ← derive_key_typed m seed
    ok (key_eq seed_pk1 seed_pk2)

  -- The verdicts of steps 1 and 3 to 6. Each key draws its own randomness.
  unfoldable pub main : Entropy → Entropy → Fallible (List Bool)
  main keys dynamic = do
    (pk, sk) ← or_panic (λ e. plain "Failed to generate keys") (generate_key m keys)
    matches ← key_step pk sk
    (verified, rejected) ← signature_steps pk sk
    same ← seed_step
    dynamic_ok ← dynamic_step (scheme m) message dynamic []
    ok (matches ∷ verified ∷ rejected ∷ same ∷ dynamic_ok ∷ [])

  module _ (laws : MlDsaLaws m) where
    generate_key-Draws :
        (entropy : Entropy) (d : Draws 32 entropy)
        → generate_key m entropy ≡ ok ((expanded m laws d.seed).public, expanded m laws d.seed)
    unfolding generate_key from_seed
    generate_key-Draws entropy d = rw (d.drawn, private_from_bytes_lem m laws d.seed d.sized) refl

    key_step_total :
        (seed : Bytes)
        → length seed ≡ 32
        → key_step (expanded m laws seed).public (expanded m laws seed) ≡ ok true
    unfolding key_step unmarshal_binary_public_key to_vec dyn_public
    key_step_total seed e =
        let pk = (expanded m laws seed).public in
        rw
          (
            seed_bytes_lem m laws seed e,
            public_from_bytes-encode m laws pk,
            (bytes_eq_iff (m.encode pk) (m.encode pk)).1 refl,
          )
          refl

    refused :
        (seed bad : Bytes)
        → length bad ≡ 4627
        → ((s : m.Signature)
            → m.signature_try_from bad ≡ some s
            → m.verify_with_context (expanded m laws seed).public message [] s ≡ false)
        → (e : Dilithium.Error) × (verify_internal m (expanded m laws seed).public message bad
            ≡ err e)
    unfolding verify_internal
    refused seed bad sized denies = elim (option_cases (m.signature_try_from bad)) [
      | inl unread ↦ (verification_failed, rw (sized, unread) refl)
      | inr (s, read) ↦ (verification_failed, rw (sized, read, denies s read) refl)
    ]

    -- The changed signature parses to no signature of the message.
    abbrev Refuses : Bytes → Type 0
    Refuses seed =
        (sig bad : Bytes) (s : m.Signature)
        → sign_internal m (expanded m laws seed) message ≡ ok sig
        → flip_first {E = CryptoError} 1 sig ≡ ok bad
        → m.signature_try_from bad ≡ some s
        → m.verify_with_context (expanded m laws seed).public message [] s ≡ false

    signature_steps_total :
        (seed : Bytes)
        → Refuses seed
        → signature_steps (expanded m laws seed).public (expanded m laws seed) ≡ ok (true, true)
    unfolding signature_steps
    signature_steps_total seed refuses =
        let (sig, signed, sized, verified) = signed_verifies m laws seed message in
        let (bad, flipped, still) = flip_first_lem {E = CryptoError} 1 4626 sig sized in
        let (e, denied) =
          refused seed bad still (λ s read. refuses sig bad s signed flipped read) in
        rw (signed, verified, flipped, denied) refl

    seed_step_total : ((pk : m.VerifyingKey) → key_eq pk pk ≡ true) → seed_step ≡ ok true
    unfolding seed_step derive_key_typed
    seed_step_total reflexive =
        let seed = replicate {A = ℕ} 32 0x42 in
        let sized : length seed ≡ 32 = length-replicate 32 0x42 in
        rw
          (
            sized,
            copy_from_slice_exact {E = CryptoError} 32 seed sized,
            new_key_from_seed_lem m laws seed sized,
            reflexive,
          )
          refl

    dynamic_total :
        (entropy : Entropy)
        → Draws 32 entropy
        → dynamic_step (scheme m) message entropy [] ≡ ok true
    unfolding scheme scheme_generate_key
    dynamic_total entropy d =
        let sk = expanded m laws d.seed in
        dynamic_step_total (scheme m) (ml_dsa_scheme-Honours m laws) message [] entropy
          (dyn_public m sk.public) (dyn_private m sk) (rw (generate_key-Draws entropy d) refl)

    -- Where the system has randomness, `==` on keys is reflexive, and the changed signature is no
    -- signature of the message, every verdict is true.
    main_lem :
        (keys dynamic : Entropy) (d : Draws 32 keys)
        → Draws 32 dynamic
        → ((pk : m.VerifyingKey) → key_eq pk pk ≡ true)
        → Refuses d.seed
        → main keys dynamic ≡ ok (true ∷ true ∷ true ∷ true ∷ true ∷ [])
    unfolding main
    main_lem keys dynamic d d_dynamic reflexive refuses =
        rw
          (
            generate_key-Draws keys d,
            key_step_total d.seed d.sized,
            signature_steps_total d.seed refuses,
            seed_step_total reflexive,
            dynamic_total dynamic d_dynamic,
          )
          refl
