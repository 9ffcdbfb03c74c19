-- ===== src/Programs/Trials/RoundtripTrial.antt =====
-- src/bin/test_verify_roundtrip.rs: Ed448 public keys read back from their bytes, ten times.
use blackchain_crypto_lib_ru.Base.{
  ℕ, zero, suc, ◌+◌, ◌≡◌, refl, true, Bool, none, List, [], ◌∷◌, Bytes, codes, ok, ◌>>=◌, unwrapped,
  succeeds, bytes_eq, bytes_eq_iff, replicate,
}
use blackchain_crypto_lib_ru.Crates.{Hashes, Ed448Rust, Goldilocks, Entropy}
use blackchain_crypto_lib_ru.Crates.Laws.{HashLaws, GoldilocksLaws, Ed448RustLaws}
use blackchain_crypto_lib_ru.Ed448.{public_from_bytes, verify_sig, sign_msg, generate_key}
use blackchain_crypto_lib_ru.Ed448.Keys.{
  derived, derived_public, from_seed_lem, public_from_bytes_derived, signed_verifies,
}
use blackchain_crypto_lib_ru.Error.{Fallible}
use blackchain_crypto_lib_ru.Programs.Trials.{Draws}

abbrev pub trial_message : Bytes
trial_message = codes "roundtrip test"

module _ (h : Hashes) (r : Ed448Rust) (g : Goldilocks) where
  -- The body of the loop: `bytes_match` and `verify_ok`.
  unfoldable pub trial : Entropy → Fallible (Bool × Bool)
  trial entropy = do
    (pk, sk) ← unwrapped (generate_key h r g entropy)
    sig ← unwrapped (sign_msg h r g sk trial_message none)
    pk2 ← unwrapped (public_from_bytes h r g pk.raw)
    let bytes_match = bytes_eq pk.raw pk2.raw
    verify_ok ← succeeds (verify_sig h r g pk2 trial_message sig none)
    ok (bytes_match, verify_ok)

  -- Trials from number `i` on, for the ones that are left.
  unfoldable pub trials : ℕ → ℕ → (ℕ → Entropy) → Fallible (List (Bool × Bool))
  trials zero i entropies = ok []
  trials (suc left) i entropies = do
    verdict ← trial (entropies i)
    verdicts ← trials left (i + 1) entropies
    ok (verdict ∷ verdicts)

  unfoldable pub main : (ℕ → Entropy) → Fallible (List (Bool × Bool))
  main entropies = trials 10 0 entropies

  pub generate_key-Draws :
      (entropy : Entropy) (d : Draws 57 entropy)
      → let inner = r.private_from d.seed in
        generate_key h r g entropy ≡ ok (derived_public h r g inner, derived h r g inner)
  unfolding generate_key
  generate_key-Draws entropy d = rw (d.drawn, from_seed_lem h r g d.seed d.sized) refl

  module _ (laws : GoldilocksLaws g) (hash_laws : HashLaws h)
      (rust : Ed448RustLaws h r g laws) where
    trial_total : (entropy : Entropy) → Draws 57 entropy → trial entropy ≡ ok (true, true)
    unfolding trial
    trial_total entropy d =
        let inner = r.private_from d.seed in
        let raw = (derived_public h r g inner).raw in
        let (sig, signed, sized, trusted, read) =
          signed_verifies h r g laws hash_laws rust inner trial_message none tt in
        rw
          (
            generate_key-Draws entropy d,
            signed,
            public_from_bytes_derived h r g laws hash_laws rust inner,
            (bytes_eq_iff raw raw).1 refl,
            read,
          )
          refl

    trials_total :
        (left i : ℕ) (entropies : ℕ → Entropy)
        → ((j : ℕ) → Draws 57 (entropies j))
        → trials left i entropies ≡ ok (replicate left (true, true))
    unfolding trials replicate
    trials_total zero i entropies draws = refl
    trials_total (suc left) i entropies draws =
        rw (trial_total (entropies i) (draws i), trials_total left (i + 1) entropies draws) refl

    -- Each of the ten trials finds the same bytes and a valid signature under the key that was read
    -- back, where the system has randomness.
    main_lem :
        (entropies : ℕ → Entropy)
        → ((j : ℕ) → Draws 57 (entropies j))
        → main entropies ≡ ok (replicate 10 (true, true))
    unfolding main
    main_lem entropies draws = trials_total 10 0 entropies draws
