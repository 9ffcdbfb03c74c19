-- ===== src/Programs/Trials/Ed448Trial/Run.antt =====
-- The trial of the Ed448 wrapper runs to its end (src/bin/test_ed448.rs).
use blackchain_crypto_lib_ru.Base.{
  ◌≡◌, refl, arith, text, true, inl, err, none, some, [], ◌∷◌, Bytes, Message, ok, bytes_eq_iff,
  length, slice_inside, copy_from_slice_exact,
}
use blackchain_crypto_lib_ru.Crates.{Hashes, Ed448Rust, Goldilocks, Entropy}
use blackchain_crypto_lib_ru.Crates.Laws.{HashLaws, GoldilocksLaws, Ed448RustLaws}
use blackchain_crypto_lib_ru.Ed448.{verify_sig, verify_trusted, sign_msg, from_opts, context_opt}
use blackchain_crypto_lib_ru.Ed448.Keys.{
  derived, derived_public, from_seed_lem, public_from_bytes_derived, signed_verifies, as_bytes_lem,
}
use blackchain_crypto_lib_ru.Ed448.Scheme.{
  scheme, scheme_generate_key, new_key_from_seed, dyn_public, dyn_private,
}
use blackchain_crypto_lib_ru.Ed448.Scheme.Contract.{ed448_scheme-Honours}
use blackchain_crypto_lib_ru.Error.{CryptoError, signature_error}
use blackchain_crypto_lib_ru.Programs.Trials.{
  Draws, flip_first, flip_first_lem, dynamic_step, dynamic_step_total,
}
use blackchain_crypto_lib_ru.Programs.Trials.Ed448Trial.{
  message, msg2, tx_opts, plain_steps, context_step, seed_step, roundtrip_step, main,
}
use blackchain_crypto_lib_ru.Programs.Trials.RoundtripTrial.{generate_key-Draws}

module _ (h : Hashes) (r : Ed448Rust) (g : Goldilocks) (laws : GoldilocksLaws g)
    (hash_laws : HashLaws h) (rust : Ed448RustLaws h r g laws) where
  seed_step_total : (entropy : Entropy) → Draws 57 entropy → seed_step h r g entropy ≡ ok tt
  unfolding seed_step new_key_from_seed
  seed_step_total entropy d =
      let raw = (derived_public h r g (r.private_from d.seed)).raw in
      rw (d.drawn, from_seed_lem h r g d.seed d.sized, (bytes_eq_iff raw raw).1 refl) refl

  roundtrip_step_total :
      (entropy : Entropy) → Draws 57 entropy → roundtrip_step h r g entropy ≡ ok tt
  unfolding roundtrip_step
  roundtrip_step_total entropy d =
      let inner = r.private_from d.seed in
      let (sig, signed, sized, trusted, read) =
        signed_verifies h r g laws hash_laws rust inner msg2 none tt in
      rw
        (
          generate_key-Draws h r g entropy d,
          signed,
          public_from_bytes_derived h r g laws hash_laws rust inner,
          read,
        )
        refl

  dynamic_total :
      (entropy : Entropy)
      → Draws 57 entropy
      → dynamic_step (scheme h r g) message entropy [] ≡ ok true
  unfolding scheme scheme_generate_key
  dynamic_total entropy d =
      let inner = r.private_from d.seed in
      dynamic_step_total (scheme h r g) (ed448_scheme-Honours h hash_laws r g laws rust) message []
        entropy (dyn_public h r g (derived_public h r g inner))
        (dyn_private h r g (derived h r g inner)) (rw (generate_key-Draws h r g entropy d) refl)

  -- The crate refuses what is not a signature of the message without a context.
  abbrev Denies : r.PrivateKey → Bytes → Type 0
  Denies inner sig = (e : Message) × (r.verify (r.public_from inner) message sig none ≡ inl e)

  refused :
      (inner : r.PrivateKey) (sig : Bytes)
      → length sig ≡ 114
      → Denies inner sig
      → (e : CryptoError) × (verify_sig h r g (derived_public h r g inner) message sig none ≡ err e)
  unfolding verify_sig verify_trusted from_opts context_opt
  refused inner sig sized (e, denied) = (
    signature_error (text "ed448 verify: " ∷ e),
    rw (sized, copy_from_slice_exact {E = CryptoError} 114 sig sized, denied) refl,
  )

  -- It refuses a signature whose first byte is changed, and one that was made with the context.
  record Forgeries (inner : r.PrivateKey) : Type 0 where
    flipped :
        (sig bad : Bytes)
        → sign_msg h r g (derived h r g inner) message none ≡ ok sig
        → flip_first {E = CryptoError} 0xff sig ≡ ok bad
        → Denies inner bad
    crossed :
        (sig : Bytes)
        → sign_msg h r g (derived h r g inner) message (some tx_opts) ≡ ok sig
        → Denies inner sig

  module _ (inner : r.PrivateKey) (forgeries : Forgeries inner) where
    plain_steps_total : plain_steps h r g (derived_public h r g inner) (derived h r g inner) ≡ ok tt
    unfolding plain_steps
    plain_steps_total =
        let (sig, signed, sized, verified, _) =
          signed_verifies h r g laws hash_laws rust inner message none tt in
        let (bad, flipped, still) = flip_first_lem {E = CryptoError} 0xff 113 sig sized in
        let (e, denied) = refused inner bad still (forgeries.flipped sig bad signed flipped) in
        rw
          (
            signed,
            slice_inside {E = CryptoError} 0 16 sig (omega arith) (omega arith),
            sized,
            verified,
            flipped,
            denied,
          )
          refl

    context_step_total :
        context_step h r g (derived_public h r g inner) (derived h r g inner) ≡ ok (true, true)
    unfolding context_step
    context_step_total =
        let (sig, signed, sized, verified, _) =
          signed_verifies h r g laws hash_laws rust inner message (some tx_opts) (omega arith) in
        let (e, denied) = refused inner sig sized (forgeries.crossed sig signed) in
        rw (signed, verified, denied) refl

  -- Where the system has randomness, and the crate refuses the changed signature and the one with
  -- another context, no assertion fails and every verdict is true.
  main_lem :
      (keys root trip dynamic : Entropy) (d : Draws 57 keys)
      → Draws 57 root
      → Draws 57 trip
      → Draws 57 dynamic
      → Forgeries (r.private_from d.seed)
      → main h r g keys root trip dynamic ≡ ok (true ∷ true ∷ true ∷ [])
  unfolding main
  main_lem keys root trip dynamic d d_root d_trip d_dynamic forgeries =
      let inner = r.private_from d.seed in
      rw
        (
          generate_key-Draws h r g keys d,
          as_bytes_lem h r g laws hash_laws rust d.seed d.sized,
          rust.length-public_bytes (r.public_from inner),
          d.sized,
          plain_steps_total inner forgeries,
          context_step_total inner forgeries,
          seed_step_total root d_root,
          roundtrip_step_total trip d_trip,
          dynamic_total dynamic d_dynamic,
        )
        refl
