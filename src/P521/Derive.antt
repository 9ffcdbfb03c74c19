-- ===== src/P521/Derive.antt =====
-- The search of `derive_keypair_from_seed` (src/mdecc/p521.rs) for a counter that gives a scalar.
use native.Mathlib.Nat.{add-zero}
use mathlib.Core.Path.{subst}
use blackchain_crypto_lib_ru.Base.{
  answer_cases, ◌⊎◌, ◌≢◌, ◌==◌, Bool-cases, ℕ, zero, suc, ◌+◌, ◌<◌, ◌≡◌, ◌∙◌, sym, inl, inr, [],
  ◌∷◌, ◌++◌, Bytes, ok, arith, length, replicate, codes, copy_from_slice_exact, Panics, Message,
  ◌↔◌, ==_iff,
}
use blackchain_crypto_lib_ru.Crates.Laws.{HashLaws}
use blackchain_crypto_lib_ru.Crates.{Hashes, P521Ecdsa}
use blackchain_crypto_lib_ru.Error.{CryptoError}
use blackchain_crypto_lib_ru.P521.{
  PublicKey, PrivateKey, scalar_bytes, derive_from, derive_keypair_from_seed, public_key_typed,
}

module _ (p : P521Ecdsa) (h : Hashes) where
  -- The 66 bytes that one counter offers as a scalar.
  abbrev pub candidate : Bytes → ℕ → Bytes
  candidate seed counter =
      0 ∷ 0 ∷ h.sha512 (codes "blackchain-p521-derive-v1" ++ seed ++ counter ∷ [])

  abbrev pub Rejected : Bytes → ℕ → Type 0
  Rejected seed counter = (e : Message) × (p.from_slice (candidate seed counter) ≡ inl e)

  -- `sk` is what the first accepted counter gives, of the `rounds` counters from `counter` on.
  pub record FirstAccepted (rounds counter : ℕ) (seed : Bytes) (sk : PrivateKey p) : Type 0 where
    pub tries : ℕ
    pub in_range : tries < rounds
    pub rejected_before : (j : ℕ) → j < tries → Rejected seed (counter + j)
    pub accepted : p.from_slice (candidate seed (counter + tries)) ≡ inr sk

  Rejected-before-suc :
      (counter : ℕ) (seed : Bytes) (n : ℕ)
      → Rejected seed counter
      → ((j : ℕ) → j < n → Rejected seed (counter + 1 + j))
      → (j : ℕ) → j < suc n
      → Rejected seed (counter + j)
  Rejected-before-suc counter seed n here later zero lt =
      subst (Rejected seed) (let e : counter ≡ counter + 0 = omega arith in e) here
  Rejected-before-suc counter seed n here later (suc j) lt =
      subst (Rejected seed) (let e : counter + 1 + j ≡ counter + suc j = omega arith in e)
        (later j (omega arith))

  module _ (laws : HashLaws h) where
    scalar_bytes_lem :
        (seed : Bytes) (counter : ℕ) → scalar_bytes p h seed counter ≡ ok (candidate seed counter)
    unfolding scalar_bytes replicate
    scalar_bytes_lem seed counter =
        rw (copy_from_slice_exact {E = CryptoError} 64 _ (laws.length-sha512 _))

    step_accepts :
        (rounds counter : ℕ) (seed : Bytes) (sk : PrivateKey p)
        → p.from_slice (candidate seed counter) ≡ inr sk
        → derive_from p h (suc rounds) counter seed ≡ ok (public_key_typed p sk, sk)
    unfolding derive_from public_key_typed
    step_accepts rounds counter seed sk e = rw (scalar_bytes_lem seed counter, e)

    step_rejects :
        (rounds counter : ℕ) (seed : Bytes)
        → Rejected seed counter
        → derive_from p h (suc rounds) counter seed ≡ derive_from p h rounds (counter + 1) seed
    unfolding derive_from
    step_rejects rounds counter seed (m, e) = rw (scalar_bytes_lem seed counter, e)

    finds_at :
        (tries rounds counter : ℕ) (seed : Bytes) (sk : PrivateKey p)
        → tries < rounds
        → ((j : ℕ) → j < tries → Rejected seed (counter + j))
        → p.from_slice (candidate seed (counter + tries)) ≡ inr sk
        → derive_from p h rounds counter seed ≡ ok (public_key_typed p sk, sk)
    finds_at tries zero counter seed sk lt rejected accepted = absurd (omega arith)
    finds_at zero (suc rounds) counter seed sk lt rejected accepted =
        step_accepts rounds counter seed sk (rw add-zero at accepted)
    finds_at (suc tries) (suc rounds) counter seed sk lt rejected accepted =
        let shift : (j : ℕ) → counter + suc j ≡ counter + 1 + j = λ j. omega arith in
        let here = rejected 0 (omega arith) in
        step_rejects rounds counter seed (here.0, rw add-zero at here.1)
        ∙ finds_at tries rounds (counter + 1) seed sk (omega arith)
            (λ j lt'. subst (Rejected seed) (shift j) (rejected (suc j) (omega arith)))
            (subst (λ k. p.from_slice (candidate seed k) ≡ inr sk) (shift tries) accepted)

    found :
        (rounds counter : ℕ) (seed : Bytes) (pk : PublicKey p) (sk : PrivateKey p)
        → derive_from p h rounds counter seed ≡ ok (pk, sk)
        → FirstAccepted rounds counter seed sk × (pk ≡ public_key_typed p sk)
    unfolding public_key_typed
    found zero counter seed pk sk e = unfold derive_from in cc
    found (suc rounds) counter seed pk sk e =
        elim (answer_cases (p.from_slice (candidate seed counter))) [
          | inr (sk', yes_here) ↦
              let same = step_accepts rounds counter seed sk' yes_here in
              let sk_eq : sk' ≡ sk = cc in
              (
                record {
                  tries = 0;
                  in_range = omega arith;
                  rejected_before = λ j lt. absurd (omega arith);
                  accepted = rw (add-zero, ← sk_eq) yes_here;
                },
                cc,
              )
          | inl (m, no_here) ↦
              let later = sym (step_rejects rounds counter seed (m, no_here)) ∙ e in
              let (f, pk_eq) = found rounds (counter + 1) seed pk sk later in
              (
                record {
                  tries = suc f.tries;
                  in_range = omega (arith, f.in_range);
                  rejected_before =
                      Rejected-before-suc counter seed f.tries (m, no_here) f.rejected_before;
                  accepted =
                      subst (λ k. p.from_slice (candidate seed k) ≡ inr sk)
                        (let q : counter + 1 + f.tries ≡ counter + suc f.tries = omega arith in q)
                        f.accepted;
                },
                pk_eq,
              )
        ]

    -- The search ends with a key, or every counter was rejected.
    pub search_outcome :
        (rounds counter : ℕ) (seed : Bytes)
        → ((sk : PrivateKey p) × (derive_from p h rounds counter seed
              ≡ ok (public_key_typed p sk, sk)))
          ⊎ ((j : ℕ) → j < rounds → Rejected seed (counter + j))
    search_outcome zero counter seed = inr (λ j lt. absurd (omega arith))
    search_outcome (suc rounds) counter seed =
        elim (answer_cases (p.from_slice (candidate seed counter))) [
          | inr (sk, here) ↦ inl (sk, step_accepts rounds counter seed sk here)
          | inl (m, here) ↦ elim (search_outcome rounds (counter + 1) seed) [
            | inl (sk, later) ↦ inl (sk, step_rejects rounds counter seed (m, here) ∙ later)
            | inr later ↦ inr (Rejected-before-suc counter seed rounds (m, here) later)
          ]
        ]

    -- One accepted counter is enough for a key.
    pub derive_keypair_from_seed_total :
        (seed : Bytes) (j : ℕ)
        → length seed ≡ 66
        → j < 256
        → ¬ Rejected seed j
        → (sk : PrivateKey p) × (derive_keypair_from_seed p h seed ≡ ok (public_key_typed p sk, sk))
    unfolding derive_keypair_from_seed
    derive_keypair_from_seed_total seed j e lt taken = elim (search_outcome 256 0 seed) [
      | inl (sk, made) ↦ (sk, rw (e, made))
      | inr all ↦
          absurd (taken (subst (Rejected seed) (let q : 0 + j ≡ j = omega arith in q) (all j lt)))
    ]

    -- On a seed of 66 bytes the result is the key of the first of the counters 0 to 255 whose hash the
    -- crate takes as a scalar, with its public key, and there is a result exactly when there is such a
    -- counter. On any other length the function panics.
    pub derive_keypair_from_seed_iff :
        (seed : Bytes) (pk : PublicKey p) (sk : PrivateKey p)
        → (length seed ≡ 66
            → (derive_keypair_from_seed p h seed ≡ ok (pk, sk))
              ↔ (FirstAccepted 256 0 seed sk × (pk ≡ public_key_typed p sk)))
          × (length seed ≢ 66 → Panics (derive_keypair_from_seed p h seed))
    unfolding derive_keypair_from_seed
    derive_keypair_from_seed_iff seed pk sk = (
      λ e. rw e (
        (λ made. found 256 0 seed pk sk made),
        (λ first.
            let f = first.0 in
            rw first.1 (finds_at f.tries 256 0 seed sk f.in_range f.rejected_before f.accepted)),
      ),
      λ ne. elim (Bool-cases (length seed == 66)) [
        | inl same ↦ absurd (ne ((==_iff (length seed) 66).0 same))
        | inr other ↦ rw other tt
      ],
    )
