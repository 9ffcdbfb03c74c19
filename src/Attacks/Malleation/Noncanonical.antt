-- ===== src/Attacks/Malleation/Noncanonical.antt =====
-- A composite whose Ed448 scalar S is made too large is refused (src/attack_vectors.rs, section A;
-- src/mdecc/ed448.rs).
use mathlib.Core.Path.{subst}
use blackchain_crypto_lib_ru.Attacks.{or_byte, wallet, tagged_seed}
use blackchain_crypto_lib_ru.Attacks.Malleation.{spoiled, attack_ed448_noncanonical_s_rejected}
use blackchain_crypto_lib_ru.Base.{
  codes, ℕ, zero, suc, ◌+◌, ◌*◌, ◌^◌, ◌≤◌, ◌<◌, ◌≡◌, refl, ap, sym, ◌∙◌, true, none, some, Option,
  [], ◌∷◌, ◌++◌, Bytes, ok, err, length, length-append, length-take, length-drop, take, drop,
  take-append-drop, append_assoc, le_number, bit_or, arith,
}
use blackchain_crypto_lib_ru.Base.Bits.{bit_or_ge}
use blackchain_crypto_lib_ru.Crates.{Crates, Goldilocks}
use native.Mathlib.Decide.{dec_lt}
use blackchain_crypto_lib_ru.Crates.Laws.{CrateLaws}
use blackchain_crypto_lib_ru.Crypto.PrivateKey.{BlackChainPrivateKey, generate}
use blackchain_crypto_lib_ru.Crypto.RoundTrip.{verify_message-sign_message}
use blackchain_crypto_lib_ru.Crypto.Checks.{
  Authentic, checks, checks_ed448_fails, verify_message_iff,
}
use blackchain_crypto_lib_ru.Crypto.PublicKey.{BlackChainPublicKey, verify_message, failed}
use blackchain_crypto_lib_ru.Ed448.Malleation.{noncanonical_s, verify_sig_noncanonical}
use blackchain_crypto_lib_ru.Error.{CryptoError, display}

-- Canonical scalars are below the group order, and that below 2 ^ 446.
abbrev pub ScalarsBelow : Goldilocks → Type 0
ScalarsBelow g =
    (bytes : Bytes) (s : g.Scalar)
    → g.from_canonical_bytes bytes ≡ some s
    → le_number bytes < 2 ^ 446

-- The number of a byte at index `i`.
abbrev placed : ℕ → ℕ → ℕ
placed zero bits = bits
placed (suc i) bits = placed i bits * 256

-- Setting bits in byte `i` makes the number at least as large as those bits at that place.
or_byte_lem :
    (i bits : ℕ) (bytes : Bytes)
    → i < length bytes
    → (out : Bytes) × (or_byte i bits bytes ≡ ok out)
      × (length out ≡ length bytes)
      × (placed i bits ≤ le_number out)
unfolding or_byte
or_byte_lem i bits [] h = absurd (omega arith)
or_byte_lem zero bits (b ∷ bytes) h =
    (bit_or b bits ∷ bytes, refl, refl, omega (arith, bit_or_ge b bits))
or_byte_lem (suc i) bits (b ∷ bytes) h =
    let (out, changed, same, large) = or_byte_lem i bits bytes (omega arith) in
    (b ∷ out, rw changed refl, omega arith, omega arith)

or_byte-append :
    (i bits : ℕ) (front bytes out : Bytes)
    → or_byte i bits bytes ≡ ok out
    → or_byte (length front + i) bits (front ++ bytes) ≡ ok (front ++ out)
unfolding or_byte
or_byte-append i bits [] bytes out h = let e : 0 + i ≡ i = omega arith in rw e h
or_byte-append i bits (b ∷ front) bytes out h =
    let e : suc (length front) + i ≡ suc (length front + i) = omega arith in
    rw (e, or_byte-append i bits front bytes out h) refl

joined : (x y u v : Bytes) → (x ++ (y ++ u)) ++ v ≡ x ++ (y ++ (u ++ v))
joined x y u v = append_assoc x (y ++ u) v ∙ ap (◌++◌ x) (append_assoc y u v)

none_unless {ℓ} : {A : Type ℓ} (o : Option A) → ((a : A) → ¬ (o ≡ some a)) → o ≡ none
none_unless none h = refl
none_unless (some a) h = absurd (h a refl)

high : (i : ℕ) → 55 ≤ i → i < 57 → 2 ^ 446 ≤ placed i 0xC0
high i low inside = elim (dec_lt i 56) [
  | yes small ↦ let e : i ≡ 55 = omega arith in rw e (omega arith)
  | no large ↦ let e : i ≡ 56 = omega arith in rw e (omega arith)
]

-- What `checks` says of a composite whose S is too large.
abbrev pub spoiled_refused : Crates → CryptoError
spoiled_refused c = failed "Ed448 verification failed: " (display c.rlp.error_text noncanonical_s)

module _ (c : Crates) (below : ScalarsBelow c.goldilocks) where
  too_large :
      (bytes : Bytes) → 2 ^ 446 ≤ le_number bytes → c.goldilocks.from_canonical_bytes bytes ≡ none
  too_large bytes large =
      none_unless (c.goldilocks.from_canonical_bytes bytes)
        (λ s taken. let small = below bytes s taken in omega arith)

  module _ (pk : BlackChainPublicKey) (hash bound sig : Bytes) (a : Authentic c pk hash bound sig)
      (byte_idx : ℕ) (low : 55 ≤ byte_idx) (inside : byte_idx < 57) where
    abbrev front : Bytes
    front = a.dil_sig ++ (a.p521_sig ++ take 57 a.ed448_sig)

    s_sized : length (drop 57 a.ed448_sig) ≡ 57
    s_sized = omega (arith, length-drop 57 a.ed448_sig, a.length_ed448)

    r_sized : length (take 57 a.ed448_sig) ≡ 57
    r_sized = length-take 57 a.ed448_sig (omega (arith, a.length_ed448))

    splits_again : sig ≡ front ++ drop 57 a.ed448_sig
    splits_again =
        a.splits
        ∙ ap (λ e. a.dil_sig ++ (a.p521_sig ++ e)) (sym (take-append-drop 57 a.ed448_sig))
        ∙ sym (joined a.dil_sig a.p521_sig (take 57 a.ed448_sig) (drop 57 a.ed448_sig))

    front_sized : length front ≡ 4816
    front_sized = omega (
      arith,
      length-append a.dil_sig (a.p521_sig ++ take 57 a.ed448_sig),
      length-append a.p521_sig (take 57 a.ed448_sig),
      r_sized,
      a.length_dil,
      a.length_p521,
    )

    spoiled_lem :
        (out : Bytes)
        → or_byte byte_idx 0xC0 (drop 57 a.ed448_sig) ≡ ok out
        → spoiled byte_idx sig ≡ ok (a.dil_sig ++ (a.p521_sig ++ (take 57 a.ed448_sig ++ out)))
    unfolding spoiled
    spoiled_lem out changed =
        let moved = or_byte-append byte_idx 0xC0 front (drop 57 a.ed448_sig) out changed in
        let whole =
          subst (λ b. or_byte (length front + byte_idx) 0xC0 b ≡ ok (front ++ out))
            (sym splits_again) moved in
        let there =
          subst (λ n. or_byte (n + byte_idx) 0xC0 sig ≡ ok (front ++ out)) front_sized whole in
        there ∙ ap ok (joined a.dil_sig a.p521_sig (take 57 a.ed448_sig) out)

    checks-spoiled :
        {A : Type 0} (result : A)
        → (forged : Bytes) × (spoiled byte_idx sig ≡ ok forged)
          × (checks c pk hash bound forged result ≡ err (spoiled_refused c))
    checks-spoiled result =
        let (out, changed, same, large) =
          or_byte_lem byte_idx 0xC0 (drop 57 a.ed448_sig) (omega (arith, s_sized)) in
        let sized : length out ≡ 57 = omega (arith, s_sized) in
        let whole : length (take 57 a.ed448_sig ++ out) ≡ 114 =
          omega (arith, length-append (take 57 a.ed448_sig) out, r_sized) in
        (
          a.dil_sig ++ (a.p521_sig ++ (take 57 a.ed448_sig ++ out)),
          spoiled_lem out changed,
          checks_ed448_fails c pk hash bound (take 57 a.ed448_sig ++ out) sig result noncanonical_s
              a whole
              (verify_sig_noncanonical c.hashes c.ed448_rust c.goldilocks pk.ed448 _ a.ed448_sig out
                a.ed448_key none a.ed448_parses a.length_ed448 sized a.ed448_verifies
                (too_large out (omega (arith, high byte_idx low inside)))),
        )

  -- Setting the two top bits of byte 55 or 56 of the scalar S in a message signature that is accepted
  -- makes it refused, with the error of a scalar that is not canonical, if canonical scalars are below
  -- 2 ^ 446.
  pub verify_message-spoiled :
      (pk : BlackChainPublicKey) (message sig : Bytes) (byte_idx : ℕ)
      → 55 ≤ byte_idx
      → byte_idx < 57
      → verify_message c pk message sig ≡ ok true
      → (forged : Bytes) × (spoiled byte_idx sig ≡ ok forged)
        × (verify_message c pk message forged ≡ err (spoiled_refused c))
  unfolding verify_message
  verify_message-spoiled pk message sig byte_idx low inside h =
      checks-spoiled pk _ _ sig ((verify_message_iff c pk message sig).0 h) byte_idx low inside true

  attack_ed448_noncanonical_s_lem :
      CrateLaws c
      → (nonce : Bytes) (sk : BlackChainPrivateKey) (pk : BlackChainPublicKey)
      → generate c (tagged_seed 64 0 3) ≡ ok (sk, pk)
      → attack_ed448_noncanonical_s_rejected c nonce ≡ ok tt
  unfolding attack_ed448_noncanonical_s_rejected wallet
  attack_ed448_noncanonical_s_lem laws nonce sk pk made =
      let msg = codes "ed448 canonical probe" in
      let (sig, signed, sized, verified) =
        verify_message-sign_message c laws (tagged_seed 64 0 3) msg nonce sk pk made in
      let (first, first_made, first_refused) =
        verify_message-spoiled pk msg sig 56 (omega arith) (omega arith) verified in
      let (second, second_made, second_refused) =
        verify_message-spoiled pk msg sig 55 (omega arith) (omega arith) verified in
      rw (made, signed, verified, first_made, first_refused, second_made, second_refused) refl
