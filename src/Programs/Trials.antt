-- ===== src/Programs/Trials.antt =====
-- src/bin/test_dilithium.rs, test_ed448.rs and test_verify_roundtrip.rs: what the trial programs share.
-- A verdict that a program prints is a Boolean of its result; what is only shown is left out.
pub mod RoundtripTrial
pub mod Ed448Trial
pub mod DilithiumTrial
use blackchain_crypto_lib_ru.Base.{
  ◌≡◌, refl, true, Bool, ℕ, suc, none, inr, [], ◌∷◌, Bytes, plain, Result, ok, panic, ◌>>=◌,
  bit_xor, unwrapped, length,
}
use blackchain_crypto_lib_ru.Crates.{Entropy}
use blackchain_crypto_lib_ru.Error.{Fallible}
use blackchain_crypto_lib_ru.Sign.{Scheme, DynPublicKey, DynPrivateKey}
use blackchain_crypto_lib_ru.Sign.Contract.{Honours}

-- `bad_sig[0] ^= mask`
unfoldable pub flip_first {ℓ} : {E : Type ℓ} → ℕ → Bytes → Result E Bytes
flip_first mask [] = panic (plain "index out of bounds")
flip_first mask (b ∷ bs) = ok (bit_xor b mask ∷ bs)

pub flip_first_lem {ℓ} :
    {E : Type ℓ} (mask n : ℕ) (bytes : Bytes)
    → length bytes ≡ suc n
    → (changed : Bytes) × (flip_first {E = E} mask bytes ≡ ok changed) × (length changed ≡ suc n)
unfolding flip_first
flip_first_lem mask n [] e = cc
flip_first_lem mask n (b ∷ bs) e = (bit_xor b mask ∷ bs, refl, e)

-- A key is made, and signs and verifies a message, through the interface of a scheme.
unfoldable pub dynamic_step : Scheme → Bytes → Entropy → Bytes → Fallible Bool
dynamic_step s message entropy nonce = do
  (dyn_pk, dyn_sk) ← unwrapped (s.generate_key entropy)
  sig ← s.sign dyn_sk message none nonce
  s.verify dyn_pk message sig none

-- The random bytes that are asked for are there.
pub record Draws (n : ℕ) (entropy : Entropy) : Type 0 where
  pub seed : Bytes
  pub drawn : entropy n ≡ inr seed
  pub sized : length seed ≡ n

-- Every scheme that does what `Honours` lists passes the step once a key is made.
pub dynamic_step_total :
    (s : Scheme)
    → Honours s
    → (message nonce : Bytes) (entropy : Entropy) (pk : DynPublicKey) (sk : DynPrivateKey)
    → s.generate_key entropy ≡ ok (pk, sk)
    → dynamic_step s message entropy nonce ≡ ok true
unfolding dynamic_step
dynamic_step_total s h message nonce entropy pk sk made =
    let pair = h.generates entropy pk sk made in
    let (sig, signed, sized, verified) = pair.signs message none nonce tt in
    rw (made, signed, verified) refl
