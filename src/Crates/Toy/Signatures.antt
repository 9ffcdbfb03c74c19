-- ===== src/Crates/Toy/Signatures.antt =====
-- Hash functions, ML-DSA and P-521 of the examples: a signature is the key's number plus that of the message.
use mathlib.Core.Option.{get_or}
use mathlib.Core.Path.{subst}
use blackchain_crypto_lib_ru.Base.{
  ℕ, zero, suc, ◌+◌, ◌%◌, ◌≡◌, ◌≢◌, refl, ap, Option, none, some, inl, inr, [], ◌∷◌, ◌++◌, Bytes,
  All, IsByte, length, take, drop, le_number, replicate, plain, leb, ◌==◌, if◌then◌else◌, arith,
  length-replicate, length-append, length-take, le→leb, ==_refl, ◌⊎◌, Message,
}
use blackchain_crypto_lib_ru.Crates.{Hashes, MlDsa, P521Ecdsa}
use blackchain_crypto_lib_ru.Crates.Laws.{HashLaws, MlDsaLaws, P521Laws}

abbrev last : Bytes → ℕ
last [] = 0
last (x ∷ []) = x
last (x ∷ y ∷ ys) = last (y ∷ ys)

abbrev head : Bytes → ℕ
head [] = 0
head (x ∷ xs) = x

-- Exactly n bytes, or nothing.
abbrev exactly : ℕ → Bytes → Option Bytes
exactly n bytes = if length bytes == n then some bytes else none

exactly_sized : (n : ℕ) (bytes : Bytes) → length bytes ≡ n → exactly n bytes ≡ some bytes
exactly_sized n bytes e = rw (e, ==_refl n) refl

exactly_other : (n : ℕ) (bytes : Bytes) → length bytes ≢ n → exactly n bytes ≡ none
exactly_other n bytes other = ground arith

length_zeros : (n : ℕ) → length {A = ℕ} (replicate n 0) ≡ n
length_zeros n = length-replicate n 0

-- A prefix of the input, its last byte, its sum.
unfoldable pub toy_hashes : Hashes
unfolding replicate
toy_hashes = record {
  keccak256 = λ input. take 32 (input ++ replicate 32 0);
  shake256 = λ input n. replicate n (le_number input % 256);
  sha512 = λ input. replicate 63 0 ++ last input ∷ [];
  hkdf_expand = λ ikm n. if leb n 16320 then some (replicate n (le_number ikm % 256)) else none;
}

pub All-replicate : (n b : ℕ) → IsByte b → All IsByte (replicate n b)
unfolding replicate
All-replicate zero b h = tt
All-replicate (suc n) b h = (h, All-replicate n b h)

pub toy_hashes-HashLaws : HashLaws toy_hashes
unfolding toy_hashes
toy_hashes-HashLaws = record {
  length-keccak256 = λ input.
      length-take 32 (input ++ replicate 32 0)
        (omega (arith, length-append input (replicate 32 0), length_zeros 32));
  length-shake256 = λ input n. length-replicate n (le_number input % 256);
  bytes-shake256 = λ input n. All-replicate n (le_number input % 256) (omega arith);
  length-sha512 = λ input. refl;
  hkdf_expands = λ ikm n small. (
    replicate n (le_number ikm % 256),
    rw (le→leb n 16320 small) refl,
    length-replicate n (le_number ikm % 256),
  );
}

abbrev pub toy_ml_dsa : MlDsa
toy_ml_dsa = record {
  SigningKey = Bytes;
  VerifyingKey = ℕ;
  Signature = ℕ;
  seed_array = exactly 32;
  from_seed = λ xi. xi;
  to_seed = λ sk. sk;
  verifying_key = le_number;
  encode = λ pk. pk ∷ replicate 2591 0;
  key_array = exactly 2592;
  decode = head;
  try_sign = λ sk msg. some (le_number sk + le_number msg);
  encode_signature = λ s. s ∷ replicate 4626 0;
  signature_try_from = λ bytes. if length bytes == 4627 then some (head bytes) else none;
  verify_with_context = λ pk msg ctx s. s == pk + le_number msg;
}

pub toy_ml_dsa-MlDsaLaws : MlDsaLaws toy_ml_dsa
toy_ml_dsa-MlDsaLaws = record {
  seed_array_exact = exactly_sized 32;
  seed_array_other = exactly_other 32;
  key_array_exact = exactly_sized 2592;
  to_seed-from_seed = λ xi _. refl;
  length-encode = λ pk. ap suc (length_zeros 2591);
  decode-encode = λ pk. refl;
  length-encode_signature = λ s. ap suc (length_zeros 4626);
  signature_try_from-encode_signature = λ s. rw (length_zeros 4626) refl;
  signs = λ sk msg. (le_number sk + le_number msg, refl, ==_refl (le_number sk + le_number msg));
}

-- A signature in its low or its high form.
pub data Form : Type 0 where
  low high : ℕ → Form

abbrev value_of : Form → ℕ
value_of (low x) = x
value_of (high x) = x

-- The value, and 66 bytes further the form.
abbrev pub form_bytes : Form → Bytes
form_bytes (low x) = x ∷ (replicate 65 0 ++ 0 ∷ replicate 65 0)
form_bytes (high x) = x ∷ (replicate 65 0 ++ 1 ∷ replicate 65 0)

abbrev pub form_of : Bytes → Message ⊎ Form
form_of [] = inl (plain "signature error")
form_of (x ∷ bytes) = inr (if head (drop 65 bytes) == 0 then low x else high x)

abbrev normalized : Form → Option Form
normalized (low x) = none
normalized (high x) = some (low x)

-- The secret scalar less one; the zero scalar is refused.
abbrev scalar_of : ℕ → Message ⊎ ℕ
scalar_of zero = inl (plain "zero scalar")
scalar_of (suc n) = inr n

-- High without randomness.
abbrev signed : ℕ → Bytes → Bytes → Form
signed sk [] msg = high (sk + le_number msg)
signed sk (b ∷ nonce) msg = low (sk + le_number msg)

abbrev checked : ℕ → Bytes → Form → Message ⊎ Unit {0}
checked pk msg s = if value_of s == pk + le_number msg then inr tt else inl (plain "mismatch")

abbrev pub toy_p521 : P521Ecdsa
toy_p521 = record {
  SigningKey = ℕ;
  VerifyingKey = ℕ;
  Signature = Form;
  from_sec1_bytes =
      λ bytes. if length bytes == 133 then inr (head bytes) else inl (plain "not a point");
  to_encoded_point = λ pk. pk ∷ replicate 132 0;
  verifying_key = λ sk. sk;
  from_slice = λ bytes. scalar_of (last bytes);
  to_bytes = λ sk. replicate 65 0 ++ suc sk ∷ [];
  random = λ entropy. 0;
  sign = signed;
  signature_from_slice = form_of;
  signature_to_bytes = form_bytes;
  normalize_s = normalized;
  verify = checked;
}

length-form_bytes : (s : Form) → length (form_bytes s) ≡ 132
unfolding replicate
length-form_bytes (low x) = refl
length-form_bytes (high x) = refl

form_of-form_bytes : (s : Form) → form_of (form_bytes s) ≡ inr s
unfolding replicate
form_of-form_bytes (low x) = refl
form_of-form_bytes (high x) = refl

normalized_low : (s t : Form) → normalized s ≡ some t → normalized t ≡ none
normalized_low (low x) t h = cc
normalized_low (high x) t h = subst (λ q. normalized q ≡ none) (ap (λ o. get_or o (high x)) h) refl

checked-normalized :
    (pk : ℕ) (msg : Bytes) (s t : Form)
    → normalized s ≡ some t
    → checked pk msg s ≡ checked pk msg t
checked-normalized pk msg (low x) t h = cc
checked-normalized pk msg (high x) t h =
    subst (λ q. checked pk msg (high x) ≡ checked pk msg q) (ap (λ o. get_or o (high x)) h) refl

checked-signed : (sk : ℕ) (nonce msg : Bytes) → checked sk msg (signed sk nonce msg) ≡ inr tt
checked-signed sk [] msg = rw (==_refl (sk + le_number msg)) refl
checked-signed sk (b ∷ nonce) msg = rw (==_refl (sk + le_number msg)) refl

pub toy_p521-P521Laws : P521Laws toy_p521
unfolding replicate
toy_p521-P521Laws = record {
  length-to_encoded_point = λ pk. refl;
  from_sec1_bytes-to_encoded_point = λ pk. refl;
  length-to_bytes = λ sk. refl;
  from_slice-to_bytes = λ sk. refl;
  length-signature_to_bytes = length-form_bytes;
  signature_from_slice-signature_to_bytes = form_of-form_bytes;
  normalize_s_low = normalized_low;
  verify-normalize_s = checked-normalized;
  signs = checked-signed;
}
