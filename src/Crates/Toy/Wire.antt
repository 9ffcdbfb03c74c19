-- ===== src/Crates/Toy/Wire.antt =====
-- RLP of the examples: a number is one item, a string follows its length, a list its mark and length.
use mathlib.Core.Path.{subst}
use native.Mathlib.Decide.{dec_le}
use blackchain_crypto_lib_ru.Base.{
  ◌^◌, ltb, ◌<◌, lt→ltb, Bool-cases, ℕ, suc, zero, ◌≤◌, Bool, true, false, ◌≡◌, refl, ap, inl, inr,
  sym, ◌∙◌, [], ◌∷◌, ◌++◌, Bytes, length, take, drop, plain, if◌then◌else◌, leb, arith, le→leb, ◌⊎◌,
  length-append, take-append, drop-append, take-append-drop, length-take,
}
use blackchain_crypto_lib_ru.Error.{RlpFailure, input_too_short, unexpected_length}
use blackchain_crypto_lib_ru.Crates.{Rlp}
use blackchain_crypto_lib_ru.Crates.Laws.{RlpLaws}

abbrev number_item : ℕ → Bytes → RlpFailure ⊎ (ℕ × Bytes)
number_item bound [] = inl input_too_short
number_item bound (x ∷ rest) = if ltb x bound then inr (x, rest) else inl unexpected_length

abbrev string_item : Bytes → Bytes
string_item bytes = length bytes ∷ bytes

abbrev string_of : Bytes → RlpFailure ⊎ (Bytes × Bytes)
string_of [] = inl input_too_short
string_of (n ∷ rest) =
    if leb n (length rest) then inr (take n rest, drop n rest) else inl input_too_short

abbrev mark : Bool → ℕ
mark true = 1
mark false = 0

abbrev marked : ℕ → Bool
marked zero = false
marked (suc n) = true

abbrev header_of : Bytes → RlpFailure ⊎ (Bool × ℕ × Bytes)
header_of (zero ∷ n ∷ rest) =
    if leb n (length rest) then inr (false, n, rest) else inl input_too_short
header_of (suc zero ∷ n ∷ rest) =
    if leb n (length rest) then inr (true, n, rest) else inl input_too_short
header_of _ = inl input_too_short

abbrev pub toy_rlp : Rlp
toy_rlp = record {
  error_text = λ e. plain "rlp";
  encode_u64 = λ x. x ∷ [];
  encode_u256 = λ x. x ∷ [];
  encode_bytes = string_item;
  encode_address = string_item;
  encode_header = λ list n. mark list ∷ n ∷ [];
  length_u64 = λ x. 1;
  length_u256 = λ x. 1;
  length_bytes = λ x. suc (length x);
  length_address = λ x. suc (length x);
  length_of_length = λ n. 2;
  decode_u64 = number_item (2 ^ 64);
  decode_u256 = number_item (2 ^ 256);
  decode_bytes = string_of;
  decode_header = header_of;
}

abbrev right : {A : Type 0} → A → RlpFailure ⊎ A → A
right a (inl e) = a
right a (inr b) = b

number_fits :
    (bound x : ℕ) (rest : Bytes) → x < bound → number_item bound (x ∷ rest) ≡ inr (x, rest)
number_fits bound x rest lt = rw (lt→ltb x bound lt) refl

number_read :
    (bound : ℕ) (buf : Bytes) (x : ℕ) (rest : Bytes)
    → number_item bound buf ≡ inr (x, rest)
    → (x < bound) × (buf ≡ x ∷ rest)
number_read bound [] x rest h = cc
number_read bound (y ∷ ys) x rest h = elim (Bool-cases (ltb y bound)) [
  | inl small ↦
      let same : (y, ys) ≡ (x, rest) = ap (right (x, rest)) (rw small at h) in
      subst (λ p. (p.0 < bound) × (y ∷ ys ≡ p.0 ∷ p.1)) same (ground arith, refl)
  | inr big ↦ cc (rw big at h)
]

string_of-string_item : (x rest : Bytes) → string_of (string_item x ++ rest) ≡ inr (x, rest)
string_of-string_item x rest =
    rw
      (
        le→leb (length x) (length (x ++ rest)) (omega (arith, length-append x rest)),
        take-append (length x) x rest refl,
        drop-append (length x) x rest refl,
      )
      refl

string_fits : (n : ℕ) (ys : Bytes) → n ≤ length ys → string_of (n ∷ ys) ≡ inr (take n ys, drop n ys)
string_fits n ys fits = rw (le→leb n (length ys) fits) refl

string_short : (n : ℕ) (ys : Bytes) → ¬ (n ≤ length ys) → string_of (n ∷ ys) ≡ inl input_too_short
string_short n ys big = ground arith

string_canonical :
    (buf x rest : Bytes) → string_of buf ≡ inr (x, rest) → buf ≡ string_item x ++ rest
string_canonical [] x rest h = cc
string_canonical (n ∷ ys) x rest h = elim (dec_le n (length ys)) [
  | yes fits ↦
      let same = ap (right (x, rest)) (sym (string_fits n ys fits) ∙ h) in
      subst (λ p. n ∷ ys ≡ string_item p.0 ++ p.1) same
        (rw (length-take n ys fits, take-append-drop n ys) refl)
  | no big ↦ cc (string_short n ys big)
]

header_canonical :
    (buf : Bytes) (n : ℕ) (rest : Bytes) → header_of buf ≡ inr (true, n, rest) → buf ≡ 1 ∷ n ∷ rest
header_canonical [] n rest h = cc
header_canonical (zero ∷ []) n rest h = cc
header_canonical (zero ∷ m ∷ ys) n rest h = ground arith
header_canonical (suc zero ∷ []) n rest h = cc
header_canonical (suc zero ∷ m ∷ ys) n rest h = ground arith
header_canonical (suc (suc k) ∷ []) n rest h = cc
header_canonical (suc (suc k) ∷ m ∷ ys) n rest h = cc

pub toy_rlp-RlpLaws : RlpLaws toy_rlp
toy_rlp-RlpLaws = record {
  length-encode_u64 = λ x. refl;
  length-encode_u256 = λ x. refl;
  length-encode_bytes = λ x. refl;
  length-encode_address = λ x. refl;
  length-encode_header = λ n. refl;
  encode_address_lem = λ x _. refl;
  encode_u256_pos = λ x. omega arith;
  encode_bytes_pos = λ x. omega arith;
  decode_u64-encode_u64 = λ x rest lt. number_fits _ x rest lt;
  decode_u256-encode_u256 = λ x rest lt. number_fits _ x rest lt;
  decode_bytes-encode_bytes = string_of-string_item;
  decode_header-encode_header = λ n rest fits. rw (le→leb n (length rest) fits) refl;
  decode_u64_range = λ buf x rest h. (number_read _ buf x rest h).0;
  decode_u256_range = λ buf x rest h. (number_read _ buf x rest h).0;
  decode_u64_canonical = λ buf x rest h. (number_read _ buf x rest h).1;
  decode_u256_canonical = λ buf x rest h. (number_read _ buf x rest h).1;
  decode_bytes_canonical = string_canonical;
  decode_header_canonical = header_canonical;
}
