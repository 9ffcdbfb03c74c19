-- ===== src/HdWallet/Decimal.antt =====
-- `u32::from_str` reads back what `to_string` writes (for src/wasm.rs and src/hdwallet/derivation.rs).
use blackchain_crypto_lib_ru.Base.{
  ◌∙◌, ap, ℕ, zero, suc, ◌+◌, ◌-◌, ◌*◌, ◌/◌, ◌%◌, ◌^◌, ◌≤◌, ◌<◌, ◌≡◌, refl, Bool-cases, some, inl,
  inr, [], ◌∷◌, ◌++◌, All, Chars, arith, ltb, decimal, length, length-append, parse_digits,
  parse_u32,
}

abbrev pub IsDigit : ℕ → Type 0
IsDigit c = (48 ≤ c) × (c ≤ 57)

-- The number that digits behind `acc` stand for.
abbrev pub value : ℕ → Chars → ℕ
value acc [] = acc
value acc (c ∷ cs) = value (acc * 10 + (c - 48)) cs

abbrev tens : ℕ → ℕ
tens zero = 1
tens (suc k) = 10 * tens k

value-snoc :
    (acc : ℕ) (cs : Chars) (c : ℕ) → value acc (cs ++ c ∷ []) ≡ value acc cs * 10 + (c - 48)
value-snoc acc [] c = refl
value-snoc acc (x ∷ cs) c = value-snoc (acc * 10 + (x - 48)) cs c

value_grows : (acc : ℕ) (cs : Chars) → acc ≤ value acc cs
value_grows acc [] = omega arith
value_grows acc (c ∷ cs) = omega (arith, value_grows (acc * 10 + (c - 48)) cs)

pub All-snoc : (cs : Chars) (c : ℕ) → All IsDigit cs → IsDigit c → All IsDigit (cs ++ c ∷ [])
All-snoc [] c all d = (d, tt)
All-snoc (x ∷ cs) c all d = (all.0, All-snoc cs c all.1 d)

pub decimal-All : (k n : ℕ) → All IsDigit (decimal k n)
unfolding decimal
decimal-All zero n = tt
decimal-All (suc k) n = elim (Bool-cases (ltb n 10)) [
  | inl small ↦ rw small (ground arith)
  | inr large ↦ rw large (
      All-snoc (decimal k (n / 10)) (48 + n % 10) (decimal-All k (n / 10))
        (omega arith, omega arith))
]

value-decimal : (k n : ℕ) → n < tens k → value 0 (decimal k n) ≡ n
unfolding decimal
value-decimal zero n h = omega arith
value-decimal (suc k) n h = elim (Bool-cases (ltb n 10)) [
  | inl small ↦ rw small (omega arith)
  | inr large ↦
      let rest = value-decimal k (n / 10) (omega arith) in
      rw large (omega (arith, value-snoc 0 (decimal k (n / 10)) (48 + n % 10), rest))
]

pub parse_digits-value :
    (acc : ℕ) (cs : Chars)
    → All IsDigit cs
    → value acc cs < 2 ^ 32
    → parse_digits acc cs ≡ some (value acc cs)
unfolding parse_digits
parse_digits-value acc [] all small = refl
parse_digits-value acc (c ∷ cs) all small =
    let rest = parse_digits-value (acc * 10 + (c - 48)) cs all.1 small in
    let grows = value_grows (acc * 10 + (c - 48)) cs in
    ground (arith, rest, grows, all.0.0, all.0.1)

-- A text of digits has no sign.
parse_u32_digits : (cs : Chars) → All IsDigit cs → 0 < length cs → parse_u32 cs ≡ parse_digits 0 cs
unfolding parse_u32
parse_u32_digits [] all some_digit = absurd (omega arith)
parse_u32_digits (c ∷ []) all some_digit = ground (arith, all.0.0)
parse_u32_digits (c ∷ d ∷ cs) all some_digit = ground (arith, all.0.0)

pub decimal_pos : (k n : ℕ) → 0 < length (decimal (suc k) n)
unfolding decimal
decimal_pos k n = elim (Bool-cases (ltb n 10)) [
  | inl small ↦ rw small (omega arith)
  | inr large ↦ rw large (omega (arith, length-append (decimal k (n / 10)) ((48 + n % 10) ∷ [])))
]

pub parse_u32-decimal : (n : ℕ) → n < 2 ^ 32 → parse_u32 (decimal 10 n) ≡ some n
parse_u32-decimal n h =
    let digits = decimal-All 10 n in
    let same = value-decimal 10 n (omega arith) in
    parse_u32_digits (decimal 10 n) digits (decimal_pos 9 n)
    ∙ parse_digits-value 0 (decimal 10 n) digits (omega arith)
    ∙ ap some same
