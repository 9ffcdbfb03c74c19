-- ===== src/Ed448/Point/Bounds.antt =====
-- The comparison loop of `decode_canonical_point` (src/mdecc/ed448.rs) in plain arithmetic.
use native.Mathlib.Nat.{pow-suc}
use blackchain_crypto_lib_ru.Base.{
  ℕ, zero, suc, ◌+◌, ◌-◌, ◌*◌, ◌^◌, ◌<◌, true, ◌≡◌, refl, ◌↔◌, Bytes, IsByte, All, [], ◌∷◌, arith,
}
use blackchain_crypto_lib_ru.Ed448.Point.{byte_at, field_prime_le, y_lt_p}

-- The little-endian number of the first n bytes.
abbrev pub le_value : ℕ → Bytes → ℕ
le_value zero raw = 0
le_value (suc i) raw = le_value i raw + byte_at raw i * 256 ^ i

pub byte_at-IsByte : (raw : Bytes) (i : ℕ) → All IsByte raw → IsByte (byte_at raw i)
byte_at-IsByte [] i h = omega arith
byte_at-IsByte (x ∷ xs) zero h = h.0
byte_at-IsByte (x ∷ xs) (suc i) h = byte_at-IsByte xs i h.1

-- One more digit below 256 stays below the next power.
digit_bound : (v d p : ℕ) → v < p → d < 256 → v + d * p < 256 * p
digit_bound v d p h k = grind arith

pub le_value_bound : (n : ℕ) (raw : Bytes) → All IsByte raw → le_value n raw < 256 ^ n
le_value_bound zero raw h = omega arith
le_value_bound (suc n) raw h =
    let b =
      digit_bound (le_value n raw) (byte_at raw n) (256 ^ n) (le_value_bound n raw h)
        (byte_at-IsByte raw n h) in
    omega (arith, b, pow-suc 256 n)

-- A smaller top digit decides, whatever the digits below it.
top_digit_decides : (v w d e p : ℕ) → v < p → d < e → v + d * p < w + e * p
top_digit_decides v w d e p h k = grind arith

-- On strings of bytes the loop over the first n decides whether the first string stands for the lower
-- little-endian number in them.
pub y_lt_p_iff :
    (n : ℕ) (raw prime : Bytes)
    → All IsByte raw
    → All IsByte prime
    → (y_lt_p n raw prime ≡ true) ↔ (le_value n raw < le_value n prime)
unfolding y_lt_p
y_lt_p_iff zero raw prime hr hp = (λ e. cc, λ h. absurd (omega arith))
y_lt_p_iff (suc n) raw prime hr hp = ground (
  arith,
  y_lt_p_iff n raw prime hr hp,
  le_value_bound n raw hr,
  le_value_bound n prime hp,
  top_digit_decides (le_value n raw) (le_value n prime) (byte_at raw n) (byte_at prime n) (256 ^ n),
  top_digit_decides (le_value n prime) (le_value n raw) (byte_at prime n) (byte_at raw n) (256 ^ n),
)

pub field_prime_le-IsByte : All IsByte field_prime_le
unfolding field_prime_le
field_prime_le-IsByte = omega arith

-- The constant is the prime p = 2^448 - 2^224 - 1.
pub le_value-field_prime_le : le_value 56 field_prime_le ≡ 2 ^ 448 - 2 ^ 224 - 1
unfolding field_prime_le
le_value-field_prime_le = refl
