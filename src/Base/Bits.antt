-- ===== src/Base/Bits.antt =====
-- Laws of `&` and `|` with the masks that the source uses: 0x7fffffff and 0x80000000 on words of
-- 32 bits (hdwallet/derivation.rs), 0x7f on a byte (mdecc/ed448.rs).
use Prim.Native.Nat.{
  ℕ, zero, suc, ◌+◌, ◌*◌, ◌/◌, ◌%◌, ◌^◌, ◌≤◌, ◌<◌, min, max, bit_and, bit_or, digits,
  bit_and-bitwise, bit_or-bitwise,
}
use mathlib.Core.Path.{◌≡◌, refl, ◌∙◌}
use native.Mathlib.Nat.{add-mul-mod_self_left, mod-eq_of_lt, div-add-mod, mod-lt}
use native.Mathlib.Omega.{arith}

-- A digit recursion does not depend on its fuel, once that is enough.
module _ (left : ℕ → ℕ) (op : ℕ → ℕ → ℕ) where
  enough_fuel : (n m a b : ℕ) → a ≤ n → a ≤ m → digits left op n a b ≡ digits left op m a b
  enough_fuel n m zero b p q = both n m
    where
      both : (n m : ℕ) → digits left op n zero b ≡ digits left op m zero b
      both zero zero = refl
      both zero (suc m) = refl
      both (suc n) zero = refl
      both (suc n) (suc m) = refl
  enough_fuel zero m (suc a) b p q = absurd (omega arith)
  enough_fuel (suc n) zero (suc a) b p q = absurd (omega arith)
  enough_fuel (suc n) (suc m) (suc a) b p q =
      omega (arith, enough_fuel n m (suc a / 2) (b / 2) (omega arith) (omega arith))

bit_and_halves : (a b : ℕ) → bit_and a b ≡ bit_and (a / 2) (b / 2) * 2 + min (a % 2) (b % 2)
bit_and_halves zero b = omega (arith, bit_and-bitwise 0 b, bit_and-bitwise 0 (b / 2))
bit_and_halves (suc a) b = omega (
  arith,
  bit_and-bitwise (suc a) b,
  bit_and-bitwise (suc a / 2) (b / 2),
  enough_fuel (λ y. zero) min a (suc a / 2) (suc a / 2) (b / 2) (omega arith) (omega arith),
)

bit_or_halves : (a b : ℕ) → bit_or a b ≡ bit_or (a / 2) (b / 2) * 2 + max (a % 2) (b % 2)
bit_or_halves zero b = omega (arith, bit_or-bitwise 0 b, bit_or-bitwise 0 (b / 2))
bit_or_halves (suc a) b = omega (
  arith,
  bit_or-bitwise (suc a) b,
  bit_or-bitwise (suc a / 2) (b / 2),
  enough_fuel (λ y. y) max a (suc a / 2) (suc a / 2) (b / 2) (omega arith) (omega arith),
)

-- 2 ^ k, and the mask of its k lower bits, by doubling.
abbrev power : ℕ → ℕ
power zero = 1
power (suc k) = 2 * power k

abbrev ones : ℕ → ℕ
ones zero = 0
ones (suc k) = 2 * ones k + 1

power_pos : (k : ℕ) → 0 < power k
power_pos zero = omega arith
power_pos (suc k) = omega (arith, power_pos k)

bit_and_none : (n a : ℕ) → a ≤ n → bit_and a 0 ≡ 0
bit_and_none n zero h = refl
bit_and_none zero (suc a) h = absurd (omega arith)
bit_and_none (suc n) (suc a) h =
    omega (arith, bit_and_halves (suc a) 0, bit_and_none n (suc a / 2) (omega arith))

mod_double : (a p : ℕ) → 0 < p → a % (2 * p) ≡ a / 2 % p * 2 + a % 2
mod_double a p h =
    let r : ℕ = a / 2 % p * 2 + a % 2 in
    let e : a ≡ r + 2 * p * (a / 2 / p) = omega (arith, div-add-mod (a / 2) p) in
    let small : r < 2 * p = omega (arith, mod-lt (a / 2) h) in
    let s : (r + 2 * p * (a / 2 / p)) % (2 * p) ≡ r =
      add-mul-mod_self_left r (2 * p) (a / 2 / p) ∙ mod-eq_of_lt small in
    cc (e, s)

bit_and-ones : (k a : ℕ) → bit_and a (ones k) ≡ a % power k
bit_and-ones zero a = omega (arith, bit_and_none a a (omega arith))
bit_and-ones (suc k) a =
    let h : ones (suc k) / 2 ≡ ones k = omega arith in
    omega (
      arith,
      bit_and_halves a (ones (suc k)),
      bit_and-ones k (a / 2),
      mod_double a (power k) (power_pos k),
      (let s : bit_and (a / 2) (ones (suc k) / 2) ≡ bit_and (a / 2) (ones k) = rw h in s),
    )

bit_or-power : (k a : ℕ) → a < power k → bit_or a (power k) ≡ a + power k
bit_or-power zero zero h = refl
bit_or-power zero (suc a) h = absurd (omega arith)
bit_or-power (suc k) a h =
    let half : power (suc k) / 2 ≡ power k = omega arith in
    omega (
      arith,
      bit_or_halves a (power (suc k)),
      bit_or-power k (a / 2) (omega arith),
      (let s : bit_or (a / 2) (power (suc k) / 2) ≡ bit_or (a / 2) (power k) = rw half in s),
    )

-- `index & 0x7FFF_FFFF` drops the hardening bit.
pub bit_and_index : (a : ℕ) → bit_and a 0x7fff_ffff ≡ a % 0x8000_0000
bit_and_index a = bit_and-ones 31 a

-- `n | 0x8000_0000` sets it.
pub bit_or_hardened : (a : ℕ) → a < 0x8000_0000 → bit_or a 0x8000_0000 ≡ a + 0x8000_0000
bit_or_hardened a h = bit_or-power 31 a h

-- `byte & 0x7f` drops the sign bit.
pub bit_and_sign : (a : ℕ) → bit_and a 0x7f ≡ a % 128
bit_and_sign a = bit_and-ones 7 a

bit_or_below : (k a b : ℕ) → a < power k → b < power k → bit_or a b < power k
bit_or_below zero zero zero h g = h
bit_or_below zero (suc a) b h g = absurd (omega arith)
bit_or_below zero a (suc b) h g = absurd (omega arith)
bit_or_below (suc k) a b h g =
    omega (arith, bit_or_halves a b, bit_or_below k (a / 2) (b / 2) (omega arith) (omega arith))

-- `|` of two 256-bit numbers has 256 bits.
pub bit_or_u256 : (a b : ℕ) → a < 2 ^ 256 → b < 2 ^ 256 → bit_or a b < 2 ^ 256
bit_or_u256 a b h g = bit_or_below 256 a b h g

bit_or_ge_fuel : (n a b : ℕ) → b ≤ n → b ≤ bit_or a b
bit_or_ge_fuel zero a b h = omega arith
bit_or_ge_fuel (suc n) a b h =
    let halves = bit_or_halves a b in
    let rest = bit_or_ge_fuel n (a / 2) (b / 2) (omega arith) in omega arith

-- The bits that are set stay.
pub bit_or_ge : (a b : ℕ) → b ≤ bit_or a b
bit_or_ge a b = bit_or_ge_fuel b a b (omega arith)
