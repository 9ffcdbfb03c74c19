-- ===== src/Ed448/Point.antt =====
-- src/mdecc/ed448.rs, the constants and `decode_canonical_point`: which 57-byte strings are points.
pub mod Bounds
pub mod Canonical
use blackchain_crypto_lib_ru.Base.{
  ℕ, zero, suc, Bool, true, false, not, [], ◌∷◌, if◌then◌else◌, ◌==◌, ltb, Bytes, plain, ok, ◌>>=◌,
  ◌>>◌, refuse_if, ok_or, bit_and, replicate,
}
use blackchain_crypto_lib_ru.Error.{curve_error, Fallible}
use blackchain_crypto_lib_ru.Crates.{Goldilocks}

abbrev pub seed_size : ℕ
seed_size = 57

abbrev pub public_key_size : ℕ
public_key_size = 57

abbrev pub private_key_size : ℕ
private_key_size = 57

abbrev pub signature_size : ℕ
signature_size = 114

-- `bytes[i]` on an array long enough, and `bytes[i] = v`.
abbrev pub byte_at : Bytes → ℕ → ℕ
byte_at [] i = 0
byte_at (x ∷ xs) zero = x
byte_at (x ∷ xs) (suc i) = byte_at xs i

abbrev pub set : Bytes → ℕ → ℕ → Bytes
set [] i v = []
set (x ∷ xs) zero v = v ∷ xs
set (x ∷ xs) (suc i) v = x ∷ set xs i v

-- p = 2^448 - 2^224 - 1, little-endian.
unfoldable pub field_prime_le : Bytes
unfolding replicate
field_prime_le = set (replicate 56 0xff) 28 0xfe

-- `for i in (0..n).rev()`: the first differing byte from the top decides `raw < prime`.
unfoldable pub y_lt_p : ℕ → Bytes → Bytes → Bool
y_lt_p zero raw prime = false
y_lt_p (suc i) raw prime =
    let rest = y_lt_p i raw prime in
    if ltb (byte_at raw i) (byte_at prime i)
    then true
    else if ltb (byte_at prime i) (byte_at raw i)
    then false
    else rest

module _ (g : Goldilocks) where
  unfoldable pub decode_canonical_point : Bytes → Fallible g.Point
  decode_canonical_point raw = do
    refuse_if (not (bit_and (byte_at raw 56) 0x7f == 0))
        (curve_error (plain "non-canonical Ed448 point: unused bits set in final byte"))
    refuse_if (not (y_lt_p 56 raw field_prime_le))
        (curve_error (plain "non-canonical Ed448 point: y-coordinate >= field prime"))
    point ← ok_or (curve_error (plain "invalid Ed448 curve point")) (g.decompress raw)
    refuse_if (g.point_eq (g.double (g.double point)) g.identity)
        (curve_error (plain "small-order Ed448 point rejected (identity or torsion)"))
    ok point
