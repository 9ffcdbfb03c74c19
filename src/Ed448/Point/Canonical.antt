-- ===== src/Ed448/Point/Canonical.antt =====
-- Which strings `decode_canonical_point` (src/mdecc/ed448.rs) accepts.
use blackchain_crypto_lib_ru.Base.{
  ◌-◌, ◌^◌, ◌%◌, ◌<◌, true, false, ◌==◌, ==_iff, ◌≡◌, ◌↔◌, Bytes, IsByte, All, arith, ok, some,
  bit_and,
}
use blackchain_crypto_lib_ru.Base.Bits.{bit_and_sign}
use blackchain_crypto_lib_ru.Crates.{Goldilocks}
use blackchain_crypto_lib_ru.Ed448.Point.Bounds.{
  le_value, y_lt_p_iff, field_prime_le-IsByte, le_value-field_prime_le,
}
use blackchain_crypto_lib_ru.Ed448.Point.{byte_at, field_prime_le, y_lt_p, decode_canonical_point}

-- RFC 8032, 5.2.3: the sign byte has no other bit, y is below the prime, the point is on the
-- curve; and its order does not divide 4.
pub record IsCanonical (g : Goldilocks) (raw : Bytes) (point : g.Point) : Type 0 where
  pub padding_clear : byte_at raw 56 % 128 ≡ 0
  pub y_below_prime : le_value 56 raw < 2 ^ 448 - 2 ^ 224 - 1
  pub on_curve : g.decompress raw ≡ some point
  pub not_small_order : g.point_eq (g.double (g.double point)) g.identity ≡ false

module _ (g : Goldilocks) (raw : Bytes) (bytes : All IsByte raw) where
  y_test : (y_lt_p 56 raw field_prime_le ≡ true) ↔ (le_value 56 raw < 2 ^ 448 - 2 ^ 224 - 1)
  y_test =
      rw (← le_value-field_prime_le) (y_lt_p_iff 56 raw field_prime_le bytes field_prime_le-IsByte)

  padding_test : (bit_and (byte_at raw 56) 0x7f == 0 ≡ true) ↔ (byte_at raw 56 % 128 ≡ 0)
  padding_test = rw (← bit_and_sign (byte_at raw 56)) (==_iff (bit_and (byte_at raw 56) 0x7f) 0)

  decodes : (point : g.Point) → IsCanonical g raw point → decode_canonical_point g raw ≡ ok point
  unfolding decode_canonical_point
  decodes point h =
      rw (padding_test.1 h.padding_clear, y_test.1 h.y_below_prime, h.on_curve, h.not_small_order)

  canonical : (point : g.Point) → decode_canonical_point g raw ≡ ok point → IsCanonical g raw point
  unfolding decode_canonical_point
  canonical point h = record {
    padding_clear = ground (arith, padding_test);
    y_below_prime = ground (arith, y_test);
    on_curve = ground arith;
    not_small_order = ground arith;
  }

  -- Decoding succeeds exactly on the canonical encodings of points that are not of small order.
  pub decode_canonical_point_iff :
      (point : g.Point) → (decode_canonical_point g raw ≡ ok point) ↔ IsCanonical g raw point
  decode_canonical_point_iff point = (canonical point, decodes point)
