-- ===== src/Double.antt =====
-- The `double` values of the sorted sets and of HINCRBYFLOAT, as their 64 bits. The comparisons are
-- written out; the sum, `strtod` and the "%.17g" of printf belong to the C library.
use miniredis.Common.{
  ℕ, ◌%◌, ◌^◌, Bytes, Bool, not, ◌&&◌, ◌==◌, ltb, if◌then◌else◌, ℤ, pos, neg_ℕ, ltb_ℤ, leb_ℤ,
}

abbrev pub Double : Type 0
Double = ℕ

-- Infinity without its sign; what is above it is no number.
abbrev pub inf_bits : ℕ
inf_bits = 0x7ff0_0000_0000_0000

unfoldable pub magnitude : Double → ℕ
magnitude d = d % 2 ^ 63

unfoldable pub is_nan : Double → Bool
unfolding magnitude
is_nan d = ltb inf_bits (magnitude d)

unfoldable pub is_inf : Double → Bool
unfolding magnitude
is_inf d = magnitude d == inf_bits

-- The bits as a signed number, which has the order of the values; both zeros are 0.
unfoldable pub signed_bits : Double → ℤ
unfolding magnitude
signed_bits d = if ltb d (2 ^ 63) then pos (magnitude d) else neg_ℕ (magnitude d)

-- `a < b` and `a == b`, which are false where a side is no number.
unfoldable pub lt_d : Double → Double → Bool
lt_d a b = not (is_nan a) && not (is_nan b) && ltb_ℤ (signed_bits a) (signed_bits b)

unfoldable pub eq_d : Double → Double → Bool
eq_d a b =
    not (is_nan a)
    && not (is_nan b)
    && leb_ℤ (signed_bits a) (signed_bits b)
    && leb_ℤ (signed_bits b) (signed_bits a)

-- What the program calls: `a + b`; `strtod`, with the number of bytes that it read and whether
-- `errno` is ERANGE after it; and "%.17g".
pub record Libm : Type 0 where
  pub add : Double → Double → Double
  pub strtod : Bytes → Double × ℕ × Bool
  pub print_17g : Double → Bytes
