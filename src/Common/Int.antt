-- ===== src/Common/Int.antt =====
-- Signed integers over the native numbers: C's `long long` values before any wrap-around.
use Prim.Native.Nat.{ℕ, suc, ◌+◌, ◌-◌, ◌≤◌, ◌%◌, ◌^◌}
use mathlib.Core.Bool.{Bool}
use mathlib.Core.Path.{◌≡◌}
use native.Mathlib.Omega.{arith}
use miniredis.Common.Tests.{ltb, leb, if◌then◌else◌}

-- `negsuc n` is -(n + 1).
pub data ℤ : Type 0 where
  pos : ℕ → ℤ
  negsuc : ℕ → ℤ

abbrev pub pos_part : ℤ → ℕ
pos_part (pos n) = n
pos_part (negsuc n) = 0

abbrev pub neg_part : ℤ → ℕ
neg_part (pos n) = 0
neg_part (negsuc n) = suc n

-- a - b, as an integer.
abbrev pub sub_ℕ : ℕ → ℕ → ℤ
sub_ℕ a b = if leb b a then pos (a - b) else negsuc (b - a - 1)

abbrev pub neg_ℕ : ℕ → ℤ
neg_ℕ n = sub_ℕ 0 n

infixl 65 ◌+ℤ◌ ◌-ℤ◌
unfoldable pub ◌+ℤ◌ : ℤ → ℤ → ℤ
a +ℤ b = sub_ℕ (pos_part a + pos_part b) (neg_part a + neg_part b)

unfoldable pub ◌-ℤ◌ : ℤ → ℤ → ℤ
a -ℤ b = sub_ℕ (pos_part a + neg_part b) (neg_part a + pos_part b)

abbrev pub ltb_ℤ : ℤ → ℤ → Bool
ltb_ℤ a b = ltb (pos_part a + neg_part b) (pos_part b + neg_part a)

abbrev pub leb_ℤ : ℤ → ℤ → Bool
leb_ℤ a b = leb (pos_part a + neg_part b) (pos_part b + neg_part a)

infix 50 ◌≤ℤ◌
abbrev pub ◌≤ℤ◌ : ℤ → ℤ → Type 0
a ≤ℤ b = pos_part a + neg_part b ≤ pos_part b + neg_part a

-- 2 ^ 63 - 1, and the two ends of `long long`.
abbrev pub ll_max : ℕ
ll_max = 9223372036854775807

abbrev pub FitsLl : ℤ → Type 0
FitsLl a = (pos_part a ≤ ll_max) × (neg_part a ≤ ll_max + 1)

-- A 64-bit sum wraps around: the value of the two's complement pattern.
unfoldable pub wrap_ll : ℤ → ℤ
wrap_ll (pos n) = let w = n % 2 ^ 64 in if ltb ll_max w then negsuc (2 ^ 64 - 1 - w) else pos w
wrap_ll (negsuc n) = let w = n % 2 ^ 64 in if ltb ll_max w then pos (2 ^ 64 - 1 - w) else negsuc w

pub wrap_ll-of_fits : (a : ℤ) → FitsLl a → wrap_ll a ≡ a
unfolding wrap_ll
wrap_ll-of_fits (pos n) h = ground arith
wrap_ll-of_fits (negsuc n) h = ground arith

pub wrap_ll-FitsLl : (a : ℤ) → FitsLl (wrap_ll a)
unfolding wrap_ll
wrap_ll-FitsLl (pos n) = ground arith
wrap_ll-FitsLl (negsuc n) = ground arith
