-- ===== src/Db/Strings/Counter/Bounds.antt =====
-- db.c `incr_decr`: when a counter moves, what it refuses, and the bounds of the sum.
use miniredis.Common.{
  false, ◌&&◌, ◌||◌, none, some, ℤ, pos, negsuc, ◌≡◌, refl, arith, ltb_ℤ, ◌+ℤ◌, wrap_ll,
  wrap_ll-of_fits, FitsLl,
}
use miniredis.Db.Strings.Counter.{checked_add}

sum_fits :
    (v delta : ℤ)
    → ((ltb_ℤ (pos 0) delta && ltb_ℤ (v +ℤ delta) v)
        || (ltb_ℤ delta (pos 0) && ltb_ℤ v (v +ℤ delta)))
      ≡ false
unfolding ◌+ℤ◌
sum_fits (pos a) (pos b) = ground arith
sum_fits (pos a) (negsuc b) = ground arith
sum_fits (negsuc a) (pos b) = ground arith
sum_fits (negsuc a) (negsuc b) = ground arith

overflows :
    (v delta : ℤ) → FitsLl v → FitsLl delta → ¬ FitsLl (v +ℤ delta) → checked_add v delta ≡ none
unfolding checked_add ◌+ℤ◌ wrap_ll
overflows (pos a) (pos b) f g big = ground arith
overflows (pos a) (negsuc b) f g big = ground arith
overflows (negsuc a) (pos b) f g big = ground arith
overflows (negsuc a) (negsuc b) f g big = ground arith

-- The overflow test after a wrapping addition of two `long long` values refuses exactly the sums
-- that are no `long long`, and yields the others.
pub checked_add_lem :
    (v delta : ℤ)
    → FitsLl v
    → FitsLl delta
    → (FitsLl (v +ℤ delta) → checked_add v delta ≡ some (v +ℤ delta))
      × (¬ FitsLl (v +ℤ delta) → checked_add v delta ≡ none)
unfolding checked_add
checked_add_lem v delta f g = (
  λ fits. rw (wrap_ll-of_fits (v +ℤ delta) fits, sum_fits v delta) refl,
  λ big. overflows v delta f g big,
)
