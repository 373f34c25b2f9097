-- ===== src/Util/Glob.antt =====
-- util.c `util_glob_match`: the pattern is a C string, the subject a run of bytes.
pub mod Spec
use miniredis.Common.{
  ℕ, zero, suc, Bytes, Bool, true, false, not, ◌&&◌, ◌||◌, [], ◌∷◌, ltb, leb, ◌==◌, if◌then◌else◌,
  length,
}

xor : Bool → Bool → Bool
xor true b = not b
xor false b = b

-- The loop of `glob_class` for the byte `c`: whether a member was met, and what is left of the
-- pattern, from the closing bracket on.
unfoldable pub class_loop : ℕ → Bool → Bool → Bytes → Bool × Bytes
class_loop c first matched [] = (matched, [])
class_loop c first matched (lo ∷ []) =
    if not first && (lo == b']') then (matched, lo ∷ []) else (matched || (c == lo), [])
class_loop c first matched (lo ∷ d ∷ []) =
    let next = class_loop c false (matched || (c == lo)) (d ∷ []) in
    if not first && (lo == b']') then (matched, lo ∷ d ∷ []) else next
class_loop c first matched (lo ∷ d ∷ hi ∷ q) =
    let range = class_loop c false (matched || (leb lo c && leb c hi)) q in
    let single = class_loop c false (matched || (c == lo)) (d ∷ hi ∷ q) in
    if not first && (lo == b']')
    then (matched, lo ∷ d ∷ hi ∷ q)
    else if (d == b'-') && not (hi == b']')
    then range
    else single

class_end : Bool → Bool × Bytes → Bool × Bytes
class_end negate (matched, []) = (false, [])
class_end negate (matched, close ∷ q) = (xor matched negate, q)

-- `glob_class` behind the opening bracket: the verdict for `c`, and the pattern behind the class.
unfoldable pub glob_class : ℕ → Bytes → Bool × Bytes
unfolding class_end xor
glob_class c [] = class_end false (class_loop c true false [])
glob_class c (n ∷ q) =
    if (n == b'!') || (n == b'^')
    then class_end true (class_loop c true false q)
    else class_end false (class_loop c true false (n ∷ q))

unfoldable pub drop_stars : Bytes → Bytes
drop_stars [] = []
drop_stars (p ∷ ps) = if p == b'*' then drop_stars ps else p ∷ ps

-- The test at one of the positions from `s` to the end.
unfoldable pub any_suffix : (Bytes → Bool) → Bytes → Bool
any_suffix test [] = test []
any_suffix test (c ∷ s) = test (c ∷ s) || any_suffix test s

-- `*p == (unsigned char)*s`: where `char` is signed, a pattern byte from 128 on reads as a negative
-- number, and equals no byte.
unfoldable pub same_char : ℕ → ℕ → Bool
same_char p c = ltb p 128 && (p == c)

-- The parts of `glob_rec` behind its tests; `again` is its recursive call.
glob_star : (Bytes → Bytes → Bool) → Bytes → Bytes → Bool
glob_star again [] s = true
glob_star again (q ∷ qs) s = any_suffix (again (q ∷ qs)) s

glob_member : (Bytes → Bytes → Bool) → Bool × Bytes → Bytes → Bool
glob_member again (false, rest) s = false
glob_member again (true, rest) s = again rest s

glob_char : (Bytes → Bytes → Bool) → ℕ → Bytes → Bytes → Bool
glob_char again p ps [] = false
glob_char again p ps (c ∷ s) =
    if p == b'?'
    then again ps s
    else if p == b'['
    then glob_member again (glob_class c ps) s
    else if same_char p c
    then again ps s
    else false

-- The fuel is above the length of the pattern, which every call shortens.
unfoldable pub glob_rec : ℕ → Bytes → Bytes → Bool
unfolding glob_star glob_member glob_char
glob_rec zero p s = false
glob_rec (suc f) [] [] = true
glob_rec (suc f) [] (c ∷ s) = false
glob_rec (suc f) (p ∷ ps) s =
    if p == b'*' then glob_star (glob_rec f) (drop_stars ps) s else glob_char (glob_rec f) p ps s

unfoldable pub util_glob_match : Bytes → Bytes → Bool
util_glob_match pat s = glob_rec (suc (length pat)) pat s
