-- ===== src/Util/Number.antt =====
-- util.c `string_to_ll_n` and `string_to_ll`, and the `%lld` and `%zu` conversions of printf.
pub mod Print
use miniredis.Common.{
  ℕ, zero, suc, ◌+◌, ◌-◌, ◌*◌, ◌/◌, ◌%◌, ◌<◌, Bytes, Bool, ◌||◌, Option, none, some, List, [], ◌∷◌,
  ◌++◌, ℤ, pos, negsuc, neg_ℕ, ll_max, ltb, ◌==◌, if◌then◌else◌, c_str,
}

-- The loop over the digits; `v` stays at most LLONG_MAX.
unfoldable pub parse_digits : ℕ → Bytes → Option ℕ
parse_digits v [] = some v
parse_digits v (c ∷ s) =
    let rest = parse_digits (v * 10 + (c - b'0')) s in
    if ltb c b'0' || ltb b'9' c
    then none
    else if ltb ((ll_max - (c - b'0')) / 10) v
    then none
    else rest

negate : Option ℕ → Option ℤ
negate none = none
negate (some v) = some (neg_ℕ v)

keep : Option ℕ → Option ℤ
keep none = none
keep (some v) = some (pos v)

-- A sign must be followed by a digit.
signed : (Option ℕ → Option ℤ) → Bytes → Option ℤ
signed sign [] = none
signed sign (c ∷ s) = sign (parse_digits 0 (c ∷ s))

unfoldable pub string_to_ll_n : Bytes → Option ℤ
unfolding negate keep signed
string_to_ll_n [] = none
string_to_ll_n (c ∷ s) =
    if c == b'-'
    then signed negate s
    else if c == b'+'
    then signed keep s
    else keep (parse_digits 0 (c ∷ s))

unfoldable pub string_to_ll : Bytes → Option ℤ
string_to_ll s = string_to_ll_n (c_str s)

-- The decimal digits of `n`; a number below the fuel is printed whole.
unfoldable pub digits_of : ℕ → ℕ → Bytes
digits_of zero n = []
digits_of (suc f) n =
    let front = digits_of f (n / 10) in
    if ltb n 10 then (b'0' + n) ∷ [] else front ++ (b'0' + n % 10) ∷ []

-- "%zu"
unfoldable pub format_zu : ℕ → Bytes
format_zu n = digits_of (suc n) n

-- "%lld"
unfoldable pub format_ll : ℤ → Bytes
format_ll (pos n) = format_zu n
format_ll (negsuc n) = b'-' ∷ format_zu (suc n)
