-- ===== src/Util/Number/Print.antt =====
-- Parsing what was printed, and the range of what is parsed.
use miniredis.Common.{
  ℕ, zero, suc, ◌+◌, ◌-◌, ◌*◌, ◌/◌, ◌%◌, ◌≤◌, ◌<◌, ◌≡◌, refl, sym, ap, ◌∙◌, arith, Bytes, none,
  some, [], ◌∷◌, ◌++◌, append_assoc, append-nil, ℤ, pos, negsuc, pos_part, neg_part, FitsLl, ll_max,
  ltb, NoNul, c_str_lem, Bool-cases, inl, inr, Option-cases,
}
use miniredis.Util.Number.{
  parse_digits, string_to_ll_n, string_to_ll, digits_of, format_zu, format_ll, keep, negate,
}

-- One more digit.
parse_digits_step :
    (n : ℕ) (rest : Bytes)
    → n ≤ ll_max
    → parse_digits (n / 10) ((b'0' + n % 10) ∷ rest) ≡ parse_digits n rest
unfolding parse_digits
parse_digits_step n rest fits =
    let whole : n / 10 * 10 + (b'0' + n % 10 - b'0') ≡ n = omega arith in rw whole (ground arith)

parse_digits-digits_of :
    (f n : ℕ) (rest : Bytes)
    → n < f
    → n ≤ ll_max
    → parse_digits 0 (digits_of f n ++ rest) ≡ parse_digits n rest
unfolding digits_of
parse_digits-digits_of zero n rest lt fits = absurd (omega arith)
parse_digits-digits_of (suc f) n rest lt fits = elim (Bool-cases (ltb n 10)) [
  | inl small ↦
      let e : n / 10 ≡ 0 = ground arith in
      let d : n % 10 ≡ n = ground arith in
      let step = parse_digits_step n rest fits in rw small (rw (e, d) at step)
  | inr large ↦
      rw (large, append_assoc)
        (parse_digits-digits_of f (n / 10) ((b'0' + n % 10) ∷ rest) (ground arith) (omega arith)
          ∙ parse_digits_step n rest fits)
]

-- Every number that is parsed is a `long long`.
parse_digits-le : (v n : ℕ) (s : Bytes) → v ≤ ll_max → parse_digits v s ≡ some n → n ≤ ll_max
unfolding parse_digits
parse_digits-le v n [] h e = ground arith
parse_digits-le v n (c ∷ s) h e = ground (arith, parse_digits-le (v * 10 + (c - b'0')) n s)

-- A printed number begins with a digit.
digits_of_head : (f n : ℕ) → n < f → (c : ℕ) × (s : Bytes) × (digits_of f n ≡ c ∷ s) × (b'0' ≤ c)
unfolding digits_of
digits_of_head zero n h = absurd (omega arith)
digits_of_head (suc f) n h = elim (Bool-cases (ltb n 10)) [
  | inl small ↦ (b'0' + n, [], rw small, omega arith)
  | inr large ↦
      let (c, s, e, d) = digits_of_head f (n / 10) (ground arith) in
      (c, s ++ (b'0' + n % 10) ∷ [], rw (large, e), d)
]

parse-print : (n : ℕ) → n ≤ ll_max → parse_digits 0 (format_zu n) ≡ some n
unfolding format_zu
parse-print n fits =
    ap (parse_digits 0) (sym (append-nil (digits_of (suc n) n)))
    ∙ parse_digits-digits_of (suc n) n [] (omega arith) fits
    ∙ unfold parse_digits in refl

pub string_to_ll_n-format_zu : (n : ℕ) → n ≤ ll_max → string_to_ll_n (format_zu n) ≡ some (pos n)
string_to_ll_n-format_zu n fits =
    let (c, s, e, d) = digits_of_head (suc n) n (omega arith) in
    let p : format_zu n ≡ c ∷ s = unfold format_zu in e in
    let q : parse_digits 0 (c ∷ s) ≡ some n = rw p at (parse-print n fits) in
    rw p (unfold string_to_ll_n in ground (arith))

-- A `long long` that is printed and parsed again comes back, except LLONG_MIN, which is rejected.
pub string_to_ll_n-format_ll :
    (v : ℤ)
    → FitsLl v
    → (neg_part v ≤ ll_max → string_to_ll_n (format_ll v) ≡ some v)
      × (ll_max < neg_part v → string_to_ll_n (format_ll v) ≡ none)
unfolding format_ll
string_to_ll_n-format_ll (pos n) fits =
    (λ _. string_to_ll_n-format_zu n fits.0, λ big. absurd (omega arith))
string_to_ll_n-format_ll (negsuc n) fits =
    let (c, s, e, d) = digits_of_head (suc (suc n)) (suc n) (omega arith) in
    let p : format_zu (suc n) ≡ c ∷ s = unfold format_zu in e in
    (
      λ small.
          let q : parse_digits 0 (c ∷ s) ≡ some (suc n) = rw p at (parse-print (suc n) small) in
          rw p (unfold string_to_ll_n in ground arith),
      λ big.
          let m : n ≡ ll_max = omega arith in
          rw m (unfold string_to_ll_n format_zu digits_of parse_digits in refl),
    )

keep_range :
    (s : Bytes) (v : ℤ)
    → keep (parse_digits 0 s) ≡ some v
    → (pos_part v ≤ ll_max) × (neg_part v ≤ ll_max)
unfolding keep
keep_range s v h = elim (Option-cases (parse_digits 0 s)) [
  | inl e ↦ cc
  | inr (n, e) ↦ ground (arith, parse_digits-le 0 n s (omega arith) e)
]

negate_range :
    (s : Bytes) (v : ℤ)
    → negate (parse_digits 0 s) ≡ some v
    → (pos_part v ≤ ll_max) × (neg_part v ≤ ll_max)
unfolding negate
negate_range s v h = elim (Option-cases (parse_digits 0 s)) [
  | inl e ↦ cc
  | inr (n, e) ↦ ground (arith, parse_digits-le 0 n s (omega arith) e)
]

-- A number that the parser accepts is between -LLONG_MAX and LLONG_MAX.
pub string_to_ll_n_range :
    (s : Bytes) (v : ℤ) → string_to_ll_n s ≡ some v → (pos_part v ≤ ll_max) × (neg_part v ≤ ll_max)
unfolding string_to_ll_n
string_to_ll_n_range [] v h = cc
string_to_ll_n_range (c ∷ []) v h = ground (arith, keep_range (c ∷ []) v)
string_to_ll_n_range (c ∷ d ∷ s) v h =
    ground (arith, keep_range (c ∷ d ∷ s) v, keep_range (d ∷ s) v, negate_range (d ∷ s) v)

pub format_zu_head : (n : ℕ) → (c : ℕ) × (s : Bytes) × (format_zu n ≡ c ∷ s) × (b'0' ≤ c)
unfolding format_zu
format_zu_head n = digits_of_head (suc n) n (omega arith)

NoNul-append : (a b : Bytes) → NoNul a → NoNul b → NoNul (a ++ b)
NoNul-append [] b h g = g
NoNul-append (x ∷ a) b h g = (h.0, NoNul-append a b h.1 g)

digits_of-NoNul : (f n : ℕ) → NoNul (digits_of f n)
unfolding digits_of
digits_of-NoNul zero n = tt
digits_of-NoNul (suc f) n = elim (Bool-cases (ltb n 10)) [
  | inl small ↦ rw small (omega arith, tt)
  | inr large ↦
      rw large
        (NoNul-append (digits_of f (n / 10)) _ (digits_of-NoNul f (n / 10)) (omega arith, tt))
]

-- A printed number is a C string.
pub string_to_ll-format_zu : (n : ℕ) → n ≤ ll_max → string_to_ll (format_zu n) ≡ some (pos n)
unfolding string_to_ll
string_to_ll-format_zu n fits =
    let plain : NoNul (format_zu n) = unfold format_zu in digits_of-NoNul (suc n) n in
    rw (c_str_lem (format_zu n) plain) (string_to_ll_n-format_zu n fits)
