-- ===== src/Util/Glob/Spec.antt =====
-- util.c `util_glob_match`: what a pattern matches, and that the matcher decides it.
use miniredis.Common.{
  ℕ, zero, suc, ◌<◌, ◌≤◌, Bytes, Bool, true, false, ◌&&◌, ◌||◌, [], ◌∷◌, ◌≡◌, ◌≢◌, ◌↔◌, refl, ap,
  arith, inl, inr, Bool-cases, ◌==◌, leb, length,
}
use miniredis.Util.Glob.{
  class_loop, class_end, glob_class, drop_stars, any_suffix, same_char, glob_star, glob_member,
  glob_char, glob_rec, util_glob_match,
}

-- A pattern and the byte strings that it matches.
pub data Matches : Bytes → Bytes → Type 0 where
  finish : Matches [] []
  star_none : {ps s : Bytes} → Matches ps s → Matches (b'*' ∷ ps) s
  star_more : {ps s : Bytes} {c : ℕ} → Matches (b'*' ∷ ps) s → Matches (b'*' ∷ ps) (c ∷ s)
  any_char : {ps s : Bytes} {c : ℕ} → Matches ps s → Matches (b'?' ∷ ps) (c ∷ s)
  in_class :
      {ps rest s : Bytes} {c : ℕ}
      → glob_class c ps ≡ (true, rest)
      → Matches rest s
      → Matches (b'[' ∷ ps) (c ∷ s)
  literal :
      {ps s : Bytes} {p c : ℕ}
      → p ≢ b'*'
      → p ≢ b'?'
      → p ≢ b'['
      → same_char p c ≡ true
      → Matches ps s
      → Matches (p ∷ ps) (c ∷ s)

-- Stars in front of a match.
add_stars : (ps s : Bytes) → Matches (drop_stars ps) s → Matches (b'*' ∷ ps) s
unfolding drop_stars
add_stars [] s m = star_none m
add_stars (p ∷ ps) s m = elim (Bool-cases (p == b'*')) [
  | inl star ↦ let e : p ≡ b'*' = ground arith in rw e (star_none (add_stars ps s (rw star at m)))
  | inr other ↦ star_none (rw other at m)
]

all_stars : (ps s : Bytes) → drop_stars ps ≡ [] → Matches (b'*' ∷ ps) s
all_stars ps [] e = add_stars ps [] (rw e finish)
all_stars ps (c ∷ s) e = star_more (all_stars ps s e)

any_suffix_star :
    (test : Bytes → Bool) (ps s : Bytes)
    → ((t : Bytes) → test t ≡ true → Matches (drop_stars ps) t)
    → any_suffix test s ≡ true
    → Matches (b'*' ∷ ps) s
unfolding any_suffix
any_suffix_star test ps [] sound h = add_stars ps [] (sound [] h)
any_suffix_star test ps (c ∷ s) sound h = elim (Bool-cases (test (c ∷ s))) [
  | inl here ↦ add_stars ps (c ∷ s) (sound (c ∷ s) here)
  | inr later ↦ star_more (any_suffix_star test ps s sound (rw later at h))
]

-- What a true answer of a recursive call shows.
abbrev Sound : (Bytes → Bytes → Bool) → Type 0
Sound again = (pat s : Bytes) → again pat s ≡ true → Matches pat s

glob_star-Sound :
    (again : Bytes → Bytes → Bool) (ps s tail : Bytes)
    → Sound again
    → drop_stars ps ≡ tail
    → glob_star again tail s ≡ true
    → Matches (b'*' ∷ ps) s
unfolding glob_star
glob_star-Sound again ps s [] sound e h = all_stars ps s e
glob_star-Sound again ps s (q ∷ qs) sound e h =
    any_suffix_star (again (q ∷ qs)) ps s (λ t g. rw e (sound (q ∷ qs) t g)) h

glob_member-Sound :
    (again : Bytes → Bytes → Bool) (c : ℕ) (ps s : Bytes) (r : Bool × Bytes)
    → Sound again
    → glob_class c ps ≡ r
    → glob_member again r s ≡ true
    → Matches (b'[' ∷ ps) (c ∷ s)
unfolding glob_member
glob_member-Sound again c ps s (false, rest) sound e h = absurd cc
glob_member-Sound again c ps s (true, rest) sound e h = in_class e (sound rest s h)

glob_char-Sound :
    (again : Bytes → Bytes → Bool) (p : ℕ) (ps s : Bytes)
    → Sound again
    → p ≢ b'*'
    → glob_char again p ps s ≡ true
    → Matches (p ∷ ps) s
unfolding glob_char
glob_char-Sound again p ps [] sound plain h = absurd cc
glob_char-Sound again p ps (c ∷ s) sound plain h = elim (Bool-cases (p == b'?')) [
  | inl any' ↦ let e : p ≡ b'?' = ground arith in rw e (any_char (sound ps s (rw any' at h)))
  | inr one ↦ elim (Bool-cases (p == b'[')) [
    | inl class ↦
        let e : p ≡ b'[' = ground arith in
        rw e (glob_member-Sound again c ps s (glob_class c ps) sound refl (rw (one, class) at h))
    | inr char ↦ elim (Bool-cases (same_char p c)) [
      | inl same ↦
          literal plain (ground arith) (ground arith) same (sound ps s (rw (one, char, same) at h))
      | inr differ ↦ absurd (let g : false ≡ true = rw (one, char, differ) at h in cc)
    ]
  ]
]

glob_rec-Sound : (f : ℕ) → Sound (glob_rec f)
unfolding glob_rec
glob_rec-Sound zero pat s h = absurd cc
glob_rec-Sound (suc f) [] [] h = finish
glob_rec-Sound (suc f) [] (c ∷ s) h = absurd cc
glob_rec-Sound (suc f) (p ∷ ps) s h = elim (Bool-cases (p == b'*')) [
  | inl star ↦
      let e : p ≡ b'*' = ground arith in
      rw e
        (glob_star-Sound (glob_rec f) ps s (drop_stars ps) (glob_rec-Sound f) refl (rw star at h))
  | inr plain ↦
      glob_char-Sound (glob_rec f) p ps s (glob_rec-Sound f) (ground arith) (rw plain at h)
]

any_suffix-here : (test : Bytes → Bool) (s : Bytes) → test s ≡ true → any_suffix test s ≡ true
unfolding any_suffix
any_suffix-here test [] h = h
any_suffix-here test (c ∷ s) h = rw h refl

any_suffix-later :
    (test : Bytes → Bool) (c : ℕ) (s : Bytes)
    → any_suffix test s ≡ true
    → any_suffix test (c ∷ s) ≡ true
unfolding any_suffix
any_suffix-later test c s h = elim (Bool-cases (test (c ∷ s))) [
  | inl here ↦ rw here refl
  | inr later ↦ rw later h
]

drop_stars-plain : (p : ℕ) (ps : Bytes) → p ≢ b'*' → drop_stars (p ∷ ps) ≡ p ∷ ps
unfolding drop_stars
drop_stars-plain p ps plain = ground arith

-- What follows the stars of a matching pattern matches a suffix.
any_suffix-Matches :
    (test : Bytes → Bool) (ps s : Bytes)
    → ((t : Bytes) → Matches (drop_stars ps) t → test t ≡ true)
    → Matches ps s
    → any_suffix test s ≡ true
unfolding drop_stars
any_suffix-Matches test _ _ h finish = any_suffix-here test [] (h [] finish)
any_suffix-Matches test _ s h (star_none {ps = ps} m) = any_suffix-Matches test ps s h m
any_suffix-Matches test (_ ∷ ps) _ h (star_more {s = s} {c = c} m) =
    any_suffix-later test c s (any_suffix-Matches test (b'*' ∷ ps) s h m)
any_suffix-Matches test _ (c ∷ s) h (any_char m) =
    any_suffix-here test (c ∷ s) (h (c ∷ s) (any_char m))
any_suffix-Matches test _ (c ∷ s) h (in_class e m) =
    any_suffix-here test (c ∷ s) (h (c ∷ s) (in_class e m))
any_suffix-Matches test (p ∷ ps) (c ∷ s) h (literal x y z e m) =
    any_suffix-here test (c ∷ s) (h (c ∷ s) (rw (drop_stars-plain p ps x) (literal x y z e m)))

length-drop_stars : (ps : Bytes) → length (drop_stars ps) ≤ length ps
unfolding drop_stars
length-drop_stars [] = omega arith
length-drop_stars (p ∷ ps) = ground (arith, length-drop_stars ps)

length-class_loop :
    (c : ℕ) (first matched : Bool) (q : Bytes) → length (class_loop c first matched q).1 ≤ length q
unfolding class_loop
length-class_loop c first matched [] = omega arith
length-class_loop c first matched (lo ∷ []) = ground arith
length-class_loop c first matched (lo ∷ d ∷ []) =
    ground (arith, length-class_loop c false (matched || (c == lo)) (d ∷ []))
length-class_loop c first matched (lo ∷ d ∷ hi ∷ q) = ground (
  arith,
  length-class_loop c false (matched || (leb lo c && leb c hi)) q,
  length-class_loop c false (matched || (c == lo)) (d ∷ hi ∷ q),
)

length-class_end : (negate : Bool) (r : Bool × Bytes) → length (class_end negate r).1 ≤ length r.1
unfolding class_end
length-class_end negate (matched, []) = omega arith
length-class_end negate (matched, close ∷ q) = omega arith

length-glob_class : (c : ℕ) (ps : Bytes) → length (glob_class c ps).1 ≤ length ps
unfolding glob_class
length-glob_class c [] =
    omega (
      arith,
      length-class_end false (class_loop c true false []),
      length-class_loop c true false [],
    )
length-glob_class c (n ∷ q) = elim (Bool-cases ((n == b'!') || (n == b'^'))) [
  | inl negated ↦ rw negated (
      omega (
        arith,
        length-class_end true (class_loop c true false q),
        length-class_loop c true false q,
      ))
  | inr plain ↦ rw plain (
      omega (
        arith,
        length-class_end false (class_loop c true false (n ∷ q)),
        length-class_loop c true false (n ∷ q),
      ))
]

glob_star-Complete :
    (again : Bytes → Bytes → Bool) (ps s tail : Bytes)
    → drop_stars ps ≡ tail
    → ((t : Bytes) → Matches tail t → again tail t ≡ true)
    → Matches ps s
    → glob_star again tail s ≡ true
unfolding glob_star
glob_star-Complete again ps s [] e h m = refl
glob_star-Complete again ps s (q ∷ qs) e h m =
    any_suffix-Matches (again (q ∷ qs)) ps s (λ t n. h t (rw e at n)) m

-- One more than the length of the pattern is enough fuel.
glob_rec-Complete :
    (f : ℕ) (pat s : Bytes) → length pat < f → Matches pat s → glob_rec f pat s ≡ true
unfolding glob_rec glob_char glob_member drop_stars
glob_rec-Complete zero pat s h m = absurd (omega arith)
glob_rec-Complete (suc f) _ _ h finish = refl
glob_rec-Complete (suc f) _ s h (star_none {ps = ps} m) =
    glob_star-Complete (glob_rec f) ps s (drop_stars ps) refl
      (λ t n. glob_rec-Complete f (drop_stars ps) t (omega (arith, length-drop_stars ps)) n) m
glob_rec-Complete (suc f) (_ ∷ ps) (c ∷ s) h (star_more m) =
    glob_star-Complete (glob_rec f) (b'*' ∷ ps) (c ∷ s) (drop_stars ps) refl
      (λ t n. glob_rec-Complete f (drop_stars ps) t (omega (arith, length-drop_stars ps)) n)
      (star_more m)
glob_rec-Complete (suc f) (_ ∷ ps) (c ∷ s) h (any_char m) = glob_rec-Complete f ps s (omega arith) m
glob_rec-Complete (suc f) (_ ∷ ps) (c ∷ s) h (in_class {rest = rest} e m) =
    rw e
      (glob_rec-Complete f rest s (omega (arith, length-glob_class c ps, ap (λ r. length r.1) e)) m)
glob_rec-Complete (suc f) (p ∷ ps) (c ∷ s) h (literal x y z e m) =
    let ih = glob_rec-Complete f ps s (omega arith) m in ground arith

-- The glob matcher answers true for a pattern and a byte string exactly if the pattern matches it
-- by the rules of `Matches`: a star stands for any bytes, a question mark for one, a class for one
-- that `glob_class` accepts, and any other byte for itself as `same_char` compares it.
pub util_glob_match-Matches : (pat s : Bytes) → (util_glob_match pat s ≡ true) ↔ Matches pat s
unfolding util_glob_match
util_glob_match-Matches pat s = (
  glob_rec-Sound (suc (length pat)) pat s,
  glob_rec-Complete (suc (length pat)) pat s (omega arith),
)
