-- ===== src/Skiplist/Delete.antt =====
-- zskiplist.c: deleting a node keeps the list sorted and every level a part of it.
pub mod Whole
use miniredis.Common.{
  ℕ, zero, suc, ◌+◌, ◌-◌, ◌≤◌, ◌<◌, ◌^◌, ◌%◌, Bytes, Bool, true, false, Option, none, some, List,
  [], ◌∷◌, ◌++◌, ◌≡◌, refl, sym, ap, ◌∙◌, arith, ltb→lt, if◌then◌else◌, ◌==◌, ltb, Bool-cases,
  Option-cases, inl, inr, length, ◌⊎◌,
}
use miniredis.Resp.RoundTrip.{All}
use miniredis.Skiplist.{Address, Skiplist, header, lower, level_at, put_node, node_at}
use miniredis.Skiplist.Links.{forward, height}
use miniredis.Skiplist.Splice.{Unlinked, Passed, at_level}
use miniredis.Skiplist.Chain.{
  Linked, tall, last_of, Distinct, Apart, All-left, All-right, All-append, All-map, All-tall,
  tall-append, tall-same, Distinct-tall, Linked-frame, Linked-delete, Linked-absent, ==-flip,
}
use miniredis.Skiplist.Search.{Linked-to}
use miniredis.Skiplist.Insert.{Distinct-to, Apart-to}
use miniredis.Skiplist.Order.{Key, prec, prec_irrefl, prec_trans, Sorted, Number}

pub Distinct-delete :
    (x : Address) (front back : List Address)
    → Distinct (front ++ x ∷ back)
    → Distinct (front ++ back) × Apart x (front ++ back)
Distinct-delete x [] back d = (d.1, d.0)
Distinct-delete x (a ∷ front) back d =
    let (rest, apart) = Distinct-delete x front back d.1 in
    let right = All-right (λ b. (b == a) ≡ false) front (x ∷ back) d.0 in
    (
      (
        All-append (λ b. (b == a) ≡ false) front back
            (All-left (λ b. (b == a) ≡ false) front (x ∷ back) d.0) right.1,
        rest,
      ),
      (==-flip x a right.0, apart),
    )

pub All-delete :
    (P : Address → Type 0) (x : Address) (front back : List Address)
    → All P (front ++ x ∷ back)
    → All P (front ++ back) × P x
All-delete P x front back h =
    let right = All-right P front (x ∷ back) h in
    (All-append P front back (All-left P front (x ∷ back) h) right.1, right.0)

none_after :
    (f : Address → Key) (x : Address) (back : List Address)
    → Number (f x)
    → All (λ a. Number (f a)) back
    → All (λ b. prec (f x) (f b) ≡ true) back
    → All (λ b. prec (f b) (f x) ≡ false) back
none_after f x [] nx ns h = tt
none_after f x (b ∷ back) nx ns h = (
  elim (Bool-cases (prec (f b) (f x))) [
    | inr not' ↦ not'
    | inl less ↦
        let both = prec_trans (f x) (f b) (f x) nx ns.0 nx h.0 less in
        let never = prec_irrefl (f x) nx in absurd cc
  ],
  none_after f x back nx ns.1 h.1,
)

-- Where a sorted list is parted by one of its nodes.
pub Sorted-parts :
    (f : Address → Key) (x : Address) (front back : List Address)
    → All (λ a. Number (f a)) (front ++ x ∷ back)
    → Sorted f (front ++ x ∷ back)
    → All (λ a. prec (f a) (f x) ≡ true) front × All (λ b. prec (f b) (f x) ≡ false) (x ∷ back)
Sorted-parts f x [] back ns s = (tt, (prec_irrefl (f x) ns.0, none_after f x back ns.0 ns.1 s.0))
Sorted-parts f x (a ∷ front) back ns s =
    let (first, second) = Sorted-parts f x front back ns.1 s.1 in
    ((((All-right (λ b. prec (f a) (f b) ≡ true) front (x ∷ back) s.0).0, first)), second)

pub Linked-at :
    (z : Skiplist) (i : ℕ) (a : Address) (ps qs : List Address) (q : Address)
    → Linked z i a (ps ++ q ∷ qs)
    → forward z (last_of a ps) i ≡ some q
unfolding last_of
Linked-at z i a [] qs q l = l.0
Linked-at z i a (p ∷ ps) qs q l = Linked-at z i p ps qs q l.1

-- A level that a node has is not empty.
All-low :
    (h : Address → ℕ) (i : ℕ) (as' : List Address) → tall h i as' ≡ [] → All (λ a. h a ≤ i) as'
unfolding tall
All-low h i [] e = tt
All-low h i (a ∷ as') e = elim (Bool-cases (ltb i (h a))) [
  | inl high ↦ let e' = rw high at e in absurd cc
  | inr low ↦ (ground (arith, low), All-low h i as' (rw low at e))
]

empty_of :
    (z : Skiplist) (i : ℕ) (t : List Address)
    → Linked z i header t
    → forward z header i ≡ none
    → t ≡ []
empty_of z i [] l e = refl
empty_of z i (b ∷ bs) l e = let there = l.0 in absurd cc

pub Linked-none :
    (z : Skiplist) (h : Address → ℕ) (i : ℕ) (as' : List Address)
    → Linked z i header (tall h i as')
    → forward z header i ≡ none
    → All (λ a. h a ≤ i) as'
Linked-none z h i as' l e = All-low h i as' (empty_of z i (tall h i as') l e)

lower-ends :
    (n : ℕ) (z : Skiplist)
    → forward z header (suc n) ≡ none
    → lower (suc (suc n)) z ≡ lower (suc n) z
unfolding lower forward
lower-ends n z e = let e' : (level_at z header (suc n)).forward ≡ none = e in rw (lower, e') refl

lower-there :
    (n : ℕ) (z : Skiplist) (y : Address)
    → forward z header (suc n) ≡ some y
    → lower (suc (suc n)) z ≡ suc (suc n)
unfolding lower forward
lower-there n z y e =
    let e' : (level_at z header (suc n)).forward ≡ some y = e in rw (lower, e') refl

pub lower-range : (n : ℕ) (z : Skiplist) → 1 ≤ n → (1 ≤ lower n z) × (lower n z ≤ n)
unfolding lower
lower-range zero z h = absurd (omega (arith, h))
lower-range (suc zero) z h = (omega arith, omega arith)
lower-range (suc (suc n)) z h =
    let r = lower-range (suc n) z (omega arith) in
    elim (Option-cases (forward z header (suc n))) [
      | inl ends ↦ let e = lower-ends n z ends in (omega (arith, e, r.0), omega (arith, e, r.1))
      | inr (y, there) ↦ let e = lower-there n z y there in (omega (arith, e), omega (arith, e))
    ]

-- The level is kept, or there is nothing above the one that is left.
pub lower-none : (n : ℕ) (z : Skiplist) → (lower n z ≡ n) ⊎ (forward z header (lower n z) ≡ none)
lower-none zero z = inl (unfold lower in refl)
lower-none (suc zero) z = inl (unfold lower in refl)
lower-none (suc (suc n)) z = elim (Option-cases (forward z header (suc n))) [
  | inr (y, there) ↦ inl (lower-there n z y there)
  | inl ends ↦
      let e = lower-ends n z ends in
      elim (lower-none (suc n) z) [
        | inl same ↦ inr (ap (forward z header) (e ∙ same) ∙ ends)
        | inr over ↦ inr (ap (forward z header) e ∙ over)
      ]
]

pub Linked-deleted :
    (z z₁ : Skiplist) (x : Address) (update : List (ℕ × Address)) (i : ℕ)
    (front back : List Address)
    → Distinct (header ∷ front ++ x ∷ back)
    → Unlinked x update 0 z z₁
    → ((k : ℕ) → k < length update → at_level update k ≡ last_of header (tall (height z) k front))
    → height z x ≤ length update
    → Linked z i header (tall (height z) i (front ++ x ∷ back))
    → Linked z₁ i header (tall (height z) i (front ++ back))
Linked-deleted z z₁ x update i front back d u places low l =
    let h = height z in
    let tf = tall h i front in
    let tb = tall h i back in
    let both : tall h i (front ++ back) ≡ tf ++ tb = tall-append h i front back in
    let d' = Distinct-delete x (header ∷ front) back d in
    let past_header =
      Apart-to header _ (tf ++ tb) both
        (All-tall (λ b. (b == header) ≡ false) h i (front ++ back) d'.0.0) in
    let distinct = Distinct-to _ (tf ++ tb) both (Distinct-tall h i (front ++ back) d'.0.1) in
    let apart =
      Apart-to x _ (tf ++ tb) both (All-tall (λ b. (b == x) ≡ false) h i (front ++ back) d'.1.1) in
    let around : tall h i (front ++ x ∷ back) ≡ tf ++ tall h i (x ∷ back) =
      tall-append h i front (x ∷ back) in
    let l' = Linked-to z i header _ (tf ++ tall h i (x ∷ back)) around l in
    let there =
      Distinct-to _ (tf ++ tall h i (x ∷ back)) around
        (Distinct-tall h i (front ++ x ∷ back) d.1) in
    let front_positive =
      Apart-to header _ (tf ++ tall h i (x ∷ back)) around
        (All-tall (λ b. (b == header) ≡ false) h i (front ++ x ∷ back) d.0) in
    Linked-to z₁ i header (tf ++ tb) _ (sym both) (elim (Bool-cases (ltb i (length update))) [
      | inl below ↦
          let lt = ltb→lt i (length update) below in
          let passed : Passed x (last_of header tf) i z z₁ =
            rw (← places i lt) (u.within i i lt (omega arith)) in
          elim (Bool-cases (ltb i (h x))) [
            | inl high ↦
                let e : tall h i (x ∷ back) ≡ x ∷ tb = unfold tall in rw high refl in
                let e' = ap (λ t. tf ++ t) e in
                Linked-delete z z₁ i x header tf tb passed
                  (
                    Apart-to header _ (tf ++ x ∷ tb) e' front_positive,
                    Distinct-to _ (tf ++ x ∷ tb) e' there,
                  )
                  (Linked-to z i header _ (tf ++ x ∷ tb) e' l')
            | inr short ↦
                let e : tall h i (x ∷ back) ≡ tb = unfold tall in rw short refl in
                Linked-absent z z₁ i x header tf tb passed (past_header, distinct) apart
                  (Linked-to z i header _ (tf ++ tb) (ap (λ t. tf ++ t) e) l')
          ]
      | inr over ↦
          let le : length update ≤ i = ground (arith, over) in
          let short : ltb i (h x) ≡ false = ground (arith, le, low) in
          let e : tall h i (x ∷ back) ≡ tb = unfold tall in rw short refl in
          let same = λ (b : Address). u.above b i (omega (arith, le)) in
          Linked-frame z z₁ i header (tf ++ tb) (same header)
            (All-map (tf ++ tb) (λ b n. same b) apart)
            (Linked-to z i header _ (tf ++ tb) (ap (λ t. tf ++ t) e) l')
    ])
