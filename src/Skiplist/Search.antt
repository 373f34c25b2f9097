-- ===== src/Skiplist/Search.antt =====
-- zskiplist.c: the search from the highest level down ends, at each level, behind the nodes that stand
-- before the place that it looks for.
use miniredis.Common.{
  ℕ, zero, suc, ◌+◌, ◌≤◌, ◌<◌, Bool, true, false, List, [], ◌∷◌, ◌++◌, ◌≡◌, refl, sym, ap, ◌∙◌,
  arith, ◌==◌, ltb, Bool-cases, inl, inr, ◌⊎◌, get_or, length, length-append, get_or-append_lt,
  get_or-append_length,
}
use miniredis.Resp.RoundTrip.{All}
use miniredis.Skiplist.{Address, Node, Skiplist, walk, descend, search, node_at, header, at_header}
use miniredis.Skiplist.Links.{height}
use miniredis.Skiplist.Splice.{at_level}
use miniredis.Skiplist.Chain.{Linked, tall, last_of, All-tall, tall-append, tall-none, walk-last_of}

length-tall : (h : Address → ℕ) (i : ℕ) (as' : List Address) → length (tall h i as') ≤ length as'
unfolding tall
length-tall h i [] = omega arith
length-tall h i (a ∷ as') = elim (Bool-cases (ltb i (h a))) [
  | inl high ↦ rw high (omega (arith, length-tall h i as'))
  | inr low ↦ rw low (omega (arith, length-tall h i as'))
]

-- What is left of a level behind the place where the level above was left.
record Descends (z : Skiplist) (h : Address → ℕ) (P : Address → Type 0) (i : ℕ) (s : Address)
    (as' : List Address) : Type 0 where
  left : List Address
  ends : last_of (last_of s (tall h (suc i) as')) left ≡ last_of s (tall h i as')
  passes : All P left
  few : length left ≤ length as'
  linked :
      (qs : List Address)
      → Linked z i s (tall h i as' ++ qs)
      → Linked z i (last_of s (tall h (suc i) as')) (left ++ qs)

nil-cases : (l : List Address) → (l ≡ []) ⊎ ((a : Address) × (m : List Address) × (l ≡ a ∷ m))
nil-cases [] = inl refl
nil-cases (a ∷ m) = inr (a, m, refl)

descends :
    (z : Skiplist) (h : Address → ℕ) (P : Address → Type 0) (i : ℕ) (s : Address)
    (as' : List Address)
    → All P as'
    → Descends z h P i s as'
unfolding tall last_of
descends z h P i s [] k = record {
  left = [];
  ends = refl;
  passes = tt;
  few = omega arith;
  linked = λ qs l. l;
}
descends z h P i s (c ∷ as') k = elim (Bool-cases (ltb (suc i) (h c))) [
  | inl high ↦
      let low : ltb i (h c) ≡ true = ground (arith, high) in
      let d = descends z h P i c as' k.1 in
      record {
        left = d.left;
        ends = rw (high, low) d.ends;
        passes = d.passes;
        few = omega (arith, d.few);
        linked = λ qs. rw (high, low) (λ l. d.linked qs l.1);
      }
  | inr not_high ↦ elim (Bool-cases (ltb i (h c))) [
    | inr low ↦
        let d = descends z h P i s as' k.1 in
        record {
          left = d.left;
          ends = rw (not_high, low) d.ends;
          passes = d.passes;
          few = omega (arith, d.few);
          linked = λ qs. rw (not_high, low) (d.linked qs);
        }
    | inl mid ↦ elim (nil-cases (tall h (suc i) as')) [
      | inl empty ↦ record {
        left = c ∷ tall h i as';
        ends = rw (not_high, mid, empty) refl;
        passes = (k.0, All-tall P h i as' k.1);
        few = omega (arith, length-tall h i as');
        linked = λ qs. rw (not_high, mid, empty) (λ l. l);
      }
      | inr (t, ts, e) ↦
          let d = descends z h P i c as' k.1 in
          record {
            left = d.left;
            ends = rw (not_high, mid, e) (rw e at d.ends);
            passes = d.passes;
            few = omega (arith, d.few);
            linked = λ qs. rw (not_high, mid, e) (λ l. (rw e at d.linked qs) l.1);
          }
    ]
  ]
]

pub Linked-to :
    (z : Skiplist) (i : ℕ) (a : Address) (bs cs : List Address)
    → bs ≡ cs
    → Linked z i a bs
    → Linked z i a cs
Linked-to z i a bs cs e l = rw (sym e) l

-- A list whose nodes that pass the test stand first.
pub record Parted (z : Skiplist) (good : Address → Bool) (as' bs : List Address) : Type 0 where
  pub first : All (λ b. good b ≡ true) as'
  pub second : All (λ b. good b ≡ false) bs
  pub linked : (i : ℕ) → Linked z i header (tall (height z) i (as' ++ bs))
  pub few : length as' ≤ z.next_address

pub record Found (z : Skiplist) (as' : List Address) (n : ℕ) (update : List (ℕ × Address))
    : Type 0 where
  pub size : length update ≡ n
  pub places : (j : ℕ) → j < n → at_level update j ≡ last_of header (tall (height z) j as')

descend-Found :
    (z : Skiplist) (test : ℕ → Node → Bool) (good : Address → Bool) (as' bs : List Address)
    (i rank : ℕ) (x : Address)
    → ((r : ℕ) (b : Address) → test r (node_at z b) ≡ good b)
    → Parted z good as' bs
    → x ≡ last_of header (tall (height z) i as')
    → Found z as' i (descend z test i rank x)
unfolding descend get_or
descend-Found z test good as' bs zero rank x t p e = record {
  size = refl;
  places = λ j lt. absurd (omega (arith, lt));
}
descend-Found z test good as' bs (suc i) rank x t p e =
    let h = height z in
    let r = walk z.next_address z test i rank x in
    let d = descends z h (λ b. good b ≡ true) i header as' p.first in
    let level : Linked z i header (tall h i as' ++ tall h i bs) =
      Linked-to z i header _ _ (tall-append h i as' bs) (p.linked i) in
    let from_x : Linked z i x (d.left ++ tall h i bs) = rw e (d.linked (tall h i bs) level) in
    let stops =
      walk-last_of z.next_address z test good i rank x d.left (tall h i bs) t from_x d.passes
        (All-tall (λ b. good b ≡ false) h i bs p.second) (omega (arith, d.few, p.few)) in
    let here : r.1 ≡ last_of header (tall h i as') = stops ∙ rw e d.ends in
    let rest = descend-Found z test good as' bs i r.0 r.1 t p here in
    let below = descend z test i r.0 r.1 in
    record {
      size = length-append below (r ∷ []) ∙ omega (arith, rest.size);
      places = λ j lt. elim (Bool-cases (j == i)) [
        | inl top ↦
            let e' : j ≡ length below + 0 = ground (arith, top, rest.size) in
            let at_top = get_or-append_length below (r ∷ []) 0 at_header in
            let same : i ≡ j = ground (arith, top) in
            ap (at_level (below ++ r ∷ [])) e'
            ∙ ap (λ q. q.1) at_top
            ∙ here
            ∙ ap (λ k. last_of header (tall h k as')) same
        | inr under ↦
            let lt' : j < i = ground (arith, under, lt) in
            ap (λ q. q.1)
              (get_or-append_lt below (r ∷ []) j at_header (omega (arith, lt', rest.size)))
            ∙ rest.places j lt'
      ];
    }

pub search-Found :
    (z : Skiplist) (test : ℕ → Node → Bool) (good : Address → Bool) (as' bs : List Address)
    → ((r : ℕ) (b : Address) → test r (node_at z b) ≡ good b)
    → Parted z good as' bs
    → All (λ a. height z a ≤ z.level) as'
    → Found z as' z.level (search z test)
unfolding search last_of
search-Found z test good as' bs t p low =
    descend-Found z test good as' bs z.level 0 header t p
      (rw (tall-none (height z) z.level as' low) refl)
