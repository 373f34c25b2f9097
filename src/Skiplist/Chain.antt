-- ===== src/Skiplist/Chain.antt =====
-- zskiplist.c: the nodes of one level as a list, and where the searches end.
use miniredis.Common.{
  ℕ, zero, suc, ◌+◌, ◌≤◌, Bool, true, false, none, some, List, [], ◌∷◌, ◌++◌, ◌≡◌, refl, ap, ◌∙◌,
  arith, if◌then◌else◌, ◌==◌, ltb, Bool-cases, inl, inr, length,
}
use miniredis.Resp.RoundTrip.{All}
use miniredis.Skiplist.{Address, Node, Skiplist, walk, node_at, level_at}
use miniredis.Skiplist.Links.{forward}
use miniredis.Skiplist.Splice.{Behind, Passed}

-- From `a` on, the pointers of level `i` lead through the addresses and end.
abbrev pub Linked : Skiplist → ℕ → Address → List Address → Type 0
Linked z i a [] = forward z a i ≡ none
Linked z i a (b ∷ bs) = (forward z a i ≡ some b) × Linked z i b bs

-- Those that are higher than `i`.
unfoldable pub tall : (Address → ℕ) → ℕ → List Address → List Address
tall h i [] = []
tall h i (a ∷ as') = if ltb i (h a) then a ∷ tall h i as' else tall h i as'

unfoldable pub last_of : Address → List Address → Address
last_of a [] = a
last_of a (b ∷ bs) = last_of b bs

-- `a` is none of the addresses; none of them stands twice.
abbrev pub Apart : Address → List Address → Type 0
Apart a bs = All (λ b. (b == a) ≡ false) bs

abbrev pub Distinct : List Address → Type 0
Distinct [] = Unit
Distinct (a ∷ as') = Apart a as' × Distinct as'

module _ (P : Address → Type 0) where
  pub All-append : (as' bs : List Address) → All P as' → All P bs → All P (as' ++ bs)
  All-append [] bs h k = k
  All-append (a ∷ as') bs h k = (h.0, All-append as' bs h.1 k)

  pub All-left : (as' bs : List Address) → All P (as' ++ bs) → All P as'
  All-left [] bs h = tt
  All-left (a ∷ as') bs h = (h.0, All-left as' bs h.1)

  pub All-right : (as' bs : List Address) → All P (as' ++ bs) → All P bs
  All-right [] bs h = h
  All-right (a ∷ as') bs h = All-right as' bs h.1

  pub All-tall : (h : Address → ℕ) (i : ℕ) (as' : List Address) → All P as' → All P (tall h i as')
  unfolding tall
  All-tall h i [] k = tt
  All-tall h i (a ∷ as') k = elim (Bool-cases (ltb i (h a))) [
    | inl high ↦ rw high (k.0, All-tall h i as' k.1)
    | inr low ↦ rw low (All-tall h i as' k.1)
  ]

  pub All-last : (a : Address) (bs : List Address) → P a → All P bs → P (last_of a bs)
  unfolding last_of
  All-last a [] h k = h
  All-last a (b ∷ bs) h k = All-last b bs k.0 k.1

pub All-map :
    {P Q : Address → Type 0} (as' : List Address)
    → ((a : Address) → P a → Q a)
    → All P as'
    → All Q as'
All-map [] f h = tt
All-map (a ∷ as') f h = (f a h.0, All-map as' f h.1)

pub Distinct-tall :
    (h : Address → ℕ) (i : ℕ) (as' : List Address) → Distinct as' → Distinct (tall h i as')
unfolding tall
Distinct-tall h i [] d = tt
Distinct-tall h i (a ∷ as') d = elim (Bool-cases (ltb i (h a))) [
  | inl high ↦ rw high (All-tall (λ b. (b == a) ≡ false) h i as' d.0, Distinct-tall h i as' d.1)
  | inr low ↦ rw low (Distinct-tall h i as' d.1)
]

pub tall-append :
    (h : Address → ℕ) (i : ℕ) (as' bs : List Address)
    → tall h i (as' ++ bs) ≡ tall h i as' ++ tall h i bs
unfolding tall
tall-append h i [] bs = refl
tall-append h i (a ∷ as') bs = elim (Bool-cases (ltb i (h a))) [
  | inl high ↦ rw high (ap (λ t. a ∷ t) (tall-append h i as' bs))
  | inr low ↦ rw low (tall-append h i as' bs)
]

pub tall-same :
    (h h' : Address → ℕ) (i : ℕ) (as' : List Address)
    → All (λ a. h' a ≡ h a) as'
    → tall h' i as' ≡ tall h i as'
unfolding tall
tall-same h h' i [] e = refl
tall-same h h' i (a ∷ as') (e, es) = rw (e, tall-same h h' i as' es) refl

pub tall-none :
    (h : Address → ℕ) (i : ℕ) (as' : List Address) → All (λ a. h a ≤ i) as' → tall h i as' ≡ []
unfolding tall
tall-none h i [] e = refl
tall-none h i (a ∷ as') (e, es) =
    let low : ltb i (h a) ≡ false = ground (arith, e) in rw low (tall-none h i as' es)

-- Pointers that are the same lead through the same addresses.
pub Linked-frame :
    (z z' : Skiplist) (i : ℕ) (a : Address) (bs : List Address)
    → forward z' a i ≡ forward z a i
    → All (λ b. forward z' b i ≡ forward z b i) bs
    → Linked z i a bs
    → Linked z' i a bs
Linked-frame z z' i a [] e es l = e ∙ l
Linked-frame z z' i a (b ∷ bs) e (e', es) l = (e ∙ l.0, Linked-frame z z' i b bs e' es l.1)

Linked-moved :
    (z z' : Skiplist) (i : ℕ) (a x : Address) (bs : List Address)
    → forward z' x i ≡ forward z a i
    → All (λ b. forward z' b i ≡ forward z b i) bs
    → Linked z i a bs
    → Linked z' i x bs
Linked-moved z z' i a x [] e es l = e ∙ l
Linked-moved z z' i a x (b ∷ bs) e (e', es) l = (e ∙ l.0, Linked-frame z z' i b bs e' es l.1)

pub last_of-Apart :
    (a : Address) (p : Address) (ps : List Address) → Apart a (p ∷ ps) → (last_of p ps == a) ≡ false
last_of-Apart a p ps h = All-last (λ b. (b == a) ≡ false) p ps h.0 h.1

pub ==-flip : (a b : ℕ) → (a == b) ≡ false → (b == a) ≡ false
==-flip a b h = ground arith

All-both :
    (z z' : Skiplist) (i : ℕ) (x a : Address) (bs : List Address)
    → Apart a bs
    → Apart x bs
    → ((b : Address) → (b == a) ≡ false → (b == x) ≡ false → forward z' b i ≡ forward z b i)
    → All (λ b. forward z' b i ≡ forward z b i) bs
All-both z z' i x a [] h k f = tt
All-both z z' i x a (b ∷ bs) h k f = (f b h.0 k.0, All-both z z' i x a bs h.1 k.1 f)

-- A new node behind the last one of a part.
pub Linked-insert :
    (z z' : Skiplist) (i : ℕ) (x a : Address) (ps qs : List Address)
    → Behind x (last_of a ps) i z z'
    → Distinct (a ∷ ps ++ qs)
    → Apart x (a ∷ ps ++ qs)
    → Linked z i a (ps ++ qs)
    → Linked z' i a (ps ++ x ∷ qs)
unfolding last_of
Linked-insert z z' i x a [] qs s d f l =
    (s.to_new, Linked-moved z z' i a x qs s.from_new (All-both z z' i x a qs d.0 f.1 s.others) l)
Linked-insert z z' i x a (p ∷ ps) qs s d f l =
    let apart = last_of-Apart a p ps (All-left (λ b. (b == a) ≡ false) (p ∷ ps) qs d.0) in
    (
      s.others a (==-flip (last_of p ps) a apart) f.0 ∙ l.0,
      Linked-insert z z' i x p ps qs s d.1 f.1 l.1,
    )

-- A node that is passed over by the one before it.
pub Linked-delete :
    (z z' : Skiplist) (i : ℕ) (x a : Address) (ps qs : List Address)
    → Passed x (last_of a ps) i z z'
    → Distinct (a ∷ ps ++ x ∷ qs)
    → Linked z i a (ps ++ x ∷ qs)
    → Linked z' i a (ps ++ qs)
unfolding last_of
Linked-delete z z' i x a [] qs s d l =
    let self : (x == x) ≡ true = ground arith in
    Linked-moved z z' i x a qs (s.past ∙ rw (l.0, self) refl)
      (All-map qs (λ b n. s.others b n) d.0.1) l.1
Linked-delete z z' i x a (p ∷ ps) qs s d l =
    let apart = last_of-Apart a p ps (All-left (λ b. (b == a) ≡ false) (p ∷ ps) (x ∷ qs) d.0) in
    (s.others a (==-flip (last_of p ps) a apart) ∙ l.0, Linked-delete z z' i x p ps qs s d.1 l.1)

-- One that is not led to changes nothing.
pub Linked-absent :
    (z z' : Skiplist) (i : ℕ) (x a : Address) (ps qs : List Address)
    → Passed x (last_of a ps) i z z'
    → Distinct (a ∷ ps ++ qs)
    → Apart x (ps ++ qs)
    → Linked z i a (ps ++ qs)
    → Linked z' i a (ps ++ qs)
unfolding last_of
Linked-absent z z' i x a [] [] s d f l = s.past ∙ rw l refl
Linked-absent z z' i x a [] (q ∷ qs) s d f l = (
  s.past ∙ rw (l.0, f.0) refl,
  Linked-frame z z' i q qs (s.others q d.0.0) (All-map qs (λ b n. s.others b n) d.0.1) l.1,
)
Linked-absent z z' i x a (p ∷ ps) qs s d f l =
    let apart = last_of-Apart a p ps (All-left (λ b. (b == a) ≡ false) (p ∷ ps) qs d.0) in
    (
      s.others a (==-flip (last_of p ps) a apart) ∙ l.0,
      Linked-absent z z' i x p ps qs s d.1 f.1 l.1,
    )

-- The walk along a level ends behind the nodes that pass the test, if it is given as many rounds.
pub walk-last_of :
    (fuel : ℕ) (z : Skiplist) (test : ℕ → Node → Bool) (good : Address → Bool) (i rank : ℕ)
    (a : Address) (ps qs : List Address)
    → ((r : ℕ) (b : Address) → test r (node_at z b) ≡ good b)
    → Linked z i a (ps ++ qs)
    → All (λ b. good b ≡ true) ps
    → All (λ b. good b ≡ false) qs
    → length ps ≤ fuel
    → (walk fuel z test i rank a).1 ≡ last_of a ps
unfolding walk last_of forward
walk-last_of zero z test good i rank a [] qs t l yes' no' room = refl
walk-last_of zero z test good i rank a (p ∷ ps) qs t l yes' no' room = absurd (omega (arith, room))
walk-last_of (suc fuel) z test good i rank a [] [] t l yes' no' room = rw (l, walk) refl
walk-last_of (suc fuel) z test good i rank a [] (q ∷ qs) t l yes' no' room =
    let next = l.0 in
    let fails = t (rank + (level_at z a i).span) q ∙ no'.0 in rw (next, walk, fails) refl
walk-last_of (suc fuel) z test good i rank a (p ∷ ps) qs t l yes' no' room =
    let next = l.0 in
    let r = rank + (level_at z a i).span in
    let passes = t r p ∙ yes'.0 in
    let rest = walk-last_of fuel z test good i r p ps qs t l.1 yes'.1 no' (omega (arith, room)) in
    rw (next, walk, passes) rest
