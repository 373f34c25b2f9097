-- ===== src/Skiplist/Links.antt =====
-- zskiplist.c: what the writes of links do to the pointers of each level.
use miniredis.Common.{
  ℕ, zero, suc, ◌≤◌, ◌<◌, ◌&&◌, Option, none, some, List, [], ◌∷◌, ◌≡◌, refl, ap, ◌∙◌, arith,
  if◌then◌else◌, ◌==◌, ltb, Bool-cases, inl, inr, get_or, set, length, length-set,
}
use miniredis.Skiplist.{
  Address, Node, Level, Skiplist, put_node, put_level, put_backward, update_node, on_node, level_at,
  node_at, or_blank, blank_level,
}

unfoldable pub forward : Skiplist → Address → ℕ → Option Address
forward z a i = (level_at z a i).forward

unfoldable pub height : Skiplist → Address → ℕ
height z a = length (node_at z a).level

get_or-set_lt :
    (xs : List Level) (i j : ℕ) (v d : Level)
    → i < length xs
    → get_or (set xs i v) j d ≡ (if j == i then v else get_or xs j d)
unfolding get_or set
get_or-set_lt [] i j v d h = absurd (omega (arith, h))
get_or-set_lt (x ∷ xs) (suc i) (suc j) v d h =
    ground (arith, get_or-set_lt xs i j v d (omega (arith, h)))
get_or-set_lt (x ∷ xs) zero zero v d h = refl
get_or-set_lt (x ∷ xs) zero (suc j) v d h = ground arith
get_or-set_lt (x ∷ xs) (suc i) zero v d h = ground arith

get_or-set_same :
    (xs : List Level) (i j : ℕ) (v d : Level)
    → v.forward ≡ (get_or xs i d).forward
    → (get_or (set xs i v) j d).forward ≡ (get_or xs j d).forward
unfolding get_or set
get_or-set_same [] i j v d h = refl
get_or-set_same (x ∷ xs) (suc i) (suc j) v d h = get_or-set_same xs i j v d h
get_or-set_same (x ∷ xs) zero zero v d h = h
get_or-set_same (x ∷ xs) zero (suc j) v d h = refl
get_or-set_same (x ∷ xs) (suc i) zero v d h = refl

-- The node at an address after an update.
on_node-level :
    (n : Option Node) (i : ℕ) (l : Level)
    → (or_blank (on_node (λ n. record n { level = set n.level i l }) n)).level
      ≡ set (or_blank n).level i l
unfolding on_node set
on_node-level none i l = refl
on_node-level (some n) i l = refl

put_level-levels :
    (a b : Address) (i : ℕ) (l : Level) (z : Skiplist)
    → (node_at (put_level a i l z) b).level
      ≡ (if b == a then set (node_at z a).level i l else (node_at z b).level)
unfolding put_level update_node put_node node_at
put_level-levels a b i l z = elim (Bool-cases (b == a)) [
  | inl same ↦ rw same (on_node-level (z.nodes a) i l)
  | inr other ↦ rw other refl
]

pub put_level-height :
    (a : Address) (i : ℕ) (l : Level) (z : Skiplist) (b : Address)
    → height (put_level a i l z) b ≡ height z b
unfolding height
put_level-height a i l z b = ap length (put_level-levels a b i l z) ∙ elim (Bool-cases (b == a)) [
  | inl same ↦
      let e : a ≡ b = ground (arith, same) in
      rw same (length-set (node_at z a).level i l ∙ ap (λ x. length (node_at z x).level) e)
  | inr other ↦ rw other refl
]

pub put_level-forward :
    (a : Address) (i : ℕ) (l : Level) (z : Skiplist) (b : Address) (j : ℕ)
    → i < height z a
    → forward (put_level a i l z) b j ≡ (if (b == a) && (j == i) then l.forward else forward z b j)
unfolding forward level_at height
put_level-forward a i l z b j h =
    ap (λ ls. (get_or ls j blank_level).forward) (put_level-levels a b i l z)
    ∙ elim (Bool-cases (b == a)) [
      | inr other ↦ rw other refl
      | inl same ↦
          let e : a ≡ b = ground (arith, same) in
          let there = get_or-set_lt (node_at z a).level i j l blank_level h in
          elim (Bool-cases (j == i)) [
            | inl level ↦ rw (same, level) (ap (λ x. x.forward) there ∙ rw level refl)
            | inr apart ↦
                rw (same, apart)
                  (ap (λ x. x.forward) there
                    ∙ rw apart (ap (λ x. (get_or (node_at z x).level j blank_level).forward) e))
          ]
    ]

-- The same pointers and heights.
pub record SameLinks (z z' : Skiplist) : Type 0 where
  pub forwards : (b : Address) (j : ℕ) → forward z' b j ≡ forward z b j
  pub heights : (b : Address) → height z' b ≡ height z b

pub SameLinks-then : {x y z : Skiplist} → SameLinks x y → SameLinks y z → SameLinks x z
SameLinks-then r s = record {
  forwards = λ b j. s.forwards b j ∙ r.forwards b j;
  heights = λ b. s.heights b ∙ r.heights b;
}

pub SameLinks-refl : (z : Skiplist) → SameLinks z z
SameLinks-refl z = record { forwards = λ b j. refl; heights = λ b. refl }

pub put_level-SameLinks :
    (a : Address) (i : ℕ) (l : Level) (z : Skiplist)
    → l.forward ≡ forward z a i
    → SameLinks z (put_level a i l z)
unfolding forward level_at
put_level-SameLinks a i l z h = record {
  forwards = λ b j.
      ap (λ ls. (get_or ls j blank_level).forward) (put_level-levels a b i l z)
      ∙ elim (Bool-cases (b == a)) [
        | inr other ↦ rw other refl
        | inl same ↦
            let e : a ≡ b = ground (arith, same) in
            rw same (
              get_or-set_same (node_at z a).level i j l blank_level h
              ∙ ap (λ x. (get_or (node_at z x).level j blank_level).forward) e)
      ];
  heights = put_level-height a i l z;
}

on_node-back :
    (n : Option Node) (b : Option Address)
    → (or_blank (on_node (λ n. record n { backward = b }) n)).level ≡ (or_blank n).level
unfolding on_node
on_node-back none b = refl
on_node-back (some n) b = refl

same_levels :
    (z z' : Skiplist)
    → ((b : Address) → (node_at z' b).level ≡ (node_at z b).level)
    → SameLinks z z'
unfolding forward level_at height
same_levels z z' h = record {
  forwards = λ b j. ap (λ ls. (get_or ls j blank_level).forward) (h b);
  heights = λ b. ap length (h b);
}

pub put_backward-SameLinks :
    (a : Address) (p : Option Address) (z : Skiplist) → SameLinks z (put_backward a p z)
unfolding put_backward update_node put_node node_at
put_backward-SameLinks a p z = same_levels z (put_backward a p z) (λ b. elim (Bool-cases (b == a)) [
  | inl same ↦
      let e : a ≡ b = ground (arith, same) in
      rw same (on_node-back (z.nodes a) p ∙ ap (λ x. (or_blank (z.nodes x)).level) e)
  | inr other ↦ rw other refl
])

pub fields-SameLinks :
    (z : Skiplist) (tail : Option Address) (length level : ℕ)
    → SameLinks z (record z { tail = tail; length = length; level = level })
unfolding node_at
fields-SameLinks z tail length level = same_levels z _ (λ b. refl)

get_or-none : (ls : List Level) (i : ℕ) → length ls ≤ i → (get_or ls i blank_level).forward ≡ none
unfolding get_or
get_or-none [] i h = refl
get_or-none (l ∷ ls) zero h = absurd (omega (arith, h))
get_or-none (l ∷ ls) (suc i) h = get_or-none ls i (omega (arith, h))

-- There is no pointer above the height of a node.
pub forward-none : (z : Skiplist) (a : Address) (i : ℕ) → height z a ≤ i → forward z a i ≡ none
unfolding forward level_at height
forward-none z a i h = get_or-none (node_at z a).level i h

pub forward-lt :
    (z : Skiplist) (a : Address) (i : ℕ) (y : Address) → forward z a i ≡ some y → i < height z a
forward-lt z a i y e = elim (Bool-cases (ltb i (height z a))) [
  | inl lt ↦ ground (arith, lt)
  | inr ge ↦ let none_there = forward-none z a i (ground (arith, ge)) in absurd cc
]
