-- ===== src/Skiplist/Fields.antt =====
-- zskiplist.c: the fields `level` and `length` of a list under the loops, and the range of a level.
use miniredis.Common.{
  ℕ, zero, suc, ◌+◌, ◌-◌, ◌%◌, ◌^◌, ◌≤◌, Option, none, some, List, [], ◌∷◌, ◌≡◌, refl, arith,
  if◌then◌else◌, ltb, Bool-cases, inl, inr,
}
use miniredis.Skiplist.{
  Address, Skiplist, put_level, raise, link, widen, set_back, unlink, unlink_back, raise_level,
  random_level, zsl_random_level, zskiplist_maxlevel, update_node, put_node, put_backward,
}

abbrev pub SameFields : Skiplist → Skiplist → Type 0
SameFields z z' = (z'.level ≡ z.level) × (z'.length ≡ z.length)

raise-SameFields : (i n : ℕ) (z : Skiplist) → SameFields z (raise i n z)
unfolding raise put_level update_node put_node
raise-SameFields i zero z = (refl, refl)
raise-SameFields i (suc n) z = raise-SameFields (i + 1) n _

pub link-SameFields :
    (x : Address) (rank0 i : ℕ) (update : List (ℕ × Address)) (n : ℕ) (z : Skiplist)
    → SameFields z (link x rank0 i update n z)
unfolding link put_level update_node put_node
link-SameFields x rank0 i update zero z = (refl, refl)
link-SameFields x rank0 i [] (suc n) z = (refl, refl)
link-SameFields x rank0 i ((rank, u) ∷ update) (suc n) z =
    link-SameFields x rank0 (i + 1) update n _

pub widen-SameFields :
    (i : ℕ) (update : List (ℕ × Address)) (z : Skiplist) → SameFields z (widen i update z)
unfolding widen put_level update_node put_node
widen-SameFields i [] z = (refl, refl)
widen-SameFields i ((rank, u) ∷ update) z = widen-SameFields (i + 1) update _

pub unlink-SameFields :
    (x : Address) (i : ℕ) (update : List (ℕ × Address)) (z : Skiplist)
    → SameFields z (unlink x i update z)
unfolding unlink put_level update_node put_node
unlink-SameFields x i [] z = (refl, refl)
unlink-SameFields x i ((rank, u) ∷ update) z = unlink-SameFields x (i + 1) update _

pub set_back-SameFields :
    (y : Option Address) (x : Address) (z : Skiplist) → SameFields z (set_back y x z)
unfolding set_back put_backward update_node put_node
set_back-SameFields none x z = (refl, refl)
set_back-SameFields (some y) x z = (refl, refl)

pub unlink_back-SameFields :
    (y b : Option Address) (z : Skiplist) → SameFields z (unlink_back y b z)
unfolding unlink_back put_backward update_node put_node
unlink_back-SameFields none b z = (refl, refl)
unlink_back-SameFields (some y) b z = (refl, refl)

pub raise_level-fields :
    (level : ℕ) (z : Skiplist)
    → ((raise_level level z).level ≡ (if ltb z.level level then level else z.level))
      × ((raise_level level z).length ≡ z.length)
unfolding raise_level
raise_level-fields level z = elim (Bool-cases (ltb z.level level)) [
  | inl higher ↦ rw higher (refl, (raise-SameFields z.level (level - z.level) z).1)
  | inr low ↦ rw low (refl, refl)
]

-- A random level is between 1 and 32.
random_level-range :
    (left level : ℕ) (rand : ℕ → ℕ)
    → (level ≤ (random_level left level rand).0) × ((random_level left level rand).0 ≤ level + left)
unfolding random_level
random_level-range zero level rand = (omega arith, omega arith)
random_level-range (suc left) level rand =
    let (lo, hi) = random_level-range left (level + 1) (λ i. rand (i + 1)) in
    elim (Bool-cases (ltb (rand 0 % 2 ^ 16) 16383)) [
      | inl higher ↦ rw higher (omega (arith, lo), omega (arith, hi))
      | inr stays ↦ rw stays (omega arith, omega arith)
    ]

pub zsl_random_level-range :
    (rand : ℕ → ℕ) → (1 ≤ (zsl_random_level rand).0) × ((zsl_random_level rand).0 ≤ 32)
unfolding zsl_random_level
zsl_random_level-range rand = random_level-range (zskiplist_maxlevel - 1) 1 rand
