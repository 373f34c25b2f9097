-- ===== src/Skiplist/Splice.antt =====
-- zskiplist.c: what the loops over the levels do to the pointers.
use miniredis.Common.{
  ℕ, zero, suc, ◌+◌, ◌-◌, ◌≤◌, ◌<◌, Bool, true, false, ◌&&◌, Option, none, some, List, [], ◌∷◌, ◌≡◌,
  refl, sym, ◌∙◌, arith, if◌then◌else◌, ◌==◌, ltb, Bool-cases, Option-cases, inl, inr, get_or,
  length,
}
use miniredis.Skiplist.{
  Address, Level, Skiplist, put_level, raise, link, widen, set_back, sub_ul, unlink, unlink_back,
  raise_level, level_at, header, at_header, same_address,
}
use miniredis.Skiplist.Links.{
  forward, height, put_level-height, put_level-forward, SameLinks, SameLinks-then, SameLinks-refl,
  put_level-SameLinks, put_backward-SameLinks, fields-SameLinks, forward-lt,
}

raise-SameLinks : (i n : ℕ) (z : Skiplist) → SameLinks z (raise i n z)
unfolding raise forward
raise-SameLinks i zero z = SameLinks-refl z
raise-SameLinks i (suc n) z =
    SameLinks-then (put_level-SameLinks header i _ z refl) (raise-SameLinks (i + 1) n _)

pub raise_level-SameLinks : (level : ℕ) (z : Skiplist) → SameLinks z (raise_level level z)
unfolding raise_level
raise_level-SameLinks level z = elim (Bool-cases (ltb z.level level)) [
  | inl higher ↦
      rw higher
        (SameLinks-then (raise-SameLinks z.level (level - z.level) z) (fields-SameLinks _ _ _ _))
  | inr low ↦ rw low (SameLinks-refl z)
]

pub widen-SameLinks :
    (i : ℕ) (update : List (ℕ × Address)) (z : Skiplist) → SameLinks z (widen i update z)
unfolding widen forward
widen-SameLinks i [] z = SameLinks-refl z
widen-SameLinks i ((rank, u) ∷ update) z =
    SameLinks-then (put_level-SameLinks u i _ z refl) (widen-SameLinks (i + 1) update _)

pub set_back-SameLinks :
    (y : Option Address) (x : Address) (z : Skiplist) → SameLinks z (set_back y x z)
unfolding set_back
set_back-SameLinks none x z = fields-SameLinks z _ _ _
set_back-SameLinks (some y) x z = put_backward-SameLinks y _ z

pub unlink_back-SameLinks :
    (y back : Option Address) (z : Skiplist) → SameLinks z (unlink_back y back z)
unfolding unlink_back
unlink_back-SameLinks none back z = fields-SameLinks z _ _ _
unlink_back-SameLinks (some y) back z = put_backward-SameLinks y back z

-- The address at a place of `update`.
abbrev pub at_level : List (ℕ × Address) → ℕ → Address
at_level update k = (get_or update k at_header).1

-- The pointers of one level once `x` stands behind `u`.
pub record Behind (x u : Address) (j : ℕ) (z z' : Skiplist) : Type 0 where
  pub to_new : forward z' u j ≡ some x
  pub from_new : forward z' x j ≡ forward z u j
  pub others : (b : Address) → (b == u) ≡ false → (b == x) ≡ false → forward z' b j ≡ forward z b j

pub record LinkedIn (x : Address) (update : List (ℕ × Address)) (i n : ℕ) (z z' : Skiplist)
    : Type 0 where
  pub heights : (b : Address) → height z' b ≡ height z b
  pub below : (b : Address) (j : ℕ) → j < i → forward z' b j ≡ forward z b j
  pub above : (b : Address) (j : ℕ) → i + n ≤ j → forward z' b j ≡ forward z b j
  pub within : (k j : ℕ) → k < n → j ≡ i + k → Behind x (at_level update k) j z z'

-- The nodes that are linked have the levels.
abbrev pub Levels : Skiplist → Address → List (ℕ × Address) → ℕ → ℕ → Type 0
Levels z x update i n =
    (k j : ℕ)
    → k < n
    → j ≡ i + k
    → (j < height z (at_level update k)) × ((x == at_level update k) ≡ false)

and_false : {A : Type 0} (a b : Bool) → b ≡ false → (x y : A) → (if a && b then x else y) ≡ y
and_false true b h x y = rw h refl
and_false false b h x y = refl

-- The pointers of one level, seen from a list that has the same ones at this level.
Behind-to :
    {x u : Address} {j : ℕ} (z y z' y' : Skiplist)
    → ((b : Address) → forward y b j ≡ forward z b j)
    → ((b : Address) → forward y' b j ≡ forward z' b j)
    → Behind x u j z z'
    → Behind x u j y y'
Behind-to {x} {u} z y z' y' e e' s = record {
  to_new = e' u ∙ s.to_new;
  from_new = e' x ∙ s.from_new ∙ sym (e u);
  others = λ b n m. e' b ∙ s.others b n m ∙ sym (e b);
}

within_step :
    (z z₂ z' : Skiplist) (x u : Address) (rank : ℕ) (update : List (ℕ × Address)) (i n k j : ℕ)
    → Behind x u i z z₂
    → ((b : Address) (j : ℕ) → (j == i) ≡ false → forward z₂ b j ≡ forward z b j)
    → LinkedIn x update (i + 1) n z₂ z'
    → k < suc n
    → j ≡ i + k
    → Behind x (at_level ((rank, u) ∷ update) k) j z z'
unfolding get_or
within_step z z₂ z' x u rank update i n zero j here apart rest lt e =
    let e' : i ≡ j = omega (arith, e) in
    rw (← e') (Behind-to z z z₂ z' (λ b. refl) (λ b. rest.below b i (omega arith)) here)
within_step z z₂ z' x u rank update i n (suc k) j here apart rest lt e =
    Behind-to z₂ z z' z' (λ b. sym (apart b j (ground (arith, e)))) (λ b. refl)
      (rest.within k j (omega (arith, lt)) (omega (arith, e)))

link_step :
    (z z₂ z' : Skiplist) (x u : Address) (rank : ℕ) (update : List (ℕ × Address)) (i n : ℕ)
    → ((b : Address) → height z₂ b ≡ height z b)
    → Behind x u i z z₂
    → ((b : Address) (j : ℕ) → (j == i) ≡ false → forward z₂ b j ≡ forward z b j)
    → LinkedIn x update (i + 1) n z₂ z'
    → LinkedIn x ((rank, u) ∷ update) i (suc n) z z'
link_step z z₂ z' x u rank update i n hs here apart rest = record {
  heights = λ b. rest.heights b ∙ hs b;
  below = λ b j lt. rest.below b j (omega (arith, lt)) ∙ apart b j (ground (arith, lt));
  above = λ b j le. rest.above b j (omega (arith, le)) ∙ apart b j (ground (arith, le));
  within = λ k j lt e. within_step z z₂ z' x u rank update i n k j here apart rest lt e;
}

pub link-LinkedIn :
    (x : Address) (rank0 i : ℕ) (update : List (ℕ × Address)) (n : ℕ) (z : Skiplist)
    → n ≤ length update
    → i + n ≤ height z x
    → Levels z x update i n
    → LinkedIn x update i n z (link x rank0 i update n z)
unfolding link forward get_or
link-LinkedIn x rank0 i update zero z room tall levels = record {
  heights = λ b. refl;
  below = λ b j lt. refl;
  above = λ b j le. refl;
  within = λ k j lt e. absurd (omega (arith, lt));
}
link-LinkedIn x rank0 i [] (suc n) z room tall levels = absurd (omega (arith, room))
link-LinkedIn x rank0 i ((rank, u) ∷ update) (suc n) z room tall levels =
    let l = level_at z u i in
    let past = sub_ul rank0 rank in
    let l₁ : Level = record { forward = l.forward; span = sub_ul l.span past } in
    let l₂ : Level = record { forward = some x; span = past + 1 } in
    let z₁ = put_level x i l₁ z in
    let z₂ = put_level u i l₂ z₁ in
    let (high, apart_u) = levels zero i (omega arith) (omega arith) in
    let f₁ = λ (b : Address) (j : ℕ). put_level-forward x i l₁ z b j (omega (arith, tall)) in
    let high₁ : i < height z₁ u = omega (arith, put_level-height x i l₁ z u, high) in
    let f₂ = λ (b : Address) (j : ℕ). put_level-forward u i l₂ z₁ b j high₁ in
    let hs = λ (b : Address). put_level-height u i l₂ z₁ b ∙ put_level-height x i l₁ z b in
    let self : (b : ℕ) → (b == b) ≡ true = λ b. ground arith in
    let here : Behind x u i z z₂ = record {
      to_new = f₂ u i ∙ rw (self u, self i) refl;
      from_new = f₂ x i ∙ rw apart_u (f₁ x i ∙ rw (self x, self i) refl);
      others = λ b n m. f₂ b i ∙ rw n (f₁ b i ∙ rw m refl);
    } in
    let apart : (b : Address) (j : ℕ) → (j == i) ≡ false → forward z₂ b j ≡ forward z b j = λ b j n.
      f₂ b j
      ∙ and_false (b == u) (j == i) n (some x) (forward z₁ b j)
      ∙ f₁ b j
      ∙ and_false (b == x) (j == i) n l.forward (forward z b j) in
    link_step z z₂ _ x u rank update i n hs here apart (
      link-LinkedIn x rank0 (i + 1) update n z₂ (omega (arith, room)) (omega (arith, hs x, tall))
        (λ k j lt e.
          let (high', other) = levels (suc k) j (omega (arith, lt)) (omega (arith, e)) in
          (omega (arith, high', hs (at_level update k)), other)))

-- The pointers of one level once `x` is passed over by `u`, if `u` led to it.
pub record Passed (x u : Address) (j : ℕ) (z z' : Skiplist) : Type 0 where
  pub past :
      forward z' u j ≡ (if same_address (forward z u j) x then forward z x j else forward z u j)
  pub others : (b : Address) → (b == u) ≡ false → forward z' b j ≡ forward z b j

pub record Unlinked (x : Address) (update : List (ℕ × Address)) (i : ℕ) (z z' : Skiplist)
    : Type 0 where
  pub heights : (b : Address) → height z' b ≡ height z b
  pub below : (b : Address) (j : ℕ) → j < i → forward z' b j ≡ forward z b j
  pub above : (b : Address) (j : ℕ) → i + length update ≤ j → forward z' b j ≡ forward z b j
  pub within : (k j : ℕ) → k < length update → j ≡ i + k → Passed x (at_level update k) j z z'

Passed-to :
    {x u : Address} {j : ℕ} (z y z' y' : Skiplist)
    → ((b : Address) → forward y b j ≡ forward z b j)
    → ((b : Address) → forward y' b j ≡ forward z' b j)
    → Passed x u j z z'
    → Passed x u j y y'
Passed-to {x} {u} {j} z y z' y' e e' s = record {
  past = e' u ∙ s.past ∙ rw (← e u, ← e x) refl;
  others = λ b n. e' b ∙ s.others b n ∙ sym (e b);
}

Unlinked-within :
    (z z₂ z' : Skiplist) (x u : Address) (rank : ℕ) (update : List (ℕ × Address)) (i k j : ℕ)
    → Passed x u i z z₂
    → ((b : Address) (j : ℕ) → (j == i) ≡ false → forward z₂ b j ≡ forward z b j)
    → Unlinked x update (i + 1) z₂ z'
    → k < suc (length update)
    → j ≡ i + k
    → Passed x (at_level ((rank, u) ∷ update) k) j z z'
unfolding get_or
Unlinked-within z z₂ z' x u rank update i zero j here apart rest lt e =
    let e' : i ≡ j = omega (arith, e) in
    rw (← e') (Passed-to z z z₂ z' (λ b. refl) (λ b. rest.below b i (omega arith)) here)
Unlinked-within z z₂ z' x u rank update i (suc k) j here apart rest lt e =
    Passed-to z₂ z z' z' (λ b. sym (apart b j (ground (arith, e)))) (λ b. refl)
      (rest.within k j (omega (arith, lt)) (omega (arith, e)))

-- A write of a level, or of one that the node does not have.
put-Passed :
    (x u : Address) (i : ℕ) (l : Level) (z : Skiplist)
    → l.forward ≡ (if same_address (forward z u i) x then forward z x i else forward z u i)
    → Passed x u i z (put_level u i l z)
      × ((b : Address) (j : ℕ) → (j == i) ≡ false → forward (put_level u i l z) b j ≡ forward z b j)
put-Passed x u i l z h = elim (Option-cases (forward z u i)) [
  | inl ends ↦
      let same = put_level-SameLinks u i l z (h ∙ rw ends refl) in
      (
        record { past = same.forwards u i ∙ rw ends refl; others = λ b n. same.forwards b i },
        λ b j n. same.forwards b j,
      )
  | inr (y, there) ↦
      let f = λ (b : Address) (j : ℕ). put_level-forward u i l z b j (forward-lt z u i y there) in
      let self : (b : ℕ) → (b == b) ≡ true = λ b. ground arith in
      (
        record { past = f u i ∙ rw (self u, self i) h; others = λ b n. f b i ∙ rw n refl },
        λ b j n. f b j ∙ and_false (b == u) (j == i) n l.forward (forward z b j),
      )
]

pub unlink-Unlinked :
    (x : Address) (i : ℕ) (update : List (ℕ × Address)) (z : Skiplist)
    → Unlinked x update i z (unlink x i update z)
unfolding unlink forward
unlink-Unlinked x i [] z = record {
  heights = λ b. refl;
  below = λ b j lt. refl;
  above = λ b j le. refl;
  within = λ k j lt e. absurd (omega (arith, lt));
}
unlink-Unlinked x i ((rank, u) ∷ update) z =
    let l = level_at z u i in
    let lx = level_at z x i in
    let l' : Level =
      if same_address l.forward x
      then record { forward = lx.forward; span = sub_ul (l.span + lx.span) 1 }
      else record l { span = sub_ul l.span 1 } in
    let chosen : l'.forward ≡ (if same_address l.forward x then lx.forward else l.forward) =
      elim (Bool-cases (same_address l.forward x)) [
        | inl yes' ↦ rw yes' refl
        | inr no' ↦ rw no' refl
      ] in
    let z₂ = put_level u i l' z in
    let (here, apart) = put-Passed x u i l' z chosen in
    let hs = put_level-height u i l' z in
    let rest = unlink-Unlinked x (i + 1) update z₂ in
    record {
      heights = λ b. rest.heights b ∙ hs b;
      below = λ b j lt. rest.below b j (omega (arith, lt)) ∙ apart b j (ground (arith, lt));
      above = λ b j le. rest.above b j (omega (arith, le)) ∙ apart b j (ground (arith, le));
      within = λ k j lt e. Unlinked-within z z₂ _ x u rank update i k j here apart rest lt e;
    }
