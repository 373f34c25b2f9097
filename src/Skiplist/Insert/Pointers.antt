-- ===== src/Skiplist/Insert/Pointers.antt =====
-- zskiplist.c: what `zsl_insert` does to the pointers and to the heights.
use miniredis.Common.{
  ℕ, ◌+◌, ◌-◌, ◌≤◌, ◌<◌, Bytes, true, false, List, ◌++◌, ◌≡◌, refl, ap, ◌∙◌, arith, if◌then◌else◌,
  ◌==◌, ltb, Bool-cases, inl, inr, length, length-replicate, replicate, get_or, get_or-replicate,
  get_or-append_lt, get_or-append_length, drop,
}
use miniredis.Double.{Double}
use miniredis.Resp.RoundTrip.{All}
use miniredis.Skiplist.{
  Address, Skiplist, header, at_header, zsl_create_node, insert_node, node_at, blank_level,
  put_node, link, widen, put_backward, level_at, update_node,
}
use miniredis.Skiplist.Links.{
  forward, height, SameLinks, SameLinks-then, put_backward-SameLinks, fields-SameLinks,
}
use miniredis.Skiplist.Splice.{at_level, Behind, link-LinkedIn, widen-SameLinks, set_back-SameLinks}
use miniredis.Skiplist.Chain.{tall, last_of, tall-none, All-map}
use miniredis.Skiplist.Search.{Found}
use miniredis.Skiplist.Fields.{link-SameFields, widen-SameFields, set_back-SameFields}

-- The node `x` with its levels, linked behind `update`.
pub record Grows (x : Address) (update : List (ℕ × Address)) (level : ℕ) (z z' : Skiplist)
    : Type 0 where
  pub new_height : height z' x ≡ level
  pub heights : (b : Address) → (b == x) ≡ false → height z' b ≡ height z b
  pub within : (k : ℕ) → k < level → Behind x (at_level update k) k z z'
  pub above : (b : Address) (k : ℕ) → (b == x) ≡ false → level ≤ k → forward z' b k ≡ forward z b k

pub Grows-from :
    {x : Address} {update : List (ℕ × Address)} {level : ℕ} (y z z' : Skiplist)
    → SameLinks y z
    → Grows x update level z z'
    → Grows x update level y z'
Grows-from {x} {update} y z z' e g = record {
  new_height = g.new_height;
  heights = λ b n. g.heights b n ∙ e.heights b;
  within = λ k lt.
      let s = g.within k lt in
      record {
        to_new = s.to_new;
        from_new = s.from_new ∙ e.forwards (at_level update k) k;
        others = λ b n m. s.others b n m ∙ e.forwards b k;
      };
  above = λ b k n le. g.above b k n le ∙ e.forwards b k;
}

create-node_at :
    (level : ℕ) (s : Double) (m : Bytes) (z : Skiplist) (b : Address)
    → (b == z.next_address) ≡ false
    → node_at (zsl_create_node level s m z) b ≡ node_at z b
unfolding node_at zsl_create_node put_node
create-node_at level s m z b n = rw n refl

create-forward :
    (level : ℕ) (s : Double) (m : Bytes) (z : Skiplist) (b : Address) (j : ℕ)
    → (b == z.next_address) ≡ false
    → forward (zsl_create_node level s m z) b j ≡ forward z b j
unfolding forward level_at
create-forward level s m z b j n =
    ap (λ q. (get_or q.level j blank_level).forward) (create-node_at level s m z b n)

create-height :
    (level : ℕ) (s : Double) (m : Bytes) (z : Skiplist) (b : Address)
    → height (zsl_create_node level s m z) b ≡ (if b == z.next_address then level else height z b)
unfolding height node_at zsl_create_node put_node
create-height level s m z b = elim (Bool-cases (b == z.next_address)) [
  | inl same ↦ rw same (length-replicate level blank_level)
  | inr other ↦ rw other refl
]

pub insert_node-Grows :
    (level : ℕ) (update : List (ℕ × Address)) (s : Double) (m : Bytes) (z : Skiplist)
    → level ≤ length update
    → ((k : ℕ)
        → k < level
        → (k < height z (at_level update k)) × ((z.next_address == at_level update k) ≡ false))
    → Grows z.next_address update level z (insert_node level update s m z)
unfolding insert_node
insert_node-Grows level update s m z room levels =
    let x = z.next_address in
    let self : (x == x) ≡ true = ground arith in
    let z₁ = zsl_create_node level s m z in
    let (rank0, u0) = get_or update 0 at_header in
    let z₂ = link x rank0 0 update level z₁ in
    let z₃ = widen level (drop level update) z₂ in
    let flip : (a b : ℕ) → (a == b) ≡ false → (b == a) ≡ false = λ a b n. ground arith in
    let h₁ : (b : Address) → (b == x) ≡ false → height z₁ b ≡ height z b =
      λ b n. create-height level s m z b ∙ rw n refl in
    let hx : height z₁ x ≡ level = create-height level s m z x ∙ rw self refl in
    let l = link-LinkedIn x rank0 0 update level z₁ room (omega (arith, hx)) (λ k j lt e.
      let e' : k ≡ j = omega (arith, e) in
      let (high, n) = levels k lt in
      let same : height z₁ (at_level update k) ≡ height z (at_level update k) =
        h₁ (at_level update k) (flip x (at_level update k) n) in
      (omega (arith, e', high, same), n)) in
    let r = SameLinks-then (widen-SameLinks level (drop level update) z₂) (
      SameLinks-then (put_backward-SameLinks x _ z₃)
        (SameLinks-then (set_back-SameLinks _ x _) (fields-SameLinks _ _ _ _))) in
    let f₁ = λ (b : Address) (j : ℕ) (n : (b == x) ≡ false). create-forward level s m z b j n in
    record {
      new_height = r.heights x ∙ l.heights x ∙ hx;
      heights = λ b n. r.heights b ∙ l.heights b ∙ h₁ b n;
      within = λ k lt.
          let b' = l.within k k lt (omega arith) in
          let u = at_level update k in
          record {
            to_new = r.forwards u k ∙ b'.to_new;
            from_new = r.forwards x k ∙ b'.from_new ∙ f₁ u k (flip x u (levels k lt).1);
            others = λ b n o. r.forwards b k ∙ b'.others b n o ∙ f₁ b k o;
          };
      above = λ b k n le. r.forwards b k ∙ l.above b k (omega (arith, le)) ∙ f₁ b k n;
    }

pub insert_node-fields :
    (level : ℕ) (update : List (ℕ × Address)) (s : Double) (m : Bytes) (z : Skiplist)
    → ((insert_node level update s m z).level ≡ z.level)
      × ((insert_node level update s m z).length ≡ z.length + 1)
unfolding insert_node put_backward update_node zsl_create_node put_node
insert_node-fields level update s m z =
    let x = z.next_address in
    let z₁ = zsl_create_node level s m z in
    let r0 = (get_or update 0 at_header).0 in
    let l = link-SameFields x r0 0 update level z₁ in
    let z₂ = link x r0 0 update level z₁ in
    let w = widen-SameFields level (drop level update) z₂ in
    let b = set_back-SameFields _ x _ in (b.0 ∙ w.0 ∙ l.0, ap (λ n. n + 1) (b.1 ∙ w.1 ∙ l.1))

-- The place of each level: where the search left it, and the header above the highest so far.
pub update_places :
    (z : Skiplist) (front : List Address) (n : ℕ) (found : List (ℕ × Address)) (k : ℕ)
    → All (λ a. height z a ≤ z.level) front
    → Found z front z.level found
    → at_level (found ++ replicate n at_header) k ≡ last_of header (tall (height z) k front)
update_places z front n found k low f = elim (Bool-cases (ltb k z.level)) [
  | inl lt ↦
      let lt' : k < z.level = ground (arith, lt) in
      ap (λ q. q.1)
        (get_or-append_lt found (replicate n at_header) k at_header (omega (arith, lt', f.size)))
      ∙ f.places k lt'
  | inr ge ↦
      let ge' : z.level ≤ k = ground (arith, ge) in
      let e : k ≡ length found + (k - length found) = omega (arith, ge', f.size) in
      ap (at_level (found ++ replicate n at_header)) e
      ∙ ap (λ q. q.1)
          (get_or-append_length found (replicate n at_header) (k - length found) at_header
            ∙ get_or-replicate n (k - length found) at_header)
      ∙ unfold last_of in
        rw (tall-none (height z) k front (All-map front (λ a l. omega (arith, l, ge')) low)) refl
]
