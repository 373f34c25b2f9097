-- ===== src/Skiplist.antt =====
-- zskiplist.c, zskiplist.h: the skip list, as nodes at addresses. A node that was freed is no longer
-- there; a read of an address without a node, or of a level that a node does not have, would be
-- undefined, and yields the blank here.
pub mod Entries
pub mod Links
pub mod Splice
pub mod Chain
pub mod Search
pub mod Order
pub mod Fields
pub mod Valid
pub mod Insert
pub mod Delete
pub mod Keys
use miniredis.Common.{
  ℕ, zero, suc, ◌+◌, ◌-◌, ◌^◌, ◌%◌, ◌*◌, Bytes, Bool, true, false, not, ◌&&◌, ◌||◌, Option, none,
  some, List, [], ◌∷◌, ◌++◌, if◌then◌else◌, ◌==◌, ltb, leb, get_or, set, replicate, bytes_eq,
  length, drop,
}
use miniredis.Double.{Double, lt_d, eq_d}

abbrev pub Address : Type 0
Address = ℕ

pub record Level : Type 0 where
  pub forward : Option Address
  pub span : ℕ

pub record Node : Type 0 where
  pub member : Bytes
  pub score : Double
  pub backward : Option Address
  pub level : List Level

-- The nodes, the first address that was not given out, and the fields of `zskiplist`; the header
-- stands at address 0.
pub record Skiplist : Type 0 where
  pub nodes : Address → Option Node
  pub next_address : Address
  pub tail : Option Address
  pub length : ℕ
  pub level : ℕ

abbrev pub header : Address
header = 0

abbrev pub zskiplist_maxlevel : ℕ
zskiplist_maxlevel = 32

abbrev pub blank_level : Level
blank_level = record { forward = none; span = 0 }

abbrev pub blank_node : Node
blank_node = record { member = []; score = 0; backward = none; level = [] }

abbrev pub or_blank : Option Node → Node
or_blank none = blank_node
or_blank (some n) = n

unfoldable pub node_at : Skiplist → Address → Node
node_at z a = or_blank (z.nodes a)

unfoldable pub level_at : Skiplist → Address → ℕ → Level
unfolding node_at
level_at z a i = get_or (node_at z a).level i blank_level

unfoldable pub put_node : Address → Option Node → Skiplist → Skiplist
put_node a n z = record z { nodes = λ b. if b == a then n else z.nodes b }

-- A write through a pointer; one to an address without a node does nothing.
pub on_node : (Node → Node) → Option Node → Option Node
on_node f none = none
on_node f (some n) = some (f n)

unfoldable pub update_node : Address → (Node → Node) → Skiplist → Skiplist
unfolding on_node
update_node a f z = put_node a (on_node f (z.nodes a)) z

-- `a->level[i] = l`, and `a->backward = b`.
unfoldable pub put_level : Address → ℕ → Level → Skiplist → Skiplist
put_level a i l z = update_node a (λ n. record n { level = set n.level i l }) z

unfoldable pub put_backward : Address → Option Address → Skiplist → Skiplist
put_backward a b z = update_node a (λ n. record n { backward = b }) z

-- `unsigned long` wraps around.
unfoldable pub sub_ul : ℕ → ℕ → ℕ
sub_ul a b = (a + (2 ^ 64 - b)) % 2 ^ 64

-- `member_cmp(a, b) < 0`: `memcmp` of the common length, then the shorter one.
unfoldable pub member_lt : Bytes → Bytes → Bool
member_lt [] [] = false
member_lt [] (b ∷ bs) = true
member_lt (a ∷ as') [] = false
member_lt (a ∷ as') (b ∷ bs) = let rest = member_lt as' bs in if a == b then rest else ltb a b

unfoldable pub zsl_create : Skiplist
zsl_create = record {
  nodes = λ a.
      if a == header
      then some (record blank_node { level = replicate zskiplist_maxlevel blank_level })
      else none;
  next_address = 1;
  tail = none;
  length = 0;
  level = 1;
}

-- `rand() & 0xFFFF` below a quarter of 0xFFFF, cut to an integer; the level, and the draws left.
unfoldable pub random_level : ℕ → ℕ → (ℕ → ℕ) → ℕ × (ℕ → ℕ)
random_level zero level rand = (level, rand)
random_level (suc left) level rand =
    let higher = random_level left (level + 1) (λ i. rand (i + 1)) in
    if ltb (rand 0 % 2 ^ 16) 16383 then higher else (level, λ i. rand (i + 1))

unfoldable pub zsl_random_level : (ℕ → ℕ) → ℕ × (ℕ → ℕ)
zsl_random_level rand = random_level (zskiplist_maxlevel - 1) 1 rand

-- The inner loop of the searches at level `i`: from `x` on while the next node passes the test, with
-- the rank; every round passes a node, and there are no more than the addresses given out.
unfoldable pub walk : ℕ → Skiplist → (ℕ → Node → Bool) → ℕ → ℕ → Address → ℕ × Address
walk zero z test i rank x = (rank, x)
walk (suc fuel) z test i rank x =
    let l = level_at z x i in
    elim l.forward [
      | none ↦ (rank, x)
      | some y ↦
          let rest = walk fuel z test i (rank + l.span) y in
          if test (rank + l.span) (node_at z y) then rest else (rank, x)
    ]

-- The outer loop from level `i - 1` down to 0: where each level was left, level 0 first.
unfoldable pub descend : Skiplist → (ℕ → Node → Bool) → ℕ → ℕ → Address → List (ℕ × Address)
descend z test zero rank x = []
descend z test (suc i) rank x =
    let r = walk z.next_address z test i rank x in descend z test i r.0 r.1 ++ r ∷ []

-- A node that stands before the one with `score` and `member`.
unfoldable pub before : Double → Bytes → ℕ → Node → Bool
before score member rank n = lt_d n.score score || (eq_d n.score score && member_lt n.member member)

unfoldable pub search : Skiplist → (ℕ → Node → Bool) → List (ℕ × Address)
search z test = descend z test z.level 0 header

abbrev pub at_header : ℕ × Address
at_header = (0, header)

-- The levels above the highest so far start at the header.
pub raise : ℕ → ℕ → Skiplist → Skiplist
raise i zero z = z
raise i (suc n) z =
    raise (i + 1) n (put_level header i (record (level_at z header i) { span = z.length }) z)

-- The links of the new node `x` at its levels.
pub link : Address → ℕ → ℕ → List (ℕ × Address) → ℕ → Skiplist → Skiplist
link x rank0 i update zero z = z
link x rank0 i [] (suc n) z = z
link x rank0 i ((rank, u) ∷ update) (suc n) z =
    let l = level_at z u i in
    let past = sub_ul rank0 rank in
    let z₁ = put_level x i (record { forward = l.forward; span = sub_ul l.span past }) z in
    let z₂ = put_level u i (record { forward = some x; span = past + 1 }) z₁ in
    link x rank0 (i + 1) update n z₂

-- `span++` at the levels above the new node.
pub widen : ℕ → List (ℕ × Address) → Skiplist → Skiplist
widen i [] z = z
widen i ((rank, u) ∷ update) z =
    let l = level_at z u i in
    widen (i + 1) update (put_level u i (record l { span = l.span + 1 }) z)

-- The node behind `x`, or the tail, points back.
pub set_back : Option Address → Address → Skiplist → Skiplist
set_back none x z = record z { tail = some x }
set_back (some y) x z = put_backward y (some x) z

-- `if (level > zsl->level)`
unfoldable pub raise_level : ℕ → Skiplist → Skiplist
unfolding raise
raise_level level z =
    let raised = raise z.level (level - z.level) z in
    if ltb z.level level then record raised { level = level } else z

-- The node at the next address.
unfoldable pub zsl_create_node : ℕ → Double → Bytes → Skiplist → Skiplist
zsl_create_node level score member z =
    let node : Node = record {
      member = member;
      score = score;
      backward = none;
      level = replicate level blank_level;
    } in
    put_node z.next_address (some node) (record z { next_address = z.next_address + 1 })

-- The new node, linked behind `update`.
unfoldable pub insert_node : ℕ → List (ℕ × Address) → Double → Bytes → Skiplist → Skiplist
unfolding link widen set_back
insert_node level update score member z =
    let x = z.next_address in
    let z₁ = zsl_create_node level score member z in
    let (rank0, u0) = get_or update 0 at_header in
    let z₂ = link x rank0 0 update level z₁ in
    let z₃ = widen level (drop level update) z₂ in
    let z₄ = put_backward x (if u0 == header then none else some u0) z₃ in
    let z₅ = set_back (level_at z₄ x 0).forward x z₄ in record z₅ { length = z₅.length + 1 }

unfoldable pub zsl_insert : (ℕ → ℕ) → Double → Bytes → Skiplist → Address × Skiplist × (ℕ → ℕ)
zsl_insert rand score member z =
    let found = search z (before score member) in
    let (level, rand') = zsl_random_level rand in
    let update = found ++ replicate (level - z.level) at_header in
    let z₀ = raise_level level z in
    (z₀.next_address, insert_node level update score member z₀, rand')

abbrev same_address : Option Address → Address → Bool
same_address none x = false
same_address (some y) x = y == x

pub unlink : Address → ℕ → List (ℕ × Address) → Skiplist → Skiplist
unlink x i [] z = z
unlink x i ((rank, u) ∷ update) z =
    let l = level_at z u i in
    let lx = level_at z x i in
    let l' : Level =
      if same_address l.forward x
      then record { forward = lx.forward; span = sub_ul (l.span + lx.span) 1 }
      else record l { span = sub_ul l.span 1 } in
    unlink x (i + 1) update (put_level u i l' z)

pub unlink_back : Option Address → Option Address → Skiplist → Skiplist
unlink_back none back z = record z { tail = back }
unlink_back (some y) back z = put_backward y back z

-- `while (level > 1 && header->level[level - 1].forward == NULL) level--`
pub lower : ℕ → Skiplist → ℕ
lower zero z = zero
lower (suc zero) z = suc zero
lower (suc (suc n)) z =
    let rest = lower (suc n) z in
    elim (level_at z header (suc n)).forward [ none ↦ rest | some y ↦ suc (suc n) ]

unfoldable pub zsl_delete_node : Address → List (ℕ × Address) → Skiplist → Skiplist
unfolding unlink unlink_back lower
zsl_delete_node x update z =
    let z₁ = unlink x 0 update z in
    let n = node_at z₁ x in
    let z₂ = unlink_back (level_at z₁ x 0).forward n.backward z₁ in
    record z₂ { level = lower z₂.level z₂; length = sub_ul z₂.length 1 }

-- `x && x->score == score && x->mlen == mlen && memcmp(…) == 0`
unfoldable pub is_node : Skiplist → Double → Bytes → Option Address → Bool
is_node z score member none = false
is_node z score member (some x) =
    let n = node_at z x in eq_d n.score score && bytes_eq n.member member

pub delete_found : Bool → Option Address → List (ℕ × Address) → Skiplist → Skiplist
delete_found true (some x) update z = put_node x none (zsl_delete_node x update z)
delete_found _ _ update z = z

-- The result says whether the node was there.
unfoldable pub zsl_delete : Double → Bytes → Skiplist → Bool × Skiplist
unfolding delete_found
zsl_delete score member z =
    let update = search z (before score member) in
    let x = (level_at z (get_or update 0 at_header).1 0).forward in
    let found = is_node z score member x in (found, delete_found found x update z)

unfoldable pub zsl_get_rank : Skiplist → Double → Bytes → ℕ
zsl_get_rank z score member =
    let (rank, u) = get_or (search z (before score member)) 0 at_header in
    if is_node z score member (level_at z u 0).forward then rank + 1 else 0

-- The walk of `zsl_get_element_by_rank`; the answer is the first place, from the highest level down,
-- whose rank is the one asked for.
first_of_rank : ℕ → List (ℕ × Address) → Option Address
first_of_rank rank [] = none
first_of_rank rank ((r, x) ∷ found) = elim (first_of_rank rank found) [
  | some y ↦ some y
  | none ↦ if r == rank then some x else none
]

unfoldable pub zsl_get_element_by_rank : Skiplist → ℕ → Option Address
unfolding first_of_rank
zsl_get_element_by_rank z zero = none
zsl_get_element_by_rank z (suc r) =
    first_of_rank (suc r) (search z (λ traversed n. leb traversed (suc r)))

unfoldable pub zsl_first_in_score_range : Skiplist → Double → Bool → Option Address
zsl_first_in_score_range z min minex =
    let (rank, x) =
      get_or (search z (λ r n. lt_d n.score min || (minex && eq_d n.score min))) 0 at_header in
    (level_at z x 0).forward

unfoldable pub zsl_last_in_score_range : Skiplist → Double → Bool → Option Address
zsl_last_in_score_range z max maxex =
    let (rank, x) =
      get_or (search z (λ r n. lt_d n.score max || (not maxex && eq_d n.score max))) 0 at_header in
    if x == header then none else some x

-- The nodes behind `x` at level 0, `for (n = …->level[0].forward; n; n = n->level[0].forward)`.
unfoldable pub nodes_from : ℕ → Skiplist → Option Address → List Node
nodes_from zero z x = []
nodes_from (suc fuel) z none = []
nodes_from (suc fuel) z (some x) = node_at z x ∷ nodes_from fuel z (level_at z x 0).forward

unfoldable pub zsl_nodes : Skiplist → List Node
zsl_nodes z = nodes_from z.next_address z (level_at z header 0).forward
