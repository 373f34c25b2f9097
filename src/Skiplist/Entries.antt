-- ===== src/Skiplist/Entries.antt =====
-- zskiplist.c: the members and scores at the addresses. Inserting adds one at a new address, deleting
-- drops the one that it looked for, and the changes of links leave them.
use miniredis.Common.{
  ℕ, zero, suc, ◌+◌, Bytes, Bool, true, false, ◌-◌, ltb, ◌&&◌, Option, none, some, List, [], ◌∷◌,
  ◌≡◌, refl, ap, ◌∙◌, if◌then◌else◌, ◌==◌, bytes_eq, Bool-cases, inl, arith, ap₂, get_or, drop, inr,
}
use miniredis.Double.{Double, eq_d}
use miniredis.Skiplist.{
  at_header, Address, Node, Level, Skiplist, put_node, put_level, put_backward, update_node,
  on_node, raise, link, widen, set_back, zsl_insert, unlink, unlink_back, zsl_random_level,
  raise_level, insert_node, zsl_create_node, or_blank, zsl_delete_node, zsl_delete, delete_found,
  is_node, node_at, header,
}

-- The member and the score of a node.
abbrev pub entry_of : Option Node → Option (Bytes × Double)
entry_of none = none
entry_of (some n) = some (n.member, n.score)

unfoldable pub entry : Skiplist → Address → Option (Bytes × Double)
entry z a = entry_of (z.nodes a)

-- A change of links.
pub record Relinks (z z' : Skiplist) : Type 0 where
  pub entries : (a : Address) → entry z' a ≡ entry z a
  pub next : z'.next_address ≡ z.next_address

Relinks-then : {x y z : Skiplist} → Relinks x y → Relinks y z → Relinks x z
Relinks-then r s = record { entries = λ a. s.entries a ∙ r.entries a; next = s.next ∙ r.next }

entry_of-on_node :
    (f : Node → Node) (n : Option Node)
    → ((n : Node) → entry_of (some (f n)) ≡ entry_of (some n))
    → entry_of (on_node f n) ≡ entry_of n
unfolding on_node
entry_of-on_node f none h = refl
entry_of-on_node f (some n) h = h n

update_node-Relinks :
    (a : Address) (f : Node → Node) (z : Skiplist)
    → ((n : Node) → entry_of (some (f n)) ≡ entry_of (some n))
    → Relinks z (update_node a f z)
unfolding update_node put_node entry
update_node-Relinks a f z h = record {
  entries = λ b. elim (Bool-cases (b == a)) [
    | inl same ↦
        let here : b ≡ a = ground (arith, same) in
        rw (same, here) (entry_of-on_node f (z.nodes a) h)
    | inr other ↦ rw other refl
  ];
  next = refl;
}

put_level-Relinks : (a : Address) (i : ℕ) (l : Level) (z : Skiplist) → Relinks z (put_level a i l z)
unfolding put_level
put_level-Relinks a i l z = update_node-Relinks a _ z (λ n. refl)

put_backward-Relinks :
    (a : Address) (b : Option Address) (z : Skiplist) → Relinks z (put_backward a b z)
unfolding put_backward
put_backward-Relinks a b z = update_node-Relinks a _ z (λ n. refl)

-- Fields of the list itself are no entries.
fields-Relinks :
    (z : Skiplist) (tail : Option Address) (length level : ℕ)
    → Relinks z (record z { tail = tail; length = length; level = level })
unfolding entry
fields-Relinks z tail length level = record { entries = λ a. refl; next = refl }

no_change : (z : Skiplist) → Relinks z z
no_change z = record { entries = λ a. refl; next = refl }

raise-Relinks : (i n : ℕ) (z : Skiplist) → Relinks z (raise i n z)
unfolding raise
raise-Relinks i zero z = no_change z
raise-Relinks i (suc n) z =
    Relinks-then (put_level-Relinks header i _ z) (raise-Relinks (i + 1) n _)

pub raise_level-Relinks : (level : ℕ) (z : Skiplist) → Relinks z (raise_level level z)
unfolding raise_level
raise_level-Relinks level z = elim (Bool-cases (ltb z.level level)) [
  | inl higher ↦
      rw higher (Relinks-then (raise-Relinks z.level (level - z.level) z) (fields-Relinks _ _ _ _))
  | inr low ↦ rw low (no_change z)
]

link-Relinks :
    (x : Address) (rank0 i : ℕ) (update : List (ℕ × Address)) (n : ℕ) (z : Skiplist)
    → Relinks z (link x rank0 i update n z)
unfolding link
link-Relinks x rank0 i update zero z = no_change z
link-Relinks x rank0 i [] (suc n) z = no_change z
link-Relinks x rank0 i ((rank, u) ∷ update) (suc n) z =
    Relinks-then (put_level-Relinks x i _ z)
      (Relinks-then (put_level-Relinks u i _ _) (link-Relinks x rank0 (i + 1) update n _))

widen-Relinks : (i : ℕ) (update : List (ℕ × Address)) (z : Skiplist) → Relinks z (widen i update z)
unfolding widen
widen-Relinks i [] z = no_change z
widen-Relinks i ((rank, u) ∷ update) z =
    Relinks-then (put_level-Relinks u i _ z) (widen-Relinks (i + 1) update _)

set_back-Relinks : (y : Option Address) (x : Address) (z : Skiplist) → Relinks z (set_back y x z)
unfolding set_back
set_back-Relinks none x z = fields-Relinks z _ _ _
set_back-Relinks (some y) x z = put_backward-Relinks y _ z

unlink-Relinks :
    (x : Address) (i : ℕ) (update : List (ℕ × Address)) (z : Skiplist)
    → Relinks z (unlink x i update z)
unfolding unlink
unlink-Relinks x i [] z = no_change z
unlink-Relinks x i ((rank, u) ∷ update) z =
    Relinks-then (put_level-Relinks u i _ z) (unlink-Relinks x (i + 1) update _)

unlink_back-Relinks : (y back : Option Address) (z : Skiplist) → Relinks z (unlink_back y back z)
unfolding unlink_back
unlink_back-Relinks none back z = fields-Relinks z _ _ _
unlink_back-Relinks (some y) back z = put_backward-Relinks y back z

pub zsl_delete_node-Relinks :
    (x : Address) (update : List (ℕ × Address)) (z : Skiplist)
    → Relinks z (zsl_delete_node x update z)
unfolding zsl_delete_node
zsl_delete_node-Relinks x update z =
    Relinks-then (unlink-Relinks x 0 update z)
      (Relinks-then (unlink_back-Relinks _ _ _) (fields-Relinks _ _ _ _))

pub put_node-entry :
    (a : Address) (n : Option Node) (z : Skiplist) (b : Address)
    → entry (put_node a n z) b ≡ (if b == a then entry_of n else entry z b)
unfolding put_node entry
put_node-entry a n z b = elim (Bool-cases (b == a)) [
  | inl same ↦ rw same refl
  | inr other ↦ rw other refl
]

-- What `zsl_insert` does to the entries: it returns an address that was not given out, adds the
-- member with the score there, and leaves the rest.
pub record Inserts (score : Double) (member : Bytes) (z : Skiplist) (z' : Skiplist) : Type 0 where
  pub next : z'.next_address ≡ z.next_address + 1
  pub entries :
      (b : Address) → entry z' b ≡ (if b == z.next_address then some (member, score) else entry z b)

zsl_create_node-Inserts :
    (level : ℕ) (score : Double) (member : Bytes) (z : Skiplist)
    → Inserts score member z (zsl_create_node level score member z)
unfolding zsl_create_node entry
zsl_create_node-Inserts level score member z = record {
  next = unfold put_node in refl;
  entries = λ b. put_node-entry z.next_address _ _ b;
}

Inserts-then :
    {score : Double} {member : Bytes} {x y z : Skiplist}
    → Inserts score member x y
    → Relinks y z
    → Inserts score member x z
Inserts-then i r = record { next = r.next ∙ i.next; entries = λ b. r.entries b ∙ i.entries b }

Relinks-then_insert :
    {score : Double} {member : Bytes} {x y z : Skiplist}
    → Relinks x y
    → Inserts score member y z
    → Inserts score member x z
Relinks-then_insert {score} {member} r i = record {
  next = i.next ∙ ap (λ n. n + 1) r.next;
  entries = λ b.
      i.entries b ∙ ap₂ (λ n e. if b == n then some (member, score) else e) r.next (r.entries b);
}

insert_node-Inserts :
    (level : ℕ) (update : List (ℕ × Address)) (score : Double) (member : Bytes) (z : Skiplist)
    → Inserts score member z (insert_node level update score member z)
unfolding insert_node
insert_node-Inserts level update score member z =
    Inserts-then (zsl_create_node-Inserts level score member z) (
      Relinks-then (link-Relinks z.next_address (get_or update 0 at_header).0 0 update level _) (
        Relinks-then (widen-Relinks level (drop level update) _) (
          Relinks-then (put_backward-Relinks z.next_address _ _)
            (Relinks-then (set_back-Relinks _ z.next_address _) (fields-Relinks _ _ _ _)))))

pub zsl_insert-Inserts :
    (rand : ℕ → ℕ) (score : Double) (member : Bytes) (z : Skiplist)
    → let r = zsl_insert rand score member z in (r.0 ≡ z.next_address) × Inserts score member z r.1
unfolding zsl_insert
zsl_insert-Inserts rand score member z =
    let raised = raise_level-Relinks (zsl_random_level rand).0 z in
    (
      raised.next,
      Relinks-then_insert raised (
          insert_node-Inserts (zsl_random_level rand).0 _ score member
            (raise_level (zsl_random_level rand).0 z)),
    )

entry_of-or_blank :
    (n : Option Node) (q : Bytes) (s : Double)
    → entry_of n ≡ some (q, s)
    → ((or_blank n).member ≡ q) × ((or_blank n).score ≡ s)
entry_of-or_blank none q s e = absurd cc
entry_of-or_blank (some n) q s e =
    let h : ◌≡◌ {A = Bytes × Double} (n.member, n.score) (q, s) = cc in
    (ap (λ p. p.0) h, ap (λ p. p.1) h)

pub entry-node_at :
    (z : Skiplist) (b : Address) (q : Bytes) (s : Double)
    → entry z b ≡ some (q, s)
    → ((node_at z b).member ≡ q) × ((node_at z b).score ≡ s)
unfolding entry node_at
entry-node_at z b q s e = entry_of-or_blank (z.nodes b) q s e

-- A node of `member` is not at an address of another member.
is_node-other :
    (z : Skiplist) (score : Double) (member : Bytes) (x b : Address) (q : Bytes) (s : Double)
    → is_node z score member (some x) ≡ true
    → entry z b ≡ some (q, s)
    → bytes_eq q member ≡ false
    → (b == x) ≡ false
unfolding is_node
is_node-other z score member x b q s found e other = elim (Bool-cases (b == x)) [
  | inr apart ↦ apart
  | inl same ↦
      let here : x ≡ b = ground (arith, same) in
      let m : (node_at z x).member ≡ q = rw here (entry-node_at z b q s e).0 in
      let not' : bytes_eq (node_at z x).member member ≡ false = rw m other in
      let h : (eq_d (node_at z x).score score && false) ≡ true = rw not' at found in
      absurd (ground (arith, h))
]

delete_found-others :
    (z : Skiplist) (score : Double) (member : Bytes) (x : Option Address)
    (update : List (ℕ × Address)) (b : Address) (q : Bytes) (s : Double)
    → entry z b ≡ some (q, s)
    → bytes_eq q member ≡ false
    → entry (delete_found (is_node z score member x) x update z) b ≡ some (q, s)
unfolding delete_found
delete_found-others z score member none update b q s e other = unfold is_node in e
delete_found-others z score member (some x) update b q s e other =
    elim (Bool-cases (is_node z score member (some x))) [
      | inr lost ↦ rw lost e
      | inl found ↦ rw (found) (
          put_node-entry x none (zsl_delete_node x update z) b
          ∙ rw (is_node-other z score member x b q s found e other)
              ((zsl_delete_node-Relinks x update z).entries b ∙ e))
    ]

-- What `zsl_delete` leaves: the entries of other members.
pub zsl_delete-others :
    (score : Double) (member : Bytes) (z : Skiplist) (b : Address) (q : Bytes) (s : Double)
    → entry z b ≡ some (q, s)
    → bytes_eq q member ≡ false
    → entry (zsl_delete score member z).1 b ≡ some (q, s)
unfolding zsl_delete
zsl_delete-others score member z b q s e other =
    delete_found-others z score member _ _ b q s e other

delete_found-next :
    (found : Bool) (x : Option Address) (update : List (ℕ × Address)) (z : Skiplist)
    → (delete_found found x update z).next_address ≡ z.next_address
unfolding delete_found put_node
delete_found-next true none update z = refl
delete_found-next true (some x) update z = (zsl_delete_node-Relinks x update z).next
delete_found-next false none update z = refl
delete_found-next false (some x) update z = refl

pub zsl_delete-next :
    (score : Double) (member : Bytes) (z : Skiplist)
    → (zsl_delete score member z).1.next_address ≡ z.next_address
unfolding zsl_delete
zsl_delete-next score member z = delete_found-next _ _ _ z
