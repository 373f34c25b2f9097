-- ===== src/Skiplist/Keys.antt =====
-- zskiplist.c: the scores and members in the order of level 0, which is what a range reads.
use miniredis.Common.{
  ℕ, zero, suc, ◌≤◌, Bytes, true, false, List, [], ◌∷◌, ◌++◌, ◌≡◌, refl, sym, ap, ap₂, ◌∙◌, arith,
  if◌then◌else◌, ltb, length, bytes_eq,
}
use miniredis.Double.{Double}
use miniredis.Resp.RoundTrip.{All}
use miniredis.Skiplist.{Address, Node, Skiplist, header, node_at, nodes_from, zsl_nodes}
use miniredis.Skiplist.Links.{forward, height}
use miniredis.Skiplist.Chain.{Linked, tall, All-map}
use miniredis.Skiplist.Search.{Linked-to}
use miniredis.Skiplist.Order.{Key, prec}
use miniredis.Skiplist.Valid.{SkipValid, key}
use miniredis.Skiplist.Insert.Whole.{Inserted}
use miniredis.Skiplist.Delete.{Sorted-parts}
use miniredis.Skiplist.Delete.Whole.{Deleted}

abbrev keys_of : List Node → List Key
keys_of [] = []
keys_of (n ∷ ns) = (n.score, n.member) ∷ keys_of ns

-- The scores and members from the first node on.
unfoldable pub zsl_keys : Skiplist → List Key
zsl_keys z = keys_of (zsl_nodes z)

abbrev pub map_key : (Address → Key) → List Address → List Key
map_key f [] = []
map_key f (a ∷ as') = f a ∷ map_key f as'

-- A key where it belongs, and the keys of the other members.
abbrev pub insert_key : Key → List Key → List Key
insert_key t [] = t ∷ []
insert_key t (k ∷ ks) = if prec k t then k ∷ insert_key t ks else t ∷ k ∷ ks

abbrev pub without : Bytes → List Key → List Key
without m [] = []
without m (k ∷ ks) = if bytes_eq k.1 m then without m ks else k ∷ without m ks

pub length-map_key : (f : Address → Key) (as' : List Address) → length (map_key f as') ≡ length as'
length-map_key f [] = refl
length-map_key f (a ∷ as') = ap suc (length-map_key f as')

map_key-same :
    (f f' : Address → Key) (as' : List Address)
    → All (λ a. f' a ≡ f a) as'
    → map_key f' as' ≡ map_key f as'
map_key-same f f' [] e = refl
map_key-same f f' (a ∷ as') (e, es) = ap₂ (λ k ks. k ∷ ks) e (map_key-same f f' as' es)

tall-all : (h : Address → ℕ) (as' : List Address) → All (λ a. 1 ≤ h a) as' → tall h 0 as' ≡ as'
unfolding tall
tall-all h [] k = refl
tall-all h (a ∷ as') (k, ks) =
    let high : ltb 0 (h a) ≡ true = ground (arith, k) in
    rw high (ap (λ t. a ∷ t) (tall-all h as' ks))

nodes_from-keys :
    (fuel : ℕ) (z : Skiplist) (a : Address) (as' : List Address)
    → Linked z 0 a as'
    → length as' ≤ fuel
    → keys_of (nodes_from fuel z (forward z a 0)) ≡ map_key (key z) as'
unfolding nodes_from forward key
nodes_from-keys zero z a [] l room = refl
nodes_from-keys zero z a (b ∷ bs) l room = absurd (omega (arith, room))
nodes_from-keys (suc fuel) z a [] l room = rw l refl
nodes_from-keys (suc fuel) z a (b ∷ bs) l room =
    let next = l.0 in
    let rest = nodes_from-keys fuel z b bs l.1 (omega (arith, room)) in
    rw next (ap (λ ks. ((node_at z b).score, (node_at z b).member) ∷ ks) rest)

pub zsl_keys_lem :
    (z : Skiplist) (as' : List Address) → SkipValid z as' → zsl_keys z ≡ map_key (key z) as'
unfolding zsl_keys zsl_nodes
zsl_keys_lem z as' v =
    let all : tall (height z) 0 as' ≡ as' =
      tall-all (height z) as' (All-map as' (λ a l. l.linked) v.listed) in
    unfold forward in
    nodes_from-keys z.next_address z header as' (Linked-to z 0 header _ as' all (v.linked 0))
      (omega (arith, v.few))

insert_key-parts :
    (f : Address → Key) (x : Address) (front back : List Address)
    → All (λ a. prec (f a) (f x) ≡ true) front
    → All (λ a. prec (f a) (f x) ≡ false) back
    → insert_key (f x) (map_key f (front ++ back)) ≡ map_key f (front ++ x ∷ back)
insert_key-parts f x [] [] h k = refl
insert_key-parts f x [] (b ∷ back) h (k, ks) = rw k refl
insert_key-parts f x (a ∷ front) back (h, hs) k =
    rw h (ap (λ ks. f a ∷ ks) (insert_key-parts f x front back hs k))

-- The keys after an insertion.
pub Inserted-keys :
    (z z' : Skiplist) (as' : List Address) (s : Double) (m : Bytes) (x : Address)
    → SkipValid z as'
    → Inserted z as' s m x z'
    → zsl_keys z' ≡ insert_key (s, m) (zsl_keys z)
Inserted-keys z z' as' s m x v i =
    let numbers = All-map (i.front ++ x ∷ i.back) (λ a l. l.not_nan) i.valid.listed in
    let parts = Sorted-parts (key z') x i.front i.back numbers i.valid.sorted in
    zsl_keys_lem z' (i.front ++ x ∷ i.back) i.valid
    ∙ sym (insert_key-parts (key z') x i.front i.back parts.0 parts.1.1)
    ∙ ap₂ insert_key i.new_key (
        ap (map_key (key z')) (sym i.joined)
        ∙ map_key-same (key z) (key z') as' i.keys
        ∙ sym (zsl_keys_lem z as' v))

pub without-others :
    (m : Bytes) (f : Address → Key) (as' : List Address)
    → All (λ a. bytes_eq (f a).1 m ≡ false) as'
    → without m (map_key f as') ≡ map_key f as'
without-others m f [] o = refl
without-others m f (a ∷ as') (o, os) = rw o (ap (λ ks. f a ∷ ks) (without-others m f as' os))

without-parts :
    (m : Bytes) (f : Address → Key) (x : Address) (front back : List Address)
    → bytes_eq (f x).1 m ≡ true
    → All (λ a. bytes_eq (f a).1 m ≡ false) (front ++ back)
    → without m (map_key f (front ++ x ∷ back)) ≡ map_key f (front ++ back)
without-parts m f x [] back e o = rw e (without-others m f back o)
without-parts m f x (a ∷ front) back e (o, os) =
    rw o (ap (λ ks. f a ∷ ks) (without-parts m f x front back e os))

-- The keys after a deletion.
pub Deleted-keys :
    (z z' : Skiplist) (x : Address) (front back : List Address) (m : Bytes)
    → SkipValid z (front ++ x ∷ back)
    → Deleted z x (front ++ back) z'
    → bytes_eq (key z x).1 m ≡ true
    → All (λ a. bytes_eq (key z a).1 m ≡ false) (front ++ back)
    → zsl_keys z' ≡ without m (zsl_keys z)
Deleted-keys z z' x front back m v d e o =
    zsl_keys_lem z' (front ++ back) d.valid
    ∙ map_key-same (key z) (key z') (front ++ back) d.keys
    ∙ sym (without-parts m (key z) x front back e o)
    ∙ ap (without m) (sym (zsl_keys_lem z (front ++ x ∷ back) v))
