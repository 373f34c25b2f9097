-- ===== src/Skiplist/Insert.antt =====
-- zskiplist.c: inserting a node keeps the list sorted and every level a part of it.
pub mod Pointers
pub mod Whole
use miniredis.Common.{
  ℕ, zero, suc, ◌+◌, ◌-◌, ◌≤◌, ◌<◌, Bytes, Bool, true, false, Option, none, some, List, [], ◌∷◌,
  ◌++◌, ◌≡◌, refl, sym, ap, ap₂, ◌∙◌, arith, ltb→lt, if◌then◌else◌, ◌==◌, ltb, Bool-cases, inl, inr,
  length, bytes_eq, length-append,
}
use miniredis.Double.{Double, is_nan}
use miniredis.Resp.RoundTrip.{All}
use miniredis.Skiplist.{
  Address, Skiplist, header, zsl_insert, zsl_random_level, node_at, search, before, insert_node,
  raise_level,
}
use miniredis.Skiplist.Entries.{entry, Inserts, zsl_insert-Inserts}
use miniredis.Skiplist.Links.{forward, height}
use miniredis.Skiplist.Splice.{Behind, at_level}
use miniredis.Skiplist.Chain.{
  Linked, tall, last_of, Distinct, Apart, All-left, All-right, All-append, All-map, All-tall,
  tall-append, tall-same, Distinct-tall, Linked-frame, Linked-insert,
}
use miniredis.Skiplist.Search.{Linked-to}
use miniredis.Skiplist.Order.{Key, prec, prec_total, Sorted, Sorted-same, Sorted-insert}
use miniredis.Skiplist.Valid.{
  SkipValid, Listed, key, key-same, key-some, place, Place, All-both_parts,
}
use miniredis.Skiplist.Fields.{zsl_random_level-range}
use miniredis.Skiplist.Insert.Pointers.{Grows}

tall-inserted :
    (h h' : Address → ℕ) (i : ℕ) (x : Address) (front back : List Address)
    → All (λ a. h' a ≡ h a) front
    → All (λ a. h' a ≡ h a) back
    → tall h' i (front ++ x ∷ back)
      ≡ tall h i front ++ (if ltb i (h' x) then x ∷ tall h i back else tall h i back)
unfolding tall
tall-inserted h h' i x front back e f =
    tall-append h' i front (x ∷ back) ∙ rw (tall-same h h' i front e, tall-same h h' i back f) refl

pub Distinct-to : (bs cs : List Address) → bs ≡ cs → Distinct bs → Distinct cs
Distinct-to bs cs e d = rw (← e) d

pub Sorted-to : (f : Address → Key) (bs cs : List Address) → bs ≡ cs → Sorted f bs → Sorted f cs
Sorted-to f bs cs e d = rw (← e) d

pub Apart-to : (x : Address) (bs cs : List Address) → bs ≡ cs → Apart x bs → Apart x cs
Apart-to x bs cs e d = rw (← e) d

pub All-zip :
    (P Q R : Address → Type 0) (as' : List Address)
    → ((a : Address) → P a → Q a → R a)
    → All P as'
    → All Q as'
    → All R as'
All-zip P Q R [] f p q = tt
All-zip P Q R (a ∷ as') f p q = (f a p.0 q.0, All-zip P Q R as' f p.1 q.1)

pub All-high : (h : Address → ℕ) (i : ℕ) (as' : List Address) → All (λ a. i < h a) (tall h i as')
unfolding tall
All-high h i [] = tt
All-high h i (a ∷ as') = elim (Bool-cases (ltb i (h a))) [
  | inl high ↦ rw high (omega (arith, ltb→lt i (h a) high), All-high h i as')
  | inr low ↦ rw low (All-high h i as')
]

-- The addresses are not the header, none stands twice, and `x` is none of them.
record Fresh (x : Address) (front back : List Address) : Type 0 where
  apart : Apart x (front ++ back)
  past_header : Apart header (front ++ back)
  distinct : Distinct (front ++ back)
  new_past_header : (header == x) ≡ false

Linked-inserted :
    (z z' : Skiplist) (x : Address) (update : List (ℕ × Address)) (level i : ℕ)
    (front back : List Address)
    → Fresh x front back
    → Grows x update level z z'
    → ((k : ℕ) → at_level update k ≡ last_of header (tall (height z) k front))
    → level ≤ 32
    → Linked z i header (tall (height z) i (front ++ back))
    → Linked z' i header (tall (height z') i (front ++ x ∷ back))
Linked-inserted z z' x update level i front back f g places few l =
    let h = height z in
    let tf = tall h i front in
    let tb = tall h i back in
    let both = tall-append h i front back in
    let apart =
      Apart-to x _ (tf ++ tb) both (All-tall (λ b. (b == x) ≡ false) h i (front ++ back) f.apart) in
    let l' = Linked-to z i header _ (tf ++ tb) both l in
    let same = All-map (front ++ back) g.heights f.apart in
    let joined =
      tall-inserted h (height z') i x front back
        (All-left (λ a. height z' a ≡ height z a) front back same)
        (All-right (λ a. height z' a ≡ height z a) front back same) in
    elim (Bool-cases (ltb i level)) [
      | inl low ↦
          let high : ltb i (height z' x) ≡ true = rw g.new_height low in
          let s = g.within i (ltb→lt i level low) in
          let past_header =
            Apart-to header _ (tf ++ tb) both
              (All-tall (λ b. (b == header) ≡ false) h i (front ++ back) f.past_header) in
          let distinct =
            Distinct-to _ (tf ++ tb) both (Distinct-tall h i (front ++ back) f.distinct) in
          Linked-to z' i header (tf ++ x ∷ tb) _ (sym (joined ∙ rw high refl)) (
            Linked-insert z z' i x header tf tb (rw (places i) at s) (past_header, distinct)
              (f.new_past_header, apart) l')
      | inr over ↦
          let short : ltb i (height z' x) ≡ false = rw g.new_height over in
          let le : level ≤ i = ground (arith, over) in
          Linked-to z' i header (tf ++ tb) _ (sym (joined ∙ rw short refl)) (
            Linked-frame z z' i header (tf ++ tb) (g.above header i f.new_past_header le)
              (All-map (tf ++ tb) (λ b n. g.above b i n le) apart) l')
    ]

-- The keys around a new one.
Sorted-inserted :
    (f f' : Address → Key) (x : Address) (s : Double) (m : Bytes) (front back : List Address)
    → f' x ≡ (s, m)
    → is_nan s ≡ false
    → All (λ a. f' a ≡ f a) (front ++ back)
    → All (λ a. is_nan (f a).0 ≡ false) (front ++ back)
    → All (λ a. bytes_eq (f a).1 m ≡ false) (front ++ back)
    → All (λ a. prec (f a) (s, m) ≡ true) front
    → All (λ a. prec (f a) (s, m) ≡ false) back
    → Sorted f (front ++ back)
    → Sorted f' (front ++ x ∷ back)
Sorted-inserted f f' x s m front back new n same ns other first second sorted =
    let Same : Address → Type 0 = λ a. f' a ≡ f a in
    let N : Address → Type 0 = λ a. is_nan (f a).0 ≡ false in
    let O : Address → Type 0 = λ a. bytes_eq (f a).1 m ≡ false in
    let After : Address → Type 0 = λ b. prec (s, m) (f b) ≡ true in
    let after : All After back =
      All-zip N (λ a. O a × (prec (f a) (s, m) ≡ false)) After back
        (λ a na o. prec_total (f a) (s, m) na n o.0 o.1) (All-right N front back ns)
        (All-zip O (λ a. prec (f a) (s, m) ≡ false) (λ a. O a × (prec (f a) (s, m) ≡ false)) back
          (λ a o l. (o, l)) (All-right O front back other) second) in
    Sorted-insert f' x front back
      (All-zip Same (λ a. prec (f a) (s, m) ≡ true) (λ a. prec (f' a) (f' x) ≡ true) front
        (λ a e l. rw (new, e) l) (All-left Same front back same) first)
      (All-zip Same After (λ b. prec (f' x) (f' b) ≡ true) back (λ a e l. rw (new, e) l)
        (All-right Same front back same) after)
      (Sorted-same f f' (front ++ back) same sorted)
