-- ===== src/Skiplist/Insert/Whole.antt =====
-- zskiplist.c: the whole of `zsl_insert`.
use miniredis.Common.{
  ℕ, ◌+◌, ◌-◌, ◌≤◌, ◌<◌, Bytes, true, false, List, [], ◌∷◌, ◌++◌, ◌≡◌, refl, sym, ap, ◌∙◌, arith,
  if◌then◌else◌, ◌==◌, ltb, length, bytes_eq, length-append, replicate, length-replicate,
}
use miniredis.Double.{Double, is_nan}
use miniredis.Resp.RoundTrip.{All}
use miniredis.Skiplist.{
  Address, Skiplist, header, at_header, zsl_insert, zsl_random_level, search, before, raise_level,
}
use miniredis.Skiplist.Entries.{zsl_insert-Inserts, raise_level-Relinks}
use miniredis.Skiplist.Links.{height}
use miniredis.Skiplist.Splice.{at_level, raise_level-SameLinks}
use miniredis.Skiplist.Chain.{
  tall, last_of, Distinct, Apart, All-left, All-right, All-append, All-map, All-tall, All-last,
  ==-flip,
}
use miniredis.Skiplist.Valid.{
  SkipValid, Listed, key, key-same, key-some, place, Place, All-both_parts,
}
use miniredis.Skiplist.Fields.{zsl_random_level-range, raise_level-fields}
use miniredis.Skiplist.Insert.{
  Linked-inserted, Sorted-inserted, All-zip, All-high, Fresh, Distinct-to, Sorted-to, Apart-to,
}
use miniredis.Skiplist.Insert.Pointers.{
  Grows, Grows-from, insert_node-Grows, insert_node-fields, update_places,
}

-- The list with the new node where its score and member belong, and the keys.
pub record Inserted (z : Skiplist) (as' : List Address) (s : Double) (m : Bytes) (x : Address)
    (z' : Skiplist) : Type 0 where
  pub front : List Address
  pub back : List Address
  pub joined : as' ≡ front ++ back
  pub valid : SkipValid z' (front ++ x ∷ back)
  pub keys : All (λ a. key z' a ≡ key z a) as'
  pub new_key : key z' x ≡ (s, m)

Distinct-insert :
    (x : Address) (front back : List Address)
    → Apart x (front ++ back)
    → Distinct (front ++ back)
    → Distinct (front ++ x ∷ back)
Distinct-insert x [] back f d = (f, d)
Distinct-insert x (a ∷ front) back f d = (
  All-append (λ b. (b == a) ≡ false) front (x ∷ back)
      (All-left (λ b. (b == a) ≡ false) front back d.0)
      (==-flip a x f.0, All-right (λ b. (b == a) ≡ false) front back d.0),
  Distinct-insert x front back f.1 d.1,
)

Grows-at :
    (x y : Address) (update : List (ℕ × Address)) (level : ℕ) (z z' : Skiplist)
    → x ≡ y
    → Grows x update level z z'
    → Grows y update level z z'
Grows-at x y update level z z' e g = rw (← e) g

-- The pointers that the search and the new node give.
valid-Grows :
    (rand : ℕ → ℕ) (z : Skiplist) (as' : List Address) (s : Double) (m : Bytes)
    (p : Place z (s, m) as')
    → SkipValid z as'
    → Grows z.next_address
        (search z (before s m) ++ replicate ((zsl_random_level rand).0 - z.level) at_header)
        (zsl_random_level rand).0
        z
        (zsl_insert rand s m z).1
unfolding zsl_insert
valid-Grows rand z as' s m p v =
    let front = p.parts.front in
    let x = z.next_address in
    let h = height z in
    let level = (zsl_random_level rand).0 in
    let range = zsl_random_level-range rand in
    let found = search z (before s m) in
    let update = found ++ replicate (level - z.level) at_header in
    let z₀ = raise_level level z in
    let next : z₀.next_address ≡ x = (raise_level-Relinks level z).next in
    let same = raise_level-SameLinks level z in
    let listed =
      All-left (Listed z) front p.parts.back
        (All-both_parts (Listed z) as' front p.parts.back p.parts.joined v.listed) in
    let low = All-map front (λ a l. l.low) listed in
    let past_header : (x == header) ≡ false = let few = v.few in ground (arith, few) in
    let size : length update ≡ z.level + (level - z.level) =
      length-append found _
      ∙ omega (arith, p.found.size, length-replicate (level - z.level) at_header) in
    let levels : (k : ℕ)
        → k < level
        → (k < height z₀ (at_level update k)) × ((z₀.next_address == at_level update k) ≡ false) =
      λ k lt.
        let P : Address → Type 0 = λ b. (k < h b) × ((x == b) ≡ false) in
        let place_of = update_places z front (level - z.level) found k low p.found in
        let fresh : All (λ b. (x == b) ≡ false) front =
          All-map front (λ a l. let g = l.given in ground (arith, g)) listed in
        let here : P (last_of header (tall h k front)) =
          All-last P header (tall h k front) (omega (arith, v.top, range.1, lt), past_header)
            (All-zip (λ b. k < h b) (λ b. (x == b) ≡ false) P (tall h k front) (λ a p q. (p, q))
              (All-high h k front) (All-tall (λ b. (x == b) ≡ false) h k front fresh)) in
        let at_place : P (at_level update k) = rw place_of here in
        (omega (arith, same.heights (at_level update k), at_place.0), rw next at_place.1) in
    let g = insert_node-Grows level update s m z₀ (omega (arith, size)) levels in
    Grows-from z z₀ _ same (Grows-at z₀.next_address x update level z₀ _ next g)

zsl_insert-fields :
    (rand : ℕ → ℕ) (s : Double) (m : Bytes) (z : Skiplist)
    → let level = (zsl_random_level rand).0 in
      let z' = (zsl_insert rand s m z).1 in
      (z'.level ≡ (if ltb z.level level then level else z.level)) × (z'.length ≡ z.length + 1)
unfolding zsl_insert
zsl_insert-fields rand s m z =
    let level = (zsl_random_level rand).0 in
    let z₀ = raise_level level z in
    let i =
      insert_node-fields level (search z (before s m) ++ replicate (level - z.level) at_header) s m
        z₀ in
    let r = raise_level-fields level z in (i.0 ∙ r.0, i.1 ∙ ap (λ n. n + 1) r.1)

higher-level : (a b c : ℕ) → c ≡ (if ltb b a then a else b) → b ≤ c
higher-level a b c e = ground (arith, e)

higher-new : (a b c : ℕ) → c ≡ (if ltb b a then a else b) → a ≤ c
higher-new a b c e = ground (arith, e)

few-levels : (a b c : ℕ) → c ≡ (if ltb b a then a else b) → a ≤ 32 → b ≤ 32 → c ≤ 32
few-levels a b c e h k = ground (arith, e, h, k)

All-Listed :
    (z z' : Skiplist) (as' : List Address)
    → z.level ≤ z'.level
    → z'.next_address ≡ z.next_address + 1
    → All (λ a. height z' a ≡ height z a) as'
    → All (λ a. key z' a ≡ key z a) as'
    → All (Listed z) as'
    → All (Listed z') as'
All-Listed z z' [] le next hs ks l = tt
All-Listed z z' (a ∷ as') le next (h, hs) (k, ks) (l, ls) = (
  record {
    past_header = l.past_header;
    given = omega (arith, l.given, next);
    linked = omega (arith, l.linked, h);
    low = omega (arith, l.low, h, le);
    not_nan = rw k l.not_nan;
  },
  All-Listed z z' as' le next hs ks ls,
)

-- A number and a member that is not there yet are inserted in their place.
pub zsl_insert-Inserted :
    (rand : ℕ → ℕ) (z : Skiplist) (as' : List Address) (s : Double) (m : Bytes)
    → SkipValid z as'
    → is_nan s ≡ false
    → All (λ a. bytes_eq (key z a).1 m ≡ false) as'
    → let r = zsl_insert rand s m z in Inserted z as' s m r.0 r.1
zsl_insert-Inserted rand z as' s m v n other =
    let p = place z as' s m v n in
    let front = p.parts.front in
    let back = p.parts.back in
    let joined = p.parts.joined in
    let r = zsl_insert rand s m z in
    let z' = r.1 in
    let x = z.next_address in
    let level = (zsl_random_level rand).0 in
    let range = zsl_random_level-range rand in
    let (at_x, inserts) = zsl_insert-Inserts rand s m z in
    let g = valid-Grows rand z as' s m p v in
    let (levels, count) = zsl_insert-fields rand s m z in
    let few = v.few in
    let apart : Apart x (front ++ back) =
      All-both_parts (λ b. (b == x) ≡ false) as' front back joined
        (All-map as' (λ a l. let k = l.given in ground (arith, k)) v.listed) in
    let past_header : Apart header (front ++ back) =
      All-both_parts (λ b. (b == header) ≡ false) as' front back joined
        (All-map as' (λ a l. let k = l.past_header in ground (arith, k)) v.listed) in
    let listed = All-both_parts (Listed z) as' front back joined v.listed in
    let distinct = Distinct-to as' (front ++ back) joined v.distinct in
    let new_past_header : (header == x) ≡ false = ground (arith, few) in
    let f : Fresh x front back = record {
      apart = apart;
      past_header = past_header;
      distinct = distinct;
      new_past_header = new_past_header;
    } in
    let new_key : key z' x ≡ (s, m) =
      let self : (x == x) ≡ true = ground arith in
      key-some z' x m s (inserts.entries x ∙ rw self refl) in
    let keys : All (λ a. key z' a ≡ key z a) (front ++ back) =
      All-map (front ++ back) (λ a k. key-same z z' a (inserts.entries a ∙ rw k refl)) apart in
    let heights = All-map (front ++ back) g.heights apart in
    let more : z.level ≤ z'.level = higher-level level z.level z'.level levels in
    let old = All-Listed z z' (front ++ back) more inserts.next heights keys listed in
    let new : Listed z' x = record {
      past_header = omega (arith, few);
      given = omega (arith, inserts.next);
      linked = omega (arith, g.new_height, range.0);
      low = omega (arith, g.new_height, higher-new level z.level z'.level levels);
      not_nan = rw new_key n;
    } in
    let size = length-append front (x ∷ back) in
    let size' = length-append front back in
    let total = ap length joined in
    let low_places = All-map front (λ a l. l.low) (All-left (Listed z) front back listed) in
    record {
      front = front;
      back = back;
      joined = joined;
      new_key = rw at_x new_key;
      keys =
          All-map as' (λ a k. key-same z z' a (inserts.entries a ∙ rw k refl))
            (Apart-to x _ as' (sym joined) apart);
      valid = rw at_x (record {
        linked = λ i.
            Linked-inserted z z' x _ level i front back f g
              (λ k.
                update_places z front (level - z.level) (search z (before s m)) k low_places
                  p.found)
              range.1 (rw (← joined) (v.linked i));
        top = g.heights header new_past_header ∙ v.top;
        some_level = omega (arith, more, v.some_level);
        few_levels = few-levels level z.level z'.level levels range.1 v.few_levels;
        listed =
            All-append (Listed z') front (x ∷ back) (All-left (Listed z') front back old)
              (new, All-right (Listed z') front back old);
        distinct = Distinct-insert x front back apart distinct;
        few = omega (arith, size, size', total, few, inserts.next);
        sorted =
            Sorted-inserted (key z) (key z') x s m front back new_key n keys
              (All-map (front ++ back) (λ a l. l.not_nan) listed)
              (All-both_parts (λ a. bytes_eq (key z a).1 m ≡ false) as' front back joined other)
              p.parts.first p.parts.second (Sorted-to (key z) as' (front ++ back) joined v.sorted);
        count = omega (arith, count, size, size', total, v.count);
      });
    }
