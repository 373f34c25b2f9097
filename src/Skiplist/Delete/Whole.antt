-- ===== src/Skiplist/Delete/Whole.antt =====
-- zskiplist.c: the whole of `zsl_delete`.
use miniredis.Common.{
  ℕ, ◌+◌, ◌≤◌, ◌<◌, ◌^◌, Bytes, true, false, none, some, List, [], ◌∷◌, ◌++◌, ◌≡◌, refl, sym, ap,
  ◌∙◌, arith, ◌==◌, ltb, inl, inr, length, length-append, ◌⊎◌, bytes_eq_refl, get_or,
}
use miniredis.Double.{Double, is_nan}
use miniredis.Resp.RoundTrip.{All}
use miniredis.Skiplist.{
  Address, Skiplist, header, at_header, zsl_delete, zsl_delete_node, delete_found, is_node, node_at,
  search, before, unlink, unlink_back, lower, level_at, put_node, sub_ul, blank_level,
}
use miniredis.Skiplist.Entries.{entry, zsl_delete_node-Relinks, put_node-entry}
use miniredis.Skiplist.Links.{forward, height, SameLinks, SameLinks-then, fields-SameLinks}
use miniredis.Skiplist.Splice.{unlink-Unlinked, unlink_back-SameLinks}
use miniredis.Skiplist.Chain.{
  Linked, tall, Apart, All-left, All-map, All-tall, tall-append, tall-same, Linked-frame,
}
use miniredis.Skiplist.Search.{Found, search-Found, Linked-to}
use miniredis.Skiplist.Order.{prec, eq_d_refl, Sorted-same, Sorted-delete}
use miniredis.Skiplist.Valid.{SkipValid, Listed, key, key-same}
use miniredis.Skiplist.Fields.{unlink-SameFields, unlink_back-SameFields}
use miniredis.Skiplist.Insert.{All-zip}
use miniredis.Skiplist.Delete.{
  Distinct-delete, All-delete, Sorted-parts, Linked-at, Linked-none, lower-range, lower-none,
  Linked-deleted,
}

-- The search ends behind the nodes before `x`.
found_at :
    (z : Skiplist) (x : Address) (front back : List Address) (s : Double) (m : Bytes)
    → SkipValid z (front ++ x ∷ back)
    → key z x ≡ (s, m)
    → Found z front z.level (search z (before s m))
found_at z x front back s m v k =
    let numbers = All-map (front ++ x ∷ back) (λ a l. l.not_nan) v.listed in
    let (first, second) = Sorted-parts (key z) x front back numbers v.sorted in
    let room = length-append front (x ∷ back) in
    search-Found z (before s m) (λ a. prec (key z a) (s, m)) front (x ∷ back)
      (λ r b. unfold before prec key in refl)
      (record {
        first = All-map front (λ a l. rw (← k) l) first;
        second = All-map (x ∷ back) (λ a l. rw (← k) l) second;
        linked = v.linked;
        few = omega (arith, room, v.few);
      })
      (All-left (λ a. height z a ≤ z.level) front (x ∷ back)
        (All-map (front ++ x ∷ back) (λ a l. l.low) v.listed))

next_is :
    (z : Skiplist) (x : Address) (front back : List Address) (update : List (ℕ × Address))
    → SkipValid z (front ++ x ∷ back)
    → Found z front z.level update
    → forward z (get_or update 0 at_header).1 0 ≡ some x
next_is z x front back update v f =
    let h = height z in
    let listed = All-delete (Listed z) x front back v.listed in
    let l = listed.1.linked in
    let high : ltb 0 (h x) ≡ true = ground (arith, l) in
    let around = tall-append h 0 front (x ∷ back) in
    let e : tall h 0 (x ∷ back) ≡ x ∷ tall h 0 back = unfold tall in rw high refl in
    let joined : tall h 0 (front ++ x ∷ back) ≡ tall h 0 front ++ x ∷ tall h 0 back =
      around ∙ ap (λ t. tall h 0 front ++ t) e in
    ap (λ u. forward z u 0) (f.places 0 (omega (arith, v.some_level)))
    ∙ Linked-at z 0 header (tall h 0 front) (tall h 0 back) x
        (Linked-to z 0 header _ (tall h 0 front ++ x ∷ tall h 0 back) joined (v.linked 0))

is_node-key :
    (z : Skiplist) (s : Double) (m : Bytes) (x : Address)
    → key z x ≡ (s, m)
    → is_nan s ≡ false
    → is_node z s m (some x) ≡ true
unfolding is_node key
is_node-key z s m x k n =
    let es : (node_at z x).score ≡ s = ap (λ q. q.0) k in
    let em : (node_at z x).member ≡ m = ap (λ q. q.1) k in
    rw (es, em, eq_d_refl s n, bytes_eq_refl m) refl

pub zsl_delete-is :
    (z : Skiplist) (x : Address) (front back : List Address) (s : Double) (m : Bytes)
    → SkipValid z (front ++ x ∷ back)
    → key z x ≡ (s, m)
    → is_nan s ≡ false
    → zsl_delete s m z ≡ (true, put_node x none (zsl_delete_node x (search z (before s m)) z))
unfolding zsl_delete delete_found
zsl_delete-is z x front back s m v k n =
    let f = found_at z x front back s m v k in
    let e : (level_at z (get_or (search z (before s m)) 0 at_header).1 0).forward ≡ some x =
      unfold forward in next_is z x front back (search z (before s m)) v f in
    rw (e, is_node-key z s m x k n) refl

delete_node-SameLinks :
    (x : Address) (update : List (ℕ × Address)) (z : Skiplist)
    → SameLinks (unlink x 0 update z) (zsl_delete_node x update z)
unfolding zsl_delete_node
delete_node-SameLinks x update z =
    SameLinks-then (unlink_back-SameLinks _ _ (unlink x 0 update z)) (fields-SameLinks _ _ _ _)

-- The level is lowered as far as the levels are empty.
record Lowered (z d : Skiplist) : Type 0 where
  some_level : 1 ≤ d.level
  few_levels : d.level ≤ z.level
  level : (d.level ≡ z.level) ⊎ (forward d header d.level ≡ none)
  length : d.length ≡ sub_ul z.length 1

Lowered-by :
    (z z₂ d : Skiplist)
    → z₂.level ≡ z.level
    → 1 ≤ z.level
    → d.level ≡ lower z₂.level z₂
    → ((i : ℕ) → forward d header i ≡ forward z₂ header i)
    → d.length ≡ sub_ul z.length 1
    → Lowered z d
Lowered-by z z₂ d e h l f n =
    let r = lower-range z₂.level z₂ (omega (arith, e, h)) in
    record {
      some_level = omega (arith, l, r.0);
      few_levels = omega (arith, l, r.1, e);
      level = elim (lower-none z₂.level z₂) [
        | inl kept ↦ inl (l ∙ kept ∙ e)
        | inr over ↦ inr (ap (forward d header) l ∙ f (lower z₂.level z₂) ∙ over)
      ];
      length = n;
    }

delete_node-Lowered :
    (x : Address) (update : List (ℕ × Address)) (z : Skiplist)
    → 1 ≤ z.level
    → Lowered z (zsl_delete_node x update z)
unfolding zsl_delete_node
delete_node-Lowered x update z h =
    let z₁ = unlink x 0 update z in
    let u = unlink-SameFields x 0 update z in
    let z₂ = unlink_back (level_at z₁ x 0).forward (node_at z₁ x).backward z₁ in
    let b = unlink_back-SameFields (level_at z₁ x 0).forward (node_at z₁ x).backward z₁ in
    let f = fields-SameLinks z₂ z₂.tail (sub_ul z₂.length 1) (lower z₂.level z₂) in
    Lowered-by z z₂ (record z₂ { level = lower z₂.level z₂; length = sub_ul z₂.length 1 })
      (b.0 ∙ u.0) h refl (λ i. f.forwards header i) (ap (λ n. sub_ul n 1) (b.1 ∙ u.1))

put_none-node_at :
    (x : Address) (z : Skiplist) (b : Address)
    → (b == x) ≡ false
    → node_at (put_node x none z) b ≡ node_at z b
unfolding node_at put_node
put_none-node_at x z b n = rw n refl

put_none-forward :
    (x : Address) (z : Skiplist) (b : Address) (j : ℕ)
    → (b == x) ≡ false
    → forward (put_node x none z) b j ≡ forward z b j
unfolding forward level_at
put_none-forward x z b j n =
    ap (λ q. (get_or q.level j blank_level).forward) (put_none-node_at x z b n)

put_none-height :
    (x : Address) (z : Skiplist) (b : Address)
    → (b == x) ≡ false
    → height (put_node x none z) b ≡ height z b
unfolding height
put_none-height x z b n = ap (λ q. length q.level) (put_none-node_at x z b n)

All-Listed :
    (z z' : Skiplist) (as' : List Address)
    → z'.next_address ≡ z.next_address
    → All (λ a. height z' a ≤ z'.level) as'
    → All (λ a. height z' a ≡ height z a) as'
    → All (λ a. key z' a ≡ key z a) as'
    → All (Listed z) as'
    → All (Listed z') as'
All-Listed z z' [] next lows hs ks l = tt
All-Listed z z' (a ∷ as') next (low, lows) (h, hs) (k, ks) (l, ls) = (
  record {
    past_header = l.past_header;
    given = omega (arith, l.given, next);
    linked = omega (arith, l.linked, h);
    low = low;
    not_nan = rw k l.not_nan;
  },
  All-Listed z z' as' next lows hs ks ls,
)

sub_ul-one : (a n : ℕ) → a ≡ n + 1 → n < 2 ^ 64 → sub_ul a 1 ≡ n
unfolding sub_ul
sub_ul-one a n e h = omega (arith, e, h)

-- The list without the node, which is gone; the other keys are kept.
pub record Deleted (z : Skiplist) (x : Address) (as' : List Address) (z' : Skiplist) : Type 0 where
  pub valid : SkipValid z' as'
  pub keys : All (λ a. key z' a ≡ key z a) as'
  pub gone : entry z' x ≡ none

-- No node is higher than the level that is left.
all_low :
    (z z' : Skiplist) (list : List Address)
    → All (λ a. height z' a ≡ height z a) list
    → ((i : ℕ) → Linked z' i header (tall (height z') i list))
    → (z'.level ≡ z.level) ⊎ (forward z' header z'.level ≡ none)
    → All (Listed z) list
    → All (λ a. height z' a ≤ z'.level) list
all_low z z' list hs linked (inl kept) ls =
    All-zip (λ a. height z' a ≡ height z a) (Listed z) (λ a. height z' a ≤ z'.level) list
      (λ a h l. omega (arith, kept, h, l.low)) hs ls
all_low z z' list hs linked (inr over) ls =
    Linked-none z' (height z') z'.level list (linked z'.level) over

remaining :
    (z : Skiplist) (x : Address) (front back : List Address) (update : List (ℕ × Address))
    → SkipValid z (front ++ x ∷ back)
    → Found z front z.level update
    → length (front ++ back) < 2 ^ 64
    → Deleted z x (front ++ back) (put_node x none (zsl_delete_node x update z))
unfolding put_node
remaining z x front back update v f few =
    let list = front ++ back in
    let d = zsl_delete_node x update z in
    let z₁ = unlink x 0 update z in
    let z' = put_node x none d in
    let u = unlink-Unlinked x 0 update z in
    let same = delete_node-SameLinks x update z in
    let low = delete_node-Lowered x update z v.some_level in
    let relinks = zsl_delete_node-Relinks x update z in
    let (distinct, apart) = Distinct-delete x front back v.distinct in
    let (listed, here) = All-delete (Listed z) x front back v.listed in
    let past_header = here.past_header in
    let header_apart : (header == x) ≡ false = ground (arith, past_header) in
    let all_positive : Apart header (front ++ x ∷ back) =
      All-map (front ++ x ∷ back) (λ a l. let p = l.past_header in ground (arith, p)) v.listed in
    let keys : All (λ a. key z' a ≡ key z a) list =
      All-map list (λ a n. key-same z z' a (put_node-entry x none d a ∙ rw n (relinks.entries a)))
        apart in
    let heights_at = λ (b : Address) (n : (b == x) ≡ false).
      put_none-height x d b n ∙ same.heights b ∙ u.heights b in
    let heights : All (λ a. height z' a ≡ height z a) list = All-map list heights_at apart in
    let linked : (i : ℕ) → Linked z' i header (tall (height z') i list) = λ i.
      let t = tall (height z) i list in
      let l =
        Linked-deleted z z₁ x update i front back (all_positive, v.distinct) u
          (λ k lt. f.places k (omega (arith, lt, f.size))) (omega (arith, here.low, f.size))
          (v.linked i) in
      let keep =
        λ (b : Address) (n : (b == x) ≡ false). put_none-forward x d b i n ∙ same.forwards b i in
      Linked-to z' i header t _ (sym (tall-same (height z) (height z') i list heights)) (
        Linked-frame z₁ z' i header t (keep header header_apart)
          (All-map t keep (All-tall (λ b. (b == x) ≡ false) (height z) i list apart)) l) in
    let level : (z'.level ≡ z.level) ⊎ (forward z' header z'.level ≡ none) = elim low.level [
      | inl kept ↦ inl kept
      | inr over ↦ inr (put_none-forward x d header d.level header_apart ∙ over)
    ] in
    let lows : All (λ a. height z' a ≤ z'.level) list =
      all_low z z' list heights linked level listed in
    let size = length-append front (x ∷ back) in
    let size' = length-append front back in
    record {
      keys = keys;
      gone = let self : (x == x) ≡ true = ground arith in put_node-entry x none d x ∙ rw self refl;
      valid = record {
        linked = linked;
        top = heights_at header header_apart ∙ v.top;
        some_level = low.some_level;
        few_levels = omega (arith, low.few_levels, v.few_levels);
        listed = All-Listed z z' list relinks.next lows heights keys listed;
        distinct = distinct;
        few = omega (arith, size, size', v.few, relinks.next);
        sorted =
            Sorted-same (key z) (key z') list keys (Sorted-delete (key z) x front back v.sorted);
        count =
            low.length
            ∙ sub_ul-one z.length (length list) (omega (arith, v.count, size, size')) few;
      };
    }

-- A node that is there is deleted.
pub zsl_delete-Deleted :
    (z : Skiplist) (x : Address) (front back : List Address) (s : Double) (m : Bytes)
    → SkipValid z (front ++ x ∷ back)
    → key z x ≡ (s, m)
    → is_nan s ≡ false
    → length (front ++ back) < 2 ^ 64
    → let r = zsl_delete s m z in (r.0 ≡ true) × Deleted z x (front ++ back) r.1
zsl_delete-Deleted z x front back s m v k n few =
    rw (zsl_delete-is z x front back s m v k n) (
      refl,
      remaining z x front back (search z (before s m)) v (found_at z x front back s m v k) few,
    )
