-- ===== src/Zset/Ranking.antt =====
-- zskiplist.c `zset_…`: the dictionary and the skip list of a sorted set agree, and the order that the
-- skip list gives.
pub mod Updates
use miniredis.Common.{
  ℕ, zero, suc, ◌+◌, ◌≤◌, ◌<◌, ◌^◌, Bytes, Bool, true, false, ◌||◌, Option, none, some, List, [],
  ◌∷◌, ◌++◌, ◌≡◌, refl, sym, ap, ◌∙◌, arith, if◌then◌else◌, ◌==◌, ltb, Bool-cases, Option-cases,
  inl, inr, length, bytes_eq, bytes_eq_refl, eq_of_bytes_eq, get_or, get_or-replicate, replicate,
  length-replicate,
}
use miniredis.Double.{Double, eq_d, is_nan}
use miniredis.Resp.RoundTrip.{All}
use miniredis.Dict.Laws.Valid.{view, dict_get-view, dict_create-IsValid}
use miniredis.Dict.Laws.Ops.{dict_set-Writes, dict_delete-Writes}
use miniredis.Skiplist.{
  Address, Skiplist, header, node_at, level_at, zsl_create, zsl_insert, zsl_delete, blank_level,
}
use miniredis.Skiplist.Entries.{zsl_insert-Inserts}
use miniredis.Skiplist.Links.{forward, height}
use miniredis.Skiplist.Chain.{Linked, tall, Distinct, Apart, All-map}
use miniredis.Skiplist.Order.{Key}
use miniredis.Skiplist.Valid.{SkipValid, Listed, key}
use miniredis.Skiplist.Insert.{All-zip}
use miniredis.Skiplist.Insert.Whole.{Inserted, zsl_insert-Inserted}
use miniredis.Skiplist.Delete.{Distinct-delete, All-delete}
use miniredis.Skiplist.Delete.Whole.{Deleted, zsl_delete-Deleted}
use miniredis.Skiplist.Keys.{
  zsl_keys, zsl_keys_lem, map_key, insert_key, without, length-map_key, without-others,
  Inserted-keys, Deleted-keys,
}
use miniredis.Zset.{
  Zset, zset_create, zset_len, node_of, Added, same_score, new_member, new_score, zset_link,
  zset_unlink, zset_add, zset_add_found, zset_remove, zset_remove_found,
}
use miniredis.Zset.Scores.{
  ZsetValid, Scored, scores, score_after, added_of, is_member, zset_link-Scored, zset_unlink-Scored,
  zset_create-ZsetValid, bytes_eq-flip,
}

abbrev pub holds : Address → List Address → Bool
holds a [] = false
holds a (b ∷ bs) = (b == a) || holds a bs

holds-insert :
    (a x : Address) (front back : List Address)
    → holds a (front ++ x ∷ back) ≡ ((x == a) || holds a (front ++ back))
holds-insert a x [] back = refl
holds-insert a x (b ∷ front) back = let rest = holds-insert a x front back in rw rest (ground arith)

record At (a : Address) (as' : List Address) : Type 0 where
  front : List Address
  back : List Address
  joined : as' ≡ front ++ a ∷ back

At-of : (a : Address) (as' : List Address) → holds a as' ≡ true → At a as'
At-of a [] h = absurd cc
At-of a (b ∷ bs) h = elim (Bool-cases (b == a)) [
  | inl same ↦
      let e : b ≡ a = ground (arith, same) in
      record { front = []; back = bs; joined = ap (λ c. c ∷ bs) e }
  | inr other ↦
      let r = At-of a bs (rw other at h) in
      record { front = b ∷ r.front; back = r.back; joined = ap (λ l. b ∷ l) r.joined }
]

-- The dictionary leads from every member to its node in the list, and the list has no other node.
pub record Ordered (z : Zset) (as' : List Address) : Type 0 where
  pub valid : ZsetValid z
  pub skip : SkipValid z.zsl as'
  pub held : All (λ a. view z.dict (key z.zsl a).1 ≡ some a) as'
  pub found :
      (q : Bytes) (a : Address)
      → view z.dict q ≡ some a
      → (holds a as' ≡ true) × ((key z.zsl a).1 ≡ q)

-- The sorted set with the order of its scores and members.
pub record Ranked (z : Zset) (ranking : List Key) : Type 0 where
  pub nodes : List Address
  pub ordered : Ordered z nodes
  pub keys : zsl_keys z.zsl ≡ ranking
  pub zset_size : zset_len z ≡ length ranking

Ranked-of :
    (z : Zset) (as' : List Address) (ranking : List Key)
    → Ordered z as'
    → zsl_keys z.zsl ≡ ranking
    → Ranked z ranking
unfolding zset_len
Ranked-of z as' ranking o e = record {
  nodes = as';
  ordered = o;
  keys = e;
  zset_size =
      o.skip.count
      ∙ sym (length-map_key (key z.zsl) as')
      ∙ ap length (sym (zsl_keys_lem z.zsl as' o.skip) ∙ e);
}

-- No other node has the member.
others_of :
    (z : Zset) (as' : List Address) (m : Bytes)
    → view z.dict m ≡ none
    → All (λ a. view z.dict (key z.zsl a).1 ≡ some a) as'
    → All (λ a. bytes_eq (key z.zsl a).1 m ≡ false) as'
others_of z as' m gone held =
    All-map as'
      (λ a e. elim (Bool-cases (bytes_eq (key z.zsl a).1 m)) [
        | inr other ↦ other
        | inl same ↦
            let e' : view z.dict m ≡ some a =
              ap (view z.dict) (sym (eq_of_bytes_eq _ m same)) ∙ e in
            absurd cc
      ])
      held

others_than :
    (z : Zset) (as' : List Address) (m : Bytes) (x : Address)
    → view z.dict m ≡ some x
    → Apart x as'
    → All (λ a. view z.dict (key z.zsl a).1 ≡ some a) as'
    → All (λ a. bytes_eq (key z.zsl a).1 m ≡ false) as'
others_than z as' m x e apart held =
    All-zip (λ b. (b == x) ≡ false) (λ a. view z.dict (key z.zsl a).1 ≡ some a)
      (λ a. bytes_eq (key z.zsl a).1 m ≡ false) as'
      (λ a n h. elim (Bool-cases (bytes_eq (key z.zsl a).1 m)) [
        | inr other ↦ other
        | inl same ↦
            let h' : view z.dict m ≡ some a =
              ap (view z.dict) (sym (eq_of_bytes_eq _ m same)) ∙ h in
            let both : some x ≡ some a = sym e ∙ h' in
            let e' : x ≡ a = cc in absurd (ground (arith, e', n))
      ])
      apart held

-- The entries of other members lead where they led.
held_kept :
    (z z' : Zset) (m : Bytes) (o : Option Address) (as' : List Address)
    → ((q : Bytes) → view z'.dict q ≡ (if bytes_eq m q then o else view z.dict q))
    → All (λ a. key z'.zsl a ≡ key z.zsl a) as'
    → All (λ a. bytes_eq (key z.zsl a).1 m ≡ false) as'
    → All (λ a. view z.dict (key z.zsl a).1 ≡ some a) as'
    → All (λ a. view z'.dict (key z'.zsl a).1 ≡ some a) as'
held_kept z z' m o [] views ks os hs = tt
held_kept z z' m o (a ∷ as') views (k, ks) (n, os) (h, hs) =
    let flip : bytes_eq m (key z.zsl a).1 ≡ false = bytes_eq-flip (key z.zsl a).1 m n in
    (
      ap (λ t. view z'.dict t.1) k ∙ views (key z.zsl a).1 ∙ rw flip h,
      held_kept z z' m o as' views ks os hs,
    )

key_at :
    (f f' : Address → Key) (as' : List Address) (a : Address)
    → All (λ a. f' a ≡ f a) as'
    → holds a as' ≡ true
    → f' a ≡ f a
key_at f f' [] a ks h = absurd cc
key_at f f' (b ∷ as') a (k, ks) h = elim (Bool-cases (b == a)) [
  | inl same ↦ let e : a ≡ b = ground (arith, same) in rw e k
  | inr other ↦ key_at f f' as' a ks (rw other at h)
]

All-to :
    (P : Address → Type 0) (as' bs cs : List Address)
    → as' ≡ bs ++ cs
    → All P as'
    → All P (bs ++ cs)
All-to P as' bs cs e h = rw (← e) h

All-insert :
    (P : Address → Type 0) (x : Address) (front back : List Address)
    → P x
    → All P (front ++ back)
    → All P (front ++ x ∷ back)
All-insert P x [] back n h = (n, h)
All-insert P x (a ∷ front) back n h = (h.0, All-insert P x front back n h.1)

zset_link-Ordered :
    (rand : ℕ → ℕ) (s : Double) (m : Bytes) (z : Zset) (as' : List Address)
    → Ordered z as'
    → is_nan s ≡ false
    → view z.dict m ≡ none
    → Ranked (zset_link rand s m z).0 (insert_key (s, m) (zsl_keys z.zsl))
unfolding zset_link
zset_link-Ordered rand s m z as' o n gone =
    let z' = (zset_link rand s m z).0 in
    let x = (zsl_insert rand s m z.zsl).0 in
    let w = dict_set-Writes z.dict m x o.valid.members in
    let others = others_of z as' m gone o.held in
    let i = zsl_insert-Inserted rand z.zsl as' s m o.skip n others in
    let scored = zset_link-Scored rand s m z o.valid in
    let name : (key z'.zsl x).1 ≡ m = ap (λ t. t.1) i.new_key in
    let new : view z'.dict (key z'.zsl x).1 ≡ some x =
      ap (view z'.dict) name ∙ w.views m ∙ rw (bytes_eq_refl m) refl in
    let held =
      All-to (λ a. view z'.dict (key z'.zsl a).1 ≡ some a) as' i.front i.back i.joined
        (held_kept z z' m (some x) as' w.views i.keys others o.held) in
    let nodes = i.front ++ x ∷ i.back in
    Ranked-of z' nodes _
      (record {
        valid = scored.valid;
        skip = i.valid;
        held = All-insert (λ a. view z'.dict (key z'.zsl a).1 ≡ some a) x i.front i.back new held;
        found = λ q a e. elim (Bool-cases (bytes_eq m q)) [
          | inl same ↦
              let both : some x ≡ some a = sym (rw same at (w.views q)) ∙ e in
              let e' : x ≡ a = cc in
              (
                holds-insert a x i.front i.back ∙ ground (arith, e'),
                ap (λ b. (key z'.zsl b).1) (sym e') ∙ name ∙ eq_of_bytes_eq m q same,
              )
          | inr other ↦
              let (h, k) = o.found q a (sym (rw other at (w.views q)) ∙ e) in
              let there : holds a (i.front ++ i.back) ≡ true = ap (holds a) (sym i.joined) ∙ h in
              (
                holds-insert a x i.front i.back ∙ rw there (ground arith),
                ap (λ t. t.1) (key_at (key z.zsl) (key z'.zsl) as' a i.keys h) ∙ k,
              )
        ];
      })
      (Inserted-keys z.zsl z'.zsl as' s m x o.skip i)
