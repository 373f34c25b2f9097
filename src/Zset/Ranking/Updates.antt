-- ===== src/Zset/Ranking/Updates.antt =====
-- zskiplist.c `zset_add`, `zset_remove`: the scores and the order after each.
use miniredis.Common.{
  ℕ, ◌≤◌, ◌^◌, Bytes, true, false, ◌||◌, Option, none, some, List, [], ◌∷◌, ◌++◌, ◌≡◌, refl, sym,
  ap, ◌∙◌, arith, if◌then◌else◌, ◌==◌, Bool-cases, Option-cases, inl, inr, length, bytes_eq,
  bytes_eq_refl, get_or, get_or-replicate, replicate, length-replicate, length-append,
}
use miniredis.Double.{Double, eq_d, is_nan}
use miniredis.Dict.Laws.Valid.{view, dict_get-view, dict_create-IsValid}
use miniredis.Dict.Laws.Ops.{dict_delete-Writes}
use miniredis.Skiplist.{Address, header, node_at, level_at, zsl_create, blank_level}
use miniredis.Skiplist.Links.{forward, height}
use miniredis.Skiplist.Chain.{tall}
use miniredis.Skiplist.Order.{Key}
use miniredis.Skiplist.Valid.{SkipValid, Listed, key}
use miniredis.Skiplist.Delete.{Distinct-delete, All-delete}
use miniredis.Skiplist.Delete.Whole.{zsl_delete-Deleted}
use miniredis.Skiplist.Keys.{
  zsl_keys, zsl_keys_lem, insert_key, without, without-others, Deleted-keys,
}
use miniredis.Zset.{
  Zset, zset_create, zset_len, node_of, zset_unlink, zset_add, zset_add_found, zset_remove,
  zset_remove_found,
}
use miniredis.Zset.Scores.{
  Scored, scores, score_after, added_of, is_member, zset_unlink-Scored, zset_create-ZsetValid,
  zset_add-Scored, zset_remove-Scored,
}
use miniredis.Zset.Ranking.{
  Ordered, Ranked, Ranked-of, At-of, holds, holds-insert, others_of, others_than, held_kept, key_at,
  zset_link-Ordered,
}

Ordered-to : (z : Zset) (bs cs : List Address) → bs ≡ cs → Ordered z bs → Ordered z cs
Ordered-to z bs cs e o = rw (← e) o

Ranked-to : (z : Zset) (ks ks' : List Key) → ks ≡ ks' → Ranked z ks → Ranked z ks'
Ranked-to z ks ks' e r = rw (← e) r

unlink-Ordered :
    (m : Bytes) (x : Address) (z : Zset) (front back : List Address)
    → Ordered z (front ++ x ∷ back)
    → view z.dict m ≡ some x
    → (key z.zsl x).1 ≡ m
    → zset_len z ≤ 2 ^ 64
    → Ranked (zset_unlink m x z) (without m (zsl_keys z.zsl))
unfolding zset_unlink zset_len key
unlink-Ordered m x z front back o e name few =
    let z' = zset_unlink m x z in
    let n = node_at z.zsl x in
    let w = dict_delete-Writes z.dict m o.valid.members in
    let (listed, here) = All-delete (Listed z.zsl) x front back o.skip.listed in
    let size = length-append front (x ∷ back) in
    let size' = length-append front back in
    let d =
      (zsl_delete-Deleted z.zsl x front back n.score n.member o.skip refl here.not_nan
        (omega (arith, size, size', o.skip.count, few))).1 in
    let (distinct, apart) = Distinct-delete x front back o.skip.distinct in
    let was = (All-delete (λ a. view z.dict (key z.zsl a).1 ≡ some a) x front back o.held).0 in
    let others = others_than z (front ++ back) m x e apart was in
    let same : bytes_eq (key z.zsl x).1 m ≡ true = ap (λ t. bytes_eq t m) name ∙ bytes_eq_refl m in
    Ranked-of z' (front ++ back) _
      (record {
        valid = (zset_unlink-Scored m x z o.valid e).valid;
        skip = d.valid;
        held = held_kept z z' m none (front ++ back) w.views d.keys others was;
        found = λ q a e'. elim (Bool-cases (bytes_eq m q)) [
          | inl gone ↦ let never = sym (rw gone at (w.views q)) ∙ e' in absurd cc
          | inr other ↦
              let (h, k) = o.found q a (sym (rw other at (w.views q)) ∙ e') in
              let h' : ((x == a) || holds a (front ++ back)) ≡ true =
                sym (holds-insert a x front back) ∙ h in
              elim (Bool-cases (x == a)) [
                | inl here' ↦
                    let ea : x ≡ a = ground (arith, here') in
                    let eq : m ≡ q = sym name ∙ ap (λ b. (key z.zsl b).1) ea ∙ k in
                    let again : bytes_eq m q ≡ true = ap (bytes_eq m) (sym eq) ∙ bytes_eq_refl m in
                    absurd cc
                | inr apart' ↦
                    let there : holds a (front ++ back) ≡ true = rw apart' at h' in
                    (
                      there,
                      ap (λ t. t.1) (key_at (key z.zsl) (key z'.zsl) (front ++ back) a d.keys there)
                          ∙ k,
                    )
              ]
        ];
      })
      (Deleted-keys z.zsl z'.zsl x front back m o.skip d same others)

zset_unlink-Ranked :
    (m : Bytes) (x : Address) (z : Zset) (as' : List Address)
    → Ordered z as'
    → view z.dict m ≡ some x
    → zset_len z ≤ 2 ^ 64
    → Ranked (zset_unlink m x z) (without m (zsl_keys z.zsl))
zset_unlink-Ranked m x z as' o e few =
    let (h, name) = o.found m x e in
    let a = At-of x as' h in
    unlink-Ordered m x z a.front a.back (Ordered-to z as' (a.front ++ x ∷ a.back) a.joined o) e name
      few

-- The scores and members in their order after an addition to a set where the member has `old`.
abbrev pub ranking_after : Option Double → Double → Bytes → List Key → List Key
ranking_after none s m ks = insert_key (s, m) ks
ranking_after (some old) s m ks = if eq_d old s then ks else insert_key (s, m) (without m ks)

zset_add_found-Ranked :
    (rand : ℕ → ℕ) (s : Double) (m : Bytes) (z : Zset) (as' : List Address)
    → Ordered z as'
    → is_nan s ≡ false
    → zset_len z ≤ 2 ^ 64
    → Ranked (zset_add rand z s m).1 (ranking_after (scores z m) s m (zsl_keys z.zsl))
unfolding zset_add zset_add_found node_of
zset_add_found-Ranked rand s m z as' o n few = elim (Option-cases (view z.dict m)) [
  | inl gone ↦
      let none' : scores z m ≡ none = unfold scores in rw gone refl in
      rw (dict_get-view z.dict m o.valid.members, gone, none')
        (zset_link-Ordered rand s m z as' o n gone)
  | inr (x, e) ↦
      let old = (node_at z.zsl x).score in
      let has : scores z m ≡ some old = unfold scores in rw e refl in
      rw (dict_get-view z.dict m o.valid.members, e, has)
        elim (Bool-cases (eq_d old s)) [
          | inl same ↦ rw same (Ranked-of z as' (zsl_keys z.zsl) o refl)
          | inr new ↦
              let r = zset_unlink-Ranked m x z as' o e few in
              let w = dict_delete-Writes z.dict m o.valid.members in
              let gone : view (zset_unlink m x z).dict m ≡ none =
                unfold zset_unlink in w.views m ∙ rw (bytes_eq_refl m) refl in
              let l = zset_link-Ordered rand s m (zset_unlink m x z) r.nodes r.ordered n gone in
              rw new (Ranked-to _ _ _ (ap (insert_key (s, m)) r.keys) l)
        ]
]

-- On a sorted set whose dictionary and skip list agree and whose nodes, read along level 0, are the
-- scores and members of `ranking`, sorted, at most 2 ^ 64 of them, `zset_add` of a score that is a
-- number makes the score of the member the new one unless it equals the old one, leaves every other
-- member and score, and returns whether the member is new, changed or as it was. The nodes are
-- `ranking` afterwards where the score is as it was, and else `ranking` without the old place of
-- the member and with the new score and the member where they belong; `zset_len` is their number,
-- each level is the part of the list that is as high, and the dictionary and the skip list agree.
-- The spans and the backward pointers are not spoken of.
pub zset_add-Ranked :
    (rand : ℕ → ℕ) (s : Double) (m : Bytes) (z : Zset) (ranking : List Key)
    → Ranked z ranking
    → is_nan s ≡ false
    → length ranking ≤ 2 ^ 64
    → let r = zset_add rand z s m in
      (r.0 ≡ added_of (scores z m) s)
      × Scored z m (some (score_after (scores z m) s)) r.1
      × Ranked r.1 (ranking_after (scores z m) s m ranking)
zset_add-Ranked rand s m z ranking r n few =
    let o = r.ordered in
    let (returned, scored) = zset_add-Scored rand s m z o.valid in
    let added = zset_add_found-Ranked rand s m z r.nodes o n (omega (arith, r.zset_size, few)) in
    (returned, scored, Ranked-to _ _ _ (ap (ranking_after (scores z m) s m) r.keys) added)

zset_remove_found-Ranked :
    (m : Bytes) (z : Zset) (as' : List Address)
    → Ordered z as'
    → zset_len z ≤ 2 ^ 64
    → Ranked (zset_remove z m).1 (without m (zsl_keys z.zsl))
unfolding zset_remove zset_remove_found node_of
zset_remove_found-Ranked m z as' o few = elim (Option-cases (view z.dict m)) [
  | inl gone ↦
      let absent : without m (zsl_keys z.zsl) ≡ zsl_keys z.zsl =
        ap (without m) (zsl_keys_lem z.zsl as' o.skip)
        ∙ without-others m (key z.zsl) as' (others_of z as' m gone o.held)
        ∙ sym (zsl_keys_lem z.zsl as' o.skip) in
      rw (dict_get-view z.dict m o.valid.members, gone, absent)
        (Ranked-of z as' (zsl_keys z.zsl) o refl)
  | inr (x, e) ↦
      rw (dict_get-view z.dict m o.valid.members, e) (zset_unlink-Ranked m x z as' o e few)
]

-- On a sorted set whose dictionary and skip list agree and whose nodes, read along level 0, are the
-- scores and members of `ranking`, sorted, at most 2 ^ 64 of them, `zset_remove` returns whether
-- the member was there, and leaves every other member and score. The nodes are `ranking` without
-- the member afterwards, `zset_len` is their number, each level is the part of the list that is as
-- high, and the dictionary and the skip list agree.
pub zset_remove-Ranked :
    (m : Bytes) (z : Zset) (ranking : List Key)
    → Ranked z ranking
    → length ranking ≤ 2 ^ 64
    → let r = zset_remove z m in
      (r.0 ≡ is_member (scores z m)) × Scored z m none r.1 × Ranked r.1 (without m ranking)
zset_remove-Ranked m z ranking r few =
    let o = r.ordered in
    let (returned, scored) = zset_remove-Scored m z o.valid in
    let left = zset_remove_found-Ranked m z r.nodes o (omega (arith, r.zset_size, few)) in
    (returned, scored, Ranked-to _ _ _ (ap (without m) r.keys) left)

zsl_create-SkipValid : SkipValid zsl_create []
zsl_create-SkipValid =
    let e : node_at zsl_create header
        ≡ record { member = []; score = 0; backward = none; level = replicate 32 blank_level } =
      unfold zsl_create node_at in refl in
    record {
      linked = λ i.
          unfold forward level_at tall in
          ap (λ q. (get_or q.level i blank_level).forward) e
          ∙ ap (λ l. l.forward) (get_or-replicate 32 i blank_level);
      top = unfold height in ap (λ q. length q.level) e ∙ length-replicate 32 blank_level;
      some_level = unfold zsl_create in omega arith;
      few_levels = unfold zsl_create in omega arith;
      listed = tt;
      distinct = tt;
      few = unfold zsl_create in omega arith;
      sorted = tt;
      count = unfold zsl_create in refl;
    }

zset_create-Ordered : (seed : Bytes) → Ordered (zset_create seed) []
unfolding zset_create
zset_create-Ordered seed =
    let (ok, empty) = dict_create-IsValid {V = Address} seed in
    record {
      valid = (zset_create-ZsetValid seed).0;
      skip = zsl_create-SkipValid;
      held = tt;
      found = λ q a e. let never = sym (empty q) ∙ e in absurd cc;
    }

-- An empty sorted set.
pub zset_create-Ranked : (seed : Bytes) → Ranked (zset_create seed) []
zset_create-Ranked seed =
    Ranked-of (zset_create seed) [] [] (zset_create-Ordered seed)
      (zsl_keys_lem (zset_create seed).zsl [] (zset_create-Ordered seed).skip)
