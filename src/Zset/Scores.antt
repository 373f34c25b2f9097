-- ===== src/Zset/Scores.antt =====
-- zskiplist.c `zset_…`: a sorted set as a map from members to scores.
use miniredis.Common.{
  ℕ, ◌<◌, ◌≤◌, Bytes, Bool, true, false, Option, none, some, ◌≡◌, refl, sym, ap, ◌∙◌, arith,
  if◌then◌else◌, ◌==◌, bytes_eq, eq_of_bytes_eq, bytes_eq_refl, Bool-cases, Option-cases, inl, inr,
}
use miniredis.Double.{Double, eq_d}
use miniredis.Dict.Laws.Valid.{IsValid, view, dict_create-IsValid, dict_get-view}
use miniredis.Dict.Laws.Ops.{dict_set-Writes, dict_delete-Writes}
use miniredis.Skiplist.{Address, Skiplist, node_at, zsl_insert, zsl_delete}
use miniredis.Skiplist.Entries.{
  entry, entry-node_at, zsl_insert-Inserts, zsl_delete-others, zsl_delete-next,
}
use miniredis.Zset.{
  Zset, zset_create, node_of, Added, same_score, new_member, new_score, zset_link, zset_unlink,
  zset_add, zset_add_found, zset_remove, zset_remove_found, zset_score, score_at,
}

-- The dictionary's entry for `q` leads to a node of `q` that was given out.
abbrev pub Leads : Skiplist → Bytes → Option Address → Type 0
Leads z q none = Unit
Leads z q (some a) = (a < z.next_address) × (score : Double) × (entry z a ≡ some (q, score))

-- The invariant of a sorted set.
pub record ZsetValid (z : Zset) : Type 0 where
  pub members : IsValid z.dict
  pub leads : (q : Bytes) → Leads z.zsl q (view z.dict q)

-- The score of each member.
unfoldable pub scores : Zset → Bytes → Option Double
unfolding score_at
scores z q = score_at z.zsl (view z.dict q)

pub zset_score-scores : (z : Zset) (q : Bytes) → ZsetValid z → zset_score z q ≡ scores z q
unfolding zset_score scores node_of
zset_score-scores z q v = rw (dict_get-view z.dict q v.members) refl

pub zset_create-ZsetValid :
    (seed : Bytes)
    → ZsetValid (zset_create seed) × ((q : Bytes) → scores (zset_create seed) q ≡ none)
unfolding zset_create scores
zset_create-ZsetValid seed =
    let (ok, empty) = dict_create-IsValid {V = Address} seed in
    (record { members = ok; leads = λ q. rw (empty q) tt }, λ q. rw (empty q) refl)

-- The sorted set after the score of `m` became `s`.
pub record Scored (z : Zset) (m : Bytes) (s : Option Double) (z' : Zset) : Type 0 where
  pub valid : ZsetValid z'
  pub becomes : (q : Bytes) → scores z' q ≡ (if bytes_eq m q then s else scores z q)

-- What `q` has after a change: a node of its own with the score.
abbrev Has : Zset → Bytes → Option Double → Type 0
Has z q s = Leads z.zsl q (view z.dict q) × (scores z q ≡ s)

-- The node of `q` is untouched.
kept :
    (z z' : Skiplist) (q : Bytes) (o : Option Address)
    → Leads z q o
    → z.next_address ≤ z'.next_address
    → ((a : Address) (s : Double)
        → a < z.next_address
        → entry z a ≡ some (q, s)
        → entry z' a ≡ some (q, s))
    → Leads z' q o × (score_at z' o ≡ score_at z o)
unfolding score_at
kept z z' q none l n h = (tt, refl)
kept z z' q (some a) (lt, s, e) n h =
    let e' = h a s lt e in
    (
      (omega arith, s, e'),
      ap some ((entry-node_at z' a q s e').1 ∙ sym (entry-node_at z a q s e).1),
    )

pub zset_link-Scored :
    (rand : ℕ → ℕ) (s : Double) (m : Bytes) (z : Zset)
    → ZsetValid z
    → Scored z m (some s) (zset_link rand s m z).0
unfolding zset_link scores
zset_link-Scored rand s m z v =
    let r = zsl_insert rand s m z.zsl in
    let (fresh, i) = zsl_insert-Inserts rand s m z.zsl in
    let w = dict_set-Writes z.dict m r.0 v.members in
    let here : (r.0 == z.zsl.next_address) ≡ true = rw fresh (ground arith) in
    let e : entry r.1 r.0 ≡ some (m, s) = i.entries r.0 ∙ rw here refl in
    let has : (q : Bytes)
        → Has (zset_link rand s m z).0 q (if bytes_eq m q then some s else scores z q) =
      λ q. elim (Bool-cases (bytes_eq m q)) [
        | inl same ↦
            rw (w.views q, same)
              (
                (rw (fresh, i.next) (omega arith), s, rw (← eq_of_bytes_eq m q same) e),
                ap some (entry-node_at r.1 r.0 m s e).1,
              )
        | inr other ↦
            rw (w.views q, other)
              (kept z.zsl r.1 q (view z.dict q) (v.leads q) (rw i.next (omega arith)) (λ a s' lt e'.
                let apart : (a == z.zsl.next_address) ≡ false = ground arith in
                i.entries a ∙ rw apart e'))
      ] in
    record {
      valid = record { members = w.valid; leads = λ q. (has q).0 };
      becomes = λ q. (has q).1;
    }

pub bytes_eq-flip : (a b : Bytes) → bytes_eq a b ≡ false → bytes_eq b a ≡ false
bytes_eq-flip a b e = elim (Bool-cases (bytes_eq b a)) [
  | inl same ↦
      let h : bytes_eq a b ≡ true = rw (eq_of_bytes_eq b a same) (bytes_eq_refl a) in absurd cc
  | inr apart ↦ apart
]

pub zset_unlink-Scored :
    (m : Bytes) (x : Address) (z : Zset)
    → ZsetValid z
    → view z.dict m ≡ some x
    → Scored z m none (zset_unlink m x z)
unfolding zset_unlink scores
zset_unlink-Scored m x z v e =
    let n = node_at z.zsl x in
    let zsl' = (zsl_delete n.score n.member z.zsl).1 in
    let (lt, s, at) : Leads z.zsl m (some x) = rw e at (v.leads m) in
    let name : n.member ≡ m = (entry-node_at z.zsl x m s at).0 in
    let w = dict_delete-Writes z.dict m v.members in
    let next = zsl_delete-next n.score n.member z.zsl in
    let has : (q : Bytes) → Has (zset_unlink m x z) q (if bytes_eq m q then none else scores z q) =
      λ q. elim (Bool-cases (bytes_eq m q)) [
        | inl same ↦ rw (w.views q, same) (tt, refl)
        | inr other ↦
            rw (w.views q, other)
              (kept z.zsl zsl' q (view z.dict q) (v.leads q) (rw next (omega arith)) (λ a s' lt' e'.
                zsl_delete-others n.score n.member z.zsl a q s' e'
                  (rw name (bytes_eq-flip m q other))))
      ] in
    record {
      valid = record { members = w.valid; leads = λ q. (has q).0 };
      becomes = λ q. (has q).1;
    }

-- The score of a member that has `old` after an addition of `s`, and what `zset_add` returns.
abbrev pub score_after : Option Double → Double → Double
score_after none s = s
score_after (some old) s = if eq_d old s then old else s

abbrev pub added_of : Option Double → Double → Added
added_of none s = new_member
added_of (some old) s = if eq_d old s then same_score else new_score

abbrev pub is_member : Option Double → Bool
is_member none = false
is_member (some s) = true

-- A score that stays as it is.
unscored :
    (z : Zset) (m : Bytes) (s : Option Double) → ZsetValid z → scores z m ≡ s → Scored z m s z
unscored z m s v e = record {
  valid = v;
  becomes = λ q. elim (Bool-cases (bytes_eq m q)) [
    | inl same ↦ rw (same, ← eq_of_bytes_eq m q same) e
    | inr other ↦ rw other refl
  ];
}

-- Of two scores the last one stands.
rescored :
    {z z₁ z₂ : Zset} (m : Bytes) (s : Option Double) {s₁ : Option Double}
    → Scored z m s₁ z₁
    → Scored z₁ m s z₂
    → Scored z m s z₂
rescored m s a b = record {
  valid = b.valid;
  becomes = λ q. b.becomes q ∙ elim (Bool-cases (bytes_eq m q)) [
    | inl same ↦ rw same refl
    | inr other ↦ rw other (a.becomes q ∙ rw other refl)
  ];
}

-- On a well-formed sorted set, `zset_add` makes the score of the member the new one unless it
-- equals the old one, leaves every other member and score, and returns whether the member is new,
-- changed or as it was; the sorted set stays well formed.
pub zset_add-Scored :
    (rand : ℕ → ℕ) (s : Double) (m : Bytes) (z : Zset)
    → ZsetValid z
    → let r = zset_add rand z s m in
      (r.0 ≡ added_of (scores z m) s) × Scored z m (some (score_after (scores z m) s)) r.1
unfolding zset_add zset_add_found node_of
zset_add-Scored rand s m z v = elim (Option-cases (view z.dict m)) [
  | inl gone ↦
      let none' : scores z m ≡ none = unfold scores in rw gone refl in
      rw (dict_get-view z.dict m v.members, gone, none') (refl, zset_link-Scored rand s m z v)
  | inr (x, e) ↦
      let old = (node_at z.zsl x).score in
      let has : scores z m ≡ some old = unfold scores in rw e refl in
      rw (dict_get-view z.dict m v.members, e, has)
        elim (Bool-cases (eq_d old s)) [
          | inl same ↦ rw same (refl, unscored z m (some old) v has)
          | inr new ↦
              let gone = zset_unlink-Scored m x z v e in
              rw new (refl, rescored m (some s) gone (zset_link-Scored rand s m _ gone.valid))
        ]
]

-- On a well-formed sorted set, `zset_remove` returns whether the member was there, takes it away,
-- and leaves every other member and score; the sorted set stays well formed.
pub zset_remove-Scored :
    (m : Bytes) (z : Zset)
    → ZsetValid z
    → let r = zset_remove z m in (r.0 ≡ is_member (scores z m)) × Scored z m none r.1
unfolding zset_remove zset_remove_found node_of
zset_remove-Scored m z v = elim (Option-cases (view z.dict m)) [
  | inl gone ↦
      let none' : scores z m ≡ none = unfold scores in rw gone refl in
      rw (dict_get-view z.dict m v.members, gone, none') (refl, unscored z m none v none')
  | inr (x, e) ↦
      let has : scores z m ≡ some (node_at z.zsl x).score = unfold scores in rw e refl in
      rw (dict_get-view z.dict m v.members, e, has) (refl, zset_unlink-Scored m x z v e)
]
