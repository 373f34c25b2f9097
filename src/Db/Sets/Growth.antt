-- ===== src/Db/Sets/Growth.antt =====
-- db.c: the members that SADD adds and SREM removes, and the fields that HSET sets and HDEL removes.
use miniredis.Common.{
  ℕ, ◌+◌, Bytes, Option, none, some, List, [], ◌∷◌, ◌≡◌, ◌∙◌, refl, sym, ap, inl, inr, arith,
  if◌then◌else◌, bytes_eq, eq_of_bytes_eq, c_str, Bool-cases, Option-cases,
}
use miniredis.Dict.{Dict, dict_get, dict_delete}
use miniredis.Dict.Laws.Valid.{IsValid, view, dict_get-view}
use miniredis.Dict.Laws.Ops.{held, dict_set-Writes, dict_delete-Writes}
use miniredis.Db.{one_more}
use miniredis.Db.Keys.Deletion.{named, named-cases}
use miniredis.Db.Sets.{Members, add_member, sadd_loop, srem_loop}

module _ {ℓ} {V : Type ℓ} where
  -- The dictionary is well formed, has `x` at the named keys, and the rest as before.
  pub record Covers (d : Dict V) (ks : List Bytes) (x : Option V) (d' : Dict V) : Type ℓ where
    pub valid : IsValid d'
    pub views : (q : Bytes) → view d' q ≡ (if named q ks then x else view d q)

  one_more-held : (n : ℕ) (o : Option V) → one_more n o ≡ n + held o
  one_more-held n none = omega arith
  one_more-held n (some x) = refl

  -- One key and then the others.
  Covers-cons :
      (k : Bytes) (ks : List Bytes) (x : Option V) (d d₁ d' : Dict V)
      → ((q : Bytes) → view d₁ q ≡ (if bytes_eq (c_str k) q then x else view d q))
      → Covers d₁ ks x d'
      → Covers d (k ∷ ks) x d'
  Covers-cons k ks x d d₁ d' first rest = record {
    valid = rest.valid;
    views = λ q. rest.views q ∙ named-cases q (c_str k) ks x (view d q) (view d₁ q) (first q);
  }

  Covers-nil : (d : Dict V) (x : Option V) → IsValid d → Covers d [] x d
  Covers-nil d x v = record { valid = v; views = λ q. refl }

-- SADD.
add_member_lem :
    (k : Bytes) (n : ℕ) (m : Members)
    → IsValid m
    → let r = add_member k n m (dict_get m k) in
      IsValid r.1
      × ((q : Bytes) → view r.1 q ≡ (if bytes_eq k q then some tt else view m q))
      × (r.0 + m.used ≡ n + r.1.used)
unfolding add_member
add_member_lem k n m v = elim (Option-cases (view m k)) [
  | inl new ↦
      let w = dict_set-Writes m k tt v in
      rw (dict_get-view m k v, new) (w.valid, w.views, omega (arith, w.used, ap held new))
  | inr (mark, there) ↦
      rw (dict_get-view m k v, there)
        (
          v,
          λ q. elim (Bool-cases (bytes_eq k q)) [
            | inl same ↦ rw same (ap (view m) (sym (eq_of_bytes_eq k q same)) ∙ there)
            | inr other ↦ rw other refl
          ],
          omega arith,
        )
]

-- On a well-formed set, the loop of SADD makes the named members and the old ones the members of a
-- well-formed set, and adds to its count the number of members by which the set grew.
pub sadd_loop_lem :
    (vs : List Bytes) (n : ℕ) (m : Members)
    → IsValid m
    → let r = sadd_loop vs n m in Covers m vs (some tt) r.1 × (r.0 + m.used ≡ n + r.1.used)
unfolding sadd_loop
sadd_loop_lem [] n m v = (Covers-nil m (some tt) v, omega arith)
sadd_loop_lem (k ∷ vs) n m v =
    let (ok, views, grown) = add_member_lem (c_str k) n m v in
    let r = add_member (c_str k) n m (dict_get m (c_str k)) in
    let (rest, total) = sadd_loop_lem vs r.0 r.1 ok in
    (Covers-cons k vs (some tt) m r.1 _ views rest, omega (arith, grown, total))

-- On a well-formed set, the loop of SREM leaves the members that are not named in a well-formed
-- set, and adds to its count the number of members by which the set shrank.
pub srem_loop_lem :
    (vs : List Bytes) (n : ℕ) (m : Members)
    → IsValid m
    → let r = srem_loop vs n m in Covers m vs none r.1 × (r.0 + r.1.used ≡ n + m.used)
unfolding srem_loop
srem_loop_lem [] n m v = (Covers-nil m none v, omega arith)
srem_loop_lem (k ∷ vs) n m v =
    let w = dict_delete-Writes m (c_str k) v in
    let r = dict_delete m (c_str k) in
    let (rest, total) = srem_loop_lem vs (one_more n r.0) r.1 w.valid in
    (
      Covers-cons k vs none m r.1 _ w.views rest,
      omega (arith, total, one_more-held n r.0, ap held w.returns, w.used),
    )
