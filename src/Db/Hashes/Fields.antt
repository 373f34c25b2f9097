-- ===== src/Db/Hashes/Fields.antt =====
-- db.c: the fields that HSET and HMSET set.
use miniredis.Common.{
  ℕ, ◌+◌, Bytes, Option, none, some, List, [], ◌∷◌, ◌≡◌, ◌∙◌, refl, ap, arith, if◌then◌else◌,
  bytes_eq, c_str,
}
use miniredis.Dict.{Dict, dict_get, dict_set}
use miniredis.Dict.Laws.Valid.{IsValid, view, dict_get-view}
use miniredis.Dict.Laws.Ops.{held, dict_set-Writes}
use miniredis.Db.{one_new}
use miniredis.Db.Hashes.{hset_loop}

abbrev pub Fields : Type 0
Fields = Bytes → Option Bytes

-- The fields after the pairs were set in order, so that of a repeated field the last value stands.
abbrev pub assigned : List (Bytes × Bytes) → Fields → Fields
assigned [] w q = w q
assigned ((f, v) ∷ ps) w q =
    assigned ps (λ k. if bytes_eq (c_str f) k then some (c_str v) else w k) q

assigned-cong :
    (ps : List (Bytes × Bytes)) (w u : Fields) (q : Bytes)
    → ((k : Bytes) → w k ≡ u k)
    → assigned ps w q ≡ assigned ps u q
assigned-cong [] w u q e = e q
assigned-cong ((f, v) ∷ ps) w u q e = assigned-cong ps _ _ q (λ k. rw (e k) refl)

one_new-held : (n : ℕ) (o : Option Bytes) → one_new n o + held o ≡ n + 1
one_new-held n none = omega arith
one_new-held n (some x) = refl

-- On a well-formed hash, the loop of HSET sets the fields in order, so that of a repeated field the
-- last value stands, leaves the other fields and a well-formed hash, and adds to its count the
-- number of fields by which the hash grew.
pub hset_loop_lem :
    (ps : List (Bytes × Bytes)) (n : ℕ) (h : Dict Bytes)
    → IsValid h
    → let r = hset_loop ps n h in
      IsValid r.1
      × ((q : Bytes) → view r.1 q ≡ assigned ps (view h) q)
      × (r.0 + h.used ≡ n + r.1.used)
unfolding hset_loop
hset_loop_lem [] n h v = (v, λ q. refl, omega arith)
hset_loop_lem ((f, x) ∷ ps) n h v =
    let w = dict_set-Writes h (c_str f) (c_str x) v in
    let o = dict_get h (c_str f) in
    let h₁ = (dict_set h (c_str f) (c_str x)).1 in
    let (ok, views, total) = hset_loop_lem ps (one_new n o) h₁ w.valid in
    (
      ok,
      λ q. views q ∙ assigned-cong ps (view h₁) _ q w.views,
      omega (arith, total, one_new-held n o, ap held (dict_get-view h (c_str f) v), w.used),
    )
