-- ===== src/Db/Lists/Edits/Keeps.antt =====
-- db.c: LSET, LREM and LINSERT keep the store well formed.
use miniredis.Common.{
  ◌≡◌, true, false, Bytes, Bool, List, [], ◌∷◌, Option, none, some, ℕ, ℤ, c_str, Bool-cases, inl,
  inr, str_case_eq, bytes,
}
use miniredis.Object.{Robj}
use miniredis.Server.Reply.{Client}
use miniredis.Util.Number.{string_to_ll}
use miniredis.Db.{Db, Env, lookup_key, as_list}
use miniredis.Db.Live.{DbValid, view_of}
use miniredis.Db.Keeps.{Keeps, looked_up, store_write-DbValid, maybe_delete_key-DbValid, on_list}
use miniredis.Db.Lists.{write_list}
use miniredis.Db.Lists.Ranges.{list_node_at}
use miniredis.Db.Lists.Edits.{
  cmd_lset, lset_parsed, lset_found, lset_node, cmd_lrem, lrem_parsed, lrem_found, cmd_linsert,
  linsert_found, linsert_pivot, insert_beside,
}

lset_node-DbValid :
    (k x : Bytes) (s : Db) (c : Client) (l : List Bytes) (e : ℤ) (i : Option ℕ) (old : Robj)
    → DbValid s
    → view_of s k ≡ some old
    → DbValid (lset_node k x s c l e i).0
unfolding lset_node write_list
lset_node-DbValid k x s c l e none old v at = v
lset_node-DbValid k x s c l e (some i) old v at = store_write-DbValid v k _ old at tt

lset_parsed-DbValid :
    (env : Env) (k x : Bytes) (s : Db) (c : Client) (i : Option ℤ)
    → DbValid s
    → DbValid (lset_parsed env k x s c i).0
unfolding lset_parsed lset_found
lset_parsed-DbValid env k x s c none v = v
lset_parsed-DbValid env k x s c (some i) v =
    looked_up env.now k (λ o s'. lset_found k i x s' c (as_list o)) v
      (λ o s' v' ok at.
        on_list (λ t. DbValid (lset_found k i x s' c t).0) s' k o ok at v' v'
          (λ l e old at'. lset_node-DbValid k x s' c l e (list_node_at l i) old v' at'))

pub cmd_lset-Keeps : Keeps cmd_lset
unfolding cmd_lset
cmd_lset-Keeps env (name ∷ key ∷ i ∷ x ∷ []) s c v =
    lset_parsed-DbValid env (c_str key) (c_str x) s c (string_to_ll i) v
cmd_lset-Keeps env argv s c v = v

lrem_parsed-DbValid :
    (env : Env) (k x : Bytes) (s : Db) (c : Client) (n : Option ℤ)
    → DbValid s
    → DbValid (lrem_parsed env k x s c n).0
unfolding lrem_parsed lrem_found write_list
lrem_parsed-DbValid env k x s c none v = v
lrem_parsed-DbValid env k x s c (some n) v =
    looked_up env.now k (λ o s'. lrem_found k n x s' c (as_list o)) v
      (λ o s' v' ok at.
        on_list (λ t. DbValid (lrem_found k n x s' c t).0) s' k o ok at v' v'
          (λ l e old at'. maybe_delete_key-DbValid (store_write-DbValid v' k _ old at' tt) k _))

pub cmd_lrem-Keeps : Keeps cmd_lrem
unfolding cmd_lrem
cmd_lrem-Keeps env (name ∷ key ∷ n ∷ x ∷ []) s c v =
    lrem_parsed-DbValid env (c_str key) (c_str x) s c (string_to_ll n) v
cmd_lrem-Keeps env argv s c v = v

linsert_pivot-DbValid :
    (k : Bytes) (s : Db) (c : Client) (e : ℤ) (l : Option (List Bytes)) (old : Robj)
    → DbValid s
    → view_of s k ≡ some old
    → DbValid (linsert_pivot k s c e l).0
unfolding linsert_pivot write_list
linsert_pivot-DbValid k s c e none old v at = v
linsert_pivot-DbValid k s c e (some l) old v at = store_write-DbValid v k _ old at tt

linsert_found-DbValid :
    (env : Env) (before : Bool) (k pivot x : Bytes) (s : Db) (c : Client)
    → DbValid s
    → let r = lookup_key env.now s k in
      DbValid (linsert_found before k pivot x r.1 c (as_list r.0)).0
unfolding linsert_found
linsert_found-DbValid env before k pivot x s c v =
    looked_up env.now k (λ o s'. linsert_found before k pivot x s' c (as_list o)) v
      (λ o s' v' ok at.
        on_list (λ t. DbValid (linsert_found before k pivot x s' c t).0) s' k o ok at v' v'
          (λ l e old at'.
            linsert_pivot-DbValid k s' c e (insert_beside before pivot x l) old v' at'))

pub cmd_linsert-Keeps : Keeps cmd_linsert
unfolding cmd_linsert
cmd_linsert-Keeps env (name ∷ key ∷ side ∷ pivot ∷ x ∷ []) s c v =
    let k = c_str key in
    elim (Bool-cases (str_case_eq (c_str side) (bytes "BEFORE"))) [
      | inl yes' ↦ rw yes' (linsert_found-DbValid env true k (c_str pivot) (c_str x) s c v)
      | inr no' ↦ rw no' (elim (Bool-cases (str_case_eq (c_str side) (bytes "AFTER"))) [
        | inl yes' ↦ rw yes' (linsert_found-DbValid env false k (c_str pivot) (c_str x) s c v)
        | inr not' ↦ rw not' v
      ])
    ]
cmd_linsert-Keeps env argv s c v = v
