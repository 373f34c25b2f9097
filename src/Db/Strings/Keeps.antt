-- ===== src/Db/Strings/Keeps.antt =====
-- db.c: the string commands keep the store well formed.
use miniredis.Common.{
  Bytes, List, [], ◌∷◌, Option, none, some, c_str, Bool-cases, inl, inr, bytes_eq,
}
use miniredis.Object.{Robj, robj_new_string}
use miniredis.Server.Reply.{Client}
use miniredis.Db.{Db, Env, as_string}
use miniredis.Db.Live.{DbValid, HoldsValid}
use miniredis.Db.Keeps.{
  Keeps, looked_up, lookup_key-DbValid, store_set-DbValid, store_delete-DbValid,
  store_write-DbValid, on_string,
}
use miniredis.Db.Strings.{
  cmd_get, cmd_mget, mget_loop, cmd_mset, mset_loop, mset_pairs, pairs_of, cmd_append, append_found,
  cmd_strlen, cmd_rename, rename_found, cmd_setnx, setnx_found, cmd_getset, getset_found,
}

pub cmd_get-Keeps : Keeps cmd_get
unfolding cmd_get
cmd_get-Keeps env (name ∷ key ∷ []) s c v = lookup_key-DbValid env.now (c_str key) v
cmd_get-Keeps env argv s c v = v

mget_loop-DbValid :
    (env : Env) (keys : List Bytes) (s : Db) (c : Client)
    → DbValid s
    → DbValid (mget_loop env keys s c).0
unfolding mget_loop
mget_loop-DbValid env [] s c v = v
mget_loop-DbValid env (key ∷ keys) s c v =
    mget_loop-DbValid env keys _ _ (lookup_key-DbValid env.now (c_str key) v)

pub cmd_mget-Keeps : Keeps cmd_mget
unfolding cmd_mget
cmd_mget-Keeps env (name ∷ key ∷ keys) s c v = mget_loop-DbValid env (key ∷ keys) s _ v
cmd_mget-Keeps env argv s c v = v

mset_loop-DbValid : (ps : List (Bytes × Bytes)) (s : Db) → DbValid s → DbValid (mset_loop ps s)
unfolding mset_loop robj_new_string
mset_loop-DbValid [] s v = v
mset_loop-DbValid ((k, x) ∷ ps) s v = mset_loop-DbValid ps _ (store_set-DbValid v (c_str k) _ tt)

mset_pairs-DbValid :
    (ps : Option (List (Bytes × Bytes))) (s : Db) (c : Client)
    → DbValid s
    → DbValid (mset_pairs ps s c).0
unfolding mset_pairs
mset_pairs-DbValid none s c v = v
mset_pairs-DbValid (some ps) s c v = mset_loop-DbValid ps s v

pub cmd_mset-Keeps : Keeps cmd_mset
unfolding cmd_mset
cmd_mset-Keeps env (name ∷ k ∷ x ∷ rest) s c v = mset_pairs-DbValid (pairs_of (k ∷ x ∷ rest)) s c v
cmd_mset-Keeps env argv s c v = v

pub cmd_append-Keeps : Keeps cmd_append
unfolding cmd_append append_found robj_new_string
cmd_append-Keeps env (name ∷ key ∷ x ∷ []) s c v =
    let k = c_str key in
    looked_up env.now k (λ o s'. append_found k (c_str x) s' c (as_string o)) v
      (λ o s' v' ok at.
        on_string (λ t. DbValid (append_found k (c_str x) s' c t).0) s' k o ok at
          (store_set-DbValid v' k _ tt) v' (λ b e old at'. store_write-DbValid v' k _ old at' tt))
cmd_append-Keeps env argv s c v = v

pub cmd_strlen-Keeps : Keeps cmd_strlen
unfolding cmd_strlen
cmd_strlen-Keeps env (name ∷ key ∷ []) s c v = lookup_key-DbValid env.now (c_str key) v
cmd_strlen-Keeps env argv s c v = v

rename_found-DbValid :
    (src dst : Bytes) (s : Db) (c : Client) (o : Option Robj)
    → DbValid s
    → HoldsValid o
    → DbValid (rename_found src dst s c o).0
unfolding rename_found
rename_found-DbValid src dst s c none v ok = v
rename_found-DbValid src dst s c (some o) v ok =
    store_set-DbValid (store_delete-DbValid v src) dst o ok

pub cmd_rename-Keeps : Keeps cmd_rename
unfolding cmd_rename
cmd_rename-Keeps env (name ∷ src ∷ dst ∷ []) s c v =
    elim (Bool-cases (bytes_eq (c_str src) (c_str dst))) [
      | inl same ↦ rw same v
      | inr other ↦ rw other (
          looked_up env.now (c_str src) (λ o s'. rename_found (c_str src) (c_str dst) s' c o) v
            (λ o s' v' ok at. rename_found-DbValid _ _ s' c o v' ok))
    ]
cmd_rename-Keeps env argv s c v = v

setnx_found-DbValid :
    (k x : Bytes) (s : Db) (c : Client) (o : Option Robj)
    → DbValid s
    → DbValid (setnx_found k x s c o).0
unfolding setnx_found robj_new_string
setnx_found-DbValid k x s c none v = store_set-DbValid v k _ tt
setnx_found-DbValid k x s c (some o) v = v

pub cmd_setnx-Keeps : Keeps cmd_setnx
unfolding cmd_setnx
cmd_setnx-Keeps env (name ∷ key ∷ x ∷ []) s c v =
    looked_up env.now (c_str key) (λ o s'. setnx_found (c_str key) (c_str x) s' c o) v
      (λ o s' v' ok at. setnx_found-DbValid _ _ s' c o v')
cmd_setnx-Keeps env argv s c v = v

pub cmd_getset-Keeps : Keeps cmd_getset
unfolding cmd_getset getset_found robj_new_string
cmd_getset-Keeps env (name ∷ key ∷ x ∷ []) s c v =
    let k = c_str key in
    looked_up env.now k (λ o s'. getset_found k (c_str x) s' c (as_string o)) v
      (λ o s' v' ok at.
        on_string (λ t. DbValid (getset_found k (c_str x) s' c t).0) s' k o ok at
          (store_set-DbValid v' k _ tt) v' (λ b e old at'. store_set-DbValid v' k _ tt))
cmd_getset-Keeps env argv s c v = v
