-- ===== src/Db/Sets/Keeps.antt =====
-- db.c: SADD, SREM and the queries of a set keep the store well formed.
use miniredis.Common.{Bytes, List, [], ◌∷◌, Option, none, some, ℕ, c_str}
use miniredis.Object.{robj_new_set}
use miniredis.Dict.{dict_get}
use miniredis.Dict.Laws.Valid.{IsValid, dict_create-IsValid}
use miniredis.Dict.Laws.Ops.{dict_set-Writes, dict_delete-Writes}
use miniredis.Db.{as_set}
use miniredis.Db.Live.{DbValid}
use miniredis.Db.Keeps.{
  Keeps, looked_up, lookup_key-DbValid, store_write-DbValid, set-write-DbValid,
  maybe_delete_key-DbValid, on_set,
}
use miniredis.Db.Sets.{
  Members, write_set, add_member, sadd_loop, sadd_into, sadd_found, cmd_sadd, srem_loop, srem_found,
  cmd_srem, cmd_sismember, cmd_scard, cmd_smembers,
}

add_member-IsValid :
    (x : Bytes) (n : ℕ) (m : Members) (there : Option (Unit {0}))
    → IsValid m
    → IsValid (add_member x n m there).1
unfolding add_member
add_member-IsValid x n m none ok = (dict_set-Writes m x tt ok).valid
add_member-IsValid x n m (some mark) ok = ok

sadd_loop-IsValid :
    (xs : List Bytes) (n : ℕ) (m : Members) → IsValid m → IsValid (sadd_loop xs n m).1
unfolding sadd_loop
sadd_loop-IsValid [] n m ok = ok
sadd_loop-IsValid (x ∷ xs) n m ok =
    sadd_loop-IsValid xs _ _ (add_member-IsValid (c_str x) n m (dict_get m (c_str x)) ok)

pub cmd_sadd-Keeps : Keeps cmd_sadd
unfolding cmd_sadd sadd_found sadd_into write_set robj_new_set
cmd_sadd-Keeps env (name ∷ key ∷ x ∷ xs) s c v =
    let k = c_str key in
    let fresh = (dict_create-IsValid {V = Unit {0}} env.seed).0 in
    looked_up env.now k (λ o s'. sadd_found env.seed k (x ∷ xs) s' c (as_set o)) v
      (λ o s' v' ok at.
        on_set (λ t. DbValid (sadd_found env.seed k (x ∷ xs) s' c t).0) s' k o ok at
          (set-write-DbValid k _ _ v' fresh (sadd_loop-IsValid (x ∷ xs) 0 _ fresh)) v'
          (λ m e old at' valid.
            store_write-DbValid v' k _ old at' (sadd_loop-IsValid (x ∷ xs) 0 m valid)))
cmd_sadd-Keeps env argv s c v = v

srem_loop-IsValid :
    (xs : List Bytes) (n : ℕ) (m : Members) → IsValid m → IsValid (srem_loop xs n m).1
unfolding srem_loop
srem_loop-IsValid [] n m ok = ok
srem_loop-IsValid (x ∷ xs) n m ok =
    srem_loop-IsValid xs _ _ (dict_delete-Writes m (c_str x) ok).valid

pub cmd_srem-Keeps : Keeps cmd_srem
unfolding cmd_srem srem_found write_set
cmd_srem-Keeps env (name ∷ key ∷ x ∷ xs) s c v =
    let k = c_str key in
    looked_up env.now k (λ o s'. srem_found k (x ∷ xs) s' c (as_set o)) v
      (λ o s' v' ok at.
        on_set (λ t. DbValid (srem_found k (x ∷ xs) s' c t).0) s' k o ok at v' v'
          (λ m e old at' valid.
            maybe_delete_key-DbValid
              (store_write-DbValid v' k _ old at' (srem_loop-IsValid (x ∷ xs) 0 m valid)) k _))
cmd_srem-Keeps env argv s c v = v

pub cmd_sismember-Keeps : Keeps cmd_sismember
unfolding cmd_sismember
cmd_sismember-Keeps env (name ∷ key ∷ x ∷ []) s c v = lookup_key-DbValid env.now (c_str key) v
cmd_sismember-Keeps env argv s c v = v

pub cmd_scard-Keeps : Keeps cmd_scard
unfolding cmd_scard
cmd_scard-Keeps env (name ∷ key ∷ []) s c v = lookup_key-DbValid env.now (c_str key) v
cmd_scard-Keeps env argv s c v = v

pub cmd_smembers-Keeps : Keeps cmd_smembers
unfolding cmd_smembers
cmd_smembers-Keeps env (name ∷ key ∷ []) s c v = lookup_key-DbValid env.now (c_str key) v
cmd_smembers-Keeps env argv s c v = v
