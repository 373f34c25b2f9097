-- ===== src/Db/Hashes/Keeps.antt =====
-- db.c: the hash commands keep the store well formed.
use miniredis.Common.{
  ◌≡◌, Bytes, Bool, List, [], ◌∷◌, Option, none, some, ℕ, ℤ, pos, c_str, Option-cases, inl, inr,
}
use miniredis.Object.{Robj, robj_new_hash, never}
use miniredis.Server.Reply.{Client}
use miniredis.Util.Number.{string_to_ll}
use miniredis.Dict.{Dict, dict_create, dict_set}
use miniredis.Dict.Laws.Valid.{IsValid, dict_create-IsValid}
use miniredis.Dict.Laws.Ops.{dict_set-Writes, dict_delete-Writes}
use miniredis.Db.{Db, Env, as_hash}
use miniredis.Db.Live.{DbValid, view_of, store_set-view}
use miniredis.Db.Keeps.{
  Keeps, looked_up, lookup_key-DbValid, store_set-DbValid, store_write-DbValid,
  maybe_delete_key-DbValid, on_hash,
}
use miniredis.Db.Hashes.{
  write_hash, made, hset_loop, hset_into, hset_found, hset_pairs, hash_set_many, cmd_hget,
  cmd_hmget, cmd_hgetall, hash_keys_or_vals, cmd_hlen, cmd_hexists, hdel_loop, hdel_found, cmd_hdel,
  hsetnx_into, hsetnx_found, cmd_hsetnx, hincrby_write, hincrby_parsed, hincrby_found,
  hincrby_delta, cmd_hincrby,
}
use miniredis.Db.Strings.{pairs_of}
use miniredis.Db.Strings.Counter.{checked_add}

dict_set-IsValid : (h : Dict Bytes) (f x : Bytes) → IsValid h → IsValid (dict_set h f x).1
dict_set-IsValid h f x ok = (dict_set-Writes h f x ok).valid

-- A hash that was made under the key.
pub fresh : (seed : Bytes) → IsValid (dict_create {V = Bytes} seed)
fresh seed = (dict_create-IsValid {V = Bytes} seed).0

pub made-DbValid : {s : Db} (seed k : Bytes) → DbValid s → DbValid (made seed s k)
unfolding made robj_new_hash
made-DbValid seed k v = store_set-DbValid v k _ (fresh seed)

pub made-view :
    {s : Db} (seed k : Bytes) → DbValid s → view_of (made seed s k) k ≡ some (robj_new_hash seed)
unfolding made
made-view {s} seed k v = store_set-view (pos 0) s v k (robj_new_hash seed)

pub write_hash-DbValid :
    {s : Db} (k : Bytes) (h : Dict Bytes) (e : ℤ) (old : Robj)
    → DbValid s
    → view_of s k ≡ some old
    → IsValid h
    → DbValid (write_hash s k h e)
unfolding write_hash
write_hash-DbValid k h e old v at ok = store_write-DbValid v k _ old at ok

hset_loop-IsValid :
    (ps : List (Bytes × Bytes)) (n : ℕ) (h : Dict Bytes) → IsValid h → IsValid (hset_loop ps n h).1
unfolding hset_loop
hset_loop-IsValid [] n h ok = ok
hset_loop-IsValid ((f, x) ∷ ps) n h ok =
    hset_loop-IsValid ps _ _ (dict_set-IsValid h (c_str f) (c_str x) ok)

hset_pairs-DbValid :
    (reply_ok : Bool) (env : Env) (name k : Bytes) (s : Db) (c : Client)
    (ps : Option (List (Bytes × Bytes)))
    → DbValid s
    → DbValid (hset_pairs reply_ok env name k s c ps).0
unfolding hset_pairs hset_found hset_into
hset_pairs-DbValid reply_ok env name k s c none v = v
hset_pairs-DbValid reply_ok env name k s c (some ps) v =
    looked_up env.now k (λ o s'. hset_found reply_ok env.seed k ps s' c (as_hash o)) v
      (λ o s' v' ok at.
        on_hash (λ t. DbValid (hset_found reply_ok env.seed k ps s' c t).0) s' k o ok at
          (write_hash-DbValid k _ _ _ (made-DbValid env.seed k v') (made-view env.seed k v')
            (hset_loop-IsValid ps 0 _ (fresh env.seed)))
          v'
          (λ h e old at' valid.
            write_hash-DbValid k _ _ old v' at' (hset_loop-IsValid ps 0 h valid)))

pub hash_set_many-Keeps : (reply_ok : Bool) → Keeps (hash_set_many reply_ok)
unfolding hash_set_many
hash_set_many-Keeps reply_ok env (name ∷ key ∷ f ∷ x ∷ rest) s c v =
    hset_pairs-DbValid reply_ok env (c_str name) (c_str key) s c (pairs_of (f ∷ x ∷ rest)) v
hash_set_many-Keeps reply_ok env [] s c v = v
hash_set_many-Keeps reply_ok env (name ∷ []) s c v = v
hash_set_many-Keeps reply_ok env (name ∷ key ∷ []) s c v = v
hash_set_many-Keeps reply_ok env (name ∷ key ∷ f ∷ []) s c v = v

pub cmd_hget-Keeps : Keeps cmd_hget
unfolding cmd_hget
cmd_hget-Keeps env (name ∷ key ∷ f ∷ []) s c v = lookup_key-DbValid env.now (c_str key) v
cmd_hget-Keeps env argv s c v = v

pub cmd_hmget-Keeps : Keeps cmd_hmget
unfolding cmd_hmget
cmd_hmget-Keeps env (name ∷ key ∷ f ∷ fs) s c v = lookup_key-DbValid env.now (c_str key) v
cmd_hmget-Keeps env argv s c v = v

pub cmd_hgetall-Keeps : Keeps cmd_hgetall
unfolding cmd_hgetall
cmd_hgetall-Keeps env (name ∷ key ∷ []) s c v = lookup_key-DbValid env.now (c_str key) v
cmd_hgetall-Keeps env argv s c v = v

pub hash_keys_or_vals-Keeps : (vals : Bool) → Keeps (hash_keys_or_vals vals)
unfolding hash_keys_or_vals
hash_keys_or_vals-Keeps vals env (name ∷ key ∷ []) s c v = lookup_key-DbValid env.now (c_str key) v
hash_keys_or_vals-Keeps vals env [] s c v = v
hash_keys_or_vals-Keeps vals env (name ∷ argv) s c v = v

pub cmd_hlen-Keeps : Keeps cmd_hlen
unfolding cmd_hlen
cmd_hlen-Keeps env (name ∷ key ∷ []) s c v = lookup_key-DbValid env.now (c_str key) v
cmd_hlen-Keeps env argv s c v = v

pub cmd_hexists-Keeps : Keeps cmd_hexists
unfolding cmd_hexists
cmd_hexists-Keeps env (name ∷ key ∷ f ∷ []) s c v = lookup_key-DbValid env.now (c_str key) v
cmd_hexists-Keeps env argv s c v = v

hdel_loop-IsValid :
    (fs : List Bytes) (n : ℕ) (h : Dict Bytes) → IsValid h → IsValid (hdel_loop fs n h).1
unfolding hdel_loop
hdel_loop-IsValid [] n h ok = ok
hdel_loop-IsValid (f ∷ fs) n h ok =
    hdel_loop-IsValid fs _ _ (dict_delete-Writes h (c_str f) ok).valid

pub cmd_hdel-Keeps : Keeps cmd_hdel
unfolding cmd_hdel hdel_found
cmd_hdel-Keeps env (name ∷ key ∷ f ∷ fs) s c v =
    let k = c_str key in
    looked_up env.now k (λ o s'. hdel_found k (f ∷ fs) s' c (as_hash o)) v
      (λ o s' v' ok at.
        on_hash (λ t. DbValid (hdel_found k (f ∷ fs) s' c t).0) s' k o ok at v' v'
          (λ h e old at' valid.
            maybe_delete_key-DbValid
              (write_hash-DbValid k _ e old v' at' (hdel_loop-IsValid (f ∷ fs) 0 h valid)) k _))
cmd_hdel-Keeps env argv s c v = v

hsetnx_into-DbValid :
    (k f x : Bytes) (s : Db) (c : Client) (h : Dict Bytes) (e : ℤ) (there : Option Bytes)
    (old : Robj)
    → DbValid s
    → view_of s k ≡ some old
    → IsValid h
    → DbValid (hsetnx_into k f x s c h e there).0
unfolding hsetnx_into
hsetnx_into-DbValid k f x s c h e (some y) old v at ok = v
hsetnx_into-DbValid k f x s c h e none old v at ok =
    write_hash-DbValid k _ e old v at (dict_set-IsValid h f x ok)

pub cmd_hsetnx-Keeps : Keeps cmd_hsetnx
unfolding cmd_hsetnx hsetnx_found
cmd_hsetnx-Keeps env (name ∷ key ∷ f ∷ x ∷ []) s c v =
    let k = c_str key in
    looked_up env.now k (λ o s'. hsetnx_found env.seed k (c_str f) (c_str x) s' c (as_hash o)) v
      (λ o s' v' ok at.
        on_hash (λ t. DbValid (hsetnx_found env.seed k (c_str f) (c_str x) s' c t).0) s' k o ok at
          (hsetnx_into-DbValid k _ _ _ c _ never _ _ (made-DbValid env.seed k v')
            (made-view env.seed k v') (fresh env.seed))
          v' (λ h e old at' valid. hsetnx_into-DbValid k _ _ s' c h e _ old v' at' valid))
cmd_hsetnx-Keeps env argv s c v = v

hincrby_parsed-DbValid :
    (k f : Bytes) (delta : ℤ) (s : Db) (c : Client) (h : Dict Bytes) (e : ℤ) (n : Option ℤ)
    (old : Robj)
    → DbValid s
    → view_of s k ≡ some old
    → IsValid h
    → DbValid (hincrby_parsed k f delta s c h e n).0
unfolding hincrby_parsed
hincrby_parsed-DbValid k f delta s c h e none old v at ok = v
hincrby_parsed-DbValid k f delta s c h e (some cur) old v at ok =
    elim (Option-cases (checked_add cur delta)) [
      | inl over ↦ rw over (unfold hincrby_write in v)
      | inr (nv, fits) ↦
          rw fits
            (unfold hincrby_write in write_hash-DbValid k _ e old v at (dict_set-IsValid h f _ ok))
    ]

hincrby_delta-DbValid :
    (env : Env) (k f : Bytes) (s : Db) (c : Client) (n : Option ℤ)
    → DbValid s
    → DbValid (hincrby_delta env k f s c n).0
unfolding hincrby_delta hincrby_found
hincrby_delta-DbValid env k f s c none v = v
hincrby_delta-DbValid env k f s c (some delta) v =
    looked_up env.now k (λ o s'. hincrby_found env.seed k f delta s' c (as_hash o)) v
      (λ o s' v' ok at.
        on_hash (λ t. DbValid (hincrby_found env.seed k f delta s' c t).0) s' k o ok at
          (hincrby_parsed-DbValid k f delta _ c _ never _ _ (made-DbValid env.seed k v')
            (made-view env.seed k v') (fresh env.seed))
          v' (λ h e old at' valid. hincrby_parsed-DbValid k f delta s' c h e _ old v' at' valid))

pub cmd_hincrby-Keeps : Keeps cmd_hincrby
unfolding cmd_hincrby
cmd_hincrby-Keeps env (name ∷ key ∷ f ∷ delta ∷ []) s c v =
    hincrby_delta-DbValid env (c_str key) (c_str f) s c (string_to_ll delta) v
cmd_hincrby-Keeps env argv s c v = v
