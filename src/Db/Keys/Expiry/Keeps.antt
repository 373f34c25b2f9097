-- ===== src/Db/Keys/Expiry/Keeps.antt =====
-- db.c: the commands on expiries keep the store well formed.
use miniredis.Common.{Bytes, Bool, [], ◌∷◌, Option, none, some, ℕ, ℤ, pos, negsuc, c_str}
use miniredis.Object.{Robj}
use miniredis.Server.Reply.{Client}
use miniredis.Util.Number.{string_to_ll}
use miniredis.Db.{Db, Env}
use miniredis.Db.Live.{DbValid, HoldsValid}
use miniredis.Db.Keeps.{Keeps, Stands, looked_up, lookup_key-DbValid, store_write-DbValid}
use miniredis.Db.Keys.Expiry.{
  cmd_expire_generic, expire_parsed, expire_found, expire_set, to_ms, cmd_expireat_generic,
  expireat_parsed, expireat_ms, expireat_found, cmd_ttl_generic,
}

expire_set-DbValid :
    (now : ℤ) (name k : Bytes) (s : Db) (c : Client) (o : Robj) (ms : Option ℕ)
    → DbValid s
    → HoldsValid (some o)
    → Stands s k (some o)
    → DbValid (expire_set now name k s c o ms).0
unfolding expire_set
expire_set-DbValid now name k s c o none v ok at = v
expire_set-DbValid now name k s c o (some ms) v ok at = store_write-DbValid v k _ o at ok

expire_found-DbValid :
    (is_ms : Bool) (now : ℤ) (name k : Bytes) (n : ℕ) (s : Db) (c : Client) (o : Option Robj)
    → DbValid s
    → HoldsValid o
    → Stands s k o
    → DbValid (expire_found is_ms now name k n s c o).0
unfolding expire_found
expire_found-DbValid is_ms now name k n s c none v ok at = v
expire_found-DbValid is_ms now name k n s c (some o) v ok at =
    expire_set-DbValid now name k s c o (to_ms is_ms n) v ok at

expire_parsed-DbValid :
    (is_ms : Bool) (env : Env) (name k : Bytes) (s : Db) (c : Client) (n : Option ℤ)
    → DbValid s
    → DbValid (expire_parsed is_ms env name k s c n).0
unfolding expire_parsed
expire_parsed-DbValid is_ms env name k s c none v = v
expire_parsed-DbValid is_ms env name k s c (some (negsuc n)) v = v
expire_parsed-DbValid is_ms env name k s c (some (pos n)) v =
    looked_up env.now k (λ o s'. expire_found is_ms env.now name k n s' c o) v
      (λ o s' v' ok at. expire_found-DbValid is_ms env.now name k n s' c o v' ok at)

pub cmd_expire_generic-Keeps : (is_ms : Bool) → Keeps (cmd_expire_generic is_ms)
unfolding cmd_expire_generic
cmd_expire_generic-Keeps is_ms env (name ∷ key ∷ time ∷ []) s c v =
    expire_parsed-DbValid is_ms env (c_str name) (c_str key) s c (string_to_ll time) v
cmd_expire_generic-Keeps is_ms env [] s c v = v
cmd_expire_generic-Keeps is_ms env (name ∷ argv) s c v = v

expireat_found-DbValid :
    (k : Bytes) (s : Db) (c : Client) (ms : ℕ) (o : Option Robj)
    → DbValid s
    → HoldsValid o
    → Stands s k o
    → DbValid (expireat_found k s c ms o).0
unfolding expireat_found
expireat_found-DbValid k s c ms none v ok at = v
expireat_found-DbValid k s c ms (some o) v ok at = store_write-DbValid v k _ o at ok

expireat_ms-DbValid :
    (env : Env) (name k : Bytes) (s : Db) (c : Client) (ms : Option ℕ)
    → DbValid s
    → DbValid (expireat_ms env name k s c ms).0
unfolding expireat_ms
expireat_ms-DbValid env name k s c none v = v
expireat_ms-DbValid env name k s c (some ms) v =
    looked_up env.now k (λ o s'. expireat_found k s' c ms o) v
      (λ o s' v' ok at. expireat_found-DbValid k s' c ms o v' ok at)

expireat_parsed-DbValid :
    (is_ms : Bool) (env : Env) (name k : Bytes) (s : Db) (c : Client) (n : Option ℤ)
    → DbValid s
    → DbValid (expireat_parsed is_ms env name k s c n).0
unfolding expireat_parsed
expireat_parsed-DbValid is_ms env name k s c none v = v
expireat_parsed-DbValid is_ms env name k s c (some (negsuc n)) v = v
expireat_parsed-DbValid is_ms env name k s c (some (pos n)) v =
    expireat_ms-DbValid env name k s c (to_ms is_ms n) v

pub cmd_expireat_generic-Keeps : (is_ms : Bool) → Keeps (cmd_expireat_generic is_ms)
unfolding cmd_expireat_generic
cmd_expireat_generic-Keeps is_ms env (name ∷ key ∷ time ∷ []) s c v =
    expireat_parsed-DbValid is_ms env (c_str name) (c_str key) s c (string_to_ll time) v
cmd_expireat_generic-Keeps is_ms env [] s c v = v
cmd_expireat_generic-Keeps is_ms env (name ∷ argv) s c v = v

pub cmd_ttl_generic-Keeps : (is_ms : Bool) → Keeps (cmd_ttl_generic is_ms)
unfolding cmd_ttl_generic
cmd_ttl_generic-Keeps is_ms env (name ∷ key ∷ []) s c v = lookup_key-DbValid env.now (c_str key) v
cmd_ttl_generic-Keeps is_ms env [] s c v = v
cmd_ttl_generic-Keeps is_ms env (name ∷ argv) s c v = v
