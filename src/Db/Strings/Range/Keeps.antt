-- ===== src/Db/Strings/Range/Keeps.antt =====
-- db.c: GETRANGE and SETRANGE keep the store well formed.
use miniredis.Common.{Bytes, [], ◌∷◌, Option, none, some, ℤ, pos, negsuc, c_str}
use miniredis.Object.{robj_new_string}
use miniredis.Server.Reply.{Client}
use miniredis.Util.Number.{string_to_ll}
use miniredis.Db.{Db, Env, as_string}
use miniredis.Db.Live.{DbValid}
use miniredis.Db.Keeps.{
  Keeps, looked_up, lookup_key-DbValid, store_write-DbValid, set-write-DbValid, on_string,
}
use miniredis.Db.Strings.Range.{
  cmd_getrange, getrange_parsed, cmd_setrange, setrange_parsed, setrange_found, setrange_write,
}

getrange_parsed-DbValid :
    (env : Env) (k : Bytes) (s : Db) (c : Client) (a b : Option ℤ)
    → DbValid s
    → DbValid (getrange_parsed env k s c a b).0
unfolding getrange_parsed
getrange_parsed-DbValid env k s c (some a) (some b) v = lookup_key-DbValid env.now k v
getrange_parsed-DbValid env k s c (some a) none v = v
getrange_parsed-DbValid env k s c none b v = v

pub cmd_getrange-Keeps : Keeps cmd_getrange
unfolding cmd_getrange
cmd_getrange-Keeps env (name ∷ key ∷ a ∷ b ∷ []) s c v =
    getrange_parsed-DbValid env (c_str key) s c (string_to_ll a) (string_to_ll b) v
cmd_getrange-Keeps env argv s c v = v

setrange_parsed-DbValid :
    (env : Env) (k x : Bytes) (s : Db) (c : Client) (offset : Option ℤ)
    → DbValid s
    → DbValid (setrange_parsed env k x s c offset).0
unfolding setrange_parsed setrange_found setrange_write robj_new_string
setrange_parsed-DbValid env k x s c none v = v
setrange_parsed-DbValid env k x s c (some (negsuc n)) v = v
setrange_parsed-DbValid env k x s c (some (pos n)) v =
    looked_up env.now k (λ o s'. setrange_found k n x s' c (as_string o)) v
      (λ o s' v' ok at.
        on_string (λ t. DbValid (setrange_found k n x s' c t).0) s' k o ok at
          (set-write-DbValid k _ _ v' tt tt) v'
          (λ b e old at'. store_write-DbValid v' k _ old at' tt))

pub cmd_setrange-Keeps : Keeps cmd_setrange
unfolding cmd_setrange
cmd_setrange-Keeps env (name ∷ key ∷ offset ∷ x ∷ []) s c v =
    setrange_parsed-DbValid env (c_str key) (c_str x) s c (string_to_ll offset) v
cmd_setrange-Keeps env argv s c v = v
