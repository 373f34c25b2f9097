-- ===== src/Db/Lists/Ranges/Keeps.antt =====
-- db.c: LRANGE, LINDEX and LTRIM keep the store well formed.
use miniredis.Common.{◌≡◌, Bytes, List, [], ◌∷◌, Option, none, some, ℕ, ℤ, c_str, length}
use miniredis.Object.{Robj}
use miniredis.Server.Reply.{Client}
use miniredis.Util.Number.{string_to_ll}
use miniredis.Db.{Db, Env, as_list}
use miniredis.Db.Live.{DbValid, view_of}
use miniredis.Db.Keeps.{
  Keeps, looked_up, lookup_key-DbValid, store_delete-DbValid, store_write-DbValid, on_list,
}
use miniredis.Db.Lists.{write_list}
use miniredis.Db.Lists.Ranges.{
  cmd_lrange, lrange_parsed, cmd_lindex, lindex_parsed, cmd_ltrim, ltrim_parsed, ltrim_found,
  ltrim_range, range_normalize,
}

lrange_parsed-DbValid :
    (env : Env) (k : Bytes) (s : Db) (c : Client) (a b : Option ℤ)
    → DbValid s
    → DbValid (lrange_parsed env k s c a b).0
unfolding lrange_parsed
lrange_parsed-DbValid env k s c (some a) (some b) v = lookup_key-DbValid env.now k v
lrange_parsed-DbValid env k s c (some a) none v = v
lrange_parsed-DbValid env k s c none b v = v

pub cmd_lrange-Keeps : Keeps cmd_lrange
unfolding cmd_lrange
cmd_lrange-Keeps env (name ∷ key ∷ a ∷ b ∷ []) s c v =
    lrange_parsed-DbValid env (c_str key) s c (string_to_ll a) (string_to_ll b) v
cmd_lrange-Keeps env argv s c v = v

lindex_parsed-DbValid :
    (env : Env) (k : Bytes) (s : Db) (c : Client) (i : Option ℤ)
    → DbValid s
    → DbValid (lindex_parsed env k s c i).0
unfolding lindex_parsed
lindex_parsed-DbValid env k s c (some i) v = lookup_key-DbValid env.now k v
lindex_parsed-DbValid env k s c none v = v

pub cmd_lindex-Keeps : Keeps cmd_lindex
unfolding cmd_lindex
cmd_lindex-Keeps env (name ∷ key ∷ i ∷ []) s c v =
    lindex_parsed-DbValid env (c_str key) s c (string_to_ll i) v
cmd_lindex-Keeps env argv s c v = v

ltrim_range-DbValid :
    (k : Bytes) (s : Db) (c : Client) (l : List Bytes) (e : ℤ) (r : Option (ℕ × ℕ)) (old : Robj)
    → DbValid s
    → view_of s k ≡ some old
    → DbValid (ltrim_range k s c l e r).0
unfolding ltrim_range write_list
ltrim_range-DbValid k s c l e none old v at = store_delete-DbValid v k
ltrim_range-DbValid k s c l e (some r) old v at = store_write-DbValid v k _ old at tt

ltrim_parsed-DbValid :
    (env : Env) (k : Bytes) (s : Db) (c : Client) (a b : Option ℤ)
    → DbValid s
    → DbValid (ltrim_parsed env k s c a b).0
unfolding ltrim_parsed ltrim_found
ltrim_parsed-DbValid env k s c (some a) none v = v
ltrim_parsed-DbValid env k s c none b v = v
ltrim_parsed-DbValid env k s c (some a) (some b) v =
    looked_up env.now k (λ o s'. ltrim_found k a b s' c (as_list o)) v
      (λ o s' v' ok at.
        on_list (λ t. DbValid (ltrim_found k a b s' c t).0) s' k o ok at v' v'
          (λ l e old at'.
            ltrim_range-DbValid k s' c l e (range_normalize (length l) a b) old v' at'))

pub cmd_ltrim-Keeps : Keeps cmd_ltrim
unfolding cmd_ltrim
cmd_ltrim-Keeps env (name ∷ key ∷ a ∷ b ∷ []) s c v =
    ltrim_parsed-DbValid env (c_str key) s c (string_to_ll a) (string_to_ll b) v
cmd_ltrim-Keeps env argv s c v = v
