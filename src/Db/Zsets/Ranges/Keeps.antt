-- ===== src/Db/Zsets/Ranges/Keeps.antt =====
-- db.c: the queries of ranges of a sorted set keep the store well formed.
use miniredis.Common.{
  true, false, Bytes, Bool, List, [], ◌∷◌, Option, none, some, ℤ, c_str, Bool-cases, inl, inr,
  bytes,
}
use miniredis.Server.Reply.{Client}
use miniredis.Util.Number.{string_to_ll}
use miniredis.Db.{Db, Env}
use miniredis.Db.Live.{DbValid}
use miniredis.Db.Keeps.{Keeps, lookup_key-DbValid}
use miniredis.Db.Strings.Set.{is_option}
use miniredis.Db.Doubles.{parse_score_arg}
use miniredis.Db.Zsets.Ranges.{
  zrange_common, zrange_parsed, cmd_zrangebyscore, byscore_bounds, byscore_options_read,
  byscore_options, Bound, Options, window, syntax_error, invalid_limit, cmd_zcount, zcount_bounds,
}

zrange_parsed-DbValid :
    (env : Env) (rev withscores : Bool) (k : Bytes) (s : Db) (c : Client) (a b : Option ℤ)
    → DbValid s
    → DbValid (zrange_parsed env rev withscores k s c a b).0
unfolding zrange_parsed
zrange_parsed-DbValid env rev ws k s c (some a) (some b) v = lookup_key-DbValid env.now k v
zrange_parsed-DbValid env rev ws k s c (some a) none v = v
zrange_parsed-DbValid env rev ws k s c none b v = v

pub zrange_common-Keeps : (rev : Bool) → Keeps (zrange_common rev)
unfolding zrange_common
zrange_common-Keeps rev env (name ∷ key ∷ a ∷ b ∷ []) s c v =
    zrange_parsed-DbValid env rev false (c_str key) s c (string_to_ll a) (string_to_ll b) v
zrange_common-Keeps rev env (name ∷ key ∷ a ∷ b ∷ x ∷ []) s c v =
    elim (Bool-cases (is_option x (bytes "WITHSCORES"))) [
      | inl yes' ↦
          rw yes'
            (zrange_parsed-DbValid env rev true (c_str key) s c (string_to_ll a) (string_to_ll b) v)
      | inr no' ↦ rw no' v
    ]
zrange_common-Keeps rev env argv s c v = v

byscore_options_read-DbValid :
    (env : Env) (k : Bytes) (min max : Bound) (s : Db) (c : Client) (o : Options)
    → DbValid s
    → DbValid (byscore_options_read env k min max s c o).0
unfolding byscore_options_read
byscore_options_read-DbValid env k min max s c syntax_error v = v
byscore_options_read-DbValid env k min max s c invalid_limit v = v
byscore_options_read-DbValid env k min max s c (window w) v = lookup_key-DbValid env.now k v

byscore_bounds-DbValid :
    (env : Env) (k : Bytes) (opts : List Bytes) (s : Db) (c : Client) (min max : Option Bound)
    → DbValid s
    → DbValid (byscore_bounds env k opts s c min max).0
unfolding byscore_bounds
byscore_bounds-DbValid env k opts s c (some min) (some max) v =
    byscore_options_read-DbValid env k min max s c (byscore_options opts) v
byscore_bounds-DbValid env k opts s c (some min) none v = v
byscore_bounds-DbValid env k opts s c none max v = v

pub cmd_zrangebyscore-Keeps : Keeps cmd_zrangebyscore
unfolding cmd_zrangebyscore
cmd_zrangebyscore-Keeps env (name ∷ key ∷ min ∷ max ∷ opts) s c v =
    byscore_bounds-DbValid env (c_str key) opts s c (parse_score_arg env.libm (c_str min))
      (parse_score_arg env.libm (c_str max)) v
cmd_zrangebyscore-Keeps env argv s c v = v

zcount_bounds-DbValid :
    (env : Env) (k : Bytes) (s : Db) (c : Client) (min max : Option Bound)
    → DbValid s
    → DbValid (zcount_bounds env k s c min max).0
unfolding zcount_bounds
zcount_bounds-DbValid env k s c (some min) (some max) v = lookup_key-DbValid env.now k v
zcount_bounds-DbValid env k s c (some min) none v = v
zcount_bounds-DbValid env k s c none max v = v

pub cmd_zcount-Keeps : Keeps cmd_zcount
unfolding cmd_zcount
cmd_zcount-Keeps env (name ∷ key ∷ min ∷ max ∷ []) s c v =
    zcount_bounds-DbValid env (c_str key) s c (parse_score_arg env.libm (c_str min))
      (parse_score_arg env.libm (c_str max)) v
cmd_zcount-Keeps env argv s c v = v
