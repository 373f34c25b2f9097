-- ===== src/Object.antt =====
-- object.c, object.h: the value objects. An element of a list and a field of a hash is a string
-- object without expiry, so it is its bytes; a member of a set has no value.
use miniredis.Common.{Bytes, List, [], ℤ, negsuc}
use miniredis.Dict.{Dict, dict_create}
use miniredis.Util.Number.{format_ll}
use miniredis.Zset.{Zset, zset_create}

-- `type` and what `ptr` points to.
pub data Obj : Type 0 where
  str : Bytes → Obj
  list : List Bytes → Obj
  hash : Dict Bytes → Obj
  set : Dict (Unit {0}) → Obj
  zset : Zset → Obj

-- `expire_at` is -1 for "never".
pub record Robj : Type 0 where
  pub obj : Obj
  pub expire_at : ℤ

abbrev pub never : ℤ
never = negsuc 0

unfoldable pub robj_new_string : Bytes → Robj
robj_new_string s = record { obj = str s; expire_at = never }

unfoldable pub robj_new_string_ll : ℤ → Robj
unfolding robj_new_string
robj_new_string_ll v = robj_new_string (format_ll v)

unfoldable pub robj_new_list : Robj
robj_new_list = record { obj = list []; expire_at = never }

unfoldable pub robj_new_hash : Bytes → Robj
robj_new_hash seed = record { obj = hash (dict_create seed); expire_at = never }

unfoldable pub robj_new_set : Bytes → Robj
robj_new_set seed = record { obj = set (dict_create seed); expire_at = never }

unfoldable pub robj_new_zset : Bytes → Robj
robj_new_zset seed = record { obj = zset (zset_create seed); expire_at = never }
