-- ===== src/Db/Strings.antt =====
-- db.c: the string commands.
pub mod Set
pub mod Range
pub mod Counter
pub mod Outcome
pub mod Readback
pub mod Keeps
use miniredis.Common.{
  ℕ, suc, Bytes, Bool, true, false, ◌&&◌, Option, none, some, List, [], ◌∷◌, ◌++◌, ℤ, pos, negsuc,
  if◌then◌else◌, bytes, length, c_str, bytes_eq, ◌+◌,
}
use miniredis.Object.{Obj, str, Robj, robj_new_string}
use miniredis.Dict.{dict_set}
use miniredis.Server.Reply.{
  Client, reply_simple, reply_error, reply_integer, reply_bulk, reply_bulk_cstr, reply_null,
  reply_array_header,
}
use miniredis.Db.{
  Db, Env, Command, store_set, store_write, store_delete, lookup_key, reply_wrongtype, reply_arity,
  Typed, missing, wrongtype, held, as_string,
}

unfoldable pub get_reply : Client → Typed Bytes → Client
get_reply c missing = reply_null c
get_reply c wrongtype = reply_wrongtype c
get_reply c (held b e) = reply_bulk c b

unfoldable pub cmd_get : Command
unfolding get_reply
cmd_get env (name ∷ key ∷ []) s c =
    let (o, s') = lookup_key env.now s (c_str key) in (s', get_reply c (as_string o))
cmd_get env argv s c = (s, reply_arity c (bytes "get"))

mget_item : Client → Typed Bytes → Client
mget_item c missing = reply_null c
mget_item c wrongtype = reply_null c
mget_item c (held b e) = reply_bulk c b

unfoldable pub mget_loop : Env → List Bytes → Db → Client → Db × Client
unfolding mget_item
mget_loop env [] s c = (s, c)
mget_loop env (key ∷ keys) s c =
    let (o, s') = lookup_key env.now s (c_str key) in
    mget_loop env keys s' (mget_item c (as_string o))

unfoldable pub cmd_mget : Command
cmd_mget env (name ∷ key ∷ keys) s c =
    mget_loop env (key ∷ keys) s (reply_array_header c (suc (length keys)))
cmd_mget env argv s c = (s, reply_arity c (bytes "mget"))

-- The pairs of `mset`; `none` where the last key has no value, which the caller refuses first.
unfoldable pub pairs_of : List Bytes → Option (List (Bytes × Bytes))
pairs_of [] = some []
pairs_of (k ∷ []) = none
pairs_of (k ∷ v ∷ rest) = elim (pairs_of rest) [ none ↦ none | some ps ↦ some ((k, v) ∷ ps) ]

unfoldable pub mset_loop : List (Bytes × Bytes) → Db → Db
mset_loop [] s = s
mset_loop ((k, v) ∷ ps) s = mset_loop ps (store_set s (c_str k) (robj_new_string (c_str v)))

mset_pairs : Option (List (Bytes × Bytes)) → Db → Client → Db × Client
mset_pairs none s c = (s, reply_arity c (bytes "mset"))
mset_pairs (some ps) s c = (mset_loop ps s, reply_simple c (bytes "OK"))

unfoldable pub cmd_mset : Command
unfolding mset_pairs
cmd_mset env (name ∷ k ∷ v ∷ rest) s c = mset_pairs (pairs_of (k ∷ v ∷ rest)) s c
cmd_mset env argv s c = (s, reply_arity c (bytes "mset"))

append_found : Bytes → Bytes → Db → Client → Typed Bytes → Db × Client
append_found key val s c missing =
    (store_set s key (robj_new_string val), reply_integer c (pos (length val)))
append_found key val s c wrongtype = (s, reply_wrongtype c)
append_found key val s c (held b e) =
    let whole = b ++ val in
    (
      store_write s key (record { obj = str whole; expire_at = e }),
      reply_integer c (pos (length whole)),
    )

unfoldable pub cmd_append : Command
unfolding append_found
cmd_append env (name ∷ key ∷ val ∷ []) s c =
    let (o, s') = lookup_key env.now s (c_str key) in
    append_found (c_str key) (c_str val) s' c (as_string o)
cmd_append env argv s c = (s, reply_arity c (bytes "append"))

strlen_found : Client → Typed Bytes → Client
strlen_found c missing = reply_integer c (pos 0)
strlen_found c wrongtype = reply_wrongtype c
strlen_found c (held b e) = reply_integer c (pos (length b))

unfoldable pub cmd_strlen : Command
unfolding strlen_found
cmd_strlen env (name ∷ key ∷ []) s c =
    let (o, s') = lookup_key env.now s (c_str key) in (s', strlen_found c (as_string o))
cmd_strlen env argv s c = (s, reply_arity c (bytes "strlen"))

rename_found : Bytes → Bytes → Db → Client → Option Robj → Db × Client
rename_found src dst s c none = (s, reply_error c (bytes "no such key"))
rename_found src dst s c (some o) =
    (store_set (store_delete s src) dst o, reply_simple c (bytes "OK"))

unfoldable pub cmd_rename : Command
unfolding rename_found
cmd_rename env (name ∷ src ∷ dst ∷ []) s c =
    let (o, s') = lookup_key env.now s (c_str src) in
    if bytes_eq (c_str src) (c_str dst)
    then (s, reply_error c (bytes "source and destination objects are the same"))
    else rename_found (c_str src) (c_str dst) s' c o
cmd_rename env argv s c = (s, reply_arity c (bytes "rename"))

setnx_found : Bytes → Bytes → Db → Client → Option Robj → Db × Client
setnx_found key val s c (some o) = (s, reply_integer c (pos 0))
setnx_found key val s c none = (store_set s key (robj_new_string val), reply_integer c (pos 1))

unfoldable pub cmd_setnx : Command
unfolding setnx_found
cmd_setnx env (name ∷ key ∷ val ∷ []) s c =
    let (o, s') = lookup_key env.now s (c_str key) in setnx_found (c_str key) (c_str val) s' c o
cmd_setnx env argv s c = (s, reply_arity c (bytes "setnx"))

-- The value that `dict_set` returned is replied; it is a string, since the type was tested.
getset_found : Bytes → Bytes → Db → Client → Typed Bytes → Db × Client
getset_found key val s c missing = (store_set s key (robj_new_string val), reply_null c)
getset_found key val s c wrongtype = (s, reply_wrongtype c)
getset_found key val s c (held b e) = (store_set s key (robj_new_string val), reply_bulk c b)

unfoldable pub cmd_getset : Command
unfolding getset_found
cmd_getset env (name ∷ key ∷ val ∷ []) s c =
    let (o, s') = lookup_key env.now s (c_str key) in
    getset_found (c_str key) (c_str val) s' c (as_string o)
cmd_getset env argv s c = (s, reply_arity c (bytes "getset"))
