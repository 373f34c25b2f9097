-- ===== src/Db/Sets.antt =====
-- db.c: the set commands. A member is a key of the dictionary, whose value is only a mark.
pub mod Algebra
pub mod Growth
pub mod Pop
pub mod Keeps
use miniredis.Common.{
  ℕ, zero, suc, ◌+◌, Bytes, Bool, true, false, Option, none, some, List, [], ◌∷◌, ℤ, pos, negsuc,
  if◌then◌else◌, bytes, length, c_str,
}
use miniredis.Dict.{
  Entry, Dict, dict_create, dict_get, dict_set, dict_delete, dict_size, entries_of,
}
use miniredis.Object.{Obj, set, Robj, robj_new_set, never}
use miniredis.Server.Reply.{Client, reply_integer, reply_bulk, reply_array_header}
use miniredis.Db.{
  Db, Env, Command, store_set, store_write, lookup_key, reply_wrongtype, reply_arity, Typed,
  one_more, missing, wrongtype, held, as_set, maybe_delete_key,
}

abbrev pub Members : Type 0
Members = Dict (Unit {0})

-- A set that was changed in place.
unfoldable pub write_set : Db → Bytes → Members → ℤ → Db
write_set s key m e = store_write s key (record { obj = set m; expire_at = e })

-- One round of `cmd_sadd`: a member that is there stays.
add_member : Bytes → ℕ → Members → Option (Unit {0}) → ℕ × Members
add_member v added m (some mark) = (added, m)
add_member v added m none = (added + 1, (dict_set m v tt).1)

unfoldable pub sadd_loop : List Bytes → ℕ → Members → ℕ × Members
unfolding add_member
sadd_loop [] added m = (added, m)
sadd_loop (v ∷ vs) added m =
    let (added', m') = add_member (c_str v) added m (dict_get m (c_str v)) in sadd_loop vs added' m'

sadd_into : Bytes → List Bytes → Db → Client → Members → ℤ → Db × Client
sadd_into key vs s c m e =
    let (added, m') = sadd_loop vs 0 m in (write_set s key m' e, reply_integer c (pos added))

sadd_found : Bytes → Bytes → List Bytes → Db → Client → Typed Members → Db × Client
sadd_found seed key vs s c wrongtype = (s, reply_wrongtype c)
sadd_found seed key vs s c missing =
    sadd_into key vs (store_set s key (robj_new_set seed)) c (dict_create seed) never
sadd_found seed key vs s c (held m e) = sadd_into key vs s c m e

unfoldable pub cmd_sadd : Command
unfolding sadd_found sadd_into
cmd_sadd env (name ∷ key ∷ v ∷ vs) s c =
    let (o, s') = lookup_key env.now s (c_str key) in
    sadd_found env.seed (c_str key) (v ∷ vs) s' c (as_set o)
cmd_sadd env argv s c = (s, reply_arity c (bytes "sadd"))

unfoldable pub srem_loop : List Bytes → ℕ → Members → ℕ × Members
srem_loop [] removed m = (removed, m)
srem_loop (v ∷ vs) removed m =
    let (mark, m') = dict_delete m (c_str v) in srem_loop vs (one_more removed mark) m'

srem_found : Bytes → List Bytes → Db → Client → Typed Members → Db × Client
srem_found key vs s c missing = (s, reply_integer c (pos 0))
srem_found key vs s c wrongtype = (s, reply_wrongtype c)
srem_found key vs s c (held m e) =
    let (removed, m') = srem_loop vs 0 m in
    (maybe_delete_key (write_set s key m' e) key (set m'), reply_integer c (pos removed))

unfoldable pub cmd_srem : Command
unfolding srem_found
cmd_srem env (name ∷ key ∷ v ∷ vs) s c =
    let (o, s') = lookup_key env.now s (c_str key) in
    srem_found (c_str key) (v ∷ vs) s' c (as_set o)
cmd_srem env argv s c = (s, reply_arity c (bytes "srem"))

membership : Option (Unit {0}) → ℤ
membership none = pos 0
membership (some mark) = pos 1

sismember_found : Bytes → Client → Typed Members → Client
sismember_found v c missing = reply_integer c (pos 0)
sismember_found v c wrongtype = reply_wrongtype c
sismember_found v c (held m e) = reply_integer c (membership (dict_get m v))

unfoldable pub cmd_sismember : Command
unfolding sismember_found membership
cmd_sismember env (name ∷ key ∷ v ∷ []) s c =
    let (o, s') = lookup_key env.now s (c_str key) in (s', sismember_found (c_str v) c (as_set o))
cmd_sismember env argv s c = (s, reply_arity c (bytes "sismember"))

scard_found : Client → Typed Members → Client
scard_found c missing = reply_integer c (pos 0)
scard_found c wrongtype = reply_wrongtype c
scard_found c (held m e) = reply_integer c (pos (dict_size m))

unfoldable pub cmd_scard : Command
unfolding scard_found
cmd_scard env (name ∷ key ∷ []) s c =
    let (o, s') = lookup_key env.now s (c_str key) in (s', scard_found c (as_set o))
cmd_scard env argv s c = (s, reply_arity c (bytes "scard"))

unfoldable pub reply_members : Client → List (Entry (Unit {0})) → Client
reply_members c [] = c
reply_members c (e ∷ es) = reply_members (reply_bulk c e.key) es

smembers_found : Client → Typed Members → Client
smembers_found c missing = reply_array_header c 0
smembers_found c wrongtype = reply_wrongtype c
smembers_found c (held m e) =
    reply_members (reply_array_header c (dict_size m)) (entries_of m.table)

unfoldable pub cmd_smembers : Command
unfolding smembers_found
cmd_smembers env (name ∷ key ∷ []) s c =
    let (o, s') = lookup_key env.now s (c_str key) in (s', smembers_found c (as_set o))
cmd_smembers env argv s c = (s, reply_arity c (bytes "smembers"))
