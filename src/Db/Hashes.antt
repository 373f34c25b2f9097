-- ===== src/Db/Hashes.antt =====
-- db.c: the hash commands. The field `f` of a hash is a key of its dictionary.
pub mod Fields
pub mod Keeps
use miniredis.Common.{
  ℕ, ◌+◌, ◌*◌, Bytes, Bool, true, false, Option, none, some, List, [], ◌∷◌, ℤ, pos, if◌then◌else◌,
  bytes, length, c_str,
}
use miniredis.Util.Number.{string_to_ll, string_to_ll_n, format_ll}
use miniredis.Dict.{
  Entry, Dict, dict_create, dict_get, dict_set, dict_delete, dict_size, entries_of,
}
use miniredis.Object.{hash, robj_new_hash, never}
use miniredis.Server.Reply.{
  Client, reply_simple, reply_error, reply_integer, reply_bulk, reply_null, reply_array_header,
}
use miniredis.Db.{
  Db, Env, Command, store_set, store_write, lookup_key, reply_wrongtype, reply_arity, Typed,
  one_more, one_new, missing, wrongtype, held, as_hash, maybe_delete_key,
}
use miniredis.Db.Strings.{pairs_of}
use miniredis.Db.Strings.Counter.{checked_add}

-- A hash that was changed in place.
unfoldable pub write_hash : Db → Bytes → Dict Bytes → ℤ → Db
write_hash s key h e = store_write s key (record { obj = hash h; expire_at = e })

-- The object of a command that makes the hash where it is missing: the store that holds it, its
-- dictionary and its expiry.
unfoldable pub made : Bytes → Db → Bytes → Db
made seed s key = store_set s key (robj_new_hash seed)

unfoldable pub hset_loop : List (Bytes × Bytes) → ℕ → Dict Bytes → ℕ × Dict Bytes
hset_loop [] added h = (added, h)
hset_loop ((f, v) ∷ ps) added h =
    hset_loop ps (one_new added (dict_get h (c_str f))) (dict_set h (c_str f) (c_str v)).1

hset_into : Bool → Bytes → List (Bytes × Bytes) → Db → Client → Dict Bytes → ℤ → Db × Client
hset_into reply_ok key ps s c h e =
    let (added, h') = hset_loop ps 0 h in
    (
      write_hash s key h' e,
      if reply_ok then reply_simple c (bytes "OK") else reply_integer c (pos added),
    )

hset_found :
    Bool → Bytes → Bytes → List (Bytes × Bytes) → Db → Client → Typed (Dict Bytes) → Db × Client
hset_found reply_ok seed key ps s c wrongtype = (s, reply_wrongtype c)
hset_found reply_ok seed key ps s c missing =
    hset_into reply_ok key ps (made seed s key) c (dict_create seed) never
hset_found reply_ok seed key ps s c (held h e) = hset_into reply_ok key ps s c h e

hset_pairs : Bool → Env → Bytes → Bytes → Db → Client → Option (List (Bytes × Bytes)) → Db × Client
hset_pairs reply_ok env name key s c none = (s, reply_arity c name)
hset_pairs reply_ok env name key s c (some ps) =
    let (o, s') = lookup_key env.now s key in hset_found reply_ok env.seed key ps s' c (as_hash o)

unfoldable pub hash_set_many : Bool → Command
unfolding hset_pairs hset_found hset_into
hash_set_many reply_ok env (name ∷ key ∷ f ∷ v ∷ rest) s c =
    hset_pairs reply_ok env (c_str name) (c_str key) s c (pairs_of (f ∷ v ∷ rest))
hash_set_many reply_ok env [] s c = (s, reply_arity c [])
hash_set_many reply_ok env (name ∷ argv) s c = (s, reply_arity c (c_str name))

unfoldable pub cmd_hset : Command
cmd_hset = hash_set_many false

unfoldable pub cmd_hmset : Command
cmd_hmset = hash_set_many true

reply_value : Client → Option Bytes → Client
reply_value c none = reply_null c
reply_value c (some v) = reply_bulk c v

hget_found : Bytes → Client → Typed (Dict Bytes) → Client
hget_found f c missing = reply_null c
hget_found f c wrongtype = reply_wrongtype c
hget_found f c (held h e) = reply_value c (dict_get h f)

unfoldable pub cmd_hget : Command
unfolding hget_found reply_value
cmd_hget env (name ∷ key ∷ f ∷ []) s c =
    let (o, s') = lookup_key env.now s (c_str key) in (s', hget_found (c_str f) c (as_hash o))
cmd_hget env argv s c = (s, reply_arity c (bytes "hget"))

-- A missing hash answers null for every field.
unfoldable pub hmget_loop : Option (Dict Bytes) → List Bytes → Client → Client
unfolding reply_value
hmget_loop h [] c = c
hmget_loop h (f ∷ fs) c =
    hmget_loop h fs (reply_value c (elim h [ none ↦ none | some h' ↦ dict_get h' (c_str f) ]))

hmget_found : List Bytes → Client → Typed (Dict Bytes) → Client
hmget_found fs c wrongtype = reply_wrongtype c
hmget_found fs c missing = hmget_loop none fs (reply_array_header c (length fs))
hmget_found fs c (held h e) = hmget_loop (some h) fs (reply_array_header c (length fs))

unfoldable pub cmd_hmget : Command
unfolding hmget_found
cmd_hmget env (name ∷ key ∷ f ∷ fs) s c =
    let (o, s') = lookup_key env.now s (c_str key) in (s', hmget_found (f ∷ fs) c (as_hash o))
cmd_hmget env argv s c = (s, reply_arity c (bytes "hmget"))

unfoldable pub reply_pairs : Client → List (Entry Bytes) → Client
reply_pairs c [] = c
reply_pairs c (e ∷ es) = reply_pairs (reply_bulk (reply_bulk c e.key) e.val) es

hgetall_found : Client → Typed (Dict Bytes) → Client
hgetall_found c missing = reply_array_header c 0
hgetall_found c wrongtype = reply_wrongtype c
hgetall_found c (held h e) =
    reply_pairs (reply_array_header c (dict_size h * 2)) (entries_of h.table)

unfoldable pub cmd_hgetall : Command
unfolding hgetall_found
cmd_hgetall env (name ∷ key ∷ []) s c =
    let (o, s') = lookup_key env.now s (c_str key) in (s', hgetall_found c (as_hash o))
cmd_hgetall env argv s c = (s, reply_arity c (bytes "hgetall"))

unfoldable pub reply_either : Bool → Client → List (Entry Bytes) → Client
reply_either vals c [] = c
reply_either vals c (e ∷ es) = reply_either vals (reply_bulk c (if vals then e.val else e.key)) es

either_found : Bool → Client → Typed (Dict Bytes) → Client
either_found vals c missing = reply_array_header c 0
either_found vals c wrongtype = reply_wrongtype c
either_found vals c (held h e) =
    reply_either vals (reply_array_header c (dict_size h)) (entries_of h.table)

unfoldable pub hash_keys_or_vals : Bool → Command
unfolding either_found
hash_keys_or_vals vals env (name ∷ key ∷ []) s c =
    let (o, s') = lookup_key env.now s (c_str key) in (s', either_found vals c (as_hash o))
hash_keys_or_vals vals env [] s c = (s, reply_arity c [])
hash_keys_or_vals vals env (name ∷ argv) s c = (s, reply_arity c (c_str name))

unfoldable pub cmd_hkeys : Command
cmd_hkeys = hash_keys_or_vals false

unfoldable pub cmd_hvals : Command
cmd_hvals = hash_keys_or_vals true

hlen_found : Client → Typed (Dict Bytes) → Client
hlen_found c missing = reply_integer c (pos 0)
hlen_found c wrongtype = reply_wrongtype c
hlen_found c (held h e) = reply_integer c (pos (dict_size h))

unfoldable pub cmd_hlen : Command
unfolding hlen_found
cmd_hlen env (name ∷ key ∷ []) s c =
    let (o, s') = lookup_key env.now s (c_str key) in (s', hlen_found c (as_hash o))
cmd_hlen env argv s c = (s, reply_arity c (bytes "hlen"))

present : Option Bytes → ℤ
present none = pos 0
present (some v) = pos 1

hexists_found : Bytes → Client → Typed (Dict Bytes) → Client
hexists_found f c missing = reply_integer c (pos 0)
hexists_found f c wrongtype = reply_wrongtype c
hexists_found f c (held h e) = reply_integer c (present (dict_get h f))

unfoldable pub cmd_hexists : Command
unfolding hexists_found present
cmd_hexists env (name ∷ key ∷ f ∷ []) s c =
    let (o, s') = lookup_key env.now s (c_str key) in (s', hexists_found (c_str f) c (as_hash o))
cmd_hexists env argv s c = (s, reply_arity c (bytes "hexists"))

unfoldable pub hdel_loop : List Bytes → ℕ → Dict Bytes → ℕ × Dict Bytes
hdel_loop [] removed h = (removed, h)
hdel_loop (f ∷ fs) removed h =
    let (v, h') = dict_delete h (c_str f) in hdel_loop fs (one_more removed v) h'

hdel_found : Bytes → List Bytes → Db → Client → Typed (Dict Bytes) → Db × Client
hdel_found key fs s c missing = (s, reply_integer c (pos 0))
hdel_found key fs s c wrongtype = (s, reply_wrongtype c)
hdel_found key fs s c (held h e) =
    let (removed, h') = hdel_loop fs 0 h in
    (maybe_delete_key (write_hash s key h' e) key (hash h'), reply_integer c (pos removed))

unfoldable pub cmd_hdel : Command
unfolding hdel_found
cmd_hdel env (name ∷ key ∷ f ∷ fs) s c =
    let (o, s') = lookup_key env.now s (c_str key) in
    hdel_found (c_str key) (f ∷ fs) s' c (as_hash o)
cmd_hdel env argv s c = (s, reply_arity c (bytes "hdel"))

hsetnx_into : Bytes → Bytes → Bytes → Db → Client → Dict Bytes → ℤ → Option Bytes → Db × Client
hsetnx_into key f v s c h e (some old) = (s, reply_integer c (pos 0))
hsetnx_into key f v s c h e none = (write_hash s key (dict_set h f v).1 e, reply_integer c (pos 1))

hsetnx_found : Bytes → Bytes → Bytes → Bytes → Db → Client → Typed (Dict Bytes) → Db × Client
hsetnx_found seed key f v s c wrongtype = (s, reply_wrongtype c)
hsetnx_found seed key f v s c missing =
    let h : Dict Bytes = dict_create seed in
    hsetnx_into key f v (made seed s key) c h never (dict_get h f)
hsetnx_found seed key f v s c (held h e) = hsetnx_into key f v s c h e (dict_get h f)

unfoldable pub cmd_hsetnx : Command
unfolding hsetnx_found hsetnx_into
cmd_hsetnx env (name ∷ key ∷ f ∷ v ∷ []) s c =
    let (o, s') = lookup_key env.now s (c_str key) in
    hsetnx_found env.seed (c_str key) (c_str f) (c_str v) s' c (as_hash o)
cmd_hsetnx env argv s c = (s, reply_arity c (bytes "hsetnx"))

hincrby_write : Bytes → Bytes → Db → Client → Dict Bytes → ℤ → Option ℤ → Db × Client
hincrby_write key f s c h e none =
    (s, reply_error c (bytes "increment or decrement would overflow"))
hincrby_write key f s c h e (some nv) =
    (write_hash s key (dict_set h f (format_ll nv)).1 e, reply_integer c nv)

hincrby_parsed : Bytes → Bytes → ℤ → Db → Client → Dict Bytes → ℤ → Option ℤ → Db × Client
hincrby_parsed key f delta s c h e none = (s, reply_error c (bytes "hash value is not an integer"))
hincrby_parsed key f delta s c h e (some cur) = hincrby_write key f s c h e (checked_add cur delta)

-- The number that a field holds; a missing field counts as 0.
field_number : Option Bytes → Option ℤ
field_number none = some (pos 0)
field_number (some v) = string_to_ll_n v

hincrby_found : Bytes → Bytes → Bytes → ℤ → Db → Client → Typed (Dict Bytes) → Db × Client
hincrby_found seed key f delta s c wrongtype = (s, reply_wrongtype c)
hincrby_found seed key f delta s c missing =
    let h : Dict Bytes = dict_create seed in
    hincrby_parsed key f delta (made seed s key) c h never (field_number (dict_get h f))
hincrby_found seed key f delta s c (held h e) =
    hincrby_parsed key f delta s c h e (field_number (dict_get h f))

hincrby_delta : Env → Bytes → Bytes → Db → Client → Option ℤ → Db × Client
hincrby_delta env key f s c none =
    (s, reply_error c (bytes "value is not an integer or out of range"))
hincrby_delta env key f s c (some delta) =
    let (o, s') = lookup_key env.now s key in hincrby_found env.seed key f delta s' c (as_hash o)

unfoldable pub cmd_hincrby : Command
unfolding hincrby_delta hincrby_found hincrby_parsed hincrby_write field_number
cmd_hincrby env (name ∷ key ∷ f ∷ delta ∷ []) s c =
    hincrby_delta env (c_str key) (c_str f) s c (string_to_ll delta)
cmd_hincrby env argv s c = (s, reply_arity c (bytes "hincrby"))
