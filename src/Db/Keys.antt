-- ===== src/Db/Keys.antt =====
-- db.c: commands on keys of any type, expiry, and the connection and server commands.
pub mod Expiry
pub mod Deletion
pub mod Listing
pub mod Keeps
use miniredis.Common.{
  ℕ, zero, suc, ◌+◌, Bytes, Bool, true, false, not, ◌&&◌, Option, none, some, List, [], ◌∷◌, ◌++◌,
  ℤ, pos, negsuc, pos_part, if◌then◌else◌, bytes, length, c_str, ◌-ℤ◌, ◌/◌,
}
use Expiry.{seconds}
use miniredis.Util.Number.{string_to_ll, format_ll, format_zu}
use miniredis.Util.Glob.{util_glob_match}
use miniredis.Dict.{Entry, dict_create, dict_delete, entries_of}
use miniredis.Object.{Obj, Robj}
use miniredis.Server.Reply.{
  Client, append, crlf, reply_simple, reply_error, reply_integer, reply_bulk, reply_bulk_cstr,
  reply_array_header,
}
use miniredis.Db.{
  Db, Env, Command, db_size, key_expired, lookup_key, one_more, reply_arity, type_name,
}

-- The number of keys that were there, and the store without them.
unfoldable pub del_loop : List Bytes → ℕ → Db → ℕ × Db
del_loop [] n s = (n, s)
del_loop (key ∷ keys) n s =
    let (dead, d) = dict_delete s.d (c_str key) in
    del_loop keys (one_more n dead) (record s { d = d })

unfoldable pub cmd_del : Command
cmd_del env (name ∷ key ∷ keys) s c =
    let (n, s') = del_loop (key ∷ keys) 0 s in (s', reply_integer c (pos n))
cmd_del env argv s c = (s, reply_arity c (bytes "del"))

unfoldable pub exists_loop : ℤ → List Bytes → ℕ → Db → ℕ × Db
exists_loop now [] n s = (n, s)
exists_loop now (key ∷ keys) n s =
    let (o, s') = lookup_key now s (c_str key) in exists_loop now keys (one_more n o) s'

unfoldable pub cmd_exists : Command
cmd_exists env (name ∷ key ∷ keys) s c =
    let (n, s') = exists_loop env.now (key ∷ keys) 0 s in (s', reply_integer c (pos n))
cmd_exists env argv s c = (s, reply_arity c (bytes "exists"))

type_found : Client → Option Robj → Client
type_found c none = reply_simple c (bytes "none")
type_found c (some o) = reply_simple c (type_name o.obj)

unfoldable pub cmd_type : Command
unfolding type_found
cmd_type env (name ∷ key ∷ []) s c =
    let (o, s') = lookup_key env.now s (c_str key) in (s', type_found c o)
cmd_type env argv s c = (s, reply_arity c (bytes "type"))

-- The test of both passes over the dictionary.
unfoldable pub key_matches : ℤ → Bytes → Entry Robj → Bool
key_matches now pat e = not (key_expired now e.val) && util_glob_match pat e.key

unfoldable pub count_matches : ℤ → Bytes → List (Entry Robj) → ℕ
count_matches now pat [] = 0
count_matches now pat (e ∷ es) =
    let n = count_matches now pat es in if key_matches now pat e then suc n else n

unfoldable pub reply_matches : ℤ → Bytes → List (Entry Robj) → Client → Client
reply_matches now pat [] c = c
reply_matches now pat (e ∷ es) c =
    reply_matches now pat es (if key_matches now pat e then reply_bulk c e.key else c)

unfoldable pub cmd_keys : Command
cmd_keys env (name ∷ pat ∷ []) s c =
    let es = entries_of s.d.table in
    let header = reply_array_header c (count_matches env.now (c_str pat) es) in
    (s, reply_matches env.now (c_str pat) es header)
cmd_keys env argv s c = (s, reply_arity c (bytes "keys"))

unfoldable pub cmd_flushall : Command
cmd_flushall env (name ∷ []) s c =
    (record s { d = dict_create env.seed }, reply_simple c (bytes "OK"))
cmd_flushall env argv s c = (s, reply_arity c (bytes "flushall"))

unfoldable pub cmd_dbsize : Command
cmd_dbsize env (name ∷ []) s c = (s, reply_integer c (pos (db_size s)))
cmd_dbsize env argv s c = (s, reply_arity c (bytes "dbsize"))

-- `start` is `g_server_start_ms`.
unfoldable pub cmd_info : ℤ → Command
cmd_info start env argv s c =
    let uptime = format_ll (seconds (env.now -ℤ start)) in
    let head = bytes "# Server" ++ (crlf ++ (bytes "redis_version:6.2.0-miniredis" ++ crlf)) in
    let up = bytes "uptime_in_seconds:" ++ (uptime ++ (crlf ++ crlf)) in
    let keys =
      bytes "# Keyspace"
      ++ (crlf
          ++ (bytes "db0:keys="
              ++ (format_zu (db_size s) ++ (bytes ",expires=0,avg_ttl=0" ++ crlf)))) in
    (s, reply_bulk c (head ++ (up ++ keys)))

unfoldable pub cmd_command : Command
cmd_command env argv s c = (s, reply_array_header c 0)

select_index : Client → Option ℤ → Client
select_index c (some (pos n)) = reply_simple c (bytes "OK")
select_index c _ = reply_error c (bytes "invalid DB index")

unfoldable pub cmd_select : Command
unfolding select_index
cmd_select env (name ∷ index ∷ []) s c = (s, select_index c (string_to_ll index))
cmd_select env argv s c = (s, reply_arity c (bytes "select"))

unfoldable pub cmd_quit : Command
cmd_quit env argv s c = (s, record (reply_simple c (bytes "OK")) { closing = true })

unfoldable pub cmd_ping : Command
cmd_ping env (name ∷ []) s c = (s, reply_simple c (bytes "PONG"))
cmd_ping env (name ∷ text ∷ []) s c = (s, reply_bulk_cstr c text)
cmd_ping env argv s c = (s, reply_arity c (bytes "ping"))

unfoldable pub cmd_echo : Command
cmd_echo env (name ∷ text ∷ []) s c = (s, reply_bulk_cstr c text)
cmd_echo env argv s c = (s, reply_arity c (bytes "echo"))
