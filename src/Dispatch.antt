-- ===== src/Dispatch.antt =====
-- db.c: the command table and `dispatch_command`, on the server's globals: the store, the
-- append-only file, and the snapshot.
pub mod Save
pub mod Replay
pub mod Keeps
pub mod Reach
use miniredis.Common.{
  ℕ, Bytes, Bool, true, false, not, ◌&&◌, Option, none, some, List, [], ◌∷◌, ◌++◌, bytes, c_str,
  str_case_eq, if◌then◌else◌,
}
use miniredis.Server.Reply.{Client, reply_error}
use miniredis.Files.{Call, Replacing}
use miniredis.Aof.{Aof, Log, closed, at_path, replaced, is_open, aof_append_command}
use miniredis.Db.{Db, Env, Command}
use miniredis.Db.Keys.{
  cmd_ping, cmd_echo, cmd_select, cmd_quit, cmd_del, cmd_exists, cmd_type, cmd_keys, cmd_flushall,
  cmd_dbsize, cmd_info, cmd_command,
}
use miniredis.Db.Strings.Set.{cmd_set, cmd_setex}
use miniredis.Db.Strings.{
  cmd_get, cmd_mget, cmd_mset, cmd_append, cmd_strlen, cmd_rename, cmd_setnx, cmd_getset,
}
use miniredis.Db.Strings.Counter.{cmd_incr, cmd_decr}
use miniredis.Db.Strings.Range.{cmd_getrange, cmd_setrange}
use miniredis.Db.Keys.Expiry.{
  cmd_expire, cmd_pexpire, cmd_expireat, cmd_pexpireat, cmd_ttl, cmd_pttl,
}
use miniredis.Db.Lists.{cmd_lpush, cmd_rpush, cmd_lpushx, cmd_rpushx, cmd_lpop, cmd_rpop, cmd_llen}
use miniredis.Db.Lists.Ranges.{cmd_lrange, cmd_lindex, cmd_ltrim}
use miniredis.Db.Lists.Edits.{cmd_lset, cmd_lrem, cmd_linsert}
use miniredis.Db.Hashes.{
  cmd_hset, cmd_hmset, cmd_hget, cmd_hmget, cmd_hgetall, cmd_hkeys, cmd_hvals, cmd_hlen,
  cmd_hexists, cmd_hdel, cmd_hsetnx, cmd_hincrby,
}
use miniredis.Db.Doubles.{cmd_hincrbyfloat}
use miniredis.Db.Sets.{cmd_sadd, cmd_srem, cmd_sismember, cmd_scard, cmd_smembers}
use miniredis.Db.Sets.Pop.{cmd_spop}
use miniredis.Db.Sets.Algebra.{cmd_sinter, cmd_sunion, cmd_sdiff}
use miniredis.Db.Zsets.{
  cmd_zadd, cmd_zcard, cmd_zscore, cmd_zrem, cmd_zrank, cmd_zrevrank, cmd_zincrby,
}
use miniredis.Db.Zsets.Ranges.{cmd_zrange, cmd_zrevrange, cmd_zrangebyscore, cmd_zcount}
use miniredis.Dispatch.Save.{
  Server, Sys, Handler, on_store, cmd_save, cmd_bgsave, cmd_rewriteaof, cmd_bgrewriteaof,
}

pub record CmdEntry : Type 0 where
  pub name : Bytes
  pub is_write : Bool
  pub fn : Handler

query : Bytes → Command → CmdEntry
query name f = record { name = name; is_write = false; fn = on_store f }

mutation : Bytes → Command → CmdEntry
mutation name f = record { name = name; is_write = true; fn = on_store f }

control : Bytes → Handler → CmdEntry
control name f = record { name = name; is_write = false; fn = f }

-- INFO reads the time of the start.
info : Handler
info sys env argv srv c = on_store (cmd_info srv.start_ms) sys env argv srv c

unfoldable pub commands : List CmdEntry
unfolding query mutation control info
commands =
    query (bytes "ping") cmd_ping
    ∷ query (bytes "echo") cmd_echo
    ∷ query (bytes "select") cmd_select
    ∷ query (bytes "quit") cmd_quit
    ∷ mutation (bytes "set") cmd_set
    ∷ query (bytes "get") cmd_get
    ∷ mutation (bytes "del") cmd_del
    ∷ query (bytes "exists") cmd_exists
    ∷ mutation (bytes "incr") cmd_incr
    ∷ mutation (bytes "decr") cmd_decr
    ∷ query (bytes "mget") cmd_mget
    ∷ mutation (bytes "mset") cmd_mset
    ∷ mutation (bytes "append") cmd_append
    ∷ query (bytes "strlen") cmd_strlen
    ∷ query (bytes "getrange") cmd_getrange
    ∷ mutation (bytes "setrange") cmd_setrange
    ∷ mutation (bytes "rename") cmd_rename
    ∷ mutation (bytes "setnx") cmd_setnx
    ∷ mutation (bytes "setex") cmd_setex
    ∷ mutation (bytes "getset") cmd_getset
    ∷ mutation (bytes "expire") cmd_expire
    ∷ mutation (bytes "pexpire") cmd_pexpire
    ∷ mutation (bytes "expireat") cmd_expireat
    ∷ mutation (bytes "pexpireat") cmd_pexpireat
    ∷ query (bytes "ttl") cmd_ttl
    ∷ query (bytes "pttl") cmd_pttl
    ∷ query (bytes "type") cmd_type
    ∷ mutation (bytes "lpush") cmd_lpush
    ∷ mutation (bytes "rpush") cmd_rpush
    ∷ mutation (bytes "lpushx") cmd_lpushx
    ∷ mutation (bytes "rpushx") cmd_rpushx
    ∷ mutation (bytes "lpop") cmd_lpop
    ∷ mutation (bytes "rpop") cmd_rpop
    ∷ query (bytes "llen") cmd_llen
    ∷ query (bytes "lrange") cmd_lrange
    ∷ query (bytes "lindex") cmd_lindex
    ∷ mutation (bytes "lset") cmd_lset
    ∷ mutation (bytes "ltrim") cmd_ltrim
    ∷ mutation (bytes "lrem") cmd_lrem
    ∷ mutation (bytes "linsert") cmd_linsert
    ∷ mutation (bytes "hset") cmd_hset
    ∷ mutation (bytes "hmset") cmd_hmset
    ∷ query (bytes "hget") cmd_hget
    ∷ query (bytes "hmget") cmd_hmget
    ∷ query (bytes "hgetall") cmd_hgetall
    ∷ query (bytes "hkeys") cmd_hkeys
    ∷ query (bytes "hvals") cmd_hvals
    ∷ query (bytes "hlen") cmd_hlen
    ∷ query (bytes "hexists") cmd_hexists
    ∷ mutation (bytes "hdel") cmd_hdel
    ∷ mutation (bytes "hsetnx") cmd_hsetnx
    ∷ mutation (bytes "hincrby") cmd_hincrby
    ∷ mutation (bytes "hincrbyfloat") cmd_hincrbyfloat
    ∷ mutation (bytes "sadd") cmd_sadd
    ∷ mutation (bytes "srem") cmd_srem
    ∷ query (bytes "sismember") cmd_sismember
    ∷ query (bytes "scard") cmd_scard
    ∷ query (bytes "smembers") cmd_smembers
    ∷ mutation (bytes "spop") cmd_spop
    ∷ query (bytes "sinter") cmd_sinter
    ∷ query (bytes "sunion") cmd_sunion
    ∷ query (bytes "sdiff") cmd_sdiff
    ∷ mutation (bytes "zadd") cmd_zadd
    ∷ query (bytes "zcard") cmd_zcard
    ∷ query (bytes "zscore") cmd_zscore
    ∷ mutation (bytes "zrem") cmd_zrem
    ∷ query (bytes "zrange") cmd_zrange
    ∷ query (bytes "zrevrange") cmd_zrevrange
    ∷ query (bytes "zrangebyscore") cmd_zrangebyscore
    ∷ query (bytes "zrank") cmd_zrank
    ∷ query (bytes "zrevrank") cmd_zrevrank
    ∷ mutation (bytes "zincrby") cmd_zincrby
    ∷ query (bytes "zcount") cmd_zcount
    ∷ query (bytes "keys") cmd_keys
    ∷ mutation (bytes "flushall") cmd_flushall
    ∷ query (bytes "dbsize") cmd_dbsize
    ∷ control (bytes "info") info
    ∷ query (bytes "command") cmd_command
    ∷ control (bytes "save") cmd_save
    ∷ control (bytes "bgsave") cmd_bgsave
    ∷ control (bytes "rewriteaof") cmd_rewriteaof
    ∷ control (bytes "bgrewriteaof") cmd_bgrewriteaof
    ∷ []

-- The first entry whose name the argument is, whatever its case.
unfoldable pub find_command : Bytes → List CmdEntry → Option CmdEntry
find_command name [] = none
find_command name (e ∷ es) =
    let rest = find_command name es in if str_case_eq e.name name then some e else rest

-- A command that changes the data is logged before it runs.
unfoldable pub log_command : Sys → List Bytes → Bool → Aof → Aof
log_command sys argv is_write a =
    if is_write && (is_open a.log && not a.replaying)
    then (aof_append_command sys.writes argv a).1
    else a

run_found : Sys → Env → List Bytes → Bytes → Option CmdEntry → Server → Client → Server × Client
run_found sys env argv name none srv c =
    (srv, reply_error c (bytes "unknown command '" ++ (name ++ bytes "'")))
run_found sys env argv name (some e) srv c =
    e.fn sys env argv (record srv { aof = log_command sys argv e.is_write srv.aof }) c

unfoldable pub dispatch_command : Sys → Env → List Bytes → Server → Client → Server × Client
unfolding run_found
dispatch_command sys env [] srv c = (srv, c)
dispatch_command sys env (name ∷ args) srv c =
    run_found sys env (name ∷ args) (c_str name) (find_command (c_str name) commands) srv c
