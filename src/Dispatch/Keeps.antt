-- ===== src/Dispatch/Keeps.antt =====
-- db.c: whatever arrives, the store stays well formed: each entry of the command table keeps it so.
use miniredis.Common.{
  ◌≡◌, refl, Bytes, Bool, true, false, not, Option, none, some, List, [], ◌∷◌, pos, negsuc,
  Bool-cases, inl, inr, c_str, str_case_eq,
}
use miniredis.Server.Reply.{Client}
use miniredis.Db.Strings.Counter.{cmd_incr, cmd_decr}
use miniredis.Db.Keys.Expiry.{
  cmd_expire, cmd_pexpire, cmd_expireat, cmd_pexpireat, cmd_ttl, cmd_pttl,
}
use miniredis.Db.Lists.{cmd_lpush, cmd_rpush, cmd_lpushx, cmd_rpushx, cmd_lpop, cmd_rpop}
use miniredis.Db.Hashes.{cmd_hset, cmd_hmset, cmd_hkeys, cmd_hvals}
use miniredis.Db.Zsets.Ranges.{cmd_zrange, cmd_zrevrange}
use miniredis.Resp.RoundTrip.{All}
use miniredis.Aof.{Aof}
use miniredis.Db.{Env, Command}
use miniredis.Db.Live.{DbValid}
use miniredis.Db.Keeps.{Keeps, either}
use miniredis.Db.Doubles.Keeps.{cmd_hincrbyfloat-Keeps}
use miniredis.Db.Hashes.Keeps.{
  cmd_hdel-Keeps, cmd_hexists-Keeps, cmd_hget-Keeps, cmd_hgetall-Keeps, cmd_hincrby-Keeps,
  cmd_hlen-Keeps, cmd_hmget-Keeps, cmd_hsetnx-Keeps, hash_keys_or_vals-Keeps, hash_set_many-Keeps,
}
use miniredis.Db.Keys.Expiry.Keeps.{
  cmd_expire_generic-Keeps, cmd_expireat_generic-Keeps, cmd_ttl_generic-Keeps,
}
use miniredis.Db.Keys.Keeps.{
  cmd_command-Keeps, cmd_dbsize-Keeps, cmd_del-Keeps, cmd_echo-Keeps, cmd_exists-Keeps,
  cmd_flushall-Keeps, cmd_info-Keeps, cmd_keys-Keeps, cmd_ping-Keeps, cmd_quit-Keeps,
  cmd_select-Keeps, cmd_type-Keeps,
}
use miniredis.Db.Lists.Edits.Keeps.{cmd_linsert-Keeps, cmd_lrem-Keeps, cmd_lset-Keeps}
use miniredis.Db.Lists.Keeps.{cmd_llen-Keeps, cmd_pop-Keeps, cmd_push-Keeps}
use miniredis.Db.Lists.Ranges.Keeps.{cmd_lindex-Keeps, cmd_lrange-Keeps, cmd_ltrim-Keeps}
use miniredis.Db.Sets.Algebra.Keeps.{cmd_sdiff-Keeps, cmd_sinter-Keeps, cmd_sunion-Keeps}
use miniredis.Db.Sets.Keeps.{
  cmd_sadd-Keeps, cmd_scard-Keeps, cmd_sismember-Keeps, cmd_smembers-Keeps, cmd_srem-Keeps,
}
use miniredis.Db.Sets.Pop.Keeps.{cmd_spop-Keeps}
use miniredis.Db.Strings.Counter.Keeps.{incr_decr-Keeps}
use miniredis.Db.Strings.Keeps.{
  cmd_append-Keeps, cmd_get-Keeps, cmd_getset-Keeps, cmd_mget-Keeps, cmd_mset-Keeps,
  cmd_rename-Keeps, cmd_setnx-Keeps, cmd_strlen-Keeps,
}
use miniredis.Db.Strings.Range.Keeps.{cmd_getrange-Keeps, cmd_setrange-Keeps}
use miniredis.Db.Strings.Set.Keeps.{cmd_set-Keeps, cmd_setex-Keeps}
use miniredis.Db.Zsets.Keeps.{
  cmd_zadd-Keeps, cmd_zcard-Keeps, cmd_zincrby-Keeps, cmd_zrank-Keeps, cmd_zrem-Keeps,
  cmd_zrevrank-Keeps, cmd_zscore-Keeps,
}
use miniredis.Db.Zsets.Ranges.Keeps.{cmd_zcount-Keeps, cmd_zrangebyscore-Keeps, zrange_common-Keeps}
use miniredis.Dispatch.Save.{
  Server, Sys, Handler, on_store, cmd_save, cmd_bgsave, cmd_rewriteaof, cmd_bgrewriteaof, save_done,
  rewrite_done, reopen_done, is_alone,
}
use miniredis.Dispatch.{
  CmdEntry, commands, find_command, dispatch_command, run_found, query, mutation, control, info,
}

-- The handler leaves a well-formed store where it meets one.
abbrev pub Handles : Handler → Type 0
Handles f =
    (sys : Sys) (env : Env) (argv : List Bytes) (srv : Server) (c : Client)
    → DbValid srv.store
    → DbValid (f sys env argv srv c).0.store

kept : (f : Command) → Keeps f → Handles (on_store f)
unfolding on_store
kept f h sys env argv srv c v = h env argv srv.store c v

info-Handles : Handles info
unfolding info on_store
info-Handles sys env argv srv c v = cmd_info-Keeps srv.start_ms env argv srv.store c v

-- The server after a call, as far as its store goes.
StoreOk : Server × Client → Type 0
StoreOk r = DbValid r.0.store

save_done-StoreOk :
    (r : Bool × Bytes) (srv : Server) (c : Client) → DbValid srv.store → StoreOk (save_done r srv c)
unfolding save_done StoreOk
save_done-StoreOk (true, rdb) srv c v = v
save_done-StoreOk (false, rdb) srv c v = v

cmd_save-Handles : Handles cmd_save
unfolding cmd_save
cmd_save-Handles sys env argv srv c v =
    either (λ (r : Server × Client). DbValid r.0.store) (not (is_alone argv)) v
      (either (λ (r : Server × Client). DbValid r.0.store) (not srv.rdb_path) v
        (unfold StoreOk in save_done-StoreOk _ srv c v))

cmd_bgsave-Handles : Handles cmd_bgsave
unfolding cmd_bgsave
cmd_bgsave-Handles sys env argv srv c v =
    either (λ (r : Server × Client). DbValid r.0.store) (not (is_alone argv)) v
      (either (λ (r : Server × Client). DbValid r.0.store) (not srv.rdb_path) v
        (either (λ (r : Server × Client). DbValid r.0.store) (not sys.forks) v v))

reopen_done-StoreOk :
    (srv : Server) (c : Client) (r : Bool × Aof) → DbValid srv.store → StoreOk (reopen_done srv c r)
unfolding reopen_done StoreOk
reopen_done-StoreOk srv c (true, a) v = v
reopen_done-StoreOk srv c (false, a) v = v

rewrite_done-StoreOk :
    (sys : Sys) (srv : Server) (c : Client) (r : Bool × Bytes)
    → DbValid srv.store
    → StoreOk (rewrite_done sys srv c r)
unfolding rewrite_done
rewrite_done-StoreOk sys srv c (true, file) v = reopen_done-StoreOk srv c _ v
rewrite_done-StoreOk sys srv c (false, file) v = unfold StoreOk in v

cmd_rewriteaof-Handles : Handles cmd_rewriteaof
unfolding cmd_rewriteaof
cmd_rewriteaof-Handles sys env argv srv c v =
    either (λ (r : Server × Client). DbValid r.0.store) (not (is_alone argv)) v
      (either (λ (r : Server × Client). DbValid r.0.store) (not srv.aof_path) v
        (unfold StoreOk in rewrite_done-StoreOk sys srv c _ v))

cmd_bgrewriteaof-Handles : Handles cmd_bgrewriteaof
unfolding cmd_bgrewriteaof
cmd_bgrewriteaof-Handles sys env argv srv c v =
    either (λ (r : Server × Client). DbValid r.0.store) (not (is_alone argv)) v
      (either (λ (r : Server × Client). DbValid r.0.store) (not srv.aof_path) v
        (either (λ (r : Server × Client). DbValid r.0.store) srv.aof.rewriting v
          (either (λ (r : Server × Client). DbValid r.0.store) (not sys.forks) v v)))

abbrev EntryHandles : CmdEntry → Type 0
EntryHandles e = Handles e.fn

infixr 30 ◌▸◌
◌▸◌ : {A B : Type 0} → A → B → A × B
a ▸ b = (a, b)

-- Every command of the table.
commands-Handle : All EntryHandles commands
unfolding commands query mutation control cmd_incr cmd_decr cmd_expire cmd_pexpire cmd_expireat
    cmd_pexpireat cmd_ttl cmd_pttl cmd_lpush cmd_rpush cmd_lpushx cmd_rpushx cmd_lpop cmd_rpop
    cmd_hset cmd_hmset cmd_hkeys cmd_hvals cmd_zrange cmd_zrevrange
commands-Handle =
    kept _ cmd_ping-Keeps
    ▸ kept _ cmd_echo-Keeps
    ▸ kept _ cmd_select-Keeps
    ▸ kept _ cmd_quit-Keeps
    ▸ kept _ cmd_set-Keeps
    ▸ kept _ cmd_get-Keeps
    ▸ kept _ cmd_del-Keeps
    ▸ kept _ cmd_exists-Keeps
    ▸ kept _ (incr_decr-Keeps (pos 1))
    ▸ kept _ (incr_decr-Keeps (negsuc 0))
    ▸ kept _ cmd_mget-Keeps
    ▸ kept _ cmd_mset-Keeps
    ▸ kept _ cmd_append-Keeps
    ▸ kept _ cmd_strlen-Keeps
    ▸ kept _ cmd_getrange-Keeps
    ▸ kept _ cmd_setrange-Keeps
    ▸ kept _ cmd_rename-Keeps
    ▸ kept _ cmd_setnx-Keeps
    ▸ kept _ cmd_setex-Keeps
    ▸ kept _ cmd_getset-Keeps
    ▸ kept _ (cmd_expire_generic-Keeps false)
    ▸ kept _ (cmd_expire_generic-Keeps true)
    ▸ kept _ (cmd_expireat_generic-Keeps false)
    ▸ kept _ (cmd_expireat_generic-Keeps true)
    ▸ kept _ (cmd_ttl_generic-Keeps false)
    ▸ kept _ (cmd_ttl_generic-Keeps true)
    ▸ kept _ cmd_type-Keeps
    ▸ kept _ (cmd_push-Keeps true false)
    ▸ kept _ (cmd_push-Keeps false false)
    ▸ kept _ (cmd_push-Keeps true true)
    ▸ kept _ (cmd_push-Keeps false true)
    ▸ kept _ (cmd_pop-Keeps true)
    ▸ kept _ (cmd_pop-Keeps false)
    ▸ kept _ cmd_llen-Keeps
    ▸ kept _ cmd_lrange-Keeps
    ▸ kept _ cmd_lindex-Keeps
    ▸ kept _ cmd_lset-Keeps
    ▸ kept _ cmd_ltrim-Keeps
    ▸ kept _ cmd_lrem-Keeps
    ▸ kept _ cmd_linsert-Keeps
    ▸ kept _ (hash_set_many-Keeps false)
    ▸ kept _ (hash_set_many-Keeps true)
    ▸ kept _ cmd_hget-Keeps
    ▸ kept _ cmd_hmget-Keeps
    ▸ kept _ cmd_hgetall-Keeps
    ▸ kept _ (hash_keys_or_vals-Keeps false)
    ▸ kept _ (hash_keys_or_vals-Keeps true)
    ▸ kept _ cmd_hlen-Keeps
    ▸ kept _ cmd_hexists-Keeps
    ▸ kept _ cmd_hdel-Keeps
    ▸ kept _ cmd_hsetnx-Keeps
    ▸ kept _ cmd_hincrby-Keeps
    ▸ kept _ cmd_hincrbyfloat-Keeps
    ▸ kept _ cmd_sadd-Keeps
    ▸ kept _ cmd_srem-Keeps
    ▸ kept _ cmd_sismember-Keeps
    ▸ kept _ cmd_scard-Keeps
    ▸ kept _ cmd_smembers-Keeps
    ▸ kept _ cmd_spop-Keeps
    ▸ kept _ cmd_sinter-Keeps
    ▸ kept _ cmd_sunion-Keeps
    ▸ kept _ cmd_sdiff-Keeps
    ▸ kept _ cmd_zadd-Keeps
    ▸ kept _ cmd_zcard-Keeps
    ▸ kept _ cmd_zscore-Keeps
    ▸ kept _ cmd_zrem-Keeps
    ▸ kept _ (zrange_common-Keeps false)
    ▸ kept _ (zrange_common-Keeps true)
    ▸ kept _ cmd_zrangebyscore-Keeps
    ▸ kept _ cmd_zrank-Keeps
    ▸ kept _ cmd_zrevrank-Keeps
    ▸ kept _ cmd_zincrby-Keeps
    ▸ kept _ cmd_zcount-Keeps
    ▸ kept _ cmd_keys-Keeps
    ▸ kept _ cmd_flushall-Keeps
    ▸ kept _ cmd_dbsize-Keeps
    ▸ info-Handles
    ▸ kept _ cmd_command-Keeps
    ▸ cmd_save-Handles
    ▸ cmd_bgsave-Handles
    ▸ cmd_rewriteaof-Handles
    ▸ cmd_bgrewriteaof-Handles
    ▸ tt

find_command-Handles :
    (name : Bytes) (es : List CmdEntry) (e : CmdEntry)
    → All EntryHandles es
    → find_command name es ≡ some e
    → Handles e.fn
unfolding find_command
find_command-Handles name [] e all found = absurd cc
find_command-Handles name (x ∷ es) e (h, all) found = elim (Bool-cases (str_case_eq x.name name)) [
  | inl same ↦
      let here : some x ≡ some e = rw same at found in let this : x ≡ e = cc in rw (← this) h
  | inr other ↦ find_command-Handles name es e all (rw other at found)
]

run_found-StoreOk :
    (sys : Sys) (env : Env) (argv : List Bytes) (name : Bytes) (o : Option CmdEntry) (srv : Server)
    (c : Client)
    → ((e : CmdEntry) → o ≡ some e → Handles e.fn)
    → DbValid srv.store
    → DbValid (run_found sys env argv name o srv c).0.store
unfolding run_found
run_found-StoreOk sys env argv name none srv c h v = v
run_found-StoreOk sys env argv name (some e) srv c h v = h e refl sys env argv _ c v

-- dispatch
pub dispatch_command-DbValid :
    (sys : Sys) (env : Env) (argv : List Bytes) (srv : Server) (c : Client)
    → DbValid srv.store
    → DbValid (dispatch_command sys env argv srv c).0.store
unfolding dispatch_command
dispatch_command-DbValid sys env [] srv c v = v
dispatch_command-DbValid sys env (name ∷ args) srv c v =
    run_found-StoreOk sys env (name ∷ args) (c_str name) (find_command (c_str name) commands) srv c
      (λ e found. find_command-Handles (c_str name) commands e commands-Handle found) v
