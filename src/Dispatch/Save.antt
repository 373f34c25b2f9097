-- ===== src/Dispatch/Save.antt =====
-- db.c: SAVE, BGSAVE, REWRITEAOF and BGREWRITEAOF, which act on files and processes; server.c
-- `reap_children`.
use miniredis.Common.{ℤ, Bytes, Bool, true, false, not, List, [], ◌∷◌, bytes, if◌then◌else◌}
use miniredis.Server.Reply.{Client, reply_simple, reply_error}
use miniredis.Files.{Call, Replacing}
use miniredis.Rdb.{rdb_save}
use miniredis.Aof.{Aof, closed, at_path, replaced, aof_reopen}
use miniredis.Aof.Rewrite.{aof_rewrite}
use miniredis.Db.{Db, Env, Command, reply_arity}

-- The globals. `rdb_path` and `aof_path` say whether the option was given, `rdb` is the file at
-- `g_rdb_path`.
pub record Server : Type 0 where
  pub start_ms : ℤ
  pub store : Db
  pub aof : Aof
  pub aof_path : Bool
  pub rdb_path : Bool
  pub rdb : Bytes

-- What the system calls of one command return: the writes to the log, the calls of a snapshot and
-- of a rewrite, `open` after a rewrite, and whether `fork` makes a child.
pub record Sys : Type 0 where
  pub writes : List Call
  pub snapshot : Replacing
  pub rewrite : Replacing
  pub reopens : Bool
  pub reopen_writes : List Call
  pub forks : Bool

abbrev pub Handler : Type 0
Handler = Sys → Env → List Bytes → Server → Client → Server × Client

unfoldable pub on_store : Command → Handler
on_store f sys env argv srv c =
    let (s, c') = f env argv srv.store c in (record srv { store = s }, c')

pub is_alone : List Bytes → Bool
is_alone (name ∷ []) = true
is_alone _ = false

-- The file at the path of the log changed: a descriptor that led to it leads to the old file now.
unfoldable pub swap_log : Bytes → Aof → Aof
swap_log new a = record a {
  file = new;
  log = elim a.log [ closed ↦ closed | at_path ↦ replaced a.file | replaced old ↦ replaced old ];
}

unfoldable pub save_done : Bool × Bytes → Server → Client → Server × Client
save_done (true, rdb) srv c = (record srv { rdb = rdb }, reply_simple c (bytes "OK"))
save_done (false, rdb) srv c = (srv, reply_error c (bytes "could not save RDB snapshot"))

unfoldable pub cmd_save : Handler
unfolding is_alone save_done
cmd_save sys env argv srv c =
    if not (is_alone argv)
    then (srv, reply_arity c (bytes "save"))
    else if not srv.rdb_path
    then (srv, reply_error c (bytes "SAVE requires --rdb FILE at startup"))
    else save_done (rdb_save sys.snapshot srv.store srv.rdb) srv c

-- The parent's part; `rdb_save` in the child is `child_saves`.
unfoldable pub cmd_bgsave : Handler
unfolding is_alone
cmd_bgsave sys env argv srv c =
    if not (is_alone argv)
    then (srv, reply_arity c (bytes "bgsave"))
    else if not srv.rdb_path
    then (srv, reply_error c (bytes "BGSAVE requires --rdb FILE at startup"))
    else if not sys.forks
    then (srv, reply_error c (bytes "fork failed: could not start background save"))
    else (srv, reply_simple c (bytes "Background saving started"))

unfoldable pub reopen_done : Server → Client → Bool × Aof → Server × Client
reopen_done srv c (true, a) = (record srv { aof = a }, reply_simple c (bytes "OK"))
reopen_done srv c (false, a) =
    (record srv { aof = a }, reply_error c (bytes "could not reopen AOF after rewrite"))

unfoldable pub rewrite_done : Sys → Server → Client → Bool × Bytes → Server × Client
rewrite_done sys srv c (false, file) = (srv, reply_error c (bytes "could not rewrite AOF"))
rewrite_done sys srv c (true, file) =
    reopen_done srv c (aof_reopen sys.reopens sys.reopen_writes (swap_log file srv.aof))

unfoldable pub cmd_rewriteaof : Handler
unfolding is_alone rewrite_done reopen_done
cmd_rewriteaof sys env argv srv c =
    if not (is_alone argv)
    then (srv, reply_arity c (bytes "rewriteaof"))
    else if not srv.aof_path
    then (srv, reply_error c (bytes "REWRITEAOF requires --aof FILE at startup"))
    else rewrite_done sys srv c (aof_rewrite sys.rewrite env.libm srv.store srv.aof.file)

-- The parent's part; `aof_rewrite` in the child is `child_rewrites`.
unfoldable pub cmd_bgrewriteaof : Handler
unfolding is_alone
cmd_bgrewriteaof sys env argv srv c =
    if not (is_alone argv)
    then (srv, reply_arity c (bytes "bgrewriteaof"))
    else if not srv.aof_path
    then (srv, reply_error c (bytes "BGREWRITEAOF requires --aof FILE at startup"))
    else if srv.aof.rewriting
    then (srv, reply_error c (bytes "Background append only file rewriting already in progress"))
    else if not sys.forks
    then (srv, reply_error c (bytes "fork failed: could not start background rewrite"))
    else (
      record srv { aof = record srv.aof { rewriting = true } },
      reply_simple c (bytes "Background append only file rewriting started"),
    )

-- The end of a child that was forked from the store `copy`.
unfoldable pub child_saves : Sys → Db → Server → Server
child_saves sys copy srv = record srv { rdb = (rdb_save sys.snapshot copy srv.rdb).1 }

swap_done : Bool × Bytes → Aof → Aof
swap_done (true, file) a = swap_log file a
swap_done (false, file) a = a

unfoldable pub child_rewrites : Sys → Env → Db → Server → Server
unfolding swap_done
child_rewrites sys env copy srv = record srv {
  aof = swap_done (aof_rewrite sys.rewrite env.libm copy srv.aof.file) srv.aof;
}

-- `reap_children` after a SIGCHLD, whichever child ended.
unfoldable pub reap_children : Sys → Server → Server
reap_children sys srv =
    if srv.aof.rewriting
    then record srv {
      aof = (aof_reopen sys.reopens sys.reopen_writes (record srv.aof { rewriting = false })).1;
    }
    else srv
