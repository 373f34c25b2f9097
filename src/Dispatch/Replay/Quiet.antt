-- ===== src/Dispatch/Replay/Quiet.antt =====
-- db.c, aof.c: while the log is replayed, a request runs its handler and is not logged.
use miniredis.Common.{
  ℕ, ◌+◌, ◌≡◌, refl, ap, ◌∙◌, Bytes, Bool, true, false, not, Option, none, some, List, [], ◌∷◌,
  ◌++◌, c_str, Bool-cases, inl, inr, str_case_eq,
}
use miniredis.Server.Reply.{Client}
use miniredis.Resp.RoundTrip.{All}
use miniredis.Aof.{Aof, is_open}
use miniredis.Db.{Command}
use miniredis.Db.Keeps.{either}
use miniredis.Dispatch.Save.{
  Server, Sys, Handler, on_store, cmd_save, cmd_bgsave, cmd_rewriteaof, cmd_bgrewriteaof, save_done,
  rewrite_done, reopen_done, is_alone, swap_log,
}
use miniredis.Aof.{aof_reopen}
use miniredis.Dispatch.{
  CmdEntry, commands, find_command, dispatch_command, run_found, query, mutation, control, info,
  log_command,
}
use miniredis.Dispatch.Replay.{
  Turns, fake, serve, serve_all, log_of, Fits, Ends, aof_replay, aof_replay-log, set_replaying,
}

-- The handler of the table alone, for the throwaway client: nothing is logged.
handled : Turns → ℕ → List Bytes → Option CmdEntry → Server → Server
handled turns k argv none srv = srv
handled turns k argv (some e) srv = (e.fn (turns k).0 (turns k).1 argv srv fake).0

unfoldable pub handle : Turns → ℕ → List Bytes → Server → Server
unfolding handled
handle turns k [] srv = srv
handle turns k (name ∷ args) srv =
    handled turns k (name ∷ args) (find_command (c_str name) commands) srv

unfoldable pub handle_all : Turns → ℕ → List (List Bytes) → Server → Server
handle_all turns k [] srv = srv
handle_all turns k (argv ∷ rest) srv = handle_all turns (k + 1) rest (handle turns k argv srv)

-- A handler leaves `g_aof_replaying`.
abbrev pub Quiet : Handler → Type 0
Quiet f =
    (sys : Sys) (env : _) (argv : List Bytes) (srv : Server) (c : Client)
    → (f sys env argv srv c).0.aof.replaying ≡ srv.aof.replaying

quiet : (f : Command) → Quiet (on_store f)
unfolding on_store
quiet f sys env argv srv c = refl

info-Quiet : Quiet info
unfolding info on_store
info-Quiet sys env argv srv c = refl

abbrev Same : Bool → Server × Client → Type 0
Same on r = r.0.aof.replaying ≡ on

save_done-Same :
    (r : Bool × Bytes) (srv : Server) (c : Client) → Same srv.aof.replaying (save_done r srv c)
unfolding save_done
save_done-Same (true, rdb) srv c = refl
save_done-Same (false, rdb) srv c = refl

cmd_save-Quiet : Quiet cmd_save
unfolding cmd_save
cmd_save-Quiet sys env argv srv c =
    either (Same srv.aof.replaying) (not (is_alone argv)) refl
      (either (Same srv.aof.replaying) (not srv.rdb_path) refl (save_done-Same _ srv c))

cmd_bgsave-Quiet : Quiet cmd_bgsave
unfolding cmd_bgsave
cmd_bgsave-Quiet sys env argv srv c = either (Same srv.aof.replaying) (not (is_alone argv)) refl (
    either (Same srv.aof.replaying) (not srv.rdb_path) refl
      (either (Same srv.aof.replaying) (not sys.forks) refl refl))

reopen_done-Same :
    (srv : Server) (c : Client) (r : Bool × Aof) → Same r.1.replaying (reopen_done srv c r)
unfolding reopen_done
reopen_done-Same srv c (true, a) = refl
reopen_done-Same srv c (false, a) = refl

aof_reopen-replaying :
    (opens : Bool) (calls : _) (a : Aof) → (aof_reopen opens calls a).1.replaying ≡ a.replaying
unfolding aof_reopen
aof_reopen-replaying true calls a = refl
aof_reopen-replaying false calls a = refl

rewrite_done-Same :
    (sys : Sys) (srv : Server) (c : Client) (r : Bool × Bytes)
    → Same srv.aof.replaying (rewrite_done sys srv c r)
unfolding rewrite_done
rewrite_done-Same sys srv c (true, file) =
    reopen_done-Same srv c _
    ∙ aof_reopen-replaying sys.reopens sys.reopen_writes (swap_log file srv.aof)
    ∙ unfold swap_log in refl
rewrite_done-Same sys srv c (false, file) = refl

cmd_rewriteaof-Quiet : Quiet cmd_rewriteaof
unfolding cmd_rewriteaof
cmd_rewriteaof-Quiet sys env argv srv c =
    either (Same srv.aof.replaying) (not (is_alone argv)) refl
      (either (Same srv.aof.replaying) (not srv.aof_path) refl (rewrite_done-Same sys srv c _))

cmd_bgrewriteaof-Quiet : Quiet cmd_bgrewriteaof
unfolding cmd_bgrewriteaof
cmd_bgrewriteaof-Quiet sys env argv srv c =
    either (Same srv.aof.replaying) (not (is_alone argv)) refl (
      either (Same srv.aof.replaying) (not srv.aof_path) refl (
        either (Same srv.aof.replaying) srv.aof.rewriting refl
          (either (Same srv.aof.replaying) (not sys.forks) refl refl)))

abbrev EntryQuiet : CmdEntry → Type 0
EntryQuiet e = Quiet e.fn

infixr 30 ◌▸◌
◌▸◌ : {A B : Type 0} → A → B → A × B
a ▸ b = (a, b)

commands-Quiet : All EntryQuiet commands
unfolding commands query mutation control
commands-Quiet =
    quiet _
    ▸ quiet _
    ▸ quiet _
    ▸ quiet _
    ▸ quiet _
    ▸ quiet _
    ▸ quiet _
    ▸ quiet _
    ▸ quiet _
    ▸ quiet _
    ▸ quiet _
    ▸ quiet _
    ▸ quiet _
    ▸ quiet _
    ▸ quiet _
    ▸ quiet _
    ▸ quiet _
    ▸ quiet _
    ▸ quiet _
    ▸ quiet _
    ▸ quiet _
    ▸ quiet _
    ▸ quiet _
    ▸ quiet _
    ▸ quiet _
    ▸ quiet _
    ▸ quiet _
    ▸ quiet _
    ▸ quiet _
    ▸ quiet _
    ▸ quiet _
    ▸ quiet _
    ▸ quiet _
    ▸ quiet _
    ▸ quiet _
    ▸ quiet _
    ▸ quiet _
    ▸ quiet _
    ▸ quiet _
    ▸ quiet _
    ▸ quiet _
    ▸ quiet _
    ▸ quiet _
    ▸ quiet _
    ▸ quiet _
    ▸ quiet _
    ▸ quiet _
    ▸ quiet _
    ▸ quiet _
    ▸ quiet _
    ▸ quiet _
    ▸ quiet _
    ▸ quiet _
    ▸ quiet _
    ▸ quiet _
    ▸ quiet _
    ▸ quiet _
    ▸ quiet _
    ▸ quiet _
    ▸ quiet _
    ▸ quiet _
    ▸ quiet _
    ▸ quiet _
    ▸ quiet _
    ▸ quiet _
    ▸ quiet _
    ▸ quiet _
    ▸ quiet _
    ▸ quiet _
    ▸ quiet _
    ▸ quiet _
    ▸ quiet _
    ▸ quiet _
    ▸ quiet _
    ▸ quiet _
    ▸ quiet _
    ▸ info-Quiet
    ▸ quiet _
    ▸ cmd_save-Quiet
    ▸ cmd_bgsave-Quiet
    ▸ cmd_rewriteaof-Quiet
    ▸ cmd_bgrewriteaof-Quiet
    ▸ tt

find_command-Quiet :
    (name : Bytes) (es : List CmdEntry) (e : CmdEntry)
    → All EntryQuiet es
    → find_command name es ≡ some e
    → Quiet e.fn
unfolding find_command
find_command-Quiet name [] e all found = absurd cc
find_command-Quiet name (x ∷ es) e (h, all) found = elim (Bool-cases (str_case_eq x.name name)) [
  | inl same ↦
      let here : some x ≡ some e = rw same at found in let this : x ≡ e = cc in rw (← this) h
  | inr other ↦ find_command-Quiet name es e all (rw other at found)
]

handled-replaying :
    (turns : Turns) (k : ℕ) (argv : List Bytes) (o : Option CmdEntry) (srv : Server)
    → ((e : CmdEntry) → o ≡ some e → Quiet e.fn)
    → (handled turns k argv o srv).aof.replaying ≡ srv.aof.replaying
unfolding handled
handled-replaying turns k argv none srv h = refl
handled-replaying turns k argv (some e) srv h = h e refl (turns k).0 (turns k).1 argv srv fake

handle-replaying :
    (turns : Turns) (k : ℕ) (argv : List Bytes) (srv : Server)
    → (handle turns k argv srv).aof.replaying ≡ srv.aof.replaying
unfolding handle
handle-replaying turns k [] srv = refl
handle-replaying turns k (name ∷ args) srv =
    handled-replaying turns k (name ∷ args) (find_command (c_str name) commands) srv
      (λ e found. find_command-Quiet (c_str name) commands e commands-Quiet found)

pub log_command-quiet :
    (sys : Sys) (argv : List Bytes) (is_write : Bool) (a : Aof)
    → a.replaying ≡ true
    → log_command sys argv is_write a ≡ a
unfolding log_command
log_command-quiet sys argv false a on = refl
log_command-quiet sys argv true a on = elim (Bool-cases (is_open a.log)) [
  | inl open_log ↦ rw (open_log, on) refl
  | inr no_log ↦ rw no_log refl
]

run_found-handled :
    (turns : Turns) (k : ℕ) (argv : List Bytes) (name : Bytes) (o : Option CmdEntry) (srv : Server)
    → srv.aof.replaying ≡ true
    → (run_found (turns k).0 (turns k).1 argv name o srv fake).0 ≡ handled turns k argv o srv
unfolding run_found handled
run_found-handled turns k argv name none srv on = refl
run_found-handled turns k argv name (some e) srv on =
    ap (λ a. (e.fn (turns k).0 (turns k).1 argv (record srv { aof = a }) fake).0)
      (log_command-quiet (turns k).0 argv e.is_write srv.aof on)

serve-handle :
    (turns : Turns) (k : ℕ) (argv : List Bytes) (srv : Server)
    → srv.aof.replaying ≡ true
    → serve turns k argv srv ≡ handle turns k argv srv
unfolding serve handle dispatch_command
serve-handle turns k [] srv on = refl
serve-handle turns k (name ∷ args) srv on =
    run_found-handled turns k (name ∷ args) (c_str name) (find_command (c_str name) commands) srv on

serve_all-handle_all :
    (turns : Turns) (k : ℕ) (argvs : List (List Bytes)) (srv : Server)
    → srv.aof.replaying ≡ true
    → serve_all turns k argvs srv ≡ handle_all turns k argvs srv
unfolding serve_all handle_all
serve_all-handle_all turns k [] srv on = refl
serve_all-handle_all turns k (argv ∷ rest) srv on =
    ap (serve_all turns (k + 1) rest) (serve-handle turns k argv srv on)
    ∙ serve_all-handle_all turns (k + 1) rest (handle turns k argv srv)
        (handle-replaying turns k argv srv ∙ on)

-- A replay of a log runs the handlers of exactly the commands recorded before the first incomplete
-- or corrupt frame, one after the other and with no append to the log in between; it succeeds where
-- the log ends there or the frame is truncated, and fails where it is corrupt. The recorded
-- commands fit the parser's limits.
pub aof_replay-handle_all :
    (turns : Turns) (argvs : List (List Bytes)) (tail : Bytes) (ok : Bool) (srv : Server)
    → All Fits argvs
    → Ends tail ok
    → srv.aof.replaying ≡ false
    → aof_replay turns (log_of argvs ++ tail) srv
      ≡ (ok, set_replaying false (handle_all turns 0 argvs (set_replaying true srv)))
aof_replay-handle_all turns argvs tail ok srv all ends idle =
    aof_replay-log turns argvs tail ok srv all ends idle
    ∙ ap (λ s. (ok, set_replaying false s))
        (serve_all-handle_all turns 0 argvs (set_replaying true srv) (unfold set_replaying in refl))
