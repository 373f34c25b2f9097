-- ===== src/Tests/Session.antt =====
-- db.c, aof.c, rdb.c and server.c: a server that logs a command.
use miniredis.Common.{
  Bytes, true, false, List, [], ◌∷◌, ◌++◌, ◌+◌, ◌≡◌, refl, arith, pos, bytes, c_str, str_case_eq,
  to_lower,
}
use miniredis.Double.{Libm, inf_bits}
use miniredis.Files.{wrote, interrupted, failed, Replacing, write_full, Written, write_full_lem}
use miniredis.Resp.{resp_parse_command, get_line}
use miniredis.Resp.RoundTrip.{encode, bulks, bulk}
use miniredis.Util.Number.{format_zu, digits_of}
use miniredis.Server.Reply.{Client}
use miniredis.Aof.{at_path, c_args}
use miniredis.Db.{Env, db_create}
use miniredis.Db.Strings.Set.{cmd_set}
use miniredis.Db.Live.{DbValid}
use miniredis.Dispatch.{dispatch_command, commands, find_command}
use miniredis.Dispatch.Save.{Server, Sys}
use miniredis.Dispatch.Reach.{started, then_step, request, Reach-DbValid}
use miniredis.Dispatch.Replay.Quiet.{handle_all, aof_replay-handle_all}
use miniredis.Dispatch.Replay.{Turns, serve_all, log_of, Fits, cut, set_replaying, aof_replay}
use miniredis.Dispatch.Replay.Rebuild.{Logged, aof_replay-serve_all}

abbrev all_well : Replacing
all_well = record { opens = true; writes = []; fsyncs = true; closes = true; renames = true }

abbrev sys : Sys
sys = record {
  writes = [];
  snapshot = all_well;
  rewrite = all_well;
  reopens = true;
  reopen_writes = [];
  forks = true;
}

abbrev libm : Libm
libm = record { add = λ a b. inf_bits + 1; strtod = λ s. (0, 0, false); print_17g = λ d. [] }

abbrev env : Env
env = record { now = pos 1000; seed = []; rand = λ i. 0; libm = libm }

abbrev turns : Turns
turns k = (sys, env)

abbrev server : Server
server = record {
  start_ms = pos 0;
  store = db_create [];
  aof = record { file = []; log = at_path; replaying = false; rewriting = false; rewrite_buf = [] };
  aof_path = true;
  rdb_path = false;
  rdb = [];
}

abbrev client : Client
client = record { out = []; closing = false }

abbrev set_request : List Bytes
set_request = bytes "SET" ∷ bytes "k" ∷ bytes "7" ∷ []

write_full_lem_example :
    Written
      (bytes "abc")
      (bytes "x")
      (write_full (wrote 1 ∷ interrupted ∷ failed ∷ []) (bytes "abc") (bytes "x"))
write_full_lem_example =
    write_full_lem (wrote 1 ∷ interrupted ∷ failed ∷ []) (bytes "abc") (bytes "x")

abbrev later_server : Server
later_server = (dispatch_command sys env set_request server client).0

Reach-DbValid_example : DbValid later_server.store
Reach-DbValid_example = Reach-DbValid later_server (
    then_step server later_server (started [] server refl)
      (request sys env set_request client server))

set_request-Fits : Fits set_request
unfolding bytes encode bulks bulk format_zu digits_of
set_request-Fits = record {
  few = omega arith;
  short = (omega arith, (omega arith, (omega arith, tt)));
  small = omega arith;
}

set_request-Logged : Logged set_request
unfolding bytes c_str find_command commands str_case_eq to_lower c_args
set_request-Logged = record {
  entry = bytes "set";
  run = cmd_set;
  found = refl;
  plain = refl;
  fits = set_request-Fits;
}

aof_replay-handle_all_example : aof_replay turns (log_of (set_request ∷ []) ++ bytes "*") server ≡ (
  true,
  set_replaying false (handle_all turns 0 (set_request ∷ []) (set_replaying true server)),
)
aof_replay-handle_all_example =
    aof_replay-handle_all turns (set_request ∷ []) (bytes "*") true server (set_request-Fits, tt)
      (cut (bytes "*") (unfold resp_parse_command get_line bytes in refl)) refl

aof_replay-serve_all_example :
    let done = serve_all turns 0 (set_request ∷ []) server in
    let replayed = aof_replay turns done.aof.file server in
    (replayed.0 ≡ true) × (replayed.1.store ≡ done.store)
aof_replay-serve_all_example =
    aof_replay-serve_all turns (set_request ∷ []) server server (λ k. refl) (set_request-Logged, tt)
      (record { at = refl; idle = refl }) refl refl refl
