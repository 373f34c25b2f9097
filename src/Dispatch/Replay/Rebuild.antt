-- ===== src/Dispatch/Replay/Rebuild.antt =====
-- db.c `dispatch_command` and aof.c: what was logged rebuilds the store.
use mathlib.Core.Path.{subst}
use miniredis.Common.{
  ℕ, ◌+◌, ◌≡◌, refl, sym, ap, ap₂, ◌∙◌, Bytes, Bool, true, false, some, List, [], ◌∷◌, ◌++◌,
  append_assoc, append-nil, c_str, ◌&&◌, Bool-cases, inl, inr,
}
use miniredis.Resp.{resp_parse_command}
use miniredis.Resp.RoundTrip.{encode, All}
use miniredis.Files.{write_full, write_full-free}
use miniredis.Aof.{
  Aof, at_path, is_open, c_args, command_to_resp, aof_append_command, write_log, mirror,
}
use miniredis.Db.{Command}
use miniredis.Dispatch.{CmdEntry, commands, find_command, log_command, dispatch_command, run_found}
use miniredis.Dispatch.Save.{Server, Sys, on_store}
use miniredis.Dispatch.Replay.Quiet.{log_command-quiet}
use miniredis.Dispatch.Replay.{
  Turns, fake, serve, serve_all, log_of, Fits, cut, aof_replay, aof_replay-log, set_replaying,
}

-- A request for a command of the table that changes the data, whose arguments hold no NUL byte.
pub record LogsArgs (name : Bytes) (args : List Bytes) : Type 0 where
  pub entry : Bytes
  pub run : Command
  pub found :
      find_command (c_str name) commands
      ≡ some (record { name = entry; is_write = true; fn = on_store run })
  pub plain : c_args (name ∷ args) ≡ name ∷ args
  pub fits : Fits (name ∷ args)

abbrev pub Logged : List Bytes → Type 0
Logged [] = ⊥
Logged (name ∷ args) = LogsArgs name args

serve-found :
    (turns : Turns) (k : ℕ) (name : Bytes) (args : List Bytes) (srv : Server) (e : CmdEntry)
    → find_command (c_str name) commands ≡ some e
    → let t = turns k in
      serve turns k (name ∷ args) srv
      ≡ (e.fn t.0 t.1
          (name ∷ args)
          (record srv { aof = log_command t.0 (name ∷ args) e.is_write srv.aof })
          fake).0
unfolding serve dispatch_command run_found
serve-found turns k name args srv e found =
    ap (λ o. (run_found (turns k).0 (turns k).1 (name ∷ args) (c_str name) o srv fake).0) found

-- A server that logs to the file at the path.
pub record Logging (a : Aof) : Type 0 where
  pub at : a.log ≡ at_path
  pub idle : a.replaying ≡ false

mirror-file :
    (b : Bytes) (r : Bool × Aof)
    → ((mirror b r).1.file ≡ r.1.file)
      × ((mirror b r).1.log ≡ r.1.log)
      × ((mirror b r).1.replaying ≡ r.1.replaying)
mirror-file b (ok, a) = elim (Bool-cases (ok && a.rewriting)) [
  | inl yes' ↦ rw yes' (refl, refl, refl)
  | inr no' ↦ rw no' (refl, refl, refl)
]

-- What a command that is logged does to the file.
abbrev pub Appends : Sys → List Bytes → Aof → Type 0
Appends sys argv a =
    let a' = log_command sys argv true a in (a'.file ≡ a.file ++ encode argv) × Logging a'

log_command-open :
    (sys : Sys) (argv : List Bytes) (a : Aof)
    → sys.writes ≡ []
    → c_args argv ≡ argv
    → Appends sys argv (record a { log = at_path; replaying = false })
unfolding log_command is_open aof_append_command command_to_resp
log_command-open sys argv a free plain =
    let a₀ : Aof = record a { log = at_path; replaying = false } in
    let b = encode (c_args argv) in
    let w = write_log sys.writes b at_path a₀ in
    let m = mirror-file b w in
    let written : w.1.file ≡ a.file ++ encode argv =
      ap₂ (λ calls v. (write_full calls (encode v) a.file).1) free plain
      ∙ (write_full-free (encode argv) a.file).1 in
    (m.0 ∙ written, record { at = m.1; idle = m.2 })

log_command-Logging :
    (sys : Sys) (argv : List Bytes) (a : Aof)
    → sys.writes ≡ []
    → c_args argv ≡ argv
    → Logging a
    → Appends sys argv a
log_command-Logging sys argv a free plain l =
    subst (Appends sys argv)
      (ap₂ (λ log on. record a { log = log; replaying = on }) (sym l.at) (sym l.idle))
      (log_command-open sys argv a free plain)

abbrev pub Free : Turns → Type 0
Free turns = (k : ℕ) → (turns k).0.writes ≡ []

-- A server that logs, and one that replays the same requests, have the same store.
together :
    (turns : Turns) (k : ℕ) (argvs : List (List Bytes)) (srv on : Server)
    → Free turns
    → All Logged argvs
    → Logging srv.aof
    → on.aof.replaying ≡ true
    → on.store ≡ srv.store
    → let done = serve_all turns k argvs srv in
      (done.aof.file ≡ srv.aof.file ++ log_of argvs)
      × ((serve_all turns k argvs on).store ≡ done.store)
unfolding serve_all log_of
together turns k [] srv on free all logging replays same = (sym (append-nil srv.aof.file), same)
together turns k ([] ∷ argvs) srv on free (none', all) logging replays same = absurd none'
together turns k ((name ∷ args) ∷ argvs) srv on free (l, all) logging replays same =
    let t = turns k in
    let argv = name ∷ args in
    let (file, logging') = log_command-Logging t.0 argv srv.aof (free k) l.plain logging in
    let quiet = log_command-quiet t.0 argv true on.aof replays in
    let srv' : Server = record srv {
      store = (l.run t.1 argv srv.store fake).0;
      aof = log_command t.0 argv true srv.aof;
    } in
    let on' : Server = record on {
      store = (l.run t.1 argv on.store fake).0;
      aof = log_command t.0 argv true on.aof;
    } in
    let e₁ : serve turns k argv srv ≡ srv' =
      unfold on_store in serve-found turns k name args srv _ l.found in
    let e₂ : serve turns k argv on ≡ on' =
      unfold on_store in serve-found turns k name args on _ l.found in
    let (file', same') =
      together turns (k + 1) argvs srv' on' free all logging'
        (ap (λ a. a.replaying) quiet ∙ replays) (ap (λ s. (l.run t.1 argv s fake).0) same) in
    (
      ap (λ s. (serve_all turns (k + 1) argvs s).aof.file) e₁
          ∙ file'
          ∙ ap (λ f. f ++ log_of argvs) file
          ∙ append_assoc srv.aof.file (encode argv) (log_of argvs),
      ap (λ s. (serve_all turns (k + 1) argvs s).store) e₂
          ∙ same'
          ∙ sym (ap (λ s. (serve_all turns (k + 1) argvs s).store) e₁),
    )

-- What the requests need of each argument vector.
All-Fits : (argvs : List (List Bytes)) → All Logged argvs → All Fits argvs
All-Fits [] all = tt
All-Fits ([] ∷ argvs) (none', all) = absurd none'
All-Fits ((name ∷ args) ∷ argvs) (l, all) = (l.fits, All-Fits argvs all)

-- When a server whose log was empty has served requests for commands that change the data, each for
-- a client with nothing to send, with every write of the log succeeding and no NUL byte in an
-- argument, a replay of its log on a server with the store that it had at first succeeds and ends
-- in the store that it has, if each command meets the same clock, random draws and seeds.
pub aof_replay-serve_all :
    (turns : Turns) (argvs : List (List Bytes)) (srv started : Server)
    → Free turns
    → All Logged argvs
    → Logging srv.aof
    → srv.aof.file ≡ []
    → started.aof.replaying ≡ false
    → started.store ≡ srv.store
    → let done = serve_all turns 0 argvs srv in
      let replayed = aof_replay turns done.aof.file started in
      (replayed.0 ≡ true) × (replayed.1.store ≡ done.store)
aof_replay-serve_all turns argvs srv started free all logging new idle same =
    let (file, stores) =
      together turns 0 argvs srv (set_replaying true started) free all logging
        (unfold set_replaying in refl) (unfold set_replaying in same) in
    let log : (serve_all turns 0 argvs srv).aof.file ≡ log_of argvs ++ [] =
      file ∙ ap (λ f. f ++ log_of argvs) new ∙ sym (append-nil (log_of argvs)) in
    let ends = cut [] (unfold resp_parse_command in refl) in
    let e =
      ap (λ f. aof_replay turns f started) log
      ∙ aof_replay-log turns argvs [] true started (All-Fits argvs all) ends idle in
    (ap (λ r. r.0) e, ap (λ r. r.1.store) e ∙ unfold set_replaying in stores)
