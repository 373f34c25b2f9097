-- ===== src/Dispatch/Replay.antt =====
-- aof.c `aof_replay`: the recorded commands run through the normal dispatch.
pub mod Rebuild
pub mod Quiet
use miniredis.Common.{
  ℕ, zero, suc, ◌+◌, ◌≤◌, ◌<◌, ◌^◌, ◌≡◌, refl, sym, ap, ◌∙◌, arith, Bytes, Bool, true, false,
  Option, none, some, List, [], ◌∷◌, ◌++◌, length, length-append, drop, drop-append_self,
  append_assoc, append-nil, ◌⊎◌, inl, inr, c_str,
}
use miniredis.Server.Reply.{Client}
use miniredis.Resp.{
  Parse, incomplete, protocol_error, consumed, resp_parse_command, max_argc, max_bulk_len,
}
use miniredis.Resp.RoundTrip.{encode, All, encode-cons, length-encode, resp_parse_command-encode}
use miniredis.Aof.{Aof}
use miniredis.Db.{Env}
use miniredis.Dispatch.{dispatch_command}
use miniredis.Dispatch.Save.{Server, Sys}

-- What a command meets from outside: its system calls and its environment.
abbrev pub Turns : Type 0
Turns = ℕ → Sys × Env

-- `client_init` for the throwaway client, and its state before each command.
abbrev pub fake : Client
fake = record { out = []; closing = false }

unfoldable pub serve : Turns → ℕ → List Bytes → Server → Server
serve turns k argv srv = (dispatch_command (turns k).0 (turns k).1 argv srv fake).0

-- A truncated frame ends the loop, a corrupt one with an error.
abbrev pub after_frame : Parse → Server → (ℕ → List Bytes → Bool × Server) → Bool × Server
after_frame incomplete srv next = (true, srv)
after_frame protocol_error srv next = (false, srv)
after_frame (consumed n argv) srv next = next n argv

-- The loop over the buffer; each round takes a byte at least.
unfoldable pub replay_loop : ℕ → Turns → ℕ → Bytes → Server → Bool × Server
replay_loop zero turns k buf srv = (true, srv)
replay_loop (suc fuel) turns k [] srv = (true, srv)
replay_loop (suc fuel) turns k (b ∷ buf) srv =
    after_frame (resp_parse_command (b ∷ buf)) srv
      (λ n argv. replay_loop fuel turns (k + 1) (drop n (b ∷ buf)) (serve turns k argv srv))

unfoldable pub set_replaying : Bool → Server → Server
set_replaying on srv = record srv { aof = record srv.aof { replaying = on } }

unfoldable pub aof_replay : Turns → Bytes → Server → Bool × Server
unfolding replay_loop
aof_replay turns [] srv = (true, srv)
aof_replay turns (b ∷ buf) srv =
    let (ok, srv') =
      replay_loop (suc (length (b ∷ buf))) turns 0 (b ∷ buf) (set_replaying true srv) in
    (ok, set_replaying false srv')

-- Requests one after another.
unfoldable pub serve_all : Turns → ℕ → List (List Bytes) → Server → Server
serve_all turns k [] srv = srv
serve_all turns k (argv ∷ rest) srv = serve_all turns (k + 1) rest (serve turns k argv srv)

unfoldable pub log_of : List (List Bytes) → Bytes
log_of [] = []
log_of (argv ∷ rest) = encode argv ++ log_of rest

-- What the parser takes.
pub record Fits (argv : List Bytes) : Type 0 where
  pub few : length argv ≤ max_argc
  pub short : All (λ a. length a ≤ max_bulk_len) argv
  pub small : length (encode argv) < 2 ^ 31

-- What stands behind the last command, and whether the replay takes it for an error.
pub data Ends : Bytes → Bool → Type 0 where
  cut : (s : Bytes) → resp_parse_command s ≡ incomplete → Ends s true
  broken : (s : Bytes) → resp_parse_command s ≡ protocol_error → Ends s false

replay_loop-encode :
    (fuel : ℕ) (turns : Turns) (k : ℕ) (argv : List Bytes) (s : Bytes) (srv : Server)
    → Fits argv
    → replay_loop (suc fuel) turns k (encode argv ++ s) srv
      ≡ replay_loop fuel turns (k + 1) s (serve turns k argv srv)
unfolding replay_loop
replay_loop-encode fuel turns k argv s srv fits =
    let e = encode-cons argv s in
    let parse = resp_parse_command-encode argv s fits.few fits.short fits.small in
    let parse' = rw e at parse in
    let left = rw e at (drop-append_self (encode argv) s) in rw (e, parse', left) refl

replay_loop-Ends :
    (fuel : ℕ) (turns : Turns) (k : ℕ) (tail : Bytes) (ok : Bool) (srv : Server)
    → Ends tail ok
    → replay_loop (suc fuel) turns k tail srv ≡ (ok, srv)
unfolding replay_loop
replay_loop-Ends fuel turns k tail ok srv (cut [] h) = refl
replay_loop-Ends fuel turns k tail ok srv (cut (b ∷ s) h) = rw h refl
replay_loop-Ends fuel turns k tail ok srv (broken [] h) = absurd (unfold resp_parse_command in cc)
replay_loop-Ends fuel turns k tail ok srv (broken (b ∷ s) h) = rw h refl

length-encode-pos : (argv : List Bytes) → 0 < length (encode argv)
length-encode-pos argv = omega (arith, length-encode argv)

replay_loop-log :
    (fuel : ℕ) (turns : Turns) (k : ℕ) (argvs : List (List Bytes)) (tail : Bytes) (ok : Bool)
    (srv : Server)
    → All Fits argvs
    → Ends tail ok
    → length (log_of argvs ++ tail) < fuel
    → replay_loop fuel turns k (log_of argvs ++ tail) srv ≡ (ok, serve_all turns k argvs srv)
unfolding serve_all log_of
replay_loop-log zero turns k argvs tail ok srv all ends room = absurd (omega arith)
replay_loop-log (suc fuel) turns k [] tail ok srv all ends room =
    replay_loop-Ends fuel turns k tail ok srv ends
replay_loop-log (suc fuel) turns k (argv ∷ rest) tail ok srv (fits, all) ends room =
    let split : log_of (argv ∷ rest) ++ tail ≡ encode argv ++ (log_of rest ++ tail) =
      append_assoc (encode argv) (log_of rest) tail in
    let size = length-append (encode argv) (log_of rest ++ tail) in
    let room' : length (encode argv ++ (log_of rest ++ tail)) < suc fuel = rw split at room in
    let next : length (log_of rest ++ tail) < fuel =
      omega (arith, size, room', length-encode-pos argv) in
    rw split (
      replay_loop-encode fuel turns k argv (log_of rest ++ tail) srv fits
      ∙ replay_loop-log fuel turns (k + 1) rest tail ok (serve turns k argv srv) all ends next)

aof_replay-loop :
    (turns : Turns) (buf : Bytes) (srv : Server)
    → srv.aof.replaying ≡ false
    → let r = replay_loop (suc (length buf)) turns 0 buf (set_replaying true srv) in
      aof_replay turns buf srv ≡ (r.0, set_replaying false r.1)
unfolding aof_replay replay_loop set_replaying
aof_replay-loop turns [] srv idle =
    ap (λ b. (true, record srv { aof = record srv.aof { replaying = b } })) idle
aof_replay-loop turns (b ∷ buf) srv idle = refl

-- A replay of a log runs exactly the commands recorded before the first incomplete or corrupt
-- frame, in order and without logging them; it succeeds where the log ends there or the frame is
-- truncated, and fails where it is corrupt.
pub aof_replay-log :
    (turns : Turns) (argvs : List (List Bytes)) (tail : Bytes) (ok : Bool) (srv : Server)
    → All Fits argvs
    → Ends tail ok
    → srv.aof.replaying ≡ false
    → aof_replay turns (log_of argvs ++ tail) srv
      ≡ (ok, set_replaying false (serve_all turns 0 argvs (set_replaying true srv)))
aof_replay-log turns argvs tail ok srv all ends idle =
    aof_replay-loop turns (log_of argvs ++ tail) srv idle
    ∙ ap (λ r. (r.0, set_replaying false r.1))
        (replay_loop-log _ turns 0 argvs tail ok (set_replaying true srv) all ends (omega arith))
