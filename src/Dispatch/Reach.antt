-- ===== src/Dispatch/Reach.antt =====
-- server.c: the server as a transition system. Between the start and any later point it served
-- requests of any clients, ran expire cycles, and its children ended and were reaped, in any order.
use miniredis.Common.{ℕ, zero, suc, ◌+◌, ℤ, Bytes, List, [], ◌∷◌, length, some, Bool, true, ◌≡◌}
use miniredis.Server.Reply.{Client}
use miniredis.Resp.{Parse, incomplete, protocol_error, consumed, resp_parse_command}
use miniredis.Rdb.Load.{rdb_load}
use miniredis.Rdb.Load.Keeps.{Loaded, rdb_load-Loaded}
use miniredis.Db.{Db, Env, db_create}
use miniredis.Db.Keys.Expiry.{db_expire_cycle}
use miniredis.Db.Keys.Expiry.Cycle.{db_expire_cycle-Keeps}
use miniredis.Db.Live.{DbValid, db_create-DbValid}
use miniredis.Db.Keeps.{either}
use miniredis.Dispatch.{dispatch_command}
use miniredis.Dispatch.Keeps.{dispatch_command-DbValid}
use miniredis.Dispatch.Save.{Server, Sys, child_saves, child_rewrites, reap_children}
use miniredis.Dispatch.Replay.{
  Turns, fake, serve, replay_loop, after_frame, set_replaying, aof_replay,
}

-- One event of `server_run`.
pub data Step : Server → Server → Type 0 where
  request :
      (sys : Sys) (env : Env) (argv : List Bytes) (c : Client) (srv : Server)
      → Step srv (dispatch_command sys env argv srv c).0
  cycle : (now : ℤ) (srv : Server) → Step srv (record srv { store = db_expire_cycle now srv.store })
  child_saved : (sys : Sys) (copy : Db) (srv : Server) → Step srv (child_saves sys copy srv)
  child_rewrote :
      (sys : Sys) (env : Env) (copy : Db) (srv : Server)
      → Step srv (child_rewrites sys env copy srv)
  reaped : (sys : Sys) (srv : Server) → Step srv (reap_children sys srv)
  replayed : (turns : Turns) (srv : Server) → Step srv (aof_replay turns srv.aof.file srv).1
  loaded :
      (draws : ℕ → Bytes × (ℕ → ℕ)) (srv : Server) (s : Db)
      → rdb_load draws srv.rdb srv.store ≡ some s
      → Step srv (record srv { store = s })

-- The states that the server comes to.
pub data Reach : Server → Type 0 where
  started : (seed : Bytes) (srv : Server) → srv.store ≡ db_create seed → Reach srv
  then_step : (srv srv' : Server) → Reach srv → Step srv srv' → Reach srv'

serve-DbValid :
    (turns : Turns) (k : ℕ) (argv : List Bytes) (srv : Server)
    → DbValid srv.store
    → DbValid (serve turns k argv srv).store
unfolding serve
serve-DbValid turns k argv srv v = dispatch_command-DbValid (turns k).0 (turns k).1 argv srv fake v

after_frame-DbValid :
    (p : Parse) (srv : Server) (next : ℕ → List Bytes → Bool × Server)
    → DbValid srv.store
    → ((n : ℕ) (argv : List Bytes) → DbValid (next n argv).1.store)
    → DbValid (after_frame p srv next).1.store
after_frame-DbValid incomplete srv next v h = v
after_frame-DbValid protocol_error srv next v h = v
after_frame-DbValid (consumed n argv) srv next v h = h n argv

replay_loop-DbValid :
    (fuel : ℕ) (turns : Turns) (k : ℕ) (buf : Bytes) (srv : Server)
    → DbValid srv.store
    → DbValid (replay_loop fuel turns k buf srv).1.store
unfolding replay_loop
replay_loop-DbValid zero turns k buf srv v = v
replay_loop-DbValid (suc fuel) turns k [] srv v = v
replay_loop-DbValid (suc fuel) turns k (b ∷ buf) srv v =
    after_frame-DbValid (resp_parse_command (b ∷ buf)) srv _ v
      (λ n argv. replay_loop-DbValid fuel turns (k + 1) _ _ (serve-DbValid turns k argv srv v))

aof_replay-DbValid :
    (turns : Turns) (buf : Bytes) (srv : Server)
    → DbValid srv.store
    → DbValid (aof_replay turns buf srv).1.store
unfolding aof_replay set_replaying
aof_replay-DbValid turns [] srv v = v
aof_replay-DbValid turns (b ∷ buf) srv v =
    replay_loop-DbValid (suc (length (b ∷ buf))) turns 0 (b ∷ buf) (set_replaying true srv) v

Step-DbValid : (srv srv' : Server) → Step srv srv' → DbValid srv.store → DbValid srv'.store
Step-DbValid srv srv' (request sys env argv c _) v = dispatch_command-DbValid sys env argv srv c v
Step-DbValid srv srv' (cycle now _) v = (db_expire_cycle-Keeps now srv.store v).0
Step-DbValid srv srv' (child_saved sys copy _) v = unfold child_saves in v
Step-DbValid srv srv' (child_rewrote sys env copy _) v = unfold child_rewrites in v
Step-DbValid srv srv' (reaped sys _) v =
    unfold reap_children in either (λ (s : Server). DbValid s.store) srv.aof.rewriting v v
Step-DbValid srv srv' (replayed turns _) v = aof_replay-DbValid turns srv.aof.file srv v
Step-DbValid srv srv' (loaded draws _ s e) v =
    let ok : Loaded (some s) = rw e at (rdb_load-Loaded draws srv.rdb srv.store v) in ok

-- From the start on, through requests of any clients with any arguments, expire cycles, snapshots
-- loaded from any bytes, replays of the log, and children that end and are reaped, in any order,
-- the store stays well formed: its dictionary, those of its hashes and sets, and its sorted sets.
pub Reach-DbValid : (srv : Server) → Reach srv → DbValid srv.store
Reach-DbValid srv (started seed _ e) = rw e (db_create-DbValid seed)
Reach-DbValid srv (then_step srv₀ _ r step) = Step-DbValid srv₀ srv step (Reach-DbValid srv₀ r)
