-- ===== src/Db/Sets/Algebra/Keeps.antt =====
-- db.c: SINTER, SUNION and SDIFF keep the store well formed.
use miniredis.Common.{Bytes, List, [], ◌∷◌, Option, c_str}
use miniredis.Db.{Db, Env, Typed, missing, wrongtype, held}
use miniredis.Db.Live.{DbValid}
use miniredis.Db.Keeps.{Keeps, lookup_key-DbValid}
use miniredis.Db.Sets.{Members}
use miniredis.Db.Sets.Algebra.{set_args, args_after, cmd_sinter, cmd_sunion, cmd_sdiff}

args_after-DbValid :
    (t : Typed Members) (s : Db) (rest : Option (List (Option Members)) × Db)
    → DbValid s
    → DbValid rest.1
    → DbValid (args_after t s rest).1
unfolding args_after
args_after-DbValid missing s rest v v' = v'
args_after-DbValid wrongtype s rest v v' = v
args_after-DbValid (held m e) s rest v v' = v'

set_args-DbValid :
    (env : Env) (keys : List Bytes) (s : Db) → DbValid s → DbValid (set_args env keys s).1
unfolding set_args
set_args-DbValid env [] s v = v
set_args-DbValid env (key ∷ keys) s v =
    let v' = lookup_key-DbValid env.now (c_str key) v in
    args_after-DbValid _ _ _ v' (set_args-DbValid env keys _ v')

pub cmd_sinter-Keeps : Keeps cmd_sinter
unfolding cmd_sinter
cmd_sinter-Keeps env (name ∷ key ∷ keys) s c v = set_args-DbValid env (key ∷ keys) s v
cmd_sinter-Keeps env argv s c v = v

pub cmd_sunion-Keeps : Keeps cmd_sunion
unfolding cmd_sunion
cmd_sunion-Keeps env (name ∷ key ∷ keys) s c v = set_args-DbValid env (key ∷ keys) s v
cmd_sunion-Keeps env argv s c v = v

pub cmd_sdiff-Keeps : Keeps cmd_sdiff
unfolding cmd_sdiff
cmd_sdiff-Keeps env (name ∷ key ∷ keys) s c v = set_args-DbValid env (key ∷ keys) s v
cmd_sdiff-Keeps env argv s c v = v
