-- ===== src/Db/Keys/Keeps.antt =====
-- db.c: the key, connection and server commands keep the store well formed.
use miniredis.Common.{Bytes, List, [], ◌∷◌, ℕ, ℤ, c_str}
use miniredis.Object.{Robj}
use miniredis.Dict.{dict_create}
use miniredis.Dict.Laws.Valid.{dict_create-IsValid}
use miniredis.Db.{Db, store_delete}
use miniredis.Db.Live.{DbValid}
use miniredis.Db.Keeps.{Keeps, lookup_key-DbValid, store_delete-DbValid}
use miniredis.Db.Keys.{
  del_loop, cmd_del, exists_loop, cmd_exists, cmd_type, cmd_keys, cmd_flushall, cmd_dbsize,
  cmd_info, cmd_command, cmd_select, cmd_quit, cmd_ping, cmd_echo,
}

del_loop-DbValid : (keys : List Bytes) (n : ℕ) (s : Db) → DbValid s → DbValid (del_loop keys n s).1
unfolding del_loop
del_loop-DbValid [] n s v = v
del_loop-DbValid (key ∷ keys) n s v =
    del_loop-DbValid keys _ _ (unfold store_delete in store_delete-DbValid v (c_str key))

pub cmd_del-Keeps : Keeps cmd_del
unfolding cmd_del
cmd_del-Keeps env (name ∷ key ∷ keys) s c v = del_loop-DbValid (key ∷ keys) 0 s v
cmd_del-Keeps env argv s c v = v

exists_loop-DbValid :
    (now : ℤ) (keys : List Bytes) (n : ℕ) (s : Db)
    → DbValid s
    → DbValid (exists_loop now keys n s).1
unfolding exists_loop
exists_loop-DbValid now [] n s v = v
exists_loop-DbValid now (key ∷ keys) n s v =
    exists_loop-DbValid now keys _ _ (lookup_key-DbValid now (c_str key) v)

pub cmd_exists-Keeps : Keeps cmd_exists
unfolding cmd_exists
cmd_exists-Keeps env (name ∷ key ∷ keys) s c v = exists_loop-DbValid env.now (key ∷ keys) 0 s v
cmd_exists-Keeps env argv s c v = v

pub cmd_type-Keeps : Keeps cmd_type
unfolding cmd_type
cmd_type-Keeps env (name ∷ key ∷ []) s c v = lookup_key-DbValid env.now (c_str key) v
cmd_type-Keeps env argv s c v = v

pub cmd_keys-Keeps : Keeps cmd_keys
unfolding cmd_keys
cmd_keys-Keeps env (name ∷ pat ∷ []) s c v = v
cmd_keys-Keeps env argv s c v = v

-- An empty dictionary under the cursor that was there.
emptied-DbValid : (seed : Bytes) (s : Db) → DbValid (record s { d = dict_create seed })
emptied-DbValid seed s =
    let (ok, empty) = dict_create-IsValid {V = Robj} seed in
    record { keys = ok; values = λ k. rw (empty k) tt }

pub cmd_flushall-Keeps : Keeps cmd_flushall
unfolding cmd_flushall
cmd_flushall-Keeps env (name ∷ []) s c v = emptied-DbValid env.seed s
cmd_flushall-Keeps env argv s c v = v

pub cmd_dbsize-Keeps : Keeps cmd_dbsize
unfolding cmd_dbsize
cmd_dbsize-Keeps env (name ∷ []) s c v = v
cmd_dbsize-Keeps env argv s c v = v

pub cmd_info-Keeps : (start : ℤ) → Keeps (cmd_info start)
unfolding cmd_info
cmd_info-Keeps start env argv s c v = v

pub cmd_command-Keeps : Keeps cmd_command
unfolding cmd_command
cmd_command-Keeps env argv s c v = v

pub cmd_select-Keeps : Keeps cmd_select
unfolding cmd_select
cmd_select-Keeps env (name ∷ index ∷ []) s c v = v
cmd_select-Keeps env argv s c v = v

pub cmd_quit-Keeps : Keeps cmd_quit
unfolding cmd_quit
cmd_quit-Keeps env argv s c v = v

pub cmd_ping-Keeps : Keeps cmd_ping
unfolding cmd_ping
cmd_ping-Keeps env (name ∷ []) s c v = v
cmd_ping-Keeps env (name ∷ text ∷ []) s c v = v
cmd_ping-Keeps env argv s c v = v

pub cmd_echo-Keeps : Keeps cmd_echo
unfolding cmd_echo
cmd_echo-Keeps env (name ∷ text ∷ []) s c v = v
cmd_echo-Keeps env argv s c v = v
