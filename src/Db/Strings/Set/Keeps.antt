-- ===== src/Db/Strings/Set/Keeps.antt =====
-- db.c: SET and SETEX keep the store well formed.
use miniredis.Common.{
  Bytes, [], ◌∷◌, Option, none, some, ℕ, c_str, Bool-cases, inl, inr, ltb, ll_max, ◌/◌, ◌&&◌, ◌||◌,
  not,
}
use miniredis.Server.Reply.{Client}
use miniredis.Util.Number.{string_to_ll}
use miniredis.Db.{Db, Env, lookup_key}
use miniredis.Db.Live.{DbValid}
use miniredis.Db.Keeps.{Keeps, lookup_key-DbValid, store_set-DbValid}
use miniredis.Db.Strings.Set.{
  cmd_set, cmd_setex, set_parsed, setex_secs, set_options, defaults, Parsed, syntax_error,
  invalid_expire, options, is_some, positive,
}

set_parsed-DbValid :
    (env : Env) (k x : Bytes) (s : Db) (c : Client) (p : Parsed)
    → DbValid s
    → DbValid (set_parsed env k x s c p).0
unfolding set_parsed
set_parsed-DbValid env k x s c syntax_error v = v
set_parsed-DbValid env k x s c invalid_expire v = v
set_parsed-DbValid env k x s c (options o) v = elim (Bool-cases (o.nx && o.xx)) [
  | inl both ↦ rw both v
  | inr fine ↦
      let r = lookup_key env.now s k in
      let v' = lookup_key-DbValid env.now k v in
      rw fine (elim (Bool-cases ((o.nx && is_some r.0) || (o.xx && not (is_some r.0)))) [
        | inl skip ↦ rw skip v'
        | inr go ↦ rw go (store_set-DbValid v' k _ tt)
      ])
]

pub cmd_set-Keeps : Keeps cmd_set
unfolding cmd_set
cmd_set-Keeps env (name ∷ key ∷ x ∷ opts) s c v =
    set_parsed-DbValid env (c_str key) (c_str x) s c (set_options env defaults opts) v
cmd_set-Keeps env argv s c v = v

setex_secs-DbValid :
    (env : Env) (k x : Bytes) (s : Db) (c : Client) (secs : Option ℕ)
    → DbValid s
    → DbValid (setex_secs env k x s c secs).0
unfolding setex_secs
setex_secs-DbValid env k x s c none v = v
setex_secs-DbValid env k x s c (some secs) v = elim (Bool-cases (ltb (ll_max / 1000) secs)) [
  | inl large ↦ rw large v
  | inr fine ↦ rw fine (store_set-DbValid v k _ tt)
]

pub cmd_setex-Keeps : Keeps cmd_setex
unfolding cmd_setex
cmd_setex-Keeps env (name ∷ key ∷ secs ∷ x ∷ []) s c v =
    setex_secs-DbValid env (c_str key) (c_str x) s c (positive (string_to_ll secs)) v
cmd_setex-Keeps env argv s c v = v
