-- ===== src/Db/Strings/Set.antt =====
-- db.c `cmd_set` and `cmd_setex`: options, conditions and expiry.
pub mod Keeps
use miniredis.Common.{
  ℕ, zero, suc, Bytes, Bool, true, false, not, ◌&&◌, ◌||◌, Option, none, some, List, [], ◌∷◌, ℤ,
  pos, negsuc, if◌then◌else◌, bytes, c_str, ltb_ℤ, ltb, ◌+ℤ◌, ◌-ℤ◌, wrap_ll, ll_max, str_case_eq,
  ◌*◌, ◌/◌,
}
use miniredis.Util.Number.{string_to_ll}
use miniredis.Object.{str, Robj, never}
use miniredis.Server.Reply.{Client, reply_simple, reply_error, reply_null}
use miniredis.Db.{Db, Env, Command, store_set, lookup_key, reply_arity}

pub record SetOptions : Type 0 where
  pub nx : Bool
  pub xx : Bool
  pub expire_ms : ℤ

pub data Parsed : Type 0 where
  options : SetOptions → Parsed
  syntax_error invalid_expire : Parsed

abbrev pub defaults : SetOptions
defaults = record { nx = false; xx = false; expire_ms = never }

unfoldable pub is_option : Bytes → Bytes → Bool
is_option a name = str_case_eq (c_str a) name

unfoldable pub takes_time : Bytes → Bool
takes_time a =
    is_option a (bytes "EX")
    || is_option a (bytes "PX")
    || is_option a (bytes "EXAT")
    || is_option a (bytes "PXAT")

-- `expire_ms` for the option `a` with the time `v`; `none` is the refusal of a time that overflows.
-- The differences with the clock are 64-bit.
unfoldable pub option_time : Env → Bytes → ℕ → Option ℤ
option_time env a v =
    if is_option a (bytes "EX")
    then (if ltb (ll_max / 1000) v then none else some (pos (v * 1000)))
    else if is_option a (bytes "PX")
    then some (pos v)
    else if is_option a (bytes "EXAT")
    then (if ltb (ll_max / 1000) v then none else some (wrap_ll (pos (v * 1000) -ℤ env.now)))
    else some (wrap_ll (pos v -ℤ env.now))

-- `!string_to_ll(…, &v) || v <= 0`
unfoldable pub positive : Option ℤ → Option ℕ
positive none = none
positive (some (negsuc n)) = none
positive (some (pos zero)) = none
positive (some (pos (suc n))) = some (suc n)

unfoldable pub timed : Env → Bytes → Option ℕ → Option ℤ
timed env a none = none
timed env a (some v) = option_time env a v

-- The loop goes on with the time that was read.
with_time : (ℤ → Parsed) → Option ℤ → Parsed
with_time next none = invalid_expire
with_time next (some ms) = next ms

-- The loop over the options; each round reads one argument, or two where an option takes a time.
unfoldable pub set_options : Env → SetOptions → List Bytes → Parsed
unfolding with_time
set_options env o [] = options o
set_options env o (a ∷ []) =
    if takes_time a
    then syntax_error
    else if is_option a (bytes "NX")
    then options (record o { nx = true })
    else if is_option a (bytes "XX")
    then options (record o { xx = true })
    else syntax_error
set_options env o (a ∷ v ∷ rest) = elim (takes_time a) [
  | true ↦
      with_time (λ ms. set_options env (record o { expire_ms = ms }) rest)
        (timed env a (positive (string_to_ll v)))
  | false ↦ elim (is_option a (bytes "NX")) [
    | true ↦ set_options env (record o { nx = true }) (v ∷ rest)
    | false ↦ elim (is_option a (bytes "XX")) [
      | true ↦ set_options env (record o { xx = true }) (v ∷ rest)
      | false ↦ syntax_error
    ]
  ]
]

-- `(expire_ms < 0) ? -1 : now_ms() + expire_ms`
unfoldable pub expiry_after : ℤ → ℤ → ℤ
expiry_after now ms = if ltb_ℤ ms (pos 0) then never else wrap_ll (now +ℤ ms)

abbrev pub is_some : Option Robj → Bool
is_some none = false
is_some (some o) = true

set_parsed : Env → Bytes → Bytes → Db → Client → Parsed → Db × Client
set_parsed env key val s c syntax_error = (s, reply_error c (bytes "syntax error"))
set_parsed env key val s c invalid_expire =
    (s, reply_error c (bytes "invalid expire time in 'set' command"))
set_parsed env key val s c (options o) =
    let (existing, s') = lookup_key env.now s key in
    if o.nx && o.xx
    then (s, reply_error c (bytes "syntax error"))
    else if (o.nx && is_some existing) || (o.xx && not (is_some existing))
    then (s', reply_null c)
    else (
      store_set s' key (record { obj = str val; expire_at = expiry_after env.now o.expire_ms }),
      reply_simple c (bytes "OK"),
    )

unfoldable pub cmd_set : Command
unfolding set_parsed
cmd_set env (name ∷ key ∷ val ∷ opts) s c =
    set_parsed env (c_str key) (c_str val) s c (set_options env defaults opts)
cmd_set env argv s c = (s, reply_arity c (bytes "set"))

setex_secs : Env → Bytes → Bytes → Db → Client → Option ℕ → Db × Client
setex_secs env key val s c none =
    (s, reply_error c (bytes "invalid expire time in 'setex' command"))
setex_secs env key val s c (some secs) =
    if ltb (ll_max / 1000) secs
    then (s, reply_error c (bytes "invalid expire time in 'setex' command"))
    else (
      store_set s key
          (record { obj = str val; expire_at = wrap_ll (env.now +ℤ pos (secs * 1000)) }),
      reply_simple c (bytes "OK"),
    )

unfoldable pub cmd_setex : Command
unfolding setex_secs
cmd_setex env (name ∷ key ∷ secs ∷ val ∷ []) s c =
    setex_secs env (c_str key) (c_str val) s c (positive (string_to_ll secs))
cmd_setex env argv s c = (s, reply_arity c (bytes "setex"))
