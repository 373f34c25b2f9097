-- ===== src/Db/Keys/Expiry.antt =====
-- db.c: EXPIRE, PEXPIRE, EXPIREAT, PEXPIREAT, TTL, PTTL, and the active expiration cycle.
pub mod Readback
pub mod Cycle
pub mod Keeps
use miniredis.Common.{
  ℕ, zero, suc, ◌+◌, ◌*◌, ◌/◌, Bytes, Bool, true, false, not, ◌&&◌, ◌||◌, Option, none, some, List,
  [], ◌∷◌, ◌++◌, ℤ, pos, negsuc, pos_part, if◌then◌else◌, bytes, length, c_str, ◌-ℤ◌, ◌+ℤ◌, wrap_ll,
  ltb_ℤ, ltb, leb, ll_max, ◌==◌, get_or, ◌-◌,
}
use miniredis.Util.Number.{string_to_ll}
use miniredis.Dict.{Entry, Dict, dict_delete}
use miniredis.Object.{Obj, Robj}
use miniredis.Server.Reply.{Client, reply_error, reply_integer}
use miniredis.Db.{Db, Env, Command, key_expired, lookup_key, reply_arity, store_write, store_delete}

-- "invalid expire time in '…' command"
unfoldable pub reply_invalid_expire : Client → Bytes → Client
reply_invalid_expire c name =
    reply_error c (bytes "invalid expire time in '" ++ (name ++ bytes "' command"))

-- The time in milliseconds; `none` where seconds would overflow.
unfoldable pub to_ms : Bool → ℕ → Option ℕ
to_ms is_ms v =
    if not is_ms && ltb (ll_max / 1000) v then none else some (if is_ms then v else v * 1000)

expire_set : ℤ → Bytes → Bytes → Db → Client → Robj → Option ℕ → Db × Client
expire_set now name key s c o none = (s, reply_invalid_expire c name)
expire_set now name key s c o (some ms) =
    (store_write s key (record o { expire_at = wrap_ll (now +ℤ pos ms) }), reply_integer c (pos 1))

expire_found : Bool → ℤ → Bytes → Bytes → ℕ → Db → Client → Option Robj → Db × Client
expire_found is_ms now name key v s c none = (s, reply_integer c (pos 0))
expire_found is_ms now name key v s c (some o) = expire_set now name key s c o (to_ms is_ms v)

-- `v < 0` is refused before the key is looked up.
expire_parsed : Bool → Env → Bytes → Bytes → Db → Client → Option ℤ → Db × Client
expire_parsed is_ms env name key s c (some (pos v)) =
    let (o, s') = lookup_key env.now s key in expire_found is_ms env.now name key v s' c o
expire_parsed is_ms env name key s c _ = (s, reply_invalid_expire c name)

unfoldable pub cmd_expire_generic : Bool → Command
unfolding expire_parsed expire_found expire_set
cmd_expire_generic is_ms env (name ∷ key ∷ time ∷ []) s c =
    expire_parsed is_ms env (c_str name) (c_str key) s c (string_to_ll time)
cmd_expire_generic is_ms env [] s c = (s, reply_arity c [])
cmd_expire_generic is_ms env (name ∷ argv) s c = (s, reply_arity c (c_str name))

expireat_found : Bytes → Db → Client → ℕ → Option Robj → Db × Client
expireat_found key s c ms none = (s, reply_integer c (pos 0))
expireat_found key s c ms (some o) =
    (store_write s key (record o { expire_at = pos ms }), reply_integer c (pos 1))

expireat_ms : Env → Bytes → Bytes → Db → Client → Option ℕ → Db × Client
expireat_ms env name key s c none = (s, reply_invalid_expire c name)
expireat_ms env name key s c (some ms) =
    let (o, s') = lookup_key env.now s key in expireat_found key s' c ms o

expireat_parsed : Bool → Env → Bytes → Bytes → Db → Client → Option ℤ → Db × Client
expireat_parsed is_ms env name key s c (some (pos v)) = expireat_ms env name key s c (to_ms is_ms v)
expireat_parsed is_ms env name key s c _ = (s, reply_invalid_expire c name)

unfoldable pub cmd_expireat_generic : Bool → Command
unfolding expireat_parsed expireat_ms expireat_found
cmd_expireat_generic is_ms env (name ∷ key ∷ time ∷ []) s c =
    expireat_parsed is_ms env (c_str name) (c_str key) s c (string_to_ll time)
cmd_expireat_generic is_ms env [] s c = (s, reply_arity c [])
cmd_expireat_generic is_ms env (name ∷ argv) s c = (s, reply_arity c (c_str name))

-- C's division of a difference of clocks, toward zero.
unfoldable pub seconds : ℤ → ℤ
seconds (pos n) = pos (n / 1000)
seconds (negsuc n) = elim (suc n / 1000) [ zero ↦ pos 0 | suc m ↦ negsuc m ]

-- -2 for no key, -1 for no expiry, else the time that is left, in seconds to the nearest.
unfoldable pub ttl_of : Bool → ℤ → Option Robj → ℤ
ttl_of is_ms now none = negsuc 1
ttl_of is_ms now (some o) =
    let left = pos_part (o.expire_at -ℤ now) in
    if ltb_ℤ o.expire_at (pos 0)
    then negsuc 0
    else if is_ms
    then pos left
    else seconds (wrap_ll (pos (left + 500)))

unfoldable pub cmd_ttl_generic : Bool → Command
cmd_ttl_generic is_ms env (name ∷ key ∷ []) s c =
    let (o, s') = lookup_key env.now s (c_str key) in (s', reply_integer c (ttl_of is_ms env.now o))
cmd_ttl_generic is_ms env [] s c = (s, reply_arity c [])
cmd_ttl_generic is_ms env (name ∷ argv) s c = (s, reply_arity c (c_str name))

unfoldable pub cmd_expire : Command
cmd_expire = cmd_expire_generic false

unfoldable pub cmd_pexpire : Command
cmd_pexpire = cmd_expire_generic true

unfoldable pub cmd_expireat : Command
cmd_expireat = cmd_expireat_generic false

unfoldable pub cmd_pexpireat : Command
cmd_pexpireat = cmd_expireat_generic true

unfoldable pub cmd_ttl : Command
cmd_ttl = cmd_ttl_generic false

unfoldable pub cmd_pttl : Command
cmd_pttl = cmd_ttl_generic true

abbrev pub expire_cycle_max_keys : ℕ
expire_cycle_max_keys = 200

-- One bucket: `next` was read before the entry was removed, so the loop runs along the chain as it
-- was.
unfoldable pub expire_chain : ℤ → List (Entry Robj) → Db → Db
expire_chain now [] s = s
expire_chain now (e ∷ es) s =
    expire_chain now es (if key_expired now e.val then store_delete s e.key else s)

-- The buckets from the cursor on, until 200 keys were examined; `rounds` bounds the buckets left.
unfoldable pub expire_loop : ℤ → ℕ → ℕ → Db → Db
expire_loop now zero examined s = s
expire_loop now (suc rounds) examined s =
    let b = s.expire_cursor in
    let chain = get_or s.d.table b [] in
    let s' = expire_chain now chain (record s { expire_cursor = b + 1 }) in
    let rest = expire_loop now rounds (examined + length chain) s' in
    if ltb examined expire_cycle_max_keys && ltb b s.d.size then rest else s

unfoldable pub rewind : Db → Db
rewind s = if leb s.d.size s.expire_cursor then record s { expire_cursor = 0 } else s

unfoldable pub db_expire_cycle : ℤ → Db → Db
db_expire_cycle now s =
    if s.d.size == 0
    then record s { expire_cursor = 0 }
    else rewind (expire_loop now s.d.size 0 (rewind s))
