-- ===== src/Db/Strings/Range.antt =====
-- db.c `cmd_getrange` and `cmd_setrange`: parts of a string.
pub mod Splice
pub mod Keeps
use miniredis.Common.{
  ℕ, zero, suc, Bytes, Bool, true, false, ◌&&◌, ◌||◌, Option, none, some, List, [], ◌∷◌, ◌++◌, ℤ,
  pos, negsuc, pos_part, if◌then◌else◌, bytes, length, c_str, ltb_ℤ, leb_ℤ, ltb, ◌+ℤ◌, ◌-ℤ◌, take,
  drop, replicate, ◌+◌, ◌-◌,
}
use miniredis.Util.Number.{string_to_ll}
use miniredis.Object.{Obj, str, Robj, robj_new_string, never}
use miniredis.Server.Reply.{
  Client, reply_simple, reply_error, reply_integer, reply_bulk, reply_bulk_cstr,
}
use miniredis.Db.{
  Db, Env, Command, store_set, store_write, lookup_key, reply_wrongtype, reply_arity, Typed,
  missing, wrongtype, held, as_string,
}

-- A negative index counts from the end.
unfoldable pub from_end : ℤ → ℤ → ℤ
from_end len i = if ltb_ℤ i (pos 0) then len +ℤ i else i

unfoldable pub at_least_zero : ℤ → ℤ
at_least_zero i = if ltb_ℤ i (pos 0) then pos 0 else i

-- The bytes of `b` from `start` to `stop`, both normalised.
unfoldable pub getrange_bytes : Bytes → ℤ → ℤ → Bytes
unfolding from_end at_least_zero
getrange_bytes b start stop =
    let len = pos (length b) in
    let first = at_least_zero (from_end len start) in
    let last₀ = from_end len stop in
    let last = if leb_ℤ len last₀ then len -ℤ pos 1 else last₀ in
    if ltb_ℤ last first || leb_ℤ len first
    then []
    else take (pos_part (last -ℤ first +ℤ pos 1)) (drop (pos_part first) b)

getrange_found : ℤ → ℤ → Client → Typed Bytes → Client
getrange_found start stop c missing = reply_bulk_cstr c []
getrange_found start stop c wrongtype = reply_wrongtype c
getrange_found start stop c (held b e) = reply_bulk c (getrange_bytes b start stop)

getrange_parsed : Env → Bytes → Db → Client → Option ℤ → Option ℤ → Db × Client
getrange_parsed env key s c (some start) (some stop) =
    let (o, s') = lookup_key env.now s key in (s', getrange_found start stop c (as_string o))
getrange_parsed env key s c _ _ =
    (s, reply_error c (bytes "value is not an integer or out of range"))

unfoldable pub cmd_getrange : Command
unfolding getrange_found getrange_parsed
cmd_getrange env (name ∷ key ∷ start ∷ stop ∷ []) s c =
    getrange_parsed env (c_str key) s c (string_to_ll start) (string_to_ll stop)
cmd_getrange env argv s c = (s, reply_arity c (bytes "getrange"))

-- The buffer grown to `offset + length val` bytes where it is shorter, the gap filled with zeros,
-- and `val` copied to `offset`.
unfoldable pub setrange_bytes : Bytes → ℕ → Bytes → Bytes
setrange_bytes b offset val =
    let need = offset + length val in
    let grown = if ltb (length b) need then b ++ replicate (need - length b) 0 else b in
    take offset grown ++ (val ++ drop need grown)

setrange_write : Bytes → ℕ → Bytes → Db → Client → Bytes → ℤ → Db × Client
setrange_write key offset val s c b e =
    let whole = setrange_bytes b offset val in
    (
      store_write s key (record { obj = str whole; expire_at = e }),
      reply_integer c (pos (length whole)),
    )

setrange_found : Bytes → ℕ → Bytes → Db → Client → Typed Bytes → Db × Client
setrange_found key offset val s c wrongtype = (s, reply_wrongtype c)
setrange_found key offset val s c missing =
    setrange_write key offset val (store_set s key (robj_new_string [])) c [] never
setrange_found key offset val s c (held b e) = setrange_write key offset val s c b e

setrange_parsed : Env → Bytes → Bytes → Db → Client → Option ℤ → Db × Client
setrange_parsed env key val s c (some (pos offset)) =
    let (o, s') = lookup_key env.now s key in setrange_found key offset val s' c (as_string o)
setrange_parsed env key val s c _ = (s, reply_error c (bytes "offset is out of range"))

unfoldable pub cmd_setrange : Command
unfolding setrange_parsed setrange_found setrange_write
cmd_setrange env (name ∷ key ∷ offset ∷ val ∷ []) s c =
    setrange_parsed env (c_str key) (c_str val) s c (string_to_ll offset)
cmd_setrange env argv s c = (s, reply_arity c (bytes "setrange"))
