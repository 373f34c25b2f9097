-- ===== src/Db/Strings/Counter.antt =====
-- db.c `incr_decr`: the counters INCR and DECR.
pub mod Bounds
pub mod Outcome
pub mod Keeps
use miniredis.Common.{
  ℕ, zero, suc, Bytes, Bool, true, false, ◌&&◌, ◌||◌, Option, none, some, List, [], ◌∷◌, ℤ, pos,
  negsuc, if◌then◌else◌, bytes, c_str, ltb_ℤ, ◌+ℤ◌, wrap_ll,
}
use miniredis.Util.Number.{string_to_ll_n, format_ll}
use miniredis.Object.{Obj, str, Robj, never}
use miniredis.Server.Reply.{Client, reply_error, reply_integer}
use miniredis.Db.{
  Db, Env, Command, store_set, lookup_key, reply_wrongtype, reply_arity, Typed, missing, wrongtype,
  held, as_string,
}

-- `v + delta` on 64 bits, and the test for overflow after it.
unfoldable pub checked_add : ℤ → ℤ → Option ℤ
checked_add v delta =
    let nv = wrap_ll (v +ℤ delta) in
    if (ltb_ℤ (pos 0) delta && ltb_ℤ nv v) || (ltb_ℤ delta (pos 0) && ltb_ℤ v nv)
    then none
    else some nv

count_write : Bytes → ℤ → Db → Client → Option ℤ → Db × Client
count_write key e s c none = (s, reply_error c (bytes "increment or decrement would overflow"))
count_write key e s c (some nv) =
    (store_set s key (record { obj = str (format_ll nv); expire_at = e }), reply_integer c nv)

count_parsed : Bytes → ℤ → ℤ → Db → Client → Option ℤ → Db × Client
count_parsed key delta e s c none =
    (s, reply_error c (bytes "value is not an integer or out of range"))
count_parsed key delta e s c (some v) = count_write key e s c (checked_add v delta)

count_found : Bytes → ℤ → Db → Client → Typed Bytes → Db × Client
count_found key delta s c wrongtype = (s, reply_wrongtype c)
count_found key delta s c missing = count_write key never s c (checked_add (pos 0) delta)
count_found key delta s c (held b e) = count_parsed key delta e s c (string_to_ll_n b)

unfoldable pub incr_decr : ℤ → Command
unfolding count_found count_parsed count_write
incr_decr delta env (name ∷ key ∷ []) s c =
    let (o, s') = lookup_key env.now s (c_str key) in
    count_found (c_str key) delta s' c (as_string o)
incr_decr delta env [] s c = (s, reply_arity c [])
incr_decr delta env (name ∷ argv) s c = (s, reply_arity c (c_str name))

unfoldable pub cmd_incr : Command
cmd_incr = incr_decr (pos 1)

unfoldable pub cmd_decr : Command
cmd_decr = incr_decr (negsuc 0)
