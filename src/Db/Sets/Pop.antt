-- ===== src/Db/Sets/Pop.antt =====
-- db.c: SPOP, which takes members that `rand` picks.
pub mod Keeps
use miniredis.Common.{
  ℕ, zero, suc, ◌+◌, Bytes, Bool, Option, none, some, List, [], ◌∷◌, ℤ, pos, negsuc, min, ◌==◌,
  if◌then◌else◌, bytes, c_str,
}
use miniredis.Util.Number.{string_to_ll}
use miniredis.Dict.{Entry, dict_delete, dict_size, dict_random_entry}
use miniredis.Object.{Obj, set}
use miniredis.Server.Reply.{Client, reply_error, reply_bulk, reply_null, reply_array_header}
use miniredis.Db.{
  Db, Env, Command, lookup_key, reply_wrongtype, reply_arity, Typed, missing, wrongtype, held,
  as_set, maybe_delete_key,
}
use miniredis.Db.Sets.{Members, write_set}

-- The picked member is replied and leaves the set; the draws of `rand` that are left.
spop_picked :
    Client → Members → Option (Entry (Unit {0})) × (ℕ → ℕ) → Option (Client × Members × (ℕ → ℕ))
spop_picked c m (none, rand) = none
spop_picked c m (some e, rand) = some (reply_bulk c e.key, (dict_delete m e.key).1, rand)

unfoldable pub spop_member : (ℕ → ℕ) → Client → Members → Option (Client × Members × (ℕ → ℕ))
unfolding spop_picked
spop_member rand c m = spop_picked c m (dict_random_entry rand m)

unfoldable pub spop_loop : ℕ → (ℕ → ℕ) → Client → Members → Client × Members
spop_loop zero rand c m = (c, m)
spop_loop (suc left) rand c m = elim (spop_member rand c m) [
  | none ↦ (c, m)
  | some (c', m', rand') ↦ spop_loop left rand' c' m'
]

spop_one : Env → Bytes → Db → Client → Members → ℤ → Db × Client
spop_one env key s c m e = elim (spop_member env.rand c m) [
  | none ↦ (s, reply_null c)
  | some (c', m', rand') ↦ (maybe_delete_key (write_set s key m' e) key (set m'), c')
]

spop_many : Env → Bytes → ℕ → Db → Client → Members → ℤ → Db × Client
spop_many env key count s c m e =
    let n = min count (dict_size m) in
    let (c', m') = spop_loop n env.rand (reply_array_header c n) m in
    (maybe_delete_key (write_set s key m' e) key (set m'), c')

spop_found : Env → Bytes → ℕ → Db → Client → Typed Members → Db × Client
spop_found env key count s c missing =
    (s, if count == 1 then reply_null c else reply_array_header c 0)
spop_found env key count s c wrongtype = (s, reply_wrongtype c)
spop_found env key count s c (held m e) =
    if count == 1 then spop_one env key s c m e else spop_many env key count s c m e

spop_counted : Env → Bytes → Db → Client → Option ℤ → Db × Client
spop_counted env key s c (some (pos count)) =
    let (o, s') = lookup_key env.now s key in spop_found env key count s' c (as_set o)
spop_counted env key s c _ = (s, reply_error c (bytes "value is out of range, must be positive"))

unfoldable pub cmd_spop : Command
unfolding spop_counted spop_found spop_one spop_many
cmd_spop env (name ∷ key ∷ []) s c = spop_counted env (c_str key) s c (some (pos 1))
cmd_spop env (name ∷ key ∷ count ∷ []) s c = spop_counted env (c_str key) s c (string_to_ll count)
cmd_spop env argv s c = (s, reply_arity c (bytes "spop"))
