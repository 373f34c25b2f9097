-- ===== src/Db/Sets/Algebra.antt =====
-- db.c: SINTER, SUNION and SDIFF.
pub mod Keeps
use miniredis.Common.{
  ℕ, suc, Bytes, Bool, true, false, not, ◌&&◌, ◌||◌, Option, none, some, List, [], ◌∷◌,
  if◌then◌else◌, bytes, c_str, ltb,
}
use miniredis.Dict.{Entry, dict_create, dict_get, dict_set, dict_size, entries_of}
use miniredis.Server.Reply.{Client, reply_array_header}
use miniredis.Db.{
  Db, Env, Command, lookup_key, reply_wrongtype, reply_arity, Typed, missing, wrongtype, held,
  as_set,
}
use miniredis.Db.Sets.{Members, reply_members}

-- SINTER tests every set, the smallest too: its own members pass there.
-- The sets of the arguments, `none` for a missing key; the outer `none` at a key of another type.
cons_arg : Typed Members → Option (List (Option Members)) → Option (List (Option Members))
cons_arg wrongtype rest = none
cons_arg missing none = none
cons_arg missing (some ms) = some (none ∷ ms)
cons_arg (held m e) none = none
cons_arg (held m e) (some ms) = some (some m ∷ ms)

-- What an argument and those behind it give; behind one of another type nothing is looked up.
args_after :
    Typed Members → Db → Option (List (Option Members)) × Db → Option (List (Option Members)) × Db
args_after wrongtype s rest = (none, s)
args_after missing s (ms, s') = (cons_arg missing ms, s')
args_after (held m e) s (ms, s') = (cons_arg (held m e) ms, s')

-- `set_arg_get` for each argument in turn, up to the first of another type; the lookups drop keys
-- that have expired.
unfoldable pub set_args : Env → List Bytes → Db → Option (List (Option Members)) × Db
unfolding cons_arg args_after
set_args env [] s = (some [], s)
set_args env (key ∷ keys) s =
    let (o, s') = lookup_key env.now s (c_str key) in
    args_after (as_set o) s' (set_args env keys s')

-- Every argument has a set, or one is missing (`has_empty`).
unfoldable pub all_sets : List (Option Members) → Option (List Members)
all_sets [] = some []
all_sets (none ∷ ms) = none
all_sets (some m ∷ ms) = elim (all_sets ms) [ none ↦ none | some l ↦ some (m ∷ l) ]

unfoldable pub smallest : Members → List Members → Members
smallest best [] = best
smallest best (m ∷ ms) = smallest (if ltb (dict_size m) (dict_size best) then m else best) ms

abbrev pub has : Members → Bytes → Bool
has m v = elim (dict_get m v) [ none ↦ false | some mark ↦ true ]

unfoldable pub in_all : List Members → Bytes → Bool
in_all [] v = true
in_all (m ∷ ms) v = has m v && in_all ms v

unfoldable pub in_some : List (Option Members) → Bytes → Bool
in_some [] v = false
in_some (none ∷ ms) v = in_some ms v
in_some (some m ∷ ms) v = has m v || in_some ms v

-- The members of one set that pass a test: the two passes, one that counts and one that replies.
unfoldable pub keep_members : (Bytes → Bool) → List (Entry (Unit {0})) → List (Entry (Unit {0}))
keep_members test [] = []
keep_members test (e ∷ es) =
    let rest = keep_members test es in if test e.key then e ∷ rest else rest

unfoldable pub entries_length : List (Entry (Unit {0})) → ℕ
entries_length [] = 0
entries_length (e ∷ es) = suc (entries_length es)

unfoldable pub reply_set : Client → List (Entry (Unit {0})) → Client
reply_set c es = reply_members (reply_array_header c (entries_length es)) es

sinter_sets : Client → Option (List Members) → Client
sinter_sets c none = reply_array_header c 0
sinter_sets c (some []) = reply_array_header c 0
sinter_sets c (some (m ∷ ms)) =
    reply_set c (keep_members (in_all (m ∷ ms)) (entries_of (smallest m ms).table))

sinter_args : Client → Option (List (Option Members)) → Client
sinter_args c none = reply_wrongtype c
sinter_args c (some ms) = sinter_sets c (all_sets ms)

unfoldable pub cmd_sinter : Command
unfolding sinter_args sinter_sets
cmd_sinter env (name ∷ key ∷ keys) s c =
    let (ms, s') = set_args env (key ∷ keys) s in (s', sinter_args c ms)
cmd_sinter env argv s c = (s, reply_arity c (bytes "sinter"))

unfoldable pub add_entries : List (Entry (Unit {0})) → Members → Members
add_entries [] u = u
add_entries (e ∷ es) u = add_entries es (dict_set u e.key tt).1

unfoldable pub union_of : List (Option Members) → Members → Members
union_of [] u = u
union_of (none ∷ ms) u = union_of ms u
union_of (some m ∷ ms) u = union_of ms (add_entries (entries_of m.table) u)

sunion_args : Bytes → Client → Option (List (Option Members)) → Client
sunion_args seed c none = reply_wrongtype c
sunion_args seed c (some ms) =
    let u = union_of ms (dict_create seed) in
    reply_members (reply_array_header c (dict_size u)) (entries_of u.table)

unfoldable pub cmd_sunion : Command
unfolding sunion_args
cmd_sunion env (name ∷ key ∷ keys) s c =
    let (ms, s') = set_args env (key ∷ keys) s in (s', sunion_args env.seed c ms)
cmd_sunion env argv s c = (s, reply_arity c (bytes "sunion"))

sdiff_args : Client → Option (List (Option Members)) → Client
sdiff_args c none = reply_wrongtype c
sdiff_args c (some []) = reply_array_header c 0
sdiff_args c (some (none ∷ ms)) = reply_array_header c 0
sdiff_args c (some (some m ∷ ms)) =
    reply_set c (keep_members (λ v. not (in_some ms v)) (entries_of m.table))

unfoldable pub cmd_sdiff : Command
unfolding sdiff_args
cmd_sdiff env (name ∷ key ∷ keys) s c =
    let (ms, s') = set_args env (key ∷ keys) s in (s', sdiff_args c ms)
cmd_sdiff env argv s c = (s, reply_arity c (bytes "sdiff"))
