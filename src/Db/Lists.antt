-- ===== src/Db/Lists.antt =====
-- db.c: the list commands. A list is the sequence of its elements from head to tail.
pub mod Ranges
pub mod Edits
pub mod Ends
pub mod Outcome
pub mod Keeps
use miniredis.Common.{
  ℕ, zero, suc, ◌+◌, Bytes, Bool, true, false, not, ◌&&◌, Option, none, some, List, [], ◌∷◌, ◌++◌,
  ℤ, pos, negsuc, if◌then◌else◌, bytes, length, c_str, min, ◌==◌,
}
use miniredis.Util.Number.{string_to_ll}
use miniredis.Object.{Obj, list, Robj, robj_new_list, never}
use miniredis.Server.Reply.{
  Client, reply_simple, reply_error, reply_integer, reply_bulk, reply_null, reply_array_header,
}
use miniredis.Db.{
  Db, Env, Command, store_set, store_write, lookup_key, reply_wrongtype, reply_arity, Typed,
  missing, wrongtype, held, as_list, maybe_delete_key,
}

-- list.c: the two ends of a list.
unfoldable pub list_push : Bool → List Bytes → Bytes → List Bytes
list_push true l v = v ∷ l
list_push false l v = l ++ v ∷ []

list_pop_tail : List Bytes → Option (Bytes × List Bytes)
list_pop_tail [] = none
list_pop_tail (v ∷ []) = some (v, [])
list_pop_tail (v ∷ w ∷ l) = elim (list_pop_tail (w ∷ l)) [
  | none ↦ none
  | some r ↦ some (r.0, v ∷ r.1)
]

list_pop_head : List Bytes → Option (Bytes × List Bytes)
list_pop_head [] = none
list_pop_head (v ∷ l) = some (v, l)

unfoldable pub list_pop : Bool → List Bytes → Option (Bytes × List Bytes)
unfolding list_pop_head list_pop_tail
list_pop true l = list_pop_head l
list_pop false l = list_pop_tail l

-- An object that was changed in place: its list is `l`.
unfoldable pub write_list : Db → Bytes → List Bytes → ℤ → Db
write_list s key l e = store_write s key (record { obj = list l; expire_at = e })

unfoldable pub push_loop : Bool → List Bytes → List Bytes → List Bytes
push_loop head [] l = l
push_loop head (v ∷ vs) l = push_loop head vs (list_push head l (c_str v))

push_onto : Bool → Bytes → List Bytes → Db → Client → List Bytes → ℤ → Db × Client
push_onto head key vs s c l e =
    let l' = push_loop head vs l in (write_list s key l' e, reply_integer c (pos (length l')))

push_found : Bool → Bool → Bytes → List Bytes → Db → Client → Typed (List Bytes) → Db × Client
push_found head xx key vs s c wrongtype = (s, reply_wrongtype c)
push_found head xx key vs s c missing =
    if xx
    then (s, reply_integer c (pos 0))
    else push_onto head key vs (store_set s key robj_new_list) c [] never
push_found head xx key vs s c (held l e) = push_onto head key vs s c l e

unfoldable pub cmd_push : Bool → Bool → Command
unfolding push_found push_onto
cmd_push head xx env (name ∷ key ∷ v ∷ vs) s c =
    let (o, s') = lookup_key env.now s (c_str key) in
    push_found head xx (c_str key) (v ∷ vs) s' c (as_list o)
cmd_push head xx env [] s c = (s, reply_arity c [])
cmd_push head xx env (name ∷ argv) s c = (s, reply_arity c (c_str name))

unfoldable pub cmd_lpush : Command
cmd_lpush = cmd_push true false

unfoldable pub cmd_rpush : Command
cmd_rpush = cmd_push false false

unfoldable pub cmd_lpushx : Command
cmd_lpushx = cmd_push true true

unfoldable pub cmd_rpushx : Command
cmd_rpushx = cmd_push false true

-- The elements popped, in order, and the list without them.
unfoldable pub pop_loop : Bool → ℕ → List Bytes → List Bytes × List Bytes
pop_loop head zero l = ([], l)
pop_loop head (suc n) l = elim (list_pop head l) [
  | none ↦ ([], l)
  | some r ↦ let (vs, l') = pop_loop head n r.1 in (r.0 ∷ vs, l')
]

unfoldable pub reply_bulks : Client → List Bytes → Client
reply_bulks c [] = c
reply_bulks c (v ∷ vs) = reply_bulks (reply_bulk c v) vs

pop_one : Bytes → Db → Client → List Bytes → ℤ → Option (Bytes × List Bytes) → Db × Client
pop_one key s c l e none = (maybe_delete_key s key (list l), reply_null c)
pop_one key s c l e (some r) =
    (maybe_delete_key (write_list s key r.1 e) key (list r.1), reply_bulk c r.0)

pop_many : Bool → ℕ → Bytes → Db → Client → List Bytes → ℤ → Db × Client
pop_many head count key s c l e =
    let (vs, l') = pop_loop head (min count (length l)) l in
    (
      maybe_delete_key (write_list s key l' e) key (list l'),
      reply_bulks (reply_array_header c (length vs)) vs,
    )

pop_found : Bool → ℕ → Bytes → Db → Client → Typed (List Bytes) → Db × Client
pop_found head count key s c wrongtype = (s, reply_wrongtype c)
pop_found head count key s c missing = (s, reply_null c)
pop_found head count key s c (held l e) =
    if count == 1 then pop_one key s c l e (list_pop head l) else pop_many head count key s c l e

pop_counted : Bool → Env → Bytes → Db → Client → Option ℤ → Db × Client
pop_counted head env key s c (some (pos count)) =
    let (o, s') = lookup_key env.now s key in pop_found head count key s' c (as_list o)
pop_counted head env key s c _ =
    (s, reply_error c (bytes "value is out of range, must be positive"))

unfoldable pub cmd_pop : Bool → Command
unfolding pop_counted pop_found pop_one pop_many
cmd_pop head env (name ∷ key ∷ []) s c = pop_counted head env (c_str key) s c (some (pos 1))
cmd_pop head env (name ∷ key ∷ count ∷ []) s c =
    pop_counted head env (c_str key) s c (string_to_ll count)
cmd_pop head env [] s c = (s, reply_arity c [])
cmd_pop head env (name ∷ argv) s c = (s, reply_arity c (c_str name))

unfoldable pub cmd_lpop : Command
cmd_lpop = cmd_pop true

unfoldable pub cmd_rpop : Command
cmd_rpop = cmd_pop false

llen_found : Client → Typed (List Bytes) → Client
llen_found c missing = reply_integer c (pos 0)
llen_found c wrongtype = reply_wrongtype c
llen_found c (held l e) = reply_integer c (pos (length l))

unfoldable pub cmd_llen : Command
unfolding llen_found
cmd_llen env (name ∷ key ∷ []) s c =
    let (o, s') = lookup_key env.now s (c_str key) in (s', llen_found c (as_list o))
cmd_llen env argv s c = (s, reply_arity c (bytes "llen"))
