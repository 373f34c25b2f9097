-- ===== src/Db/Lists/Ranges.antt =====
-- db.c: LRANGE, LINDEX and LTRIM.
pub mod Keeps
use miniredis.Common.{
  ℕ, zero, suc, ◌+◌, ◌-◌, Bytes, false, ◌||◌, Option, none, some, List, [], ◌∷◌, ℤ, pos, pos_part,
  if◌then◌else◌, bytes, length, c_str, ltb_ℤ, leb_ℤ, ◌-ℤ◌, take, drop, get_elem?,
}
use miniredis.Util.Number.{string_to_ll}
use miniredis.Server.Reply.{
  Client, reply_simple, reply_error, reply_bulk, reply_null, reply_array_header,
}
use miniredis.Db.{
  Db, Env, Command, store_delete, lookup_key, reply_wrongtype, reply_arity, Typed, missing,
  wrongtype, held, as_list,
}
use miniredis.Db.Strings.Range.{from_end, at_least_zero}
use miniredis.Db.Lists.{list_pop, write_list, reply_bulks}

-- The first and the last index of a range; `none` for an empty one.
unfoldable pub range_normalize : ℕ → ℤ → ℤ → Option (ℕ × ℕ)
unfolding from_end at_least_zero
range_normalize n start stop =
    let len = pos n in
    let first = at_least_zero (from_end len start) in
    let last = from_end len stop in
    if ltb_ℤ last first || leb_ℤ len first
    then none
    else some (pos_part first, pos_part (if leb_ℤ len last then len -ℤ pos 1 else last))

-- `n` nodes from the one at `start`.
unfoldable pub slice : ℕ → ℕ → List Bytes → List Bytes
slice start stop l = take (stop - start + 1) (drop start l)

lrange_range : Client → List Bytes → Option (ℕ × ℕ) → Client
lrange_range c l none = reply_array_header c 0
lrange_range c l (some r) = reply_bulks (reply_array_header c (r.1 - r.0 + 1)) (slice r.0 r.1 l)

lrange_found : ℤ → ℤ → Client → Typed (List Bytes) → Client
lrange_found start stop c missing = reply_array_header c 0
lrange_found start stop c wrongtype = reply_wrongtype c
lrange_found start stop c (held l e) = lrange_range c l (range_normalize (length l) start stop)

lrange_parsed : Env → Bytes → Db → Client → Option ℤ → Option ℤ → Db × Client
lrange_parsed env key s c (some start) (some stop) =
    let (o, s') = lookup_key env.now s key in (s', lrange_found start stop c (as_list o))
lrange_parsed env key s c _ _ = (s, reply_error c (bytes "value is not an integer or out of range"))

unfoldable pub cmd_lrange : Command
unfolding lrange_parsed lrange_found lrange_range
cmd_lrange env (name ∷ key ∷ start ∷ stop ∷ []) s c =
    lrange_parsed env (c_str key) s c (string_to_ll start) (string_to_ll stop)
cmd_lrange env argv s c = (s, reply_arity c (bytes "lrange"))

-- list.c `list_node_at`: the position of the node, counted from the tail where it is negative.
unfoldable pub list_node_at : List Bytes → ℤ → Option ℕ
unfolding from_end
list_node_at l index =
    let len = pos (length l) in
    let i = from_end len index in if ltb_ℤ i (pos 0) || leb_ℤ len i then none else some (pos_part i)

lindex_node : Client → List Bytes → Option ℕ → Client
lindex_node c l none = reply_null c
lindex_node c l (some i) = elim (get_elem? l i) [ none ↦ reply_null c | some v ↦ reply_bulk c v ]

lindex_found : ℤ → Client → Typed (List Bytes) → Client
lindex_found index c missing = reply_null c
lindex_found index c wrongtype = reply_wrongtype c
lindex_found index c (held l e) = lindex_node c l (list_node_at l index)

lindex_parsed : Env → Bytes → Db → Client → Option ℤ → Db × Client
lindex_parsed env key s c (some index) =
    let (o, s') = lookup_key env.now s key in (s', lindex_found index c (as_list o))
lindex_parsed env key s c none =
    (s, reply_error c (bytes "value is not an integer or out of range"))

unfoldable pub cmd_lindex : Command
unfolding lindex_parsed lindex_found lindex_node
cmd_lindex env (name ∷ key ∷ index ∷ []) s c =
    lindex_parsed env (c_str key) s c (string_to_ll index)
cmd_lindex env argv s c = (s, reply_arity c (bytes "lindex"))

-- `while (list_len(l) > target) list_pop_tail(l)`, for the `n` rounds that it makes.
unfoldable pub pop_tails : ℕ → List Bytes → List Bytes
pop_tails zero l = l
pop_tails (suc n) l = elim (list_pop false l) [ none ↦ l | some r ↦ pop_tails n r.1 ]

unfoldable pub trim : ℕ → ℕ → List Bytes → List Bytes
trim start stop l = let l' = drop start l in pop_tails (length l' - (stop - start + 1)) l'

ltrim_range : Bytes → Db → Client → List Bytes → ℤ → Option (ℕ × ℕ) → Db × Client
ltrim_range key s c l e none = (store_delete s key, reply_simple c (bytes "OK"))
ltrim_range key s c l e (some r) =
    (write_list s key (trim r.0 r.1 l) e, reply_simple c (bytes "OK"))

ltrim_found : Bytes → ℤ → ℤ → Db → Client → Typed (List Bytes) → Db × Client
ltrim_found key start stop s c missing = (s, reply_simple c (bytes "OK"))
ltrim_found key start stop s c wrongtype = (s, reply_wrongtype c)
ltrim_found key start stop s c (held l e) =
    ltrim_range key s c l e (range_normalize (length l) start stop)

ltrim_parsed : Env → Bytes → Db → Client → Option ℤ → Option ℤ → Db × Client
ltrim_parsed env key s c (some start) (some stop) =
    let (o, s') = lookup_key env.now s key in ltrim_found key start stop s' c (as_list o)
ltrim_parsed env key s c _ _ = (s, reply_error c (bytes "value is not an integer or out of range"))

unfoldable pub cmd_ltrim : Command
unfolding ltrim_parsed ltrim_found ltrim_range
cmd_ltrim env (name ∷ key ∷ start ∷ stop ∷ []) s c =
    ltrim_parsed env (c_str key) s c (string_to_ll start) (string_to_ll stop)
cmd_ltrim env argv s c = (s, reply_arity c (bytes "ltrim"))
