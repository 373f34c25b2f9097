-- ===== src/Db/Lists/Edits.antt =====
-- db.c: LSET, LREM and LINSERT.
pub mod Keeps
use mathlib.Core.List.{reverse}
use miniredis.Common.{
  ℕ, suc, ◌+◌, ◌-◌, Bytes, Bool, true, false, not, ◌&&◌, Option, none, some, List, [], ◌∷◌, ℤ, pos,
  negsuc, if◌then◌else◌, bytes, length, c_str, set, bytes_eq, str_case_eq, ◌==◌,
}
use miniredis.Util.Number.{string_to_ll}
use miniredis.Object.{list}
use miniredis.Server.Reply.{Client, reply_simple, reply_error, reply_integer}
use miniredis.Db.{
  Db, Env, Command, lookup_key, reply_wrongtype, reply_arity, Typed, missing, wrongtype, held,
  as_list, maybe_delete_key,
}
use miniredis.Db.Lists.{write_list}
use miniredis.Db.Lists.Ranges.{list_node_at}

lset_node : Bytes → Bytes → Db → Client → List Bytes → ℤ → Option ℕ → Db × Client
lset_node key val s c l e none = (s, reply_error c (bytes "index out of range"))
lset_node key val s c l e (some i) = (write_list s key (set l i val) e, reply_simple c (bytes "OK"))

lset_found : Bytes → ℤ → Bytes → Db → Client → Typed (List Bytes) → Db × Client
lset_found key index val s c missing = (s, reply_error c (bytes "no such key"))
lset_found key index val s c wrongtype = (s, reply_wrongtype c)
lset_found key index val s c (held l e) = lset_node key val s c l e (list_node_at l index)

lset_parsed : Env → Bytes → Bytes → Db → Client → Option ℤ → Db × Client
lset_parsed env key val s c (some index) =
    let (o, s') = lookup_key env.now s key in lset_found key index val s' c (as_list o)
lset_parsed env key val s c none =
    (s, reply_error c (bytes "value is not an integer or out of range"))

unfoldable pub cmd_lset : Command
unfolding lset_parsed lset_found lset_node
cmd_lset env (name ∷ key ∷ index ∷ val ∷ []) s c =
    lset_parsed env (c_str key) (c_str val) s c (string_to_ll index)
cmd_lset env argv s c = (s, reply_arity c (bytes "lset"))

-- The walk from the head: `all` for a count of 0, else at most `n` elements are removed. The list
-- that is left, and how many were removed.
unfoldable pub remove_loop : Bool → ℕ → Bytes → List Bytes → List Bytes × ℕ
remove_loop all n target [] = ([], 0)
remove_loop all n target (v ∷ l) =
    let same = bytes_eq v target in
    let (l', removed) = remove_loop all (if same then n - 1 else n) target l in
    if not all && (n == 0)
    then (v ∷ l, 0)
    else if same
    then (l', removed + 1)
    else (v ∷ l', removed)

-- A negative count walks from the tail.
unfoldable pub remove_count : ℤ → Bytes → List Bytes → List Bytes × ℕ
remove_count (pos n) target l = remove_loop (n == 0) n target l
remove_count (negsuc n) target l =
    let (l', removed) = remove_loop false (suc n) target (reverse l) in (reverse l', removed)

lrem_found : Bytes → ℤ → Bytes → Db → Client → Typed (List Bytes) → Db × Client
lrem_found key count target s c missing = (s, reply_integer c (pos 0))
lrem_found key count target s c wrongtype = (s, reply_wrongtype c)
lrem_found key count target s c (held l e) =
    let (l', removed) = remove_count count target l in
    (maybe_delete_key (write_list s key l' e) key (list l'), reply_integer c (pos removed))

lrem_parsed : Env → Bytes → Bytes → Db → Client → Option ℤ → Db × Client
lrem_parsed env key target s c (some count) =
    let (o, s') = lookup_key env.now s key in lrem_found key count target s' c (as_list o)
lrem_parsed env key target s c none =
    (s, reply_error c (bytes "value is not an integer or out of range"))

unfoldable pub cmd_lrem : Command
unfolding lrem_parsed lrem_found
cmd_lrem env (name ∷ key ∷ count ∷ target ∷ []) s c =
    lrem_parsed env (c_str key) (c_str target) s c (string_to_ll count)
cmd_lrem env argv s c = (s, reply_arity c (bytes "lrem"))

cons_elem : Bytes → Option (List Bytes) → Option (List Bytes)
cons_elem v none = none
cons_elem v (some l) = some (v ∷ l)

-- The value beside the first element that equals the pivot; `none` without such an element.
unfoldable pub insert_beside : Bool → Bytes → Bytes → List Bytes → Option (List Bytes)
unfolding cons_elem
insert_beside before pivot val [] = none
insert_beside before pivot val (v ∷ l) =
    let later = cons_elem v (insert_beside before pivot val l) in
    if bytes_eq v pivot then some (if before then val ∷ v ∷ l else v ∷ val ∷ l) else later

linsert_pivot : Bytes → Db → Client → ℤ → Option (List Bytes) → Db × Client
linsert_pivot key s c e none = (s, reply_integer c (negsuc 0))
linsert_pivot key s c e (some l) = (write_list s key l e, reply_integer c (pos (length l)))

linsert_found : Bool → Bytes → Bytes → Bytes → Db → Client → Typed (List Bytes) → Db × Client
linsert_found before key pivot val s c missing = (s, reply_integer c (pos 0))
linsert_found before key pivot val s c wrongtype = (s, reply_wrongtype c)
linsert_found before key pivot val s c (held l e) =
    linsert_pivot key s c e (insert_beside before pivot val l)

unfoldable pub cmd_linsert : Command
unfolding linsert_found linsert_pivot
cmd_linsert env (name ∷ key ∷ where' ∷ pivot ∷ val ∷ []) s c =
    let before = str_case_eq (c_str where') (bytes "BEFORE") in
    let after = str_case_eq (c_str where') (bytes "AFTER") in
    let (o, s') = lookup_key env.now s (c_str key) in
    if before
    then linsert_found true (c_str key) (c_str pivot) (c_str val) s' c (as_list o)
    else if after
    then linsert_found false (c_str key) (c_str pivot) (c_str val) s' c (as_list o)
    else (s, reply_error c (bytes "syntax error"))
cmd_linsert env argv s c = (s, reply_arity c (bytes "linsert"))
