-- ===== src/Tests/Store.antt =====
-- db.c: the commands on a small store.
use miniredis.Common.{
  Bytes, true, false, none, some, [], ◌∷◌, pos, negsuc, ◌≡◌, ◌≢◌, refl, ap, arith, if◌then◌else◌,
  bytes, bytes_eq, c_str, length, leb, leb_ℤ, ◌&&◌, get_or, max, ltb, ◌+◌, ◌⊎◌, FitsLl, ◌+ℤ◌,
  str_case_eq, to_lower,
}
use miniredis.Double.{Libm, inf_bits}
use miniredis.Object.{str, Robj, robj_new_string, never}
use miniredis.Dict.Laws.Ops.{dict_set-Writes}
use miniredis.Util.Number.{string_to_ll, string_to_ll_n, format_zu, parse_digits}
use miniredis.Server.Reply.{Client, reply_integer, reply_array_header, reply_bulk, reply_null}
use miniredis.Db.{Db, as_list, Env, db_create, store_set, key_expired, as_string}
use miniredis.Db.Live.{
  DbValid, live, alive, view_of, Found, Lost, lookup_key-cases, store_set-Becomes,
  db_create-DbValid,
}
use miniredis.Db.Runs.{bind, Runs}
use miniredis.Db.Strings.{cmd_get, cmd_setnx, cmd_rename}
use miniredis.Db.Strings.Set.{
  defaults, set_options, cmd_set, takes_time, is_option, expiry_after, is_some,
}
use miniredis.Db.Strings.Outcome.{
  set_outcome, rename_outcome, cmd_set-Runs, cmd_setnx-Runs, cmd_rename-Runs,
}
use miniredis.Db.Strings.Readback.{cmd_get-cmd_set, cmd_set-past}
use miniredis.Db.Strings.Counter.{checked_add, incr_decr}
use miniredis.Db.Strings.Counter.Bounds.{checked_add_lem}
use miniredis.Db.Strings.Counter.Outcome.{count_outcome, incr_decr-Runs}
use miniredis.Db.Strings.Range.{getrange_bytes, setrange_bytes}
use miniredis.Db.Strings.Range.Splice.{setrange_bytes_lem, getrange_bytes-setrange_bytes}
use miniredis.Db.Keys.{cmd_keys, del_loop, cmd_del, cmd_exists}
use miniredis.Dict.{entries_of}
use miniredis.Db.Keys.Listing.{matching, times, listed, cmd_keys_lem}
use miniredis.Db.Keys.Deletion.{named, held_keys, del_loop_lem, cmd_del-expired}
use miniredis.Db.Keys.Expiry.{cmd_expire_generic, cmd_ttl_generic, expire_loop, db_expire_cycle}
use miniredis.Db.Keys.Expiry.Readback.{cmd_ttl-cmd_expire}
use miniredis.Db.Keys.Expiry.Cycle.{db_expire_cycle-Keeps, expire_loop-enough}
use miniredis.Db.Lists.{reply_bulks, cmd_push, cmd_pop}
use miniredis.Db.Lists.Outcome.{list_object, push_outcome, pop_outcome, cmd_push-Runs, cmd_pop-Runs}
use miniredis.Db.Lists.Ranges.{trim, slice}
use miniredis.Db.Lists.Ends.{trim-slice}

-- No argument is a number, and no sum is one.
abbrev no_doubles : Libm
no_doubles = record { add = λ a b. inf_bits + 1; strtod = λ s. (0, 0, false); print_17g = λ d. [] }

abbrev at_1000 : Env
at_1000 = record { now = pos 1000; seed = []; rand = λ i. 0; libm = no_doubles }

abbrev at_1500 : Env
at_1500 = record { now = pos 1500; seed = []; rand = λ i. 0; libm = no_doubles }

abbrev quiet : Client
quiet = record { out = []; closing = false }

-- "GET" and so on; the commands do not read their own name unless they refuse.
abbrev cmd : Bytes
cmd = b'c' ∷ []

abbrev key : Bytes
key = b'k' ∷ []

abbrev other_key : Bytes
other_key = b'q' ∷ []

abbrev seven : Bytes
seven = b'7' ∷ []

abbrev empty : Db
empty = db_create []

empty-DbValid : DbValid empty
empty-DbValid = db_create-DbValid []

-- The key holds "7", for ever or until 900.
abbrev lasting : Robj
lasting = record { obj = str seven; expire_at = never }

abbrev expiring : Robj
expiring = record { obj = str seven; expire_at = pos 900 }

abbrev one_key : Db
one_key = store_set empty key lasting

one_key-DbValid : DbValid one_key
one_key-DbValid = (store_set-Becomes (pos 1000) empty empty-DbValid key lasting tt).valid

one_key_lives : live (pos 1000) one_key key ≡ some lasting
unfolding alive key_expired bytes_eq
one_key_lives = (store_set-Becomes (pos 1000) empty empty-DbValid key lasting tt).lives key

abbrev stale : Db
stale = store_set empty key expiring

stale-DbValid : DbValid stale
stale-DbValid = (store_set-Becomes (pos 1000) empty empty-DbValid key expiring tt).valid

stale_held : view_of stale key ≡ some expiring
unfolding store_set bytes_eq
stale_held = (dict_set-Writes empty.d key expiring empty-DbValid.keys).views key

lookup_key-cases_example :
    Found (pos 1000) stale stale-DbValid key ⊎ Lost (pos 1000) stale stale-DbValid key
lookup_key-cases_example = lookup_key-cases (pos 1000) stale stale-DbValid key

cmd_set-Runs_example :
    let r =
      set_outcome
        (pos 1000)
        (c_str key)
        (c_str seven)
        (record defaults { nx = true })
        (live (pos 1000) one_key)
        quiet in
    Runs
      (pos 1000)
      r.0
      r.1
      (cmd_set at_1000 (cmd ∷ key ∷ seven ∷ (b'n' ∷ b'x' ∷ []) ∷ []) one_key quiet)
unfolding set_options takes_time is_option str_case_eq to_lower bytes c_str
cmd_set-Runs_example =
    cmd_set-Runs at_1000 cmd key seven ((b'n' ∷ b'x' ∷ []) ∷ []) (record defaults { nx = true })
      one_key quiet one_key-DbValid refl

cmd_get-cmd_set_example :
    let s' = (cmd_set at_1000 (cmd ∷ key ∷ seven ∷ []) stale quiet).0 in
    let expiry = expiry_after (pos 1000) never in
    ((cmd_get at_1500 (cmd ∷ key ∷ []) s' quiet).1 ≡ (
      if leb_ℤ (pos 0) expiry && leb_ℤ expiry (pos 1500)
      then reply_null quiet
      else reply_bulk quiet (c_str seven)))
    × ((q : Bytes) → q ≢ c_str key → live (pos 1000) s' q ≡ live (pos 1000) stale q)
unfolding set_options
cmd_get-cmd_set_example =
    cmd_get-cmd_set at_1000 at_1500 cmd cmd key seven [] defaults stale quiet quiet stale-DbValid
      refl refl refl (omega arith)

cmd_set-past_example :
    (cmd_get at_1500
      (cmd ∷ key ∷ [])
      (cmd_set at_1000 (cmd ∷ key ∷ seven ∷ bytes "PXAT" ∷ format_zu 900 ∷ []) empty quiet).0
      quiet).1
    ≡ reply_bulk quiet (c_str seven)
cmd_set-past_example =
    cmd_set-past 1000 900 at_1000 at_1500 cmd cmd key seven empty quiet quiet empty-DbValid refl
      (omega arith) (omega arith) (omega arith) (omega arith)

cmd_setnx-Runs_example :
    let w = live (pos 1000) one_key in
    let taken = is_some (w (c_str key)) in
    Runs
      (pos 1000)
      (if taken then w else bind w (c_str key) (some (robj_new_string (c_str seven))))
      (reply_integer quiet (if taken then pos 0 else pos 1))
      (cmd_setnx at_1000 (cmd ∷ key ∷ seven ∷ []) one_key quiet)
cmd_setnx-Runs_example = cmd_setnx-Runs at_1000 cmd key seven one_key quiet one_key-DbValid

cmd_rename-Runs_example :
    let w = live (pos 1000) one_key in
    let r = rename_outcome (c_str key) (c_str other_key) w quiet (w (c_str key)) in
    Runs (pos 1000) r.0 r.1 (cmd_rename at_1000 (cmd ∷ key ∷ other_key ∷ []) one_key quiet)
unfolding c_str bytes_eq
cmd_rename-Runs_example =
    cmd_rename-Runs at_1000 cmd key other_key one_key quiet one_key-DbValid
      (λ e. let h : true ≡ false = ap (bytes_eq key) e in cc)

incr_decr-Runs_example :
    let w = live (pos 1000) one_key in
    let r = count_outcome (c_str key) (pos 1) w quiet (as_string (w (c_str key))) in
    Runs (pos 1000) r.0 r.1 (incr_decr (pos 1) at_1000 (cmd ∷ key ∷ []) one_key quiet)
incr_decr-Runs_example =
    incr_decr-Runs (pos 1) at_1000 cmd key one_key quiet (omega arith, omega arith) one_key-DbValid

checked_add_lem_example :
    (FitsLl (pos 9223372036854775807 +ℤ pos 1)
      → checked_add (pos 9223372036854775807) (pos 1) ≡ some (pos 9223372036854775807 +ℤ pos 1))
    × (¬ FitsLl (pos 9223372036854775807 +ℤ pos 1)
        → checked_add (pos 9223372036854775807) (pos 1) ≡ none)
checked_add_lem_example =
    checked_add_lem (pos 9223372036854775807) (pos 1) (omega arith, omega arith)
      (omega arith, omega arith)

setrange_bytes_lem_example :
    (length (setrange_bytes seven 3 key) ≡ max 1 4)
    × (get_or (setrange_bytes seven 3 key) 2 0 ≡ (
        if ltb 2 3 then get_or seven 2 0 else if ltb 2 4 then get_or key 0 0 else get_or seven 2 0))
setrange_bytes_lem_example = setrange_bytes_lem seven 3 key 2

getrange_bytes-setrange_bytes_example :
    getrange_bytes (setrange_bytes seven 3 key) (pos 3) (pos 3) ≡ key
getrange_bytes-setrange_bytes_example = getrange_bytes-setrange_bytes seven 3 key (omega arith)

del_loop_lem_example :
    let r = del_loop (key ∷ other_key ∷ []) 0 stale in
    (r.0 ≡ 0 + held_keys (view_of stale) (key ∷ other_key ∷ []))
    × DbValid r.1
    × ((q : Bytes)
        → view_of r.1 q ≡ (if named q (key ∷ other_key ∷ []) then none else view_of stale q))
del_loop_lem_example = del_loop_lem (key ∷ other_key ∷ []) 0 stale stale-DbValid

cmd_del-expired_example :
    ((cmd_del at_1000 (cmd ∷ key ∷ []) stale quiet).1 ≡ reply_integer quiet (pos 1))
    × ((cmd_exists at_1000 (cmd ∷ key ∷ []) stale quiet).1 ≡ reply_integer quiet (pos 0))
unfolding key_expired c_str
cmd_del-expired_example =
    cmd_del-expired at_1000 cmd key expiring stale quiet stale-DbValid stale_held refl

cmd_ttl-cmd_expire_example :
    let s' = (cmd_expire_generic true at_1000 (cmd ∷ key ∷ seven ∷ []) one_key quiet).0 in
    ((cmd_ttl_generic true at_1000 (cmd ∷ key ∷ []) s' quiet).1
      ≡ reply_integer quiet (if leb 1007 1000 then negsuc 1 else pos 7))
    × ((q : Bytes) → q ≢ c_str key → live (pos 1000) s' q ≡ live (pos 1000) one_key q)
unfolding string_to_ll string_to_ll_n parse_digits c_str
cmd_ttl-cmd_expire_example =
    cmd_ttl-cmd_expire 1000 1000 7 at_1000 at_1000 cmd cmd key seven lasting one_key quiet quiet
      one_key-DbValid refl refl (omega arith) (omega arith) one_key_lives refl

db_expire_cycle-Keeps_example :
    DbValid (db_expire_cycle (pos 1000) stale)
    × ((q : Bytes) → live (pos 1000) (db_expire_cycle (pos 1000) stale) q ≡ live (pos 1000) stale q)
db_expire_cycle-Keeps_example = db_expire_cycle-Keeps (pos 1000) stale stale-DbValid

abbrev two_buckets : Db
two_buckets = record {
  d = record { table = [] ∷ [] ∷ []; size = 2; used = 0; seed = [] };
  expire_cursor = 0;
}

expire_loop-enough_example :
    expire_loop (pos 1000) (2 + 3) 0 two_buckets ≡ expire_loop (pos 1000) 2 0 two_buckets
expire_loop-enough_example = expire_loop-enough (pos 1000) 2 3 0 two_buckets (omega arith)

trim-slice_example :
    trim 1 1 (key ∷ other_key ∷ seven ∷ []) ≡ slice 1 1 (key ∷ other_key ∷ seven ∷ [])
trim-slice_example = trim-slice 1 1 (key ∷ other_key ∷ seven ∷ [])

abbrev two_items : Robj
two_items = list_object (key ∷ other_key ∷ []) never

abbrev two_listed : Db
two_listed = store_set empty key two_items

two_listed-DbValid : DbValid two_listed
two_listed-DbValid = (store_set-Becomes (pos 1000) empty empty-DbValid key two_items tt).valid

cmd_push-Runs_example :
    let w = live (pos 1000) two_listed in
    let r = push_outcome true false (c_str key) (seven ∷ []) w quiet (as_list (w (c_str key))) in
    Runs (pos 1000) r.0 r.1 (cmd_push true false at_1000 (cmd ∷ key ∷ seven ∷ []) two_listed quiet)
cmd_push-Runs_example =
    cmd_push-Runs true false at_1000 cmd key seven [] two_listed quiet two_listed-DbValid

-- A pop of seven elements empties the list.
cmd_pop-Runs_example :
    let w = live (pos 1000) two_listed in
    let r = pop_outcome true 7 (c_str key) w quiet (as_list (w (c_str key))) in
    Runs (pos 1000) r.0 r.1 (cmd_pop true at_1000 (cmd ∷ key ∷ seven ∷ []) two_listed quiet)
unfolding string_to_ll string_to_ll_n parse_digits c_str
cmd_pop-Runs_example =
    cmd_pop-Runs true at_1000 cmd key seven 7 two_listed quiet two_listed-DbValid refl

cmd_keys_lem_example :
    let ks = matching (pos 1000) (c_str key) (entries_of one_key.d.table) in
    (cmd_keys at_1000 (cmd ∷ key ∷ []) one_key quiet
      ≡ (one_key, reply_bulks (reply_array_header quiet (length ks)) ks))
    × ((q : Bytes) → times q ks ≡ listed (c_str key) q (live (pos 1000) one_key q))
cmd_keys_lem_example = cmd_keys_lem at_1000 cmd key one_key quiet one_key-DbValid
