-- ===== src/Db.antt =====
-- db.c: the store, key lookup with lazy expiration, and what the commands share.
pub mod Live
pub mod Runs
pub mod Keeps
pub mod Strings
pub mod Keys
pub mod Lists
pub mod Hashes
pub mod Sets
pub mod Doubles
pub mod Zsets
use miniredis.Common.{
  ℕ, Bytes, Bool, true, false, ◌&&◌, Option, none, some, List, [], ◌∷◌, ◌++◌, ℤ, pos, negsuc, leb_ℤ,
  ltb_ℤ, if◌then◌else◌, bytes, ◌==◌, length, ◌+◌,
}
use miniredis.Dict.{Dict, dict_create, dict_get, dict_set, dict_delete, dict_assign, dict_size}
use miniredis.Object.{Obj, str, list, hash, set, zset, Robj}
use miniredis.Zset.{Zset, zset_len}
use miniredis.Double.{Libm}
use miniredis.Server.Reply.{Client, append, crlf, reply_error}

pub record Db : Type 0 where
  pub d : Dict Robj
  pub expire_cursor : ℕ

-- What the environment of one command gives: the clock, which a command reads as standing still;
-- the random bytes that seed a dictionary made on the way; what `rand` will return; and the C
-- library's work on doubles.
pub record Env : Type 0 where
  pub now : ℤ
  pub seed : Bytes
  pub rand : ℕ → ℕ
  pub libm : Libm

-- A command acts on the store and the client; `argv` holds the raw arguments.
abbrev pub Command : Type 0
Command = Env → List Bytes → Db → Client → Db × Client

unfoldable pub db_create : Bytes → Db
db_create seed = record { d = dict_create seed; expire_cursor = 0 }

unfoldable pub db_size : Db → ℕ
db_size s = dict_size s.d

unfoldable pub key_expired : ℤ → Robj → Bool
key_expired now o = leb_ℤ (pos 0) o.expire_at && leb_ℤ o.expire_at now

-- `dict_set(store->d, …)`, the previous value freed.
unfoldable pub store_set : Db → Bytes → Robj → Db
store_set s key o = record s { d = (dict_set s.d key o).1 }

-- A write through the object that `lookup_key` returned.
unfoldable pub store_write : Db → Bytes → Robj → Db
store_write s key o = record s { d = dict_assign s.d key o }

-- `dict_delete(store->d, …)`, the value freed.
unfoldable pub store_delete : Db → Bytes → Db
store_delete s key = record s { d = (dict_delete s.d key).1 }

found_key : ℤ → Bytes → Db → Option Robj → Option Robj × Db
found_key now key s none = (none, s)
found_key now key s (some o) = if key_expired now o then (none, store_delete s key) else (some o, s)

unfoldable pub lookup_key : ℤ → Db → Bytes → Option Robj × Db
unfolding found_key
lookup_key now s key = found_key now key s (dict_get s.d key)

unfoldable pub reply_wrongtype : Client → Client
reply_wrongtype c =
    append c (bytes "-WRONGTYPE Operation against a key holding the wrong kind of value" ++ crlf)

-- "wrong number of arguments for '…' command"
unfoldable pub reply_arity : Client → Bytes → Client
reply_arity c name =
    reply_error c (bytes "wrong number of arguments for '" ++ (name ++ bytes "' command"))

-- `if (o && o->type != OBJ_…)`: no object, one of another type, or the contents of one of the type,
-- with its expiry.
pub data Typed {ℓ} (A : Type ℓ) : Type ℓ where
  missing wrongtype : Typed A
  held : A → ℤ → Typed A

unfoldable pub as_string : Option Robj → Typed Bytes
as_string none = missing
as_string (some o) = elim o.obj [ str b ↦ held b o.expire_at | _ ↦ wrongtype ]

unfoldable pub as_list : Option Robj → Typed (List Bytes)
as_list none = missing
as_list (some o) = elim o.obj [ list l ↦ held l o.expire_at | _ ↦ wrongtype ]

unfoldable pub as_hash : Option Robj → Typed (Dict Bytes)
as_hash none = missing
as_hash (some o) = elim o.obj [ hash h ↦ held h o.expire_at | _ ↦ wrongtype ]

unfoldable pub as_set : Option Robj → Typed (Dict (Unit {0}))
as_set none = missing
as_set (some o) = elim o.obj [ set m ↦ held m o.expire_at | _ ↦ wrongtype ]

unfoldable pub as_zset : Option Robj → Typed Zset
as_zset none = missing
as_zset (some o) = elim o.obj [ zset z ↦ held z o.expire_at | _ ↦ wrongtype ]

-- `if (o) n++`, and `if (!o) n++`.
abbrev pub one_more {ℓ} : {A : Type ℓ} → ℕ → Option A → ℕ
one_more n none = n
one_more n (some x) = n + 1

abbrev pub one_new {ℓ} : {A : Type ℓ} → ℕ → Option A → ℕ
one_new n none = n + 1
one_new n (some x) = n

is_empty : Obj → Bool
is_empty (str b) = false
is_empty (list l) = length l == 0
is_empty (hash h) = dict_size h == 0
is_empty (set m) = dict_size m == 0
is_empty (zset z) = zset_len z == 0

-- The key is deleted when its container became empty.
unfoldable pub maybe_delete_key : Db → Bytes → Obj → Db
unfolding is_empty
maybe_delete_key s key o = if is_empty o then store_delete s key else s

unfoldable pub type_name : Obj → Bytes
type_name (str b) = bytes "string"
type_name (list l) = bytes "list"
type_name (hash h) = bytes "hash"
type_name (set m) = bytes "set"
type_name (zset z) = bytes "zset"
