-- ===== src/Rdb.antt =====
-- rdb.c: the snapshot, a header and each key with its expiry, its type and its value. Numbers are
-- big-endian.
pub mod Load
pub mod RoundTrip
use miniredis.Common.{
  ℕ, zero, suc, ◌+◌, ◌-◌, ◌*◌, ◌/◌, ◌%◌, ◌^◌, Bytes, Bool, true, false, Option, none, some, List,
  [], ◌∷◌, ◌++◌, ℤ, pos, negsuc, bytes, length, if◌then◌else◌,
}
use miniredis.Dict.{Entry, Dict, dict_size, entries_of}
use miniredis.Double.{Double}
use miniredis.Skiplist.{Node, zsl_nodes}
use miniredis.Zset.{Zset, zset_len}
use miniredis.Object.{Obj, str, list, hash, set, zset, Robj}
use miniredis.Db.{Db}
use miniredis.Files.{Replacing, replace_file, write_full}

abbrev pub rdb_magic : Bytes
rdb_magic = bytes "MINIREDIS"

abbrev pub rdb_version : ℕ
rdb_version = 1

-- The last `n` bytes of a number, the high ones first.
unfoldable pub w_uint : ℕ → ℕ → Bytes
w_uint zero v = []
w_uint (suc n) v = w_uint n (v / 256) ++ (v % 256) ∷ []

unfoldable pub w_u8 : ℕ → Bytes
w_u8 v = (v % 256) ∷ []

unfoldable pub w_u32 : ℕ → Bytes
w_u32 v = w_uint 4 v

unfoldable pub w_u64 : ℕ → Bytes
w_u64 v = w_uint 8 v

-- `(uint64_t)v`
unfoldable pub w_s64 : ℤ → Bytes
w_s64 (pos n) = w_u64 n
w_s64 (negsuc n) = w_u64 (2 ^ 64 - 1 - n)

unfoldable pub w_bytes : Bytes → Bytes
w_bytes s = w_u32 (length s) ++ s

unfoldable pub w_f64 : Double → Bytes
w_f64 d = w_u64 d

-- The loops over the elements of a container.
unfoldable pub w_all {ℓ} : {A : Type ℓ} → (A → Bytes) → List A → Bytes
w_all w [] = []
w_all w (x ∷ xs) = w x ++ w_all w xs

unfoldable pub w_field : Entry Bytes → Bytes
w_field e = w_bytes e.key ++ w_bytes e.val

unfoldable pub w_member : Entry (Unit {0}) → Bytes
w_member e = w_bytes e.key

unfoldable pub w_node : Node → Bytes
w_node n = w_bytes n.member ++ w_f64 n.score

unfoldable pub rdb_write_obj : Obj → Bytes
rdb_write_obj (str b) = w_bytes b
rdb_write_obj (list l) = w_u32 (length l) ++ w_all w_bytes l
rdb_write_obj (hash h) = w_u32 (dict_size h) ++ w_all w_field (entries_of h.table)
rdb_write_obj (set m) = w_u32 (dict_size m) ++ w_all w_member (entries_of m.table)
rdb_write_obj (zset z) = w_u32 (zset_len z) ++ w_all w_node (zsl_nodes z.zsl)

unfoldable pub type_code : Obj → ℕ
type_code (str b) = 0
type_code (list l) = 1
type_code (hash h) = 2
type_code (set m) = 3
type_code (zset z) = 4

unfoldable pub w_key : Entry Robj → Bytes
w_key e =
    w_bytes e.key
    ++ (w_s64 e.val.expire_at ++ (w_u8 (type_code e.val.obj) ++ rdb_write_obj e.val.obj))

-- What `rdb_save` writes.
unfoldable pub rdb_bytes : Db → Bytes
rdb_bytes s =
    rdb_magic
    ++ (w_u32 rdb_version ++ (w_u32 (dict_size s.d) ++ w_all w_key (entries_of s.d.table)))

-- Whether the snapshot was saved, and the file at the path.
unfoldable pub rdb_save : Replacing → Db → Bytes → Bool × Bytes
rdb_save r s old = let w = write_full r.writes (rdb_bytes s) [] in replace_file r (w.0, w.1) old
