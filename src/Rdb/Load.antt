-- ===== src/Rdb/Load.antt =====
-- rdb.c: the reader. `r.p + r.pos` is the list of the bytes that are unread.
pub mod Keeps
use miniredis.Common.{
  ℕ, zero, suc, ◌+◌, ◌-◌, ◌*◌, ◌^◌, Bytes, Bool, true, false, ◌||◌, not, Option, none, some, List,
  [], ◌∷◌, ◌++◌, ℤ, pos, negsuc, ltb, ◌==◌, if◌then◌else◌, length, take, drop, bytes_eq,
}
use miniredis.Dict.{Dict, dict_create, dict_set}
use miniredis.Double.{Double}
use miniredis.Zset.{Zset, zset_create, zset_add}
use miniredis.Object.{Obj, str, list, hash, set, zset, Robj, robj_new_string}
use miniredis.Db.{Db, store_set}
use miniredis.Db.Lists.{list_push}
use miniredis.Rdb.{rdb_magic, rdb_version}

-- A value that was read and the bytes behind it, or nothing where the buffer ends before.
abbrev pub Read {ℓ} : Type ℓ → Type ℓ
Read A = Bytes → Option (A × Bytes)

then_read {ℓ κ} : {A : Type ℓ} {B : Type κ} → (A → Read B) → Option (A × Bytes) → Option (B × Bytes)
then_read f none = none
then_read f (some (x, rest)) = f x rest

infixl 20 ◌>>=◌
unfoldable pub ◌>>=◌ {ℓ κ} : {A : Type ℓ} {B : Type κ} → Read A → (A → Read B) → Read B
unfolding then_read
(r >>= f) buf = then_read f (r buf)

unfoldable pub return {ℓ} : {A : Type ℓ} → A → Read A
return x buf = some (x, buf)

-- `r_need`: the next `n` bytes, where they are there.
unfoldable pub r_need : ℕ → Read Bytes
r_need n buf = if ltb (length buf) n then none else some (take n buf, drop n buf)

-- `u = (u << 8) | t[i]`
unfoldable pub number : ℕ → Bytes → ℕ
number u [] = u
number u (b ∷ t) = number (u * 256 + b) t

unfoldable pub r_u8 : Read ℕ
r_u8 = r_need 1 >>= λ t. return (number 0 t)

unfoldable pub r_u32 : Read ℕ
r_u32 = r_need 4 >>= λ t. return (number 0 t)

-- `(int64_t)u`
unfoldable pub to_s64 : ℕ → ℤ
to_s64 u = if ltb u (2 ^ 63) then pos u else negsuc (2 ^ 64 - 1 - u)

unfoldable pub r_u64 : Read ℕ
r_u64 = r_need 8 >>= λ t. return (number 0 t)

unfoldable pub r_s64 : Read ℤ
r_s64 = r_u64 >>= λ u. return (to_s64 u)

unfoldable pub r_bytes : Read Bytes
r_bytes = r_u32 >>= λ n. r_need n

-- The bits of the number.
unfoldable pub r_f64 : Read Double
r_f64 = r_u64

-- `cnt` rounds of a loop that reads an element and adds it.
unfoldable pub r_times {ℓ} : {A : Type ℓ} → ℕ → (A → Read A) → A → Read A
r_times zero step x = return x
r_times (suc n) step x = step x >>= λ y. r_times n step y

unfoldable pub r_element : List Bytes → Read (List Bytes)
r_element l = r_bytes >>= λ s. return (list_push false l s)

unfoldable pub r_field : Dict Bytes → Read (Dict Bytes)
r_field h = r_bytes >>= λ f. r_bytes >>= λ v. return (dict_set h f v).1

unfoldable pub r_member : Dict (Unit {0}) → Read (Dict (Unit {0}))
r_member m = r_bytes >>= λ s. return (dict_set m s tt).1

-- With the draws of `rand` that are left.
unfoldable pub r_scored : Zset × (ℕ → ℕ) → Read (Zset × (ℕ → ℕ))
r_scored (z, rand) =
    r_bytes >>= λ m. r_f64 >>= λ score. return (let r = zset_add rand z score m in (r.1, r.2))

-- A container: the number of its elements, and the elements.
unfoldable pub r_container {ℓ κ} : {A : Type ℓ} {B : Type κ} → (A → Read A) → A → (A → B) → Read B
r_container step empty wrap = r_u32 >>= λ cnt. r_times cnt step empty >>= λ x. return (wrap x)

corrupt : Read Obj
corrupt buf = none

-- The seed of a dictionary and the draws for a sorted set that a value makes.
unfoldable pub rdb_read_obj : Bytes → (ℕ → ℕ) → ℕ → Read Obj
unfolding corrupt
rdb_read_obj seed rand t =
    if t == 0
    then (r_bytes >>= λ s. return (str s))
    else if t == 1
    then r_container r_element [] list
    else if t == 2
    then r_container r_field (dict_create seed) hash
    else if t == 3
    then r_container r_member (dict_create seed) set
    else if t == 4
    then r_container r_scored (zset_create seed, rand) (λ z. zset z.0)
    else corrupt

-- One key.
unfoldable pub r_key : Bytes → (ℕ → ℕ) → Read (Bytes × Robj)
r_key seed rand = r_bytes >>= λ key. r_s64 >>= λ expire. r_u8 >>= λ type.
    rdb_read_obj seed rand type >>= λ o. return (key, record { obj = o; expire_at = expire })

-- The loop over the keys, which stops at the first that is corrupt; each value has its own seed and
-- draws.
unfoldable pub load_keys : (ℕ → Bytes × (ℕ → ℕ)) → ℕ → Bytes → Db → Db
load_keys draws zero buf s = s
load_keys draws (suc count) buf s = elim (r_key (draws count).0 (draws count).1 buf) [
  | none ↦ s
  | some ((key, o), rest) ↦ load_keys draws count rest (store_set s key o)
]

load_counted : (ℕ → Bytes × (ℕ → ℕ)) → Db → Option (ℕ × Bytes) → Option Db
load_counted draws s none = none
load_counted draws s (some (count, buf)) = some (load_keys draws count buf s)

load_versioned : (ℕ → Bytes × (ℕ → ℕ)) → Db → Option (ℕ × Bytes) → Option Db
load_versioned draws s none = none
load_versioned draws s (some (version, buf)) =
    if version == rdb_version then load_counted draws s (r_u32 buf) else none

-- The store after the contents of a file were loaded, or nothing for -1.
unfoldable pub rdb_load : (ℕ → Bytes × (ℕ → ℕ)) → Bytes → Db → Option Db
unfolding load_counted load_versioned
rdb_load draws buf s =
    if ltb (length buf) 17 || not (bytes_eq (take 9 buf) rdb_magic)
    then none
    else load_versioned draws s (r_u32 (drop 9 buf))
