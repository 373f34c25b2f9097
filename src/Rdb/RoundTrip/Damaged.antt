-- ===== src/Rdb/RoundTrip/Damaged.antt =====
-- rdb.c: a snapshot that was cut off or damaged behind some of its keys.
use miniredis.Common.{
  ℕ, zero, suc, ◌+◌, ◌^◌, ◌≤◌, ◌<◌, ◌≡◌, refl, sym, ap, ◌∙◌, arith, Bytes, none, some, List, ◌++◌,
  length, length-append,
}
use miniredis.Dict.{Entry}
use miniredis.Dict.Chain.{find, count}
use miniredis.Dict.Laws.Valid.{IsValid, view}
use miniredis.Object.{Robj}
use miniredis.Db.{Db}
use miniredis.Rdb.{w_u32, w_all, w_key, rdb_magic, rdb_version}
use miniredis.Rdb.Load.{r_key, load_keys, rdb_load}
use miniredis.Rdb.RoundTrip.{Reads, r_u32-Reads, length-w_uint, Each}
use miniredis.Rdb.RoundTrip.Snapshot.{
  KeyStorable, Back, more, more-length, load_keys-Loads, rdb_load-framed,
}

-- Bytes that do not begin with a key and its object.
abbrev pub Unreadable : Bytes → Type 0
Unreadable tail = (seed : Bytes) (rand : ℕ → ℕ) → r_key seed rand tail ≡ none

load_keys-Unreadable :
    (draws : ℕ → Bytes × (ℕ → ℕ)) (m : ℕ) (tail : Bytes)
    → Unreadable tail
    → (s : Db) → load_keys draws m tail s ≡ s
unfolding load_keys
load_keys-Unreadable draws zero tail h s = refl
load_keys-Unreadable draws (suc m) tail h s = rw (h (draws m).0 (draws m).1, load_keys) refl

-- A snapshot that announces `m` keys more than those of `es`.
unfoldable pub snapshot_of : List (Entry Robj) → ℕ → Bytes → Bytes
snapshot_of es m tail =
    rdb_magic ++ (w_u32 rdb_version ++ (w_u32 (length es + m) ++ (w_all w_key es ++ tail)))

-- A snapshot that announces more keys than it holds whole, or is damaged behind some of them, loads
-- with success all the same: into a well-formed store, each of the keys before the damage comes
-- back with an object of the same contents and expiry, in the place of one that was there, and the
-- other keys keep what they had. The keys are distinct, fewer than 2 ^ 32 are announced, they and
-- their values fit the format, and none of them is a sorted set.
pub rdb_load-snapshot_of :
    (draws : ℕ → Bytes × (ℕ → ℕ)) (es : List (Entry Robj)) (m : ℕ) (tail : Bytes) (s₀ : Db)
    → IsValid s₀.d
    → Each (λ (e : Entry Robj). KeyStorable e.key e.val) es
    → ((q : Bytes) → count q es ≤ 1)
    → length es + m < 2 ^ 32
    → Unreadable tail
    → (s' : Db) × (rdb_load draws (snapshot_of es m tail) s₀ ≡ some s')
      × IsValid s'.d
      × ((q : Bytes) → Back (find q es) (view s₀.d q) (view s'.d q))
unfolding snapshot_of Reads w_u32
rdb_load-snapshot_of draws es m tail s₀ v h once small unreadable =
    let n = length es + m in
    let keys = w_all w_key es ++ tail in
    let loads =
      load_keys-Loads draws es m tail s₀ v h once (load_keys-Unreadable draws m tail unreadable) in
    let long : 8 ≤ length (w_u32 rdb_version ++ (w_u32 n ++ keys)) = omega (
      arith,
      length-append (w_u32 rdb_version) (w_u32 n ++ keys),
      length-append (w_u32 n) keys,
      length-w_uint 4 rdb_version,
      length-w_uint 4 n,
    ) in
    let framed =
      rdb_load-framed draws (w_u32 rdb_version ++ (w_u32 n ++ keys)) (w_u32 n ++ keys) keys n s₀
        long (r_u32-Reads 1 (omega arith) (w_u32 n ++ keys)) (r_u32-Reads n small keys) in
    (
      load_keys draws (more es m) keys s₀,
      framed ∙ ap (λ k. some (load_keys draws k keys s₀)) (sym (more-length es m)),
      loads.valid,
      loads.back,
    )
