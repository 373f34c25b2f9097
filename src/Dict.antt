-- ===== src/Dict.antt =====
-- dict.c: a chained hash table with byte-string keys and a power of two of buckets.
-- A chain is the list of its entries, the head of the bucket first.
pub mod Chain
pub mod Laws
use Prim.Native.Nat.{bit_and}
use miniredis.Common.{
  ℕ, zero, suc, ◌+◌, ◌-◌, ◌*◌, ◌%◌, Bytes, Bool, true, false, ◌&&◌, Option, none, some, List, [],
  ◌∷◌, ◌++◌, ltb, leb, ◌==◌, if◌then◌else◌, length, get_or, set, replicate, bytes_eq,
}
use miniredis.Siphash.{siphash}

-- `klen` is the length of `key`.
pub record Entry {ℓ} (V : Type ℓ) : Type ℓ where
  pub key : Bytes
  pub val : V
  pub hash : ℕ

-- The counters are below 2 ^ 64: memory holds fewer entries.
pub record Dict {ℓ} (V : Type ℓ) : Type ℓ where
  pub table : List (List (Entry V))
  pub size : ℕ
  pub used : ℕ
  pub seed : Bytes

abbrev pub initial_size : ℕ
initial_size = 16

pub dict_hash : Bytes → Bytes → ℕ
dict_hash key seed = siphash key seed

-- `h & (size - 1)`
pub slot : ℕ → ℕ → ℕ
slot h size = bit_and h (size - 1)

module _ {ℓ} {V : Type ℓ} where
  unfoldable pub key_equal : Entry V → Bytes → ℕ → Bool
  key_equal e key h = (e.hash == h) && bytes_eq e.key key

  -- What the seed is, `util_random_bytes` decides.
  unfoldable pub dict_create : Bytes → Dict V
  dict_create seed = record { table = []; size = 0; used = 0; seed = seed }

  -- `e->next = table[idx]; table[idx] = e`
  unfoldable pub push_head : List (List (Entry V)) → ℕ → Entry V → List (List (Entry V))
  push_head table idx e = set table idx (e ∷ get_or table idx [])

  unfoldable pub move_chain : ℕ → List (Entry V) → List (List (Entry V)) → List (List (Entry V))
  move_chain new_size [] new_table = new_table
  move_chain new_size (e ∷ es) new_table =
      move_chain new_size es (push_head new_table (slot e.hash new_size) e)

  unfoldable pub move_all :
      ℕ → List (List (Entry V)) → List (List (Entry V)) → List (List (Entry V))
  move_all new_size [] new_table = new_table
  move_all new_size (c ∷ cs) new_table = move_all new_size cs (move_chain new_size c new_table)

  unfoldable pub dict_resize : Dict V → ℕ → Dict V
  dict_resize d new_size = record d {
    table = move_all new_size d.table (replicate new_size []);
    size = new_size;
  }

  unfoldable pub dict_grow : Dict V → Dict V
  dict_grow d =
      if d.size == 0
      then dict_resize d initial_size
      else if leb (d.size * 3) (d.used * 4)
      then dict_resize d (d.size * 2)
      else d

  -- The loops along one chain.
  unfoldable pub chain_get : Bytes → ℕ → List (Entry V) → Option V
  chain_get key h [] = none
  chain_get key h (e ∷ es) = if key_equal e key h then some e.val else chain_get key h es

  unfoldable pub chain_replace : Bytes → ℕ → V → List (Entry V) → List (Entry V)
  chain_replace key h v [] = []
  chain_replace key h v (e ∷ es) =
      if key_equal e key h then record e { val = v } ∷ es else e ∷ chain_replace key h v es

  unfoldable pub chain_remove : Bytes → ℕ → List (Entry V) → List (Entry V)
  chain_remove key h [] = []
  chain_remove key h (e ∷ es) = if key_equal e key h then es else e ∷ chain_remove key h es

  unfoldable pub dict_get : Dict V → Bytes → Option V
  dict_get d key =
      let h = dict_hash key d.seed in
      if d.size == 0 then none else chain_get key h (get_or d.table (slot h d.size) [])

  -- The previous value, and the dictionary.
  insert_at : Dict V → Bytes → V → ℕ → Option V → Option V × Dict V
  insert_at d key v h (some old) =
      let idx = slot h d.size in
      (
        some old,
        record d { table = set d.table idx (chain_replace key h v (get_or d.table idx [])) },
      )
  insert_at d key v h none =
      let e : Entry V = record { key = key; val = v; hash = h } in
      (none, record d { table = push_head d.table (slot h d.size) e; used = d.used + 1 })

  unfoldable pub dict_set : Dict V → Bytes → V → Option V × Dict V
  unfolding insert_at
  dict_set d key v =
      let g = dict_grow d in
      let h = dict_hash key g.seed in
      insert_at g key v h (chain_get key h (get_or g.table (slot h g.size) []))

  delete_at : Dict V → Bytes → ℕ → Option V → Option V × Dict V
  delete_at d key h none = (none, d)
  delete_at d key h (some old) =
      let idx = slot h d.size in
      (
        some old,
        record d {
          table = set d.table idx (chain_remove key h (get_or d.table idx []));
          used = d.used - 1;
        },
      )

  unfoldable pub dict_delete : Dict V → Bytes → Option V × Dict V
  unfolding delete_at
  dict_delete d key =
      let h = dict_hash key d.seed in
      if d.size == 0
      then (none, d)
      else delete_at d key h (chain_get key h (get_or d.table (slot h d.size) []))

  -- A write through the value pointer that `dict_get` returned.
  unfoldable pub dict_assign : Dict V → Bytes → V → Dict V
  dict_assign d key v =
      let h = dict_hash key d.seed in
      let idx = slot h d.size in
      record d { table = set d.table idx (chain_replace key h v (get_or d.table idx [])) }

  -- The entries in the order of `dict_iter_next`: bucket by bucket, each chain from its head.
  unfoldable pub entries_of : List (List (Entry V)) → List (Entry V)
  entries_of [] = []
  entries_of (c ∷ cs) = c ++ entries_of cs

  unfoldable pub dict_size : Dict V → ℕ
  dict_size d = d.used

  -- `if (rand() % (i + 1) == 0) pick = e`, entry by entry; the draws of `rand` that are left.
  unfoldable pub pick_entry :
      ℕ → Option (Entry V) → (ℕ → ℕ) → List (Entry V) → Option (Entry V) × (ℕ → ℕ)
  pick_entry i pick rand [] = (pick, rand)
  pick_entry i pick rand (e ∷ es) =
      pick_entry (i + 1) (if rand 0 % (i + 1) == 0 then some e else pick) (λ n. rand (n + 1)) es

  unfoldable pub dict_random_entry : (ℕ → ℕ) → Dict V → Option (Entry V) × (ℕ → ℕ)
  dict_random_entry rand d =
      if d.used == 0 then (none, rand) else pick_entry 0 none rand (entries_of d.table)
