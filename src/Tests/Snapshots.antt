-- ===== src/Tests/Snapshots.antt =====
-- rdb.c on a store with one list.
use miniredis.Common.{
  ℕ, ◌^◌, ◌<◌, ◌≤◌, Bytes, true, none, some, [], ◌∷◌, ◌≡◌, refl, sym, ◌∙◌, arith, pos, bytes,
  bytes_eq, Bool-cases, inl, inr, get_or, eq_of_bytes_eq,
}
use miniredis.Dict.{Entry, Dict, dict_create, dict_set, dict_size, chain_get, dict_grow}
use miniredis.Dict.Laws.Valid.{IsValid, view, dict_create-IsValid}
use miniredis.Dict.Laws.Ops.{Writes, dict_set-Writes}
use miniredis.Object.{list, Robj}
use miniredis.Db.{Db}
use miniredis.Files.{Replacing, replace_file, write_full-free}
use miniredis.Rdb.{rdb_save, rdb_bytes}
use miniredis.Dict.Chain.{find, count}
use miniredis.Rdb.RoundTrip.Damaged.{snapshot_of, rdb_load-snapshot_of}
use miniredis.Rdb.Load.{rdb_load, r_key, r_bytes, r_u32, r_need, ◌>>=◌}
use miniredis.Rdb.RoundTrip.Values.{Storable}
use miniredis.Rdb.RoundTrip.Snapshot.{KeyStorable, Back, rdb_load-rdb_save}

abbrev queue : Bytes
queue = bytes "queue"

abbrev jobs : Robj
jobs = record { obj = list (bytes "one" ∷ bytes "two" ∷ []); expire_at = pos 5000 }

abbrev no_keys : Dict Robj
no_keys = dict_create []

abbrev new_store : Db
new_store = record { d = no_keys; expire_cursor = 0 }

abbrev one_queue : Db
one_queue = record { d = (dict_set no_keys queue jobs).1; expire_cursor = 0 }

no_keys-IsValid : IsValid no_keys × ((q : Bytes) → view no_keys q ≡ none)
no_keys-IsValid = dict_create-IsValid []

one_queue-Writes : Writes no_keys queue (some jobs) (dict_set no_keys queue jobs)
one_queue-Writes = dict_set-Writes no_keys queue jobs no_keys-IsValid.0

one_queue-size : dict_size one_queue.d < 2 ^ 32
unfolding dict_size dict_set chain_get get_or dict_grow dict_create
one_queue-size = omega (arith, one_queue-Writes.used)

jobs-KeyStorable : KeyStorable queue jobs
unfolding KeyStorable Storable bytes
jobs-KeyStorable =
    (omega arith, (omega arith, omega arith), (omega arith, (omega arith, (omega arith, tt))))

the_object : (a b : Robj) → some a ≡ some b → b ≡ a
the_object a b e = cc

no_object : (b : Robj) → none ≡ some b → ⊥
no_object b e = absurd cc

one_queue-KeyStorable : (q : Bytes) (o : Robj) → view one_queue.d q ≡ some o → KeyStorable q o
one_queue-KeyStorable q o held = elim (Bool-cases (bytes_eq queue q)) [
  | inl same ↦
      let now = one_queue-Writes.views q ∙ rw same refl in
      rw (sym (eq_of_bytes_eq queue q same), the_object jobs o (sym now ∙ held)) jobs-KeyStorable
  | inr other ↦
      let now = one_queue-Writes.views q ∙ rw other (no_keys-IsValid.1 q) in
      absurd (no_object o (sym now ∙ held))
]

abbrev calls : Replacing
calls = record { opens = true; writes = []; fsyncs = true; closes = true; renames = true }

saved : (rdb_save calls one_queue []).0 ≡ true
unfolding rdb_save replace_file
saved = rw (write_full-free (rdb_bytes one_queue) []).0 refl

rdb_load-rdb_save_example :
    (s : Db) × (rdb_load (λ i. ([], λ j. 0)) (rdb_save calls one_queue []).1 new_store ≡ some s)
    × IsValid s.d
    × ((q : Bytes) → Back (view one_queue.d q) none (view s.d q))
rdb_load-rdb_save_example =
    rdb_load-rdb_save (λ i. ([], λ j. 0)) calls [] one_queue new_store saved one_queue-Writes.valid
      one_queue-size one_queue-KeyStorable no_keys-IsValid.0 no_keys-IsValid.1

abbrev queue_entry : Entry Robj
queue_entry = record { key = queue; val = jobs; hash = 0 }

once : (q : Bytes) → count q (queue_entry ∷ []) ≤ 1
unfolding count
once q = ground arith

cut_off : (seed : Bytes) (rand : ℕ → ℕ) → r_key seed rand (0 ∷ []) ≡ none
unfolding r_key r_bytes r_u32 r_need ◌>>=◌
cut_off seed rand = refl

-- Two keys are announced, and the second is cut off.
rdb_load-snapshot_of_example :
    (s : Db) × (rdb_load (λ i. ([], λ j. 0)) (snapshot_of (queue_entry ∷ []) 1 (0 ∷ [])) new_store
      ≡ some s)
    × IsValid s.d
    × ((q : Bytes) → Back (find q (queue_entry ∷ [])) (view new_store.d q) (view s.d q))
rdb_load-snapshot_of_example =
    rdb_load-snapshot_of (λ i. ([], λ j. 0)) (queue_entry ∷ []) 1 (0 ∷ []) new_store
      no_keys-IsValid.0 (jobs-KeyStorable, tt) once (omega arith) (λ seed rand. cut_off seed rand)
