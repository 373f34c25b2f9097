-- ===== src/Dict/Laws/Valid.antt =====
-- dict.c: the invariant of a dictionary, the map that it stands for, growing and reading.
use miniredis.Common.{
  ℕ, ◌+◌, ◌*◌, ◌≤◌, ◌<◌, ◌≡◌, ◌≢◌, refl, sym, ◌∙◌, arith, Bytes, Option, none, List, [], ◌∷◌, ◌==◌,
  leb, length, Bool-cases, inl, inr, get_or,
}
use miniredis.Dict.{
  Entry, dict_hash, slot, Dict, dict_create, dict_resize, dict_grow, dict_get, chain_get,
  initial_size,
}
use miniredis.Dict.Chain.{find, count, chain_get-find}
use miniredis.Dict.Laws.Table.{home, total, WellPlaced, bucket_of, view_table}
use miniredis.Dict.Laws.Resize.{dict_resize-Stands}

-- `sparse` is the load factor of three quarters, with the one entry that a full table may take.
pub record IsValid {ℓ} {V : Type ℓ} (d : Dict V) : Type ℓ where
  pub sized : length d.table ≡ d.size
  pub counted : total d.table ≡ d.used
  pub placed : WellPlaced d.seed d.table
  pub roomy : d.size ≢ 0 → initial_size ≤ d.size
  pub sparse : d.used * 4 ≤ d.size * 3 + 3

module _ {ℓ} {V : Type ℓ} where
  -- The map from keys to values that a dictionary stands for.
  unfoldable pub view : Dict V → Bytes → Option V
  view d k = view_table d.seed d.table k

  pub dict_create-IsValid :
      (seed : Bytes)
      → IsValid (dict_create {V = V} seed)
        × ((k : Bytes) → view (dict_create {V = V} seed) k ≡ none)
  unfolding dict_create total view view_table get_or find count
  dict_create-IsValid seed = (
    record {
      sized = refl;
      counted = refl;
      placed = record { hashed = λ i. tt; once = λ q i. omega arith; at_home = λ q i _. refl };
      roomy = λ h. absurd (h refl);
      sparse = omega arith;
    },
    λ k. refl,
  )

  -- A dictionary ready for one more entry.
  pub record Grown (d g : Dict V) : Type ℓ where
    pub some_buckets : 0 < g.size
    pub seed : g.seed ≡ d.seed
    pub used : g.used ≡ d.used
    pub valid : IsValid g
    pub room : g.used * 4 < g.size * 3
    pub views : (k : Bytes) → view g k ≡ view d k

  resize-Grown :
      (d : Dict V) (n : ℕ)
      → IsValid d
      → initial_size ≤ n
      → d.used * 4 < n * 3
      → Grown d (dict_resize d n)
  unfolding dict_resize view
  resize-Grown d n v big room =
      let t = dict_resize-Stands d n (omega arith) v.placed in
      record {
        some_buckets = omega arith;
        seed = refl;
        used = refl;
        valid = record {
          sized = t.width;
          counted = t.entries ∙ v.counted;
          placed = t.placed;
          roomy = λ _. big;
          sparse = omega arith;
        };
        room = room;
        views = t.reads;
      }

  pub dict_grow-Grown : (d : Dict V) → IsValid d → Grown d (dict_grow d)
  unfolding dict_grow
  dict_grow-Grown d v = elim (Bool-cases (d.size == 0)) [
    | inl empty ↦ rw empty (resize-Grown d initial_size v (omega arith) (ground arith))
    | inr filled ↦
        let size : d.size ≢ 0 = ground arith in
        let big = v.roomy size in
        elim (Bool-cases (leb (d.size * 3) (d.used * 4))) [
          | inl full ↦ rw (filled, full) (resize-Grown d (d.size * 2) v (omega arith) (omega arith))
          | inr loose ↦
              rw (filled, loose)
                (record {
                  some_buckets = omega arith;
                  seed = refl;
                  used = refl;
                  valid = v;
                  room = ground arith;
                  views = λ k. refl;
                })
        ]
  ]

  pub chain-view :
      (d : Dict V) (k : Bytes)
      → IsValid d
      → chain_get k (dict_hash k d.seed) (get_or d.table (slot (dict_hash k d.seed) d.size) [])
        ≡ view d k
  unfolding view view_table home
  chain-view d k v =
      rw (← v.sized) (chain_get-find d.seed k (bucket_of d.seed d.table k) (v.placed.hashed _))

  view_table-nil :
      (seed : Bytes) (t : List (List (Entry V))) (q : Bytes)
      → length t ≡ 0
      → view_table seed t q ≡ none
  unfolding view_table get_or find
  view_table-nil seed [] q h = refl
  view_table-nil seed (c ∷ t) q h = absurd (omega arith)

  pub view-empty : (d : Dict V) (k : Bytes) → IsValid d → d.size ≡ 0 → view d k ≡ none
  unfolding view
  view-empty d k v h = view_table-nil d.seed d.table k (v.sized ∙ h)

  -- `dict_get` on a well-formed dictionary returns what the map that the dictionary stands for has
  -- at the key.
  pub dict_get-view : (d : Dict V) (k : Bytes) → IsValid d → dict_get d k ≡ view d k
  unfolding dict_get
  dict_get-view d k v = elim (Bool-cases (d.size == 0)) [
    | inl empty ↦ rw empty (sym (view-empty d k v (ground arith)))
    | inr filled ↦ rw filled (chain-view d k v)
  ]

  pub bucket-view :
      (d : Dict V) (k : Bytes)
      → view d k ≡ find k (get_or d.table (home d.seed k (length d.table)) [])
  unfolding view view_table
  bucket-view d k = refl

  pub view-table : (d : Dict V) (k : Bytes) → view d k ≡ view_table d.seed d.table k
  unfolding view
  view-table d k = refl
