-- ===== src/Dict/Laws/Ops.antt =====
-- The operations of a dictionary keep its invariant and act on the map that it stands for.
use miniredis.Common.{
  ℕ, suc, ◌+◌, ◌-◌, ◌*◌, ◌≤◌, ◌<◌, ◌≡◌, refl, sym, ap, ◌∙◌, arith, Bytes, Option, none, some, List,
  [], ◌==◌, if◌then◌else◌, length, bytes_eq, eq_of_bytes_eq, Bool-cases, inl, inr,
}
use miniredis.Dict.{
  Entry, dict_hash, slot, push_head, Dict, dict_grow, dict_set, dict_delete, dict_assign, insert_at,
  delete_at, chain_replace, chain_remove,
}
use miniredis.Dict.Chain.{
  find, chain_replace-Hashed, chain_remove-Hashed, find-chain_replace, count-chain_replace,
  length-chain_replace, find-chain_remove, count-chain_remove-le, length-chain_remove,
}
use miniredis.Dict.Laws.Table.{home, total, bucket_of, Stands, write-Stands, total-set, slot-lt}
use miniredis.Dict.Laws.Resize.{push-Stands}
use miniredis.Dict.Laws.Valid.{IsValid, view, bucket-view, view-empty, chain-view, dict_grow-Grown}

module _ {ℓ} {V : Type ℓ} where
  abbrev pub held : Option V → ℕ
  held none = 0
  held (some _) = 1

  -- What a call that writes `v` at `k` does to `d`: it returns the value that was there, the map
  -- changes at `k` alone, the number of entries follows, and the invariant is kept.
  pub record Writes (d : Dict V) (k : Bytes) (v : Option V) (r : Option V × Dict V) : Type ℓ where
    pub valid : IsValid r.1
    pub seed : r.1.seed ≡ d.seed
    pub returns : r.0 ≡ view d k
    pub views : (q : Bytes) → view r.1 q ≡ (if bytes_eq k q then v else view d q)
    pub used : r.1.used + held (view d k) ≡ d.used + held v

  -- A new bucket array that stands for the changed map.
  Writes-of_Stands :
      (d : Dict V) (k : Bytes) (v o : Option V) (t : List (List (Entry V))) (m n : ℕ)
      → IsValid d
      → m ≡ d.size
      → Stands d.seed m n (λ q. if bytes_eq k q then v else view d q) t
      → o ≡ view d k
      → n + held (view d k) ≡ d.used + held v
      → n * 4 ≤ d.size * 3 + 3
      → Writes d k v (o, record d { table = t; used = n })
  unfolding view
  Writes-of_Stands d k v o t m n valid width s same number fits = record {
    valid = record {
      sized = s.width ∙ width;
      counted = s.entries;
      placed = s.placed;
      roomy = valid.roomy;
      sparse = fits;
    };
    seed = refl;
    returns = same;
    views = s.reads;
    used = number;
  }

  slot-home :
      (d : Dict V) (k : Bytes)
      → IsValid d
      → slot (dict_hash k d.seed) d.size ≡ home d.seed k (length d.table)
  unfolding home
  slot-home d k v = ap (slot (dict_hash k d.seed)) (sym v.sized)

  some_buckets-of_view :
      (d : Dict V) (k : Bytes) (x : V) → IsValid d → view d k ≡ some x → 0 < d.size
  some_buckets-of_view d k x v e = elim (Bool-cases (d.size == 0)) [
    | inl empty ↦ let gone = view-empty d k v (ground arith) in cc
    | inr filled ↦ ground arith
  ]

  -- A write through the value pointer of a key that a well-formed dictionary holds changes the map
  -- at that key alone and keeps the number of entries, the seed and the well-formedness.
  pub dict_assign-Writes :
      (d : Dict V) (k : Bytes) (x old : V)
      → IsValid d
      → view d k ≡ some old
      → Writes d k (some x) (some old, dict_assign d k x)
  unfolding dict_assign
  dict_assign-Writes d k x old v e =
      let c = bucket_of d.seed d.table k in
      let hashed = v.placed.hashed (home d.seed k (length d.table)) in
      let found : find k c ≡ some old = sym (bucket-view d k) ∙ e in
      let c' = chain_replace k (dict_hash k d.seed) x c in
      rw (slot-home d k v) (
        Writes-of_Stands d k (some x) (some old) _ (length d.table) d.used v v.sized
          (unfold view in
            write-Stands d.seed d.table k (some x) c' d.used
              (omega (arith, v.sized, some_buckets-of_view d k old v e)) v.placed
              (chain_replace-Hashed d.seed k x c hashed)
              (omega (arith, v.counted, length-chain_replace d.seed k x c))
              (λ q.
                rw (count-chain_replace d.seed k q x c)
                  (ground (arith, v.placed.once q (home d.seed k (length d.table)))))
              (λ q. find-chain_replace d.seed k q x old c hashed found))
          (sym e) (rw e refl) v.sparse)

  insert_at-Writes :
      (g : Dict V) (k : Bytes) (x : V) (o : Option V)
      → IsValid g
      → 0 < g.size
      → g.used * 4 < g.size * 3
      → o ≡ view g k
      → Writes g k (some x) (insert_at g k x (dict_hash k g.seed) o)
  unfolding insert_at
  insert_at-Writes g k x (some old) v some' room e =
      unfold dict_assign in dict_assign-Writes g k x old v (sym e)
  insert_at-Writes g k x none v some' room e =
      let entry : Entry V = record { key = k; val = x; hash = dict_hash k g.seed } in
      let pushed : Stands g.seed (length g.table) (suc (total g.table))
          (λ q. if bytes_eq k q then some x else view g q)
          (push_head g.table (slot (dict_hash k g.seed) (length g.table)) entry) =
        unfold view in
        push-Stands g.seed g.table entry (omega (arith, v.sized)) v.placed refl (sym e) in
      let number : suc (total g.table) ≡ g.used + 1 = omega (arith, v.counted) in
      Writes-of_Stands g k (some x) none _ g.size (g.used + 1) v refl
        (rw (number, v.sized) at pushed) e (rw (← e) (omega arith)) (omega arith)

  -- `dict_set` on a well-formed dictionary returns the value that the key had, binds the key to the
  -- new value and no other key to another, counts one entry more exactly if the key was absent,
  -- keeps the seed, and leaves a well-formed dictionary.
  pub dict_set-Writes :
      (d : Dict V) (k : Bytes) (x : V) → IsValid d → Writes d k (some x) (dict_set d k x)
  unfolding dict_set
  dict_set-Writes d k x v =
      let g = dict_grow-Grown d v in
      let g' = dict_grow d in
      let w = insert_at-Writes g' k x _ g.valid g.some_buckets g.room (chain-view g' k g.valid) in
      record {
        valid = w.valid;
        seed = w.seed ∙ g.seed;
        returns = w.returns ∙ g.views k;
        views = λ q. ground (arith, w.views q, g.views q);
        used = omega (arith, w.used, ap held (g.views k), g.used);
      }

  -- Nothing is removed where nothing is held.
  absent : (d : Dict V) (k : Bytes) → IsValid d → view d k ≡ none → Writes d k none (none, d)
  absent d k v e = record {
    valid = v;
    seed = refl;
    returns = sym e;
    views = λ q. elim (Bool-cases (bytes_eq k q)) [
      | inl same ↦ rw same (ap (view d) (sym (eq_of_bytes_eq k q same)) ∙ e)
      | inr other ↦ rw other refl
    ];
    used = rw e refl;
  }

  delete_at-Writes :
      (d : Dict V) (k : Bytes) (o : Option V)
      → IsValid d
      → 0 < d.size
      → o ≡ view d k
      → Writes d k none (delete_at d k (dict_hash k d.seed) o)
  unfolding delete_at
  delete_at-Writes d k none v some' e = absent d k v (sym e)
  delete_at-Writes d k (some old) v some' e =
      let at = home d.seed k (length d.table) in
      let c = bucket_of d.seed d.table k in
      let hashed = v.placed.hashed at in
      let found : find k c ≡ some old = sym (e ∙ bucket-view d k) in
      let c' = chain_remove k (dict_hash k d.seed) c in
      let shorter = length-chain_remove d.seed k old c hashed found in
      let here : at < length d.table = unfold home in slot-lt _ _ (omega (arith, v.sized)) in
      let filled : 0 < d.used = omega (arith, v.counted, total-set d.table at [] here) in
      rw (slot-home d k v) (
        Writes-of_Stands d k none (some old) _ (length d.table) (d.used - 1) v v.sized
          (unfold view in
            write-Stands d.seed d.table k none c' (d.used - 1) (omega (arith, v.sized)) v.placed
              (chain_remove-Hashed d.seed k c hashed) (omega (arith, v.counted))
              (λ q. ground (arith, v.placed.once q at, count-chain_remove-le d.seed k q c))
              (λ q. find-chain_remove d.seed k q c hashed (v.placed.once q at)))
          e (rw (← e) (omega arith)) (omega (arith, v.sparse)))

  -- `dict_delete` on a well-formed dictionary returns the value that the key had, unbinds the key
  -- and no other, counts one entry less exactly if the key was present, keeps the seed, and leaves
  -- a well-formed dictionary.
  pub dict_delete-Writes : (d : Dict V) (k : Bytes) → IsValid d → Writes d k none (dict_delete d k)
  unfolding dict_delete
  dict_delete-Writes d k v = elim (Bool-cases (d.size == 0)) [
    | inl empty ↦ rw empty (absent d k v (view-empty d k v (ground arith)))
    | inr filled ↦ rw filled (delete_at-Writes d k _ v (ground arith) (chain-view d k v))
  ]
