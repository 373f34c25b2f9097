-- ===== src/Dict/Laws/Resize.antt =====
-- `dict_resize` moves every entry to its new bucket and keeps the map.
use miniredis.Common.{
  ℕ, zero, suc, ◌+◌, ◌≤◌, ◌<◌, ◌≡◌, ◌≢◌, refl, sym, ap, ◌∙◌, arith, Bytes, Option, none, some, List,
  [], ◌∷◌, ◌++◌, if◌then◌else◌, length, bytes_eq, bytes_eq_refl, eq_of_bytes_eq, Bool-cases, inl,
  inr, get_or, replicate, length-append,
}
use miniredis.Dict.{
  Entry, dict_hash, slot, entries_of, move_chain, move_all, push_head, Dict, dict_resize,
}
use miniredis.Dict.Chain.{Hashed, find, count, find-eq-none, count-eq-zero}
use miniredis.Dict.Laws.Table.{
  home, total, WellPlaced, bucket_of, view_table, Stands, empty-Stands, write-Stands,
}

module _ {ℓ} {V : Type ℓ} where
  or_else : Option V → Option V → Option V
  or_else none b = b
  or_else (some a) b = some a

  -- The first of two joined chains that holds the key answers.
  find-append :
      (key : Bytes) (front back : List (Entry V))
      → find key (front ++ back) ≡ or_else (find key front) (find key back)
  unfolding find or_else
  find-append key [] back = refl
  find-append key (x ∷ front) back = elim (Bool-cases (bytes_eq x.key key)) [
    | inl here ↦ rw here refl
    | inr further ↦ rw further (find-append key front back)
  ]

  count-append : (q : Bytes) (a b : List (Entry V)) → count q (a ++ b) ≡ count q a + count q b
  unfolding count
  count-append q [] b = omega arith
  count-append q (e ∷ a) b = ground (arith, count-append q a b)

  count-nowhere :
      (q : Bytes) (t : List (List (Entry V)))
      → ((i : ℕ) → count q (get_or t i []) ≡ 0)
      → count q (entries_of t) ≡ 0
  unfolding entries_of get_or count
  count-nowhere q [] h = refl
  count-nowhere q (c ∷ t) h =
      let here : count q c ≡ 0 = h 0 in
      omega (arith, count-append q c (entries_of t), here, count-nowhere q t (λ i. h (suc i)))

  only_at :
      (q : Bytes) (t : List (List (Entry V))) (j : ℕ)
      → ((i : ℕ) → i ≢ j → count q (get_or t i []) ≡ 0)
      → (find q (entries_of t) ≡ find q (get_or t j []))
        × (count q (entries_of t) ≡ count q (get_or t j []))
  unfolding entries_of get_or or_else
  only_at q [] j h = (refl, refl)
  only_at q (c ∷ t) zero h =
      let rest = count-nowhere q t (λ i. h (suc i) (omega arith)) in
      let gone = find-eq-none q (entries_of t) rest in
      (
        find-append q c (entries_of t) ∙ rw gone (ground arith),
        omega (arith, count-append q c (entries_of t)),
      )
  only_at q (c ∷ t) (suc j) h =
      let here : count q c ≡ 0 = h 0 (omega arith) in
      let ih = only_at q t j (λ i n. h (suc i) (omega arith)) in
      (
        find-append q c (entries_of t) ∙ rw (find-eq-none q c here) ih.0,
        omega (arith, count-append q c (entries_of t), ih.1),
      )

  -- The iteration over a bucket array whose entries are in place meets a key with the value that
  -- the map has for it, and meets it at most once.
  pub entries_of-view :
      (seed : Bytes) (t : List (List (Entry V))) (q : Bytes)
      → WellPlaced seed t
      → (find q (entries_of t) ≡ view_table seed t q) × (count q (entries_of t) ≤ 1)
  unfolding view_table
  entries_of-view seed t q p =
      let at = home seed q (length t) in
      let both = only_at q t at (λ i n. p.at_home q i (λ e. n (sym e))) in
      (both.0, omega (arith, both.1, p.once q at))

  pub length-entries_of : (t : List (List (Entry V))) → length (entries_of t) ≡ total t
  unfolding entries_of total
  length-entries_of [] = refl
  length-entries_of (c ∷ t) = omega (arith, length-append c (entries_of t), length-entries_of t)

  Hashed-append :
      (seed : Bytes) (a b : List (Entry V)) → Hashed seed a → Hashed seed b → Hashed seed (a ++ b)
  Hashed-append seed [] b h k = k
  Hashed-append seed (e ∷ a) b h k = (h.0, Hashed-append seed a b h.1 k)

  entries_of-Hashed :
      (seed : Bytes) (t : List (List (Entry V)))
      → ((i : ℕ) → Hashed seed (get_or t i []))
      → Hashed seed (entries_of t)
  unfolding entries_of get_or
  entries_of-Hashed seed [] h = tt
  entries_of-Hashed seed (c ∷ t) h =
      Hashed-append seed c (entries_of t) (h 0) (entries_of-Hashed seed t (λ i. h (suc i)))

  -- The two nested loops are one loop over all entries.
  move_chain-append :
      (n : ℕ) (a b : List (Entry V)) (t : List (List (Entry V)))
      → move_chain n (a ++ b) t ≡ move_chain n b (move_chain n a t)
  unfolding move_chain
  move_chain-append n [] b t = refl
  move_chain-append n (e ∷ a) b t = move_chain-append n a b (push_head t (slot e.hash n) e)

  move_all-entries :
      (n : ℕ) (old t : List (List (Entry V))) → move_all n old t ≡ move_chain n (entries_of old) t
  unfolding move_all entries_of
  move_all-entries n [] t = unfold move_chain in refl
  move_all-entries n (c ∷ old) t =
      rw (move_chain-append n c (entries_of old) t) (move_all-entries n old (move_chain n c t))

  -- An entry whose key is absent is pushed at the head of its bucket.
  pub push-Stands :
      (seed : Bytes) (t : List (List (Entry V))) (e : Entry V)
      → 0 < length t
      → WellPlaced seed t
      → e.hash ≡ dict_hash e.key seed
      → view_table seed t e.key ≡ none
      → Stands seed
          (length t)
          (suc (total t))
          (λ q. if bytes_eq e.key q then some e.val else view_table seed t q)
          (push_head t (slot e.hash (length t)) e)
  unfolding push_head view_table home find count
  push-Stands seed t e some' p h absent =
      let bucket = bucket_of seed t e.key in
      let s : slot e.hash (length t) ≡ home seed e.key (length t) = ap (λ x. slot x (length t)) h in
      rw s (
        write-Stands seed t e.key (some e.val) (e ∷ bucket) (suc (total t)) some' p
          (h, p.hashed (home seed e.key (length t))) (omega arith)
          (λ q. elim (Bool-cases (bytes_eq e.key q)) [
            | inl same ↦
                let gone : count q bucket ≡ 0 =
                  ap (λ x. count x bucket) (sym (eq_of_bytes_eq e.key q same))
                  ∙ count-eq-zero e.key bucket absent in
                rw same (omega arith)
            | inr other ↦ rw other (omega arith)
          ])
          (λ q. refl))

  -- The loop of the resize: every entry comes to stand in the new array.
  move_chain-Stands :
      (seed : Bytes) (es : List (Entry V)) (t : List (List (Entry V)))
      → 0 < length t
      → WellPlaced seed t
      → Hashed seed es
      → ((q : Bytes) → count q es ≤ 1)
      → ((q : Bytes) → 0 < count q es → view_table seed t q ≡ none)
      → Stands seed
          (length t)
          (total t + length es)
          (λ q. or_else (view_table seed t q) (find q es))
          (move_chain (length t) es t)
  unfolding move_chain count find or_else
  move_chain-Stands seed [] t some' p h once apart = record {
    width = refl;
    entries = omega arith;
    placed = p;
    reads = λ q. ground arith;
  }
  move_chain-Stands seed (e ∷ es) t some' p h once apart =
      let step =
        push-Stands seed t e some' p h.0 (apart e.key (rw (bytes_eq_refl e.key) (omega arith))) in
      let t' = push_head t (slot e.hash (length t)) e in
      let rest =
        move_chain-Stands seed es t' (omega (arith, step.width)) step.placed h.1
          (λ q. ground (arith, once q)) (λ q pos. ground (arith, step.reads q, once q, apart q)) in
      let w : length t' ≡ length t = step.width in
      let rest' = rw w at rest in
      record {
        width = rest'.width;
        entries = omega (arith, rest'.entries, step.entries);
        placed = rest'.placed;
        reads = λ q. ground (arith, rest'.reads q, step.reads q, apart q, once q);
      }

  -- `dict_resize` to any positive number of buckets keeps the map, the number of entries, and that
  -- every entry stands in the bucket of its key with its hash and no key stands twice.
  pub dict_resize-Stands :
      (d : Dict V) (n : ℕ)
      → 0 < n
      → WellPlaced d.seed d.table
      → Stands d.seed n (total d.table) (view_table d.seed d.table) (dict_resize d n).table
  unfolding dict_resize or_else
  dict_resize-Stands d n some' p =
      let start = empty-Stands {V = V} d.seed n in
      let w = start.width in
      let es = entries_of d.table in
      let moved =
        move_chain-Stands d.seed es (replicate n []) (omega arith) start.placed
          (entries_of-Hashed d.seed d.table p.hashed) (λ q. (entries_of-view d.seed d.table q p).1)
          (λ q _. start.reads q) in
      let moved' = rw w at moved in
      rw (move_all-entries n d.table (replicate n [])) (record {
        width = moved'.width;
        entries = omega (arith, moved'.entries, start.entries, length-entries_of d.table);
        placed = moved'.placed;
        reads = λ q.
            ground (arith, moved'.reads q, start.reads q, (entries_of-view d.seed d.table q p).0);
      })
