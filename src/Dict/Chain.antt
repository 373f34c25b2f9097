-- ===== src/Dict/Chain.antt =====
-- One chain whose entries carry the hash of their key: the loops along it see the key alone.
use miniredis.Common.{
  ℕ, suc, ◌≤◌, ◌≡◌, refl, ap, ◌∙◌, arith, Bytes, Option, none, some, List, [], ◌∷◌, if◌then◌else◌,
  length, bytes_eq, bytes_eq_iff, eq_of_bytes_eq, Bool-cases, inl, inr,
}
use miniredis.Dict.{Entry, dict_hash, key_equal, chain_get, chain_replace, chain_remove}

module _ {ℓ} {V : Type ℓ} where
  abbrev pub Hashed : Bytes → List (Entry V) → Type 0
  Hashed seed [] = Unit
  Hashed seed (e ∷ es) = (e.hash ≡ dict_hash e.key seed) × Hashed seed es

  unfoldable pub find : Bytes → List (Entry V) → Option V
  find k [] = none
  find k (e ∷ es) = if bytes_eq e.key k then some e.val else find k es

  unfoldable pub count : Bytes → List (Entry V) → ℕ
  count k [] = 0
  count k (e ∷ es) = if bytes_eq e.key k then suc (count k es) else count k es

  pub key_equal_hashed :
      (seed k : Bytes) (e : Entry V)
      → e.hash ≡ dict_hash e.key seed
      → key_equal e k (dict_hash k seed) ≡ bytes_eq e.key k
  unfolding key_equal
  key_equal_hashed seed k e h = elim (Bool-cases (bytes_eq e.key k)) [
    | inl same ↦
        let p : e.hash ≡ dict_hash k seed =
          h ∙ ap (λ t. dict_hash t seed) (eq_of_bytes_eq e.key k same) in
        rw (same, p) (ground arith)
    | inr other ↦ rw other (ground arith)
  ]

  pub find-eq-none : (q : Bytes) (c : List (Entry V)) → count q c ≡ 0 → find q c ≡ none
  unfolding count find
  find-eq-none q [] h = refl
  find-eq-none q (e ∷ es) h = ground (arith, find-eq-none q es)

  module _ (seed k : Bytes) where
    pub chain_get-find :
        (c : List (Entry V)) → Hashed seed c → chain_get k (dict_hash k seed) c ≡ find k c
    unfolding chain_get find
    chain_get-find [] h = refl
    chain_get-find (e ∷ es) h = rw (key_equal_hashed seed k e h.0, chain_get-find es h.1) refl

    pub chain_replace-Hashed :
        (v : V) (c : List (Entry V))
        → Hashed seed c
        → Hashed seed (chain_replace k (dict_hash k seed) v c)
    unfolding chain_replace
    chain_replace-Hashed v [] h = tt
    chain_replace-Hashed v (e ∷ es) h = elim (Bool-cases (key_equal e k (dict_hash k seed))) [
      | inl same ↦ rw same h
      | inr other ↦ rw other (h.0, chain_replace-Hashed v es h.1)
    ]

    pub chain_remove-Hashed :
        (c : List (Entry V)) → Hashed seed c → Hashed seed (chain_remove k (dict_hash k seed) c)
    unfolding chain_remove
    chain_remove-Hashed [] h = tt
    chain_remove-Hashed (e ∷ es) h = elim (Bool-cases (key_equal e k (dict_hash k seed))) [
      | inl same ↦ rw same h.1
      | inr other ↦ rw other (h.0, chain_remove-Hashed es h.1)
    ]

    pub find-chain_replace :
        (q : Bytes) (v old : V) (c : List (Entry V))
        → Hashed seed c
        → find k c ≡ some old
        → find q (chain_replace k (dict_hash k seed) v c)
          ≡ (if bytes_eq k q then some v else find q c)
    unfolding chain_replace find
    find-chain_replace q v old [] h f = cc
    find-chain_replace q v old (e ∷ es) h f = rw (key_equal_hashed seed k e h.0) (
        ground (
          arith,
          find-chain_replace q v old es h.1,
          bytes_eq_iff e.key k,
          bytes_eq_iff e.key q,
          bytes_eq_iff k q,
        ))

    pub count-chain_replace :
        (q : Bytes) (v : V) (c : List (Entry V))
        → count q (chain_replace k (dict_hash k seed) v c) ≡ count q c
    unfolding chain_replace count
    count-chain_replace q v [] = refl
    count-chain_replace q v (e ∷ es) = ground (arith, count-chain_replace q v es)

    pub length-chain_replace :
        (v : V) (c : List (Entry V)) → length (chain_replace k (dict_hash k seed) v c) ≡ length c
    unfolding chain_replace
    length-chain_replace v [] = refl
    length-chain_replace v (e ∷ es) = ground (arith, length-chain_replace v es)

    pub find-chain_remove :
        (q : Bytes) (c : List (Entry V))
        → Hashed seed c
        → count q c ≤ 1
        → find q (chain_remove k (dict_hash k seed) c) ≡ (if bytes_eq k q then none else find q c)
    unfolding chain_remove find count
    find-chain_remove q [] h once = ground arith
    find-chain_remove q (e ∷ es) h once = rw (key_equal_hashed seed k e h.0) (
        ground (
          arith,
          find-chain_remove q es h.1,
          find-eq-none q es,
          bytes_eq_iff e.key k,
          bytes_eq_iff e.key q,
          bytes_eq_iff k q,
        ))

    pub count-chain_remove-le :
        (q : Bytes) (c : List (Entry V)) → count q (chain_remove k (dict_hash k seed) c) ≤ count q c
    unfolding chain_remove count
    count-chain_remove-le q [] = omega arith
    count-chain_remove-le q (e ∷ es) = ground (arith, count-chain_remove-le q es)

    pub length-chain_remove :
        (old : V) (c : List (Entry V))
        → Hashed seed c
        → find k c ≡ some old
        → suc (length (chain_remove k (dict_hash k seed) c)) ≡ length c
    unfolding chain_remove find
    length-chain_remove old [] h f = cc
    length-chain_remove old (e ∷ es) h f =
        rw (key_equal_hashed seed k e h.0) (ground (arith, length-chain_remove old es h.1))

  pub count-eq-zero : (k : Bytes) (c : List (Entry V)) → find k c ≡ none → count k c ≡ 0
  unfolding count find
  count-eq-zero k [] h = refl
  count-eq-zero k (e ∷ es) h = ground (arith, count-eq-zero k es)
