-- ===== src/Dict/Laws/Buckets.antt =====
-- dict.c: an entry met on a walk along the buckets is the entry of its key.
use miniredis.Common.{
  ℕ, ◌≤◌, ◌≡◌, ◌∙◌, refl, arith, Bytes, Option, none, some, List, [], ◌∷◌, ◌==◌, bytes_eq,
  bytes_eq_refl, Bool-cases, inl, inr, get_or, length,
}
use miniredis.Dict.{Entry, Dict, dict_delete, delete_at, dict_hash}
use miniredis.Dict.Chain.{find, count}
use miniredis.Dict.Laws.Table.{home}
use miniredis.Dict.Laws.Valid.{IsValid, view, bucket-view}

module _ {ℓ} {V : Type ℓ} where
  -- `P` holds of each entry.
  abbrev pub Each {ℓ'} : (Entry V → Type ℓ') → List (Entry V) → Type ℓ'
  Each P [] = Unit
  Each P (e ∷ es) = P e × Each P es

  pub Each-map {ℓ₁ ℓ₂} :
      {P : Entry V → Type ℓ₁} {Q : Entry V → Type ℓ₂} (es : List (Entry V))
      → ((e : Entry V) → P e → Q e)
      → Each P es
      → Each Q es
  Each-map [] f h = tt
  Each-map (e ∷ es) f h = (f e h.0, Each-map es f h.1)

  abbrev Met : List (Entry V) → Entry V → Type ℓ
  Met c e = (find e.key c ≡ some e.val) × (1 ≤ count e.key c)

  Met-behind :
      (e x : Entry V) (es : List (Entry V)) → count x.key (e ∷ es) ≤ 1 → Met es x → Met (e ∷ es) x
  unfolding find count
  Met-behind e x es once (f, n) = elim (Bool-cases (bytes_eq e.key x.key)) [
    | inl same ↦ absurd (ground arith)
    | inr other ↦ rw other (f, n)
  ]

  members : (c : List (Entry V)) → ((q : Bytes) → count q c ≤ 1) → Each (Met c) c
  members [] once = tt
  members (e ∷ es) once = (
    unfold find count in (rw (bytes_eq_refl e.key) refl, rw (bytes_eq_refl e.key) (omega arith)),
    Each-map es (λ x m. Met-behind e x es (once x.key) m)
        (members es (λ q. let h = once q in unfold count in ground arith)),
  )

  at_bucket :
      (d : Dict V) (v : IsValid d) (b : ℕ) (e : Entry V)
      → Met (get_or d.table b []) e
      → view d e.key ≡ some e.val
  at_bucket d v b e (f, n) = elim (Bool-cases (home d.seed e.key (length d.table) == b)) [
    | inl here ↦
        let p : home d.seed e.key (length d.table) ≡ b = ground arith in
        bucket-view d e.key ∙ rw p f
    | inr away ↦ let h = v.placed.at_home e.key b (ground arith) in absurd (omega arith)
  ]

  pub walk-view :
      (d : Dict V) (b : ℕ) → IsValid d → Each (λ e. view d e.key ≡ some e.val) (get_or d.table b [])
  walk-view d b v =
      Each-map (get_or d.table b []) (at_bucket d v b)
        (members (get_or d.table b []) (λ q. v.placed.once q b))

  size-delete_at :
      (d : Dict V) (k : Bytes) (h : ℕ) (o : Option V) → (delete_at d k h o).1.size ≡ d.size
  unfolding delete_at
  size-delete_at d k h none = refl
  size-delete_at d k h (some old) = refl

  pub size-dict_delete : (d : Dict V) (k : Bytes) → (dict_delete d k).1.size ≡ d.size
  unfolding dict_delete
  size-dict_delete d k = elim (Bool-cases (d.size == 0)) [
    | inl empty ↦ rw empty refl
    | inr filled ↦ rw filled (size-delete_at d k (dict_hash k d.seed) _)
  ]
