-- ===== src/Dict/Laws/Table.antt =====
-- Where the entries of a bucket array stand, what it means, and a write to one bucket.
use Prim.Native.Nat.{digits, bit_and-bitwise}
use miniredis.Common.{
  ℕ, zero, suc, ◌+◌, ◌-◌, ◌≤◌, ◌<◌, ◌/◌, ◌≡◌, ◌≢◌, refl, arith, Bytes, true, Option, none, List, [],
  ◌∷◌, ◌==◌, min, if◌then◌else◌, length, bytes_eq, eq_of_bytes_eq, Bool-cases, inl, inr, get_or,
  set, length-set, replicate, length-replicate, get_or-replicate,
}
use miniredis.Dict.{Entry, dict_hash, slot}
use miniredis.Dict.Chain.{Hashed, find, count}

digits-le : (n a b : ℕ) → digits (λ b. zero) min n a b ≤ b
digits-le zero a b = omega arith
digits-le (suc n) zero b = omega arith
digits-le (suc n) (suc a) b = omega (arith, digits-le n (suc a / 2) (b / 2))

pub slot-lt : (h n : ℕ) → 0 < n → slot h n < n
unfolding slot
slot-lt h n p = omega (arith, bit_and-bitwise h (n - 1), digits-le h h (n - 1))

unfoldable pub home : Bytes → Bytes → ℕ → ℕ
home seed k n = slot (dict_hash k seed) n

pub home_congr : (seed k q : Bytes) (n : ℕ) → bytes_eq k q ≡ true → home seed k n ≡ home seed q n
home_congr seed k q n e = rw (eq_of_bytes_eq k q e)

module _ {ℓ} {A : Type ℓ} where
  pub get_or-set :
      (xs : List A) (i j : ℕ) (v d : A)
      → i < length xs
      → get_or (set xs i v) j d ≡ (if i == j then v else get_or xs j d)
  unfolding get_or set
  get_or-set [] i j v d h = absurd (omega arith)
  get_or-set (x ∷ xs) (suc i) (suc j) v d h = ground (arith, get_or-set xs i j v d)
  get_or-set (x ∷ xs) zero zero v d h = refl
  get_or-set (x ∷ xs) zero (suc j) v d h = ground arith
  get_or-set (x ∷ xs) (suc i) zero v d h = ground arith

  unfoldable pub total : List (List A) → ℕ
  total [] = 0
  total (c ∷ cs) = length c + total cs

  pub total-set :
      (t : List (List A)) (i : ℕ) (c : List A)
      → i < length t
      → total (set t i c) + length (get_or t i []) ≡ total t + length c
  unfolding total set get_or
  total-set [] i c h = absurd (omega arith)
  total-set (x ∷ t) zero c h = omega arith
  total-set (x ∷ t) (suc i) c h = omega (arith, total-set t i c (omega arith))

total-replicate {ℓ} : (A : Type ℓ) (n : ℕ) → total (replicate {A = List A} n []) ≡ 0
unfolding total replicate
total-replicate A zero = refl
total-replicate A (suc n) = omega (arith, total-replicate A n)

module _ {ℓ} {V : Type ℓ} where
  -- Every entry carries the hash of its key and stands in its key's bucket; no key stands twice.
  pub record WellPlaced (seed : Bytes) (t : List (List (Entry V))) : Type ℓ where
    pub hashed : (i : ℕ) → Hashed seed (get_or t i [])
    pub once : (q : Bytes) (i : ℕ) → count q (get_or t i []) ≤ 1
    pub at_home : (q : Bytes) (i : ℕ) → home seed q (length t) ≢ i → count q (get_or t i []) ≡ 0

  abbrev pub bucket_of : Bytes → List (List (Entry V)) → Bytes → List (Entry V)
  bucket_of seed t k = get_or t (home seed k (length t)) []

  -- The map that a bucket array stands for.
  unfoldable pub view_table : Bytes → List (List (Entry V)) → Bytes → Option V
  view_table seed t k = find k (bucket_of seed t k)

  -- `t` has `n` buckets and `size` entries, all in place, and stands for `f`.
  pub record Stands (seed : Bytes) (n size : ℕ) (f : Bytes → Option V) (t : List (List (Entry V)))
      : Type ℓ where
    pub width : length t ≡ n
    pub entries : total t ≡ size
    pub placed : WellPlaced seed t
    pub reads : (q : Bytes) → view_table seed t q ≡ f q

  pub empty-Stands : (seed : Bytes) (n : ℕ) → Stands seed n 0 (λ _. none) (replicate n [])
  unfolding view_table find count
  empty-Stands seed n = record {
    width = length-replicate n [];
    entries = total-replicate (Entry V) n;
    placed = record {
      hashed = λ i. rw get_or-replicate tt;
      once = λ q i. rw get_or-replicate (omega arith);
      at_home = λ q i _. rw get_or-replicate refl;
    };
    reads = λ q. rw get_or-replicate refl;
  }

  -- The home chain of `k` is replaced by `c`.
  pub write-Stands :
      (seed : Bytes) (t : List (List (Entry V))) (k : Bytes) (v : Option V) (c : List (Entry V))
      (size : ℕ)
      → 0 < length t
      → WellPlaced seed t
      → Hashed seed c
      → size + length (bucket_of seed t k) ≡ total t + length c
      → ((q : Bytes) → count q c ≤ (if bytes_eq k q then 1 else count q (bucket_of seed t k)))
      → ((q : Bytes) → find q c ≡ (if bytes_eq k q then v else find q (bucket_of seed t k)))
      → Stands seed
          (length t)
          size
          (λ q. if bytes_eq k q then v else view_table seed t q)
          (set t (home seed k (length t)) c)
  unfolding view_table
  write-Stands seed t k v c size some' p hashed sum few reads =
      let here : home seed k (length t) < length t = unfold home in slot-lt _ _ some' in
      record {
        width = length-set t _ c;
        entries = omega (arith, total-set t (home seed k (length t)) c here);
        placed = record {
          hashed = λ i.
              rw (get_or-set t (home seed k (length t)) i c [] here)
                (elim (Bool-cases (home seed k (length t) == i)) [
                  | inl same ↦ rw same hashed
                  | inr other ↦ rw other (p.hashed i)
                ]);
          once = λ q i.
              rw (get_or-set t (home seed k (length t)) i c [] here)
                (ground (arith, few q, p.once q i, p.once q (home seed k (length t))));
          at_home = λ q i away.
              let away' = rw (length-set t (home seed k (length t)) c) at away in
              rw (get_or-set t (home seed k (length t)) i c [] here)
                (ground (arith, few q, p.at_home q i away', home_congr seed k q (length t)));
        };
        reads = λ q.
            rw
              (
                length-set t (home seed k (length t)) c,
                get_or-set t (home seed k (length t)) (home seed q (length t)) c [] here,
              )
              (ground (arith, reads q, home_congr seed k q (length t)));
      }
