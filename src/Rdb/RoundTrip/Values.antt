-- ===== src/Rdb/RoundTrip/Values.antt =====
-- rdb.c: a value that was written and read again.
use miniredis.Common.{
  ℕ, ◌^◌, ◌≤◌, ◌<◌, ◌≡◌, refl, sym, ap, ◌∙◌, arith, Bytes, false, Option, none, some, List, [], ◌∷◌,
  ◌++◌, append_assoc, append-nil, length, bytes_eq, Bool-cases, inl, inr,
}
use miniredis.Dict.{Entry, Dict, dict_create, dict_set, dict_size, entries_of}
use miniredis.Dict.Chain.{find, count, find-eq-none}
use miniredis.Dict.Laws.Valid.{IsValid, view, dict_create-IsValid}
use miniredis.Dict.Laws.Ops.{dict_set-Writes}
use miniredis.Dict.Laws.Resize.{entries_of-view, length-entries_of}
use miniredis.Object.{Obj, str, list, hash, set, zset}
use miniredis.Db.Lists.{list_push}
use miniredis.Rdb.{rdb_write_obj, type_code, w_u32, w_bytes, w_field, w_member, w_all}
use miniredis.Rdb.Load.{
  Read, r_u32, r_bytes, r_times, r_container, r_element, r_field, r_member, rdb_read_obj,
}
use miniredis.Rdb.RoundTrip.{
  Reads, Reads-map, Reads-bind, r_bytes-Reads, r_u32-Reads, r_times-Reads, fold, Each, Each-entries,
}

-- A length that four bytes hold.
abbrev pub Short : Bytes → Type 0
Short s = length s < 2 ^ 32

r_container-Reads {ℓ κ ι ο} :
    {A : Type ℓ} {B : Type κ} {C : Type ο} {P : B → Type ι} (step : A → Read A) (w : B → Bytes)
    (add : A → B → A)
    → ((x : A) (y : B) → P y → Reads (step x) (w y) (add x y))
    → (wrap : A → C) (x : A) (ys : List B) → length ys < 2 ^ 32
    → Each P ys
    → Reads (r_container step x wrap) (w_u32 (length ys) ++ w_all w ys) (wrap (fold add x ys))
unfolding r_container
r_container-Reads step w add one wrap x ys short h =
    Reads-bind r_u32 _ (w_u32 (length ys)) (w_all w ys) (length ys) (wrap (fold add x ys))
      (r_u32-Reads (length ys) short)
      (Reads-map (r_times (length ys) step x) wrap (w_all w ys) (fold add x ys)
        (r_times-Reads step w add one x ys h))

-- Lists.
push_back : List Bytes → Bytes → List Bytes
push_back l s = list_push false l s

fold-push_back : (l ys : List Bytes) → fold push_back l ys ≡ l ++ ys
unfolding fold push_back list_push
fold-push_back l [] = sym (append-nil l)
fold-push_back l (y ∷ ys) = fold-push_back (l ++ y ∷ []) ys ∙ append_assoc l (y ∷ []) ys

r_element-Reads :
    (l : List Bytes) (s : Bytes) → Short s → Reads (r_element l) (w_bytes s) (push_back l s)
unfolding r_element push_back
r_element-Reads l s h = Reads-map r_bytes (list_push false l) (w_bytes s) s (r_bytes-Reads s h)

-- Dictionaries.
module _ {ℓ} {V : Type ℓ} where
  put : Dict V → Entry V → Dict V
  put d e = (dict_set d e.key e.val).1

  -- What the entries say, and else what was there.
  said : Option V → Option V → Option V
  said none o = o
  said (some v) o = some v

  record Filled (d : Dict V) (es : List (Entry V)) (d' : Dict V) : Type ℓ where
    valid : IsValid d'
    views : (q : Bytes) → view d' q ≡ said (find q es) (view d q)

  fold-put :
      (es : List (Entry V)) (d : Dict V)
      → IsValid d
      → ((q : Bytes) → count q es ≤ 1)
      → Filled d es (fold put d es)
  unfolding fold put find count said
  fold-put [] d v once = record { valid = v; views = λ q. refl }
  fold-put (e ∷ es) d v once =
      let w = dict_set-Writes d e.key e.val v in
      let rest = fold-put es (dict_set d e.key e.val).1 w.valid (λ q. ground (arith, once q)) in
      record {
        valid = rest.valid;
        views = λ q. elim (Bool-cases (bytes_eq e.key q)) [
          | inl same ↦
              let absent : find q es ≡ none = find-eq-none q es (ground (arith, once q, same)) in
              rw same (rest.views q ∙ rw absent (w.views q ∙ rw same refl))
          | inr other ↦ rw other (rest.views q ∙ ap (said (find q es)) (w.views q ∙ rw other refl))
        ];
      }

  said-none : (a b c d : Option V) → a ≡ said b c → b ≡ d → c ≡ none → a ≡ d
  unfolding said
  said-none a none c d e f g = e ∙ g ∙ f
  said-none a (some v) c d e f g = e ∙ f

  -- A dictionary made of the entries of another.
  copy-views :
      (seed : Bytes) (h : Dict V)
      → IsValid h
      → let h' = fold put (dict_create seed) (entries_of h.table) in
        IsValid h' × ((q : Bytes) → view h' q ≡ view h q)
  unfolding view said
  copy-views seed h v =
      let reads = λ (q : Bytes). entries_of-view h.seed h.table q v.placed in
      let (valid, empty) = dict_create-IsValid {V = V} seed in
      let filled = fold-put (entries_of h.table) (dict_create seed) valid (λ q. (reads q).1) in
      (filled.valid, λ q. said-none _ _ _ _ (filled.views q) (reads q).0 (empty q))

  pub dict_size-entries : (h : Dict V) → IsValid h → dict_size h ≡ length (entries_of h.table)
  unfolding dict_size
  dict_size-entries h v = sym v.counted ∙ sym (length-entries_of h.table)

-- What holds of a dictionary's keys and values holds of its entries.
pub Each-view {ℓ κ} :
    {V : Type ℓ} (P : Bytes → V → Type κ) (d : Dict V)
    → IsValid d
    → ((q : Bytes) (v : V) → view d q ≡ some v → P q v)
    → Each (λ (e : Entry V). P e.key e.val) (entries_of d.table)
unfolding view
Each-view P d v h =
    let reads = λ (q : Bytes). entries_of-view d.seed d.table q v.placed in
    Each-entries P (entries_of d.table) (λ q. (reads q).1)
      (λ q x found. h q x (sym (reads q).0 ∙ found))

r_field-Reads :
    (h : Dict Bytes) (e : Entry Bytes)
    → Short e.key × Short e.val
    → Reads (r_field h) (w_field e) (put h e)
unfolding r_field w_field put
r_field-Reads h e short =
    Reads-bind r_bytes _ (w_bytes e.key) (w_bytes e.val) e.key (put h e)
      (r_bytes-Reads e.key short.0)
      (Reads-map r_bytes (λ v. (dict_set h e.key v).1) (w_bytes e.val) e.val
        (r_bytes-Reads e.val short.1))

r_member-Reads :
    (m : Dict (Unit {0})) (e : Entry (Unit {0}))
    → Short e.key
    → Reads (r_member m) (w_member e) (put m e)
unfolding r_member w_member put
r_member-Reads m e short =
    Reads-map r_bytes (λ s. (dict_set m s tt).1) (w_bytes e.key) e.key (r_bytes-Reads e.key short)

-- Lengths that four bytes hold, in well-formed dictionaries; a sorted set is not among these objects.
unfoldable pub Storable : Obj → Type 0
Storable (str b) = Short b
Storable (list l) = (length l < 2 ^ 32) × Each Short l
Storable (hash h) =
    IsValid h × (dict_size h < 2 ^ 32) × ((f v : Bytes) → view h f ≡ some v → Short f × Short v)
Storable (set m) =
    IsValid m × (dict_size m < 2 ^ 32) × ((k : Bytes) (u : Unit {0}) → view m k ≡ some u → Short k)
Storable (zset z) = ⊥

-- The same contents: dictionaries by the maps that they stand for.
unfoldable pub Same : Obj → Obj → Type 0
Same (str b) (str b') = b ≡ b'
Same (list l) (list l') = l ≡ l'
Same (hash h) (hash h') = IsValid h' × ((q : Bytes) → view h' q ≡ view h q)
Same (set m) (set m') = IsValid m' × ((q : Bytes) → view m' q ≡ view m q)
Same _ _ = ⊥

-- What was written for an object is read as an object with the same contents.
pub rdb_read_obj-rdb_write_obj :
    (seed : Bytes) (rand : ℕ → ℕ) (o : Obj)
    → Storable o
    → (o' : Obj) × Reads (rdb_read_obj seed rand (type_code o)) (rdb_write_obj o) o' × Same o o'
unfolding Storable Same view rdb_read_obj type_code rdb_write_obj
rdb_read_obj-rdb_write_obj seed rand (str b) h =
    (str b, Reads-map r_bytes str (w_bytes b) b (r_bytes-Reads b h), refl)
rdb_read_obj-rdb_write_obj seed rand (list l) h = (
  list (fold push_back [] l),
  r_container-Reads r_element w_bytes push_back r_element-Reads list [] l h.0 h.1,
  sym (fold-push_back [] l),
)
rdb_read_obj-rdb_write_obj seed rand (hash d) (v, small, short) =
    let n = dict_size-entries d v in
    (
      hash (fold put (dict_create seed) (entries_of d.table)),
      rw n (
          r_container-Reads r_field w_field put r_field-Reads hash (dict_create seed)
            (entries_of d.table) (omega (arith, n, small))
            (Each-view {V = Bytes} (λ f x. Short f × Short x) d v short)),
      copy-views seed d v,
    )
rdb_read_obj-rdb_write_obj seed rand (set d) (v, small, short) =
    let n = dict_size-entries d v in
    (
      set (fold put (dict_create seed) (entries_of d.table)),
      rw n (
          r_container-Reads r_member w_member put r_member-Reads set (dict_create seed)
            (entries_of d.table) (omega (arith, n, small))
            (Each-view {V = (Unit {0})} (λ k u. Short k) d v short)),
      copy-views seed d v,
    )
rdb_read_obj-rdb_write_obj seed rand (zset z) h = elim h [ ]
