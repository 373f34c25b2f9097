-- ===== src/Rdb/RoundTrip/Snapshot.antt =====
-- rdb.c: a snapshot of a store and the store that is loaded from it.
use miniredis.Common.{
  ℕ, ◌+◌, suc, ◌^◌, ◌≤◌, ◌<◌, ◌≡◌, refl, sym, ap, ap₂, ◌∙◌, arith, Bytes, Bool, true, false, Option,
  none, some, List, [], ◌∷◌, ◌++◌, append_assoc, append-nil, length, length-append, if◌then◌else◌,
  FitsLl, bytes, bytes_eq, bytes_eq_refl, Bool-cases, inl, inr, take, drop, take-append_self,
  drop-append_self, ltb, ◌&&◌,
}
use miniredis.Dict.{Entry, dict_size, entries_of}
use miniredis.Dict.Chain.{find, count, find-eq-none}
use miniredis.Dict.Laws.Valid.{IsValid, view}
use miniredis.Dict.Laws.Ops.{dict_set-Writes}
use miniredis.Dict.Laws.Resize.{entries_of-view}
use miniredis.Object.{Obj, str, list, hash, set, zset, Robj}
use miniredis.Db.{Db, store_set}
use miniredis.Files.{Replacing, replace_file, write_full, write_full_lem}
use miniredis.Rdb.{
  rdb_write_obj, type_code, w_u8, w_u32, w_s64, w_bytes, w_all, w_key, rdb_magic, rdb_bytes,
  rdb_version, rdb_save,
}
use miniredis.Rdb.Load.{r_u8, r_u32, r_s64, r_bytes, r_key, rdb_read_obj, load_keys, rdb_load}
use miniredis.Rdb.RoundTrip.{
  Reads, Reads-map, Reads-bind, r_bytes-Reads, r_u8-Reads, r_u32-Reads, r_s64-Reads, length-w_uint,
  Each,
}
use miniredis.Rdb.RoundTrip.Values.{
  Short, Storable, Same, rdb_read_obj-rdb_write_obj, dict_size-entries, Each-view,
}

-- A key and an object that the snapshot has room for.
unfoldable pub KeyStorable : Bytes → Robj → Type 0
KeyStorable key o = Short key × FitsLl o.expire_at × Storable o.obj

-- The same contents and expiry.
pub record SameObject (o o' : Robj) : Type 0 where
  pub contents : Same o.obj o'.obj
  pub expiry : o'.expire_at ≡ o.expire_at

type_code_lt : (o : Obj) → type_code o < 256
unfolding type_code
type_code_lt (str b) = omega arith
type_code_lt (list l) = omega arith
type_code_lt (hash h) = omega arith
type_code_lt (set m) = omega arith
type_code_lt (zset z) = omega arith

r_key-w_key :
    (seed : Bytes) (rand : ℕ → ℕ) (e : Entry Robj)
    → KeyStorable e.key e.val
    → (o : Robj) × Reads (r_key seed rand) (w_key e) (e.key, o) × SameObject e.val o
unfolding r_key w_key KeyStorable
r_key-w_key seed rand e (short, fits, storable) =
    let (o, reads, same) = rdb_read_obj-rdb_write_obj seed rand e.val.obj storable in
    let r : Robj = record { obj = o; expire_at = e.val.expire_at } in
    let t = type_code e.val.obj in
    (
      r,
      Reads-bind r_bytes _ (w_bytes e.key) _ e.key (e.key, r) (r_bytes-Reads e.key short)
          (Reads-bind r_s64 _ (w_s64 e.val.expire_at) _ e.val.expire_at (e.key, r)
            (r_s64-Reads e.val.expire_at fits)
            (Reads-bind r_u8 _ (w_u8 t) (rdb_write_obj e.val.obj) t (e.key, r)
              (r_u8-Reads t (type_code_lt e.val.obj))
              (Reads-map (rdb_read_obj seed rand t)
                (λ x. (e.key, record { obj = x; expire_at = e.val.expire_at }))
                (rdb_write_obj e.val.obj) o reads))),
      record { contents = same; expiry = refl },
    )

-- The object that was written for a key, if there was one, or the one that was there before.
abbrev pub Back : Option Robj → Option Robj → Option Robj → Type 0
Back none old new = new ≡ old
Back (some o) old new = (o' : Robj) × (new ≡ some o') × SameObject o o'

pub record Loads (s : Db) (es : List (Entry Robj)) (s' : Db) : Type 0 where
  pub valid : IsValid s'.d
  pub back : (q : Bytes) → Back (find q es) (view s.d q) (view s'.d q)

Back-none : (o old new : Option Robj) → o ≡ none → Back o old new → new ≡ old
Back-none none old new e b = b
Back-none (some o) old new e b = absurd cc

Back-to :
    (o o' old old' new : Option Robj) → o ≡ o' → old ≡ old' → Back o old new → Back o' old' new
Back-to o o' old old' new e f b = rw (sym e, sym f) b

Back-old : (o old old' new : Option Robj) → old ≡ old' → Back o old new → Back o old' new
Back-old none old old' new e b = b ∙ e
Back-old (some o) old old' new e b = b

load_keys-suc :
    (draws : ℕ → Bytes × (ℕ → ℕ)) (n : ℕ) (buf rest : Bytes) (s : Db) (key : Bytes) (o : Robj)
    → r_key (draws n).0 (draws n).1 buf ≡ some ((key, o), rest)
    → load_keys draws (suc n) buf s ≡ load_keys draws n rest (store_set s key o)
unfolding load_keys
load_keys-suc draws n buf rest s key o h = rw (h, load_keys) refl

Loads-to :
    (s : Db) (es : List (Entry Robj)) (s' s'' : Db) → s' ≡ s'' → Loads s es s' → Loads s es s''
Loads-to s es s' s'' e l = rw (sym e) l

-- `m` more than there are entries.
abbrev pub more : List (Entry Robj) → ℕ → ℕ
more [] m = m
more (e ∷ es) m = suc (more es m)

-- Behind the keys that were written stands what the loop makes nothing of.
pub load_keys-Loads :
    (draws : ℕ → Bytes × (ℕ → ℕ)) (es : List (Entry Robj)) (m : ℕ) (rest : Bytes) (s : Db)
    → IsValid s.d
    → Each (λ (e : Entry Robj). KeyStorable e.key e.val) es
    → ((q : Bytes) → count q es ≤ 1)
    → ((s : Db) → load_keys draws m rest s ≡ s)
    → Loads s es (load_keys draws (more es m) (w_all w_key es ++ rest) s)
unfolding w_all find count Reads store_set
load_keys-Loads draws [] m rest s v h once ends =
    Loads-to s [] _ _ (sym (ends s)) (record { valid = v; back = λ q. refl })
load_keys-Loads draws (e ∷ es) m rest s v h once ends =
    let n = more es m in
    let (o, reads, same) = r_key-w_key (draws n).0 (draws n).1 e h.0 in
    let w = dict_set-Writes s.d e.key o v in
    let s' = store_set s e.key o in
    let rest' = w_all w_key es ++ rest in
    let loads = load_keys-Loads draws es m rest s' w.valid h.1 (λ q. ground (arith, once q)) ends in
    let here = reads rest' in
    let step = load_keys-suc draws n (w_key e ++ rest') rest' s e.key o here in
    rw (append_assoc (w_key e) (w_all w_key es) rest) (
      Loads-to s (e ∷ es) _ _ (sym step) (record {
        valid = loads.valid;
        back = λ q. elim (Bool-cases (bytes_eq e.key q)) [
          | inl eq ↦
              let absent = find-eq-none q es (ground (arith, once q, eq)) in
              rw eq (o, Back-none _ _ _ absent (loads.back q) ∙ (w.views q ∙ rw eq refl), same)
          | inr other ↦
              rw other (Back-old (find q es) _ _ _ (w.views q ∙ rw other refl) (loads.back q))
        ];
      }))

pub more-length : (es : List (Entry Robj)) (m : ℕ) → more es m ≡ length es + m
more-length [] m = omega arith
more-length (e ∷ es) m = omega (arith, more-length es m)

-- The header.
magic_taken :
    (tail : Bytes)
    → (take 9 (rdb_magic ++ tail) ≡ rdb_magic)
      × (drop 9 (rdb_magic ++ tail) ≡ tail)
      × (length rdb_magic ≡ 9)
unfolding bytes
magic_taken tail = (take-append_self rdb_magic tail, drop-append_self rdb_magic tail, refl)

pub rdb_load-framed :
    (draws : ℕ → Bytes × (ℕ → ℕ)) (tail counted keys : Bytes) (n : ℕ) (s : Db)
    → 8 ≤ length tail
    → r_u32 tail ≡ some (rdb_version, counted)
    → r_u32 counted ≡ some (n, keys)
    → rdb_load draws (rdb_magic ++ tail) s ≡ some (load_keys draws n keys s)
unfolding rdb_load
rdb_load-framed draws tail counted keys n s long version count =
    let (taken, dropped, nine) = magic_taken tail in
    let room : ltb (length (rdb_magic ++ tail)) 17 ≡ false =
      ground (arith, length-append rdb_magic tail, nine, long) in
    let magic : bytes_eq (take 9 (rdb_magic ++ tail)) rdb_magic ≡ true =
      rw taken (bytes_eq_refl rdb_magic) in
    rw (room, magic, dropped, version, count) refl

-- What a snapshot that was saved restores: on a store without keys and for keys and values whose
-- lengths and numbers fit the format, none of them a sorted set, loading succeeds, and each key has
-- an object with the same contents and expiry, or none where it had none.
pub rdb_load-rdb_bytes :
    (draws : ℕ → Bytes × (ℕ → ℕ)) (s s₀ : Db)
    → IsValid s.d
    → dict_size s.d < 2 ^ 32
    → ((q : Bytes) (o : Robj) → view s.d q ≡ some o → KeyStorable q o)
    → IsValid s₀.d
    → ((q : Bytes) → view s₀.d q ≡ none)
    → (s' : Db) × (rdb_load draws (rdb_bytes s) s₀ ≡ some s')
      × IsValid s'.d
      × ((q : Bytes) → Back (view s.d q) none (view s'.d q))
unfolding rdb_bytes Reads view w_u32
rdb_load-rdb_bytes draws s s₀ v small h v₀ empty =
    let es = entries_of s.d.table in
    let n = dict_size s.d in
    let keys = w_all w_key es in
    let reads = λ (q : Bytes). entries_of-view s.d.seed s.d.table q v.placed in
    let loads =
      load_keys-Loads draws es 0 [] s₀ v₀ (Each-view KeyStorable s.d v h) (λ q. (reads q).1)
        (λ t. unfold load_keys in refl) in
    let long : 8 ≤ length (w_u32 rdb_version ++ (w_u32 n ++ keys)) = omega (
      arith,
      length-append (w_u32 rdb_version) (w_u32 n ++ keys),
      length-append (w_u32 n) keys,
      length-w_uint 4 rdb_version,
      length-w_uint 4 n,
    ) in
    let framed =
      rdb_load-framed draws (w_u32 rdb_version ++ (w_u32 n ++ keys)) (w_u32 n ++ keys) keys n s₀
        long (r_u32-Reads 1 (omega arith) (w_u32 n ++ keys)) (r_u32-Reads n small keys) in
    (
      load_keys draws (more es 0) (keys ++ []) s₀,
      framed
          ∙ ap₂ (λ m ks. some (load_keys draws m ks s₀))
              (dict_size-entries s.d v ∙ sym (more-length es 0 ∙ omega arith))
              (sym (append-nil keys)),
      loads.valid,
      λ q. Back-to _ _ _ _ _ (reads q).0 (empty q) (loads.back q),
    )

-- A replacement that is reported a success followed a complete write and left its bytes.
chosen : Bool → Bytes → Bytes → Bool × Bytes
chosen b new old = if b then (true, new) else (false, old)

replaced_lem :
    (b : Bool) (new old : Bytes)
    → (chosen b new old).0 ≡ true
    → (b ≡ true) × ((chosen b new old).1 ≡ new)
unfolding chosen
replaced_lem true new old h = (refl, refl)
replaced_lem false new old h = absurd cc

and_right : (a b c : Bool) → a && (b && c) ≡ true → b ≡ true
and_right true true c h = refl
and_right true false c h = absurd cc
and_right false b c h = absurd cc

-- A save that is reported a success put the whole snapshot in the file.
rdb_save-saved :
    (r : Replacing) (s : Db) (old : Bytes)
    → (rdb_save r s old).0 ≡ true
    → (rdb_save r s old).1 ≡ rdb_bytes s
unfolding rdb_save replace_file chosen
rdb_save-saved r s old done =
    let (w, rest, e, f, all) = write_full_lem r.writes (rdb_bytes s) [] in
    let result = write_full r.writes (rdb_bytes s) [] in
    let (ok, file) =
      replaced_lem (r.opens && (result.0 && (r.fsyncs && (r.closes && r.renames)))) result.1 old
        done in
    let complete = and_right r.opens result.0 _ ok in
    file ∙ f ∙ sym (e ∙ ap (λ t. w ++ t) (all complete) ∙ append-nil w)

-- Where `rdb_save` reports a success, for a well-formed store of fewer than 2 ^ 32 keys whose keys,
-- expiries and values fit the format and none of which is a sorted set, loading the file into a
-- well-formed store without keys succeeds and gives a well-formed store in which each key has an
-- object of the same contents and expiry, dictionaries being the same where they stand for the same
-- map, and no other key has one.
pub rdb_load-rdb_save :
    (draws : ℕ → Bytes × (ℕ → ℕ)) (r : Replacing) (old : Bytes) (s s₀ : Db)
    → (rdb_save r s old).0 ≡ true
    → IsValid s.d
    → dict_size s.d < 2 ^ 32
    → ((q : Bytes) (o : Robj) → view s.d q ≡ some o → KeyStorable q o)
    → IsValid s₀.d
    → ((q : Bytes) → view s₀.d q ≡ none)
    → (s' : Db) × (rdb_load draws (rdb_save r s old).1 s₀ ≡ some s')
      × IsValid s'.d
      × ((q : Bytes) → Back (view s.d q) none (view s'.d q))
rdb_load-rdb_save draws r old s s₀ done v small h v₀ empty =
    rw (rdb_save-saved r s old done) (rdb_load-rdb_bytes draws s s₀ v small h v₀ empty)
