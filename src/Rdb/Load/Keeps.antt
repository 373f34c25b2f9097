-- ===== src/Rdb/Load/Keeps.antt =====
-- rdb.c `rdb_load`: whatever bytes a snapshot holds, the store stays well formed.
use miniredis.Common.{
  ℕ, zero, suc, Bytes, ◌||◌, not, Option, none, some, [], ltb, length, take, drop, bytes_eq, ◌==◌,
  Option-cases, inl, inr,
}
use miniredis.Dict.{Dict}
use miniredis.Dict.Laws.Valid.{IsValid, dict_create-IsValid}
use miniredis.Dict.Laws.Ops.{dict_set-Writes}
use miniredis.Zset.{Zset}
use miniredis.Zset.Scores.{ZsetValid, zset_create-ZsetValid, zset_add-Scored}
use miniredis.Object.{Obj, list, hash, set, zset, Robj}
use miniredis.Db.{Db}
use miniredis.Db.Live.{ObjValid, DbValid}
use miniredis.Db.Keeps.{either, store_set-DbValid}
use miniredis.Rdb.{rdb_version, rdb_magic}
use miniredis.Rdb.Load.{
  Read, then_read, ◌>>=◌, return, r_times, r_element, r_field, r_member, r_scored, r_container,
  corrupt, rdb_read_obj, r_key, load_keys, load_counted, load_versioned, rdb_load, r_u32, r_bytes,
  r_f64, r_s64, r_u8,
}

-- What is read, where it is read, has a property.
abbrev Ok {ℓ} : {A : Type ℓ} → (A → Type 0) → Option (A × Bytes) → Type 0
Ok P none = Unit
Ok P (some (x, rest)) = P x

abbrev Reads {ℓ} : {A : Type ℓ} → (A → Type 0) → Read A → Type 0
Reads P r = (buf : Bytes) → Ok P (r buf)

then_read-Ok {ℓ κ} :
    {A : Type ℓ} {B : Type κ} (P : A → Type 0) (Q : B → Type 0) (f : A → Read B)
    (o : Option (A × Bytes))
    → Ok P o
    → ((x : A) → P x → Reads Q (f x))
    → Ok Q (then_read f o)
unfolding then_read
then_read-Ok P Q f none ok h = tt
then_read-Ok P Q f (some (x, rest)) ok h = h x ok rest

bind-Reads {ℓ κ} :
    {A : Type ℓ} {B : Type κ} (P : A → Type 0) (Q : B → Type 0) (r : Read A) (f : A → Read B)
    → Reads P r
    → ((x : A) → P x → Reads Q (f x))
    → Reads Q (r >>= f)
unfolding ◌>>=◌
bind-Reads P Q r f ok h buf = then_read-Ok P Q f (r buf) (ok buf) h

abbrev Any {ℓ} : {A : Type ℓ} → A → Type 0
Any x = Unit

Ok-Any {ℓ} : {A : Type ℓ} (o : Option (A × Bytes)) → Ok Any o
Ok-Any none = tt
Ok-Any (some (x, rest)) = tt

-- After a value with no property.
any-Reads {ℓ κ} :
    {A : Type ℓ} {B : Type κ} (Q : B → Type 0) (r : Read A) (f : A → Read B)
    → ((x : A) → Reads Q (f x))
    → Reads Q (r >>= f)
any-Reads Q r f h = bind-Reads Any Q r f (λ buf. Ok-Any (r buf)) (λ x ok. h x)

r_times-Reads {ℓ} :
    {A : Type ℓ} (P : A → Type 0) (n : ℕ) (step : A → Read A) (x : A)
    → ((y : A) → P y → Reads P (step y))
    → P x
    → Reads P (r_times n step x)
unfolding r_times return
r_times-Reads P zero step x h ok = λ buf. ok
r_times-Reads P (suc n) step x h ok =
    bind-Reads P P (step x) (λ y. r_times n step y) (h x ok)
      (λ y ok'. r_times-Reads P n step y h ok')

r_container-Reads {ℓ} :
    {A : Type ℓ} (P : A → Type 0) (step : A → Read A) (x : A) (wrap : A → Obj)
    → ((y : A) → P y → Reads P (step y))
    → P x
    → ((y : A) → P y → ObjValid (wrap y))
    → Reads ObjValid (r_container step x wrap)
unfolding r_container return
r_container-Reads P step x wrap h ok w = any-Reads ObjValid r_u32 _ (λ n.
    bind-Reads P ObjValid (r_times n step x) _ (r_times-Reads P n step x h ok)
      (λ y ok' buf. w y ok'))

r_field-Reads : (h : Dict Bytes) → IsValid h → Reads IsValid (r_field h)
unfolding r_field return
r_field-Reads h ok =
    any-Reads IsValid r_bytes _
      (λ f. any-Reads IsValid r_bytes _ (λ v buf. (dict_set-Writes h f v ok).valid))

r_member-Reads : (m : Dict (Unit {0})) → IsValid m → Reads IsValid (r_member m)
unfolding r_member return
r_member-Reads m ok = any-Reads IsValid r_bytes _ (λ s buf. (dict_set-Writes m s tt ok).valid)

abbrev ScoredOk : Zset × (ℕ → ℕ) → Type 0
ScoredOk z = ZsetValid z.0

r_scored-Reads : (z : Zset × (ℕ → ℕ)) → ScoredOk z → Reads ScoredOk (r_scored z)
unfolding r_scored return
r_scored-Reads (z, rand) ok =
    any-Reads ScoredOk r_bytes _
      (λ m. any-Reads ScoredOk r_f64 _ (λ score buf. (zset_add-Scored rand score m z ok).1.valid))

rdb_read_obj-Reads :
    (seed : Bytes) (rand : ℕ → ℕ) (t : ℕ) → Reads ObjValid (rdb_read_obj seed rand t)
unfolding rdb_read_obj return corrupt
rdb_read_obj-Reads seed rand t =
    let P = Reads ObjValid in
    either P (t == 0) (any-Reads ObjValid r_bytes _ (λ s buf. tt)) (
      either P (t == 1)
        (r_container-Reads Any r_element [] list (λ l ok buf. Ok-Any _) tt (λ l ok. tt))
        (either P (t == 2)
          (r_container-Reads IsValid r_field _ hash r_field-Reads
            (dict_create-IsValid {V = Bytes} seed).0 (λ h ok. ok))
          (either P (t == 3)
            (r_container-Reads IsValid r_member _ set r_member-Reads
              (dict_create-IsValid {V = Unit {0}} seed).0 (λ m ok. ok))
            (either P (t == 4)
              (r_container-Reads ScoredOk r_scored _ (λ z. zset z.0) r_scored-Reads
                (zset_create-ZsetValid seed).0 (λ z ok. ok))
              (λ buf. tt)))))

abbrev KeyOk : Bytes × Robj → Type 0
KeyOk p = ObjValid p.1.obj

r_key-Reads : (seed : Bytes) (rand : ℕ → ℕ) → Reads KeyOk (r_key seed rand)
unfolding r_key return
r_key-Reads seed rand = any-Reads KeyOk r_bytes _ (λ key. any-Reads KeyOk r_s64 _ (λ expire.
    any-Reads KeyOk r_u8 _ (λ t.
      bind-Reads ObjValid KeyOk (rdb_read_obj seed rand t) _ (rdb_read_obj-Reads seed rand t)
        (λ o ok buf. ok))))

load_keys-DbValid :
    (draws : ℕ → Bytes × (ℕ → ℕ)) (count : ℕ) (buf : Bytes) (s : Db)
    → DbValid s
    → DbValid (load_keys draws count buf s)
unfolding load_keys
load_keys-DbValid draws zero buf s v = v
load_keys-DbValid draws (suc count) buf s v =
    let d = draws count in
    elim (Option-cases (r_key d.0 d.1 buf)) [
      | inl end ↦ rw (load_keys, end) v
      | inr (((key, o), rest), e) ↦
          let ok : ObjValid o.obj = rw e at (r_key-Reads d.0 d.1 buf) in
          rw (load_keys, e) (load_keys-DbValid draws count rest _ (store_set-DbValid v key o ok))
    ]

-- Nothing was loaded, or the store is well formed.
abbrev pub Loaded : Option Db → Type 0
Loaded none = Unit
Loaded (some s) = DbValid s

load_counted-Loaded :
    (draws : ℕ → Bytes × (ℕ → ℕ)) (s : Db) (o : Option (ℕ × Bytes))
    → DbValid s
    → Loaded (load_counted draws s o)
unfolding load_counted
load_counted-Loaded draws s none v = tt
load_counted-Loaded draws s (some (count, buf)) v = load_keys-DbValid draws count buf s v

load_versioned-Loaded :
    (draws : ℕ → Bytes × (ℕ → ℕ)) (s : Db) (o : Option (ℕ × Bytes))
    → DbValid s
    → Loaded (load_versioned draws s o)
unfolding load_versioned
load_versioned-Loaded draws s none v = tt
load_versioned-Loaded draws s (some (version, buf)) v =
    either Loaded (version == rdb_version) (load_counted-Loaded draws s (r_u32 buf) v) tt

-- Whatever bytes a snapshot holds, loading it into a well-formed store is refused or leaves a
-- well-formed store.
pub rdb_load-Loaded :
    (draws : ℕ → Bytes × (ℕ → ℕ)) (buf : Bytes) (s : Db) → DbValid s → Loaded (rdb_load draws buf s)
unfolding rdb_load
rdb_load-Loaded draws buf s v =
    either Loaded (ltb (length buf) 17 || not (bytes_eq (take 9 buf) rdb_magic)) tt
      (load_versioned-Loaded draws s (r_u32 (drop 9 buf)) v)
