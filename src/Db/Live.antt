-- ===== src/Db/Live.antt =====
-- db.c: what the store holds at a time, whether or not expired keys were dropped yet, and how the
-- lookup and the writes of the commands act on it.
use miniredis.Common.{
  List, bytes_eq_refl, Bytes, true, Option, none, some, ℤ, pos, leb_ℤ, ◌≤ℤ◌, ◌&&◌, ◌≡◌, ◌⊎◌, inl,
  inr, refl, sym, ap, ◌∙◌, arith, if◌then◌else◌, bytes_eq, eq_of_bytes_eq, Bool-cases, Option-cases,
}
use miniredis.Dict.{Dict}
use miniredis.Dict.Laws.Valid.{IsValid, view, dict_create-IsValid, dict_get-view}
use miniredis.Dict.Laws.Ops.{Writes, dict_set-Writes, dict_delete-Writes, dict_assign-Writes}
use miniredis.Zset.Scores.{ZsetValid}
use miniredis.Object.{Obj, str, list, hash, set, zset, Robj}
use miniredis.Db.{
  Db, key_expired, store_set, store_write, store_delete, lookup_key, db_create, as_string, as_list,
  wrongtype,
}

-- The dictionaries inside an object are well formed.
abbrev pub ObjValid : Obj → Type 0
ObjValid (str b) = Unit
ObjValid (list l) = Unit
ObjValid (hash h) = IsValid h
ObjValid (set m) = IsValid m
ObjValid (zset z) = ZsetValid z

abbrev pub HoldsValid : Option Robj → Type 0
HoldsValid none = Unit
HoldsValid (some o) = ObjValid o.obj

-- The invariant of the store: its dictionary and those of its values are well formed.
pub record DbValid (s : Db) : Type 0 where
  pub keys : IsValid s.d
  pub values : (k : Bytes) → HoldsValid (view s.d k)

-- An object that has not expired.
unfoldable pub alive : ℤ → Option Robj → Option Robj
alive now none = none
alive now (some o) = if key_expired now o then none else some o

-- The object that the store holds at a key, expired or not.
abbrev pub view_of : Db → Bytes → Option Robj
view_of s k = view s.d k

-- The object of a key at the time `now`.
unfoldable pub live : ℤ → Db → Bytes → Option Robj
live now s k = alive now (view s.d k)

alive-alive : (now : ℤ) (x : Option Robj) → alive now (alive now x) ≡ alive now x
unfolding alive
alive-alive now none = refl
alive-alive now (some o) = elim (Bool-cases (key_expired now o)) [
  | inl old ↦ rw old refl
  | inr fresh ↦ rw (fresh, fresh) refl
]

pub alive-live :
    (now : ℤ) (s : Db) (k : Bytes) (o : Robj) → live now s k ≡ some o → alive now (some o) ≡ some o
unfolding live
alive-live now s k o e = ap (alive now) (sym e) ∙ alive-alive now (view s.d k) ∙ e

-- What expired stays expired.
pub alive-later :
    (now later : ℤ) (x : Option Robj) → now ≤ℤ later → alive later x ≡ alive later (alive now x)
unfolding alive key_expired
alive-later now later none h = refl
alive-later now later (some o) h = elim (Bool-cases (key_expired now o)) [
  | inr fresh ↦ rw fresh refl
  | inl old ↦
      let then' : (leb_ℤ (pos 0) o.expire_at && leb_ℤ o.expire_at later) ≡ true =
        ground (arith, old) in
      rw (old, then') refl
]

-- The live store at a later time is what is left of the one at an earlier time.
pub live-later :
    (now later : ℤ) (s : Db) (k : Bytes)
    → now ≤ℤ later
    → live later s k ≡ alive later (live now s k)
unfolding live
live-later now later s k h = alive-later now later (view s.d k) h

-- A new value with the expiry of a live object is live.
pub alive-like :
    (now : ℤ) (o : Robj) (x : Obj)
    → alive now (some o) ≡ some o
    → alive now (some (record o { obj = x })) ≡ some (record o { obj = x })
unfolding alive key_expired
alive-like now o x e = elim (Bool-cases (key_expired now o)) [
  | inl old ↦ let h : none ≡ some o = rw old at e in cc
  | inr fresh ↦ rw fresh refl
]

-- What a list command meets in a live object.
pub as_list-cases :
    (x : Obj)
    → ((l : List Bytes) × (x ≡ list l))
      ⊎ ((e : ℤ) → as_list (some (record { obj = x; expire_at = e })) ≡ wrongtype)
unfolding as_list
as_list-cases (list l) = inl (l, refl)
as_list-cases (str b) = inr (λ e. refl)
as_list-cases (hash h) = inr (λ e. refl)
as_list-cases (set m) = inr (λ e. refl)
as_list-cases (zset z) = inr (λ e. refl)

-- What a string command meets in a live object.
pub as_string-cases :
    (x : Obj)
    → ((b : Bytes) × (x ≡ str b))
      ⊎ ((e : ℤ) → as_string (some (record { obj = x; expire_at = e })) ≡ wrongtype)
unfolding as_string
as_string-cases (str b) = inl (b, refl)
as_string-cases (list l) = inr (λ e. refl)
as_string-cases (hash h) = inr (λ e. refl)
as_string-cases (set m) = inr (λ e. refl)
as_string-cases (zset z) = inr (λ e. refl)

-- The store after the object of `k` became `x`.
pub record Becomes (now : ℤ) (s : Db) (k : Bytes) (x : Option Robj) (s' : Db) : Type 0 where
  pub valid : DbValid s'
  pub lives : (q : Bytes) → live now s' q ≡ (if bytes_eq k q then alive now x else live now s q)

module _ (now : ℤ) (s : Db) (v : DbValid s) (k : Bytes) where
  Writes-Becomes :
      (x : Option Robj) (r : Option Robj × Dict Robj)
      → HoldsValid x
      → Writes s.d k x r
      → Becomes now s k x (record s { d = r.1 })
  unfolding live
  Writes-Becomes x r ok w = record {
    valid = record {
      keys = w.valid;
      values = λ q. elim (Bool-cases (bytes_eq k q)) [
        | inl same ↦ rw (w.views q, same) ok
        | inr other ↦ rw (w.views q, other) (v.values q)
      ];
    };
    lives = λ q. elim (Bool-cases (bytes_eq k q)) [
      | inl same ↦ rw (w.views q, same) refl
      | inr other ↦ rw (w.views q, other) refl
    ];
  }

  -- SET and the like bind the key to the new object.
  pub store_set-Becomes : (o : Robj) → ObjValid o.obj → Becomes now s k (some o) (store_set s k o)
  unfolding store_set
  store_set-Becomes o ok = Writes-Becomes (some o) _ ok (dict_set-Writes s.d k o v.keys)

  pub store_set-view : (o : Robj) → view_of (store_set s k o) k ≡ some o
  unfolding store_set
  store_set-view o = (dict_set-Writes s.d k o v.keys).views k ∙ rw (bytes_eq_refl k) refl

  pub store_delete-Becomes : Becomes now s k none (store_delete s k)
  unfolding store_delete
  store_delete-Becomes = Writes-Becomes none _ tt (dict_delete-Writes s.d k v.keys)

  pub store_write-Becomes :
      (o old : Robj)
      → ObjValid o.obj
      → view s.d k ≡ some old
      → Becomes now s k (some o) (store_write s k o)
  unfolding store_write
  store_write-Becomes o old ok e =
      Writes-Becomes (some o) _ ok (dict_assign-Writes s.d k o old v.keys e)

  -- Dropping a key that is not live changes nothing that is.
  pub unchanged :
      {s' : Db}
      → Becomes now s k none s'
      → live now s k ≡ none
      → (q : Bytes) → live now s' q ≡ live now s q
  unchanged b gone q = elim (Bool-cases (bytes_eq k q)) [
    | inl same ↦
        let here : live now s q ≡ none = ap (live now s) (sym (eq_of_bytes_eq k q same)) ∙ gone in
        rw (b.lives q, same, here) (unfold alive in refl)
    | inr other ↦ rw (b.lives q, other) refl
  ]

  -- What `lookup_key` returns and does: a live object is returned and the store is as it was; else
  -- nothing is returned, and the store holds the same live keys.
  abbrev pub Found : Type 0
  Found =
      (o : Robj) × (live now s k ≡ some o)
      × (view s.d k ≡ some o)
      × (lookup_key now s k ≡ (some o, s))
      × ObjValid o.obj

  abbrev pub Lost : Type 0
  Lost =
      (s' : Db) × (live now s k ≡ none)
      × (lookup_key now s k ≡ (none, s'))
      × DbValid s'
      × ((q : Bytes) → live now s' q ≡ live now s q)

  -- On a valid store, `lookup_key` either returns the object of a key that is live and leaves the
  -- store as it is, or, where no object is live, returns nothing and leaves a valid store with the
  -- same live objects.
  pub lookup_key-cases : Found ⊎ Lost
  unfolding lookup_key live alive
  lookup_key-cases = elim (Option-cases (view s.d k)) [
    | inl e ↦ inr (s, rw e refl, rw (dict_get-view s.d k v.keys, e) refl, v, λ q. refl)
    | inr (o, e) ↦
        let ok : ObjValid o.obj = rw e at (v.values k) in
        elim (Bool-cases (key_expired now o)) [
          | inr fresh ↦
              inl (o, rw (e, fresh) refl, e, rw (dict_get-view s.d k v.keys, e, fresh) refl, ok)
          | inl old ↦
              let b = store_delete-Becomes in
              inr (
                store_delete s k,
                rw (e, old) refl,
                rw (dict_get-view s.d k v.keys, e, old) refl,
                b.valid,
                unchanged b (rw (e, old) refl),
              )
        ]
  ]

pub db_create-DbValid : (seed : Bytes) → DbValid (db_create seed)
unfolding db_create
db_create-DbValid seed =
    let (ok, empty) = dict_create-IsValid {V = Robj} seed in
    record { keys = ok; values = λ k. rw (empty k) tt }
