-- ===== src/Db/Keeps.antt =====
-- db.c: a command keeps the store well formed. The lemmas for the lookup and the writes that the
-- commands are made of.
use miniredis.Common.{
  true, false, if◌then◌else◌, Bytes, Bool, Option, none, some, List, ℤ, pos, ◌≡◌, inl, inr,
  Bool-cases,
}
use miniredis.Dict.{Dict}
use miniredis.Dict.Laws.Valid.{IsValid}
use miniredis.Zset.{Zset}
use miniredis.Zset.Scores.{ZsetValid}
use miniredis.Object.{Obj, str, list, hash, set, zset, Robj}
use miniredis.Server.Reply.{Client}
use miniredis.Db.{
  Db, Env, Command, lookup_key, store_set, store_write, store_delete, maybe_delete_key, Typed,
  missing, wrongtype, held, as_string, as_list, as_hash, as_set, as_zset, is_empty,
}
use miniredis.Db.Live.{
  ObjValid, DbValid, HoldsValid, view_of, lookup_key-cases, store_set-Becomes, store_write-Becomes,
  store_delete-Becomes, store_set-view,
}

-- The command leaves a well-formed store where it meets one.
abbrev pub Keeps : Command → Type 0
Keeps f =
    (env : Env) (argv : List Bytes) (s : Db) (c : Client) → DbValid s → DbValid (f env argv s c).0

-- Both ways on from a test.
pub either {ℓ κ} :
    {A : Type ℓ} (P : A → Type κ) {x y : A} (b : Bool) → P x → P y → P (if b then x else y)
either P true p q = p
either P false p q = q

-- An object that was looked up is the one at its key.
abbrev pub Stands : Db → Bytes → Option Robj → Type 0
Stands s k none = Unit
Stands s k (some o) = view_of s k ≡ some o

pub looked_up :
    {s : Db} (now : ℤ) (k : Bytes) (f : Option Robj → Db → Db × Client)
    → DbValid s
    → ((o : Option Robj) (s' : Db) → DbValid s' → HoldsValid o → Stands s' k o → DbValid (f o s').0)
    → DbValid (f (lookup_key now s k).0 (lookup_key now s k).1).0
looked_up {s} now k f v h = elim (lookup_key-cases now s v k) [
  | inl (o, e, stands, found, ok) ↦ rw found (h (some o) s v ok stands)
  | inr (s', e, lost, ok, same) ↦ rw lost (h none s' ok tt tt)
]

-- After a lookup the store is well formed.
pub lookup_key-DbValid : {s : Db} (now : ℤ) (k : Bytes) → DbValid s → DbValid (lookup_key now s k).1
lookup_key-DbValid {s} now k v = elim (lookup_key-cases now s v k) [
  | inl (o, e, stands, found, ok) ↦ rw found v
  | inr (s', e, lost, ok, same) ↦ rw lost ok
]

module _ {s : Db} (v : DbValid s) (k : Bytes) where
  pub store_set-DbValid : (o : Robj) → ObjValid o.obj → DbValid (store_set s k o)
  store_set-DbValid o ok = (store_set-Becomes (pos 0) s v k o ok).valid

  pub store_delete-DbValid : DbValid (store_delete s k)
  store_delete-DbValid = (store_delete-Becomes (pos 0) s v k).valid

  pub store_write-DbValid :
      (o old : Robj) → view_of s k ≡ some old → ObjValid o.obj → DbValid (store_write s k o)
  store_write-DbValid o old e ok = (store_write-Becomes (pos 0) s v k o old ok e).valid

  pub maybe_delete_key-DbValid : (x : Obj) → DbValid (maybe_delete_key s k x)
  unfolding maybe_delete_key
  maybe_delete_key-DbValid x = elim (Bool-cases (is_empty x)) [
    | inl empty ↦ rw empty store_delete-DbValid
    | inr full ↦ rw full v
  ]

-- A store that was just given an object at `k`, and changes it.
pub set-write-DbValid :
    {s : Db} (k : Bytes) (o o' : Robj)
    → DbValid s
    → ObjValid o.obj
    → ObjValid o'.obj
    → DbValid (store_write (store_set s k o) k o')
set-write-DbValid {s} k o o' v ok ok' =
    store_write-DbValid (store_set-DbValid v k o ok) k o' o (store_set-view (pos 0) s v k o) ok'

-- The three ways on from the test of the type: no object, one of another type, or contents that are
-- well formed, in an object that stands at the key.

of_string {ℓ} :
    (P : Typed Bytes → Type ℓ) (x : Obj) (e : ℤ)
    → ObjValid x
    → P wrongtype
    → ((x : Bytes) → P (held x e))
    → P (as_string (some (record { obj = x; expire_at = e })))
unfolding as_string
of_string P (str x) e ok w h = h x
of_string P (list x) e ok w h = w
of_string P (hash x) e ok w h = w
of_string P (set x) e ok w h = w
of_string P (zset x) e ok w h = w

pub on_string {ℓ} :
    (P : Typed Bytes → Type ℓ) (s : Db) (k : Bytes) (o : Option Robj)
    → HoldsValid o
    → Stands s k o
    → P missing
    → P wrongtype
    → ((x : Bytes) (e : ℤ) (old : Robj) → view_of s k ≡ some old → P (held x e))
    → P (as_string o)
unfolding as_string
on_string P s k none ok at m w h = m
on_string P s k (some o) ok at m w h =
    of_string P o.obj o.expire_at ok w (λ x. h x o.expire_at o at)

of_list {ℓ} :
    (P : Typed (List Bytes) → Type ℓ) (x : Obj) (e : ℤ)
    → ObjValid x
    → P wrongtype
    → ((x : List Bytes) → P (held x e))
    → P (as_list (some (record { obj = x; expire_at = e })))
unfolding as_list
of_list P (str x) e ok w h = w
of_list P (list x) e ok w h = h x
of_list P (hash x) e ok w h = w
of_list P (set x) e ok w h = w
of_list P (zset x) e ok w h = w

pub on_list {ℓ} :
    (P : Typed (List Bytes) → Type ℓ) (s : Db) (k : Bytes) (o : Option Robj)
    → HoldsValid o
    → Stands s k o
    → P missing
    → P wrongtype
    → ((x : List Bytes) (e : ℤ) (old : Robj) → view_of s k ≡ some old → P (held x e))
    → P (as_list o)
unfolding as_list
on_list P s k none ok at m w h = m
on_list P s k (some o) ok at m w h = of_list P o.obj o.expire_at ok w (λ x. h x o.expire_at o at)

of_hash {ℓ} :
    (P : Typed (Dict Bytes) → Type ℓ) (x : Obj) (e : ℤ)
    → ObjValid x
    → P wrongtype
    → ((x : Dict Bytes) → IsValid x → P (held x e))
    → P (as_hash (some (record { obj = x; expire_at = e })))
unfolding as_hash
of_hash P (str x) e ok w h = w
of_hash P (list x) e ok w h = w
of_hash P (hash x) e ok w h = h x ok
of_hash P (set x) e ok w h = w
of_hash P (zset x) e ok w h = w

pub on_hash {ℓ} :
    (P : Typed (Dict Bytes) → Type ℓ) (s : Db) (k : Bytes) (o : Option Robj)
    → HoldsValid o
    → Stands s k o
    → P missing
    → P wrongtype
    → ((x : Dict Bytes) (e : ℤ) (old : Robj) → view_of s k ≡ some old → IsValid x → P (held x e))
    → P (as_hash o)
unfolding as_hash
on_hash P s k none ok at m w h = m
on_hash P s k (some o) ok at m w h = of_hash P o.obj o.expire_at ok w (λ x. h x o.expire_at o at)

of_set {ℓ} :
    (P : Typed (Dict (Unit {0})) → Type ℓ) (x : Obj) (e : ℤ)
    → ObjValid x
    → P wrongtype
    → ((x : Dict (Unit {0})) → IsValid x → P (held x e))
    → P (as_set (some (record { obj = x; expire_at = e })))
unfolding as_set
of_set P (str x) e ok w h = w
of_set P (list x) e ok w h = w
of_set P (hash x) e ok w h = w
of_set P (set x) e ok w h = h x ok
of_set P (zset x) e ok w h = w

pub on_set {ℓ} :
    (P : Typed (Dict (Unit {0})) → Type ℓ) (s : Db) (k : Bytes) (o : Option Robj)
    → HoldsValid o
    → Stands s k o
    → P missing
    → P wrongtype
    → ((x : Dict (Unit {0})) (e : ℤ) (old : Robj)
        → view_of s k ≡ some old
        → IsValid x
        → P (held x e))
    → P (as_set o)
unfolding as_set
on_set P s k none ok at m w h = m
on_set P s k (some o) ok at m w h = of_set P o.obj o.expire_at ok w (λ x. h x o.expire_at o at)

of_zset {ℓ} :
    (P : Typed Zset → Type ℓ) (x : Obj) (e : ℤ)
    → ObjValid x
    → P wrongtype
    → ((x : Zset) → ZsetValid x → P (held x e))
    → P (as_zset (some (record { obj = x; expire_at = e })))
unfolding as_zset
of_zset P (str x) e ok w h = w
of_zset P (list x) e ok w h = w
of_zset P (hash x) e ok w h = w
of_zset P (set x) e ok w h = w
of_zset P (zset x) e ok w h = h x ok

pub on_zset {ℓ} :
    (P : Typed Zset → Type ℓ) (s : Db) (k : Bytes) (o : Option Robj)
    → HoldsValid o
    → Stands s k o
    → P missing
    → P wrongtype
    → ((x : Zset) (e : ℤ) (old : Robj) → view_of s k ≡ some old → ZsetValid x → P (held x e))
    → P (as_zset o)
unfolding as_zset
on_zset P s k none ok at m w h = m
on_zset P s k (some o) ok at m w h = of_zset P o.obj o.expire_at ok w (λ x. h x o.expire_at o at)
