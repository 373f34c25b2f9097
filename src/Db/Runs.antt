-- ===== src/Db/Runs.antt =====
-- db.c: the outcome of a command on the live store. The keys that expired and were not dropped yet
-- are no part of it.
use miniredis.Common.{
  Bytes, Option, none, some, ℤ, ◌≡◌, ◌∙◌, refl, inl, inr, if◌then◌else◌, bytes_eq, Bool-cases,
}
use miniredis.Object.{Robj}
use miniredis.Server.Reply.{Client}
use miniredis.Db.{Db, lookup_key, store_set, store_write, store_delete}
use miniredis.Db.Live.{
  ObjValid, DbValid, HoldsValid, alive, live, Becomes, lookup_key-cases, store_set-Becomes,
  store_write-Becomes, store_delete-Becomes, view_of,
}

-- The live store: the object of each key.
abbrev pub Live : Type 0
Live = Bytes → Option Robj

-- The live store with `x` at `k`.
abbrev pub bind : Live → Bytes → Option Robj → Live
bind w k x q = if bytes_eq k q then x else w q

-- The call ends in a valid store with the live contents `w` and in the client `out`.
pub record Runs (now : ℤ) (w : Live) (out : Client) (r : Db × Client) : Type 0 where
  pub valid : DbValid r.0
  pub lives : (q : Bytes) → live now r.0 q ≡ w q
  pub replies : r.1 ≡ out

pub stay :
    (now : ℤ) (s : Db) (c : Client) (w : Live)
    → DbValid s
    → ((q : Bytes) → live now s q ≡ w q)
    → Runs now w c (s, c)
stay now s c w v e = record { valid = v; lives = e; replies = refl }

-- After `lookup_key` the command goes on with the live object and a store of the same contents.
pub after_lookup :
    (now : ℤ) (s : Db) (k : Bytes) (w : Live) (out : Client) (f : Option Robj → Db → Db × Client)
    → DbValid s
    → ((s' : Db)
        → DbValid s'
        → ((q : Bytes) → live now s' q ≡ live now s q)
        → HoldsValid (live now s k)
        → ((o : Robj) → live now s k ≡ some o → view_of s' k ≡ some o)
        → Runs now w out (f (live now s k) s'))
    → Runs now w out (f (lookup_key now s k).0 (lookup_key now s k).1)
after_lookup now s k w out f v h = elim (lookup_key-cases now s v k) [
  | inl (o, e, held, found, ok) ↦
      rw (found, ← e) (h s v (λ q. refl) (rw e ok) (λ o' e'. rw (← e', e) held))
  | inr (s', e, lost, ok, same) ↦ rw (lost, ← e) (h s' ok same (rw e tt) (λ o e'. absurd cc))
]

module _ (now : ℤ) (s : Db) (w : Live) (c : Client) (v : DbValid s)
    (e : (q : Bytes) → live now s q ≡ w q) (k : Bytes) where
  step :
      {x : Option Robj} {s' : Db}
      → Becomes now s k x s'
      → Runs now (bind w k (alive now x)) c (s', c)
  step b = record { valid = b.valid; lives = λ q. rw (← e q) (b.lives q); replies = refl }

  pub sets :
      (o : Robj) → ObjValid o.obj → Runs now (bind w k (alive now (some o))) c (store_set s k o, c)
  sets o ok = step (store_set-Becomes now s v k o ok)

  pub writes :
      (o old : Robj)
      → ObjValid o.obj
      → view_of s k ≡ some old
      → Runs now (bind w k (alive now (some o))) c (store_write s k o, c)
  writes o old ok h = step (store_write-Becomes now s v k o old ok h)

  pub deletes : Runs now (bind w k none) c (store_delete s k, c)
  unfolding alive
  deletes = step (store_delete-Becomes now s v k)

-- Of two bindings of a key the last one stands.
pub rebind :
    (now : ℤ) (w : Live) (k : Bytes) (x y : Option Robj) (out : Client) (r : Db × Client)
    → Runs now (bind (bind w k x) k y) out r
    → Runs now (bind w k y) out r
rebind now w k x y out r ran = record {
  valid = ran.valid;
  lives = λ q.
      ran.lives q
      ∙ elim (Bool-cases (bytes_eq k q)) [ inl same ↦ rw same refl | inr other ↦ rw other refl ];
  replies = ran.replies;
}
