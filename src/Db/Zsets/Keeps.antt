-- ===== src/Db/Zsets/Keeps.antt =====
-- db.c: the commands on members of a sorted set keep the store well formed.
use miniredis.Common.{
  refl, ◌≡◌, Bytes, List, [], ◌∷◌, Option, none, some, ℕ, c_str, Bool-cases, Option-cases, inl, inr,
  ◌&&◌, not, ◌==◌, length,
}
use miniredis.Object.{robj_new_zset}
use miniredis.Server.Reply.{Client}
use miniredis.Db.{Db, Env, as_zset}
use miniredis.Db.Live.{DbValid}
use miniredis.Db.Keeps.{
  Keeps, looked_up, lookup_key-DbValid, store_write-DbValid, set-write-DbValid,
  maybe_delete_key-DbValid, on_zset,
}
use miniredis.Db.Keeps.{either}
use miniredis.Double.{Double, is_nan}
use miniredis.Zset.{Zset, node_of, Added, same_score, new_member, new_score, zset_add, zset_remove}
use miniredis.Zset.Scores.{ZsetValid, zset_create-ZsetValid, zset_add-Scored, zset_remove-Scored}
use miniredis.Db.Strings.{pairs_of}
use miniredis.Db.Doubles.{parse_double}
use miniredis.Db.Zsets.{
  write_zset, Flags, no_flags, zadd_flags, Adding, count_added, skips, zadd_member, raised,
  incr_member, zadd_incr, zadd_loop, zadd_into, zadd_found, zadd_pairs, cmd_zadd, cmd_zcard,
  cmd_zscore, zrem_loop, zrem_found, cmd_zrem, cmd_zrank, cmd_zrevrank, zincrby_into, zincrby_found,
  zincrby_inc, cmd_zincrby,
}

zset_add-ZsetValid :
    (rand : ℕ → ℕ) (z : Zset) (score : Double) (m : Bytes)
    → ZsetValid z
    → ZsetValid (zset_add rand z score m).1
zset_add-ZsetValid rand z score m ok = (zset_add-Scored rand score m z ok).1.valid

zset_remove-ZsetValid : (z : Zset) (m : Bytes) → ZsetValid z → ZsetValid (zset_remove z m).1
zset_remove-ZsetValid z m ok = (zset_remove-Scored m z ok).1.valid

count_added-set : (how : Added) (l : Adding) → (count_added how l).set ≡ l.set
unfolding count_added
count_added-set same_score l = refl
count_added-set new_member l = refl
count_added-set new_score l = refl

zadd_member-ZsetValid :
    (f : Flags) (score : Double) (m : Bytes) (l : Adding)
    → ZsetValid l.set
    → ZsetValid (zadd_member f score m l).set
unfolding zadd_member
zadd_member-ZsetValid f score m l ok = elim (Bool-cases (skips f (node_of l.set m))) [
  | inl skip ↦ rw skip ok
  | inr add ↦ rw (add, count_added-set) (zset_add-ZsetValid l.rand l.set score m ok)
]

incr_member-ZsetValid :
    (env : Env) (z : Zset) (inc : Double) (m : Bytes) (c : Client)
    → ZsetValid z
    → ZsetValid (incr_member env z inc m c).0
unfolding incr_member
incr_member-ZsetValid env z inc m c ok =
    let new = raised env z (node_of z m) inc in
    elim (Bool-cases (is_nan new)) [
      | inl bad ↦ rw bad ok
      | inr fine ↦ rw fine (zset_add-ZsetValid env.rand z new m ok)
    ]

zadd_incr-ZsetValid :
    (env : Env) (f : Flags) (score : Double) (m : Bytes) (z : Zset) (c : Client)
    → ZsetValid z
    → ZsetValid (zadd_incr env f score m z c).0
unfolding zadd_incr
zadd_incr-ZsetValid env f score m z c ok = elim (Bool-cases (skips f (node_of z m))) [
  | inl skip ↦ rw skip ok
  | inr add ↦ rw add (incr_member-ZsetValid env z score m c ok)
]

zadd_loop-ZsetValid :
    (env : Env) (f : Flags) (ps : List (Bytes × Bytes)) (l : Adding) (c : Client)
    → ZsetValid l.set
    → ZsetValid (zadd_loop env f ps l c).0
unfolding zadd_loop
zadd_loop-ZsetValid env f [] l c ok = ok
zadd_loop-ZsetValid env f ((a, m) ∷ ps) l c ok =
    elim (Option-cases (parse_double env.libm (c_str a))) [
      | inl bad ↦ rw (zadd_loop, bad) ok
      | inr (score, e) ↦
          rw (zadd_loop, e)
            (either (λ (r : Zset × Client). ZsetValid r.0) f.incr
              (zadd_incr-ZsetValid env f score (c_str m) l.set c ok)
              (zadd_loop-ZsetValid env f ps _ c (zadd_member-ZsetValid f score (c_str m) l ok)))
    ]

zadd_pairs-DbValid :
    (env : Env) (f : Flags) (k : Bytes) (s : Db) (c : Client) (ps : Option (List (Bytes × Bytes)))
    → DbValid s
    → DbValid (zadd_pairs env f k s c ps).0
unfolding zadd_pairs zadd_found zadd_into write_zset robj_new_zset
zadd_pairs-DbValid env f k s c none v = v
zadd_pairs-DbValid env f k s c (some []) v = v
zadd_pairs-DbValid env f k s c (some (p ∷ ps)) v =
    let fresh = (zset_create-ZsetValid env.seed).0 in
    either (λ (r : Db × Client). DbValid r.0) (f.incr && not (length ps == 0)) v
      (looked_up env.now k (λ o s'. zadd_found env f k (p ∷ ps) s' c (as_zset o)) v
        (λ o s' v' ok at.
          on_zset (λ t. DbValid (zadd_found env f k (p ∷ ps) s' c t).0) s' k o ok at
            (either (λ (r : Db × Client). DbValid r.0) f.xx v'
              (set-write-DbValid k _ _ v' fresh (zadd_loop-ZsetValid env f (p ∷ ps) _ c fresh)))
            v'
            (λ z e old at' valid.
              store_write-DbValid v' k _ old at' (zadd_loop-ZsetValid env f (p ∷ ps) _ c valid))))

pub cmd_zadd-Keeps : Keeps cmd_zadd
unfolding cmd_zadd
cmd_zadd-Keeps env (name ∷ key ∷ a ∷ b ∷ rest) s c v =
    let r = zadd_flags (a ∷ b ∷ rest) no_flags in
    either (λ (r : Db × Client). DbValid r.0) (r.0.nx && r.0.xx) v
      (zadd_pairs-DbValid env r.0 (c_str key) s c (pairs_of r.1) v)
cmd_zadd-Keeps env argv s c v = v

pub cmd_zcard-Keeps : Keeps cmd_zcard
unfolding cmd_zcard
cmd_zcard-Keeps env (name ∷ key ∷ []) s c v = lookup_key-DbValid env.now (c_str key) v
cmd_zcard-Keeps env argv s c v = v

pub cmd_zscore-Keeps : Keeps cmd_zscore
unfolding cmd_zscore
cmd_zscore-Keeps env (name ∷ key ∷ m ∷ []) s c v = lookup_key-DbValid env.now (c_str key) v
cmd_zscore-Keeps env argv s c v = v

zrem_loop-ZsetValid :
    (ms : List Bytes) (n : ℕ) (z : Zset) → ZsetValid z → ZsetValid (zrem_loop ms n z).1
unfolding zrem_loop
zrem_loop-ZsetValid [] n z ok = ok
zrem_loop-ZsetValid (m ∷ ms) n z ok =
    zrem_loop-ZsetValid ms _ _ (zset_remove-ZsetValid z (c_str m) ok)

pub cmd_zrem-Keeps : Keeps cmd_zrem
unfolding cmd_zrem zrem_found write_zset
cmd_zrem-Keeps env (name ∷ key ∷ m ∷ ms) s c v =
    let k = c_str key in
    looked_up env.now k (λ o s'. zrem_found k (m ∷ ms) s' c (as_zset o)) v
      (λ o s' v' ok at.
        on_zset (λ t. DbValid (zrem_found k (m ∷ ms) s' c t).0) s' k o ok at v' v'
          (λ z e old at' valid.
            maybe_delete_key-DbValid
              (store_write-DbValid v' k _ old at' (zrem_loop-ZsetValid (m ∷ ms) 0 z valid)) k _))
cmd_zrem-Keeps env argv s c v = v

pub cmd_zrank-Keeps : Keeps cmd_zrank
unfolding cmd_zrank
cmd_zrank-Keeps env (name ∷ key ∷ m ∷ []) s c v = lookup_key-DbValid env.now (c_str key) v
cmd_zrank-Keeps env argv s c v = v

pub cmd_zrevrank-Keeps : Keeps cmd_zrevrank
unfolding cmd_zrevrank
cmd_zrevrank-Keeps env (name ∷ key ∷ m ∷ []) s c v = lookup_key-DbValid env.now (c_str key) v
cmd_zrevrank-Keeps env argv s c v = v

zincrby_inc-DbValid :
    (env : Env) (k m : Bytes) (s : Db) (c : Client) (inc : Option Double)
    → DbValid s
    → DbValid (zincrby_inc env k m s c inc).0
unfolding zincrby_inc zincrby_found zincrby_into write_zset robj_new_zset
zincrby_inc-DbValid env k m s c none v = v
zincrby_inc-DbValid env k m s c (some inc) v =
    let fresh = (zset_create-ZsetValid env.seed).0 in
    looked_up env.now k (λ o s'. zincrby_found env k inc m s' c (as_zset o)) v
      (λ o s' v' ok at.
        on_zset (λ t. DbValid (zincrby_found env k inc m s' c t).0) s' k o ok at
          (set-write-DbValid k _ _ v' fresh (incr_member-ZsetValid env _ inc m c fresh)) v'
          (λ z e old at' valid.
            store_write-DbValid v' k _ old at' (incr_member-ZsetValid env z inc m c valid)))

pub cmd_zincrby-Keeps : Keeps cmd_zincrby
unfolding cmd_zincrby
cmd_zincrby-Keeps env (name ∷ key ∷ inc ∷ m ∷ []) s c v =
    zincrby_inc-DbValid env (c_str key) (c_str m) s c (parse_double env.libm (c_str inc)) v
cmd_zincrby-Keeps env argv s c v = v
