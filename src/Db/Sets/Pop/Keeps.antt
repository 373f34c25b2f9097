-- ===== src/Db/Sets/Pop/Keeps.antt =====
-- db.c: SPOP keeps the store well formed.
use miniredis.Common.{
  ◌≡◌, Bytes, [], ◌∷◌, Option, none, some, ℕ, zero, suc, ℤ, pos, negsuc, c_str, Bool-cases,
  Option-cases, inl, inr, ◌==◌,
}
use miniredis.Object.{Robj}
use miniredis.Server.Reply.{Client}
use miniredis.Util.Number.{string_to_ll}
use miniredis.Dict.{Entry}
use miniredis.Dict.Laws.Valid.{IsValid}
use miniredis.Dict.Laws.Ops.{dict_delete-Writes}
use miniredis.Db.{Db, Env, as_set}
use miniredis.Db.Live.{DbValid, view_of}
use miniredis.Db.Keeps.{Keeps, looked_up, store_write-DbValid, maybe_delete_key-DbValid, on_set}
use miniredis.Dict.{dict_random_entry}
use miniredis.Db.Sets.{Members, write_set}
use miniredis.Db.Sets.Pop.{
  spop_picked, spop_member, spop_loop, spop_one, spop_many, spop_found, spop_counted, cmd_spop,
}

-- The set without the member that was picked.
Popped : Option (Client × Members × (ℕ → ℕ)) → Type 0
Popped none = Unit
Popped (some (c, m, rand)) = IsValid m

spop_picked-Popped :
    (c : Client) (m : Members) (r : Option (Entry (Unit {0})) × (ℕ → ℕ))
    → IsValid m
    → Popped (spop_picked c m r)
unfolding spop_picked Popped
spop_picked-Popped c m (none, rand) ok = tt
spop_picked-Popped c m (some e, rand) ok = (dict_delete-Writes m e.key ok).valid

spop_member-Popped :
    (rand : ℕ → ℕ) (c : Client) (m : Members) → IsValid m → Popped (spop_member rand c m)
unfolding spop_member
spop_member-Popped rand c m ok = spop_picked-Popped c m (dict_random_entry rand m) ok

spop_loop-IsValid :
    (n : ℕ) (rand : ℕ → ℕ) (c : Client) (m : Members) → IsValid m → IsValid (spop_loop n rand c m).1
unfolding spop_loop
spop_loop-IsValid zero rand c m ok = ok
spop_loop-IsValid (suc n) rand c m ok = elim (Option-cases (spop_member rand c m)) [
  | inl empty ↦ rw (spop_loop, empty) ok
  | inr ((c', m', rand'), e) ↦
      let ok' : IsValid m' = unfold Popped in rw e at (spop_member-Popped rand c m ok) in
      rw (spop_loop, e) (spop_loop-IsValid n rand' c' m' ok')
]

spop_one-DbValid :
    (env : Env) (k : Bytes) (s : Db) (c : Client) (m : Members) (e : ℤ) (old : Robj)
    → DbValid s
    → view_of s k ≡ some old
    → IsValid m
    → DbValid (spop_one env k s c m e).0
unfolding spop_one write_set
spop_one-DbValid env k s c m e old v at ok = elim (Option-cases (spop_member env.rand c m)) [
  | inl empty ↦ rw (spop_one, empty) v
  | inr ((c', m', rand'), p) ↦
      let ok' : IsValid m' = unfold Popped in rw p at (spop_member-Popped env.rand c m ok) in
      rw (spop_one, p) (maybe_delete_key-DbValid (store_write-DbValid v k _ old at ok') k _)
]

spop_counted-DbValid :
    (env : Env) (k : Bytes) (s : Db) (c : Client) (n : Option ℤ)
    → DbValid s
    → DbValid (spop_counted env k s c n).0
unfolding spop_counted spop_found spop_many write_set
spop_counted-DbValid env k s c none v = v
spop_counted-DbValid env k s c (some (negsuc n)) v = v
spop_counted-DbValid env k s c (some (pos n)) v =
    looked_up env.now k (λ o s'. spop_found env k n s' c (as_set o)) v
      (λ o s' v' ok at.
        on_set (λ t. DbValid (spop_found env k n s' c t).0) s' k o ok at v' v'
          (λ m e old at' valid. elim (Bool-cases (n == 1)) [
            | inl one ↦ rw one (spop_one-DbValid env k s' c m e old v' at' valid)
            | inr many ↦ rw many (
                maybe_delete_key-DbValid
                  (store_write-DbValid v' k _ old at' (spop_loop-IsValid _ env.rand _ m valid)) k _)
          ]))

pub cmd_spop-Keeps : Keeps cmd_spop
unfolding cmd_spop
cmd_spop-Keeps env (name ∷ key ∷ []) s c v =
    spop_counted-DbValid env (c_str key) s c (some (pos 1)) v
cmd_spop-Keeps env (name ∷ key ∷ n ∷ []) s c v =
    spop_counted-DbValid env (c_str key) s c (string_to_ll n) v
cmd_spop-Keeps env argv s c v = v
