-- ===== src/Db/Lists/Keeps.antt =====
-- db.c: the pushes and pops keep the store well formed.
use miniredis.Common.{
  ◌≡◌, Bytes, Bool, List, [], ◌∷◌, Option, none, some, ℤ, pos, negsuc, c_str, Bool-cases, inl, inr,
  ◌==◌,
}
use miniredis.Object.{Robj, robj_new_list}
use miniredis.Server.Reply.{Client}
use miniredis.Util.Number.{string_to_ll}
use miniredis.Db.{Db, Env, as_list}
use miniredis.Db.Live.{DbValid, view_of}
use miniredis.Db.Keeps.{
  Keeps, looked_up, lookup_key-DbValid, store_write-DbValid, set-write-DbValid,
  maybe_delete_key-DbValid, on_list,
}
use miniredis.Db.Lists.{
  cmd_push, push_found, push_onto, cmd_pop, pop_counted, pop_found, pop_one, pop_many, list_pop,
  cmd_llen, write_list,
}

pub cmd_push-Keeps : (head xx : Bool) → Keeps (cmd_push head xx)
unfolding cmd_push push_found push_onto write_list robj_new_list
cmd_push-Keeps head xx env (name ∷ key ∷ x ∷ xs) s c v =
    let k = c_str key in
    looked_up env.now k (λ o s'. push_found head xx k (x ∷ xs) s' c (as_list o)) v
      (λ o s' v' ok at.
        on_list (λ t. DbValid (push_found head xx k (x ∷ xs) s' c t).0) s' k o ok at
          (elim (Bool-cases xx) [
            | inl only ↦ rw only v'
            | inr make ↦ rw make (set-write-DbValid k _ _ v' tt tt)
          ])
          v' (λ l e old at'. store_write-DbValid v' k _ old at' tt))
cmd_push-Keeps head xx env [] s c v = v
cmd_push-Keeps head xx env (name ∷ []) s c v = v
cmd_push-Keeps head xx env (name ∷ key ∷ []) s c v = v

pop_one-DbValid :
    (k : Bytes) (s : Db) (c : Client) (l : List Bytes) (e : ℤ) (r : Option (Bytes × List Bytes))
    (old : Robj)
    → DbValid s
    → view_of s k ≡ some old
    → DbValid (pop_one k s c l e r).0
unfolding pop_one write_list
pop_one-DbValid k s c l e none old v at = maybe_delete_key-DbValid v k _
pop_one-DbValid k s c l e (some r) old v at =
    maybe_delete_key-DbValid (store_write-DbValid v k _ old at tt) k _

pop_counted-DbValid :
    (head : Bool) (env : Env) (k : Bytes) (s : Db) (c : Client) (n : Option ℤ)
    → DbValid s
    → DbValid (pop_counted head env k s c n).0
unfolding pop_counted pop_found pop_many write_list
pop_counted-DbValid head env k s c none v = v
pop_counted-DbValid head env k s c (some (negsuc n)) v = v
pop_counted-DbValid head env k s c (some (pos n)) v =
    looked_up env.now k (λ o s'. pop_found head n k s' c (as_list o)) v
      (λ o s' v' ok at.
        on_list (λ t. DbValid (pop_found head n k s' c t).0) s' k o ok at v' v'
          (λ l e old at'. elim (Bool-cases (n == 1)) [
            | inl one ↦ rw one (pop_one-DbValid k s' c l e (list_pop head l) old v' at')
            | inr many ↦
                rw many (maybe_delete_key-DbValid (store_write-DbValid v' k _ old at' tt) k _)
          ]))

pub cmd_pop-Keeps : (head : Bool) → Keeps (cmd_pop head)
unfolding cmd_pop
cmd_pop-Keeps head env (name ∷ key ∷ []) s c v =
    pop_counted-DbValid head env (c_str key) s c (some (pos 1)) v
cmd_pop-Keeps head env (name ∷ key ∷ count ∷ []) s c v =
    pop_counted-DbValid head env (c_str key) s c (string_to_ll count) v
cmd_pop-Keeps head env [] s c v = v
cmd_pop-Keeps head env (name ∷ []) s c v = v
cmd_pop-Keeps head env (name ∷ key ∷ count ∷ x ∷ argv) s c v = v

pub cmd_llen-Keeps : Keeps cmd_llen
unfolding cmd_llen
cmd_llen-Keeps env (name ∷ key ∷ []) s c v = lookup_key-DbValid env.now (c_str key) v
cmd_llen-Keeps env argv s c v = v
