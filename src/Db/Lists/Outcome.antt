-- ===== src/Db/Lists/Outcome.antt =====
-- db.c `list_push` and `list_pop`: what they do to the live store.
use miniredis.Common.{
  ℕ, Bytes, Bool, Option, none, some, List, [], ◌∷◌, ℤ, pos, ◌≡◌, refl, inl, inr, if◌then◌else◌,
  c_str, Bool-cases, Option-cases, length, ◌==◌, min, arith, ap,
}
use miniredis.Object.{list, Robj, robj_new_list, never}
use miniredis.Util.Number.{string_to_ll}
use miniredis.Server.Reply.{Client, reply_integer, reply_null, reply_bulk, reply_array_header}
use miniredis.Db.{
  Db, Env, as_list, Typed, missing, wrongtype, held, reply_wrongtype, key_expired, maybe_delete_key,
  is_empty, store_set,
}
use miniredis.Db.Live.{
  DbValid, alive, live, view_of, alive-live, alive-like, as_list-cases, store_set-view,
}
use miniredis.Db.Runs.{Live, bind, Runs, rebind, stay, after_lookup, sets, writes, deletes}
use miniredis.Db.Lists.Ends.{
  empty-of_list_pop, with_pushed, ends_of, left_of, push_loop-with_pushed, pop_loop-ends_of,
  list_pop-ends_of, ends_of-nil,
}
use miniredis.Db.Lists.{
  push_loop, list_pop, pop_loop, write_list, reply_bulks, cmd_push, push_found, push_onto, cmd_pop,
  pop_counted, pop_found, pop_one, pop_many,
}

abbrev pub list_object : List Bytes → ℤ → Robj
list_object l e = record { obj = list l; expire_at = e }

-- A list that became empty is gone with its key.
abbrev pub settled : List Bytes → ℤ → Option Robj
settled l e = if length l == 0 then none else some (list_object l e)

pushed : Bool → Bytes → List Bytes → Live → Client → List Bytes → ℤ → Live × Client
pushed head key vs w c l e =
    let l' = with_pushed head vs l in
    (bind w key (some (list_object l' e)), reply_integer c (pos (length l')))

unfoldable pub push_outcome :
    Bool → Bool → Bytes → List Bytes → Live → Client → Typed (List Bytes) → Live × Client
unfolding pushed
push_outcome head xx key vs w c wrongtype = (w, reply_wrongtype c)
push_outcome head xx key vs w c missing =
    if xx then (w, reply_integer c (pos 0)) else pushed head key vs w c [] never
push_outcome head xx key vs w c (held l e) = pushed head key vs w c l e

module _ (now : ℤ) (key : Bytes) (w : Live) (s' : Db) (ok : DbValid s')
    (same : (q : Bytes) → live now s' q ≡ w q) where
  -- A write of a list over an object that is live and held.
  put_list :
      (c : Client) (o : Robj) (l : List Bytes)
      → alive now (some o) ≡ some o
      → view_of s' key ≡ some o
      → Runs now
          (bind w key (some (list_object l o.expire_at)))
          c
          (write_list s' key l o.expire_at, c)
  unfolding write_list
  put_list c o l lives there =
      rw (← alive-like now o (list l) lives)
        (writes now s' w c ok same key (list_object l o.expire_at) o tt there)

push_new :
    (now : ℤ) (key : Bytes) (w : Live) (s' : Db) (head : Bool) (vs : List Bytes) (c : Client)
    → DbValid s'
    → ((q : Bytes) → live now s' q ≡ w q)
    → let r = pushed head key vs w c [] never in
      Runs now r.0 r.1 (push_onto head key vs (store_set s' key robj_new_list) c [] never)
unfolding pushed push_onto robj_new_list alive key_expired
push_new now key w s' head vs c ok same =
    let listed = push_loop-with_pushed head vs [] in
    let made = sets now s' w c ok same key robj_new_list tt in
    rw (← listed) (
      rebind now w key _ _ _ _ (
        put_list now key (bind w key (some robj_new_list)) (store_set s' key robj_new_list)
          made.valid made.lives _ robj_new_list (push_loop head vs []) refl
          (store_set-view now s' ok key robj_new_list)))

-- On a valid store, a push of at least one element replies WRONGTYPE for another type, replies 0
-- for a missing key where the key must exist, each with the live store unchanged, and else puts the
-- arguments, as C strings, behind the list in their order, or before it in the opposite order, with
-- the expiry that the list had, a new list without expiry where there was none, and replies its
-- length; the store stays valid.
pub cmd_push-Runs :
    (head xx : Bool) (env : Env) (name key v : Bytes) (vs : List Bytes) (s : Db) (c : Client)
    → DbValid s
    → let w = live env.now s in
      let r = push_outcome head xx (c_str key) (v ∷ vs) w c (as_list (w (c_str key))) in
      Runs env.now r.0 r.1 (cmd_push head xx env (name ∷ key ∷ v ∷ vs) s c)
unfolding cmd_push push_outcome push_found push_onto pushed as_list
cmd_push-Runs head xx env name key v vs s c valid =
    let w = live env.now s in
    let k = c_str key in
    after_lookup env.now s k _ _ (λ o s'. push_found head xx k (v ∷ vs) s' c (as_list o)) valid
      (λ s' ok same holds there. elim (Option-cases (w k)) [
        | inl gone ↦ elim (Bool-cases xx) [
          | inl only ↦ rw (gone, only) (stay env.now s' _ w ok same)
          | inr fresh ↦ rw (gone, fresh) (push_new env.now k w s' head (v ∷ vs) c ok same)
        ]
        | inr (o, found) ↦
            let lives = alive-live env.now s k o found in
            elim (as_list-cases o.obj) [
              | inr other ↦ rw (found, other o.expire_at) (stay env.now s' _ w ok same)
              | inl (l, is_list) ↦
                  rw (found, is_list, ← push_loop-with_pushed head (v ∷ vs) l)
                    (put_list env.now k w s' ok same _ o (push_loop head (v ∷ vs) l) lives
                      (there o found))
            ]
      ])

-- `maybe_delete_key` after a write of the list.
settle :
    (now : ℤ) (key : Bytes) (w : Live) (s' : Db) (c : Client) (o : Robj) (l : List Bytes)
    → DbValid s'
    → ((q : Bytes) → live now s' q ≡ w q)
    → alive now (some o) ≡ some o
    → view_of s' key ≡ some o
    → Runs now
        (bind w key (settled l o.expire_at))
        c
        (maybe_delete_key (write_list s' key l o.expire_at) key (list l), c)
unfolding maybe_delete_key is_empty
settle now key w s' c o l ok same lives there =
    let put = put_list now key w s' ok same c o l lives there in
    elim (Bool-cases (length l == 0)) [
      | inl empty ↦ rw empty (
          rebind now w key _ _ _ _
            (deletes now (write_list s' key l o.expire_at) _ c put.valid put.lives key))
      | inr filled ↦ rw filled put
    ]

one_popped : Bytes → Live → Client → ℤ → List Bytes → List Bytes → Live × Client
one_popped key w c e [] left = (bind w key none, reply_null c)
one_popped key w c e (v ∷ vs) left = (bind w key (settled left e), reply_bulk c v)

many_popped : Bytes → Live → Client → ℤ → List Bytes → List Bytes → Live × Client
many_popped key w c e vs left =
    (bind w key (settled left e), reply_bulks (reply_array_header c (length vs)) vs)

unfoldable pub pop_outcome : Bool → ℕ → Bytes → Live → Client → Typed (List Bytes) → Live × Client
unfolding one_popped many_popped
pop_outcome head count key w c wrongtype = (w, reply_wrongtype c)
pop_outcome head count key w c missing = (w, reply_null c)
pop_outcome head count key w c (held l e) =
    let n = min count (length l) in
    if count == 1
    then one_popped key w c e (ends_of head n l) (left_of head n l)
    else many_popped key w c e (ends_of head n l) (left_of head n l)

pop_held :
    (now : ℤ) (key : Bytes) (w : Live) (s' : Db) (head : Bool) (count : ℕ) (c : Client) (o : Robj)
    (l : List Bytes)
    → DbValid s'
    → ((q : Bytes) → live now s' q ≡ w q)
    → alive now (some o) ≡ some o
    → view_of s' key ≡ some o
    → let r = pop_outcome head count key w c (held l o.expire_at) in
      Runs now r.0 r.1 (pop_found head count key s' c (held l o.expire_at))
unfolding pop_outcome pop_found pop_one pop_many one_popped many_popped
pop_held now key w s' head count c o l ok same lives there =
    let n = min count (length l) in
    let looped = pop_loop-ends_of head n l (omega arith) in
    elim (Bool-cases (count == 1)) [
      | inr many ↦
          rw (many, ← ap (λ p. p.0) looped, ← ap (λ p. p.1) looped)
            (settle now key w s' _ o (pop_loop head n l).1 ok same lives there)
      | inl one ↦
          let count_is : count ≡ 1 = ground (arith, one) in
          elim (Option-cases (list_pop head l)) [
            | inr (r, popped) ↦
                let (ends, left) = list_pop-ends_of head l r popped in
                rw (one, count_is, ends, left, popped)
                  (settle now key w s' _ o r.1 ok same lives there)
            | inl empty ↦
                let gone = empty-of_list_pop head l empty in
                rw (one, empty, gone, ends_of-nil head (min count 0))
                  (unfold maybe_delete_key is_empty in deletes now s' w _ ok same key)
          ]
    ]

-- On a valid store and with a count that parses, LPOP and RPOP reply WRONGTYPE for another type and
-- null for a missing key, each with the live store unchanged, and else reply as many elements as
-- are asked for and there are, the first ones in their order or the last ones in the opposite
-- order, as one bulk for a count of 1 and else as an array, and leave the others in their order
-- with the expiry, or no key where nothing is left; the store stays valid.
pub cmd_pop-Runs :
    (head : Bool) (env : Env) (name key arg : Bytes) (count : ℕ) (s : Db) (c : Client)
    → DbValid s
    → string_to_ll arg ≡ some (pos count)
    → let w = live env.now s in
      let r = pop_outcome head count (c_str key) w c (as_list (w (c_str key))) in
      Runs env.now r.0 r.1 (cmd_pop head env (name ∷ key ∷ arg ∷ []) s c)
unfolding cmd_pop pop_counted as_list
cmd_pop-Runs head env name key arg count s c valid parsed =
    let w = live env.now s in
    let k = c_str key in
    rw parsed (
      after_lookup env.now s k _ _ (λ o s'. pop_found head count k s' c (as_list o)) valid
        (λ s' ok same holds there. elim (Option-cases (w k)) [
          | inl gone ↦ rw gone (unfold pop_outcome pop_found in stay env.now s' _ w ok same)
          | inr (o, found) ↦
              let lives = alive-live env.now s k o found in
              elim (as_list-cases o.obj) [
                | inr other ↦
                    rw (found, other o.expire_at)
                      (unfold pop_outcome pop_found in stay env.now s' _ w ok same)
                | inl (l, is_list) ↦
                    rw (found, is_list)
                      (pop_held env.now k w s' head count c o l ok same lives (there o found))
              ]
        ]))
