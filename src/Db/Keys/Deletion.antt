-- ===== src/Db/Keys/Deletion.antt =====
-- db.c: the keys that DEL removes and counts, and EXISTS.
use miniredis.Common.{
  ℕ, ◌+◌, Bytes, Bool, true, false, Option, none, some, List, [], ◌∷◌, pos, ◌≡◌, ◌∙◌, refl, ap, inl,
  inr, if◌then◌else◌, bytes_eq, c_str, Bool-cases, arith, ◌||◌,
}
use miniredis.Object.{Robj}
use miniredis.Dict.{dict_delete}
use miniredis.Dict.Laws.Ops.{dict_delete-Writes}
use miniredis.Server.Reply.{Client, reply_integer}
use miniredis.Db.{Db, Env, key_expired, one_more, store_delete}
use miniredis.Db.Live.{DbValid, alive, live, view_of, lookup_key-cases, store_delete-Becomes}
use miniredis.Db.Keys.{del_loop, cmd_del, exists_loop, cmd_exists}

-- `q` is one of the keys.
abbrev pub named : Bytes → List Bytes → Bool
named q [] = false
named q (k ∷ ks) = bytes_eq (c_str k) q || named q ks

abbrev held : Option Robj → ℕ
held none = 0
held (some o) = 1

-- The keys that the store holds, each counted once.
unfoldable pub held_keys : (Bytes → Option Robj) → List Bytes → ℕ
held_keys w [] = 0
held_keys w (k ∷ ks) =
    held (w (c_str k)) + held_keys (λ q. if bytes_eq (c_str k) q then none else w q) ks

held_keys-cong :
    (ks : List Bytes) (w u : Bytes → Option Robj)
    → ((q : Bytes) → w q ≡ u q)
    → held_keys w ks ≡ held_keys u ks
unfolding held_keys
held_keys-cong [] w u e = refl
held_keys-cong (k ∷ ks) w u e =
    rw (e (c_str k)) (ap (λ n. held (u (c_str k)) + n) (held_keys-cong ks _ _ (λ q. rw (e q) refl)))

one_more-held : (n : ℕ) (o : Option Robj) → one_more n o ≡ n + held o
one_more-held n none = omega arith
one_more-held n (some o) = refl

pub named-cases {ℓ} :
    {A : Type ℓ} (q key : Bytes) (ks : List Bytes) (x before after : A)
    → after ≡ (if bytes_eq key q then x else before)
    → (if named q ks then x else after) ≡ (if bytes_eq key q || named q ks then x else before)
named-cases q key ks x before after e = elim (Bool-cases (named q ks)) [
  | inl in_rest ↦ elim (Bool-cases (bytes_eq key q)) [
    | inl same ↦ rw (in_rest, same) refl
    | inr other ↦ rw (in_rest, other) refl
  ]
  | inr out ↦
      rw (out, e)
        (elim (Bool-cases (bytes_eq key q)) [ inl same ↦ rw same refl | inr other ↦ rw other refl ])
]

-- On a valid store, the loop of DEL adds to its count the number of distinct named keys that the
-- store holds, expired or not, and leaves a valid store that holds no named key and holds the other
-- keys as before.
pub del_loop_lem :
    (ks : List Bytes) (n : ℕ) (s : Db)
    → DbValid s
    → let r = del_loop ks n s in
      (r.0 ≡ n + held_keys (view_of s) ks)
      × DbValid r.1
      × ((q : Bytes) → view_of r.1 q ≡ (if named q ks then none else view_of s q))
unfolding del_loop held_keys store_delete
del_loop_lem [] n s v = (omega arith, v, λ q. refl)
del_loop_lem (k ∷ ks) n s v =
    let key = c_str k in
    let w = dict_delete-Writes s.d key v.keys in
    let s' = store_delete s key in
    let ok : DbValid s' = (store_delete-Becomes (pos 0) s v key).valid in
    let (count, valid, views) = del_loop_lem ks (one_more n (dict_delete s.d key).0) s' ok in
    let first : one_more n (dict_delete s.d key).0 ≡ n + held (view_of s key) =
      ap (one_more n) w.returns ∙ one_more-held n (view_of s key) in
    (
      count
          ∙ omega (
            arith,
            first,
            held_keys-cong ks (view_of s') (λ q. if bytes_eq key q then none else view_of s q)
                w.views,
          ),
      valid,
      λ q. views q ∙ named-cases q key ks none (view_of s q) (view_of s' q) (w.views q),
    )

-- On a valid store, DEL of a key that expired and was not dropped yet replies 1, where EXISTS
-- replies 0.
pub cmd_del-expired :
    (env : Env) (name key : Bytes) (o : Robj) (s : Db) (c : Client)
    → DbValid s
    → view_of s (c_str key) ≡ some o
    → key_expired env.now o ≡ true
    → ((cmd_del env (name ∷ key ∷ []) s c).1 ≡ reply_integer c (pos 1))
      × ((cmd_exists env (name ∷ key ∷ []) s c).1 ≡ reply_integer c (pos 0))
unfolding cmd_del cmd_exists exists_loop live alive
cmd_del-expired env name key o s c v there old =
    let count = (del_loop_lem (key ∷ []) 0 s v).0 in
    (
      ap (λ n. reply_integer c (pos n)) (count ∙ unfold held_keys in rw there refl),
      elim (lookup_key-cases env.now s v (c_str key)) [
        | inl (x, lives, _, _, _) ↦ let h : none ≡ some x = rw (there, old) at lives in cc
        | inr (s', _, lost, _, _) ↦ rw lost refl
      ],
    )
