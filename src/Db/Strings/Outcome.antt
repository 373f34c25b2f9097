-- ===== src/Db/Strings/Outcome.antt =====
-- db.c: what the string commands do to the live store.
use miniredis.Common.{
  Bytes, Bool, ◌&&◌, ◌||◌, not, Option, none, some, List, [], ◌∷◌, ℤ, pos, ◌≡◌, ◌≢◌, refl, inl, inr,
  if◌then◌else◌, bytes, c_str, Bool-cases, Option-cases, bytes_eq-false,
}
use miniredis.Object.{str, Robj, robj_new_string}
use miniredis.Server.Reply.{Client, reply_error, reply_simple, reply_null, reply_integer}
use miniredis.Db.{Db, Env, store_set, store_delete, key_expired, as_string}
use miniredis.Db.Live.{DbValid, alive, live, alive-live}
use miniredis.Db.Runs.{Live, bind, Runs, stay, after_lookup, sets, deletes}
use miniredis.Db.Strings.{cmd_get, get_reply, cmd_setnx, setnx_found, cmd_rename, rename_found}
use miniredis.Db.Strings.Set.{
  SetOptions, options, defaults, set_options, cmd_set, expiry_after, is_some,
}

-- GET replies the live string and leaves the live store.
pub cmd_get-Runs :
    (env : Env) (name key : Bytes) (s : Db) (c : Client)
    → DbValid s
    → Runs env.now
        (live env.now s)
        (get_reply c (as_string (live env.now s (c_str key))))
        (cmd_get env (name ∷ key ∷ []) s c)
unfolding cmd_get
cmd_get-Runs env name key s c v =
    after_lookup env.now s (c_str key) _ _ (λ o s'. (s', get_reply c (as_string o))) v
      (λ s' v' e ok h. stay env.now s' _ _ v' e)

-- NX and XX refuse.
unfoldable pub refused : SetOptions → Option Robj → Bool
refused o existing = (o.nx && is_some existing) || (o.xx && not (is_some existing))

abbrev pub new_string : ℤ → Bytes → SetOptions → Robj
new_string now val o = record { obj = str val; expire_at = expiry_after now o.expire_ms }

unfoldable pub set_outcome : ℤ → Bytes → Bytes → SetOptions → Live → Client → Live × Client
set_outcome now key val o w c =
    if o.nx && o.xx
    then (w, reply_error c (bytes "syntax error"))
    else if refused o (w key)
    then (w, reply_null c)
    else (bind w key (alive now (some (new_string now val o))), reply_simple c (bytes "OK"))

-- On a valid store and with options that parse, SET refuses NX with XX as a syntax error, replies
-- null and leaves the live store where NX meets a live key or XX meets none, and else binds the key
-- to the new string with its expiry and replies OK; the store stays valid.
pub cmd_set-Runs :
    (env : Env) (name key val : Bytes) (opts : List Bytes) (o : SetOptions) (s : Db) (c : Client)
    → DbValid s
    → set_options env defaults opts ≡ options o
    → let r = set_outcome env.now (c_str key) (c_str val) o (live env.now s) c in
      Runs env.now r.0 r.1 (cmd_set env (name ∷ key ∷ val ∷ opts) s c)
unfolding cmd_set set_outcome refused
cmd_set-Runs env name key val opts o s c v parsed = rw parsed (
    after_lookup env.now s (c_str key) _ _
      (λ existing s'.
        if o.nx && o.xx
        then (s, reply_error c (bytes "syntax error"))
        else if (o.nx && is_some existing) || (o.xx && not (is_some existing))
        then (s', reply_null c)
        else (
          store_set s' (c_str key) (new_string env.now (c_str val) o),
          reply_simple c (bytes "OK"),
        ))
      v
      (λ s' v' e ok h. elim (Bool-cases (o.nx && o.xx)) [
        | inl both ↦ rw both (stay env.now s _ _ v (λ q. refl))
        | inr one ↦ elim (Bool-cases (refused o (live env.now s (c_str key)))) [
          | inl denied ↦ rw (one, denied) (stay env.now s' _ _ v' e)
          | inr granted ↦
              rw (one, granted)
                (sets env.now s' (live env.now s) _ v' e (c_str key)
                  (new_string env.now (c_str val) o) tt)
        ]
      ]))

-- On a valid store, SETNX binds a key that is not live to the value without expiry and replies 1,
-- and leaves a live key and replies 0; the store stays valid.
pub cmd_setnx-Runs :
    (env : Env) (name key val : Bytes) (s : Db) (c : Client)
    → DbValid s
    → let w = live env.now s in
      let k = c_str key in
      let taken = is_some (w k) in
      Runs env.now
        (if taken then w else bind w k (some (robj_new_string (c_str val))))
        (reply_integer c (if taken then pos 0 else pos 1))
        (cmd_setnx env (name ∷ key ∷ val ∷ []) s c)
unfolding cmd_setnx alive robj_new_string key_expired
cmd_setnx-Runs env name key val s c v =
    after_lookup env.now s (c_str key) _ _ (λ o s'. setnx_found (c_str key) (c_str val) s' c o) v
      (λ s' v' e ok h. elim (Option-cases (live env.now s (c_str key))) [
        | inl gone ↦
            rw gone
              (sets env.now s' (live env.now s) _ v' e (c_str key) (robj_new_string (c_str val)) tt)
        | inr (o, there) ↦ rw there (stay env.now s' _ _ v' e)
      ])

unfoldable pub rename_outcome : Bytes → Bytes → Live → Client → Option Robj → Live × Client
rename_outcome src dst w c none = (w, reply_error c (bytes "no such key"))
rename_outcome src dst w c (some o) =
    (bind (bind w src none) dst (some o), reply_simple c (bytes "OK"))

-- On a valid store and for two names that differ as C strings, RENAME moves the live object with
-- its expiry from the source to the destination and replies OK, or is an error and leaves the live
-- store where the source is not live; the store stays valid.
pub cmd_rename-Runs :
    (env : Env) (name src dst : Bytes) (s : Db) (c : Client)
    → DbValid s
    → c_str src ≢ c_str dst
    → let r =
        rename_outcome (c_str src) (c_str dst) (live env.now s) c (live env.now s (c_str src)) in
      Runs env.now r.0 r.1 (cmd_rename env (name ∷ src ∷ dst ∷ []) s c)
unfolding cmd_rename rename_outcome
cmd_rename-Runs env name src dst s c v apart =
    let distinct = bytes_eq-false (c_str src) (c_str dst) apart in
    let w = live env.now s in
    rw distinct (
      after_lookup env.now s (c_str src) _ _ (λ o s'. rename_found (c_str src) (c_str dst) s' c o) v
        (λ s' v' e ok h. elim (Option-cases (w (c_str src))) [
          | inl gone ↦ rw gone (stay env.now s' _ _ v' e)
          | inr (o, there) ↦
              let d = deletes env.now s' w c v' e (c_str src) in
              rw (there, ← alive-live env.now s (c_str src) o there)
                (sets env.now (store_delete s' (c_str src)) _ _ d.valid d.lives (c_str dst) o
                  (rw there at ok))
        ]))
