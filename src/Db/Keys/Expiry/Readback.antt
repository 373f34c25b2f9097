-- ===== src/Db/Keys/Expiry/Readback.antt =====
-- db.c: EXPIRE and PEXPIRE followed by TTL and PTTL.
use miniredis.Common.{
  ℕ, ◌+◌, ◌-◌, ◌≤◌, Bytes, Bool, true, some, [], ◌∷◌, pos, negsuc, ◌≤ℤ◌, ◌≡◌, ◌≢◌, ◌∙◌, refl, sym,
  ap, if◌then◌else◌, c_str, bytes_eq_refl, bytes_eq-false, arith, ll_max, wrap_ll, ◌-ℤ◌, ◌+ℤ◌, leb,
}
use miniredis.Object.{Robj}
use miniredis.Util.Number.{string_to_ll}
use miniredis.Server.Reply.{Client, reply_integer}
use miniredis.Db.{Db, Env, key_expired}
use miniredis.Db.Live.{DbValid, alive, live, live-later, alive-later}
use miniredis.Db.Runs.{bind, Runs, stay, after_lookup, writes}
use miniredis.Db.Keys.Expiry.{to_ms, cmd_expire_generic, expire_found, cmd_ttl_generic, ttl_of}

-- TTL and PTTL reply what is left and leave the live store.
pub cmd_ttl_generic-Runs :
    (is_ms : Bool) (env : Env) (name key : Bytes) (s : Db) (c : Client)
    → DbValid s
    → Runs env.now
        (live env.now s)
        (reply_integer c (ttl_of is_ms env.now (live env.now s (c_str key))))
        (cmd_ttl_generic is_ms env (name ∷ key ∷ []) s c)
unfolding cmd_ttl_generic
cmd_ttl_generic-Runs is_ms env name key s c v =
    after_lookup env.now s (c_str key) _ _ (λ o s'. (s', reply_integer c (ttl_of is_ms env.now o)))
      v (λ s' v' e ok h. stay env.now s' _ _ v' e)

-- EXPIRE and PEXPIRE of a live key with a time that fits.
pub cmd_expire_generic-Runs :
    (is_ms : Bool) (env : Env) (name key time : Bytes) (v ms : ℕ) (o : Robj) (s : Db) (c : Client)
    → DbValid s
    → live env.now s (c_str key) ≡ some o
    → string_to_ll time ≡ some (pos v)
    → to_ms is_ms v ≡ some ms
    → Runs env.now
        (bind
          (live env.now s)
          (c_str key)
          (alive env.now (some (record o { expire_at = wrap_ll (env.now +ℤ pos ms) }))))
        (reply_integer c (pos 1))
        (cmd_expire_generic is_ms env (name ∷ key ∷ time ∷ []) s c)
unfolding cmd_expire_generic
cmd_expire_generic-Runs is_ms env name key time v ms o s c valid there parsed fits =
    let k = c_str key in
    rw parsed (
      after_lookup env.now s k _ _ (λ x s'. expire_found is_ms env.now (c_str name) k v s' c x)
        valid
        (λ s' v' e ok held.
          rw (there, fits)
            (writes env.now s' (live env.now s) _ v' e k
              (record o { expire_at = wrap_ll (env.now +ℤ pos ms) }) o (rw there at ok)
              (held o there))))

-- What PTTL replies at `t` for a key that was given the time `n + ms`.
left :
    (n ms t : ℕ) (o : Robj)
    → n + ms ≤ ll_max
    → ttl_of true
        (pos t)
        (alive (pos t) (some (record o { expire_at = wrap_ll (pos n +ℤ pos ms) })))
      ≡ (if leb (n + ms) t then negsuc 1 else pos (n + ms - t))
left n ms t o fits =
    let e : wrap_ll (pos n +ℤ pos ms) ≡ pos (n + ms) = unfold wrap_ll ◌+ℤ◌ in ground arith in
    rw e (unfold alive key_expired ttl_of ◌-ℤ◌ in ground arith)

-- After a PEXPIRE of a live key with `ms` milliseconds at the time `n`, where `n + ms` is a `long
-- long`, a PTTL at a time `t` that is not earlier replies `n + ms - t`, or -2 when that time has
-- come; the other keys keep their live objects.
pub cmd_ttl-cmd_expire :
    (n t ms : ℕ) (env later : Env) (name ttl_name key time : Bytes) (o : Robj) (s : Db)
    (c c' : Client)
    → DbValid s
    → env.now ≡ pos n
    → later.now ≡ pos t
    → n ≤ t
    → n + ms ≤ ll_max
    → live env.now s (c_str key) ≡ some o
    → string_to_ll time ≡ some (pos ms)
    → let s' = (cmd_expire_generic true env (name ∷ key ∷ time ∷ []) s c).0 in
      ((cmd_ttl_generic true later (ttl_name ∷ key ∷ []) s' c').1
        ≡ reply_integer c' (if leb (n + ms) t then negsuc 1 else pos (n + ms - t)))
      × ((q : Bytes) → q ≢ c_str key → live env.now s' q ≡ live env.now s q)
cmd_ttl-cmd_expire n t ms env later name ttl_name key time o s c c' v now then' order fits there
      parsed =
    let k = c_str key in
    let r = cmd_expire_generic true env (name ∷ key ∷ time ∷ []) s c in
    let x : Robj = record o { expire_at = wrap_ll (env.now +ℤ pos ms) } in
    let ran =
      cmd_expire_generic-Runs true env name key time ms ms o s c v there parsed
        (unfold to_ms in refl) in
    let got = cmd_ttl_generic-Runs true later ttl_name key r.0 c' ran.valid in
    let sorted : env.now ≤ℤ later.now = rw (now, then') (omega arith) in
    let bound : live env.now r.0 k ≡ alive env.now (some x) =
      ran.lives k ∙ rw (bytes_eq_refl k) refl in
    let held : live later.now r.0 k ≡ alive later.now (some x) =
      live-later env.now later.now r.0 k sorted
      ∙ ap (alive later.now) bound
      ∙ sym (alive-later env.now later.now (some x) sorted) in
    let reply : ttl_of true later.now (alive later.now (some x))
        ≡ (if leb (n + ms) t then negsuc 1 else pos (n + ms - t)) =
      rw (now, then') (left n ms t o fits) in
    (
      got.replies
          ∙ ap (λ y. reply_integer c' (ttl_of true later.now y)) held
          ∙ ap (reply_integer c') reply,
      λ q apart. ran.lives q ∙ rw (bytes_eq-false k q (λ h. apart (sym h))) refl,
    )
