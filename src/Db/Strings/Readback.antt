-- ===== src/Db/Strings/Readback.antt =====
-- db.c: SET followed by GET, at the same time or later.
use miniredis.Common.{
  ℕ, suc, ◌<◌, ◌≤◌, Bytes, false, ◌&&◌, some, List, [], ◌∷◌, ℤ, pos, leb_ℤ, ◌≤ℤ◌, ◌≡◌, ◌≢◌, ◌∙◌,
  refl, sym, ap, inl, inr, if◌then◌else◌, bytes, c_str, Bool-cases, zero, str_case_eq, to_lower,
  sub_ℕ, bytes_eq_refl, bytes_eq-false, arith, ll_max, wrap_ll, wrap_ll-of_fits, ◌-ℤ◌,
}
use miniredis.Object.{str, never}
use miniredis.Server.Reply.{Client, reply_null, reply_bulk, reply_simple}
use miniredis.Db.{Db, Env, key_expired, as_string}
use miniredis.Db.Live.{DbValid, alive, live, live-later, alive-later}
use miniredis.Db.Runs.{Live, bind}
use miniredis.Util.Number.{format_zu, string_to_ll}
use miniredis.Util.Number.Print.{string_to_ll-format_zu}
use miniredis.Db.Strings.{cmd_get, get_reply}
use miniredis.Db.Strings.Outcome.{cmd_get-Runs, cmd_set-Runs, set_outcome, refused, new_string}
use miniredis.Db.Strings.Set.{
  SetOptions, options, defaults, set_options, cmd_set, expiry_after, takes_time, is_option, timed,
  option_time, positive,
}

set_granted :
    (now : ℤ) (key val : Bytes) (o : SetOptions) (w : Live) (c : Client)
    → o.nx ≡ false
    → o.xx ≡ false
    → set_outcome now key val o w c
      ≡ (bind w key (alive now (some (new_string now val o))), reply_simple c (bytes "OK"))
unfolding set_outcome refused
set_granted now key val o w c nx xx = rw (nx, xx) refl

get_alive :
    (now expiry : ℤ) (b : Bytes) (c : Client)
    → get_reply c (as_string (alive now (some (record { obj = str b; expire_at = expiry }))))
      ≡ (if leb_ℤ (pos 0) expiry && leb_ℤ expiry now then reply_null c else reply_bulk c b)
unfolding alive key_expired get_reply as_string
get_alive now expiry b c = elim (Bool-cases (leb_ℤ (pos 0) expiry && leb_ℤ expiry now)) [
  | inl old ↦ rw old refl
  | inr fresh ↦ rw fresh refl
]

-- After a SET whose options parse and name neither NX nor XX, on a valid store, a GET of the key at
-- the same or a later time replies the value as a C string, or null once the expiry has come; the
-- other keys keep their live objects.
pub cmd_get-cmd_set :
    (env later : Env) (name get_name key val : Bytes) (opts : List Bytes) (o : SetOptions) (s : Db)
    (c c' : Client)
    → DbValid s
    → set_options env defaults opts ≡ options o
    → o.nx ≡ false
    → o.xx ≡ false
    → env.now ≤ℤ later.now
    → let s' = (cmd_set env (name ∷ key ∷ val ∷ opts) s c).0 in
      let expiry = expiry_after env.now o.expire_ms in
      ((cmd_get later (get_name ∷ key ∷ []) s' c').1 ≡ (
        if leb_ℤ (pos 0) expiry && leb_ℤ expiry later.now
        then reply_null c'
        else reply_bulk c' (c_str val)))
      × ((q : Bytes) → q ≢ c_str key → live env.now s' q ≡ live env.now s q)
cmd_get-cmd_set env later name get_name key val opts o s c c' v parsed nx xx order =
    let k = c_str key in
    let w = live env.now s in
    let r = cmd_set env (name ∷ key ∷ val ∷ opts) s c in
    let x = new_string env.now (c_str val) o in
    let ran =
      rw (set_granted env.now k (c_str val) o w c nx xx) at
        (cmd_set-Runs env name key val opts o s c v parsed) in
    let got = cmd_get-Runs later get_name key r.0 c' ran.valid in
    let bound : live env.now r.0 k ≡ alive env.now (some x) =
      ran.lives k ∙ rw (bytes_eq_refl k) refl in
    let there : live later.now r.0 k ≡ alive later.now (some x) =
      live-later env.now later.now r.0 k order
      ∙ ap (alive later.now) bound
      ∙ sym (alive-later env.now later.now (some x) order) in
    (
      got.replies
          ∙ ap (λ y. get_reply c' (as_string y)) there
          ∙ get_alive later.now (expiry_after env.now o.expire_ms) (c_str val) c',
      λ q apart. ran.lives q ∙ rw (bytes_eq-false k q (λ h. apart (sym h))) refl,
    )

pxat_options :
    (env : Env) (a : Bytes) (n : ℕ)
    → string_to_ll a ≡ some (pos (suc n))
    → set_options env defaults (bytes "PXAT" ∷ a ∷ [])
      ≡ options (record defaults { expire_ms = wrap_ll (pos (suc n) -ℤ env.now) })
unfolding set_options takes_time is_option timed option_time positive str_case_eq to_lower bytes
    c_str
pxat_options env a n e = rw e refl

past_expiry :
    (now t : ℕ)
    → t < now
    → now ≤ ll_max
    → expiry_after (pos now) (wrap_ll (pos t -ℤ pos now)) ≡ never
unfolding expiry_after ◌-ℤ◌
past_expiry now t past fits = let e = wrap_ll-of_fits (sub_ℕ t now) (ground arith) in ground arith

-- On a valid store, a SET with PXAT and a positive time that has passed keeps the value for ever: a
-- GET at any later time replies it.
pub cmd_set-past :
    (now t : ℕ) (env later : Env) (name get_name key val : Bytes) (s : Db) (c c' : Client)
    → DbValid s
    → env.now ≡ pos now
    → 0 < t
    → t < now
    → now ≤ ll_max
    → env.now ≤ℤ later.now
    → let s' = (cmd_set env (name ∷ key ∷ val ∷ bytes "PXAT" ∷ format_zu t ∷ []) s c).0 in
      (cmd_get later (get_name ∷ key ∷ []) s' c').1 ≡ reply_bulk c' (c_str val)
cmd_set-past now zero env later name get_name key val s c c' v clock start past fits order =
    absurd (omega arith)
cmd_set-past now (suc n) env later name get_name key val s c c' v clock start past fits order =
    let o : SetOptions = record defaults { expire_ms = wrap_ll (pos (suc n) -ℤ env.now) } in
    let parsed =
      pxat_options env (format_zu (suc n)) n (string_to_ll-format_zu (suc n) (omega arith)) in
    let got = cmd_get-cmd_set env later name get_name key val _ o s c c' v parsed refl refl order in
    let lasts : expiry_after env.now o.expire_ms ≡ never =
      rw clock (past_expiry now (suc n) past fits) in
    got.0 ∙ rw lasts refl
