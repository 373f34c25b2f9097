-- ===== src/Db/Strings/Counter/Outcome.antt =====
-- db.c `incr_decr`: what INCR and DECR do to the live store.
use miniredis.Common.{
  ◌+◌, Bytes, Bool, ◌&&◌, Option, none, some, [], ◌∷◌, ℤ, pos, pos_part, neg_part, ◌≡◌, refl, inl,
  inr, arith, if◌then◌else◌, bytes, c_str, Bool-cases, Option-cases, ◌+ℤ◌, FitsLl, ll_max, leb,
}
use miniredis.Util.Number.{string_to_ll_n, format_ll}
use miniredis.Util.Number.Print.{string_to_ll_n_range}
use miniredis.Object.{Obj, str, Robj, never}
use miniredis.Server.Reply.{Client, reply_error, reply_integer}
use miniredis.Db.{Db, Env, key_expired, as_string, Typed, missing, wrongtype, held, reply_wrongtype}
use miniredis.Db.Live.{DbValid, alive, live, alive-live, alive-like, as_string-cases}
use miniredis.Db.Runs.{Live, bind, Runs, stay, after_lookup, sets}
use miniredis.Db.Strings.Counter.{checked_add, incr_decr, count_found, count_parsed, count_write}
use miniredis.Db.Strings.Counter.Bounds.{checked_add_lem}

abbrev pub fits_ll : ℤ → Bool
fits_ll v = leb (pos_part v) ll_max && leb (neg_part v) (ll_max + 1)

checked_add-fits :
    (v delta : ℤ)
    → FitsLl v
    → FitsLl delta
    → checked_add v delta ≡ (if fits_ll (v +ℤ delta) then some (v +ℤ delta) else none)
checked_add-fits v delta f g = elim (Bool-cases (fits_ll (v +ℤ delta))) [
  | inl fits ↦ rw fits ((checked_add_lem v delta f g).0 (ground arith))
  | inr big ↦ rw big ((checked_add_lem v delta f g).1 (ground arith))
]

-- The counter `v` moves by `delta` where the sum is a `long long`.
unfoldable pub bump : Bytes → ℤ → ℤ → ℤ → Live → Client → Live × Client
bump key delta e v w c =
    if fits_ll (v +ℤ delta)
    then (
      bind w key (some (record { obj = str (format_ll (v +ℤ delta)); expire_at = e })),
      reply_integer c (v +ℤ delta),
    )
    else (w, reply_error c (bytes "increment or decrement would overflow"))

parsed_outcome : Bytes → ℤ → ℤ → Live → Client → Option ℤ → Live × Client
parsed_outcome key delta e w c none =
    (w, reply_error c (bytes "value is not an integer or out of range"))
parsed_outcome key delta e w c (some v) = bump key delta e v w c

unfoldable pub count_outcome : Bytes → ℤ → Live → Client → Typed Bytes → Live × Client
unfolding parsed_outcome
count_outcome key delta w c wrongtype = (w, reply_wrongtype c)
count_outcome key delta w c missing = bump key delta never (pos 0) w c
count_outcome key delta w c (held b e) = parsed_outcome key delta e w c (string_to_ll_n b)

bump-Runs :
    (now : ℤ) (key : Bytes) (delta e v : ℤ) (w : Live) (c : Client) (s' : Db)
    → FitsLl v
    → FitsLl delta
    → DbValid s'
    → ((q : Bytes) → live now s' q ≡ w q)
    → ((x : Obj) → let o : Robj = record { obj = x; expire_at = e } in alive now (some o) ≡ some o)
    → let r = bump key delta e v w c in
      Runs now r.0 r.1 (count_write key e s' c (checked_add v delta))
unfolding bump count_write
bump-Runs now key delta e v w c s' f g ok same lives =
    rw (checked_add-fits v delta f g) (elim (Bool-cases (fits_ll (v +ℤ delta))) [
      | inl fits ↦
          rw (fits, ← lives (str (format_ll (v +ℤ delta)))) (sets now s' w _ ok same key _ tt)
      | inr big ↦ rw big (stay now s' _ w ok same)
    ])

-- On a valid store, INCR and DECR, or any step that is a `long long`, reply WRONGTYPE for another
-- type, an error for a string that is no number, an error where the sum leaves `long long`, each
-- with the live store unchanged, and else store the printed sum, from 0 for a missing key, with the
-- expiry that the key had, and reply the sum; the store stays valid.
pub incr_decr-Runs :
    (delta : ℤ) (env : Env) (name key : Bytes) (s : Db) (c : Client)
    → FitsLl delta
    → DbValid s
    → let r =
        count_outcome
          (c_str key)
          delta
          (live env.now s)
          c
          (as_string (live env.now s (c_str key))) in
      Runs env.now r.0 r.1 (incr_decr delta env (name ∷ key ∷ []) s c)
unfolding incr_decr count_outcome parsed_outcome count_found count_parsed as_string
incr_decr-Runs delta env name key s c g v =
    let w = live env.now s in
    after_lookup env.now s (c_str key) _ _
      (λ o s'. count_found (c_str key) delta s' c (as_string o)) v
      (λ s' v' e ok h. elim (Option-cases (w (c_str key))) [
        | inl gone ↦ rw gone (
            bump-Runs env.now (c_str key) delta never (pos 0) w c s' (omega arith, omega arith) g v'
              e (λ x. unfold alive key_expired in refl))
        | inr (o, there) ↦
            let lives = alive-live env.now s (c_str key) o there in
            elim (as_string-cases o.obj) [
              | inr other ↦ rw (there, other o.expire_at) (stay env.now s' _ w v' e)
              | inl (b, string) ↦ elim (Option-cases (string_to_ll_n b)) [
                | inl bad ↦ rw (there, string, bad) (stay env.now s' _ w v' e)
                | inr (n, good) ↦
                    rw (there, string, good)
                      (bump-Runs env.now (c_str key) delta o.expire_at n w c s'
                        (ground (arith, string_to_ll_n_range b n good)) g v' e
                        (λ x. alive-like env.now o x lives))
              ]
            ]
      ])
