-- ===== src/Db/Strings/Counter/Keeps.antt =====
-- db.c: INCR and DECR keep the store well formed.
use miniredis.Common.{Bytes, [], ◌∷◌, Option, none, some, ℤ, c_str}
use miniredis.Object.{never}
use miniredis.Server.Reply.{Client}
use miniredis.Util.Number.{string_to_ll_n}
use miniredis.Db.{Db, as_string}
use miniredis.Db.Live.{DbValid}
use miniredis.Db.Keeps.{Keeps, looked_up, store_set-DbValid, on_string}
use miniredis.Db.Strings.Counter.{incr_decr, count_found, count_parsed, count_write, checked_add}

count_write-DbValid :
    (k : Bytes) (e : ℤ) (s : Db) (c : Client) (n : Option ℤ)
    → DbValid s
    → DbValid (count_write k e s c n).0
unfolding count_write
count_write-DbValid k e s c none v = v
count_write-DbValid k e s c (some n) v = store_set-DbValid v k _ tt

count_parsed-DbValid :
    (k : Bytes) (delta e : ℤ) (s : Db) (c : Client) (n : Option ℤ)
    → DbValid s
    → DbValid (count_parsed k delta e s c n).0
unfolding count_parsed
count_parsed-DbValid k delta e s c none v = v
count_parsed-DbValid k delta e s c (some n) v = count_write-DbValid k e s c (checked_add n delta) v

pub incr_decr-Keeps : (delta : ℤ) → Keeps (incr_decr delta)
unfolding incr_decr count_found
incr_decr-Keeps delta env (name ∷ key ∷ []) s c v =
    let k = c_str key in
    looked_up env.now k (λ o s'. count_found k delta s' c (as_string o)) v
      (λ o s' v' ok at.
        on_string (λ t. DbValid (count_found k delta s' c t).0) s' k o ok at
          (count_write-DbValid k never s' c _ v') v'
          (λ b e old at'. count_parsed-DbValid k delta e s' c (string_to_ll_n b) v'))
incr_decr-Keeps delta env [] s c v = v
incr_decr-Keeps delta env (name ∷ argv) s c v = v
