-- ===== src/Db/Doubles/Keeps.antt =====
-- db.c: HINCRBYFLOAT keeps the store well formed.
use miniredis.Common.{◌≡◌, Bytes, [], ◌∷◌, Option, none, some, ℤ, c_str, Bool-cases, inl, inr, ◌||◌}
use miniredis.Object.{Robj, never}
use miniredis.Server.Reply.{Client}
use miniredis.Dict.{Dict}
use miniredis.Dict.Laws.Valid.{IsValid}
use miniredis.Dict.Laws.Ops.{dict_set-Writes}
use miniredis.Db.{Db, Env, as_hash}
use miniredis.Db.Live.{DbValid, view_of}
use miniredis.Db.Keeps.{Keeps, looked_up, on_hash}
use miniredis.Double.{Double, is_nan, is_inf}
use miniredis.Db.Hashes.Keeps.{fresh, made-DbValid, made-view, write_hash-DbValid}
use miniredis.Db.Doubles.{
  hincrbyfloat_parsed, hincrbyfloat_found, hincrbyfloat_delta, cmd_hincrbyfloat, parse_double,
}

hincrbyfloat_parsed-DbValid :
    (env : Env) (k f : Bytes) (delta : Double) (s : Db) (c : Client) (h : Dict Bytes) (e : ℤ)
    (n : Option Double) (old : Robj)
    → DbValid s
    → view_of s k ≡ some old
    → IsValid h
    → DbValid (hincrbyfloat_parsed env k f delta s c h e n).0
unfolding hincrbyfloat_parsed
hincrbyfloat_parsed-DbValid env k f delta s c h e none old v at ok = v
hincrbyfloat_parsed-DbValid env k f delta s c h e (some cur) old v at ok =
    let nv = env.libm.add cur delta in
    elim (Bool-cases (is_nan nv || is_inf nv)) [
      | inl bad ↦ rw bad v
      | inr fine ↦ rw fine (write_hash-DbValid k _ e old v at (dict_set-Writes h f _ ok).valid)
    ]

hincrbyfloat_delta-DbValid :
    (env : Env) (k f : Bytes) (s : Db) (c : Client) (n : Option Double)
    → DbValid s
    → DbValid (hincrbyfloat_delta env k f s c n).0
unfolding hincrbyfloat_delta hincrbyfloat_found
hincrbyfloat_delta-DbValid env k f s c none v = v
hincrbyfloat_delta-DbValid env k f s c (some delta) v =
    looked_up env.now k (λ o s'. hincrbyfloat_found env k f delta s' c (as_hash o)) v
      (λ o s' v' ok at.
        on_hash (λ t. DbValid (hincrbyfloat_found env k f delta s' c t).0) s' k o ok at
          (hincrbyfloat_parsed-DbValid env k f delta _ c _ never _ _ (made-DbValid env.seed k v')
            (made-view env.seed k v') (fresh env.seed))
          v'
          (λ h e old at' valid.
            hincrbyfloat_parsed-DbValid env k f delta s' c h e _ old v' at' valid))

pub cmd_hincrbyfloat-Keeps : Keeps cmd_hincrbyfloat
unfolding cmd_hincrbyfloat
cmd_hincrbyfloat-Keeps env (name ∷ key ∷ f ∷ delta ∷ []) s c v =
    hincrbyfloat_delta-DbValid env (c_str key) (c_str f) s c (parse_double env.libm (c_str delta)) v
cmd_hincrbyfloat-Keeps env argv s c v = v
