-- ===== src/Db/Doubles.antt =====
-- db.c `parse_double`, `parse_score_arg`, `reply_double`, and HINCRBYFLOAT.
pub mod Keeps
use miniredis.Common.{
  ℕ, zero, suc, Bytes, Bool, true, false, not, ◌||◌, Option, none, some, List, [], ◌∷◌, ℤ, ◌==◌,
  if◌then◌else◌, bytes, length, c_str, take,
}
use miniredis.Double.{Double, Libm, is_nan, is_inf}
use miniredis.Dict.{Dict, dict_create, dict_get, dict_set}
use miniredis.Object.{never}
use miniredis.Server.Reply.{Client, reply_error, reply_bulk_cstr}
use miniredis.Db.{
  Db, Env, Command, lookup_key, reply_wrongtype, reply_arity, Typed, missing, wrongtype, held,
  as_hash,
}
use miniredis.Db.Hashes.{write_hash, made}

-- The whole of a C string that is not empty, in range, and a number.
unfoldable pub parse_double : Libm → Bytes → Option Double
parse_double libm [] = none
parse_double libm (c ∷ s) =
    let (d, end, erange) = libm.strtod (c ∷ s) in
    if erange
    then none
    else if (end == 0) || not (end == length (c ∷ s))
    then none
    else if is_nan d
    then none
    else some d

exclusive : Bool → Option Double → Option (Double × Bool)
exclusive ex none = none
exclusive ex (some d) = some (d, ex)

-- The bound, and whether it is exclusive.
unfoldable pub parse_score_arg : Libm → Bytes → Option (Double × Bool)
unfolding exclusive
parse_score_arg libm [] = none
parse_score_arg libm (c ∷ s) =
    if c == b'('
    then exclusive true (parse_double libm s)
    else exclusive false (parse_double libm (c ∷ s))

-- Printed into 64 bytes, the last of which is the NUL.
unfoldable pub print_double : Libm → Double → Bytes
print_double libm d = take 63 (c_str (libm.print_17g d))

unfoldable pub reply_double : Libm → Client → Double → Client
unfolding print_double
reply_double libm c d = reply_bulk_cstr c (print_double libm d)

-- `double cur = 0; if (v && !parse_double(v->ptr, &cur))`
float_of : Libm → Option Bytes → Option Double
float_of libm none = some 0
float_of libm (some v) = parse_double libm (c_str v)

hincrbyfloat_parsed :
    Env → Bytes → Bytes → Double → Db → Client → Dict Bytes → ℤ → Option Double → Db × Client
hincrbyfloat_parsed env key f delta s c h e none =
    (s, reply_error c (bytes "hash value is not a float"))
hincrbyfloat_parsed env key f delta s c h e (some cur) =
    let nv = env.libm.add cur delta in
    let printed = print_double env.libm nv in
    if is_nan nv || is_inf nv
    then (s, reply_error c (bytes "increment would produce NaN or Infinity"))
    else (write_hash s key (dict_set h f printed).1 e, reply_bulk_cstr c printed)

hincrbyfloat_found : Env → Bytes → Bytes → Double → Db → Client → Typed (Dict Bytes) → Db × Client
hincrbyfloat_found env key f delta s c wrongtype = (s, reply_wrongtype c)
hincrbyfloat_found env key f delta s c missing =
    let h : Dict Bytes = dict_create env.seed in
    let cur = float_of env.libm (dict_get h f) in
    hincrbyfloat_parsed env key f delta (made env.seed s key) c h never cur
hincrbyfloat_found env key f delta s c (held h e) =
    hincrbyfloat_parsed env key f delta s c h e (float_of env.libm (dict_get h f))

hincrbyfloat_delta : Env → Bytes → Bytes → Db → Client → Option Double → Db × Client
hincrbyfloat_delta env key f s c none = (s, reply_error c (bytes "value is not a valid float"))
hincrbyfloat_delta env key f s c (some delta) =
    let (o, s') = lookup_key env.now s key in hincrbyfloat_found env key f delta s' c (as_hash o)

unfoldable pub cmd_hincrbyfloat : Command
unfolding float_of hincrbyfloat_parsed hincrbyfloat_found hincrbyfloat_delta
cmd_hincrbyfloat env (name ∷ key ∷ f ∷ delta ∷ []) s c =
    hincrbyfloat_delta env (c_str key) (c_str f) s c (parse_double env.libm (c_str delta))
cmd_hincrbyfloat env argv s c = (s, reply_arity c (bytes "hincrbyfloat"))
