-- ===== src/Db/Zsets.antt =====
-- db.c: the sorted-set commands on single members.
pub mod Ranges
pub mod Keeps
use miniredis.Common.{
  ℕ, zero, suc, ◌+◌, Bytes, Bool, true, false, not, ◌&&◌, ◌||◌, Option, none, some, List, [], ◌∷◌,
  ℤ, pos, negsuc, if◌then◌else◌, bytes, length, c_str, ◌-ℤ◌, ◌==◌,
}
use miniredis.Double.{Double, is_nan}
use miniredis.Object.{Obj, zset, Robj, robj_new_zset, never}
use miniredis.Skiplist.{node_at, zsl_get_rank}
use miniredis.Zset.{
  Zset, zset_create, zset_len, node_of, Added, same_score, new_member, new_score, zset_add,
  zset_remove, zset_score,
}
use miniredis.Server.Reply.{Client, reply_error, reply_integer, reply_null}
use miniredis.Db.{
  Db, Env, Command, store_set, store_write, lookup_key, reply_wrongtype, reply_arity, Typed,
  missing, wrongtype, held, as_zset, maybe_delete_key,
}
use miniredis.Db.Strings.{pairs_of}
use miniredis.Db.Strings.Set.{is_option}
use miniredis.Db.Doubles.{parse_double, reply_double}

-- A sorted set that was changed in place.
unfoldable pub write_zset : Db → Bytes → Zset → ℤ → Db
write_zset s key z e = store_write s key (record { obj = zset z; expire_at = e })

pub record Flags : Type 0 where
  pub nx : Bool
  pub xx : Bool
  pub ch : Bool
  pub incr : Bool

abbrev pub no_flags : Flags
no_flags = record { nx = false; xx = false; ch = false; incr = false }

-- The loop over the options ends at the first argument that is none.
unfoldable pub zadd_flags : List Bytes → Flags → Flags × List Bytes
zadd_flags [] f = (f, [])
zadd_flags (a ∷ rest) f =
    let nx' = zadd_flags rest (record f { nx = true }) in
    let xx' = zadd_flags rest (record f { xx = true }) in
    let ch' = zadd_flags rest (record f { ch = true }) in
    let incr' = zadd_flags rest (record f { incr = true }) in
    if is_option a (bytes "NX")
    then nx'
    else if is_option a (bytes "XX")
    then xx'
    else if is_option a (bytes "CH")
    then ch'
    else if is_option a (bytes "INCR")
    then incr'
    else (f, a ∷ rest)

-- What the loop of `cmd_zadd` carries: the set, the draws that are left, and its two counters.
pub record Adding : Type 0 where
  pub set : Zset
  pub rand : ℕ → ℕ
  pub added : ℕ
  pub changed : ℕ

count_added : Added → Adding → Adding
count_added same_score l = l
count_added new_member l = record l { added = l.added + 1 }
count_added new_score l = record l { changed = l.changed + 1 }

exists {ℓ} : {A : Type ℓ} → Option A → Bool
exists none = false
exists (some x) = true

-- `nx && existing`, `xx && !existing`
unfoldable pub skips : Flags → Option ℕ → Bool
unfolding exists
skips f existing = (f.nx && exists existing) || (f.xx && not (exists existing))

unfoldable pub zadd_member : Flags → Double → Bytes → Adding → Adding
unfolding count_added
zadd_member f score member l =
    let (how, z, rand') = zset_add l.rand l.set score member in
    if skips f (node_of l.set member)
    then l
    else count_added how (record l { set = z; rand = rand' })

-- `existing ? existing->score + score : score`
unfoldable pub raised : Env → Zset → Option ℕ → Double → Double
raised env z none inc = inc
raised env z (some x) inc = env.libm.add (node_at z.zsl x).score inc

-- The set with the member at the new score, and the reply.
unfoldable pub incr_member : Env → Zset → Double → Bytes → Client → Zset × Client
incr_member env z inc member c =
    let new = raised env z (node_of z member) inc in
    if is_nan new
    then (z, reply_error c (bytes "resulting score is not a number (NaN)"))
    else ((zset_add env.rand z new member).1, reply_double env.libm c new)

-- The branch `if (incr)`, which takes the only pair.
zadd_incr : Env → Flags → Double → Bytes → Zset → Client → Zset × Client
zadd_incr env f score member z c =
    if skips f (node_of z member) then (z, reply_null c) else incr_member env z score member c

zadd_reply : Flags → Adding → Client → Client
zadd_reply f l c = reply_integer c (pos (if f.ch then l.added + l.changed else l.added))

-- The pairs that stand before a score that is no number are added.
zadd_loop : Env → Flags → List (Bytes × Bytes) → Adding → Client → Zset × Client
zadd_loop env f [] l c = (l.set, zadd_reply f l c)
zadd_loop env f ((a, member) ∷ ps) l c = elim (parse_double env.libm (c_str a)) [
  | none ↦ (l.set, reply_error c (bytes "value is not a valid float"))
  | some score ↦
      let next = zadd_loop env f ps (zadd_member f score (c_str member) l) c in
      if f.incr then zadd_incr env f score (c_str member) l.set c else next
]

zadd_into : Env → Flags → Bytes → List (Bytes × Bytes) → Db → Client → Zset → ℤ → Db × Client
zadd_into env f key ps s c z e =
    let l : Adding = record { set = z; rand = env.rand; added = 0; changed = 0 } in
    let (z', c') = zadd_loop env f ps l c in (write_zset s key z' e, c')

zadd_found : Env → Flags → Bytes → List (Bytes × Bytes) → Db → Client → Typed Zset → Db × Client
zadd_found env f key ps s c wrongtype = (s, reply_wrongtype c)
zadd_found env f key ps s c missing =
    if f.xx
    then (s, reply_integer c (pos 0))
    else zadd_into env f key ps (store_set s key (robj_new_zset env.seed)) c (zset_create env.seed)
        never
zadd_found env f key ps s c (held z e) = zadd_into env f key ps s c z e

zadd_pairs : Env → Flags → Bytes → Db → Client → Option (List (Bytes × Bytes)) → Db × Client
zadd_pairs env f key s c none = (s, reply_error c (bytes "syntax error"))
zadd_pairs env f key s c (some []) = (s, reply_error c (bytes "syntax error"))
zadd_pairs env f key s c (some (p ∷ ps)) =
    let (o, s') = lookup_key env.now s key in
    if f.incr && not (length ps == 0)
    then (s, reply_error c (bytes "INCR option supports a single increment-element pair"))
    else zadd_found env f key (p ∷ ps) s' c (as_zset o)

unfoldable pub cmd_zadd : Command
unfolding zadd_pairs zadd_found zadd_into zadd_loop zadd_incr zadd_reply
cmd_zadd env (name ∷ key ∷ a ∷ b ∷ rest) s c =
    let (f, args) = zadd_flags (a ∷ b ∷ rest) no_flags in
    if f.nx && f.xx
    then (s, reply_error c (bytes "syntax error"))
    else zadd_pairs env f (c_str key) s c (pairs_of args)
cmd_zadd env argv s c = (s, reply_arity c (bytes "zadd"))

zcard_found : Client → Typed Zset → Client
zcard_found c missing = reply_integer c (pos 0)
zcard_found c wrongtype = reply_wrongtype c
zcard_found c (held z e) = reply_integer c (pos (zset_len z))

unfoldable pub cmd_zcard : Command
unfolding zcard_found
cmd_zcard env (name ∷ key ∷ []) s c =
    let (o, s') = lookup_key env.now s (c_str key) in (s', zcard_found c (as_zset o))
cmd_zcard env argv s c = (s, reply_arity c (bytes "zcard"))

reply_score : Env → Client → Option Double → Client
reply_score env c none = reply_null c
reply_score env c (some score) = reply_double env.libm c score

zscore_found : Env → Bytes → Client → Typed Zset → Client
zscore_found env member c missing = reply_null c
zscore_found env member c wrongtype = reply_wrongtype c
zscore_found env member c (held z e) = reply_score env c (zset_score z member)

unfoldable pub cmd_zscore : Command
unfolding zscore_found reply_score
cmd_zscore env (name ∷ key ∷ member ∷ []) s c =
    let (o, s') = lookup_key env.now s (c_str key) in
    (s', zscore_found env (c_str member) c (as_zset o))
cmd_zscore env argv s c = (s, reply_arity c (bytes "zscore"))

unfoldable pub zrem_loop : List Bytes → ℕ → Zset → ℕ × Zset
zrem_loop [] removed z = (removed, z)
zrem_loop (m ∷ ms) removed z =
    let (found, z') = zset_remove z (c_str m) in
    zrem_loop ms (if found then removed + 1 else removed) z'

zrem_found : Bytes → List Bytes → Db → Client → Typed Zset → Db × Client
zrem_found key ms s c missing = (s, reply_integer c (pos 0))
zrem_found key ms s c wrongtype = (s, reply_wrongtype c)
zrem_found key ms s c (held z e) =
    let (removed, z') = zrem_loop ms 0 z in
    (maybe_delete_key (write_zset s key z' e) key (zset z'), reply_integer c (pos removed))

unfoldable pub cmd_zrem : Command
unfolding zrem_found
cmd_zrem env (name ∷ key ∷ m ∷ ms) s c =
    let (o, s') = lookup_key env.now s (c_str key) in
    zrem_found (c_str key) (m ∷ ms) s' c (as_zset o)
cmd_zrem env argv s c = (s, reply_arity c (bytes "zrem"))

-- The rank from the first or from the last element on; `zsl_get_rank` counts from 1.
rank_of : Bool → Zset → Option ℕ → Client → Client
rank_of rev z none c = reply_null c
rank_of rev z (some x) c =
    let n = node_at z.zsl x in
    let rank = zsl_get_rank z.zsl n.score n.member in
    reply_integer c (if rev then pos (zset_len z) -ℤ pos rank else pos rank -ℤ pos 1)

rank_found : Bool → Bytes → Client → Typed Zset → Client
rank_found rev member c missing = reply_null c
rank_found rev member c wrongtype = reply_wrongtype c
rank_found rev member c (held z e) = rank_of rev z (node_of z member) c

unfoldable pub cmd_zrank : Command
unfolding rank_found rank_of
cmd_zrank env (name ∷ key ∷ member ∷ []) s c =
    let (o, s') = lookup_key env.now s (c_str key) in
    (s', rank_found false (c_str member) c (as_zset o))
cmd_zrank env argv s c = (s, reply_arity c (bytes "zrank"))

unfoldable pub cmd_zrevrank : Command
unfolding rank_found rank_of
cmd_zrevrank env (name ∷ key ∷ member ∷ []) s c =
    let (o, s') = lookup_key env.now s (c_str key) in
    (s', rank_found true (c_str member) c (as_zset o))
cmd_zrevrank env argv s c = (s, reply_arity c (bytes "zrevrank"))

zincrby_into : Env → Bytes → Double → Bytes → Db → Client → Zset → ℤ → Db × Client
zincrby_into env key inc member s c z e =
    let (z', c') = incr_member env z inc member c in (write_zset s key z' e, c')

zincrby_found : Env → Bytes → Double → Bytes → Db → Client → Typed Zset → Db × Client
zincrby_found env key inc member s c wrongtype = (s, reply_wrongtype c)
zincrby_found env key inc member s c missing =
    zincrby_into env key inc member (store_set s key (robj_new_zset env.seed)) c
      (zset_create env.seed) never
zincrby_found env key inc member s c (held z e) = zincrby_into env key inc member s c z e

zincrby_inc : Env → Bytes → Bytes → Db → Client → Option Double → Db × Client
zincrby_inc env key member s c none = (s, reply_error c (bytes "value is not a valid float"))
zincrby_inc env key member s c (some inc) =
    let (o, s') = lookup_key env.now s key in zincrby_found env key inc member s' c (as_zset o)

unfoldable pub cmd_zincrby : Command
unfolding zincrby_inc zincrby_found zincrby_into
cmd_zincrby env (name ∷ key ∷ inc ∷ member ∷ []) s c =
    zincrby_inc env (c_str key) (c_str member) s c (parse_double env.libm (c_str inc))
cmd_zincrby env argv s c = (s, reply_arity c (bytes "zincrby"))
