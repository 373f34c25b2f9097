-- ===== src/Db/Zsets/Ranges.antt =====
-- db.c: ZRANGE, ZREVRANGE, ZRANGEBYSCORE and ZCOUNT.
pub mod Keeps
use miniredis.Common.{
  ℕ, zero, suc, ◌+◌, ◌-◌, ◌*◌, ◌%◌, ◌^◌, Bytes, Bool, true, false, not, ◌&&◌, ◌||◌, Option, none,
  some, List, [], ◌∷◌, ℤ, pos, negsuc, if◌then◌else◌, bytes, length, c_str, ◌-ℤ◌, ltb_ℤ, ltb, ◌==◌,
}
use miniredis.Util.Number.{string_to_ll}
use miniredis.Double.{Double, Libm}
use miniredis.Skiplist.{
  Address, Skiplist, node_at, level_at, zsl_get_rank, zsl_get_element_by_rank,
  zsl_first_in_score_range, zsl_last_in_score_range,
}
use miniredis.Zset.{Zset, zset_len}
use miniredis.Server.Reply.{Client, reply_error, reply_integer, reply_bulk, reply_array_header}
use miniredis.Db.{
  Db, Env, Command, lookup_key, reply_wrongtype, reply_arity, Typed, missing, wrongtype, held,
  as_zset,
}
use miniredis.Db.Strings.Set.{is_option}
use miniredis.Db.Lists.Ranges.{range_normalize}
use miniredis.Db.Doubles.{parse_score_arg, reply_double}

-- One element of a reply.
unfoldable pub reply_node : Libm → Bool → Skiplist → Address → Client → Client
reply_node libm withscores z x c =
    let n = node_at z x in
    let c' = reply_bulk c n.member in if withscores then reply_double libm c' n.score else c'

-- The loop over `n` nodes; past the last node it would read through NULL, and ends here.
unfoldable pub reply_nodes : Libm → Bool → Bool → Skiplist → ℕ → Option Address → Client → Client
reply_nodes libm rev withscores z zero x c = c
reply_nodes libm rev withscores z (suc n) none c = c
reply_nodes libm rev withscores z (suc n) (some x) c =
    reply_nodes libm rev withscores z n
      (if rev then (node_at z x).backward else (level_at z x 0).forward)
      (reply_node libm withscores z x c)

-- A `size_t` for a `long long`, and its double where the scores are shown.
unfoldable pub array_size : Bool → ℤ → ℕ
array_size withscores (pos n) = (if withscores then n * 2 else n) % 2 ^ 64
array_size withscores (negsuc n) =
    let w = 2 ^ 64 - 1 - n in (if withscores then w * 2 else w) % 2 ^ 64

zrange_range : Env → Bool → Bool → Zset → Client → Option (ℕ × ℕ) → Client
zrange_range env rev withscores z c none = reply_array_header c 0
zrange_range env rev withscores z c (some (start, stop)) =
    let n = stop - start + 1 in
    let rank = if rev then zset_len z - start else start + 1 in
    reply_nodes env.libm rev withscores z.zsl n (zsl_get_element_by_rank z.zsl rank)
      (reply_array_header c (array_size withscores (pos n)))

zrange_found : Env → Bool → Bool → ℤ → ℤ → Client → Typed Zset → Client
zrange_found env rev withscores start stop c missing = reply_array_header c 0
zrange_found env rev withscores start stop c wrongtype = reply_wrongtype c
zrange_found env rev withscores start stop c (held z e) =
    zrange_range env rev withscores z c (range_normalize (zset_len z) start stop)

zrange_parsed : Env → Bool → Bool → Bytes → Db → Client → Option ℤ → Option ℤ → Db × Client
zrange_parsed env rev withscores key s c (some start) (some stop) =
    let (o, s') = lookup_key env.now s key in
    (s', zrange_found env rev withscores start stop c (as_zset o))
zrange_parsed env rev withscores key s c _ _ =
    (s, reply_error c (bytes "value is not an integer or out of range"))

name_of : List Bytes → Bytes
name_of [] = []
name_of (name ∷ args) = c_str name

unfoldable pub zrange_common : Bool → Command
unfolding zrange_parsed zrange_found zrange_range name_of
zrange_common rev env (name ∷ key ∷ start ∷ stop ∷ []) s c =
    zrange_parsed env rev false (c_str key) s c (string_to_ll start) (string_to_ll stop)
zrange_common rev env (name ∷ key ∷ start ∷ stop ∷ option ∷ []) s c =
    if is_option option (bytes "WITHSCORES")
    then zrange_parsed env rev true (c_str key) s c (string_to_ll start) (string_to_ll stop)
    else (s, reply_error c (bytes "syntax error"))
zrange_common rev env argv s c = (s, reply_arity c (name_of argv))

unfoldable pub cmd_zrange : Command
cmd_zrange = zrange_common false

unfoldable pub cmd_zrevrange : Command
cmd_zrevrange = zrange_common true

-- A bound, and whether it is exclusive.
abbrev pub Bound : Type 0
Bound = Double × Bool

pub record Window : Type 0 where
  pub withscores : Bool
  pub offset : ℤ
  pub limit : ℤ

abbrev pub whole : Window
whole = record { withscores = false; offset = pos 0; limit = negsuc 0 }

pub data Options : Type 0 where
  window : Window → Options
  syntax_error invalid_limit : Options

window_of : Window → Option ℤ → Option ℤ → Options
window_of w (some (pos offset)) (some (pos limit)) =
    window (record w { offset = pos offset; limit = pos limit })
window_of w _ _ = invalid_limit

-- The part of `LIMIT offset count`, which must be the last option.
limit_option : Window → List Bytes → Options
limit_option w [] = window w
limit_option w (a ∷ offset ∷ limit ∷ rest) =
    if not (is_option a (bytes "LIMIT"))
    then syntax_error
    else elim (window_of w (string_to_ll offset) (string_to_ll limit)) [
      | window w' ↦ if length rest == 0 then window w' else syntax_error
      | syntax_error ↦ syntax_error
      | invalid_limit ↦ invalid_limit
    ]
limit_option w _ = syntax_error

unfoldable pub byscore_options : List Bytes → Options
unfolding limit_option window_of
byscore_options [] = window whole
byscore_options (a ∷ rest) =
    if is_option a (bytes "WITHSCORES")
    then limit_option (record whole { withscores = true }) rest
    else limit_option whole (a ∷ rest)

-- The first and the last node in the range with their ranks, unless the range is empty.
pub record Span : Type 0 where
  pub first : Address
  pub last : Address
  pub first_rank : ℕ
  pub last_rank : ℕ

rank_at : Skiplist → Address → ℕ
rank_at z x = let n = node_at z x in zsl_get_rank z n.score n.member

span_between : Skiplist → Option Address → Option Address → Option Span
span_between z (some first) (some last) =
    let r₁ = rank_at z first in
    let r₂ = rank_at z last in
    if r₁ == 0 || r₂ == 0 || ltb r₂ r₁
    then none
    else some (record { first = first; last = last; first_rank = r₁; last_rank = r₂ })
span_between z _ _ = none

unfoldable pub score_span : Skiplist → Bound → Bound → Option Span
unfolding rank_at span_between
score_span z (min, minex) (max, maxex) =
    span_between z (zsl_first_in_score_range z min minex) (zsl_last_in_score_range z max maxex)

abbrev pub total_of : Span → ℕ
total_of p = p.last_rank - p.first_rank + 1

-- The node `skip` places further; none behind `last`.
unfoldable pub skip_nodes : Skiplist → Address → ℕ → Option Address → Option Address
skip_nodes z last zero x = x
skip_nodes z last (suc skip) none = none
skip_nodes z last (suc skip) (some x) =
    let next = skip_nodes z last skip (level_at z x 0).forward in if x == last then none else next

-- How many elements are shown of `total`.
unfoldable pub emitted : ℤ → Window → ℤ
emitted total w =
    let left = total -ℤ w.offset in
    let asked = if ltb_ℤ w.limit (pos 0) then left else w.limit in
    let emit = if ltb_ℤ asked (pos 0) then pos 0 else asked in
    if ltb_ℤ left emit then left else emit

-- The loop of the replies, which ends at `last`.
unfoldable pub reply_span : Libm → Bool → Skiplist → Address → ℕ → Option Address → Client → Client
reply_span libm withscores z last zero x c = c
reply_span libm withscores z last (suc n) none c = c
reply_span libm withscores z last (suc n) (some x) c =
    let c' = reply_node libm withscores z x c in
    let next = reply_span libm withscores z last n (level_at z x 0).forward c' in
    if x == last then c' else next

abbrev pub rounds : ℤ → ℕ
rounds (pos n) = n
rounds (negsuc n) = 0

abbrev pub offset_of : Window → ℕ
offset_of w = rounds w.offset

byscore_span : Env → Window → Skiplist → Client → Option Span → Client
byscore_span env w z c none = reply_array_header c 0
byscore_span env w z c (some p) =
    let emit = emitted (pos (total_of p)) w in
    reply_span env.libm w.withscores z p.last (rounds emit)
      (skip_nodes z p.last (offset_of w) (some p.first))
      (reply_array_header c (array_size w.withscores emit))

byscore_found : Env → Bound → Bound → Window → Client → Typed Zset → Client
byscore_found env min max w c missing = reply_array_header c 0
byscore_found env min max w c wrongtype = reply_wrongtype c
byscore_found env min max w c (held z e) = byscore_span env w z.zsl c (score_span z.zsl min max)

byscore_options_read : Env → Bytes → Bound → Bound → Db → Client → Options → Db × Client
byscore_options_read env key min max s c syntax_error = (s, reply_error c (bytes "syntax error"))
byscore_options_read env key min max s c invalid_limit =
    (s, reply_error c (bytes "LIMIT offset and count must be non-negative integers"))
byscore_options_read env key min max s c (window w) =
    let (o, s') = lookup_key env.now s key in (s', byscore_found env min max w c (as_zset o))

byscore_bounds : Env → Bytes → List Bytes → Db → Client → Option Bound → Option Bound → Db × Client
byscore_bounds env key options s c (some min) (some max) =
    byscore_options_read env key min max s c (byscore_options options)
byscore_bounds env key options s c _ _ = (s, reply_error c (bytes "min or max is not a float"))

unfoldable pub cmd_zrangebyscore : Command
unfolding byscore_bounds byscore_options_read byscore_found byscore_span
cmd_zrangebyscore env (name ∷ key ∷ min ∷ max ∷ options) s c =
    byscore_bounds env (c_str key) options s c (parse_score_arg env.libm (c_str min))
      (parse_score_arg env.libm (c_str max))
cmd_zrangebyscore env argv s c = (s, reply_arity c (bytes "zrangebyscore"))

zcount_span : Client → Option Span → Client
zcount_span c none = reply_integer c (pos 0)
zcount_span c (some p) = reply_integer c (pos (total_of p))

zcount_found : Bound → Bound → Client → Typed Zset → Client
zcount_found min max c missing = reply_integer c (pos 0)
zcount_found min max c wrongtype = reply_wrongtype c
zcount_found min max c (held z e) = zcount_span c (score_span z.zsl min max)

zcount_bounds : Env → Bytes → Db → Client → Option Bound → Option Bound → Db × Client
zcount_bounds env key s c (some min) (some max) =
    let (o, s') = lookup_key env.now s key in (s', zcount_found min max c (as_zset o))
zcount_bounds env key s c _ _ = (s, reply_error c (bytes "min or max is not a float"))

unfoldable pub cmd_zcount : Command
unfolding zcount_bounds zcount_found zcount_span
cmd_zcount env (name ∷ key ∷ min ∷ max ∷ []) s c =
    zcount_bounds env (c_str key) s c (parse_score_arg env.libm (c_str min))
      (parse_score_arg env.libm (c_str max))
cmd_zcount env argv s c = (s, reply_arity c (bytes "zcount"))
