-- ===== src/Resp/Extend.antt =====
-- What the parser has decided, more input does not change.
use miniredis.Common.{
  ℕ, zero, suc, ◌+◌, ◌≤◌, ◌≡◌, refl, arith, Bytes, Option, none, some, List, [], ◌∷◌, ◌++◌, length,
  Bool-cases, inl, inr, ◌==◌, ◌&&◌, not, Option-cases, ltb, get_or, get_or-append_lt,
  take-append_le, drop-append_le, ℤ, pos, negsuc, length-append, Bool, false,
}
use miniredis.Util.Number.{string_to_ll_n}
use miniredis.Resp.{
  get_line, cr, lf, Arg, wait, refuse, push, bulk_payload, bulk_length, arg_line, parse_arg, after,
  Parse, incomplete, protocol_error, consumed, return_int, parse_args, parse_count, parse_header,
  resp_parse_command, command_push, max_bulk_len, max_argc,
}
use miniredis.Resp.Lines.{get_line-append}

-- `y` is what `x` becomes once `more` has arrived behind the bytes that `x` was computed from.
abbrev pub ArgLater : Bytes → Arg → Arg → Type 0
ArgLater more wait y = Unit
ArgLater more refuse y = y ≡ refuse
ArgLater more (push a used rest) y = y ≡ push a used (rest ++ more)

bulk_payload-ArgLater :
    (more : Bytes) (slen header : ℕ) (rest : Bytes)
    → ArgLater more (bulk_payload slen header rest) (bulk_payload slen header (rest ++ more))
unfolding bulk_payload
bulk_payload-ArgLater more slen header rest = elim (Bool-cases (ltb (length rest) (slen + 2))) [
  | inl short ↦ rw short tt
  | inr long ↦
      let room : slen + 2 ≤ length rest = ground arith in
      let long' : ltb (length (rest ++ more)) (slen + 2) ≡ false =
        ground (arith, length-append rest more) in
      let at_cr = get_or-append_lt rest more slen 0 (omega arith) in
      let at_lf = get_or-append_lt rest more (slen + 1) 0 (omega arith) in
      let front = take-append_le slen rest more (omega arith) in
      let back = drop-append_le (slen + 2) rest more room in
      let crlf : Bool = (get_or rest slen 0 == cr) && (get_or rest (slen + 1) 0 == lf) in
      rw (long, long', at_cr, at_lf, front, back)
        (elim (Bool-cases crlf) [ inl good ↦ rw good refl | inr bad ↦ rw bad refl ])
]

bulk_length-ArgLater :
    (more : Bytes) (v : Option ℤ) (header : ℕ) (rest : Bytes)
    → ArgLater more (bulk_length v header rest) (bulk_length v header (rest ++ more))
unfolding bulk_length
bulk_length-ArgLater more none header rest = refl
bulk_length-ArgLater more (some (negsuc n)) header rest = refl
bulk_length-ArgLater more (some (pos n)) header rest = elim (Bool-cases (ltb max_bulk_len n)) [
  | inl big ↦ rw big refl
  | inr fits ↦ rw fits (bulk_payload-ArgLater more n header rest)
]

arg_line-ArgLater :
    (more : Bytes) (t : ℕ) (line rest : Bytes)
    → ArgLater more (arg_line t (some (line, rest))) (arg_line t (some (line, rest ++ more)))
unfolding arg_line
arg_line-ArgLater more t [] rest = tt
arg_line-ArgLater more t (t' ∷ body) rest = elim (Bool-cases (t == b'$')) [
  | inl bulk ↦ rw bulk (bulk_length-ArgLater more (string_to_ll_n body) (length body + 3) rest)
  | inr simple ↦ rw simple refl
]

parse_arg-ArgLater : (s more : Bytes) → ArgLater more (parse_arg s) (parse_arg (s ++ more))
unfolding parse_arg
parse_arg-ArgLater [] more = tt
parse_arg-ArgLater (t ∷ s) more = elim (Bool-cases (not (t == b'$') && not (t == b'+'))) [
  | inl other ↦ rw other refl
  | inr marker ↦ elim (Option-cases (get_line (t ∷ s))) [
    | inl open' ↦ rw (marker, open') tt
    | inr ((line, rest), found) ↦
        rw (marker, found, get_line-append (t ∷ s) more line rest found)
          (arg_line-ArgLater more t line rest)
  ]
]

-- Once the parser has decided, its decision stays.
abbrev pub Later : Parse → Parse → Type 0
Later incomplete y = Unit
Later protocol_error y = y ≡ protocol_error
Later (consumed n argv) y = y ≡ consumed n argv

Later-refl : (x : Parse) → Later x x
Later-refl incomplete = tt
Later-refl protocol_error = refl
Later-refl (consumed n argv) = refl

after-Later :
    (more : Bytes) (x y : Arg) (next : Bytes → ℕ → Bytes → Parse)
    → ArgLater more x y
    → ((a : Bytes) (used : ℕ) (rest : Bytes)
        → Later (next a used rest) (next a used (rest ++ more)))
    → Later (after x next) (after y next)
after-Later more wait y next h keep = tt
after-Later more refuse y next h keep = rw h refl
after-Later more (push a used rest) y next h keep = rw h (keep a used rest)

parse_args-Later :
    (n at : ℕ) (s more : Bytes) (argv : List Bytes)
    → Later (parse_args n at s argv) (parse_args n at (s ++ more) argv)
unfolding parse_args
parse_args-Later zero at s more argv = Later-refl (return_int at argv)
parse_args-Later (suc n) at s more argv =
    after-Later more (parse_arg s) (parse_arg (s ++ more)) _ (parse_arg-ArgLater s more)
      (λ a used rest. parse_args-Later n (at + used) rest more (command_push argv a))

parse_count-Later :
    (v : Option ℤ) (at : ℕ) (rest more : Bytes)
    → Later (parse_count v at rest) (parse_count v at (rest ++ more))
unfolding parse_count
parse_count-Later none at rest more = refl
parse_count-Later (some (negsuc n)) at rest more = refl
parse_count-Later (some (pos n)) at rest more = elim (Bool-cases (ltb max_argc n)) [
  | inl big ↦ rw big refl
  | inr fits ↦ rw fits (parse_args-Later n at rest more [])
]

parse_header-Later :
    (line rest more : Bytes)
    → Later (parse_header (some (line, rest))) (parse_header (some (line, rest ++ more)))
unfolding parse_header
parse_header-Later [] rest more = refl
parse_header-Later (star ∷ []) rest more = refl
parse_header-Later (star ∷ d ∷ digits) rest more =
    parse_count-Later (string_to_ll_n (d ∷ digits)) (length digits + 4) rest more

-- A command or a protocol error that the parser finds in a buffer is found as the same whatever
-- bytes arrive behind it.
pub resp_parse_command-Later :
    (s more : Bytes) → Later (resp_parse_command s) (resp_parse_command (s ++ more))
unfolding resp_parse_command
resp_parse_command-Later [] more = tt
resp_parse_command-Later (t ∷ s) more = elim (Bool-cases (not (t == b'*'))) [
  | inl other ↦ rw other refl
  | inr star ↦ elim (Option-cases (get_line (t ∷ s))) [
    | inl open' ↦ rw (star, open') tt
    | inr ((line, rest), found) ↦
        rw (star, found, get_line-append (t ∷ s) more line rest found)
          (parse_header-Later line rest more)
  ]
]
