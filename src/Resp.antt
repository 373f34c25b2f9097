-- ===== src/Resp.antt =====
-- resp.c: the incremental parser of client commands.
-- `buf + pos` is the list of the bytes that are still unread, and `pos` is carried beside it.
pub mod Lines
pub mod Extend
pub mod Bounds
pub mod RoundTrip
use miniredis.Common.{
  ℕ, zero, suc, ◌+◌, ◌%◌, ◌^◌, Bytes, Bool, not, ◌&&◌, Option, none, some, List, [], ◌∷◌, ◌++◌, ℤ,
  pos, negsuc, ltb, ◌==◌, if◌then◌else◌, length, get_or, take, drop,
}
use miniredis.Util.Number.{string_to_ll_n}

abbrev pub max_argc : ℕ
max_argc = 1048576

abbrev pub max_bulk_len : ℕ
max_bulk_len = 536870912

abbrev pub cr : ℕ
cr = 13

abbrev pub lf : ℕ
lf = 10

-- `argv[argc++] = s`; how the array grows is not part of the value.
unfoldable pub command_push : List Bytes → Bytes → List Bytes
command_push argv s = argv ++ s ∷ []

cons_line : ℕ → Option (Bytes × Bytes) → Option (Bytes × Bytes)
cons_line a none = none
cons_line a (some (line, rest)) = some (a ∷ line, rest)

-- The line before the first CRLF, and what follows it.
unfoldable pub get_line : Bytes → Option (Bytes × Bytes)
unfolding cons_line
get_line [] = none
get_line (a ∷ []) = none
get_line (a ∷ b ∷ s) =
    let more = cons_line a (get_line (b ∷ s)) in
    if (a == cr) && (b == lf) then some ([], s) else more

-- What one round of the argument loop does: wait, refuse, or push an argument, with the number of
-- bytes that it read and the bytes after them.
pub data Arg : Type 0 where
  wait refuse : Arg
  push : Bytes → ℕ → Bytes → Arg

-- The payload of a bulk string of `slen` bytes, and its CRLF.
bulk_payload : ℕ → ℕ → Bytes → Arg
bulk_payload slen header rest =
    if ltb (length rest) (slen + 2)
    then wait
    else if not ((get_or rest slen 0 == cr) && (get_or rest (slen + 1) 0 == lf))
    then refuse
    else push (take slen rest) (header + slen + 2) (drop (slen + 2) rest)

bulk_length : Option ℤ → ℕ → Bytes → Arg
bulk_length none header rest = refuse
bulk_length (some (negsuc n)) header rest = push [] header rest
bulk_length (some (pos slen)) header rest =
    if ltb max_bulk_len slen then refuse else bulk_payload slen header rest

arg_line : ℕ → Option (Bytes × Bytes) → Arg
arg_line t none = wait
arg_line t (some ([], rest)) = wait
arg_line t (some (t' ∷ body, rest)) =
    let header = length body + 3 in
    if t == b'$' then bulk_length (string_to_ll_n body) header rest else push body header rest

unfoldable pub parse_arg : Bytes → Arg
unfolding arg_line bulk_length bulk_payload
parse_arg [] = wait
parse_arg (t ∷ s) =
    if not (t == b'$') && not (t == b'+') then refuse else arg_line t (get_line (t ∷ s))

-- The results 0, -1 and the number of bytes read, with the arguments.
pub data Parse : Type 0 where
  incomplete protocol_error : Parse
  consumed : ℕ → List Bytes → Parse

-- `return (int)pos`, as the callers read its sign.
unfoldable pub return_int : ℕ → List Bytes → Parse
return_int n argv =
    let w = n % 2 ^ 32 in
    if w == 0 then incomplete else if ltb w (2 ^ 31) then consumed w argv else protocol_error

-- A round that does not push ends the whole parse.
abbrev pub after : Arg → (Bytes → ℕ → Bytes → Parse) → Parse
after wait next = incomplete
after refuse next = protocol_error
after (push a used rest) next = next a used rest

unfoldable pub parse_args : ℕ → ℕ → Bytes → List Bytes → Parse
parse_args zero at s argv = return_int at argv
parse_args (suc n) at s argv =
    after (parse_arg s) (λ a used rest. parse_args n (at + used) rest (command_push argv a))

parse_count : Option ℤ → ℕ → Bytes → Parse
parse_count none at rest = protocol_error
parse_count (some (negsuc n)) at rest = protocol_error
parse_count (some (pos count)) at rest =
    if ltb max_argc count then protocol_error else parse_args count at rest []

-- A header line is shorter than 2 when no digits stand in it.
parse_header : Option (Bytes × Bytes) → Parse
parse_header none = incomplete
parse_header (some ([], rest)) = protocol_error
parse_header (some (star ∷ [], rest)) = protocol_error
parse_header (some (star ∷ d ∷ digits, rest)) =
    parse_count (string_to_ll_n (d ∷ digits)) (length digits + 4) rest

unfoldable pub resp_parse_command : Bytes → Parse
unfolding parse_header parse_count
resp_parse_command [] = incomplete
resp_parse_command (t ∷ s) =
    if not (t == b'*') then protocol_error else parse_header (get_line (t ∷ s))
