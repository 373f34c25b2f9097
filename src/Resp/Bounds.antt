-- ===== src/Resp/Bounds.antt =====
-- How many bytes the parser reads.
use miniredis.Common.{
  ℕ, zero, suc, ◌+◌, ◌≤◌, ◌<◌, ◌^◌, ◌%◌, ◌≡◌, refl, arith, Bytes, Option, none, some, List, [], ◌∷◌,
  length, Bool-cases, inl, inr, ◌==◌, ◌&&◌, not, Option-cases, ltb, get_or, length-drop, ℤ, pos,
  negsuc, Bool,
}
use miniredis.Util.Number.{string_to_ll_n}
use miniredis.Resp.{
  get_line, cr, lf, Arg, wait, refuse, push, bulk_payload, bulk_length, arg_line, parse_arg, after,
  Parse, incomplete, protocol_error, consumed, return_int, parse_args, parse_count, parse_header,
  resp_parse_command, command_push, max_bulk_len, max_argc,
}
use miniredis.Resp.Lines.{length-get_line}

-- The bytes that a round reads are those that it no longer leaves.
abbrev Reads : ℕ → Arg → Type 0
Reads n wait = Unit
Reads n refuse = Unit
Reads n (push a used rest) = n ≡ used + length rest

bulk_payload-Reads :
    (slen header : ℕ) (rest : Bytes) → Reads (header + length rest) (bulk_payload slen header rest)
unfolding bulk_payload
bulk_payload-Reads slen header rest = elim (Bool-cases (ltb (length rest) (slen + 2))) [
  | inl short ↦ rw short tt
  | inr long ↦
      let crlf : Bool = (get_or rest slen 0 == cr) && (get_or rest (slen + 1) 0 == lf) in
      let room : slen + 2 ≤ length rest = ground arith in
      rw long (elim (Bool-cases crlf) [
        | inl good ↦ rw good (omega (arith, length-drop (slen + 2) rest))
        | inr bad ↦ rw bad tt
      ])
]

bulk_length-Reads :
    (v : Option ℤ) (header : ℕ) (rest : Bytes)
    → Reads (header + length rest) (bulk_length v header rest)
unfolding bulk_length
bulk_length-Reads none header rest = tt
bulk_length-Reads (some (negsuc n)) header rest = refl
bulk_length-Reads (some (pos n)) header rest = elim (Bool-cases (ltb max_bulk_len n)) [
  | inl big ↦ rw big tt
  | inr fits ↦ rw fits (bulk_payload-Reads n header rest)
]

arg_line-Reads :
    (t : ℕ) (line rest : Bytes)
    → Reads (length line + 2 + length rest) (arg_line t (some (line, rest)))
unfolding arg_line
arg_line-Reads t [] rest = tt
arg_line-Reads t (t' ∷ body) rest =
    let size : suc (length body) + 2 + length rest ≡ length body + 3 + length rest = omega arith in
    elim (Bool-cases (t == b'$')) [
      | inl bulk ↦ rw (bulk, size) (bulk_length-Reads (string_to_ll_n body) (length body + 3) rest)
      | inr simple ↦ rw (simple, size) refl
    ]

parse_arg-Reads : (s : Bytes) → Reads (length s) (parse_arg s)
unfolding parse_arg
parse_arg-Reads [] = tt
parse_arg-Reads (t ∷ s) = elim (Bool-cases (not (t == b'$') && not (t == b'+'))) [
  | inl other ↦ rw other tt
  | inr marker ↦ elim (Option-cases (get_line (t ∷ s))) [
    | inl open' ↦ rw (marker, open') tt
    | inr ((line, rest), found) ↦
        rw (marker, found, length-get_line (t ∷ s) line rest found) (arg_line-Reads t line rest)
  ]
]

-- At most `n` bytes are read, and at least one.
abbrev pub Within : ℕ → Parse → Type 0
Within n incomplete = Unit
Within n protocol_error = Unit
Within n (consumed used argv) = (0 < used) × (used ≤ n)

return_int-Within : (n : ℕ) (argv : List Bytes) → Within n (return_int n argv)
unfolding return_int
return_int-Within n argv = elim (Bool-cases (n % 2 ^ 32 == 0)) [
  | inl none' ↦ rw none' tt
  | inr more ↦ elim (Bool-cases (ltb (n % 2 ^ 32) (2 ^ 31))) [
    | inl fits ↦ rw (more, fits) (ground arith, omega arith)
    | inr big ↦ rw (more, big) tt
  ]
]

Within-mono : (m n : ℕ) (x : Parse) → m ≤ n → Within m x → Within n x
Within-mono m n incomplete h w = tt
Within-mono m n protocol_error h w = tt
Within-mono m n (consumed used argv) h w = omega arith

after-Within :
    (n : ℕ) (s : Bytes) (x : Arg) (next : Bytes → ℕ → Bytes → Parse)
    → Reads (length s) x
    → ((a : Bytes) (used : ℕ) (rest : Bytes)
        → length s ≡ used + length rest
        → Within n (next a used rest))
    → Within n (after x next)
after-Within n s wait next h keep = tt
after-Within n s refuse next h keep = tt
after-Within n s (push a used rest) next h keep = keep a used rest h

parse_args-Within :
    (n at : ℕ) (s : Bytes) (argv : List Bytes) → Within (at + length s) (parse_args n at s argv)
unfolding parse_args
parse_args-Within zero at s argv =
    Within-mono at (at + length s) (return_int at argv) (omega arith) (return_int-Within at argv)
parse_args-Within (suc n) at s argv =
    after-Within (at + length s) s (parse_arg s) _ (parse_arg-Reads s) (λ a used rest e.
      Within-mono (at + used + length rest) (at + length s) _ (omega arith)
        (parse_args-Within n (at + used) rest (command_push argv a)))

parse_count-Within :
    (v : Option ℤ) (at : ℕ) (rest : Bytes) → Within (at + length rest) (parse_count v at rest)
unfolding parse_count
parse_count-Within none at rest = tt
parse_count-Within (some (negsuc n)) at rest = tt
parse_count-Within (some (pos n)) at rest = elim (Bool-cases (ltb max_argc n)) [
  | inl big ↦ rw big tt
  | inr fits ↦ rw fits (parse_args-Within n at rest [])
]

parse_header-Within :
    (line rest : Bytes) → Within (length line + 2 + length rest) (parse_header (some (line, rest)))
unfolding parse_header
parse_header-Within [] rest = tt
parse_header-Within (star ∷ []) rest = tt
parse_header-Within (star ∷ d ∷ digits) rest =
    Within-mono (length digits + 4 + length rest) _
      (parse_count (string_to_ll_n (d ∷ digits)) (length digits + 4) rest) (omega arith)
      (parse_count-Within (string_to_ll_n (d ∷ digits)) (length digits + 4) rest)

-- A command that the parser finds takes at least one byte and no more bytes than the buffer holds.
pub resp_parse_command-Within : (s : Bytes) → Within (length s) (resp_parse_command s)
unfolding resp_parse_command
resp_parse_command-Within [] = tt
resp_parse_command-Within (t ∷ s) = elim (Bool-cases (not (t == b'*'))) [
  | inl other ↦ rw other tt
  | inr star ↦ elim (Option-cases (get_line (t ∷ s))) [
    | inl open' ↦ rw (star, open') tt
    | inr ((line, rest), found) ↦
        rw (star, found, length-get_line (t ∷ s) line rest found) (parse_header-Within line rest)
  ]
]
