-- ===== src/Resp/RoundTrip.antt =====
-- The parser reads back what the encoders of aof.c write: `aw_write_command` and
-- `command_to_resp` print the same array of bulk strings.
use miniredis.Common.{
  ℕ, zero, suc, ◌+◌, ◌/◌, ◌≤◌, ◌<◌, ◌^◌, ◌≡◌, ◌≢◌, refl, ap, ap₂, ◌∙◌, arith, Bytes, some, List, [],
  ◌∷◌, ◌++◌, length, Bool-cases, inl, inr, ltb, get_or, drop, take-append_self, length-append,
  append_assoc, append-nil, false, le→ltb, get_or-append_length, drop-append_length,
}
use miniredis.Server.Reply.{crlf}
use miniredis.Util.Number.{format_zu, digits_of}
use miniredis.Util.Number.Print.{string_to_ll_n-format_zu, format_zu_head}
use miniredis.Resp.{
  get_line, cr, lf, push, bulk_payload, parse_arg, consumed, return_int, parse_args,
  resp_parse_command, command_push, max_bulk_len, max_argc,
}

-- One round of the loops of `aw_write_command`.
unfoldable pub bulk : Bytes → Bytes
bulk a = (b'$' ∷ format_zu (length a)) ++ (crlf ++ (a ++ crlf))

unfoldable pub bulks : List Bytes → Bytes
bulks [] = []
bulks (a ∷ argv) = bulk a ++ bulks argv

-- The bytes of a command with the argument vector `argv`.
unfoldable pub encode : List Bytes → Bytes
encode argv = (b'*' ∷ format_zu (length argv)) ++ (crlf ++ bulks argv)

abbrev pub All {ℓ} : {A : Type ℓ} → (A → Type 0) → List A → Type 0
All P [] = Unit
All P (x ∷ xs) = P x × All P xs

-- A text with no carriage return in it.
abbrev NoCr : Bytes → Type 0
NoCr [] = Unit
NoCr (c ∷ s) = (c ≢ cr) × NoCr s

get_line-crlf :
    (line rest : Bytes) → NoCr line → get_line (line ++ (crlf ++ rest)) ≡ some (line, rest)
unfolding get_line
get_line-crlf [] rest h = refl
get_line-crlf (c ∷ []) rest h = ground arith
get_line-crlf (c ∷ d ∷ line) rest h = let ih = get_line-crlf (d ∷ line) rest h.1 in ground arith

NoCr-append : (a b : Bytes) → NoCr a → NoCr b → NoCr (a ++ b)
NoCr-append [] b h k = k
NoCr-append (c ∷ a) b h k = (h.0, NoCr-append a b h.1 k)

digits_of-NoCr : (f n : ℕ) → NoCr (digits_of f n)
unfolding digits_of
digits_of-NoCr zero n = tt
digits_of-NoCr (suc f) n = elim (Bool-cases (ltb n 10)) [
  | inl small ↦ rw small (omega arith, tt)
  | inr large ↦
      rw large (NoCr-append (digits_of f (n / 10)) _ (digits_of-NoCr f (n / 10)) (omega arith, tt))
]

header-NoCr : (c n : ℕ) → c ≢ cr → NoCr (c ∷ format_zu n)
unfolding format_zu
header-NoCr c n h = (h, digits_of-NoCr (suc n) n)

bulk-append :
    (a rest : Bytes)
    → bulk a ++ rest ≡ (b'$' ∷ format_zu (length a)) ++ (crlf ++ (a ++ (crlf ++ rest)))
unfolding bulk
bulk-append a rest = simp append_assoc

length-bulk : (a : Bytes) → length (bulk a) ≡ length (format_zu (length a)) + length a + 5
unfolding bulk
length-bulk a =
    omega (arith, length-append (format_zu (length a)) (crlf ++ (a ++ crlf)), length-append a crlf)

at-crlf :
    (rest : Bytes)
    → (get_or (crlf ++ rest) 0 0 ≡ cr)
      × (get_or (crlf ++ rest) 1 0 ≡ lf)
      × (drop 2 (crlf ++ rest) ≡ rest)
unfolding get_or drop
at-crlf rest = (refl, refl, refl)

payload-crlf :
    (a rest : Bytes) (header : ℕ)
    → bulk_payload (length a) header (a ++ (crlf ++ rest)) ≡ push a (header + length a + 2) rest
unfolding bulk_payload
payload-crlf a rest header =
    let room : ltb (length (a ++ (crlf ++ rest))) (length a + 2) ≡ false =
      ground (arith, length-append a (crlf ++ rest)) in
    let zero' : length a + 0 ≡ length a = omega arith in
    let ends = at-crlf rest in
    let at_cr : get_or (a ++ (crlf ++ rest)) (length a) 0 ≡ cr =
      rw zero' at (get_or-append_length a (crlf ++ rest) 0 0 ∙ ends.0) in
    let at_lf = get_or-append_length a (crlf ++ rest) 1 0 ∙ ends.1 in
    let left = drop-append_length a (crlf ++ rest) 2 ∙ ends.2 in
    rw (room, at_cr, at_lf, take-append_self, left) refl

pub parse_arg-bulk :
    (a rest : Bytes)
    → length a ≤ max_bulk_len
    → parse_arg (bulk a ++ rest) ≡ push a (length (bulk a)) rest
unfolding parse_arg
parse_arg-bulk a rest fits =
    let digits = format_zu (length a) in
    let line =
      get_line-crlf (b'$' ∷ digits) (a ++ (crlf ++ rest))
        (header-NoCr b'$' (length a) (omega arith)) in
    let number = string_to_ll_n-format_zu (length a) (omega arith) in
    let small : ltb max_bulk_len (length a) ≡ false = le→ltb max_bulk_len (length a) fits in
    let size : length digits + 3 + length a + 2 ≡ length (bulk a) = omega (arith, length-bulk a) in
    rw (bulk-append a rest, line, number, small)
      (payload-crlf a rest (length digits + 3) ∙ ap (λ u. push a u rest) size)

return_int-small :
    (n : ℕ) (argv : List Bytes) → 0 < n → n < 2 ^ 31 → return_int n argv ≡ consumed n argv
unfolding return_int
return_int-small n argv h k = ground arith

parse_args-push :
    (n at used : ℕ) (s a rest : Bytes) (argv : List Bytes)
    → parse_arg s ≡ push a used rest
    → parse_args (suc n) at s argv ≡ parse_args n (at + used) rest (command_push argv a)
unfolding parse_args
parse_args-push n at used s a rest argv h = rw h

parse_args-bulks :
    (at : ℕ) (todo done : List Bytes) (rest : Bytes)
    → All (λ a. length a ≤ max_bulk_len) todo
    → at + length (bulks todo) < 2 ^ 31
    → 0 < at
    → parse_args (length todo) at (bulks todo ++ rest) done
      ≡ consumed (at + length (bulks todo)) (done ++ todo)
parse_args-bulks at [] done rest all fits some' =
    unfold parse_args bulks in
    rw append-nil (
      return_int-small at done some' (unfold bulks in omega arith)
      ∙ ap (λ n. consumed n done) (omega arith))
parse_args-bulks at (a ∷ todo) done rest all fits some' =
    let size : length (bulks (a ∷ todo)) ≡ length (bulk a) + length (bulks todo) =
      unfold bulks in length-append (bulk a) (bulks todo) in
    let order : bulks (a ∷ todo) ++ rest ≡ bulk a ++ (bulks todo ++ rest) =
      unfold bulks in append_assoc (bulk a) (bulks todo) rest in
    let next =
      parse_args-bulks (at + length (bulk a)) todo (command_push done a) rest all.1 (omega arith)
        (omega arith) in
    let pushed : command_push done a ++ todo ≡ done ++ a ∷ todo =
      unfold command_push in append_assoc done (a ∷ []) todo in
    rw (order, size)
      (parse_args-push (length todo) at _ _ a _ done (parse_arg-bulk a (bulks todo ++ rest) all.0)
        ∙ (next ∙ ap₂ consumed (omega arith) pushed))

pub encode-cons :
    (argv : List Bytes) (rest : Bytes)
    → encode argv ++ rest ≡ b'*' ∷ (format_zu (length argv) ++ (crlf ++ (bulks argv ++ rest)))
unfolding encode
encode-cons argv rest = simp append_assoc

encode-line :
    (argv : List Bytes) (rest : Bytes)
    → get_line (encode argv ++ rest) ≡ some (b'*' ∷ format_zu (length argv), bulks argv ++ rest)
encode-line argv rest = rw (encode-cons argv rest) (
    get_line-crlf (b'*' ∷ format_zu (length argv)) (bulks argv ++ rest)
      (header-NoCr b'*' (length argv) (omega arith)))

pub length-encode :
    (argv : List Bytes)
    → length (encode argv) ≡ length (format_zu (length argv)) + 3 + length (bulks argv)
unfolding encode
length-encode argv = omega (arith, length-append (format_zu (length argv)) (crlf ++ bulks argv))

-- The parser reads an encoded command back whatever bytes stand behind it: it returns the argument
-- vector and the length of the encoding, for at most 2 ^ 20 arguments of at most 512 MiB each whose
-- encoding is shorter than 2 ^ 31 bytes.
pub resp_parse_command-encode :
    (argv : List Bytes) (rest : Bytes)
    → length argv ≤ max_argc
    → All (λ a. length a ≤ max_bulk_len) argv
    → length (encode argv) < 2 ^ 31
    → resp_parse_command (encode argv ++ rest) ≡ consumed (length (encode argv)) argv
resp_parse_command-encode argv rest few short fits =
    let (c, digits, e, _) = format_zu_head (length argv) in
    let line : get_line (encode argv ++ rest)
        ≡ some (b'*' ∷ format_zu (length argv), bulks argv ++ rest) =
      encode-line argv rest in
    let size : length (encode argv) ≡ length digits + 4 + length (bulks argv) =
      length-encode argv ∙ rw e (omega arith) in
    let line' = rw (encode-cons argv rest, e) at line in
    let number = rw e at (string_to_ll_n-format_zu (length argv) (omega arith)) in
    let small = le→ltb max_argc (length argv) few in
    rw (encode-cons argv rest, size)
      (unfold resp_parse_command in
        rw (e, line', number, small)
          (parse_args-bulks (length digits + 4) argv [] rest short (omega arith) (omega arith)))
