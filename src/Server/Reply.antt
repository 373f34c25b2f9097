-- ===== src/Server/Reply.antt =====
-- server.c: the part of a client that commands see, and the RESP reply builders.
use miniredis.Common.{ℕ, Bytes, Bool, [], ◌∷◌, ◌++◌, ℤ, take, bytes, c_str, length}
use miniredis.Util.Number.{format_zu, format_ll}

-- The output buffer and `closing`. The socket, the input and the bytes sent so far are the loop's.
pub record Client : Type 0 where
  pub out : Bytes
  pub closing : Bool

abbrev pub crlf : Bytes
crlf = 13 ∷ 10 ∷ []

-- `dynbuf_append` to the output buffer.
unfoldable pub append : Client → Bytes → Client
append c s = record c { out = c.out ++ s }

unfoldable pub reply_simple : Client → Bytes → Client
reply_simple c s = append c (b'+' ∷ (c_str s ++ crlf))

-- The message is printed into 256 bytes, the last of which is the NUL.
unfoldable pub reply_error : Client → Bytes → Client
reply_error c message = append c (bytes "-ERR " ++ (take 255 message ++ crlf))

unfoldable pub reply_integer : Client → ℤ → Client
reply_integer c n = append c (b':' ∷ (format_ll n ++ crlf))

unfoldable pub bulk_of : Bytes → Bytes
bulk_of s = b'$' ∷ (format_zu (length s) ++ (crlf ++ (s ++ crlf)))

unfoldable pub reply_bulk : Client → Bytes → Client
reply_bulk c s = append c (bulk_of s)

unfoldable pub reply_bulk_cstr : Client → Bytes → Client
reply_bulk_cstr c s = reply_bulk c (c_str s)

unfoldable pub reply_null : Client → Client
reply_null c = append c (bytes "$-1" ++ crlf)

unfoldable pub reply_array_header : Client → ℕ → Client
reply_array_header c n = append c (b'*' ∷ (format_zu n ++ crlf))
