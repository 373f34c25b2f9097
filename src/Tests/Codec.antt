-- ===== src/Tests/Codec.antt =====
-- resp.c, util.c and `read_client`: parsing, printing and buffering on short inputs.
use miniredis.Common.{
  Bytes, ◌↔◌, true, false, none, some, List, [], ◌∷◌, ◌++◌, ◌≡◌, refl, arith, negsuc, ◌≤◌, ◌<◌,
  ll_max, length, bytes,
}
use miniredis.Util.Glob.{
  util_glob_match, glob_rec, drop_stars, any_suffix, same_char, glob_class, class_loop,
}
use miniredis.Util.Glob.Spec.{Matches, util_glob_match-Matches}
use miniredis.Util.Number.{string_to_ll_n, format_ll, format_zu, digits_of}
use miniredis.Util.Number.Print.{string_to_ll_n-format_ll}
use miniredis.Resp.{resp_parse_command, consumed}
use miniredis.Resp.Extend.{Later, resp_parse_command-Later}
use miniredis.Resp.RoundTrip.{bulk, bulks, encode, resp_parse_command-encode}
use miniredis.Server.Read.{Conn, running, receive}
use miniredis.Server.Read.Chunks.{Agree, receive-receive}

string_to_ll_n-format_ll_example :
    (8 ≤ ll_max → string_to_ll_n (format_ll (negsuc 7)) ≡ some (negsuc 7))
    × (ll_max < 8 → string_to_ll_n (format_ll (negsuc 7)) ≡ none)
string_to_ll_n-format_ll_example = string_to_ll_n-format_ll (negsuc 7) (omega arith, omega arith)

-- "*1\r\n$4\r\nPING\r\n"
abbrev ping : Bytes
ping = encode (bytes "PING" ∷ [])

resp_parse_command-encode_example :
    resp_parse_command (ping ++ b'*' ∷ []) ≡ consumed (length ping) (bytes "PING" ∷ [])
unfolding encode bulks bulk bytes format_zu digits_of
resp_parse_command-encode_example =
    resp_parse_command-encode (bytes "PING" ∷ []) (b'*' ∷ []) (omega arith) (omega arith, tt)
      (omega arith)

resp_parse_command-Later_example :
    Later (resp_parse_command ping) (resp_parse_command (ping ++ b'*' ∷ []))
resp_parse_command-Later_example = resp_parse_command-Later ping (b'*' ∷ [])

-- A state that logs the commands.
abbrev log : List (List Bytes) → List Bytes → List (List Bytes)
log done argv = done ++ argv ∷ []

abbrev start : Conn (List (List Bytes))
start = record { input = []; state = []; status = running }

receive-receive_example :
    Agree log
      (λ s. false)
      (receive log (λ s. false) (receive log (λ s. false) start (b'*' ∷ b'1' ∷ [])) ping)
      (receive log (λ s. false) start ((b'*' ∷ b'1' ∷ []) ++ ping))
unfolding encode bulks bulk bytes format_zu digits_of
receive-receive_example =
    receive-receive log (λ s. false) start (b'*' ∷ b'1' ∷ []) ping (omega arith)

-- "a[b-d]*" and "acx"
util_glob_match-Matches_example :
    (util_glob_match (bytes "a[b-d]*") (bytes "acx") ≡ true)
    ↔ Matches (bytes "a[b-d]*") (bytes "acx")
util_glob_match-Matches_example = util_glob_match-Matches (bytes "a[b-d]*") (bytes "acx")

glob_example :
    (util_glob_match (bytes "a[b-d]*") (bytes "acx") ≡ true)
    × (util_glob_match (bytes "a[!b-d]*") (bytes "acx") ≡ false)
    × (util_glob_match (bytes "*x?") (bytes "xxyxz") ≡ true)
unfolding bytes util_glob_match glob_rec drop_stars any_suffix same_char glob_class class_loop
glob_example = (refl, refl, refl)
