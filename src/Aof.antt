-- ===== src/Aof.antt =====
-- aof.c: the append-only file. A command is appended as the array of bulk strings of
-- `command_to_resp`, and a rewrite replaces the file by commands that make the store.
pub mod Rewrite
use miniredis.Common.{
  ℕ, Bytes, Bool, true, false, not, ◌&&◌, Option, none, some, List, [], ◌∷◌, ◌++◌, if◌then◌else◌,
  length, c_str,
}
use miniredis.Resp.RoundTrip.{encode}
use miniredis.Files.{Call, write_full}

-- Where `g_aof_fd` leads: nowhere, to the file at the path, or to one that was replaced there.
pub data Log : Type 0 where
  closed at_path : Log
  replaced : Bytes → Log

-- The file at the path, and the globals of aof.c and server.c.
pub record Aof : Type 0 where
  pub file : Bytes
  pub log : Log
  pub replaying : Bool
  pub rewriting : Bool
  pub rewrite_buf : Bytes

unfoldable pub c_args : List Bytes → List Bytes
c_args [] = []
c_args (a ∷ argv) = c_str a ∷ c_args argv

unfoldable pub command_to_resp : List Bytes → Bytes
command_to_resp argv = encode (c_args argv)

-- The bytes go to the open file.
abbrev pub write_log : List Call → Bytes → Log → Aof → Bool × Aof
write_log calls b closed a = (false, a)
write_log calls b at_path a = let w = write_full calls b a.file in (w.0, record a { file = w.1 })
write_log calls b (replaced old) a =
    let w = write_full calls b old in (w.0, record a { log = replaced w.1 })

abbrev pub mirror : Bytes → Bool × Aof → Bool × Aof
mirror b (ok, a) =
    (ok, if ok && a.rewriting then record a { rewrite_buf = a.rewrite_buf ++ b } else a)

-- Whether the command was written, and the state.
unfoldable pub aof_append_command : List Call → List Bytes → Aof → Bool × Aof
aof_append_command calls argv a =
    let b = command_to_resp argv in mirror b (write_log calls b a.log a)

-- `aof_reopen`: `opens` says whether `open` succeeds. The rewrite buffer goes to the file at the
-- path, and is cleared whether it was written or not.
unfoldable pub aof_reopen : Bool → List Call → Aof → Bool × Aof
aof_reopen opens calls a =
    let w = write_full calls a.rewrite_buf a.file in
    if opens
    then (true, record a { file = w.1; log = at_path; rewrite_buf = [] })
    else (false, record a { log = closed })

-- `g_aof_fd >= 0`
unfoldable pub is_open : Log → Bool
is_open closed = false
is_open at_path = true
is_open (replaced old) = true
