-- ===== src/Aof/Rewrite.antt =====
-- aof.c `aof_rewrite`: each key becomes the commands that make it.
use miniredis.Common.{
  ℕ, ◌+◌, Bytes, Bool, true, false, Option, none, some, List, [], ◌∷◌, ◌++◌, ℤ, pos, negsuc, bytes,
  if◌then◌else◌, ◌==◌, take,
}
use miniredis.Util.Number.{format_ll}
use miniredis.Dict.{Entry, entries_of}
use miniredis.Double.{Libm}
use miniredis.Skiplist.{Node, zsl_nodes}
use miniredis.Object.{Obj, str, list, hash, set, zset, Robj}
use miniredis.Resp.RoundTrip.{encode}
use miniredis.Db.{Db}
use miniredis.Files.{Call, Replacing, replace_file, write_full}

-- The commands `NAME key x…` with at most `room` elements each, an element being its arguments.
-- `held` are the arguments that wait to be written, for `n` elements.
unfoldable pub chunks : ℕ → ℕ → List Bytes → List Bytes → List (List Bytes) → List (List Bytes)
chunks room n front held [] = if n == 0 then [] else (front ++ held) ∷ []
chunks room n front held (x ∷ xs) =
    let full = (front ++ held) ∷ chunks room 1 front x xs in
    let more = chunks room (n + 1) front (held ++ x) xs in if n == room then full else more

unfoldable pub single : Bytes → List Bytes
single v = v ∷ []

unfoldable pub field_args : Entry Bytes → List Bytes
field_args e = e.key ∷ e.val ∷ []

unfoldable pub member_args : Entry (Unit {0}) → List Bytes
member_args e = e.key ∷ []

-- The score is printed into 32 bytes.
unfoldable pub node_args : Libm → Node → List Bytes
node_args libm n = take 31 (libm.print_17g n.score) ∷ n.member ∷ []

unfoldable pub map_args {ℓ} : {A : Type ℓ} → (A → List Bytes) → List A → List (List Bytes)
map_args f [] = []
map_args f (x ∷ xs) = f x ∷ map_args f xs

-- The expiry as an argument, where there is one.
unfoldable pub expire_arg : ℤ → Option Bytes
expire_arg (pos n) = some (format_ll (pos n))
expire_arg (negsuc n) = none

set_command : Bytes → Bytes → Option Bytes → List Bytes
set_command key b none = bytes "SET" ∷ key ∷ b ∷ []
set_command key b (some at) = bytes "SET" ∷ key ∷ b ∷ bytes "PXAT" ∷ at ∷ []

pexpireat : Bytes → Option Bytes → List (List Bytes)
pexpireat key none = []
pexpireat key (some at) = (bytes "PEXPIREAT" ∷ key ∷ at ∷ []) ∷ []

-- 64 values or 64 pairs to a command.
unfoldable pub container : Bytes → Bytes → ℤ → List (List Bytes) → List (List Bytes)
unfolding pexpireat
container name key expire_at xs =
    chunks 64 0 (name ∷ key ∷ []) [] xs ++ pexpireat key (expire_arg expire_at)

unfoldable pub rewrite_obj : Libm → Bytes → Obj → ℤ → List (List Bytes)
unfolding set_command
rewrite_obj libm key (str b) e = set_command key b (expire_arg e) ∷ []
rewrite_obj libm key (list l) e = container (bytes "RPUSH") key e (map_args single l)
rewrite_obj libm key (hash h) e =
    container (bytes "HSET") key e (map_args field_args (entries_of h.table))
rewrite_obj libm key (set m) e =
    container (bytes "SADD") key e (map_args member_args (entries_of m.table))
rewrite_obj libm key (zset z) e =
    container (bytes "ZADD") key e (map_args (node_args libm) (zsl_nodes z.zsl))

unfoldable pub rewrite_commands : Libm → List (Entry Robj) → List (List Bytes)
rewrite_commands libm [] = []
rewrite_commands libm (e ∷ es) =
    rewrite_obj libm e.key e.val.obj e.val.expire_at ++ rewrite_commands libm es

-- `aw_write_command` one after another, until one fails.
unfoldable pub write_commands : List Call → List (List Bytes) → Bytes → Bool × Bytes
write_commands calls [] file = (true, file)
write_commands calls (argv ∷ rest) file =
    let w = write_full calls (encode argv) file in
    let next = write_commands w.2 rest w.1 in if w.0 then next else (false, w.1)

-- Whether the file at the path was replaced, and that file.
unfoldable pub aof_rewrite : Replacing → Libm → Db → Bytes → Bool × Bytes
aof_rewrite r libm s old =
    replace_file r (write_commands r.writes (rewrite_commands libm (entries_of s.d.table)) []) old
