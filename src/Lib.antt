-- ===== src/Lib.antt =====
-- miniredis, a Redis server in C: the request parser, the dictionary, the commands on the store, the
-- sorted sets, and what makes the data last: the append-only file and the snapshot.
--
-- A request arrives in chunks at `read_client` (src/server.c), which buffers them and calls
-- `resp_parse_command` (src/resp.c) until no complete command is left; `dispatch_command` (src/db.c)
-- finds the handler in its table, appends a command that changes the data to the log (src/aof.c), and
-- runs the handler on the store and the client; the handler checks its arguments and replies into the
-- client's output. A restart replays the log through the same dispatch. SAVE and BGSAVE write the
-- store to a snapshot (src/rdb.c), REWRITEAOF and BGREWRITEAOF write it as
-- commands to a new log; while a child does that, the log is also kept in a buffer. The store is a
-- hash table (src/dict.c, keyed by src/siphash.c) from keys to objects (src/object.c): a string, a
-- list (src/list.c), a hash or a set (src/dict.c), or a sorted set (src/zskiplist.c). Each object has
-- an expiry; `lookup_key` drops a key whose time has come, and `db_expire_cycle` drops some more now
-- and then.
--
--   Common              native numbers, lists, signed integers, C strings
--   Util.Number         src/util.c `string_to_ll_n`, `string_to_ll`, and printf's decimal numbers;
--                       Print: parsing what was printed
--   Util.Glob           src/util.c `util_glob_match`; Spec: what a pattern matches
--   Resp                src/resp.c `resp_parse_command`; Lines, Extend, Bounds: the parser on a
--                       longer buffer, and how much it reads; RoundTrip: the parser and
--                       `aw_write_command` of src/aof.c
--   Server.Reply        src/server.c `reply_…`; a client is its output and `closing`
--   Server.Read         src/server.c `read_client`; Chunks: how input was cut into chunks
--   Server.Write        src/server.c `write_client` and `compact_clients`
--   Siphash             src/siphash.c, executable
--   Dict                src/dict.c: bucket arrays of chains; Chain, Laws: the invariant, the map
--                       that a dictionary stands for, and what the operations do to it
--   Double              64-bit patterns of scores, and what the C library does on them
--   Skiplist            src/zskiplist.c `zsl_…`: nodes at addresses; Entries: the member and the
--                       score at an address; Links, Splice, Fields: what the writes change; Chain,
--                       Search, Order: a level as a list, where a search ends in it, and the order;
--                       Valid: the invariant, Insert and Delete: it is kept; Keys: level 0 read off
--   Zset                src/zskiplist.c `zset_…`; Scores: a sorted set as a map to scores; Ranking,
--                       with Updates: the dictionary beside the skip list, and the order
--   Object              src/object.c: the objects
--   Files               src/aof.c and src/rdb.c: a file as its bytes, `write_full`, and the
--                       replacement of a file by a new one
--   Db                  src/db.c: the store, `lookup_key`, the helpers; Live, Runs: the live store,
--                       which holds the objects that have not expired, and the outcome of a command
--                       on it; Keeps here and below: the invariant of the store
--   Db.Strings          src/db.c: GET, MGET, MSET, APPEND, STRLEN, RENAME, SETNX, GETSET; Set: SET
--                       and SETEX; Range: GETRANGE and SETRANGE; Counter: INCR and DECR
--   Db.Keys             src/db.c: DEL, EXISTS, TYPE, KEYS and the commands of the connection and the
--                       server; Deletion, Listing: DEL and KEYS on the live store;
--                       Expiry: EXPIRE to PTTL and `db_expire_cycle`
--   Db.Lists            src/db.c: the commands on lists; Ranges, Edits; Ends, Outcome: the two ends
--   Db.Hashes, Db.Sets  src/db.c: the commands on hashes and sets; Fields, Growth: what their loops
--                       change; Algebra: SINTER, SUNION, SDIFF; Pop: SPOP
--   Db.Doubles          src/db.c: scores in arguments and replies, HINCRBYFLOAT
--   Db.Zsets            src/db.c: the commands on sorted sets; Ranges: those on ranges
--   Rdb                 src/rdb.c: writing a snapshot; Load: reading one; RoundTrip: what a reader
--                       takes from what a writer wrote
--   Aof                 src/aof.c: appending and reopening; Rewrite: `aof_rewrite`
--   Dispatch            src/db.c: the table of commands and `dispatch_command`; Save: SAVE to
--                       BGREWRITEAOF, their children and `reap_children` of src/server.c; Replay:
--                       `aof_replay`, with Rebuild: the store that it rebuilds, and Quiet: it
--                       logs nothing; Keeps, Reach: the
--                       steps of a server
--   Pubsub              src/pubsub.c: the channels; Deliveries: the lists as a table of who gets
--                       what; Subscriptions, Leaving, Channels, Disconnect, Publishing: the
--                       operations
--   Dynbuf              src/dynbuf.c: a growing buffer and its capacity
--   Tests               runs and instances on concrete inputs
--
-- A handler `cmd_x(store, c, cmd)` is a function `cmd_x` from the environment, the argument vector,
-- the store and the client to the new store and client. The environment holds the clock, which one
-- command reads as standing still; the random bytes that seed a dictionary made on the way; the draws
-- of `rand`; and the sums, `strtod` and `printf` of doubles, which are the C library's. A helper of a
-- handler by clauses stands for the code behind one of its tests: `set_parsed` for the lines behind
-- the option loop of `cmd_set`, `get_reply` for those behind the lookup of `cmd_get`. An argument is a
-- buffer whose C string a handler sees, `c_str`, as the code calls `strlen` on it. An object that is
-- changed in place through the pointer in its entry is a write at its key, `store_write`, since no
-- other pointer to it is kept. The nodes of a skip list are a heap of its own, as their links are
-- shared. Where the code frees memory the model does nothing. `xmalloc` exits on failure, so
-- allocations succeed.
--
-- Files, processes and the socket are given from outside: what each `write`, `fsync`, `rename`,
-- `open`, `fork` and `send` returns is an argument. A list of results drives `write_full` and
-- `write_client`, and behind its end each call takes everything.
--
-- `long long` and `int64_t` values are integers; a sum that leaves 64 bits, which C leaves undefined,
-- wraps around here by `wrap_ll`, as the overflow tests of src/db.c take it to do. `size_t` and
-- `uint64_t` are natural numbers, wrapped where src/siphash.c and src/dynbuf.c compute; sizes of
-- buffers and tables stay below 2 ^ 64 by the memory at hand. The `int` that counts the channels of a
-- client is a natural number too.
--
-- Loops are structural recursion on the list that they walk along, except some on fuel. `drain` of
-- Server.Read runs on one more than the length of the buffer, and each round takes a byte at least.
-- `expire_loop` runs on the number of buckets, and each round takes one. `glob_rec` runs on one
-- more than the length of the pattern, and each call shortens it. `digits_of` runs on one more than
-- the number. The walks along a skip list run on the number of addresses given out, since a walk
-- meets no node twice. `replay_loop` runs on one more than the length of the log, as each round takes
-- a byte at least. `random_level` runs on 31, the levels above the first. `double_cap` runs on 63,
-- which takes any capacity to 2 ^ 63.
--
-- Not modelled: the nodes and pointers of src/list.c, whose lists are sequences here; sockets,
-- signals and the event loops of src/server.c, with the errors of `recv`;
-- `aof_open`, `aof_close`, `aof_periodic`, which are file calls alone; src/main.c; the clock, the
-- random bytes and the log of src/util.c. They are system calls and the loop around them.
pub mod Common
pub mod Util
pub mod Resp
pub mod Server
pub mod Siphash
pub mod Dict
pub mod Double
pub mod Skiplist
pub mod Zset
pub mod Object
pub mod Files
pub mod Db
pub mod Rdb
pub mod Aof
pub mod Dispatch
pub mod Pubsub
pub mod Dynbuf
pub mod Tests
