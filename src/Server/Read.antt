-- ===== src/Server/Read.antt =====
-- server.c `read_client`: buffering what `recv` returns and draining the complete commands.
-- `S` is what the commands act on, the store and the client; `exec` is `dispatch_command` and
-- `closing` reads `c->closing`.
pub mod Chunks
use miniredis.Common.{
  ℕ, zero, suc, ◌+◌, ◌≤◌, ◌<◌, Bytes, Bool, true, false, List, [], ◌∷◌, ◌++◌, ltb, if◌then◌else◌,
  length, drop,
}
use miniredis.Resp.{Parse, incomplete, protocol_error, consumed, resp_parse_command}

abbrev pub max_query_buf : ℕ
max_query_buf = 67108864

-- `running` after `return 0` with more input to come, `closed` when a command set `c->closing`,
-- `dropped` after `return -1`.
pub data Status : Type 0 where
  running closed dropped : Status

pub record Conn {ℓ} (S : Type ℓ) : Type ℓ where
  pub input : Bytes
  pub state : S
  pub status : Status

module _ {ℓ} {S : Type ℓ} (exec : S → List Bytes → S) (closing : S → Bool) where
  -- One round of the inner loop: a command is executed, and its bytes are moved out of the buffer.
  -- The result says whether the loop goes on.
  drain_step : S → Bytes → Parse → Conn S × Bool
  drain_step s input incomplete = (record { input = input; state = s; status = running }, false)
  drain_step s input protocol_error = (record { input = input; state = s; status = dropped }, false)
  drain_step s input (consumed n argv) =
      let s' = exec s argv in
      let input' = drop n input in
      if closing s'
      then (record { input = input'; state = s'; status = closed }, false)
      else (record { input = input'; state = s'; status = running }, true)

  -- The inner loop; every round that goes on takes a byte at least from the buffer.
  unfoldable pub drain : ℕ → S → Bytes → Conn S
  unfolding drain_step
  drain zero s input = record { input = input; state = s; status = running }
  drain (suc fuel) s input =
      let (c, more) = drain_step s input (resp_parse_command input) in
      let rest = drain fuel c.state c.input in if more then rest else c

  -- What one `recv` of `chunk` does.
  unfoldable pub receive_open : S → Bytes → Conn S
  receive_open s input =
      if ltb max_query_buf (length input)
      then record { input = input; state = s; status = dropped }
      else drain (suc (length input)) s input

  -- A client that is closing or dropped is not read again.
  unfoldable pub receive : Conn S → Bytes → Conn S
  receive c chunk = elim c.status [
    | running ↦ receive_open c.state (c.input ++ chunk)
    | closed ↦ c
    | dropped ↦ c
  ]
