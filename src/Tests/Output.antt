-- ===== src/Tests/Output.antt =====
-- server.c: output that a socket takes in pieces.
use miniredis.Common.{List, true, [], ◌∷◌, ◌≡◌, refl, arith, bytes, take, drop, ◌==◌}
use miniredis.Server.Write.{
  Send, sent, interrupted, would_block, Output, pending, meets_full, write_client, compact_clients,
  Sends, write_client-Sends,
}

abbrev reply : Output
reply = record { out = bytes "+PONG"; out_sent = 1 }

abbrev calls : List Send
calls = sent 2 ∷ interrupted ∷ would_block ∷ []

write_client-Sends_example :
    Sends (meets_full calls) reply (bytes "+") (write_client calls reply (bytes "+"))
unfolding bytes
write_client-Sends_example = write_client-Sends calls reply (bytes "+") (omega arith)

-- Two more bytes are sent.
write_client_run :
    write_client calls reply (bytes "+")
    ≡ (true, record { out = bytes "+PONG"; out_sent = 3 }, bytes "+PO")
unfolding bytes write_client pending take drop
write_client_run = refl

compact_clients_run : compact_clients (λ n. n == 2) (1 ∷ 2 ∷ 3 ∷ []) ≡ 1 ∷ 3 ∷ []
unfolding compact_clients
compact_clients_run = refl
