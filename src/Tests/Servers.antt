-- ===== src/Tests/Servers.antt =====
-- A server with one client (engine/src/epoll_server.cpp).
use distributed_in_memory_kv.Prelude.{
  ℕ, suc, ◌+◌, ◌≤◌, ◌≡◌, refl, true, false, Option, some, List, [], ◌∷◌, ◌++◌, Bytes, arith, codes,
  if◌then◌else◌, drop,
}
use distributed_in_memory_kv.Resp.Value.{crlf, serialize}
use distributed_in_memory_kv.Resp.Parser.{is_empty, parse, read_line}
use distributed_in_memory_kv.Resp.Decimal.{parse_integer, print_nat}
use distributed_in_memory_kv.Resp.Command.{to_command}
use distributed_in_memory_kv.Server
use distributed_in_memory_kv.Server.{EpollServer, Calls, Accepted, connection, Event, start, run}
use distributed_in_memory_kv.Server.Connection.{
  ClientConnection, connect, Handler, would_block, handle_client_write, erase, disarm, on_failure,
  invalid_command,
}
use distributed_in_memory_kv.Server.Connection.Sends.{handle_client_write_lem}
use distributed_in_memory_kv.Server.Descriptors.{occurrences}
use distributed_in_memory_kv.Server.Descriptors.Starting.{IsTidy}
use distributed_in_memory_kv.Server.Descriptors.Lifecycle.{made, started, ran, Reachable-IsTidy}
use distributed_in_memory_kv.Server.Refusal.{Refusal, run-Refusal}
use distributed_in_memory_kv.Tests.Protocol.{room, get_key}

-- A descriptor above all that are open.
abbrev above : List ℕ → ℕ
above [] = 3
above (d ∷ ds) = suc (d + above ds)

above_fresh : (n : ℕ) (ds : List ℕ) → above ds ≤ n → occurrences n ds ≡ 0
above_fresh n [] h = refl
above_fresh n (d ∷ ds) h = ground (arith, above_fresh n ds)

abbrev replying : ClientConnection
replying = record (connect 7) { write_buffer = codes "-ERR"; awaits_write = true }

handle_client_write_lem_example :
    let c' = handle_client_write (1 ∷ 2 ∷ []) would_block replying in
    let all = erase 3 replying in
    (c' ≡ (if is_empty (drop 3 (codes "-ERR")) then disarm all else on_failure would_block all))
    × (c'.sent ++ c'.write_buffer ≡ codes "-ERR")
handle_client_write_lem_example = handle_client_write_lem (1 ∷ 2 ∷ []) would_block replying

-- The store counts the commands.
abbrev counting : Handler ℕ
counting = some (λ cmd n. (codes "+OK", suc n))

abbrev write_buffers : List ClientConnection → List Bytes
write_buffers [] = []
write_buffers (c ∷ cs) = c.write_buffer ∷ write_buffers cs

abbrev calls : Calls
calls = record {
  socket = true;
  reuse_addr = true;
  reuse_port = true;
  bind = true;
  listen = true;
  set_nonblocking = true;
  epoll_create = true;
  add_to_epoll = true;
}

abbrev running : EpollServer
running = (start above calls Server.new).1

abbrev quiet : Event
quiet = record {
  fd = 3;
  readable = true;
  writable = false;
  broken = false;
  accepted = connection true true ∷ [];
  received = [];
  recv_failure = would_block;
  taken = [];
  send_failure = would_block;
}

-- A client connects, sends a line that is no command and then one that is one, and waits for replies.
abbrev rounds : List (Option (List Event))
rounds =
    some (quiet ∷ [])
    ∷ some
        ((record quiet { fd = 15; received = (codes ":1" ++ crlf) ∷ serialize get_key ∷ [] }) ∷ [])
    ∷ []

-- The integer is replied to with an error, the command is not.
rounds-run :
    write_buffers (run above room counting rounds running 0).server.clients ≡ invalid_command ∷ []
unfolding run start parse read_line parse_integer serialize print_nat to_command
rounds-run = refl

Reachable-IsTidy_example : IsTidy (run above room counting rounds running 0).server
Reachable-IsTidy_example =
    Reachable-IsTidy above (λ ds. above_fresh (above ds) ds (omega arith)) room counting
      (run above room counting rounds running 0).server
      (ran rounds running 0 (started calls Server.new made))

run-Refusal_example : Refusal 0 (run above room counting rounds (record running { clients = [] }) 0)
run-Refusal_example =
    run-Refusal above room counting 0 rounds (record running { clients = [] }) tt tt
