-- ===== src/Server.antt =====
-- EpollServer (engine/src/epoll_server.cpp, engine/include/epoll_server.h). What the system calls return
-- is an argument, and `new_fd` gives the descriptor that a call makes when these are open.
pub mod Connection
pub mod Descriptors
pub mod Clients
pub mod Refusal
use distributed_in_memory_kv.Prelude.{
  ℕ, zero, suc, Bool, true, false, Option, none, some, List, [], ◌∷◌, ◌++◌, Bytes, ◌==◌, ◌&&◌,
  if◌then◌else◌,
}
use distributed_in_memory_kv.Server.Connection.{
  ClientConnection, connect, Failure, would_block, failed, Ended, done, crashed, out_of_fuel,
  Handled, Handler, handle_client_read, handle_client_write,
}

-- A descriptor of -1 is `none`. `descriptors` are those of the server's that are open.
pub record EpollServer : Type 0 where
  pub listen_fd : Option ℕ
  pub epoll_fd : Option ℕ
  pub running : Bool
  pub clients : List ClientConnection
  pub descriptors : List ℕ

abbrev pub new : EpollServer
new = record { listen_fd = none; epoll_fd = none; running = false; clients = []; descriptors = [] }

-- `clients_` by the descriptor.
unfoldable pub find : ℕ → List ClientConnection → Option ClientConnection
find fd [] = none
find fd (c ∷ cs) = let rest = find fd cs in if fd == c.fd then some c else rest

unfoldable pub assign : ClientConnection → List ClientConnection → List ClientConnection
assign c [] = c ∷ []
assign c (d ∷ cs) = let rest = assign c cs in if c.fd == d.fd then c ∷ cs else d ∷ rest

unfoldable pub erase : ℕ → List ClientConnection → List ClientConnection
erase fd [] = []
erase fd (c ∷ cs) = let rest = erase fd cs in if fd == c.fd then cs else c ∷ rest

unfoldable pub remove : ℕ → List ℕ → List ℕ
remove fd [] = []
remove fd (d ∷ ds) = let rest = remove fd ds in if fd == d then ds else d ∷ rest

unfoldable pub close : ℕ → EpollServer → EpollServer
close fd w = record w { descriptors = remove fd w.descriptors }

-- A call that makes a descriptor.
unfoldable pub open_fd : ℕ → EpollServer → EpollServer
open_fd fd w = record w { descriptors = fd ∷ w.descriptors }

unfoldable pub close_client : ℕ → EpollServer → EpollServer
unfolding close erase
close_client fd w = let w = close fd w in record w { clients = erase fd w.clients }

-- `close(fd)` for each client, and for a descriptor that is not -1.
unfoldable pub remove_all : List ClientConnection → List ℕ → List ℕ
remove_all [] ds = ds
remove_all (c ∷ cs) ds = remove_all cs (remove c.fd ds)

unfoldable pub remove_fd : Option ℕ → List ℕ → List ℕ
remove_fd none ds = ds
remove_fd (some fd) ds = remove fd ds

unfoldable pub close_fd : Option ℕ → EpollServer → EpollServer
close_fd fd w = record w { descriptors = remove_fd fd w.descriptors }

unfoldable pub stop : EpollServer → EpollServer
unfolding close_fd
stop w =
    let closed = remove_all w.clients w.descriptors in
    let w₁ = record w { running = false; clients = []; descriptors = closed } in
    let w₂ = record (close_fd w₁.epoll_fd w₁) { epoll_fd = none } in
    let w₃ = record (close_fd w₂.listen_fd w₂) { listen_fd = none } in if w.running then w₃ else w

-- Which of the calls that `start` makes succeed.
pub record Calls : Type 0 where
  pub socket : Bool
  pub reuse_addr : Bool
  pub reuse_port : Bool
  pub bind : Bool
  pub listen : Bool
  pub set_nonblocking : Bool
  pub epoll_create : Bool
  pub add_to_epoll : Bool

-- What `accept` gives before it would block: another error, or a connection, with the results of
-- `set_nonblocking` and `add_to_epoll`.
pub data Accepted : Type 0 where
  error : Accepted
  connection : Bool → Bool → Accepted

-- What `epoll_wait` reports of a descriptor, and what the calls of the handlers give then.
pub record Event : Type 0 where
  pub fd : ℕ
  pub readable : Bool
  pub writable : Bool
  pub broken : Bool
  pub accepted : List Accepted
  pub received : List Bytes
  pub recv_failure : Failure
  pub taken : List ℕ
  pub send_failure : Failure

pub record Served (S : Type 0) : Type 0 where
  pub ended : Ended
  pub server : EpollServer
  pub store : S

abbrev pub is_fd : ℕ → Option ℕ → Bool
is_fd fd none = false
is_fd fd (some listen_fd) = fd == listen_fd

module _ (new_fd : List ℕ → ℕ) where
  -- Whatever fails after `socket` closes what `socket` made.
  unfoldable pub create_listen_socket : Calls → EpollServer → Bool × EpollServer
  unfolding open_fd close
  create_listen_socket calls w =
      let fd = new_fd w.descriptors in
      let w' = record (open_fd fd w) { listen_fd = some fd } in
      let options = calls.reuse_addr && calls.reuse_port in
      let made =
        if options && calls.bind && calls.listen && calls.set_nonblocking
        then (true, w')
        else (false, close fd w') in
      if calls.socket then made else (false, record w { listen_fd = none })

  -- `start` once there is a listening socket.
  unfoldable pub start_epoll : Calls → EpollServer → Bool × EpollServer
  unfolding open_fd close_fd close
  start_epoll calls w =
      let fd = new_fd w.descriptors in
      let w' = record (open_fd fd w) { epoll_fd = some fd } in
      let made =
        if calls.add_to_epoll
        then (true, record w' { running = true })
        else (false, close_fd w'.listen_fd (close fd w')) in
      if calls.epoll_create
      then made
      else (false, close_fd w.listen_fd (record w { epoll_fd = none }))

  unfoldable pub start : Calls → EpollServer → Bool × EpollServer
  unfolding create_listen_socket start_epoll
  start calls w =
      let listening = create_listen_socket calls w in
      let started = if listening.0 then start_epoll calls listening.1 else listening in
      if w.running then (false, w) else started

  unfoldable pub on_connection : Bool → Bool → ℕ → EpollServer → EpollServer
  unfolding open_fd close assign
  on_connection nonblocking added fd w =
      let w' = open_fd fd w in
      if nonblocking && added
      then record w' { clients = assign (connect fd) w.clients }
      else close fd w'

  unfoldable pub accept_connection : List Accepted → EpollServer → EpollServer
  unfolding on_connection
  accept_connection [] w = w
  accept_connection (error ∷ accepted) w = accept_connection accepted w
  accept_connection (connection nonblocking added ∷ accepted) w =
      accept_connection accepted (on_connection nonblocking added (new_fd w.descriptors) w)

unfoldable pub write_part : Event → ClientConnection → ClientConnection
unfolding handle_client_write
write_part ev c =
    let written = handle_client_write ev.taken ev.send_failure c in
    if ev.writable then written else c

-- An event of a client that is not broken, after its part that reads.
unfoldable pub after_read : {S : Type 0} → Ended → Event → Handled S → EpollServer → Served S
unfolding write_part close_client assign
after_read done ev h w =
    let c = write_part ev h.client in
    let w' = record w { clients = assign c w.clients } in
    record {
      ended = done;
      server = if c.should_close then close_client ev.fd w' else w';
      store = h.store;
    }
after_read ended ev h w = record {
  ended = ended;
  server = record w { clients = assign h.client w.clients };
  store = h.store;
}

unfoldable pub after_event :
    {S : Type 0} → Ended → (EpollServer → S → Served S) → Served S → Served S
after_event done again r = again r.server r.store
after_event ended again r = r

module _ {S : Type 0} (can_reserve : ℕ → Bool) (handler : Handler S) where
  unfoldable pub read_part : Event → ClientConnection → S → Handled S
  unfolding handle_client_read
  read_part ev c s =
      let read = handle_client_read can_reserve handler ev.received ev.recv_failure c s in
      if ev.readable then read else record { ended = done; client = c; store = s }

  unfoldable pub on_client : Option ClientConnection → Event → EpollServer → S → Served S
  unfolding read_part after_read close_client
  on_client none ev w s = record { ended = done; server = w; store = s }
  on_client (some c) ev w s =
      let h = read_part ev c s in
      let served = after_read h.ended ev h w in
      if ev.broken
      then record { ended = done; server = close_client ev.fd w; store = s }
      else served

module _ (new_fd : List ℕ → ℕ) {S : Type 0} (can_reserve : ℕ → Bool) (handler : Handler S) where
  unfoldable pub on_event : Event → EpollServer → S → Served S
  unfolding accept_connection on_client find
  on_event ev w s =
      let accepted = if ev.readable then accept_connection new_fd ev.accepted w else w in
      let served = on_client can_reserve handler (find ev.fd w.clients) ev w s in
      if is_fd ev.fd w.listen_fd
      then record { ended = done; server = accepted; store = s }
      else served

  -- The events of one round of `run`.
  unfoldable pub on_events : List Event → EpollServer → S → Served S
  unfolding on_event after_event
  on_events [] w s = record { ended = done; server = w; store = s }
  on_events (ev ∷ events) w s = let r = on_event ev w s in after_event r.ended (on_events events) r

  -- The rounds of `run`, each with what `epoll_wait` gives: it reports events, or a signal has
  -- interrupted it, which are no events, or it fails, which ends the loop.
  unfoldable pub run : List (Option (List Event)) → EpollServer → S → Served S
  unfolding on_events after_event
  run [] w s = record { ended = done; server = w; store = s }
  run (none ∷ rounds) w s = record { ended = done; server = w; store = s }
  run (some events ∷ rounds) w s =
      let r = on_events events w s in
      let rest = after_event r.ended (run rounds) r in
      if w.running then rest else record { ended = done; server = w; store = s }
