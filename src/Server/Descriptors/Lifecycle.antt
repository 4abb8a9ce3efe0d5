-- ===== src/Server/Descriptors/Lifecycle.antt =====
-- The life of a server, as steps of `start`, `run` and `stop`, and the descriptors it holds meanwhile
-- (engine/src/epoll_server.cpp).
use mathlib.Core.Path.{subst}
use distributed_in_memory_kv.Prelude.{
  if_of_false, if-holds, ℕ, ◌≤◌, ◌≡◌, refl, sym, ap, ◌∙◌, Bool, false, inl, inr, Option, none, some,
  List, [], ◌∷◌, arith, Bool-cases,
}
use distributed_in_memory_kv.Server
use distributed_in_memory_kv.Server.Connection.{
  ClientConnection, Ended, done, crashed, out_of_fuel, Handled, Handler,
}
use distributed_in_memory_kv.Server.Connection.Replies.{handle_client_read-Refuses}
use distributed_in_memory_kv.Server.Connection.Sends.{handle_client_write-fd}
use distributed_in_memory_kv.Server.{
  EpollServer, find, assign, close_client, Calls, Event, Served, stop, start, accept_connection,
  read_part, write_part, after_read, on_client, on_event, after_event, on_events, run, is_fd,
}
use distributed_in_memory_kv.Server.Descriptors.{
  occurrences, client_fds, client_fds-assign_old, find-fd, find-client_fds, close_client-IsBalanced,
}
use distributed_in_memory_kv.Server.Descriptors.Accepting.{accept_connection-IsServing}
use distributed_in_memory_kv.Server.Descriptors.Starting.{
  IsServing, IsTidy, stop-IsStopped, start-IsTidy,
}

assign-IsServing :
    (c x : ClientConnection) (w : EpollServer)
    → find c.fd w.clients ≡ some x
    → IsServing w
    → IsServing (record w { clients = assign c w.clients })
assign-IsServing c x w found (running, balanced) = (
  running,
  record {
    held = λ d. omega (arith, balanced.held d, client_fds-assign_old d c x w.clients found);
    once = balanced.once;
  },
)

close_client-IsServing :
    (fd : ℕ) (w : EpollServer)
    → 1 ≤ client_fds fd w.clients
    → IsServing w
    → IsServing (close_client fd w)
unfolding close_client
close_client-IsServing fd w known (running, balanced) =
    (running, close_client-IsBalanced fd w known balanced)

write_part-fd : (ev : Event) (c : ClientConnection) → (write_part ev c).fd ≡ c.fd
unfolding write_part
write_part-fd ev c = elim (Bool-cases ev.writable) [
  | inl writes ↦ rw writes (handle_client_write-fd ev.taken ev.send_failure c)
  | inr rests ↦ rw rests refl
]

after_read-IsServing :
    {S : Type 0} (ended : Ended) (ev : Event) (x : ClientConnection) (h : Handled S)
    (w : EpollServer)
    → find ev.fd w.clients ≡ some x
    → h.client.fd ≡ ev.fd
    → IsServing w
    → IsServing (after_read ended ev h w).server
unfolding after_read
after_read-IsServing done ev x h w found same serving =
    let c = write_part ev h.client in
    let c-fd : c.fd ≡ ev.fd = write_part-fd ev h.client ∙ same in
    let serving' = assign-IsServing c x w (ap (λ fd. find fd w.clients) c-fd ∙ found) serving in
    let known = find-client_fds ev.fd x w.clients found in
    let kept =
      client_fds-assign_old ev.fd c x w.clients (ap (λ fd. find fd w.clients) c-fd ∙ found) in
    elim (Bool-cases c.should_close) [
      | inl closes ↦ rw closes (
          close_client-IsServing ev.fd (record w { clients = assign c w.clients })
            (omega (arith, known, kept)) serving')
      | inr stays ↦ rw stays serving'
    ]
after_read-IsServing crashed ev x h w found same serving =
    assign-IsServing h.client x w (ap (λ fd. find fd w.clients) same ∙ found) serving
after_read-IsServing out_of_fuel ev x h w found same serving =
    assign-IsServing h.client x w (ap (λ fd. find fd w.clients) same ∙ found) serving

module _ {S : Type 0} (can_reserve : ℕ → Bool) (handler : Handler S) where
  read_part-fd :
      (ev : Event) (c : ClientConnection) (s : S)
      → (read_part can_reserve handler ev c s).client.fd ≡ c.fd
  unfolding read_part
  read_part-fd ev c s = elim (Bool-cases ev.readable) [
    | inl reads ↦
        rw reads (handle_client_read-Refuses can_reserve handler ev.received ev.recv_failure c s).fd
    | inr rests ↦ rw rests refl
  ]

  on_client-IsServing :
      (c : Option ClientConnection) (ev : Event) (w : EpollServer) (s : S)
      → find ev.fd w.clients ≡ c
      → IsServing w
      → IsServing (on_client can_reserve handler c ev w s).server
  unfolding on_client
  on_client-IsServing none ev w s found serving = serving
  on_client-IsServing (some c) ev w s found serving =
      let h = read_part can_reserve handler ev c s in
      if-holds (λ (r : Served S). IsServing r.server) ev.broken
        (close_client-IsServing ev.fd w (find-client_fds ev.fd c w.clients found) serving)
        (after_read-IsServing h.ended ev c h w found
          (read_part-fd ev c s ∙ find-fd ev.fd c w.clients found) serving)

  after_event-IsServing :
      (ended : Ended) (again : EpollServer → S → Served S) (r : Served S)
      → ((w : EpollServer) (s : S) → IsServing w → IsServing (again w s).server)
      → IsServing r.server
      → IsServing (after_event ended again r).server
  unfolding after_event
  after_event-IsServing done again r ih serving = ih r.server r.store serving
  after_event-IsServing crashed again r ih serving = serving
  after_event-IsServing out_of_fuel again r ih serving = serving

module _ (new_fd : List ℕ → ℕ) (fresh : (ds : List ℕ) → occurrences (new_fd ds) ds ≡ 0) {S : Type 0}
    (can_reserve : ℕ → Bool) (handler : Handler S) where
  on_event-IsServing :
      (ev : Event) (w : EpollServer) (s : S)
      → IsServing w
      → IsServing (on_event new_fd can_reserve handler ev w s).server
  unfolding on_event
  on_event-IsServing ev w s serving =
      if-holds (λ (r : Served S). IsServing r.server) (is_fd ev.fd w.listen_fd)
        (if-holds IsServing ev.readable
          (accept_connection-IsServing new_fd fresh ev.accepted w serving) serving)
        (on_client-IsServing can_reserve handler (find ev.fd w.clients) ev w s refl serving)

  on_events-IsServing :
      (events : List Event) (w : EpollServer) (s : S)
      → IsServing w
      → IsServing (on_events new_fd can_reserve handler events w s).server
  unfolding on_events
  on_events-IsServing [] w s serving = serving
  on_events-IsServing (ev ∷ events) w s serving =
      let r = on_event new_fd can_reserve handler ev w s in
      after_event-IsServing can_reserve handler r.ended
        (on_events new_fd can_reserve handler events) r (on_events-IsServing events)
        (on_event-IsServing ev w s serving)

  run-IsServing :
      (rounds : List (Option (List Event))) (w : EpollServer) (s : S)
      → IsServing w
      → IsServing (run new_fd can_reserve handler rounds w s).server
  unfolding run
  run-IsServing [] w s serving = serving
  run-IsServing (none ∷ rounds) w s serving = serving
  run-IsServing (some events ∷ rounds) w s serving =
      let r = on_events new_fd can_reserve handler events w s in
      if-holds (λ (r : Served S). IsServing r.server) w.running
        (after_event-IsServing can_reserve handler r.ended (run new_fd can_reserve handler rounds) r
          (run-IsServing rounds) (on_events-IsServing events w s serving))
        serving

  run_stopped :
      (rounds : List (Option (List Event))) (w : EpollServer) (s : S)
      → w.running ≡ false
      → (run new_fd can_reserve handler rounds w s).server ≡ w
  unfolding run
  run_stopped [] w s h = refl
  run_stopped (none ∷ rounds) w s h = refl
  run_stopped (some events ∷ rounds) w s h = ap (λ (r : Served S). r.server) (if_of_false _ _ h)

  run-IsTidy :
      (rounds : List (Option (List Event))) (w : EpollServer) (s : S)
      → IsTidy w
      → IsTidy (run new_fd can_reserve handler rounds w s).server
  run-IsTidy rounds w s (inl serving) = inl (run-IsServing rounds w s serving)
  run-IsTidy rounds w s (inr stopped) =
      subst IsTidy (sym (run_stopped rounds w s stopped.running)) (inr stopped)

-- A server's life: it is made, and then started, run and stopped in any order, whatever the system
-- calls return. A run may end by an exception.
pub data Reachable {S : Type 0} (new_fd : List ℕ → ℕ) (can_reserve : ℕ → Bool) (handler : Handler S)
    : EpollServer → Type 0 where
  made : Reachable new_fd can_reserve handler Server.new
  started :
      (calls : Calls) (w : EpollServer)
      → Reachable new_fd can_reserve handler w
      → Reachable new_fd can_reserve handler (start new_fd calls w).1
  ran :
      (rounds : List (Option (List Event))) (w : EpollServer) (s : S)
      → Reachable new_fd can_reserve handler w
      → Reachable new_fd can_reserve handler (run new_fd can_reserve handler rounds w s).server
  stopped :
      (w : EpollServer)
      → Reachable new_fd can_reserve handler w
      → Reachable new_fd can_reserve handler (stop w)

-- However a server has come about, where each call that makes a descriptor gives one that is not open:
-- if the server runs, then each of its open descriptors is that of its listening socket, of its epoll
-- instance or of one client, and of one of these only; and if it does not run, none is open and it has
-- no clients.
pub Reachable-IsTidy :
    {S : Type 0} (new_fd : List ℕ → ℕ) (fresh : (ds : List ℕ) → occurrences (new_fd ds) ds ≡ 0)
    (can_reserve : ℕ → Bool) (handler : Handler S) (w : EpollServer)
    → Reachable new_fd can_reserve handler w
    → IsTidy w
Reachable-IsTidy new_fd fresh can_reserve handler w made =
    inr (record { running = refl; descriptors = refl; clients = refl })
Reachable-IsTidy new_fd fresh can_reserve handler w (started calls w' before) =
    start-IsTidy new_fd fresh calls w' (Reachable-IsTidy new_fd fresh can_reserve handler w' before)
Reachable-IsTidy new_fd fresh can_reserve handler w (ran rounds w' s before) =
    run-IsTidy new_fd fresh can_reserve handler rounds w' s
      (Reachable-IsTidy new_fd fresh can_reserve handler w' before)
Reachable-IsTidy new_fd fresh can_reserve handler w (stopped w' before) =
    inr (stop-IsStopped w' (Reachable-IsTidy new_fd fresh can_reserve handler w' before))
