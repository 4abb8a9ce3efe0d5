-- ===== src/Server/Refusal.antt =====
-- What a running server makes of all that its clients send (engine/src/epoll_server.cpp with the parser
-- of engine/src/resp.cpp).
use mathlib.Core.Path.{subst}
use distributed_in_memory_kv.Prelude.{
  ℕ, ◌≡◌, refl, sym, ap, ◌∙◌, Bool, Option, none, some, List, [], ◌∷◌, ◌++◌, if-holds, append_assoc,
}
use distributed_in_memory_kv.Server.Connection.{
  ClientConnection, Ended, done, crashed, out_of_fuel, Handled, Handler,
}
use distributed_in_memory_kv.Server.Connection.Replies.{
  errors, errors-append, IsEnd, IsArmed, IsRefused, Refuses, silent-Refuses,
  handle_client_read-Refuses, handle_client_read-IsArmed,
}
use distributed_in_memory_kv.Server.Connection.Sends.{
  handle_client_write_lem, handle_client_write-IsArmed,
}
use distributed_in_memory_kv.Server.{
  EpollServer, find, assign, close, close_client, Event, Served, read_part, write_part, after_read,
  on_client, on_event, after_event, on_events, run, is_fd,
}
use distributed_in_memory_kv.Server.Clients.{
  All, assign-All, erase-All, find-All, accept_connection-All,
}

-- What the handling of events leaves of the store `s`, and of the clients.
pub record Refusal {S : Type 0} (s : S) (r : Served S) : Type 0 where
  pub store : r.store ≡ s
  pub ends : IsEnd r.ended
  pub refused : All IsRefused r.server.clients
  pub armed : r.ended ≡ done → All IsArmed r.server.clients

Refuses-IsRefused :
    {S : Type 0} (c : ClientConnection) (s : S) (h : Handled S)
    → Refuses c s h
    → IsRefused c
    → IsRefused h.client
Refuses-IsRefused c s h refuses (m, before) =
    let (n, after) = refuses.replies in
    let (k, sum) = errors-append m n in
    (
      k,
      ap (λ b. b ++ h.client.write_buffer) refuses.sent
          ∙ ap (λ b. c.sent ++ b) after
          ∙ sym (append_assoc c.sent c.write_buffer (errors n))
          ∙ ap (λ b. b ++ errors n) before
          ∙ sum,
    )

write_part-IsRefused :
    (ev : Event) (c : ClientConnection) → IsRefused c → IsRefused (write_part ev c)
unfolding write_part
write_part-IsRefused ev c (n, before) =
    if-holds IsRefused ev.writable
      (n, (handle_client_write_lem ev.taken ev.send_failure c).1 ∙ before) (n, before)

write_part-IsArmed : (ev : Event) (c : ClientConnection) → IsArmed c → IsArmed (write_part ev c)
unfolding write_part
write_part-IsArmed ev c armed =
    if-holds IsArmed ev.writable (handle_client_write-IsArmed ev.taken ev.send_failure c armed)
      armed

module _ {S : Type 0} (s : S) where
  after_read-Refusal :
      (ended : Ended) (ev : Event) (h : Handled S) (w : EpollServer)
      → h.store ≡ s
      → IsEnd ended
      → IsRefused h.client
      → (ended ≡ done → IsArmed h.client)
      → All IsRefused w.clients
      → All IsArmed w.clients
      → Refusal s (after_read ended ev h w)
  unfolding after_read close_client close
  after_read-Refusal done ev h w store ends refused armed all_refused all_armed =
      let c = write_part ev h.client in
      let refused' =
        assign-All IsRefused c w.clients (write_part-IsRefused ev h.client refused) all_refused in
      let armed' =
        assign-All IsArmed c w.clients (write_part-IsArmed ev h.client (armed refl)) all_armed in
      record {
        store = store;
        ends = tt;
        refused =
            if-holds (λ (w : EpollServer). All IsRefused w.clients) c.should_close
              (erase-All IsRefused ev.fd (assign c w.clients) refused') refused';
        armed = λ e.
            if-holds (λ (w : EpollServer). All IsArmed w.clients) c.should_close
              (erase-All IsArmed ev.fd (assign c w.clients) armed') armed';
      }
  after_read-Refusal crashed ev h w store ends refused armed all_refused all_armed = record {
    store = store;
    ends = tt;
    refused = assign-All IsRefused h.client w.clients refused all_refused;
    armed = λ e. cc;
  }
  after_read-Refusal out_of_fuel ev h w store ends refused armed all_refused all_armed = absurd ends

  after_event-Refusal :
      (ended : Ended) (again : EpollServer → S → Served S) (r : Served S)
      → r.ended ≡ ended
      → ((w : EpollServer)
          → All IsRefused w.clients
          → All IsArmed w.clients
          → Refusal s (again w s))
      → Refusal s r
      → Refusal s (after_event ended again r)
  unfolding after_event
  after_event-Refusal done again r e ih before =
      subst (λ s'. Refusal s (again r.server s')) (sym before.store)
        (ih r.server before.refused (before.armed e))
  after_event-Refusal crashed again r e ih before = before
  after_event-Refusal out_of_fuel again r e ih before = before

module _ {S : Type 0} (can_reserve : ℕ → Bool) (handler : Handler S) (s : S) where
  read_part-Refuses :
      (ev : Event) (c : ClientConnection) → Refuses c s (read_part can_reserve handler ev c s)
  unfolding read_part
  read_part-Refuses ev c =
      if-holds (Refuses c s) ev.readable
        (handle_client_read-Refuses can_reserve handler ev.received ev.recv_failure c s)
        (silent-Refuses c s _ refl tt refl refl refl)

  read_part-IsArmed :
      (ev : Event) (c : ClientConnection)
      → IsArmed c
      → (read_part can_reserve handler ev c s).ended ≡ done
      → IsArmed (read_part can_reserve handler ev c s).client
  unfolding read_part
  read_part-IsArmed ev c armed =
      if-holds (λ (h : Handled S). h.ended ≡ done → IsArmed h.client) ev.readable
        (handle_client_read-IsArmed can_reserve handler ev.received ev.recv_failure c s armed)
        (λ e. armed)

  on_client-Refusal :
      (c : Option ClientConnection) (ev : Event) (w : EpollServer)
      → find ev.fd w.clients ≡ c
      → All IsRefused w.clients
      → All IsArmed w.clients
      → Refusal s (on_client can_reserve handler c ev w s)
  unfolding on_client close_client close
  on_client-Refusal none ev w found refused armed = record {
    store = refl;
    ends = tt;
    refused = refused;
    armed = λ e. armed;
  }
  on_client-Refusal (some c) ev w found refused armed =
      let h = read_part can_reserve handler ev c s in
      let refuses = read_part-Refuses ev c in
      if-holds (Refusal s) ev.broken
        (record {
          store = refl;
          ends = tt;
          refused = erase-All IsRefused ev.fd w.clients refused;
          armed = λ e. erase-All IsArmed ev.fd w.clients armed;
        })
        (after_read-Refusal s h.ended ev h w refuses.store refuses.ends
          (Refuses-IsRefused c s h refuses (find-All IsRefused ev.fd c w.clients found refused))
          (read_part-IsArmed ev c (find-All IsArmed ev.fd c w.clients found armed)) refused armed)

module _ (new_fd : List ℕ → ℕ) {S : Type 0} (can_reserve : ℕ → Bool) (handler : Handler S)
    (s : S) where
  on_event-Refusal :
      (ev : Event) (w : EpollServer)
      → All IsRefused w.clients
      → All IsArmed w.clients
      → Refusal s (on_event new_fd can_reserve handler ev w s)
  unfolding on_event
  on_event-Refusal ev w refused armed =
      let P : (ClientConnection → Type 0) → EpollServer → Type 0 = λ Q w. All Q w.clients in
      if-holds (Refusal s) (is_fd ev.fd w.listen_fd)
        (record {
          store = refl;
          ends = tt;
          refused =
              if-holds (P IsRefused) ev.readable
                (accept_connection-All IsRefused new_fd (λ fd. (0, refl)) ev.accepted w refused)
                refused;
          armed = λ e.
              if-holds (P IsArmed) ev.readable
                (accept_connection-All IsArmed new_fd (λ fd e. cc) ev.accepted w armed) armed;
        })
        (on_client-Refusal can_reserve handler s (find ev.fd w.clients) ev w refl refused armed)

  on_events-Refusal :
      (events : List Event) (w : EpollServer)
      → All IsRefused w.clients
      → All IsArmed w.clients
      → Refusal s (on_events new_fd can_reserve handler events w s)
  unfolding on_events
  on_events-Refusal [] w refused armed = record {
    store = refl;
    ends = tt;
    refused = refused;
    armed = λ e. armed;
  }
  on_events-Refusal (ev ∷ events) w refused armed =
      let r = on_event new_fd can_reserve handler ev w s in
      after_event-Refusal s r.ended (on_events new_fd can_reserve handler events) r refl
        (on_events-Refusal events) (on_event-Refusal ev w refused armed)

  -- Whatever the clients of a server send and however the system calls go, no command is ever carried
  -- out: where each client has got and is to get errors for invalid commands only, this stays so, and the
  -- store of the command handler stays as it is. The loops over the values of a buffer end. And unless an
  -- exception ends the server, each client with a reply to send stays registered for writing.
  pub run-Refusal :
      (rounds : List (Option (List Event))) (w : EpollServer)
      → All IsRefused w.clients
      → All IsArmed w.clients
      → Refusal s (run new_fd can_reserve handler rounds w s)
  unfolding run
  run-Refusal [] w refused armed = record {
    store = refl;
    ends = tt;
    refused = refused;
    armed = λ e. armed;
  }
  run-Refusal (none ∷ rounds) w refused armed = record {
    store = refl;
    ends = tt;
    refused = refused;
    armed = λ e. armed;
  }
  run-Refusal (some events ∷ rounds) w refused armed =
      let r = on_events new_fd can_reserve handler events w s in
      if-holds (Refusal s) w.running
        (after_event-Refusal s r.ended (run new_fd can_reserve handler rounds) r refl
          (run-Refusal rounds) (on_events-Refusal events w refused armed))
        (record { store = refl; ends = tt; refused = refused; armed = λ e. armed })
