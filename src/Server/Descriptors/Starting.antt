-- ===== src/Server/Descriptors/Starting.antt =====
-- `start`, `stop`, and the descriptors that they open and close (engine/src/epoll_server.cpp). A call
-- makes a descriptor that is not open.
use mathlib.Core.Path.{subst}
use distributed_in_memory_kv.Prelude.{
  if_of_true, if_of_false, ℕ, ◌+◌, ◌≤◌, ◌≡◌, refl, sym, ap, ◌∙◌, ◌⊎◌, Bool, true, false, inl, inr,
  some, List, [], ◌∷◌, arith, Bool-cases, ◌&&◌, if◌then◌else◌,
}
use distributed_in_memory_kv.Server.{
  EpollServer, remove, close, open_fd, remove_all, remove_fd, close_fd, Calls, stop, start,
  start_epoll, create_listen_socket,
}
use distributed_in_memory_kv.Server.Descriptors.{
  one_if, occurrences, IsBalanced, occurrences_none, occurrences-remove_all, occurrences-remove_fd,
}

-- Nothing is open, and nothing runs.
pub record IsStopped (w : EpollServer) : Type 0 where
  pub running : w.running ≡ false
  pub descriptors : w.descriptors ≡ []
  pub clients : w.clients ≡ []

-- A running server's open descriptors are accounted for, and another server has none.
abbrev pub IsServing : EpollServer → Type 0
IsServing w = (w.running ≡ true) × IsBalanced w

abbrev pub IsTidy : EpollServer → Type 0
IsTidy w = IsServing w ⊎ IsStopped w

stop-nil :
    (w : EpollServer)
    → IsBalanced w
    → remove_fd w.listen_fd (remove_fd w.epoll_fd (remove_all w.clients w.descriptors)) ≡ []
stop-nil w balanced =
    let after_clients = remove_all w.clients w.descriptors in
    occurrences_none _ (λ d. omega (
      arith,
      balanced.held d,
      occurrences-remove_all d w.clients w.descriptors,
      occurrences-remove_fd d w.epoll_fd after_clients,
      occurrences-remove_fd d w.listen_fd (remove_fd w.epoll_fd after_clients),
    ))

pub stop-IsStopped : (w : EpollServer) → IsTidy w → IsStopped (stop w)
unfolding stop close_fd
stop-IsStopped w (inl (running, balanced)) =
    rw running (record { running = refl; descriptors = stop-nil w balanced; clients = refl })
stop-IsStopped w (inr stopped) = subst IsStopped (sym (if_of_false _ w stopped.running)) stopped

-- The listening socket alone is open.
record IsListening (fd : ℕ) (w : EpollServer) : Type 0 where
  running : w.running ≡ false
  listen_fd : w.listen_fd ≡ some fd
  descriptors : w.descriptors ≡ fd ∷ []
  clients : w.clients ≡ []

-- One more descriptor, which was not open.
pub once_more :
    (d fd : ℕ) (ds : List ℕ)
    → occurrences fd ds ≡ 0
    → occurrences d ds ≤ 1
    → one_if d fd + occurrences d ds ≤ 1
once_more d fd ds other one = ground arith

pub remove_first : (fd : ℕ) (ds : List ℕ) → remove fd (fd ∷ ds) ≡ ds
unfolding remove
remove_first fd ds = ground arith

module _ (new_fd : List ℕ → ℕ) (fresh : (ds : List ℕ) → occurrences (new_fd ds) ds ≡ 0) where
  create_listen_socket_lem :
      (calls : Calls) (w : EpollServer)
      → IsStopped w
      → let r = create_listen_socket new_fd calls w in
        ((r.0 ≡ true) × IsListening (new_fd w.descriptors) r.1) ⊎ ((r.0 ≡ false) × IsStopped r.1)
  unfolding create_listen_socket open_fd close
  create_listen_socket_lem calls w stopped =
      let fd = new_fd w.descriptors in
      let failed = remove_first fd w.descriptors ∙ stopped.descriptors in
      elim (Bool-cases calls.socket) [
        | inr unmade ↦ rw unmade (
            inr (
              refl,
              record {
                running = stopped.running;
                descriptors = stopped.descriptors;
                clients = stopped.clients;
              },
            ))
        | inl made ↦
            elim (Bool-cases (
              (calls.reuse_addr && calls.reuse_port)
              && calls.bind
              && calls.listen
              && calls.set_nonblocking)) [
                | inr bad ↦
                    rw (made, bad)
                      (inr (
                        refl,
                        record {
                          running = stopped.running;
                          descriptors = failed;
                          clients = stopped.clients;
                        },
                      ))
                | inl good ↦
                    rw (made, good)
                      (inl (
                        refl,
                        record {
                          running = stopped.running;
                          listen_fd = refl;
                          descriptors = ap (◌∷◌ fd) stopped.descriptors;
                          clients = stopped.clients;
                        },
                      ))
              ]
      ]

  listening_closed :
      (fd : ℕ) (w : EpollServer) → IsListening fd w → remove_fd w.listen_fd w.descriptors ≡ []
  unfolding remove_fd
  listening_closed fd w listening =
      rw (listening.listen_fd, listening.descriptors) (remove_first fd [])

  epoll-IsBalanced :
      (fd : ℕ) (w : EpollServer)
      → IsListening fd w
      → let epoll_fd = new_fd w.descriptors in
        IsBalanced (record w {
          epoll_fd = some epoll_fd;
          running = true;
          descriptors = epoll_fd ∷ w.descriptors;
        })
  epoll-IsBalanced fd w listening =
      let other = fresh w.descriptors in
      record {
        held = λ d.
            rw (listening.listen_fd, listening.clients)
              (omega (arith, ap (occurrences d) listening.descriptors));
        once = λ d.
            once_more d (new_fd w.descriptors) w.descriptors other
              (rw listening.descriptors (ground arith));
      }

  start_epoll-IsTidy :
      (calls : Calls) (fd : ℕ) (w : EpollServer)
      → IsListening fd w
      → let r = start_epoll new_fd calls w in
        ((r.0 ≡ true) × (r.1.running ≡ true) × IsBalanced r.1) ⊎ ((r.0 ≡ false) × IsStopped r.1)
  unfolding start_epoll open_fd close_fd close
  start_epoll-IsTidy calls fd w listening =
      let epoll_fd = new_fd w.descriptors in
      let closed = listening_closed fd w listening in
      elim (Bool-cases calls.epoll_create) [
        | inr unmade ↦ rw unmade (
            inr (
              refl,
              record {
                running = listening.running;
                descriptors = closed;
                clients = listening.clients;
              },
            ))
        | inl made ↦ elim (Bool-cases calls.add_to_epoll) [
          | inr bad ↦
              rw (made, bad)
                (inr (
                  refl,
                  record {
                    running = listening.running;
                    descriptors =
                        ap (remove_fd w.listen_fd) (remove_first epoll_fd w.descriptors) ∙ closed;
                    clients = listening.clients;
                  },
                ))
          | inl good ↦ rw (made, good) (inl (refl, refl, epoll-IsBalanced fd w listening))
        ]
      ]

  start_rest :
      (calls : Calls) (fd : ℕ) (r : Bool × EpollServer)
      → ((r.0 ≡ true) × IsListening fd r.1) ⊎ ((r.0 ≡ false) × IsStopped r.1)
      → IsTidy (if r.0 then start_epoll new_fd calls r.1 else r).1
  start_rest calls fd r (inl (made, listening)) =
      rw made (started (start_epoll-IsTidy calls fd r.1 listening))
    where
      started :
          let r' = start_epoll new_fd calls r.1 in
          ((r'.0 ≡ true) × (r'.1.running ≡ true) × IsBalanced r'.1)
            ⊎ ((r'.0 ≡ false) × IsStopped r'.1)
          → IsTidy r'.1
      started (inl (e, running, balanced)) = inl (running, balanced)
      started (inr (e, stopped)) = inr stopped
  start_rest calls fd r (inr (unmade, stopped)) = rw unmade (inr stopped)

  start_stopped :
      (calls : Calls) (w : EpollServer)
      → w.running ≡ false
      → start new_fd calls w ≡ (
          let r = create_listen_socket new_fd calls w in
          if r.0 then start_epoll new_fd calls r.1 else r)
  unfolding start
  start_stopped calls w e = if_of_false _ _ e

  start_running :
      (calls : Calls) (w : EpollServer) → w.running ≡ true → start new_fd calls w ≡ (false, w)
  unfolding start
  start_running calls w e = if_of_true _ _ e

  pub start-IsTidy : (calls : Calls) (w : EpollServer) → IsTidy w → IsTidy (start new_fd calls w).1
  start-IsTidy calls w (inl (running, balanced)) =
      subst (λ (r : Bool × EpollServer). IsTidy r.1) (sym (start_running calls w running))
        (inl (running, balanced))
  start-IsTidy calls w (inr stopped) =
      subst (λ (r : Bool × EpollServer). IsTidy r.1) (sym (start_stopped calls w stopped.running))
        (start_rest calls (new_fd w.descriptors) (create_listen_socket new_fd calls w)
          (create_listen_socket_lem calls w stopped))
