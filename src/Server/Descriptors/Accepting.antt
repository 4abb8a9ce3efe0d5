-- ===== src/Server/Descriptors/Accepting.antt =====
-- The descriptors of accepted connections (`accept_connection` of engine/src/epoll_server.cpp).
use distributed_in_memory_kv.Prelude.{
  ℕ, ◌≡◌, Bool, inl, inr, List, [], ◌∷◌, arith, Bool-cases, ◌&&◌,
}
use distributed_in_memory_kv.Server.Connection.{connect}
use distributed_in_memory_kv.Server.{
  EpollServer, close, open_fd, Accepted, error, connection, on_connection, accept_connection,
}
use distributed_in_memory_kv.Server.Descriptors.{occurrences, client_fds-assign_new}
use distributed_in_memory_kv.Server.Descriptors.Starting.{IsServing, once_more, remove_first}

module _ (new_fd : List ℕ → ℕ) (fresh : (ds : List ℕ) → occurrences (new_fd ds) ds ≡ 0) where
  on_connection-IsServing :
      (nonblocking added : Bool) (w : EpollServer)
      → IsServing w
      → IsServing (on_connection new_fd nonblocking added (new_fd w.descriptors) w)
  unfolding on_connection open_fd close
  on_connection-IsServing nonblocking added w (running, balanced) =
      let fd = new_fd w.descriptors in
      let other = fresh w.descriptors in
      elim (Bool-cases (nonblocking && added)) [
        | inr refused ↦
            rw (refused, remove_first fd w.descriptors)
              (running, record { held = balanced.held; once = balanced.once })
        | inl good ↦ rw good (
          running,
          record {
            held = λ d. omega (
              arith,
              balanced.held d,
              client_fds-assign_new d (connect fd) w.clients
                  (omega (arith, balanced.held fd, other)),
            );
            once = λ d. once_more d fd w.descriptors other (balanced.once d);
          },
        )
      ]

  pub accept_connection-IsServing :
      (accepted : List Accepted) (w : EpollServer)
      → IsServing w
      → IsServing (accept_connection new_fd accepted w)
  unfolding accept_connection
  accept_connection-IsServing [] w serving = serving
  accept_connection-IsServing (error ∷ accepted) w serving =
      accept_connection-IsServing accepted w serving
  accept_connection-IsServing (connection nonblocking added ∷ accepted) w serving =
      accept_connection-IsServing accepted _ (on_connection-IsServing nonblocking added w serving)
