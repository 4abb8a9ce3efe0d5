-- ===== src/Server/Clients.antt =====
-- What holds of every client of a server (engine/src/epoll_server.cpp).
use mathlib.Core.Path.{subst}
use distributed_in_memory_kv.Prelude.{
  some_cancel, if_of_true, if_of_false, ℕ, ◌≡◌, sym, ◌∙◌, Bool, inl, inr, some, List, [], ◌∷◌,
  Bool-cases, ◌==◌, ◌&&◌, if-holds,
}
use distributed_in_memory_kv.Server.Connection.{ClientConnection, connect}
use distributed_in_memory_kv.Server.{
  EpollServer, find, assign, erase, close, open_fd, on_connection, accept_connection, Accepted,
  error, connection,
}

abbrev pub All : (ClientConnection → Type 0) → List ClientConnection → Type 0
All P [] = Unit
All P (c ∷ cs) = P c × All P cs

module _ (P : ClientConnection → Type 0) where
  pub assign-All :
      (c : ClientConnection) (cs : List ClientConnection) → P c → All P cs → All P (assign c cs)
  unfolding assign
  assign-All c [] p ps = (p, tt)
  assign-All c (d ∷ cs) p (q, ps) =
      let rest = assign-All c cs p ps in
      if-holds (All P) (c.fd == d.fd) {x = c ∷ cs} {y = d ∷ assign c cs} (p, ps) (q, rest)

  pub erase-All : (fd : ℕ) (cs : List ClientConnection) → All P cs → All P (erase fd cs)
  unfolding erase
  erase-All fd [] ps = tt
  erase-All fd (c ∷ cs) (p, ps) =
      let rest = erase-All fd cs ps in
      if-holds (All P) (fd == c.fd) {x = cs} {y = c ∷ erase fd cs} ps (p, rest)

  pub find-All :
      (fd : ℕ) (c : ClientConnection) (cs : List ClientConnection)
      → find fd cs ≡ some c
      → All P cs
      → P c
  unfolding find
  find-All fd c [] found ps = cc
  find-All fd c (d ∷ cs) found (p, ps) =
      let rest : find fd cs ≡ some c → P c = λ e. find-All fd c cs e ps in
      elim (Bool-cases (fd == d.fd)) [
        | inl same ↦ subst P (some_cancel (sym (if_of_true _ _ same) ∙ found)) p
        | inr other ↦ rest (sym (if_of_false _ _ other) ∙ found)
      ]

  on_connection-All :
      (new_fd : List ℕ → ℕ) (nonblocking added : Bool) (fd : ℕ) (w : EpollServer)
      → P (connect fd)
      → All P w.clients
      → All P (on_connection new_fd nonblocking added fd w).clients
  unfolding on_connection open_fd close
  on_connection-All new_fd nonblocking added fd w p ps =
      if-holds (λ (w : EpollServer). All P w.clients) (nonblocking && added)
        (assign-All (connect fd) w.clients p ps) ps

  pub accept_connection-All :
      (new_fd : List ℕ → ℕ)
      → ((fd : ℕ) → P (connect fd))
      → (accepted : List Accepted) (w : EpollServer) → All P w.clients
      → All P (accept_connection new_fd accepted w).clients
  unfolding accept_connection
  accept_connection-All new_fd p [] w ps = ps
  accept_connection-All new_fd p (error ∷ accepted) w ps =
      accept_connection-All new_fd p accepted w ps
  accept_connection-All new_fd p (connection nonblocking added ∷ accepted) w ps =
      accept_connection-All new_fd p accepted _
        (on_connection-All new_fd nonblocking added (new_fd w.descriptors) w (p _) ps)
