-- ===== src/Server/Descriptors.antt =====
-- The descriptors that the server opens and closes (engine/src/epoll_server.cpp): those of its listening
-- socket, its epoll instance and its clients.
pub mod Starting
pub mod Accepting
pub mod Lifecycle
use distributed_in_memory_kv.Prelude.{
  ℕ, zero, suc, ◌+◌, ◌-◌, ◌≤◌, ◌≡◌, refl, Bool, true, false, inl, inr, Option, none, some, List, [],
  ◌∷◌, arith, Bool-cases, ◌==◌, if◌then◌else◌,
}
use distributed_in_memory_kv.Server
use distributed_in_memory_kv.Server.Connection.{ClientConnection, connect}
use distributed_in_memory_kv.Server.{
  EpollServer, find, assign, erase, remove, close, close_client, remove_all, remove_fd,
}

abbrev pub one_if : ℕ → ℕ → ℕ
one_if d fd = if d == fd then 1 else 0

-- How often `d` is among these.
abbrev pub occurrences : ℕ → List ℕ → ℕ
occurrences d [] = 0
occurrences d (fd ∷ fds) = one_if d fd + occurrences d fds

abbrev pub client_fds : ℕ → List ClientConnection → ℕ
client_fds d [] = 0
client_fds d (c ∷ cs) = one_if d c.fd + client_fds d cs

abbrev pub option_fd : ℕ → Option ℕ → ℕ
option_fd d none = 0
option_fd d (some fd) = one_if d fd

abbrev pub owned : ℕ → EpollServer → ℕ
owned d w = option_fd d w.listen_fd + option_fd d w.epoll_fd + client_fds d w.clients

-- Every open descriptor is the server's, and is so once.
pub record IsBalanced (w : EpollServer) : Type 0 where
  pub held : (d : ℕ) → occurrences d w.descriptors ≡ owned d w
  pub once : (d : ℕ) → occurrences d w.descriptors ≤ 1

pub occurrences-remove :
    (d fd : ℕ) (ds : List ℕ) → occurrences d (remove fd ds) ≡ occurrences d ds - one_if d fd
unfolding remove
occurrences-remove d fd [] = omega arith
occurrences-remove d fd (x ∷ ds) = ground (arith, occurrences-remove d fd ds)

pub client_fds-erase :
    (d fd : ℕ) (cs : List ClientConnection)
    → client_fds d (erase fd cs) ≡ client_fds d cs - one_if d fd
unfolding erase
client_fds-erase d fd [] = omega arith
client_fds-erase d fd (c ∷ cs) = ground (arith, client_fds-erase d fd cs)

pub client_fds-assign_new :
    (d : ℕ) (c : ClientConnection) (cs : List ClientConnection)
    → client_fds c.fd cs ≡ 0
    → client_fds d (assign c cs) ≡ one_if d c.fd + client_fds d cs
unfolding assign
client_fds-assign_new d c [] h = refl
client_fds-assign_new d c (x ∷ cs) h = ground (arith, client_fds-assign_new d c cs)

pub client_fds-assign_old :
    (d : ℕ) (c x : ClientConnection) (cs : List ClientConnection)
    → find c.fd cs ≡ some x
    → client_fds d (assign c cs) ≡ client_fds d cs
unfolding assign find
client_fds-assign_old d c x [] h = cc
client_fds-assign_old d c x (y ∷ cs) h = ground (arith, client_fds-assign_old d c x cs)

pub occurrences_none : (ds : List ℕ) → ((d : ℕ) → occurrences d ds ≡ 0) → ds ≡ []
occurrences_none [] h = refl
occurrences_none (x ∷ ds) h = absurd (ground (arith, h x))

-- `find` gives a client of that descriptor.
pub find-fd :
    (fd : ℕ) (c : ClientConnection) (cs : List ClientConnection) → find fd cs ≡ some c → c.fd ≡ fd
unfolding find
find-fd fd c [] h = cc
find-fd fd c (x ∷ cs) h = ground (arith, find-fd fd c cs)

pub find-client_fds :
    (fd : ℕ) (c : ClientConnection) (cs : List ClientConnection)
    → find fd cs ≡ some c
    → 1 ≤ client_fds fd cs
unfolding find
find-client_fds fd c [] h = cc
find-client_fds fd c (x ∷ cs) h = ground (arith, find-client_fds fd c cs)

pub occurrences-remove_all :
    (d : ℕ) (cs : List ClientConnection) (ds : List ℕ)
    → occurrences d (remove_all cs ds) ≡ occurrences d ds - client_fds d cs
unfolding remove_all
occurrences-remove_all d [] ds = omega arith
occurrences-remove_all d (c ∷ cs) ds =
    omega (arith, occurrences-remove_all d cs (remove c.fd ds), occurrences-remove d c.fd ds)

pub occurrences-remove_fd :
    (d : ℕ) (fd : Option ℕ) (ds : List ℕ)
    → occurrences d (remove_fd fd ds) ≡ occurrences d ds - option_fd d fd
unfolding remove_fd
occurrences-remove_fd d none ds = omega arith
occurrences-remove_fd d (some fd) ds = occurrences-remove d fd ds

pub close_client-IsBalanced :
    (fd : ℕ) (w : EpollServer)
    → 1 ≤ client_fds fd w.clients
    → IsBalanced w
    → IsBalanced (close_client fd w)
unfolding close_client close
close_client-IsBalanced fd w known balanced = record {
  held = λ d. ground (
    arith,
    occurrences-remove d fd w.descriptors,
    client_fds-erase d fd w.clients,
    balanced.held d,
  );
  once = λ d. ground (arith, occurrences-remove d fd w.descriptors, balanced.once d);
}
