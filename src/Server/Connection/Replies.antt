-- ===== src/Server/Connection/Replies.antt =====
-- What a connection makes of the bytes that it receives (engine/src/epoll_server.cpp).
use distributed_in_memory_kv.Prelude.{
  ℕ, zero, suc, ◌≡◌, refl, sym, ap, ◌∙◌, Bool, true, false, inl, inr, none, some, List, [], ◌∷◌,
  ◌++◌, Bytes, append-nil, append_assoc, Bool-cases,
}
use distributed_in_memory_kv.Resp.Value.{RespValue}
use distributed_in_memory_kv.Resp.Parser.{
  new, Outcome, value, more, thrown, Result, is_empty, loop, parse,
}
use distributed_in_memory_kv.Resp.Parser.Ends.{Ends, parse-Ends}
use distributed_in_memory_kv.Resp.Command.{to_command, to_command-IsFlat}
use distributed_in_memory_kv.Server.Connection.{
  ClientConnection, Failure, would_block, failed, Ended, done, crashed, out_of_fuel, Handled,
  Handler, invalid_command, arm, reply, on_failure, respond, after_serve, serve, handle_client_read,
}

-- The error that an invalid command is replied with, so many times.
abbrev pub errors : ℕ → Bytes
errors zero = []
errors (suc n) = invalid_command ++ errors n

pub errors-append : (m n : ℕ) → (k : ℕ) × (errors m ++ errors n ≡ errors k)
errors-append zero n = (n, refl)
errors-append (suc m) n =
    let (k, e) = errors-append m n in
    (suc k, append_assoc invalid_command (errors m) (errors n) ∙ ap (λ s. invalid_command ++ s) e)

abbrev pub IsEnd : Ended → Type 0
IsEnd done = Unit
IsEnd crashed = Unit
IsEnd out_of_fuel = ⊥

-- A connection with replies to send is registered for EPOLLOUT.
abbrev pub IsArmed : ClientConnection → Type 0
IsArmed c = is_empty c.write_buffer ≡ false → c.awaits_write ≡ true

-- What `c` has been sent and is to be sent are error replies only.
abbrev pub IsRefused : ClientConnection → Type 0
IsRefused c = (n : ℕ) × (c.sent ++ c.write_buffer ≡ errors n)

-- What a handler leaves of the connection `c` and the store `s`.
pub record Refuses {S : Type 0} (c : ClientConnection) (s : S) (h : Handled S) : Type 0 where
  pub store : h.store ≡ s
  pub ends : IsEnd h.ended
  pub fd : h.client.fd ≡ c.fd
  pub sent : h.client.sent ≡ c.sent
  pub replies : (n : ℕ) × (h.client.write_buffer ≡ c.write_buffer ++ errors n)

pub silent-Refuses :
    {S : Type 0} (c : ClientConnection) (s : S) (h : Handled S)
    → h.store ≡ s
    → IsEnd h.ended
    → h.client.fd ≡ c.fd
    → h.client.sent ≡ c.sent
    → h.client.write_buffer ≡ c.write_buffer
    → Refuses c s h
silent-Refuses c s h store ends fd sent same = record {
  store = store;
  ends = ends;
  fd = fd;
  sent = sent;
  replies = (0, same ∙ sym (append-nil c.write_buffer));
}

pub arm-IsArmed : (c : ClientConnection) → IsArmed (arm c)
unfolding arm
arm-IsArmed c = elim (Bool-cases (is_empty c.write_buffer)) [
  | inl empty ↦ rw empty (λ h. cc)
  | inr full ↦ rw full (λ h. refl)
]

respond-none :
    {S : Type 0} (handler : Handler S) (s : S) → respond handler none s ≡ (invalid_command, s)
unfolding respond
respond-none none s = refl
respond-none (some handle) s = refl

module _ {S : Type 0} (can_reserve : ℕ → Bool) (handler : Handler S) where
  serve_value :
      (v : RespValue) (c : ClientConnection) (s : S)
      → to_command v ≡ none
      → serve can_reserve handler 2 (value v, new) c s ≡ record {
        ended = done;
        client = record (reply invalid_command c) { parser = new };
        store = s;
      }
  unfolding serve parse loop reply
  serve_value v c s e = rw (e, respond-none handler s) refl

  serve-Refuses :
      (r : Result) (c : ClientConnection) (s : S)
      → Ends r
      → Refuses c s (serve can_reserve handler 2 r c s)
  unfolding serve reply invalid_command
  serve-Refuses (value v, p) c s (e, flat) =
      rw (e, serve_value v c s (to_command-IsFlat v flat))
        (record { store = refl; ends = tt; fd = refl; sent = refl; replies = (1, refl) })
  serve-Refuses (more, p) c s e = silent-Refuses c s _ refl tt refl refl refl
  serve-Refuses (thrown, p) c s e = silent-Refuses c s _ refl tt refl refl refl
  serve-Refuses (Outcome.out_of_fuel, p) c s e = absurd e

  arm-Refuses :
      (h g : Handled S) (c : ClientConnection) (s : S)
      → Refuses c s h
      → Refuses (arm h.client) h.store g
      → Refuses c s g
  unfolding arm
  arm-Refuses h g c s before after =
      let (m, first) = before.replies in
      let (n, second) = after.replies in
      let (k, sum) = errors-append m n in
      record {
        store = after.store ∙ before.store;
        ends = after.ends;
        fd = after.fd ∙ before.fd;
        sent = after.sent ∙ before.sent;
        replies = (
          k,
          second
              ∙ ap (λ b. b ++ errors n) first
              ∙ append_assoc c.write_buffer (errors m) (errors n)
              ∙ ap (λ b. c.write_buffer ++ b) sum,
        );
      }

  after_serve-Refuses :
      (again : ClientConnection → S → Handled S)
      → ((c : ClientConnection) (s : S) → Refuses c s (again c s))
      → (end : Ended) (h : Handled S) (c : ClientConnection) (s : S) → h.ended ≡ end
      → Refuses c s h
      → Refuses c s (after_serve end again h)
  unfolding after_serve
  after_serve-Refuses again ih done h c s e before =
      arm-Refuses h (again (arm h.client) h.store) c s before (ih (arm h.client) h.store)
  after_serve-Refuses again ih crashed h c s e before = before
  after_serve-Refuses again ih out_of_fuel h c s e before = before

  pub handle_client_read-Refuses :
      (received : List Bytes) (e : Failure) (c : ClientConnection) (s : S)
      → Refuses c s (handle_client_read can_reserve handler received e c s)
  unfolding handle_client_read on_failure
  handle_client_read-Refuses [] would_block c s = silent-Refuses c s _ refl tt refl refl refl
  handle_client_read-Refuses [] failed c s = silent-Refuses c s _ refl tt refl refl refl
  handle_client_read-Refuses ([] ∷ received) e c s = silent-Refuses c s _ refl tt refl refl refl
  handle_client_read-Refuses ((b ∷ buffer) ∷ received) e c s =
      let served = serve can_reserve handler 2 (parse can_reserve (b ∷ buffer) c.parser) c s in
      after_serve-Refuses (handle_client_read can_reserve handler received e)
        (handle_client_read-Refuses received e) served.ended served c s refl
        (serve-Refuses _ c s (parse-Ends can_reserve (b ∷ buffer) c.parser))

  after_serve-IsArmed :
      (again : ClientConnection → S → Handled S)
      → ((c : ClientConnection) (s : S)
          → IsArmed c
          → (again c s).ended ≡ done
          → IsArmed (again c s).client)
      → (end : Ended) (h : Handled S) → h.ended ≡ end
      → (after_serve end again h).ended ≡ done
      → IsArmed (after_serve end again h).client
  unfolding after_serve
  after_serve-IsArmed again ih done h e returns =
      ih (arm h.client) h.store (arm-IsArmed h.client) returns
  after_serve-IsArmed again ih crashed h e returns = cc
  after_serve-IsArmed again ih out_of_fuel h e returns = cc

  pub handle_client_read-IsArmed :
      (received : List Bytes) (e : Failure) (c : ClientConnection) (s : S)
      → IsArmed c
      → (handle_client_read can_reserve handler received e c s).ended ≡ done
      → IsArmed (handle_client_read can_reserve handler received e c s).client
  unfolding handle_client_read on_failure
  handle_client_read-IsArmed [] would_block c s armed returns = armed
  handle_client_read-IsArmed [] failed c s armed returns = armed
  handle_client_read-IsArmed ([] ∷ received) e c s armed returns = armed
  handle_client_read-IsArmed ((b ∷ buffer) ∷ received) e c s armed returns =
      let served = serve can_reserve handler 2 (parse can_reserve (b ∷ buffer) c.parser) c s in
      after_serve-IsArmed (handle_client_read can_reserve handler received e)
        (handle_client_read-IsArmed received e) served.ended served refl returns
