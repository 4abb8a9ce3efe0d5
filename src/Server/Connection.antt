-- ===== src/Server/Connection.antt =====
-- ClientConnection (engine/include/network_server.h) with what EpollServer does to one of them:
-- `handle_client_read` and `handle_client_write` (engine/src/epoll_server.cpp). What the system calls
-- return is an argument. The command handler works on a store of its own.
pub mod Replies
pub mod Sends
use distributed_in_memory_kv.Prelude.{
  ℕ, zero, suc, Bool, true, false, Option, none, some, List, [], ◌∷◌, ◌++◌, Bytes, codes, take,
  drop, if◌then◌else◌,
}
use distributed_in_memory_kv.Resp.Value.{format_error}
use distributed_in_memory_kv.Resp.Parser
use distributed_in_memory_kv.Resp.Parser.{
  RespParser, Outcome, value, more, thrown, Result, is_empty, parse,
}
use distributed_in_memory_kv.Resp.Command.{RespCommand, to_command}

-- `awaits_write` is whether EPOLLOUT is among the events that epoll was last asked for, and `sent`
-- all that `send` has taken.
pub record ClientConnection : Type 0 where
  pub fd : ℕ
  pub parser : RespParser
  pub write_buffer : Bytes
  pub should_close : Bool
  pub awaits_write : Bool
  pub sent : Bytes

abbrev pub connect : ℕ → ClientConnection
connect fd = record {
  fd = fd;
  parser = Parser.new;
  write_buffer = [];
  should_close = false;
  awaits_write = false;
  sent = [];
}

-- The `errno` of a call that fails: EAGAIN or EWOULDBLOCK, or another one.
pub data Failure : Type 0 where
  would_block failed : Failure

-- How a handler ends: it returns, or an exception leaves it.
pub data Ended : Type 0 where
  done crashed out_of_fuel : Ended

pub record Handled (S : Type 0) : Type 0 where
  pub ended : Ended
  pub client : ClientConnection
  pub store : S

abbrev pub Handler : Type 0 → Type 0
Handler S = Option (RespCommand → S → Bytes × S)

abbrev pub invalid_command : Bytes
unfolding format_error
invalid_command = format_error (codes "ERR invalid command")

-- `modify_epoll(fd, EPOLLIN | EPOLLOUT)` if there is data to write.
unfoldable pub arm : ClientConnection → ClientConnection
arm c = record c { awaits_write = if is_empty c.write_buffer then c.awaits_write else true }

unfoldable pub reply : Bytes → ClientConnection → ClientConnection
reply bytes c = record c { write_buffer = c.write_buffer ++ bytes }

unfoldable pub on_failure : Failure → ClientConnection → ClientConnection
on_failure would_block c = c
on_failure failed c = record c { should_close = true }

unfoldable pub respond : {S : Type 0} → Handler S → Option RespCommand → S → Bytes × S
respond (some handle) (some cmd) s = handle cmd s
respond _ _ s = (invalid_command, s)

-- The loop over `recv` goes on after the loop over the values if no exception has left that one.
unfoldable pub after_serve :
    {S : Type 0} → Ended → (ClientConnection → S → Handled S) → Handled S → Handled S
unfolding arm
after_serve done again h = again (arm h.client) h.store
after_serve crashed again h = h
after_serve out_of_fuel again h = h

module _ {S : Type 0} (can_reserve : ℕ → Bool) (handler : Handler S) where
  -- `while (value)`, with what the last call of `parse` came to.
  unfoldable pub serve : ℕ → Result → ClientConnection → S → Handled S
  unfolding respond reply
  serve (suc fuel) (value v, p) c s =
      let answer = respond handler (to_command v) s in
      serve fuel (parse can_reserve [] p) (reply answer.0 c) answer.1
  serve (suc fuel) (more, p) c s = record {
    ended = done;
    client = record c { parser = p };
    store = s;
  }
  serve (suc fuel) (thrown, p) c s = record {
    ended = crashed;
    client = record c { parser = p };
    store = s;
  }
  serve _ (_, p) c s = record { ended = out_of_fuel; client = record c { parser = p }; store = s }

  -- `recv` gives these buffers one after the other, of which an empty one is the closed connection,
  -- and then it fails. The loop over the values of a buffer gets two rounds.
  unfoldable pub handle_client_read : List Bytes → Failure → ClientConnection → S → Handled S
  unfolding serve after_serve on_failure
  handle_client_read [] e c s = record { ended = done; client = on_failure e c; store = s }
  handle_client_read ([] ∷ received) e c s = record {
    ended = done;
    client = record c { should_close = true };
    store = s;
  }
  handle_client_read (buffer ∷ received) e c s =
      let served = serve 2 (parse can_reserve buffer c.parser) c s in
      after_serve served.ended (handle_client_read received e) served

-- The write buffer is empty: `modify_epoll(fd, EPOLLIN)`.
unfoldable pub disarm : ClientConnection → ClientConnection
disarm c = record c { awaits_write = false }

unfoldable pub erase : ℕ → ClientConnection → ClientConnection
erase n c = record c {
  write_buffer = drop n c.write_buffer;
  sent = c.sent ++ take n c.write_buffer;
}

-- `send` takes these numbers of bytes one after the other, and then it fails.
unfoldable pub handle_client_write : List ℕ → Failure → ClientConnection → ClientConnection
unfolding disarm on_failure erase
handle_client_write [] e c = if is_empty c.write_buffer then disarm c else on_failure e c
handle_client_write (n ∷ taken) e c =
    let rest = handle_client_write taken e (erase n c) in
    if is_empty c.write_buffer then disarm c else rest
