-- ===== src/Tests/Protocol.antt =====
-- Small values of the protocol (engine/src/resp.cpp).
use distributed_in_memory_kv.Prelude.{
  ℕ, ◌≡◌, refl, ◌↔◌, Bool, true, some, [], ◌∷◌, ◌++◌, Bytes, arith, codes, map,
}
use distributed_in_memory_kv.Resp.Value.{
  RespValue, bulk_string, array, bulk_strings, crlf, serialize, simple_string,
}
use distributed_in_memory_kv.Resp.Parser.{
  State, RespParser, new, value, more, loop, read_line, parse,
}
use distributed_in_memory_kv.Resp.Parser.Ends.{Ends, parse-Ends}
use distributed_in_memory_kv.Resp.Parser.Arrays.{IsStuck, parse_array-IsStuck}
use distributed_in_memory_kv.Resp.Parser.RoundTrip.{parse-serialize}
use distributed_in_memory_kv.Resp.Parser.Chunks.{parse-append}
use distributed_in_memory_kv.Resp.Command.{RespCommand, to_upper, to_command, to_command_lem}

abbrev pub room : ℕ → Bool
room n = true

abbrev hello : Bytes
hello = codes "hello"

parse-Ends_example : Ends (parse room (codes "*1" ++ crlf) new)
parse-Ends_example = parse-Ends room (codes "*1" ++ crlf) new

parse-serialize_example :
    parse room (serialize (bulk_string hello) ++ codes "+OK") new ≡ (value (bulk_string hello), new)
parse-serialize_example = parse-serialize room (bulk_string hello) (codes "+OK") refl (omega arith)

abbrev pub get_key : RespValue
get_key = array (bulk_strings (codes "get" ∷ codes "key" ∷ []))

parse_array-IsStuck_example : IsStuck (parse room (serialize get_key ++ []) new)
parse_array-IsStuck_example =
    parse_array-IsStuck room (bulk_string (codes "get")) (bulk_strings (codes "key" ∷ [])) []
      (omega arith)

-- A simple string of which a part has come.
abbrev begun : RespParser
begun = record new { state = State.simple_string; buffer = codes "O" }

begun-parse : parse room (codes "+O") new ≡ (more, begun)
unfolding parse loop read_line
begun-parse = refl

parse-append_example :
    parse room (codes "K" ++ crlf) begun ≡ parse room (codes "+O" ++ (codes "K" ++ crlf)) new
parse-append_example = parse-append room (codes "+O") (codes "K" ++ crlf) new begun begun-parse tt

begun-ends : parse room (codes "K" ++ crlf) begun ≡ (value (simple_string (codes "OK")), new)
unfolding parse loop read_line
begun-ends = refl

abbrev get_command : RespCommand
get_command = record { command = codes "GET"; args = codes "key" ∷ [] }

to_command_lem_example : (to_command get_key ≡ some get_command) ↔ (
    (s : Bytes) × (get_key ≡ array (bulk_strings (s ∷ get_command.args)))
    × (get_command.command ≡ map to_upper s))
to_command_lem_example = to_command_lem get_key get_command

get_key-to_command : to_command get_key ≡ some get_command
unfolding to_command to_upper
get_key-to_command = refl
