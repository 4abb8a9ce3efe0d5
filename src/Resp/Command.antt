-- ===== src/Resp/Command.antt =====
-- RESPCommand and `to_command` (engine/src/resp.cpp), and what they make of parsed values.
use mathlib.Core.Path.{subst}
use distributed_in_memory_kv.Prelude.{
  some_cancel, ℕ, Bool, ◌-◌, ◌≡◌, ◌↔◌, refl, ap, sym, ◌∙◌, Option, none, some, List, [], ◌∷◌, Bytes,
  map, leb, ◌&&◌, if◌then◌else◌,
}
use distributed_in_memory_kv.Resp.Value.{
  RespValue, Items, nil, cons, simple_string, error, integer, bulk_string, array, null_bulk_string,
  bulk_strings,
}
use distributed_in_memory_kv.Resp.Parser.{RespParser, new, value, parse}
use distributed_in_memory_kv.Resp.Parser.Ends.{Ends, IsFlat, parse-Ends}

pub record RespCommand : Type 0 where
  pub command : Bytes
  pub args : List Bytes

-- `::toupper` in the C locale.
unfoldable pub to_upper : ℕ → ℕ
to_upper c = if leb b'a' c && leb c b'z' then c - 32 else c

abbrev pub add_arg : Bytes → Option (List Bytes) → Option (List Bytes)
add_arg s none = none
add_arg s (some args) = some (s ∷ args)

-- The loop over the arguments, each of which has to be a bulk string.
unfoldable pub bulk_args : Items → Option (List Bytes)
bulk_args nil = some []
bulk_args (cons (bulk_string s) vs) = add_arg s (bulk_args vs)
bulk_args (cons v vs) = none

abbrev pub make_command : Bytes → Option (List Bytes) → Option RespCommand
make_command s none = none
make_command s (some args) = some (record { command = map to_upper s; args = args })

unfoldable pub to_command : RespValue → Option RespCommand
unfolding bulk_args
to_command (array (cons (bulk_string s) vs)) = make_command s (bulk_args vs)
to_command v = none

bulk_args-bulk_strings : (args : List Bytes) → bulk_args (bulk_strings args) ≡ some args
unfolding bulk_args
bulk_args-bulk_strings [] = refl
bulk_args-bulk_strings (s ∷ args) = rw (bulk_args-bulk_strings args) refl

bulk_args-some :
    (vs : Items) (args : List Bytes) → bulk_args vs ≡ some args → vs ≡ bulk_strings args
unfolding bulk_args
bulk_args-some nil args e = ap bulk_strings (some_cancel e)
bulk_args-some (cons (bulk_string s) vs) args e =
    goes (bulk_args vs) (λ args'. bulk_args-some vs args') e
  where
    goes :
        (found : Option (List Bytes))
        → ((args' : List Bytes) → found ≡ some args' → vs ≡ bulk_strings args')
        → add_arg s found ≡ some args
        → cons (bulk_string s) vs ≡ bulk_strings args
    goes none ih run = cc
    goes (some args') ih run =
        ap (cons (bulk_string s)) (ih args' refl) ∙ ap bulk_strings (some_cancel run)
bulk_args-some (cons (simple_string s) vs) args e = cc
bulk_args-some (cons (error s) vs) args e = cc
bulk_args-some (cons (integer i) vs) args e = cc
bulk_args-some (cons (array ws) vs) args e = cc
bulk_args-some (cons null_bulk_string vs) args e = cc

-- The two of which `make_command` is made, from its result.
make_command-some :
    (s : Bytes) (found : Option (List Bytes)) (c : RespCommand)
    → make_command s found ≡ some c
    → (found ≡ some c.args) × (c.command ≡ map to_upper s)
make_command-some s none c e = cc
make_command-some s (some args) c e = (
  ap (λ (c : RespCommand). some c.args) (some_cancel e),
  ap (λ (c : RespCommand). c.command) (sym (some_cancel e)),
)

to_command-bulk_strings :
    (s : Bytes) (v : RespValue) (c : RespCommand)
    → v ≡ array (bulk_strings (s ∷ c.args))
    → c.command ≡ map to_upper s
    → to_command v ≡ some c
unfolding to_command
to_command-bulk_strings s v c e upper = rw (e, bulk_args-bulk_strings c.args, ← upper) refl

to_command-some :
    (v : RespValue) (c : RespCommand)
    → to_command v ≡ some c
    → (s : Bytes) × (v ≡ array (bulk_strings (s ∷ c.args))) × (c.command ≡ map to_upper s)
unfolding to_command
to_command-some (array (cons (bulk_string s) vs)) c e =
    let (found, upper) = make_command-some s (bulk_args vs) c e in
    (s, ap (λ vs. array (cons (bulk_string s) vs)) (bulk_args-some vs c.args found), upper)
to_command-some (array (cons (simple_string s) vs)) c e = cc
to_command-some (array (cons (error s) vs)) c e = cc
to_command-some (array (cons (integer i) vs)) c e = cc
to_command-some (array (cons (array ws) vs)) c e = cc
to_command-some (array (cons null_bulk_string vs)) c e = cc
to_command-some (array nil) c e = cc
to_command-some (simple_string s) c e = cc
to_command-some (error s) c e = cc
to_command-some (integer i) c e = cc
to_command-some (bulk_string s) c e = cc
to_command-some null_bulk_string c e = cc

-- A value is a command exactly if it is an array of bulk strings, at least one: the first, in upper
-- case, is the command's name and the others are its arguments as they stand.
pub to_command_lem :
    (v : RespValue) (c : RespCommand)
    → (to_command v ≡ some c)
      ↔ ((s : Bytes) × (v ≡ array (bulk_strings (s ∷ c.args))) × (c.command ≡ map to_upper s))
to_command_lem v c = (to_command-some v c, λ (s, e, upper). to_command-bulk_strings s v c e upper)

pub to_command-IsFlat : (v : RespValue) → IsFlat v → to_command v ≡ none
unfolding to_command
to_command-IsFlat (array nil) flat = refl
to_command-IsFlat (array (cons v vs)) flat = absurd flat
to_command-IsFlat (simple_string s) flat = refl
to_command-IsFlat (error s) flat = refl
to_command-IsFlat (integer i) flat = refl
to_command-IsFlat (bulk_string s) flat = refl
to_command-IsFlat null_bulk_string flat = refl

-- Whatever bytes a parser in whatever state is fed with, a value that `parse` returns is no command,
-- and the parser is left as a new one.
pub parse-to_command :
    (can_reserve : ℕ → Bool) (bytes : Bytes) (p p' : RespParser) (v : RespValue)
    → parse can_reserve bytes p ≡ (value v, p')
    → (p' ≡ new) × (to_command v ≡ none)
parse-to_command can_reserve bytes p p' v e =
    let ends : Ends (value v, p') = subst Ends e (parse-Ends can_reserve bytes p) in
    (ends.0, to_command-IsFlat v ends.1)
