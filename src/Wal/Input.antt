-- ===== src/Wal/Input.antt =====
-- `std::ifstream` as wal.cpp uses it: the bytes not read yet and the stream's state. A read that
-- comes short takes what is left and spoils the state, and a spoilt stream reads nothing.
use distributed_in_memory_kv.Prelude.{
  ℕ, Bool, true, false, Option, none, some, [], Bytes, length, take, drop, leb, ◌==◌, if◌then◌else◌,
}

pub record Stream : Type 0 where
  pub rest : Bytes
  pub good : Bool

-- `file.read(p, n)`: the bytes read; `gcount` is their number.
unfoldable pub read : ℕ → Stream → Bytes × Stream
read n s =
    if s.good
    then (if leb n (length s.rest)
        then (take n s.rest, record { rest = drop n s.rest; good = true })
        else (s.rest, record { rest = []; good = false }))
    else ([], s)

-- Code that reads, and gives up at the first failure.
abbrev pub Read : Type 0 → Type 0
Read A = Stream → Option A × Stream

abbrev pub pure : {A : Type 0} → A → Read A
pure a s = (some a, s)

abbrev pub continue : {A B : Type 0} → Option A × Stream → (A → Read B) → Option B × Stream
continue (none, s) f = (none, s)
continue (some a, s) f = f a s

infixl 5 ◌>>=◌
abbrev pub ◌>>=◌ : {A B : Type 0} → Read A → (A → Read B) → Read B
◌>>=◌ m f s = continue (m s) f

-- `file.read(p, n); if (file.gcount() != n) return false;`
unfoldable pub exactly : ℕ → Read Bytes
unfolding read
exactly n s =
    let (chunk, s') = read n s in if length chunk == n then (some chunk, s') else (none, s')

abbrev pub cut : ℕ → Bytes → Stream
cut n bytes = record { rest = take n bytes; good = true }

abbrev pub spoilt : Stream
spoilt = record { rest = []; good = false }
