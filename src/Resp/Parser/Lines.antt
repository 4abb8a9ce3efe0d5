-- ===== src/Resp/Parser/Lines.antt =====
-- `read_line` of engine/src/resp.cpp.
use distributed_in_memory_kv.Prelude.{
  ℕ, suc, ◌+◌, ◌≤◌, ◌≡◌, refl, true, false, Option, none, some, [], ◌∷◌, ◌++◌, Bytes, arith, length,
  drop, ◌==◌, Bool-cases, inl, inr,
}
use distributed_in_memory_kv.Resp.Value.{crlf}
use distributed_in_memory_kv.Resp.Parser.{read_line, starts_crlf, prepend}

-- There is no carriage return in the text.
abbrev pub IsLine : Bytes → Type 0
IsLine [] = Unit
IsLine (c ∷ s) = ((c == 13) ≡ false) × IsLine s

prepend-some :
    (c : ℕ) (o : Option (Bytes × Bytes)) (line rest : Bytes)
    → prepend c o ≡ some (line, rest)
    → (l : Bytes) × (o ≡ some (l, rest)) × (line ≡ c ∷ l)
prepend-some c none line rest e = cc
prepend-some c (some (l, r)) line rest e = (l, ground arith, ground arith)

-- A line takes its bytes and two more.
pub read_line_shorter :
    (s line rest : Bytes) → read_line s ≡ some (line, rest) → length rest + 2 ≤ length s
unfolding read_line
read_line_shorter [] line rest e = cc
read_line_shorter (c ∷ s) line rest e = elim (Bool-cases (starts_crlf (c ∷ s))) [
  | inl end ↦ at_end s end (rw end at e)
  | inr on ↦
      let (l, found, _) = prepend-some c (read_line s) line rest (rw on at e) in
      omega (arith, read_line_shorter s l rest found)
]
  where
    at_end :
        (s : Bytes)
        → starts_crlf (c ∷ s) ≡ true
        → ◌≡◌ {A = Option (Bytes × Bytes)} (some ([], drop 1 s)) (some (line, rest))
        → length rest + 2 ≤ suc (length s)
    at_end [] h f = cc
    at_end (d ∷ s) h f = ground arith

-- Bytes that follow a line stay behind it.
pub read_line-append :
    (s line rest b : Bytes)
    → read_line s ≡ some (line, rest)
    → read_line (s ++ b) ≡ some (line, rest ++ b)
unfolding read_line
read_line-append [] line rest b e = cc
read_line-append (c ∷ s) line rest b e = elim (Bool-cases (starts_crlf (c ∷ s))) [
  | inl end ↦ at_end s end (rw end at e)
  | inr on ↦
      let (l, found, whole) = prepend-some c (read_line s) line rest (rw on at e) in
      let next = read_line-append s l rest b found in
      rw (still_no_end s l found on, next) (rw whole)
]
  where
    at_end :
        (s : Bytes)
        → starts_crlf (c ∷ s) ≡ true
        → ◌≡◌ {A = Option (Bytes × Bytes)} (some ([], drop 1 s)) (some (line, rest))
        → read_line (c ∷ (s ++ b)) ≡ some (line, rest ++ b)
    at_end [] h f = cc
    at_end (d ∷ s) h f = rw h (ground arith)

    still_no_end :
        (s l : Bytes)
        → read_line s ≡ some (l, rest)
        → starts_crlf (c ∷ s) ≡ false
        → starts_crlf (c ∷ (s ++ b)) ≡ false
    still_no_end [] l f h = cc
    still_no_end (d ∷ s) l f h = h

-- A text without a carriage return is read up to its end.
pub read_line-crlf :
    (line rest : Bytes) → IsLine line → read_line (line ++ (crlf ++ rest)) ≡ some (line, rest)
unfolding read_line
read_line-crlf [] rest h = refl
read_line-crlf (c ∷ []) rest h = rw h.0
read_line-crlf (c ∷ d ∷ s) rest h = rw (h.0, read_line-crlf (d ∷ s) rest h.1)
