-- ===== src/HashTable/Scanner.antt =====
-- The thread of the expiry scanner: `start_ttl_scanner` and `stop_ttl_scanner` of
-- engine/src/hash_table.cpp. A scan is one step; the table has no lock, so that a call during a scan
-- would be a data race, and is not modelled.
use mathlib.Core.Path.{subst}
use distributed_in_memory_kv.Prelude.{
  sym, if_of_true, if_of_false, ℕ, Bool, true, false, Option, none, some, List, [], ◌∷◌, ◌≡◌, refl,
  inl, inr, ap, ◌∙◌, arith, if◌then◌else◌, Bool-cases, if-holds,
}
use distributed_in_memory_kv.HashTable.{HashTable}
use distributed_in_memory_kv.HashTable.Valid.{IsValid}
use distributed_in_memory_kv.HashTable.Evict.{Shrinks}
use distributed_in_memory_kv.HashTable.Upkeep.{scan_expired_keys, scan_expired_keys-Shrinks}

-- `ttl_scanner_thread_`: null, joinable, or joined.
pub data ScannerThread : Type 0 where
  absent joinable joined : ScannerThread

pub record TtlScanner : Type 0 where
  pub table : HashTable
  pub thread : ScannerThread
  pub stop_scanner : Bool
  pub scan_interval_ms : ℕ

abbrev pub new : HashTable → TtlScanner
new t = record { table = t; thread = absent; stop_scanner = false; scan_interval_ms = 100 }

unfoldable pub is_joinable : ScannerThread → Bool
is_joinable joinable = true
is_joinable _ = false

-- Where a thread is joinable, the assignment destroys it, which ends the program: `none`.
unfoldable pub start_ttl_scanner : ℕ → TtlScanner → Option TtlScanner
start_ttl_scanner ms s =
    let s' = record s { scan_interval_ms = ms; stop_scanner = false; thread = joinable } in
    if is_joinable s.thread then none else some s'

-- `join` returns once the thread has seen that it is to stop. The destructor calls this too.
unfoldable pub stop_ttl_scanner : TtlScanner → TtlScanner
stop_ttl_scanner s =
    if is_joinable s.thread then record s { stop_scanner = true; thread = joined } else s

-- One round of the thread's loop.
unfoldable pub scan_round : (ℕ → ℕ → ℕ) → List ℕ → TtlScanner → TtlScanner
unfolding scan_expired_keys
scan_round clock buckets s =
    let s' = record s { table = scan_expired_keys clock buckets s.table } in
    if is_joinable s.thread then (if s.stop_scanner then s else s') else s

pub data Event : Type 0 where
  started : ℕ → Event
  stopped : Event
  scanned : (ℕ → ℕ → ℕ) → List ℕ → Event

unfoldable pub then_run : (TtlScanner → Option TtlScanner) → Option TtlScanner → Option TtlScanner
then_run again none = none
then_run again (some s) = again s

unfoldable pub run : List Event → TtlScanner → Option TtlScanner
unfolding start_ttl_scanner stop_ttl_scanner scan_round then_run
run [] s = some s
run (started ms ∷ events) s = then_run (run events) (start_ttl_scanner ms s)
run (stopped ∷ events) s = run events (stop_ttl_scanner s)
run (scanned clock buckets ∷ events) s = run events (scan_round clock buckets s)

stop-joinable : (s : TtlScanner) → is_joinable (stop_ttl_scanner s).thread ≡ false
unfolding stop_ttl_scanner is_joinable
stop-joinable s = elim (Bool-cases (is_joinable s.thread)) [
  | inl runs ↦ ap (λ (s : TtlScanner). is_joinable s.thread) (if_of_true _ _ runs)
  | inr rests ↦ ap (λ (s : TtlScanner). is_joinable s.thread) (if_of_false _ _ rests) ∙ rests
]

-- After a stop no scan changes the table, until the next start.
pub stop-scan_round :
    (clock : ℕ → ℕ → ℕ) (buckets : List ℕ) (s : TtlScanner)
    → scan_round clock buckets (stop_ttl_scanner s) ≡ stop_ttl_scanner s
unfolding scan_round
stop-scan_round clock buckets s = if_of_false _ _ (stop-joinable s)

-- A start after a stop does not end the program.
pub stop-start_ttl_scanner :
    (ms : ℕ) (s : TtlScanner)
    → (s' : TtlScanner) × (start_ttl_scanner ms (stop_ttl_scanner s) ≡ some s')
unfolding start_ttl_scanner
stop-start_ttl_scanner ms s = (_, if_of_false _ _ (stop-joinable s))

scan_round-Shrinks :
    (clock : ℕ → ℕ → ℕ) (buckets : List ℕ) (s : TtlScanner)
    → IsValid s.table
    → Shrinks s.table (scan_round clock buckets s).table
unfolding scan_round
scan_round-Shrinks clock buckets s valid =
    let P : TtlScanner → Type 0 = λ s'. Shrinks s.table s'.table in
    let same : Shrinks s.table s.table = record { valid = valid; reads = λ q. inl refl } in
    if-holds P (is_joinable s.thread)
      (if-holds P s.stop_scanner same (scan_expired_keys-Shrinks clock buckets valid)) same

stop-table : (s : TtlScanner) → (stop_ttl_scanner s).table ≡ s.table
unfolding stop_ttl_scanner
stop-table s = if-holds (λ (s' : TtlScanner). s'.table ≡ s.table) (is_joinable s.thread) refl refl

Shrinks-trans : {a b c : HashTable} → Shrinks a b → Shrinks b c → Shrinks a c
Shrinks-trans first second = record {
  valid = second.valid;
  reads = λ q. ground (arith, first.reads q, second.reads q);
}

-- Where the table goes through the events, if they do not end the program.
abbrev pub Leaves : HashTable → Option TtlScanner → Type 0
Leaves t none = Unit
Leaves t (some s) = Shrinks t s.table

Leaves-trans : {a b : HashTable} → Shrinks a b → (s : Option TtlScanner) → Leaves b s → Leaves a s
Leaves-trans first none second = tt
Leaves-trans first (some s) second = Shrinks-trans first second

started-Leaves :
    (again : TtlScanner → Option TtlScanner) (s s' : TtlScanner)
    → Leaves s.table (again s')
    → Leaves s.table (then_run again (if is_joinable s.thread then none else some s'))
unfolding then_run
started-Leaves again s s' leaves =
    if-holds (λ o. Leaves s.table (then_run again o)) (is_joinable s.thread) tt leaves

-- Starts, stops and rounds of the scanner, in any order, keep a valid table valid, and every key then
-- reads as before or is gone.
pub run-Leaves :
    (events : List Event) (s : TtlScanner) → IsValid s.table → Leaves s.table (run events s)
unfolding run
run-Leaves [] s valid = record { valid = valid; reads = λ q. inl refl }
run-Leaves (started ms ∷ events) s valid =
    let s' = record s { scan_interval_ms = ms; stop_scanner = false; thread = joinable } in
    started-Leaves (run events) s s' (run-Leaves events s' valid)
run-Leaves (stopped ∷ events) s valid =
    subst (λ t. Leaves t (run events (stop_ttl_scanner s))) (stop-table s)
      (run-Leaves events (stop_ttl_scanner s) (subst IsValid (sym (stop-table s)) valid))
run-Leaves (scanned clock buckets ∷ events) s valid =
    let first = scan_round-Shrinks clock buckets s valid in
    Leaves-trans first (run events (scan_round clock buckets s))
      (run-Leaves events (scan_round clock buckets s) first.valid)
