-- ===== src/Workers/Drained.antt =====
-- A worker that gets its turns serves its queue (worker_loop of engine/src/sharded_engine.cpp).
use distributed_in_memory_kv.Prelude.{
  ℕ, suc, ◌<◌, ◌≤◌, ◌≡◌, refl, ap, sym, ◌∙◌, inr, Bool, true, false, not, ◌&&◌, ◌||◌, List, [], ◌∷◌,
  arith, length, ◌==◌, if◌then◌else◌, if_of_true,
}
use mathlib.Core.Path.{subst}
use distributed_in_memory_kv.Workers.{
  key_of, Shard, ShardedEngine, WorkerThread, get_shard_id, shard_at, worker_at, start, Event, step,
  run,
}
use WorkerThread.{at_test}
use Event.{submitted, tested, worked, started, stopped}
use distributed_in_memory_kv.Workers.Sequential.{
  IsWide, answer_all, served, routed, run-served, step-IsWide, num_shards-step, shard_at-start,
  shard_at-test,
}
use distributed_in_memory_kv.Workers.Turns.{Turn, test-Turn, work-Steps, submit-Turn}

-- No event stops the engine or makes a request of shard `i` of `n`.
unfoldable pub is_quiet : ℕ → ℕ → List Event → Bool
is_quiet n i [] = true
is_quiet n i (submitted r ∷ xs) = not (get_shard_id n (key_of r) == i) && is_quiet n i xs
is_quiet n i (stopped ∷ xs) = false
is_quiet n i (_ ∷ xs) = is_quiet n i xs

-- How often worker `i` gets to test `running_` and then to run the body; `past` says that it is past a test.
unfoldable pub turns : ℕ → Bool → List Event → ℕ
turns i past [] = 0
turns i past (tested j ∷ xs) = turns i (past || j == i) xs
turns i past (worked j ∷ xs) =
    let more = turns i (past && not (j == i)) xs in if past && j == i then suc more else more
turns i past (_ ∷ xs) = turns i past xs

no_length {ℓ} : {A : Type ℓ} (xs : List A) → length xs ≤ 0 → xs ≡ []
no_length [] h = refl
no_length (x ∷ xs) h = absurd (omega arith)

drain :
    (xs : List Event) (i : ℕ) (past : Bool) {e : ShardedEngine}
    → IsWide e
    → Turn i past e
    → is_quiet e.num_shards i xs ≡ true
    → length (shard_at i e).queue ≤ turns i past xs
    → (shard_at i (run xs e)).queue ≡ []
unfolding run is_quiet turns
drain [] i past {e} w t quiet few = no_length (shard_at i e).queue few
drain (submitted r ∷ xs) i past {e} w t quiet few =
    let other : (get_shard_id e.num_shards (key_of r) == i) ≡ false = ground (arith, quiet) in
    let (same, t') = submit-Turn i r past w other t in
    drain xs i past (step-IsWide (submitted r) w) (unfold step in t')
      (rw (num_shards-step (submitted r) e) (ground (arith, quiet))) (unfold step in rw same few)
drain (tested j ∷ xs) i past {e} w t quiet few =
    drain xs i (past || j == i) (step-IsWide (tested j) w) (unfold step in test-Turn i j past e t)
      (rw (num_shards-step (tested j) e) quiet) (unfold step in rw (shard_at-test j i e) few)
drain (worked j ∷ xs) i past {e} w t quiet few =
    let s = work-Steps i j (turns i (past && not (j == i)) xs) past e t few in
    drain xs i (past && not (j == i)) (step-IsWide (worked j) w) (unfold step in s.turn)
      (rw (num_shards-step (worked j) e) quiet) (unfold step in s.few)
drain (started ∷ xs) i past {e} w t quiet few =
    let same : start e ≡ e = unfold start in if_of_true e _ t.on in
    drain xs i past (step-IsWide started w) (unfold step in subst (Turn i past) (sym same) t)
      (rw (num_shards-step started e) quiet) (unfold step in rw (shard_at-start i e) few)
drain (stopped ∷ xs) i past w t quiet few = cc

quiet-routed : (n i : ℕ) (xs : List Event) → is_quiet n i xs ≡ true → routed n i xs ≡ []
unfolding is_quiet routed
quiet-routed n i [] h = refl
quiet-routed n i (submitted r ∷ xs) h = ground (arith, quiet-routed n i xs)
quiet-routed n i (tested j ∷ xs) h = quiet-routed n i xs h
quiet-routed n i (worked j ∷ xs) h = quiet-routed n i xs h
quiet-routed n i (started ∷ xs) h = quiet-routed n i xs h
quiet-routed n i (stopped ∷ xs) h = cc

served_empty : (s : Shard) → s.queue ≡ [] → served s ≡ s
unfolding served answer_all
served_empty s e =
    ap (λ q. answer_all q (record s { queue = [] })) e ∙ (λ j. record s { queue = sym e j })

-- In an engine that runs and has a shard for every index, a worker stands at its test of `running_`. In any
-- execution that neither stops the engine nor brings its shard a new request, whatever the other clients and
-- workers do, once it has had as many turns at the test and then the body of its loop as there are
-- requests in its queue, the queue is empty and the shard has the table and the answers that those requests give
-- one after the other, in their order.
pub run-drained :
    (xs : List Event) (i : ℕ) {e : ShardedEngine}
    → IsWide e
    → e.running ≡ true
    → i < length e.workers
    → worker_at i e ≡ at_test
    → is_quiet e.num_shards i xs ≡ true
    → length (shard_at i e).queue ≤ turns i false xs
    → ((shard_at i (run xs e)).queue ≡ []) × (shard_at i (run xs e) ≡ served (shard_at i e))
run-drained xs i {e} w on there at quiet few =
    let t : Turn i false e = record { on = on; there = there; can = inr at } in
    let empty = drain xs i false w t quiet few in
    (
      empty,
      sym (served_empty (shard_at i (run xs e)) empty)
          ∙ (run-served xs i w
              ∙ (ap (λ rs. answer_all rs (served (shard_at i e)))
                    (quiet-routed e.num_shards i xs quiet)
                  ∙ (unfold answer_all in refl))),
    )
