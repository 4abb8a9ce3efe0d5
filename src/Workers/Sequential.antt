-- ===== src/Workers/Sequential.antt =====
-- Whatever the interleaving of clients and workers, a shard does what it was asked, in the order in
-- which the requests came (worker_loop of engine/src/sharded_engine.cpp).
use distributed_in_memory_kv.Prelude.{
  ℕ, zero, suc, ◌<◌, ◌≤◌, ◌≡◌, refl, ap, ◌∙◌, inl, inr, List, [], ◌∷◌, ◌++◌, arith, length,
  get_or-set, length-set, ◌==◌, if◌then◌else◌, Bool-cases, if-holds, sym, get_or,
}
use distributed_in_memory_kv.Workers.{
  Request, key_of, Shard, ShardedEngine, WorkerThread, worker_at, set_worker, test, body,
  is_in_body, new_shard, get_shard_id, answer_now, enqueue, take_request, shard_at, write_shard,
  submit, work, Event, step, run, start, stop,
}
use WorkerThread.{at_test, ended}
use Event.{submitted, tested, worked, started, stopped}

-- One request after the other, answered at once.
unfoldable pub answer_all : List Request → Shard → Shard
unfolding answer_now
answer_all [] s = s
answer_all (r ∷ rs) s = answer_all rs (answer_now r s)

-- The shard once its queue has been served.
unfoldable pub served : Shard → Shard
unfolding answer_all
served s = answer_all s.queue (record s { queue = [] })

-- The requests of an execution that are routed to shard `i` of `n`.
unfoldable pub routed : ℕ → ℕ → List Event → List Request
routed n i [] = []
routed n i (submitted r ∷ xs) =
    let more = routed n i xs in if get_shard_id n (key_of r) == i then r ∷ more else more
routed n i (tested j ∷ xs) = routed n i xs
routed n i (worked j ∷ xs) = routed n i xs
routed n i (started ∷ xs) = routed n i xs
routed n i (stopped ∷ xs) = routed n i xs

answer_all-append :
    (rs qs : List Request) (s : Shard) → answer_all (rs ++ qs) s ≡ answer_all qs (answer_all rs s)
unfolding answer_all
answer_all-append [] qs s = refl
answer_all-append (r ∷ rs) qs s = answer_all-append rs qs (answer_now r s)

served-enqueue : (r : Request) (s : Shard) → served (enqueue r s) ≡ answer_now r (served s)
unfolding served enqueue answer_all
served-enqueue r s = answer_all-append s.queue (r ∷ []) (record s { queue = [] })

served-take_request :
    (r : Request) (rs : List Request) (s : Shard)
    → s.queue ≡ r ∷ rs
    → served (take_request r rs s) ≡ served s
unfolding served take_request answer_all answer_now
served-take_request r rs s e = rw e refl

-- There is a shard for every index.
pub record IsWide (e : ShardedEngine) : Type 0 where
  pub wide : 0 < e.num_shards
  pub full : length e.shards ≡ e.num_shards

pub shard_at-write_shard :
    (i j : ℕ) (s : Shard) (e : ShardedEngine)
    → i < length e.shards
    → shard_at j (write_shard i s e) ≡ (if i == j then s else shard_at j e)
unfolding shard_at write_shard
shard_at-write_shard i j s e h = get_or-set e.shards i j s _ h

write_shard-IsWide : (i : ℕ) (s : Shard) {e : ShardedEngine} → IsWide e → IsWide (write_shard i s e)
unfolding write_shard
write_shard-IsWide i s {e} w = record { wide = w.wide; full = length-set e.shards i s ∙ w.full }

-- A test of `running_` and a change of a thread's state change no shard.
pub shard_at-test : (i j : ℕ) (e : ShardedEngine) → shard_at j (test i e) ≡ shard_at j e
unfolding shard_at test set_worker
shard_at-test i j e = refl

pub shard_at-set_worker :
    (i j : ℕ) (w : WorkerThread) (e : ShardedEngine) → shard_at j (set_worker i w e) ≡ shard_at j e
unfolding shard_at set_worker
shard_at-set_worker i j w e = refl

pub get_or-past {ℓ} : {A : Type ℓ} (xs : List A) (i : ℕ) (d : A) → length xs ≤ i → get_or xs i d ≡ d
unfolding get_or
get_or-past [] i d h = refl
get_or-past (x ∷ xs) zero d h = absurd (omega arith)
get_or-past (x ∷ xs) (suc i) d h = get_or-past xs i d (omega arith)

-- Past the last shard there is an empty queue.
pub shard_at-past : (i : ℕ) (e : ShardedEngine) → length e.shards ≤ i → (shard_at i e).queue ≡ []
unfolding shard_at new_shard
shard_at-past i e past = rw (get_or-past e.shards i _ past) refl

pub shard_at-body :
    (i j : ℕ) (e : ShardedEngine) (r : Request) (rs : List Request)
    → i < length e.shards
    → shard_at j (body (r ∷ rs) i e)
      ≡ (if i == j then take_request r rs (shard_at i e) else shard_at j e)
unfolding body
shard_at-body i j e r rs there =
    shard_at-set_worker i j at_test (write_shard i (take_request r rs (shard_at i e)) e)
    ∙ shard_at-write_shard i j (take_request r rs (shard_at i e)) e there

served-body :
    (q : List Request) (i j : ℕ) (e : ShardedEngine)
    → (shard_at i e).queue ≡ q
    → served (shard_at j (body q i e)) ≡ served (shard_at j e)
unfolding body
served-body [] i j e empty =
    ap served (
      if-holds (λ e'. shard_at j e' ≡ shard_at j e) e.running refl
        (shard_at-set_worker i j ended e))
served-body (r ∷ rs) i j e full =
    let there : i < length e.shards = ground (arith, full, shard_at-past i e) in
    elim (Bool-cases (i == j)) [
      | inl same ↦
          let eq : i ≡ j = ground arith in
          rw (shard_at-body i j e r rs there, same)
            (served-take_request r rs (shard_at i e) full ∙ ap (λ k. served (shard_at k e)) eq)
      | inr other ↦ rw (shard_at-body i j e r rs there, other) refl
    ]

-- Working changes no shard but in what is still to be served.
served-work : (i j : ℕ) (e : ShardedEngine) → served (shard_at j (work i e)) ≡ served (shard_at j e)
unfolding work
served-work i j e =
    if-holds (λ e'. served (shard_at j e') ≡ served (shard_at j e)) (is_in_body (worker_at i e))
      (served-body (shard_at i e).queue i j e refl) refl

pub shard_at-start : (j : ℕ) (e : ShardedEngine) → shard_at j (start e) ≡ shard_at j e
unfolding start shard_at
shard_at-start j e = if-holds (λ e'. shard_at j e' ≡ shard_at j e) e.running refl refl

served-submit :
    (r : Request) (j : ℕ) {e : ShardedEngine}
    → IsWide e
    → served (shard_at j (submit r e)) ≡ (
        if get_shard_id e.num_shards (key_of r) == j
        then answer_now r (served (shard_at j e))
        else served (shard_at j e))
unfolding submit
served-submit r j {e} w =
    let i = get_shard_id e.num_shards (key_of r) in
    let there : i < length e.shards = unfold get_shard_id in omega (arith, w.wide, w.full) in
    elim (Bool-cases (i == j)) [
      | inl same ↦
          let eq : i ≡ j = ground arith in
          rw (shard_at-write_shard i j (enqueue r (shard_at i e)) e there, same)
            (served-enqueue r (shard_at i e) ∙ rw eq refl)
      | inr other ↦ rw (shard_at-write_shard i j (enqueue r (shard_at i e)) e there, other) refl
    ]

-- There are as many shards as before.
record Same (e e' : ShardedEngine) : Type 0 where
  count : e'.num_shards ≡ e.num_shards
  width : length e'.shards ≡ length e.shards

same : (e : ShardedEngine) → Same e e
same e = record { count = refl; width = refl }

body-Same : (q : List Request) (i : ℕ) (e : ShardedEngine) → Same e (body q i e)
unfolding body set_worker write_shard
body-Same [] i e = if-holds (Same e) e.running (same e) (record { count = refl; width = refl })
body-Same (r ∷ rs) i e = record { count = refl; width = length-set e.shards i _ }

work-Same : (i : ℕ) (e : ShardedEngine) → Same e (work i e)
unfolding work
work-Same i e =
    if-holds (Same e) (is_in_body (worker_at i e)) (body-Same (shard_at i e).queue i e) (same e)

step-Same : (x : Event) (e : ShardedEngine) → Same e (step x e)
unfolding step submit test start stop write_shard set_worker
step-Same (submitted r) e = record { count = refl; width = length-set e.shards _ _ }
step-Same (tested i) e = record { count = refl; width = refl }
step-Same (worked i) e = work-Same i e
step-Same started e = if-holds (Same e) e.running (same e) (record { count = refl; width = refl })
step-Same stopped e = record { count = refl; width = refl }

pub num_shards-step : (x : Event) (e : ShardedEngine) → (step x e).num_shards ≡ e.num_shards
num_shards-step x e = (step-Same x e).count

pub step-IsWide : (x : Event) {e : ShardedEngine} → IsWide e → IsWide (step x e)
step-IsWide x {e} w =
    let s = step-Same x e in
    record { wide = rw s.count w.wide; full = s.width ∙ (w.full ∙ sym s.count) }

-- In every execution, whatever its interleaving, of an engine that has a shard for every index: a shard whose queue is then served has the table
-- and the answers that its requests give one after the other, in the order in which they came.
pub run-served :
    (xs : List Event) (j : ℕ) {e : ShardedEngine}
    → IsWide e
    → served (shard_at j (run xs e)) ≡ answer_all (routed e.num_shards j xs) (served (shard_at j e))
unfolding run routed answer_all
run-served [] j w = refl
run-served (submitted r ∷ xs) j {e} w =
    let rest = run-served xs j (step-IsWide (submitted r) w) in
    let first = served-submit r j w in
    elim (Bool-cases (get_shard_id e.num_shards (key_of r) == j)) [
      | inl same ↦
          rw same (rest ∙ (unfold step in rw (num_shards-step (submitted r) e, first, same) refl))
      | inr other ↦
          rw other (rest ∙ (unfold step in rw (num_shards-step (submitted r) e, first, other) refl))
    ]
run-served (worked i ∷ xs) j {e} w =
    let rest = run-served xs j (step-IsWide (worked i) w) in
    rest
    ∙ (rw (num_shards-step (worked i) e)
        (unfold step in ap (answer_all (routed e.num_shards j xs)) (served-work i j e)))
run-served (tested i ∷ xs) j {e} w =
    let rest = run-served xs j (step-IsWide (tested i) w) in
    rest
    ∙ (rw (num_shards-step (tested i) e) (
        unfold step in
        ap (λ s. answer_all (routed e.num_shards j xs) (served s)) (shard_at-test i j e)))
run-served (started ∷ xs) j {e} w =
    let rest = run-served xs j (step-IsWide started w) in
    rest
    ∙ (rw (num_shards-step started e) (
        unfold step in
        ap (λ s. answer_all (routed e.num_shards j xs) (served s)) (shard_at-start j e)))
run-served (stopped ∷ xs) j {e} w =
    run-served xs j (step-IsWide stopped w) ∙ (unfold step stop shard_at in refl)
