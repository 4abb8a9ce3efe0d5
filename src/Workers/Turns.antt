-- ===== src/Workers/Turns.antt =====
-- Where a worker stands, and what each step of an execution does to that and to its queue (worker_loop of
-- engine/src/sharded_engine.cpp).
use distributed_in_memory_kv.Prelude.{
  ℕ, zero, suc, ◌<◌, ◌≤◌, ◌≡◌, refl, ap, sym, ◌∙◌, ◌⊎◌, inl, inr, Bool, true, false, not, ◌&&◌,
  ◌||◌, List, [], ◌∷◌, arith, length, set, get_or, length-set, ◌==◌, if◌then◌else◌, Bool-cases,
  if-holds, if_of_true, if_of_false,
}
use mathlib.Core.Path.{subst}
use distributed_in_memory_kv.Workers.{
  Request, key_of, Shard, ShardedEngine, WorkerThread, get_shard_id, take_request, answer_now,
  enqueue, shard_at, write_shard, submit, worker_at, set_worker, after_test, test, body, is_in_body,
  work,
}
use WorkerThread.{at_test, in_body, ended}
use distributed_in_memory_kv.Workers.Sequential.{
  IsWide, shard_at-write_shard, shard_at-body, shard_at-past,
}

abbrev pub stands : Bool → WorkerThread
stands past = if past then in_body else at_test

-- The engine runs, and worker `i` stands where it is said to, unless it has nothing to do.
pub record Turn (i : ℕ) (past : Bool) (e : ShardedEngine) : Type 0 where
  pub on : e.running ≡ true
  pub there : i < length e.workers
  pub can : ((shard_at i e).queue ≡ []) ⊎ (worker_at i e ≡ stands past)

get_or-set_there {ℓ} :
    {A : Type ℓ} (xs : List A) (i j : ℕ) (v d : A)
    → i < length xs
    → get_or (set xs j v) i d ≡ (if j == i then v else get_or xs i d)
unfolding get_or
get_or-set_there [] i j v d h = absurd (omega arith)
get_or-set_there (x ∷ xs) (suc i) (suc j) v d h = ground (arith, get_or-set_there xs i j v d)
get_or-set_there (x ∷ xs) zero zero v d h = ground arith
get_or-set_there (x ∷ xs) i j v d h = ground arith

worker_at-set_worker :
    (i j : ℕ) (w : WorkerThread) (e : ShardedEngine)
    → i < length e.workers
    → worker_at i (set_worker j w e) ≡ (if j == i then w else worker_at i e)
unfolding worker_at set_worker
worker_at-set_worker i j w e h = get_or-set_there e.workers i j w _ h

after_test-stands :
    (past running : Bool) → running ≡ true → after_test running (stands past) ≡ in_body
unfolding after_test
after_test-stands true running on = refl
after_test-stands false running on = rw on refl

stands-test :
    (past mine : Bool) (now was : WorkerThread)
    → now ≡ in_body
    → was ≡ stands past
    → (if mine then now else was) ≡ stands (past || mine)
stands-test true true now was n w = n
stands-test false true now was n w = n
stands-test true false now was n w = w
stands-test false false now was n w = w

pub test-Turn :
    (i j : ℕ) (past : Bool) (e : ShardedEngine) → Turn i past e → Turn i (past || j == i) (test j e)
unfolding test
test-Turn i j past e t = record {
  on = unfold set_worker in t.on;
  there = unfold set_worker in rw (length-set e.workers j _) t.there;
  can = elim t.can [
    | inl empty ↦ inl (unfold set_worker shard_at in empty)
    | inr at ↦ elim (Bool-cases (j == i)) [
      | inl same ↦
          let eq : j ≡ i = ground arith in
          let now : after_test e.running (worker_at j e) ≡ in_body =
            ap (λ k. after_test e.running (worker_at k e)) eq
            ∙ (ap (after_test e.running) at ∙ after_test-stands past e.running t.on) in
          inr (worker_at-set_worker i j _ e t.there ∙ stands-test past (j == i) _ _ now at)
      | inr other ↦ inr (worker_at-set_worker i j _ e t.there ∙ rw other (at ∙ stands_still past))
    ]
  ];
}
  where
    stands_still : (b : Bool) → stands b ≡ stands (b || false)
    stands_still true = refl
    stands_still false = refl

-- What a step leaves of the worker's turn and of its queue, with `n` turns to come.
pub record Steps (i n : ℕ) (past : Bool) (e : ShardedEngine) : Type 0 where
  pub turn : Turn i past e
  pub few : length (shard_at i e).queue ≤ n

queue_after : (r : Request) (rs : List Request) (s : Shard) → (take_request r rs s).queue ≡ rs
unfolding take_request answer_now
queue_after r rs s = refl

-- Another worker's body.
other-Turn :
    (i j : ℕ) (past : Bool) (q : List Request) (e : ShardedEngine)
    → (j == i) ≡ false
    → (shard_at j e).queue ≡ q
    → Turn i past e
    → (shard_at i (body q j e) ≡ shard_at i e) × Turn i past (body q j e)
unfolding body
other-Turn i j past [] e other full t =
    let P : ShardedEngine → Type 0 = λ e'. (shard_at i e' ≡ shard_at i e) × Turn i past e' in
    if-holds P e.running (refl, t)
      (
        unfold set_worker shard_at in refl,
        record {
          on = unfold set_worker in t.on;
          there = unfold set_worker in rw (length-set e.workers j _) t.there;
          can = elim t.can [
            | inl empty ↦ inl (unfold set_worker shard_at in empty)
            | inr at ↦ inr (worker_at-set_worker i j ended e t.there ∙ rw other at)
          ];
        },
      )
other-Turn i j past (r ∷ rs) e other full t =
    let there : j < length e.shards = ground (arith, full, shard_at-past j e) in
    let same : shard_at i (body (r ∷ rs) j e) ≡ shard_at i e =
      shard_at-body j i e r rs there ∙ rw other refl in
    let e₁ = write_shard j (take_request r rs (shard_at j e)) e in
    (
      same,
      record {
        on = unfold set_worker write_shard in t.on;
        there = unfold set_worker write_shard in rw (length-set e.workers j _) t.there;
        can = elim t.can [
          | inl empty ↦ inl (ap (λ (s : Shard). s.queue) same ∙ empty)
          | inr at ↦ inr (
              worker_at-set_worker i j at_test e₁ (unfold write_shard in t.there)
              ∙ rw other (unfold worker_at write_shard in at))
        ];
      },
    )

-- The worker's own body, past its test.
own-Steps :
    (i n : ℕ) (q : List Request) (e : ShardedEngine)
    → (shard_at i e).queue ≡ q
    → length q ≤ suc n
    → Turn i true e
    → Steps i n false (body q i e)
unfolding body
own-Steps i n [] e empty few t =
    subst (Steps i n false) (sym (if_of_true e (set_worker i ended e) t.on)) (record {
      turn = record { on = t.on; there = t.there; can = inl empty };
      few = rw empty (omega arith);
    })
own-Steps i n (r ∷ rs) e full few t =
    let there : i < length e.shards = ground (arith, full, shard_at-past i e) in
    let e₁ = write_shard i (take_request r rs (shard_at i e)) e in
    let mine : (i == i) ≡ true = ground arith in
    let own : shard_at i (body (r ∷ rs) i e) ≡ take_request r rs (shard_at i e) =
      shard_at-body i i e r rs there ∙ rw mine refl in
    let left : (shard_at i (body (r ∷ rs) i e)).queue ≡ rs =
      ap (λ (s : Shard). s.queue) own ∙ queue_after r rs (shard_at i e) in
    record {
      turn = record {
        on = unfold set_worker write_shard in t.on;
        there = unfold set_worker write_shard in rw (length-set e.workers i _) t.there;
        can =
            inr
              (worker_at-set_worker i i at_test e₁ (unfold write_shard in t.there) ∙ rw mine refl);
      };
      few = rw left (omega (arith, few));
    }

not_in_body : (past : Bool) (w : WorkerThread) → w ≡ stands past → is_in_body w ≡ past
unfolding is_in_body
not_in_body true w h = rw h refl
not_in_body false w h = rw h refl

own_work :
    (i n : ℕ) (past : Bool) (e : ShardedEngine)
    → Turn i past e
    → length (shard_at i e).queue ≤ (if past then suc n else n)
    → Steps i n false (work i e)
unfolding work
own_work i n past e t few = elim t.can [
  | inl empty ↦
      let none_left : Steps i n false e = record {
        turn = record { on = t.on; there = t.there; can = inl empty };
        few = rw empty (omega arith);
      } in
      let idle : body (shard_at i e).queue i e ≡ e =
        rw empty (unfold body in if_of_true e (set_worker i ended e) t.on) in
      if-holds (Steps i n false) (is_in_body (worker_at i e))
        (subst (Steps i n false) (sym idle) none_left) none_left
  | inr at ↦ elim (Bool-cases past) [
    | inl inside ↦
        let go : is_in_body (worker_at i e) ≡ true = not_in_body past (worker_at i e) at ∙ inside in
        let t' : Turn i true e = record {
          on = t.on;
          there = t.there;
          can = inr (at ∙ ap stands inside);
        } in
        let few' : length (shard_at i e).queue ≤ suc n = ground (arith, few, inside) in
        subst (Steps i n false) (sym (if_of_true _ e go))
          (own-Steps i n (shard_at i e).queue e refl few' t')
    | inr outside ↦
        let stay : is_in_body (worker_at i e) ≡ false =
          not_in_body past (worker_at i e) at ∙ outside in
        subst (Steps i n false) (sym (if_of_false _ e stay)) (record {
          turn = record { on = t.on; there = t.there; can = inr (at ∙ ap stands outside) };
          few = ground (arith, few, outside);
        })
  ]
]

pub work-Steps :
    (i j n : ℕ) (past : Bool) (e : ShardedEngine)
    → Turn i past e
    → length (shard_at i e).queue ≤ (if past && j == i then suc n else n)
    → Steps i n (past && not (j == i)) (work j e)
work-Steps i j n past e t few = elim (Bool-cases (j == i)) [
  | inl same ↦
      let eq : j ≡ i = ground arith in
      let few' : length (shard_at i e).queue ≤ (if past then suc n else n) =
        ground (arith, few, same) in
      let off : false ≡ (past && not (j == i)) = ground arith in
      subst (λ k. Steps i n (past && not (j == i)) (work k e)) (sym eq)
        (subst (λ b. Steps i n b (work i e)) off (own_work i n past e t few'))
  | inr other ↦
      let few' : length (shard_at i e).queue ≤ n = ground (arith, few, other) in
      let still : past ≡ (past && not (j == i)) = ground arith in
      let stays : Steps i n past e = record { turn = t; few = few' } in
      let (same, t') = other-Turn i j past (shard_at j e).queue e other refl t in
      subst (λ b. Steps i n b (work j e)) still
        (unfold work in
          if-holds (Steps i n past) (is_in_body (worker_at j e))
            (record { turn = t'; few = rw same few' }) stays)
]

pub submit-Turn :
    (i : ℕ) (r : Request) (past : Bool) {e : ShardedEngine}
    → IsWide e
    → (get_shard_id e.num_shards (key_of r) == i) ≡ false
    → Turn i past e
    → (shard_at i (submit r e) ≡ shard_at i e) × Turn i past (submit r e)
unfolding submit
submit-Turn i r past {e} w other t =
    let k = get_shard_id e.num_shards (key_of r) in
    let there : k < length e.shards = unfold get_shard_id in omega (arith, w.wide, w.full) in
    let same : shard_at i (submit r e) ≡ shard_at i e =
      shard_at-write_shard k i (enqueue r (shard_at k e)) e there ∙ rw other refl in
    (
      same,
      record {
        on = unfold write_shard in t.on;
        there = unfold write_shard in t.there;
        can = elim t.can [
          | inl empty ↦ inl (ap (λ (s : Shard). s.queue) same ∙ empty)
          | inr at ↦ inr (unfold write_shard worker_at in at)
        ];
      },
    )
