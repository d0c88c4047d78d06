-- ===== src/Search/Joined.antt =====
-- run_search_cycle.py: what `queue.join()` waits for, and what holds when it returns.
use emule_indexer.Common.{
  ℕ, zero, suc, ◌+◌, ◌≡◌, refl, inl, inr, Bool, true, false, Option, none, some, List, [], ◌∷◌,
  length, leb, Bool-cases, arith,
}
use emule_indexer.Common.Text.{Str}
use emule_indexer.Search.Tasks.{SearchChannel, SearchTask, add_name}
use emule_indexer.Search.Pool.{
  Phase, waiting, running, pausing, reporting, yielding, returned, Worker, Shelf, Pool, refuse,
  serve, after_task, turn, turn_at, drain, ready, start,
}
use emule_indexer.Search.Counting.{
  queued, held, in_hands, were_run, given_up, drain-same, in_hands-ready,
}

-- A worker that took an item and has not called `task_done` for it.
abbrev pub busy : Phase → ℕ
busy waiting = 0
busy (running task) = 1
busy pausing = 1
busy (reporting task) = 1
busy yielding = 1
busy returned = 0

abbrev pub all_busy : List Worker → ℕ
all_busy [] = 0
all_busy (worker ∷ workers) = busy worker.phase + all_busy workers

-- The counter of `task_done`, beside `rest` items that other workers hold.
abbrev Accounts : ℕ → Phase × Shelf → Type 0
Accounts rest (phase, shelf) = shelf.unfinished ≡ length shelf.queue + busy phase + rest

refuse-Accounts :
    (n : ℕ) (name : Str) (task : SearchTask) (shelf : Shelf) (rest : ℕ)
    → shelf.unfinished ≡ length shelf.queue + 1 + rest
    → Accounts rest (refuse n name task shelf)
unfolding refuse
refuse-Accounts n name task shelf rest h =
    elim (Bool-cases (leb n (length (add_name name task.skipped_by)))) [
      | inl all ↦ rw all (omega arith)
      | inr some_left ↦ rw some_left (omega arith)
    ]

serve-Accounts :
    (blocked : Bool) (n : ℕ) (name : Str) (queue : List (Option SearchTask)) (shelf : Shelf)
    (rest : ℕ)
    → shelf.queue ≡ queue
    → shelf.unfinished ≡ length queue + rest
    → Accounts rest (serve blocked n name queue shelf)
unfolding serve
serve-Accounts blocked n name [] shelf rest e h = rw e (omega arith)
serve-Accounts blocked n name (none ∷ queue) shelf rest e h = omega arith
serve-Accounts true n name (some task ∷ queue) shelf rest e h =
    refuse-Accounts n name task (record shelf { queue = queue }) rest (omega arith)
serve-Accounts false n name (some task ∷ queue) shelf rest e h = omega arith

after_task-Accounts :
    (queue : List (Option SearchTask)) (shelf : Shelf) (rest : ℕ)
    → shelf.queue ≡ queue
    → shelf.unfinished ≡ length queue + 1 + rest
    → Accounts rest (after_task queue shelf)
unfolding after_task
after_task-Accounts [] shelf rest e h = rw e (omega arith)
after_task-Accounts (item ∷ queue) shelf rest e h = rw e (omega arith)

turn-Accounts :
    (blocked : Bool) (n : ℕ) (name : Str) (phase : Phase) (shelf : Shelf) (rest : ℕ)
    → Accounts rest (phase, shelf)
    → Accounts rest (turn blocked n name phase shelf)
unfolding turn
turn-Accounts blocked n name waiting shelf rest h =
    serve-Accounts blocked n name shelf.queue shelf rest refl (omega arith)
turn-Accounts blocked n name (running task) shelf rest h =
    after_task-Accounts shelf.queue (record shelf { ran = task ∷ shelf.ran }) rest refl h
turn-Accounts blocked n name pausing shelf rest h = omega arith
turn-Accounts blocked n name (reporting task) shelf rest h = omega arith
turn-Accounts blocked n name yielding shelf rest h = omega arith
turn-Accounts blocked n name returned shelf rest h = h

turn_at-Accounts :
    (blocked : Bool) (n place : ℕ) (workers : List Worker) (shelf : Shelf) (rest : ℕ)
    → shelf.unfinished ≡ length shelf.queue + all_busy workers + rest
    → (turn_at blocked n place workers shelf).1.unfinished
      ≡ length (turn_at blocked n place workers shelf).1.queue
        + all_busy (turn_at blocked n place workers shelf).0
        + rest
unfolding turn_at
turn_at-Accounts blocked n place [] shelf rest h = h
turn_at-Accounts blocked n zero (worker ∷ workers) shelf rest h = omega (
  arith,
  turn-Accounts blocked n worker.instance_name worker.phase shelf (all_busy workers + rest)
      (omega arith),
)
turn_at-Accounts blocked n (suc place) (worker ∷ workers) shelf rest h =
    omega (
      arith,
      turn_at-Accounts blocked n place workers shelf (busy worker.phase + rest) (omega arith),
    )

pub drain-Accounts :
    (n : ℕ) (schedule : List (ℕ × Bool)) (pool : Pool)
    → pool.shelf.unfinished ≡ length pool.shelf.queue + all_busy pool.workers
    → (drain n schedule pool).shelf.unfinished
      ≡ length (drain n schedule pool).shelf.queue + all_busy (drain n schedule pool).workers
unfolding drain
drain-Accounts n [] pool h = h
drain-Accounts n ((place, blocked) ∷ schedule) pool h =
    drain-Accounts n schedule
      (record {
        shelf = (turn_at blocked n place pool.workers pool.shelf).1;
        workers = (turn_at blocked n place pool.workers pool.shelf).0;
      })
      (omega (arith, turn_at-Accounts blocked n place pool.workers pool.shelf 0 (omega arith)))

pub all_busy-ready : (names : List Str) → all_busy (ready names) ≡ 0
all_busy-ready [] = refl
all_busy-ready (name ∷ names) = omega (arith, all_busy-ready names)

module _ (p : Str → SearchChannel → Bool) where
  held-le-busy : (phase : Phase) → busy phase ≡ 0 → held p phase ≡ 0
  held-le-busy waiting h = refl
  held-le-busy (running task) h = absurd (omega arith)
  held-le-busy pausing h = refl
  held-le-busy (reporting task) h = absurd (omega arith)
  held-le-busy yielding h = refl
  held-le-busy returned h = refl

  in_hands-idle : (workers : List Worker) → all_busy workers ≡ 0 → in_hands p workers ≡ 0
  in_hands-idle [] h = refl
  in_hands-idle (worker ∷ workers) h =
      omega (arith, held-le-busy worker.phase (omega arith), in_hands-idle workers (omega arith))

  queued-empty : (queue : List (Option SearchTask)) → length queue ≡ 0 → queued p queue ≡ 0
  queued-empty [] h = refl
  queued-empty (item ∷ queue) h = absurd (omega arith)

  -- When `join` returns, every task of the cycle was run or given up, once: whatever the order of
  -- the turns and whoever was blocked, the tasks of a keyword and a channel that were run and
  -- that were given up are together as many as were put into the queue.
  pub drain-joined :
      (names : List Str) (queue : List (Option SearchTask)) (schedule : List (ℕ × Bool))
      → (drain (length names) schedule (start names queue)).shelf.unfinished ≡ 0
      → were_run p (drain (length names) schedule (start names queue)).shelf.ran
          + given_up p (drain (length names) schedule (start names queue)).shelf.dropped
        ≡ queued p queue
  unfolding start
  drain-joined names queue schedule joined =
      let pool = drain (length names) schedule (start names queue) in
      let accounts =
        drain-Accounts (length names) schedule (start names queue)
          (omega (arith, all_busy-ready names)) in
      omega (
        arith,
        drain-same p (length names) schedule (start names queue),
        accounts,
        in_hands-ready p names,
        in_hands-idle pool.workers (omega (arith, accounts)),
        queued-empty pool.shelf.queue (omega (arith, accounts)),
      )
