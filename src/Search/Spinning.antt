-- ===== src/Search/Spinning.antt =====
-- run_search_cycle.py: what a worker does with a task that it has refused before.
use emule_indexer.Common.{
  ℕ, zero, suc, ◌+◌, ◌-◌, ◌<◌, ◌≡◌, refl, sym, ap, ◌∙◌, Bool, true, Option, some, List, [], ◌∷◌,
  any, length, lt→leb_false, arith,
}
use emule_indexer.Common.Text.{Str, str_eq}
use emule_indexer.Search.Tasks.{SearchTask}
use emule_indexer.Search.Pool.{
  Phase, waiting, yielding, Worker, Shelf, Pool, refuse, serve, turn, turn_at, drain,
}
use emule_indexer.Search.Potential.{add_name-same}

-- The worker at a place waits, and has refused the task on top of the queue before.
abbrev pub HasRefused : ℕ → SearchTask → List Worker → Type 0
HasRefused place task [] = ⊥
HasRefused zero task (worker ∷ workers) =
    (worker.phase ≡ waiting) × (any (str_eq worker.instance_name) task.skipped_by ≡ true)
HasRefused (suc place) task (worker ∷ workers) = HasRefused place task workers

module _ (n : ℕ) (task : SearchTask) (queue : List (Option SearchTask)) where
  back : Shelf → Shelf
  back shelf = record shelf { queue = some task ∷ queue; unfinished = shelf.unfinished + 1 }

  refuse-back :
      (name : Str) (shelf : Shelf)
      → length task.skipped_by < n
      → any (str_eq name) task.skipped_by ≡ true
      → refuse n name task (record shelf { queue = queue }) ≡ (yielding, back shelf)
  unfolding refuse back
  refuse-back name shelf few old =
      rw (add_name-same name task.skipped_by old, lt→leb_false (length task.skipped_by) n few)

  back-done :
      (shelf : Shelf)
      → shelf.queue ≡ some task ∷ queue
      → record (back shelf) { unfinished = (back shelf).unfinished - 1 } ≡ shelf
  unfolding back
  back-done shelf e =
      let count : shelf.unfinished + 1 - 1 ≡ shelf.unfinished = omega arith in
      ap (λ (t : ℕ). record shelf { queue = some task ∷ queue; unfinished = t }) count
      ∙ ap (λ (t : List (Option SearchTask)). record shelf { queue = t }) (sym e)

  serve-back :
      (name : Str) (shelf : Shelf) (items : List (Option SearchTask))
      → items ≡ some task ∷ queue
      → length task.skipped_by < n
      → any (str_eq name) task.skipped_by ≡ true
      → serve true n name items shelf ≡ (yielding, back shelf)
  unfolding serve
  serve-back name shelf items e few old = rw e (refuse-back name shelf few old)

  turn_twice-same :
      (free : Bool) (name : Str) (phase : Phase) (shelf : Shelf)
      → phase ≡ waiting
      → shelf.queue ≡ some task ∷ queue
      → length task.skipped_by < n
      → any (str_eq name) task.skipped_by ≡ true
      → turn free n name (turn true n name phase shelf).0 (turn true n name phase shelf).1
        ≡ (phase, shelf)
  unfolding turn
  turn_twice-same free name phase shelf here e few old =
      rw (here, serve-back name shelf shelf.queue e few old)
        (ap (λ (t : Shelf). (waiting, t)) (back-done shelf e))

  turn_at_twice-same :
      (free : Bool) (place : ℕ) (workers : List Worker) (shelf : Shelf)
      → shelf.queue ≡ some task ∷ queue
      → length task.skipped_by < n
      → HasRefused place task workers
      → turn_at free n place
          (turn_at true n place workers shelf).0
          (turn_at true n place workers shelf).1
        ≡ (workers, shelf)
  unfolding turn_at
  turn_at_twice-same free place [] shelf e few h = absurd h
  turn_at_twice-same free zero (worker ∷ workers) shelf e few (here, old) =
      let same = turn_twice-same free worker.instance_name worker.phase shelf here e few old in
      ap (λ (t : Phase × Shelf). (record worker { phase = t.0 } ∷ workers, t.1)) same
  turn_at_twice-same free (suc place) (worker ∷ workers) shelf e few h =
      ap (λ (t : List Worker × Shelf). (worker ∷ t.0, t.1))
        (turn_at_twice-same free place workers shelf e few h)

-- The turns of one worker, twice for each round: it asks, is blocked, and asks again.
abbrev pub rounds : ℕ → ℕ → List (ℕ × Bool)
rounds zero place = []
rounds (suc k) place = (place, true) ∷ (place, true) ∷ rounds k place

-- A blocked worker that has refused the task on top of the queue spins: as long as no other worker
-- has a turn, any number of its rounds leave the pool as it was, and the task on top.
pub drain-rounds-same :
    (n k place : ℕ) (task : SearchTask) (queue : List (Option SearchTask)) (pool : Pool)
    → pool.shelf.queue ≡ some task ∷ queue
    → length task.skipped_by < n
    → HasRefused place task pool.workers
    → drain n (rounds k place) pool ≡ pool
unfolding drain
drain-rounds-same n zero place task queue pool e few h = refl
drain-rounds-same n (suc k) place task queue pool e few h =
    let same = turn_at_twice-same n task queue true place pool.workers pool.shelf e few h in
    ap
      (λ (t : List Worker × Shelf).
        drain n (rounds k place) (record { shelf = t.1; workers = t.0 }))
      same
    ∙ drain-rounds-same n k place task queue pool e few h
