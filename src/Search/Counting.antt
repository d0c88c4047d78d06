-- ===== src/Search/Counting.antt =====
-- run_search_cycle.py: where the tasks of a cycle are while the workers drain the queue.
use emule_indexer.Common.{
  ℕ, zero, suc, ◌+◌, ◌≡◌, refl, inl, inr, Bool, true, false, Option, none, some, List, [], ◌∷◌,
  length, leb, Bool-cases, if◌then◌else◌, arith,
}
use emule_indexer.Common.Text.{Str}
use emule_indexer.Search.Tasks.{SearchChannel, SearchTask, add_name}
use emule_indexer.Search.Pool.{
  Phase, waiting, running, pausing, reporting, yielding, returned, Worker, Shelf, Pool, refuse,
  serve, after_task, turn, turn_at, drain, ready,
}

-- The tasks for which a test of keyword and channel holds: in the queue, with the workers, among
-- those that were run and among those that were given up.
module _ (p : Str → SearchChannel → Bool) where
  abbrev pub one : SearchTask → ℕ
  one task = if p task.keyword task.channel then 1 else 0

  abbrev pub queued : List (Option SearchTask) → ℕ
  queued [] = 0
  queued (none ∷ queue) = queued queue
  queued (some task ∷ queue) = one task + queued queue

  abbrev pub held : Phase → ℕ
  held waiting = 0
  held (running task) = one task
  held pausing = 0
  held (reporting task) = one task
  held yielding = 0
  held returned = 0

  abbrev pub in_hands : List Worker → ℕ
  in_hands [] = 0
  in_hands (worker ∷ workers) = held worker.phase + in_hands workers

  abbrev pub were_run : List SearchTask → ℕ
  were_run [] = 0
  were_run (task ∷ tasks) = one task + were_run tasks

  abbrev pub given_up : List (SearchTask × Str) → ℕ
  given_up [] = 0
  given_up ((task, name) ∷ tasks) = one task + given_up tasks

  abbrev pub shelved : Shelf → ℕ
  shelved shelf = queued shelf.queue + were_run shelf.ran + given_up shelf.dropped

  refuse-same :
      (n : ℕ) (name : Str) (task : SearchTask) (shelf : Shelf)
      → held (refuse n name task shelf).0 + shelved (refuse n name task shelf).1
        ≡ one task + shelved shelf
  unfolding refuse
  refuse-same n name task shelf =
      elim (Bool-cases (leb n (length (add_name name task.skipped_by)))) [
        | inl all ↦ rw all
        | inr some_left ↦ rw some_left (omega arith)
      ]

  serve-same :
      (blocked : Bool) (n : ℕ) (name : Str) (queue : List (Option SearchTask)) (shelf : Shelf)
      → shelf.queue ≡ queue
      → held (serve blocked n name queue shelf).0 + shelved (serve blocked n name queue shelf).1
        ≡ shelved shelf
  unfolding serve
  serve-same blocked n name [] shelf e = omega arith
  serve-same blocked n name (none ∷ queue) shelf e = rw e (omega arith)
  serve-same true n name (some task ∷ queue) shelf e =
      rw e (omega (arith, refuse-same n name task (record shelf { queue = queue })))
  serve-same false n name (some task ∷ queue) shelf e = rw e (omega arith)

  after_task-same :
      (queue : List (Option SearchTask)) (shelf : Shelf)
      → held (after_task queue shelf).0 + shelved (after_task queue shelf).1 ≡ shelved shelf
  unfolding after_task
  after_task-same [] shelf = omega arith
  after_task-same (item ∷ queue) shelf = omega arith

  turn-same :
      (blocked : Bool) (n : ℕ) (name : Str) (phase : Phase) (shelf : Shelf)
      → held (turn blocked n name phase shelf).0 + shelved (turn blocked n name phase shelf).1
        ≡ held phase + shelved shelf
  unfolding turn
  turn-same blocked n name waiting shelf =
      omega (arith, serve-same blocked n name shelf.queue shelf refl)
  turn-same blocked n name (running task) shelf =
      omega (arith, after_task-same shelf.queue (record shelf { ran = task ∷ shelf.ran }))
  turn-same blocked n name pausing shelf = omega arith
  turn-same blocked n name (reporting task) shelf = omega arith
  turn-same blocked n name yielding shelf = omega arith
  turn-same blocked n name returned shelf = omega arith

  turn_at-same :
      (blocked : Bool) (n place : ℕ) (workers : List Worker) (shelf : Shelf)
      → in_hands (turn_at blocked n place workers shelf).0
          + shelved (turn_at blocked n place workers shelf).1
        ≡ in_hands workers + shelved shelf
  unfolding turn_at
  turn_at-same blocked n place [] shelf = omega arith
  turn_at-same blocked n zero (worker ∷ workers) shelf =
      omega (arith, turn-same blocked n worker.instance_name worker.phase shelf)
  turn_at-same blocked n (suc place) (worker ∷ workers) shelf =
      omega (arith, turn_at-same blocked n place workers shelf)

  pub drain-same :
      (n : ℕ) (schedule : List (ℕ × Bool)) (pool : Pool)
      → in_hands (drain n schedule pool).workers + shelved (drain n schedule pool).shelf
        ≡ in_hands pool.workers + shelved pool.shelf
  unfolding drain
  drain-same n [] pool = refl
  drain-same n ((place, blocked) ∷ schedule) pool = omega (
    arith,
    drain-same n schedule (record {
      shelf = (turn_at blocked n place pool.workers pool.shelf).1;
      workers = (turn_at blocked n place pool.workers pool.shelf).0;
    }),
    turn_at-same blocked n place pool.workers pool.shelf,
  )

  pub in_hands-ready : (names : List Str) → in_hands (ready names) ≡ 0
  in_hands-ready [] = refl
  in_hands-ready (name ∷ names) = omega (arith, in_hands-ready names)
