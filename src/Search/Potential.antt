-- ===== src/Search/Potential.antt =====
-- run_search_cycle.py: how many turns the workers can take before the queue is drained.
use emule_indexer.Common.{
  ℕ, zero, suc, ◌+◌, ◌-◌, ◌*◌, ◌≤◌, ◌≡◌, refl, inl, inr, Bool, true, false, Option, none, some,
  List, [], ◌∷◌, any, length, leb, Bool-cases, if◌then◌else◌, arith,
}
use emule_indexer.Common.Text.{Str, str_eq}
use emule_indexer.Search.Tasks.{global, kad, SearchTask, add_name, new_task, enqueue}
use emule_indexer.Search.Pool.{
  Phase, waiting, running, pausing, reporting, yielding, returned, Worker, Shelf, Pool, refuse,
  serve, after_task, turn, turn_at, drain, ready, start,
}

-- A worker that is blocked for the top of the queue, and has refused it before, puts it back as
-- it was.
abbrev pub repeats : Bool → Str → Phase → List (Option SearchTask) → ℕ
repeats blocked name waiting [] = 0
repeats blocked name waiting (none ∷ queue) = 0
repeats blocked name waiting (some task ∷ queue) =
    if blocked then (if any (str_eq name) task.skipped_by then 1 else 0) else 0
repeats blocked name (running task) queue = 0
repeats blocked name pausing queue = 0
repeats blocked name (reporting task) queue = 0
repeats blocked name yielding queue = 0
repeats blocked name returned queue = 0

-- A turn does something unless the worker waits at an empty queue or has returned.
abbrev pub acts : Phase → List (Option SearchTask) → ℕ
acts waiting [] = 0
acts waiting (item ∷ queue) = 1
acts (running task) queue = 1
acts pausing queue = 1
acts (reporting task) queue = 1
acts yielding queue = 1
acts returned queue = 0

-- What is left to do: the refusals that a task can still meet, and the turns of its worker.
abbrev pub left_for : ℕ → Option SearchTask → ℕ
left_for n none = 1
left_for n (some task) = 4 * (n - length task.skipped_by) + 4

abbrev pub left_queue : ℕ → List (Option SearchTask) → ℕ
left_queue n [] = 0
left_queue n (item ∷ queue) = left_for n item + left_queue n queue

abbrev pub left_phase : Phase → ℕ
left_phase waiting = 0
left_phase (running task) = 3
left_phase pausing = 1
left_phase (reporting task) = 1
left_phase yielding = 1
left_phase returned = 0

abbrev pub left_workers : List Worker → ℕ
left_workers [] = 0
left_workers (worker ∷ workers) = left_phase worker.phase + left_workers workers

length-add_name_new :
    (name : Str) (names : List Str)
    → any (str_eq name) names ≡ false
    → length (add_name name names) ≡ suc (length names)
unfolding add_name
length-add_name_new name names new = rw new

pub add_name-same :
    (name : Str) (names : List Str) → any (str_eq name) names ≡ true → add_name name names ≡ names
unfolding add_name
add_name-same name names old = rw old

module _ (n : ℕ) where
  refuse-left :
      (name : Str) (task : SearchTask) (shelf : Shelf)
      → 1
          + left_phase (refuse n name task shelf).0
          + left_queue n (refuse n name task shelf).1.queue
        ≤ left_for n (some task)
          + left_queue n shelf.queue
          + 2 * (if any (str_eq name) task.skipped_by then 1 else 0)
  unfolding refuse
  refuse-left name task shelf = elim (Bool-cases (leb n (length (add_name name task.skipped_by)))) [
    | inl all ↦ rw all (omega arith)
    | inr some_left ↦ elim (Bool-cases (any (str_eq name) task.skipped_by)) [
      | inl old ↦
          let e = add_name-same name task.skipped_by old in rw (some_left, old, e) (omega arith)
      | inr new ↦
          let e = length-add_name_new name task.skipped_by new in
          rw (some_left, new) (ground (arith, e))
    ]
  ]

  serve-left :
      (blocked : Bool) (name : Str) (queue : List (Option SearchTask)) (shelf : Shelf)
      → shelf.queue ≡ queue
      → acts waiting queue
          + left_phase (serve blocked n name queue shelf).0
          + left_queue n (serve blocked n name queue shelf).1.queue
        ≤ left_queue n queue + 2 * repeats blocked name waiting queue
  unfolding serve
  serve-left blocked name [] shelf e = rw e (omega arith)
  serve-left blocked name (none ∷ queue) shelf e = omega arith
  serve-left true name (some task ∷ queue) shelf e =
      omega (arith, refuse-left name task (record shelf { queue = queue }))
  serve-left false name (some task ∷ queue) shelf e = omega arith

  after_task-left :
      (queue : List (Option SearchTask)) (shelf : Shelf)
      → shelf.queue ≡ queue
      → left_phase (after_task queue shelf).0 + left_queue n (after_task queue shelf).1.queue
        ≤ 2 + left_queue n queue
  unfolding after_task
  after_task-left [] shelf e = rw e (omega arith)
  after_task-left (item ∷ queue) shelf e = rw e (omega arith)

  turn-left :
      (blocked : Bool) (name : Str) (phase : Phase) (shelf : Shelf)
      → acts phase shelf.queue
          + left_phase (turn blocked n name phase shelf).0
          + left_queue n (turn blocked n name phase shelf).1.queue
        ≤ left_phase phase + left_queue n shelf.queue + 2 * repeats blocked name phase shelf.queue
  unfolding turn
  turn-left blocked name waiting shelf =
      omega (arith, serve-left blocked name shelf.queue shelf refl)
  turn-left blocked name (running task) shelf =
      omega (arith, after_task-left shelf.queue (record shelf { ran = task ∷ shelf.ran }) refl)
  turn-left blocked name pausing shelf = omega arith
  turn-left blocked name (reporting task) shelf = omega arith
  turn-left blocked name yielding shelf = omega arith
  turn-left blocked name returned shelf = omega arith

  -- The same of the worker at a place.
  abbrev pub repeats_at : Bool → ℕ → List Worker → List (Option SearchTask) → ℕ
  repeats_at blocked place [] queue = 0
  repeats_at blocked zero (worker ∷ workers) queue =
      repeats blocked worker.instance_name worker.phase queue
  repeats_at blocked (suc place) (worker ∷ workers) queue = repeats_at blocked place workers queue

  abbrev pub acts_at : ℕ → List Worker → List (Option SearchTask) → ℕ
  acts_at place [] queue = 0
  acts_at zero (worker ∷ workers) queue = acts worker.phase queue
  acts_at (suc place) (worker ∷ workers) queue = acts_at place workers queue

  pub turn_at-left :
      (blocked : Bool) (place : ℕ) (workers : List Worker) (shelf : Shelf)
      → acts_at place workers shelf.queue
          + left_workers (turn_at blocked n place workers shelf).0
          + left_queue n (turn_at blocked n place workers shelf).1.queue
        ≤ left_workers workers
          + left_queue n shelf.queue
          + 2 * repeats_at blocked place workers shelf.queue
  unfolding turn_at
  turn_at-left blocked place [] shelf = omega arith
  turn_at-left blocked zero (worker ∷ workers) shelf =
      omega (arith, turn-left blocked worker.instance_name worker.phase shelf)
  turn_at-left blocked (suc place) (worker ∷ workers) shelf =
      omega (arith, turn_at-left blocked place workers shelf)

  -- How many turns of a schedule do something, and how many of them repeat a refusal.
  abbrev pub turns : List (ℕ × Bool) → Pool → ℕ
  turns [] pool = 0
  turns ((place, blocked) ∷ schedule) pool =
      acts_at place pool.workers pool.shelf.queue
      + turns schedule (drain n ((place, blocked) ∷ []) pool)

  abbrev pub refusals_again : List (ℕ × Bool) → Pool → ℕ
  refusals_again [] pool = 0
  refusals_again ((place, blocked) ∷ schedule) pool =
      repeats_at blocked place pool.workers pool.shelf.queue
      + refusals_again schedule (drain n ((place, blocked) ∷ []) pool)

  abbrev pub left : Pool → ℕ
  left pool = left_workers pool.workers + left_queue n pool.shelf.queue

  pub turns-left :
      (schedule : List (ℕ × Bool)) (pool : Pool)
      → turns schedule pool + left (drain n schedule pool)
        ≤ left pool + 2 * refusals_again schedule pool
  unfolding drain
  turns-left [] pool = omega arith
  turns-left ((place, blocked) ∷ schedule) pool = omega (
    arith,
    turn_at-left blocked place pool.workers pool.shelf,
    turns-left schedule (drain n ((place, blocked) ∷ []) pool),
  )

  enqueue-left :
      (texts : List Str) (queue : List (Option SearchTask))
      → left_queue n (enqueue texts queue) ≡ length texts * (8 * n + 8) + left_queue n queue
  unfolding enqueue
  enqueue-left [] queue = omega arith
  enqueue-left (text ∷ texts) queue =
      grind
        (arith, enqueue-left texts (some (new_task text kad) ∷ some (new_task text global) ∷ queue))

ready-left : (names : List Str) → left_workers (ready names) ≡ 0
ready-left [] = refl
ready-left (name ∷ names) = omega (arith, ready-left names)

-- The workers do not go on for ever: over any schedule the turns in which something is done are at
-- most 8 (n + 1) for each keyword, with n workers, and two for each time that a worker meets a task
-- again that it has refused.
pub turns_bound :
    (names texts : List Str) (schedule : List (ℕ × Bool))
    → turns (length names) schedule (start names (enqueue texts []))
      ≤ length texts * (8 * length names + 8)
        + 2 * refusals_again (length names) schedule (start names (enqueue texts []))
unfolding start
turns_bound names texts schedule = omega (
  arith,
  turns-left (length names) schedule (start names (enqueue texts [])),
  enqueue-left (length names) texts [],
  ready-left names,
)
