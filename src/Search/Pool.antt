-- ===== src/Search/Pool.antt =====
-- run_search_cycle.py: `_worker_loop` of all workers over their queue. A turn of a worker is the
-- code from one `await` to the next; who has the next turn is not determined.
use emule_indexer.Common.{
  ℕ, zero, suc, ◌+◌, ◌-◌, Bool, Option, none, some, List, [], ◌∷◌, length, leb, if◌then◌else◌,
}
use emule_indexer.Common.Text.{Str}
use emule_indexer.Search.Tasks.{SearchTask, add_name}

-- The `await` at which a worker stands.
pub data Phase : Type 0 where
  -- `queue.get()`
  waiting : Phase
  -- `worker.run_task(task)`
  running : SearchTask → Phase
  -- `worker.pause_between_items()`
  pausing : Phase
  -- `worker.report_dropped(task)`
  reporting : SearchTask → Phase
  -- `asyncio.sleep(0)`
  yielding : Phase
  returned : Phase

pub record Worker : Type 0 where
  pub instance_name : Str
  pub phase : Phase

pub record Shelf : Type 0 where
  -- the LIFO queue, its top first; `none` is the sentinel
  pub queue : List (Option SearchTask)
  -- what `task_done` counts down and `join` waits for
  pub unfinished : ℕ
  -- the tasks that were run, and those that were given up, with the worker that gave them up
  pub ran : List SearchTask
  pub dropped : List (SearchTask × Str)

pub record Pool : Type 0 where
  pub shelf : Shelf
  pub workers : List Worker

abbrev pub task_done : Shelf → Shelf
task_done shelf = record shelf { unfinished = shelf.unfinished - 1 }

-- A task for which the worker is blocked: given up if every worker has refused it, and put back
-- otherwise.
unfoldable pub refuse : ℕ → Str → SearchTask → Shelf → Phase × Shelf
refuse n_workers name task shelf =
    let new_skipped = add_name name task.skipped_by in
    if leb n_workers (length new_skipped) then (reporting task, shelf) else (
      yielding,
      record shelf {
        queue = some (record task { skipped_by = new_skipped }) ∷ shelf.queue;
        unfinished = shelf.unfinished + 1;
      },
    )

-- `queue.get()` and what follows. An empty queue leaves the worker where it is.
unfoldable pub serve : Bool → ℕ → Str → List (Option SearchTask) → Shelf → Phase × Shelf
unfolding refuse
serve blocked n_workers name [] shelf = (waiting, shelf)
serve blocked n_workers name (none ∷ queue) shelf =
    (returned, task_done (record shelf { queue = queue }))
serve blocked n_workers name (some task ∷ queue) shelf =
    if blocked
    then refuse n_workers name task (record shelf { queue = queue })
    else (running task, record shelf { queue = queue })

-- After `run_task`: `if not queue.empty(): await pause`, and `task_done`.
unfoldable pub after_task : List (Option SearchTask) → Shelf → Phase × Shelf
after_task [] shelf = (waiting, task_done shelf)
after_task (item ∷ queue) shelf = (pausing, shelf)

-- One turn; `blocked` is what `is_blocked_for` answers in it.
unfoldable pub turn : Bool → ℕ → Str → Phase → Shelf → Phase × Shelf
unfolding serve after_task
turn blocked n_workers name waiting shelf = serve blocked n_workers name shelf.queue shelf
turn blocked n_workers name (running task) shelf =
    after_task shelf.queue (record shelf { ran = task ∷ shelf.ran })
turn blocked n_workers name pausing shelf = (waiting, task_done shelf)
turn blocked n_workers name (reporting task) shelf =
    (waiting, task_done (record shelf { dropped = (task, name) ∷ shelf.dropped }))
turn blocked n_workers name yielding shelf = (waiting, task_done shelf)
turn blocked n_workers name returned shelf = (returned, shelf)

-- The turn of the worker at a place.
unfoldable pub turn_at : Bool → ℕ → ℕ → List Worker → Shelf → List Worker × Shelf
unfolding turn
turn_at blocked n_workers place [] shelf = ([], shelf)
turn_at blocked n_workers zero (worker ∷ workers) shelf =
    let (phase, shelf') = turn blocked n_workers worker.instance_name worker.phase shelf in
    (record worker { phase = phase } ∷ workers, shelf')
turn_at blocked n_workers (suc place) (worker ∷ workers) shelf =
    let (workers', shelf') = turn_at blocked n_workers place workers shelf in
    (worker ∷ workers', shelf')

abbrev pub take_turn : ℕ → ℕ × Bool → Pool → Pool
take_turn n_workers (place, blocked) pool =
    let (workers, shelf) = turn_at blocked n_workers place pool.workers pool.shelf in
    record { shelf = shelf; workers = workers }

-- The turns in the order in which the event loop gives them.
unfoldable pub drain : ℕ → List (ℕ × Bool) → Pool → Pool
unfolding turn_at
drain n_workers [] pool = pool
drain n_workers (choice ∷ schedule) pool =
    drain n_workers schedule (take_turn n_workers choice pool)

abbrev pub ready : List Str → List Worker
ready [] = []
ready (name ∷ names) = record { instance_name = name; phase = waiting } ∷ ready names

-- The pool when the workers start.
unfoldable pub start : List Str → List (Option SearchTask) → Pool
start names queue = record {
  shelf = record { queue = queue; unfinished = length queue; ran = []; dropped = [] };
  workers = ready names;
}
