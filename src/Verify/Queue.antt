-- ===== src/Verify/Queue.antt =====
-- local_state_repository.py: the table `verification_tasks`. Times are numbers, in the order of
-- their texts.
pub mod Active
pub mod Operations
pub mod Fifo
pub mod Living
pub mod Leases
use emule_indexer.Common.{
  ℕ, ◌+◌, Bool, true, false, ◌&&◌, ◌||◌, Option, none, some, List, [], ◌∷◌, ◌++◌, any, map, ltb,
  leb, ◌==◌, if◌then◌else◌,
}
use emule_indexer.Common.Text.{Str, str_eq}

pub data Status : Type 0 where
  pending in_progress done dead_letter : Status

pub record Task : Type 0 where
  pub id : ℕ
  pub ed2k_hash : Str
  pub status : Status
  pub enqueued_at : ℕ
  -- read of a task in progress only
  pub lease_until : ℕ
  pub attempts : ℕ

pub record Table : Type 0 where
  pub tasks : List Task
  pub next_id : ℕ

abbrev pub is_pending : Status → Bool
is_pending pending = true
is_pending in_progress = false
is_pending done = false
is_pending dead_letter = false

abbrev pub is_in_progress : Status → Bool
is_in_progress pending = false
is_in_progress in_progress = true
is_in_progress done = false
is_in_progress dead_letter = false

-- the statuses of the partial index
abbrev pub is_active : Status → Bool
is_active s = is_pending s || is_in_progress s

abbrev pub is_active_for : Str → Task → Bool
is_active_for hash task = is_active task.status && str_eq task.ed2k_hash hash

-- `enqueue_verification`: whether a task was created.
unfoldable pub enqueue : Str → ℕ → Table → Bool × Table
enqueue hash now table = if any (is_active_for hash) table.tasks then (false, table) else (
  true,
  record {
    tasks =
        table.tasks
        ++ record {
          id = table.next_id;
          ed2k_hash = hash;
          status = pending;
          enqueued_at = now;
          lease_until = 0;
          attempts = 0;
        }
          ∷ [];
    next_id = table.next_id + 1;
  },
)

-- `ORDER BY enqueued_at, id`
abbrev pub before : Task → Task → Bool
before a b = ltb a.enqueued_at b.enqueued_at || ((a.enqueued_at == b.enqueued_at) && ltb a.id b.id)

abbrev pub earlier : Task → Option Task → Task
earlier a none = a
earlier a (some b) = if before b a then b else a

-- The pending task that is first in this order.
unfoldable pub first_pending : List Task → Option Task
first_pending [] = none
first_pending (task ∷ tasks) =
    let rest = first_pending tasks in
    if is_pending task.status then some (earlier task rest) else rest

-- An update of the rows under an id.
abbrev pub update_one : ℕ → (Task → Task) → Task → Task
update_one id change task = if task.id == id then change task else task

unfoldable pub update : ℕ → (Task → Task) → List Task → List Task
update id change tasks = map (update_one id change) tasks

abbrev pub taken : ℕ → Task → Task
taken lease task = record task {
  status = in_progress;
  lease_until = lease;
  attempts = task.attempts + 1;
}

-- The subquery gives the id of a pending row, and an id is the key of one row.
abbrev pub if_pending : (Task → Task) → Task → Task
if_pending change task = if is_pending task.status then change task else task

abbrev pub claim_task : ℕ → Table → Option Task → Option Task × Table
claim_task lease table none = (none, table)
claim_task lease table (some task) = (
  some (taken lease task),
  record table { tasks = update task.id (if_pending (taken lease)) table.tasks },
)

-- `claim_verification`, with the task as it is after the update.
unfoldable pub claim : ℕ → ℕ → Table → Option Task × Table
unfolding first_pending update
claim now lease_duration table = claim_task (now + lease_duration) table (first_pending table.tasks)

abbrev pub is_held : ℕ → Task → Bool
is_held id task = (task.id == id) && is_in_progress task.status

abbrev pub if_held : (Task → Task) → Task → Task
if_held change task = if is_in_progress task.status then change task else task

-- `WHERE id = ? AND status = 'in_progress'`
abbrev pub update_held : ℕ → (Task → Task) → Table → Option Table
update_held id change table =
    if any (is_held id) table.tasks
    then some (record table { tasks = update id (if_held change) table.tasks })
    else none

-- `complete_verification`; `none` is a PersistenceError.
unfoldable pub complete : ℕ → Table → Option Table
unfolding update
complete id table = update_held id (λ task. record task { status = done }) table

abbrev pub failed : ℕ → Task → Task
failed max_attempts task = record task {
  status = if leb max_attempts task.attempts then dead_letter else pending;
}

-- `fail_verification`
unfoldable pub fail : ℕ → ℕ → Table → Option Table
unfolding update
fail max_attempts id table = update_held id (failed max_attempts) table

abbrev pub is_expired : ℕ → Task → Bool
is_expired now task = is_in_progress task.status && ltb task.lease_until now

abbrev pub reclaimed : ℕ → Task → Task
reclaimed now task = if is_expired now task then record task { status = pending } else task

-- `reclaim_expired`; the count that it returns is not used.
unfoldable pub reclaim_expired : ℕ → Table → Table
reclaim_expired now table = record table { tasks = map (reclaimed now) table.tasks }

unfoldable pub count_pending : List Task → ℕ
count_pending [] = 0
count_pending (task ∷ tasks) =
    let rest = count_pending tasks in if is_pending task.status then rest + 1 else rest

-- What may happen to the table, in any order.
pub data Operation : Type 0 where
  enqueues : Str → ℕ → Operation
  claims : ℕ → ℕ → Operation
  completes : ℕ → Operation
  fails : ℕ → ℕ → Operation
  reclaims : ℕ → Operation

-- An operation that raises changes nothing.
abbrev pub or_same : Table → Option Table → Table
or_same table none = table
or_same table (some table') = table'

unfoldable pub operate : Operation → Table → Table
unfolding enqueue claim complete fail reclaim_expired
operate (enqueues hash now) table = (enqueue hash now table).1
operate (claims now lease_duration) table = (claim now lease_duration table).1
operate (completes id) table = or_same table (complete id table)
operate (fails max_attempts id) table = or_same table (fail max_attempts id table)
operate (reclaims now) table = reclaim_expired now table

unfoldable pub operate_all : List Operation → Table → Table
unfolding operate
operate_all [] table = table
operate_all (op ∷ ops) table = operate_all ops (operate op table)

abbrev pub new_table : Table
new_table = record { tasks = []; next_id = 1 }
