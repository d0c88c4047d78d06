-- ===== src/Verify/Queue/Leases.antt =====
-- local_state_repository.py: what happens to a task whose leases run out.
use emule_indexer.Common.{ℕ, ◌+◌, ◌<◌, ◌≡◌, refl, ◌∙◌, true, List, In, All, lt→ltb, arith}
use emule_indexer.Common.Members.{In-map}
use emule_indexer.Verify.Queue.{
  Status, pending, in_progress, done, dead_letter, Task, Table, is_active, Operation, operate_all,
  reclaimed, reclaim_expired,
}
use emule_indexer.Verify.Queue.Active.{IsTable}
use emule_indexer.Verify.Queue.Living.{Spares, claims_of, reclaimed-active, operate_all-Lives}

waits :
    (now : ℕ) (task : Task) (status : Status)
    → task.status ≡ status
    → is_active status ≡ true
    → task.lease_until < now
    → (reclaimed now task).status ≡ pending
waits now task pending e active late = rw e refl
waits now task in_progress e active late = rw (e, lt→ltb task.lease_until now late) refl
waits now task done e active late = cc active
waits now task dead_letter e active late = cc active

-- A task that waits, or whose lease is over, waits after the recovery.
recovered :
    (now : ℕ) (task : Task)
    → is_active task.status ≡ true
    → task.lease_until < now
    → (reclaimed now task).status ≡ pending
recovered now task active late = waits now task task.status refl active late

-- A task that is active in a table is never given up by claims whose leases run out: after any
-- operations that neither complete nor fail it, it is still in the table and active, and its
-- attempts have grown by one for each claim that was answered with it, whatever the bound on
-- attempts is; and when its lease is over it waits again after the next recovery.
pub lost_claims-pending :
    (ops : List Operation) (table : Table) (task : Task)
    → IsTable table
    → In task table.tasks
    → is_active task.status ≡ true
    → All (Spares task.id) ops
    → (task' : Task) × In task' (operate_all ops table).tasks
      × (task'.id ≡ task.id)
      × (is_active task'.status ≡ true)
      × (task'.attempts ≡ task.attempts + claims_of task.id ops table)
      × ((now : ℕ)
          → task'.lease_until < now
          → (waiting : Task) × In waiting (reclaim_expired now (operate_all ops table)).tasks
            × (waiting.id ≡ task.id)
            × (waiting.status ≡ pending)
            × (waiting.attempts ≡ task'.attempts))
unfolding reclaim_expired
lost_claims-pending ops table task t m active spared =
    let (task', m', e, active', n) =
      operate_all-Lives ops task.id task.attempts table spared t (task, m, refl, active, refl) in
    (
      task',
      m',
      e,
      active',
      n,
      λ now late.
          let (i, still, k) = reclaimed-active now task' active' in
          (
            reclaimed now task',
            In-map (reclaimed now) task' (operate_all ops table).tasks m',
            i ∙ e,
            recovered now task' active' late,
            omega (arith, k),
          ),
    )
