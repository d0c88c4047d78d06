-- ===== src/Verify/Cycle/Tests.antt =====
-- A queue with one task, a verifier that answers, and a catalogue that fails once.
use emule_indexer.Common.{
  ℕ, ◌+◌, ◌<◌, ◌≡◌, refl, true, inl, In, some, List, [], ◌∷◌, ok, ◌==◌, length, arith,
}
use emule_indexer.Common.Text.{Str, codes, str_eq}
use emule_indexer.Verify.Queue.{
  Task, pending, is_active, fails, fail, Table, Operation, enqueues, claims, completes, reclaims,
  operate_all, new_table, claim, enqueue, reclaim_expired, complete,
}
use emule_indexer.Verify.Queue.Active.{IsTable}
use emule_indexer.Verify.Queue.Operations.{operate_all-IsTable}
use emule_indexer.Verify.Queue.Fifo.{Claimed, claim-Claimed}
use emule_indexer.Verify.Queue.Living.{claims_of}
use emule_indexer.Verify.Queue.Leases.{lost_claims-pending}
use emule_indexer.Verify.Cycle.{State, World, VerificationResult, run_verification_cycle}
use emule_indexer.Verify.Cycle.Truthful.{IsTruthful}
use emule_indexer.Verify.Cycle.Safety.{Ended, run_verification_cycle-Ended}

-- A task that waits.
abbrev waiting_task : ℕ → Str → ℕ → ℕ → ℕ → Task
waiting_task id hash enqueued lease attempts = record {
  id = id;
  ed2k_hash = hash;
  status = pending;
  enqueued_at = enqueued;
  lease_until = lease;
  attempts = attempts;
}

-- Two files, of which the first is claimed, lost and claimed again.
abbrev operations : List Operation
operations =
    enqueues (codes "a") 5
    ∷ enqueues (codes "b") 6
    ∷ enqueues (codes "a") 7
    ∷ claims 10 15
    ∷ reclaims 26
    ∷ claims 30 15
    ∷ completes 1
    ∷ []

two_files : length (operate_all operations new_table).tasks ≡ 2
unfolding operate_all enqueue str_eq
two_files = refl

operate_all-IsTable_example : IsTable (operate_all operations new_table)
operate_all-IsTable_example = operate_all-IsTable operations

abbrev later : Table
later = record {
  tasks = waiting_task 2 (codes "b") 6 0 0 ∷ waiting_task 1 (codes "a") 5 0 0 ∷ [];
  next_id = 3;
}

claim-Claimed_example :
    Claimed (10 + 15) later.tasks (claim 10 15 later).1.tasks (claim 10 15 later).0
claim-Claimed_example = claim-Claimed 10 15 later

-- Two files wait.
abbrev two_tasks : List Operation
two_tasks = enqueues (codes "a") 5 ∷ enqueues (codes "b") 6 ∷ []

-- The first of them is claimed, and lost, three times; the bound of the last failure is one attempt.
abbrev lost : List Operation
lost =
    claims 10 15
    ∷ reclaims 26
    ∷ claims 30 15
    ∷ reclaims 46
    ∷ claims 50 15
    ∷ claims 51 15
    ∷ fails 1 2
    ∷ []

first_waits : In (waiting_task 1 (codes "a") 5 0 0) (operate_all two_tasks new_table).tasks
unfolding operate_all enqueue str_eq
first_waits = inl refl

two_ne_one : ¬ (◌≡◌ {A = ℕ} 2 1)
two_ne_one e = omega arith

three_attempts : claims_of 1 lost (operate_all two_tasks new_table) ≡ 3
unfolding claims_of operate_all enqueue str_eq claim reclaim_expired fail
three_attempts = refl

lost_claims-pending_example :
    (task : Task) × In task (operate_all lost (operate_all two_tasks new_table)).tasks
    × (task.id ≡ 1)
    × (is_active task.status ≡ true)
    × (task.attempts ≡ 0 + claims_of 1 lost (operate_all two_tasks new_table))
    × ((now : ℕ)
        → task.lease_until < now
        → (waiting : Task) × In waiting
            (reclaim_expired now (operate_all lost (operate_all two_tasks new_table))).tasks
          × (waiting.id ≡ 1)
          × (waiting.status ≡ pending)
          × (waiting.attempts ≡ task.attempts))
lost_claims-pending_example =
    lost_claims-pending lost (operate_all two_tasks new_table) (waiting_task 1 (codes "a") 5 0 0)
      (operate_all-IsTable two_tasks) first_waits refl
      (tt, (tt, (tt, (tt, (tt, (tt, (two_ne_one, tt)))))))

abbrev world : World ℕ ℕ
world = record {
  repository_fails = λ n. n == 9;
  now = λ n. 100 + n;
  lease_duration = 15;
  max_attempts = 3;
  target_of = λ hash. some (codes "t");
  verify = λ n hash expected. some (record { verdict = codes "clean"; details = 0 });
}

abbrev waiting : State ℕ ℕ
waiting = record {
  table = record { tasks = waiting_task 1 (codes "a") 5 0 0 ∷ []; next_id = 2 };
  verdicts = [];
  edge = [];
  events = [];
  sleeps = 0;
  calls = 0;
}

waiting-IsTruthful : IsTruthful {V = VerificationResult ℕ} waiting.table waiting.verdicts
waiting-IsTruthful = (
  record { numbered = (omega arith, tt); distinct = ((λ m. m), tt); single = λ hash. ground arith },
  (λ d. cc, tt),
)

recorded_once : length (run_verification_cycle ℕ ℕ world waiting).1.verdicts ≡ 1
unfolding run_verification_cycle claim reclaim_expired complete
recorded_once = refl

run_verification_cycle-Ended_example :
    ((run_verification_cycle ℕ ℕ world waiting).0 ≡ ok tt)
    × Ended ℕ ℕ world 0 0 (run_verification_cycle ℕ ℕ world waiting).1
run_verification_cycle-Ended_example =
    run_verification_cycle-Ended ℕ ℕ world waiting waiting-IsTruthful
