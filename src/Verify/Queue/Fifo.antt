-- ===== src/Verify/Queue/Fifo.antt =====
-- local_state_repository.py: which task is claimed.
use emule_indexer.Common.{
  ℕ, ◌+◌, ◌<◌, ◌≤◌, ◌≡◌, ◌≢◌, ◌↔◌, ◌⊎◌, ==_refl, refl, inl, inr, Bool, true, false, Option, none,
  some, List, [], ◌∷◌, In, All, All-map, Bool-cases, if◌then◌else◌, arith,
}
use mathlib.Core.Path.{subst}
use emule_indexer.Verify.Queue.{
  Status, pending, in_progress, done, dead_letter, update, update_one, if_pending, Task, Table,
  is_pending, before, earlier, first_pending, taken, claim_task, claim,
}

before_asym : (a b : Task) → before a b ≡ true → before b a ≡ false
before_asym a b h = ground arith

before_trans : (a b c : Task) → before a b ≡ false → before b c ≡ false → before a c ≡ false
before_trans a b c h k = ground arith

-- `task` is pending, and no pending task stands before it.
abbrev pub IsFirst : Task → List Task → Type 0
IsFirst task tasks =
    (is_pending task.status ≡ true)
    × In task tasks
    × All (λ other. is_pending other.status ≡ true → before other task ≡ false) tasks

abbrev Found : Option Task → List Task → Type 0
Found none tasks = All (λ other. is_pending other.status ≡ false) tasks
Found (some task) tasks = IsFirst task tasks

sooner-IsFirst :
    (task other : Task) (tasks : List Task) (sooner : Bool)
    → before other task ≡ sooner
    → is_pending task.status ≡ true
    → IsFirst other tasks
    → IsFirst (if sooner then other else task) (task ∷ tasks)
sooner-IsFirst task other tasks true e waits (w, m, first) =
    (w, inr m, (λ w'. before_asym other task e, first))
sooner-IsFirst task other tasks false e waits (w, m, first) = (
  waits,
  inl refl,
  (λ w'. ground arith, All-map (λ x f w'. before_trans x other task (f w') e) tasks first),
)

pick-Found :
    (task : Task) (tasks : List Task) (rest : Option Task)
    → Found rest tasks
    → Found (if is_pending task.status then some (earlier task rest) else rest) (task ∷ tasks)
pick-Found task tasks none h = elim (Bool-cases (is_pending task.status)) [
  | inr idle ↦ rw idle (idle, h)
  | inl waits ↦
      rw waits
        (waits, inl refl, (λ w. ground arith, All-map (λ other idle w. cc (idle, w)) tasks h))
]
pick-Found task tasks (some other) (w, m, first) = elim (Bool-cases (is_pending task.status)) [
  | inr idle ↦ rw idle (w, inr m, (λ w'. cc (idle, w'), first))
  | inl waits ↦ rw waits (sooner-IsFirst task other tasks _ refl waits (w, m, first))
]

first_pending-Found : (tasks : List Task) → Found (first_pending tasks) tasks
unfolding first_pending
first_pending-Found [] = tt
first_pending-Found (task ∷ tasks) =
    pick-Found task tasks (first_pending tasks) (first_pending-Found tasks)

-- `a` was put into the queue no later than `b`: at an earlier time, or at the same time with an id
-- that is not larger.
abbrev pub NoLater : Task → Task → Type 0
NoLater a b = (a.enqueued_at < b.enqueued_at) ⊎ ((a.enqueued_at ≡ b.enqueued_at) × (a.id ≤ b.id))

before-NoLater : (a b : Task) → before b a ≡ false → NoLater a b
before-NoLater a b h = ground arith

-- The task that a claim takes, and what it becomes: it is held until the end of the lease, after one
-- attempt more, and is otherwise what it was.
pub record Taken (lease : ℕ) (tasks : List Task) (task : Task) : Type 0 where
  pub first : Task
  pub member : In first tasks
  pub was_pending : first.status ≡ pending
  pub is_first : All (λ (other : Task). other.status ≡ pending → NoLater first other) tasks
  pub id : task.id ≡ first.id
  pub ed2k_hash : task.ed2k_hash ≡ first.ed2k_hash
  pub enqueued_at : task.enqueued_at ≡ first.enqueued_at
  pub is_held : task.status ≡ in_progress
  pub lease_until : task.lease_until ≡ lease
  pub attempts : task.attempts ≡ first.attempts + 1

abbrev pub Claimed : ℕ → List Task → List Task → Option Task → Type 0
Claimed lease tasks tasks' none =
    All (λ (task : Task). task.status ≢ pending) tasks × (tasks' ≡ tasks)
Claimed lease tasks tasks' (some task) = Taken lease tasks task × In task tasks'

is_pending_iff : (s : Status) → (is_pending s ≡ true) ↔ (s ≡ pending)
is_pending_iff pending = (λ h. refl, λ h. refl)
is_pending_iff in_progress = (λ h. cc, λ h. cc)
is_pending_iff done = (λ h. cc, λ h. cc)
is_pending_iff dead_letter = (λ h. cc, λ h. cc)

IsFirst-Taken :
    (lease : ℕ) (tasks : List Task) (first : Task)
    → IsFirst first tasks
    → Taken lease tasks (taken lease first)
IsFirst-Taken lease tasks first (waits, m, least) = record {
  first = first;
  member = m;
  was_pending = (is_pending_iff first.status).0 waits;
  is_first =
      All-map (λ other h e. before-NoLater first other (h ((is_pending_iff other.status).1 e)))
        tasks least;
  id = refl;
  ed2k_hash = refl;
  enqueued_at = refl;
  is_held = refl;
  lease_until = refl;
  attempts = refl;
}

-- The row that is updated stands in the table as it is answered.
update-In :
    (lease : ℕ) (first : Task) (tasks : List Task)
    → is_pending first.status ≡ true
    → In first tasks
    → In (taken lease first) (update first.id (if_pending (taken lease)) tasks)
unfolding update
update-In lease first [] waits m = absurd m
update-In lease first (task ∷ tasks) waits (inl e) = inl (
    subst (λ x. taken lease first ≡ update_one first.id (if_pending (taken lease)) x) e
      (rw (==_refl first.id, waits) refl))
update-In lease first (task ∷ tasks) waits (inr m) = inr (update-In lease first tasks waits m)

claim_task-Claimed :
    (lease : ℕ) (table : Table) (first : Option Task)
    → Found first table.tasks
    → Claimed lease table.tasks
        (claim_task lease table first).1.tasks
        (claim_task lease table first).0
claim_task-Claimed lease table none h =
    (All-map (λ task idle e. cc (idle, (is_pending_iff task.status).1 e)) table.tasks h, refl)
claim_task-Claimed lease table (some task) h =
    (IsFirst-Taken lease table.tasks task h, update-In lease task table.tasks h.0 h.1)

-- A claim answers nothing exactly if no task is pending, and then changes no row; otherwise it
-- answers a task that was pending and than which no pending task was put into the queue earlier: by
-- the time, and at one time by the id. The task is in progress until the end of the lease, with one
-- attempt more, and stands so in the table.
pub claim-Claimed :
    (now lease_duration : ℕ) (table : Table)
    → Claimed
        (now + lease_duration)
        table.tasks
        (claim now lease_duration table).1.tasks
        (claim now lease_duration table).0
unfolding claim
claim-Claimed now lease_duration table =
    claim_task-Claimed (now + lease_duration) table (first_pending table.tasks)
      (first_pending-Found table.tasks)
