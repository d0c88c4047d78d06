-- ===== src/Verify/Cycle/Truthful.antt =====
-- run_verification_cycle.py: a task is only done when a verdict on its file was recorded.
use emule_indexer.Common.{
  ℕ, ◌+◌, ◌≡◌, sym, ap, leb, ◌∙◌, inl, inr, Bool, true, false, Option, none, some, List, [], ◌∷◌,
  In, All, All-map, map, Bool-cases, if◌then◌else◌, ◌==◌, ==_iff,
}
use mathlib.Core.Path.{subst}
use emule_indexer.Common.Members.{Nodup}
use emule_indexer.Common.Text.{Str}
use emule_indexer.Verify.Queue.{
  Status, pending, in_progress, done, dead_letter, Task, Table, is_in_progress, claim,
  reclaim_expired, update, update_one, if_held, failed, reclaimed, claim_task, taken, if_pending,
  is_pending, first_pending,
}
use emule_indexer.Verify.Queue.Active.{IsTable, ids, claim-IsTable, claim_task-IsTable}
use emule_indexer.Verify.Queue.Fifo.{Claimed, claim-Claimed}

abbrev is_done : Status → Bool
is_done pending = false
is_done in_progress = false
is_done done = true
is_done dead_letter = false

abbrev pub hashes : {V : Type 0} → List (Str × V) → List Str
hashes [] = []
hashes ((hash, v) ∷ rows) = hash ∷ hashes rows

-- Every task that is done is about a file that the list names.
abbrev pub Backed : List Str → List Task → Type 0
Backed recorded tasks = All (λ task. is_done task.status ≡ true → In task.ed2k_hash recorded) tasks

-- A change that makes a task done only for a file that is named.
abbrev pub Honest : List Str → (Task → Task) → Type 0
Honest recorded change =
    (task : Task)
    → (is_done task.status ≡ true → In task.ed2k_hash recorded)
    → is_done (change task).status ≡ true
    → In (change task).ed2k_hash recorded

pub map-Backed :
    (recorded : List Str) (change : Task → Task) (tasks : List Task)
    → Honest recorded change
    → Backed recorded tasks
    → Backed recorded (map change tasks)
map-Backed recorded change [] h b = tt
map-Backed recorded change (task ∷ tasks) h (first, b) =
    (h task first, map-Backed recorded change tasks h b)

pub more-Backed :
    (hash : Str) (recorded : List Str) (tasks : List Task)
    → Backed recorded tasks
    → Backed (hash ∷ recorded) tasks
more-Backed hash recorded tasks b = All-map (λ task f d. inr (f d)) tasks b

if-Honest :
    (recorded : List Str) (test : Bool) (changed task : Task)
    → ((is_done task.status ≡ true → In task.ed2k_hash recorded)
        → is_done changed.status ≡ true
        → In changed.ed2k_hash recorded)
    → (is_done task.status ≡ true → In task.ed2k_hash recorded)
    → is_done (if test then changed else task).status ≡ true
    → In (if test then changed else task).ed2k_hash recorded
if-Honest recorded true changed task h old d = h old d
if-Honest recorded false changed task h old d = old d

pub reclaim-Backed :
    (recorded : List Str) (now : ℕ) (table : Table)
    → Backed recorded table.tasks
    → Backed recorded (reclaim_expired now table).tasks
unfolding reclaim_expired
reclaim-Backed recorded now table =
    map-Backed recorded (reclaimed now) table.tasks
      (λ task. if-Honest recorded _ (record task { status = pending }) task (λ old d. cc))

-- The tasks under the id of a task are about its file.
abbrev pub Owned : Task → List Task → Type 0
Owned task tasks = All (λ row. row.id ≡ task.id → row.ed2k_hash ≡ task.ed2k_hash) tasks

id-In : (task : Task) (tasks : List Task) → In task tasks → In task.id (ids tasks)
id-In task [] m = m
id-In task (x ∷ xs) (inl e) = inl (ap (λ (t : Task). t.id) e)
id-In task (x ∷ xs) (inr m) = inr (id-In task xs m)

absent-Owned : (task : Task) (tasks : List Task) → ¬ In task.id (ids tasks) → Owned task tasks
absent-Owned task [] h = tt
absent-Owned task (x ∷ xs) h =
    (λ e. absurd (h (inl (sym e))), absent-Owned task xs (λ m. h (inr m)))

In-Owned : (task : Task) (tasks : List Task) → Nodup (ids tasks) → In task tasks → Owned task tasks
In-Owned task [] d m = tt
In-Owned task (x ∷ xs) (new, d) (inl e) = (
  λ same. ap (λ (t : Task). t.ed2k_hash) (sym e),
  absent-Owned task xs (subst (λ (t : Task). ¬ In t.id (ids xs)) (sym e) new),
)
In-Owned task (x ∷ xs) (new, d) (inr m) = (
  λ same. absurd (new (subst (λ i. In i (ids xs)) (sym same) (id-In task xs m))),
  In-Owned task xs d m,
)

update-Owned :
    (task : Task) (id : ℕ) (change : Task → Task) (tasks : List Task)
    → ((t : Task) → ((change t).id ≡ t.id) × ((change t).ed2k_hash ≡ t.ed2k_hash))
    → Owned task tasks
    → Owned task (map (update_one id change) tasks)
update-Owned task id change [] h o = tt
update-Owned task id change (x ∷ xs) h (first, o) = (
  elim (Bool-cases (x.id == id)) [
    | inl hit ↦ rw hit (λ e. (h x).1 ∙ first (sym (h x).0 ∙ e))
    | inr miss ↦ rw miss first
  ],
  update-Owned task id change xs h o,
)

-- Completing a task whose file is named.
pub complete-Backed :
    (recorded : List Str) (task : Task) (tasks : List Task)
    → In task.ed2k_hash recorded
    → Owned task tasks
    → Backed recorded tasks
    → Backed recorded (map (update_one task.id (if_held (λ t. record t { status = done }))) tasks)
complete-Backed recorded task [] m o b = tt
complete-Backed recorded task (x ∷ xs) m (first, o) (old, b) = (
  elim (Bool-cases (x.id == task.id)) [
    | inr miss ↦ rw miss old
    | inl hit ↦
        let same = first ((==_iff x.id task.id).0 hit) in
        rw hit (
          if-Honest recorded (is_in_progress x.status) (record x { status = done }) x
            (λ o' d. subst (λ h. In h recorded) (sym same) m) old)
  ],
  complete-Backed recorded task xs m o b,
)

pub failed-Honest :
    (recorded : List Str) (max_attempts id : ℕ)
    → Honest recorded (update_one id (if_held (failed max_attempts)))
failed-Honest recorded max_attempts id task =
    if-Honest recorded (task.id == id) (if_held (failed max_attempts) task) task (
      if-Honest recorded (is_in_progress task.status) (failed max_attempts task) task (λ old d.
        elim (Bool-cases (leb max_attempts task.attempts)) [
          | inl dead ↦ absurd (cc (rw dead at d))
          | inr again ↦ absurd (cc (rw again at d))
        ]))

claimed-Honest :
    (recorded : List Str) (lease id : ℕ)
    → Honest recorded (update_one id (if_pending (taken lease)))
claimed-Honest recorded lease id task =
    if-Honest recorded (task.id == id) (if_pending (taken lease) task) task
      (if-Honest recorded (is_pending task.status) (taken lease task) task (λ old d. cc))

-- What holds of the table and the verdicts.
abbrev pub IsTruthful : {V : Type 0} → Table → List (Str × V) → Type 0
IsTruthful table verdicts = IsTable table × Backed (hashes verdicts) table.tasks

-- After a claim the tasks under the id of the claimed task are about its file.
abbrev pub ClaimedTask : Option Task → Table → Type 0
ClaimedTask none table = Unit {0}
ClaimedTask (some task) table = Owned task table.tasks

claim_task-Owned :
    (lease : ℕ) (table : Table) (first : Option Task)
    → Claimed lease table.tasks
        (claim_task lease table first).1.tasks
        (claim_task lease table first).0
    → IsTable table
    → ClaimedTask (claim_task lease table first).0 (claim_task lease table first).1
claim_task-Owned lease table none c t = tt
claim_task-Owned lease table (some task) (first, m) t =
    let after = claim_task-IsTable lease table (some task) t in
    In-Owned (taken lease task) (claim_task lease table (some task)).1.tasks after.distinct m

claim_task-Backed :
    (recorded : List Str) (lease : ℕ) (table : Table) (first : Option Task)
    → Backed recorded table.tasks
    → Backed recorded (claim_task lease table first).1.tasks
unfolding update
claim_task-Backed recorded lease table none b = b
claim_task-Backed recorded lease table (some task) b =
    map-Backed recorded (update_one task.id (if_pending (taken lease))) table.tasks
      (claimed-Honest recorded lease task.id) b

pub claim-IsTruthful :
    {V : Type 0} (now lease_duration : ℕ) (table : Table) (verdicts : List (Str × V))
    → IsTruthful table verdicts
    → IsTruthful (claim now lease_duration table).1 verdicts
      × ClaimedTask (claim now lease_duration table).0 (claim now lease_duration table).1
unfolding claim
claim-IsTruthful now lease_duration table verdicts (t, b) = (
  (
    claim-IsTable now lease_duration table t,
    claim_task-Backed (hashes verdicts) (now + lease_duration) table (first_pending table.tasks) b,
  ),
  claim_task-Owned (now + lease_duration) table (first_pending table.tasks)
      (claim-Claimed now lease_duration table) t,
)
