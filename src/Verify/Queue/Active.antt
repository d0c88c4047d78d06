-- ===== src/Verify/Queue/Active.antt =====
-- local_state_repository.py: at most one task of a file is active, and ids are not used twice.
use emule_indexer.Common.{
  ℕ, ◌+◌, ◌<◌, ◌≤◌, ◌≡◌, refl, sym, inl, inr, Bool, true, false, Option, none, some, List, [], ◌∷◌,
  any, All, map, Bool-cases, some-injective, ◌==◌, if◌then◌else◌, arith,
}
use mathlib.Core.Path.{subst}
use emule_indexer.Common.Members.{Nodup}
use emule_indexer.Common.Text.{Str}
use emule_indexer.Verify.Queue.{
  pending, Task, Table, is_pending, is_in_progress, is_active, is_active_for, first_pending, update,
  taken, claim_task, claim, is_held, update_held, is_expired, reclaimed, reclaim_expired,
  update_one, if_pending, if_held,
}

-- How many active tasks a file has.
abbrev pub active_for : Str → List Task → ℕ
active_for hash [] = 0
active_for hash (task ∷ tasks) = (if is_active_for hash task then 1 else 0) + active_for hash tasks

abbrev pub ids : List Task → List ℕ
ids [] = []
ids (task ∷ tasks) = task.id ∷ ids tasks

-- Every id was given by the counter and to one task, and no file has two active tasks.
pub record IsTable (table : Table) : Type 0 where
  pub numbered : All (λ task. task.id < table.next_id) table.tasks
  pub distinct : Nodup (ids table.tasks)
  pub single : (hash : Str) → active_for hash table.tasks ≤ 1

-- A change that keeps the id and the file, and makes no task active that was not.
abbrev Harmless : (Task → Task) → Type 0
Harmless change =
    (task : Task)
    → ((change task).id ≡ task.id)
      × ((change task).ed2k_hash ≡ task.ed2k_hash)
      × (is_active task.status ≡ false → is_active (change task).status ≡ false)

active-change :
    (hash : Str) (change : Task → Task) (task : Task)
    → Harmless change
    → (if is_active_for hash (change task) then 1 else 0)
      ≤ (if is_active_for hash task then 1 else 0)
active-change hash change task h =
    let (i, e, a) = h task in
    elim (Bool-cases (is_active task.status)) [
      | inr idle ↦ rw (idle, a idle) (omega arith)
      | inl active ↦ elim (Bool-cases (is_active (change task).status)) [
        | inl still ↦ rw (active, still, e) (omega arith)
        | inr idle ↦ rw idle (omega arith)
      ]
    ]

active_for-map :
    (hash : Str) (change : Task → Task) (tasks : List Task)
    → Harmless change
    → active_for hash (map change tasks) ≤ active_for hash tasks
active_for-map hash change [] h = omega arith
active_for-map hash change (task ∷ tasks) h =
    omega (arith, active-change hash change task h, active_for-map hash change tasks h)

numbered-map :
    (n : ℕ) (change : Task → Task) (tasks : List Task)
    → Harmless change
    → All (λ task. task.id < n) tasks
    → All (λ task. task.id < n) (map change tasks)
numbered-map n change [] h a = tt
numbered-map n change (task ∷ tasks) h (first, a) =
    (omega (arith, (h task).0), numbered-map n change tasks h a)

ids-map :
    (change : Task → Task) (tasks : List Task)
    → Harmless change
    → ids (map change tasks) ≡ ids tasks
ids-map change [] h = refl
ids-map change (task ∷ tasks) h = rw ((h task).0, ids-map change tasks h)

map-IsTable :
    (change : Task → Task) (table : Table)
    → Harmless change
    → IsTable table
    → IsTable (record table { tasks = map change table.tasks })
map-IsTable change table h t = record {
  numbered = numbered-map table.next_id change table.tasks h t.numbered;
  distinct = subst Nodup (sym (ids-map change table.tasks h)) t.distinct;
  single = λ hash. omega (arith, active_for-map hash change table.tasks h, t.single hash);
}

if-Harmless :
    (test : Task → Bool) (change : Task → Task)
    → Harmless change
    → Harmless (λ task. if test task then change task else task)
if-Harmless test change h task = elim (Bool-cases (test task)) [
  | inl yes_changed ↦ rw yes_changed (h task)
  | inr kept ↦ rw kept (refl, refl, λ e. e)
]

-- The same of a change of the tasks that are active.
active-Harmless :
    (test : Task → Bool) (change : Task → Task)
    → ((task : Task) → ((change task).id ≡ task.id) × ((change task).ed2k_hash ≡ task.ed2k_hash))
    → ((task : Task) → test task ≡ true → is_active task.status ≡ true)
    → Harmless (λ task. if test task then change task else task)
active-Harmless test change same active task = elim (Bool-cases (test task)) [
  | inr kept ↦ rw kept (refl, refl, λ e. e)
  | inl changed ↦ rw changed ((same task).0, (same task).1, λ idle. cc (active task changed, idle))
]

pending_active : (task : Task) → is_pending task.status ≡ true → is_active task.status ≡ true
pending_active task h = ground arith

held_active : (task : Task) → is_in_progress task.status ≡ true → is_active task.status ≡ true
held_active task h = ground arith

expired_active : (now : ℕ) (task : Task) → is_expired now task ≡ true → is_active task.status ≡ true
expired_active now task h = ground arith

pub reclaim_expired-IsTable :
    (now : ℕ) (table : Table) → IsTable table → IsTable (reclaim_expired now table)
unfolding reclaim_expired
reclaim_expired-IsTable now table = map-IsTable (reclaimed now) table (
    active-Harmless (is_expired now) (λ task. record task { status = pending })
      (λ task. (refl, refl)) (expired_active now))

pub claim_task-IsTable :
    (lease : ℕ) (table : Table) (first : Option Task)
    → IsTable table
    → IsTable (claim_task lease table first).1
unfolding update
claim_task-IsTable lease table none t = t
claim_task-IsTable lease table (some task) t =
    map-IsTable (update_one task.id (if_pending (taken lease))) table
      (if-Harmless (λ x. x.id == task.id) (if_pending (taken lease))
        (active-Harmless (λ x. is_pending x.status) (taken lease) (λ x. (refl, refl))
          pending_active))
      t

pub claim-IsTable :
    (now lease_duration : ℕ) (table : Table)
    → IsTable table
    → IsTable (claim now lease_duration table).1
unfolding claim
claim-IsTable now lease_duration table =
    claim_task-IsTable (now + lease_duration) table (first_pending table.tasks)

pub update_held-IsTable :
    (id : ℕ) (change : Task → Task) (table table' : Table)
    → ((task : Task) → ((change task).id ≡ task.id) × ((change task).ed2k_hash ≡ task.ed2k_hash))
    → IsTable table
    → update_held id change table ≡ some table'
    → IsTable table'
unfolding update
update_held-IsTable id change table table' same t h =
    elim (Bool-cases (any (is_held id) table.tasks)) [
      | inr missing ↦ absurd (cc (rw missing at h))
      | inl found ↦ subst IsTable (some-injective (rw found at h)) (
          map-IsTable (update_one id (if_held change)) table
            (if-Harmless (λ x. x.id == id) (if_held change)
              (active-Harmless (λ x. is_in_progress x.status) change same held_active))
            t)
    ]
