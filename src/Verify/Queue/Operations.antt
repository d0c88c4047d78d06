-- ===== src/Verify/Queue/Operations.antt =====
-- local_state_repository.py: every operation keeps at most one active task of a file.
use emule_indexer.Common.{
  ℕ, ◌+◌, ◌<◌, ◌≡◌, refl, inl, inr, false, Option, none, some, List, [], ◌∷◌, ◌++◌, any, In, All,
  All-append, Bool-cases, arith,
}
use mathlib.Core.Path.{subst}
use emule_indexer.Common.Members.{Nodup}
use emule_indexer.Common.Text.{Str, str_eq, str_eq_iff}
use emule_indexer.Verify.Queue.{
  pending, done, Task, Table, is_active_for, enqueue, update_held, complete, failed, fail,
  Operation, enqueues, claims, completes, fails, reclaims, or_same, operate, operate_all, new_table,
}
use emule_indexer.Verify.Queue.Active.{
  IsTable, active_for, ids, claim-IsTable, reclaim_expired-IsTable, update_held-IsTable,
}

active_for-append :
    (hash : Str) (xs ys : List Task)
    → active_for hash (xs ++ ys) ≡ active_for hash xs + active_for hash ys
active_for-append hash [] ys = omega arith
active_for-append hash (x ∷ xs) ys = omega (arith, active_for-append hash xs ys)

active_for-none :
    (hash : Str) (tasks : List Task)
    → any (is_active_for hash) tasks ≡ false
    → active_for hash tasks ≡ 0
active_for-none hash [] h = refl
active_for-none hash (task ∷ tasks) h = elim (Bool-cases (is_active_for hash task)) [
  | inl active ↦ absurd (cc (rw active at h))
  | inr idle ↦ rw idle (omega (arith, active_for-none hash tasks (rw idle at h)))
]

numbered_later :
    (n : ℕ) (tasks : List Task) → All (λ t. t.id < n) tasks → All (λ t. t.id < n + 1) tasks
numbered_later n [] a = tt
numbered_later n (task ∷ tasks) (first, a) = (omega arith, numbered_later n tasks a)

last_id :
    (task : Task) (id n : ℕ) (tasks : List Task)
    → task.id ≡ n
    → id < n
    → ¬ In id (ids tasks)
    → ¬ In id (ids (tasks ++ task ∷ []))
last_id task id n [] e l new (inl same) = omega arith
last_id task id n [] e l new (inr m) = m
last_id task id n (x ∷ xs) e l new (inl same) = new (inl same)
last_id task id n (x ∷ xs) e l new (inr m) = last_id task id n xs e l (λ k. new (inr k)) m

ids-append_new :
    (task : Task) (n : ℕ) (tasks : List Task)
    → task.id ≡ n
    → All (λ t. t.id < n) tasks
    → Nodup (ids tasks)
    → Nodup (ids (tasks ++ task ∷ []))
ids-append_new task n [] e a d = ((λ m. m), tt)
ids-append_new task n (x ∷ xs) e (first, a) (new, d) =
    (λ m. last_id task x.id n xs e first new m, ids-append_new task n xs e a d)

enqueue-IsTable :
    (hash : Str) (now : ℕ) (table : Table) → IsTable table → IsTable (enqueue hash now table).1
unfolding enqueue
enqueue-IsTable hash now table t = elim (Bool-cases (any (is_active_for hash) table.tasks)) [
  | inl active ↦ rw active t
  | inr free ↦
      let added : Task = record {
        id = table.next_id;
        ed2k_hash = hash;
        status = pending;
        enqueued_at = now;
        lease_until = 0;
        attempts = 0;
      } in
      rw free (record {
        numbered =
            All-append (λ task. task.id < table.next_id + 1) table.tasks (added ∷ [])
              (numbered_later table.next_id table.tasks t.numbered) (omega arith, tt);
        distinct = ids-append_new added table.next_id table.tasks refl t.numbered t.distinct;
        single = λ h. elim (Bool-cases (str_eq hash h)) [
          | inl same ↦
              let e = (str_eq_iff hash h).0 same in
              let zero_before =
                subst (λ x. active_for x table.tasks ≡ 0) e
                  (active_for-none hash table.tasks free) in
              let new : active_for h (added ∷ []) ≡ 1 = rw same in
              omega (arith, active_for-append h table.tasks (added ∷ []), zero_before, new)
          | inr other ↦
              let old : active_for h (added ∷ []) ≡ 0 = rw other in
              omega (arith, active_for-append h table.tasks (added ∷ []), t.single h, old)
        ];
      })
]

or_same-IsTable :
    (table : Table) (result : Option Table)
    → IsTable table
    → ((table' : Table) → result ≡ some table' → IsTable table')
    → IsTable (or_same table result)
or_same-IsTable table none t h = t
or_same-IsTable table (some table') t h = h table' refl

pub operate-IsTable : (op : Operation) (table : Table) → IsTable table → IsTable (operate op table)
unfolding operate complete fail
operate-IsTable (enqueues hash now) table t = enqueue-IsTable hash now table t
operate-IsTable (claims now lease_duration) table t = claim-IsTable now lease_duration table t
operate-IsTable (completes id) table t =
    or_same-IsTable table (update_held id (λ task. record task { status = done }) table) t
      (λ table' e.
        update_held-IsTable id (λ task. record task { status = done }) table table'
          (λ task. (refl, refl)) t e)
operate-IsTable (fails max_attempts id) table t =
    or_same-IsTable table (update_held id (failed max_attempts) table) t (λ table' e.
      update_held-IsTable id (failed max_attempts) table table' (λ task. (refl, refl)) t e)
operate-IsTable (reclaims now) table t = reclaim_expired-IsTable now table t

operate_all-same :
    (ops : List Operation) (table : Table) → IsTable table → IsTable (operate_all ops table)
unfolding operate_all
operate_all-same [] table t = t
operate_all-same (op ∷ ops) table t =
    operate_all-same ops (operate op table) (operate-IsTable op table t)

-- After any operations on a new table, in any order, no file has two active tasks, and every id was
-- given by the counter and to one task.
pub operate_all-IsTable : (ops : List Operation) → IsTable (operate_all ops new_table)
operate_all-IsTable ops =
    operate_all-same ops new_table
      (record { numbered = tt; distinct = tt; single = λ hash. omega arith })
