-- ===== src/Verify/Queue/Living.antt =====
-- local_state_repository.py: a task that is neither completed nor failed stays active.
use emule_indexer.Common.{
  ℕ, ◌+◌, ◌≡◌, ◌≢◌, refl, sym, ap, ◌∙◌, inl, inr, true, false, Option, none, some, List, [], ◌∷◌,
  map, any, In, All, Bool-cases, ◌==◌, if◌then◌else◌, arith,
}
use mathlib.Core.Path.{subst}
use emule_indexer.Common.Members.{Nodup, In-append_left, In-map}
use emule_indexer.Common.Text.{Str}
use emule_indexer.Verify.Queue.{
  done, Task, Table, is_active, is_active_for, is_held, Operation, enqueues, claims, completes,
  fails, reclaims, operate, operate_all, claim, claim_task, taken, first_pending, update,
  update_one, update_held, if_pending, if_held, or_same, enqueue, complete, fail, failed,
  is_expired, reclaimed, reclaim_expired,
}
use emule_indexer.Verify.Queue.Active.{IsTable, ids}
use emule_indexer.Verify.Queue.Operations.{operate-IsTable}
use emule_indexer.Verify.Queue.Fifo.{Claimed, claim-Claimed}

-- An operation that neither completes nor fails the task.
abbrev pub Spares : ℕ → Operation → Type 0
Spares id (enqueues hash now) = Unit {0}
Spares id (claims now lease_duration) = Unit {0}
Spares id (completes other) = other ≢ id
Spares id (fails max_attempts other) = other ≢ id
Spares id (reclaims now) = Unit {0}

-- How many of the claims were answered with the task.
abbrev pub answers : ℕ → Option Task → ℕ
answers id none = 0
answers id (some task) = if task.id == id then 1 else 0

abbrev pub claims_in : ℕ → Operation → Table → ℕ
claims_in id (enqueues hash now) table = 0
claims_in id (claims now lease_duration) table = answers id (claim now lease_duration table).0
claims_in id (completes other) table = 0
claims_in id (fails max_attempts other) table = 0
claims_in id (reclaims now) table = 0

unfoldable pub claims_of : ℕ → List Operation → Table → ℕ
claims_of id [] table = 0
claims_of id (op ∷ ops) table = claims_in id op table + claims_of id ops (operate op table)

-- A row of the table under this id that is active, with its attempts.
abbrev pub Lives : ℕ → ℕ → List Task → Type 0
Lives id attempts tasks =
    (task : Task) × In task tasks
    × (task.id ≡ id)
    × (is_active task.status ≡ true)
    × (task.attempts ≡ attempts)

Lives-map :
    (id a b : ℕ) (change : Task → Task) (tasks : List Task)
    → ((task : Task)
        → task.id ≡ id
        → is_active task.status ≡ true
        → ((change task).id ≡ id)
          × (is_active (change task).status ≡ true)
          × ((change task).attempts ≡ task.attempts + b))
    → Lives id a tasks
    → Lives id (a + b) (map change tasks)
Lives-map id a b change tasks h (task, m, e, active, n) =
    let (e', active', n') = h task e active in
    (change task, In-map change task tasks m, e', active', n' ∙ ap (λ k. k + b) n)

In-ids : (task : Task) (tasks : List Task) → In task tasks → In task.id (ids tasks)
In-ids task [] m = absurd m
In-ids task (x ∷ xs) (inl e) = inl (ap (λ (t : Task). t.id) e)
In-ids task (x ∷ xs) (inr m) = inr (In-ids task xs m)

-- An id is the key of one row.
id_unique :
    (a b : Task) (tasks : List Task)
    → Nodup (ids tasks)
    → In a tasks
    → In b tasks
    → a.id ≡ b.id
    → a ≡ b
id_unique a b [] d m n e = absurd m
id_unique a b (x ∷ xs) d (inl p) (inl q) e = p ∙ sym q
id_unique a b (x ∷ xs) (new, d) (inl p) (inr n) e =
    absurd (new (subst (λ i. In i (ids xs)) (sym e ∙ ap (λ (t : Task). t.id) p) (In-ids b xs n)))
id_unique a b (x ∷ xs) (new, d) (inr m) (inl q) e =
    absurd (new (subst (λ i. In i (ids xs)) (e ∙ ap (λ (t : Task). t.id) q) (In-ids a xs m)))
id_unique a b (x ∷ xs) (new, d) (inr m) (inr n) e = id_unique a b xs d m n e

claim_task-Lives :
    (lease id a : ℕ) (table : Table) (first : Option Task)
    → Claimed lease table.tasks
        (claim_task lease table first).1.tasks
        (claim_task lease table first).0
    → IsTable table
    → Lives id a table.tasks
    → Lives id
        (a + answers id (claim_task lease table first).0)
        (claim_task lease table first).1.tasks
unfolding update
claim_task-Lives lease id a table none c t h = let e : a + 0 ≡ a = omega arith in rw e h
claim_task-Lives lease id a table (some first) (c, m) t (task, m', e, active, n) =
    elim (Bool-cases (first.id == id)) [
      | inr other ↦ rw other (
          Lives-map id a 0 (update_one first.id (if_pending (taken lease))) table.tasks
            (λ x e' active'.
              let apart : (x.id == first.id) ≡ false = ground (arith, other, e') in
              rw apart (e', active', omega arith))
            (task, m', e, active, n))
      | inl same ↦
          let one : c.first ≡ task =
            id_unique c.first task table.tasks t.distinct c.member m'
              (ground (arith, same, e, c.id)) in
          rw same (
            taken lease first,
            m,
            ground (arith, same),
            refl,
            c.attempts ∙ ap (λ (x : Task). x.attempts + 1) one ∙ ap (λ k. k + 1) n,
          )
    ]

claim-Lives :
    (now lease_duration id a : ℕ) (table : Table)
    → IsTable table
    → Lives id a table.tasks
    → Lives id
        (a + answers id (claim now lease_duration table).0)
        (claim now lease_duration table).1.tasks
unfolding claim
claim-Lives now lease_duration id a table t h =
    claim_task-Lives (now + lease_duration) id a table (first_pending table.tasks)
      (claim-Claimed now lease_duration table) t h

other-Lives :
    (other id a : ℕ) (change : Task → Task) (table : Table)
    → other ≢ id
    → Lives id a table.tasks
    → Lives id (a + 0) (or_same table (update_held other change table)).tasks
unfolding update
other-Lives other id a change table apart h = elim (Bool-cases (any (is_held other) table.tasks)) [
  | inr missing ↦ let e : a + 0 ≡ a = omega arith in rw (missing, e) h
  | inl found ↦ rw found (
      Lives-map id a 0 (update_one other (if_held change)) table.tasks
        (λ x e active.
          let skipped : (x.id == other) ≡ false = ground (arith, apart, e) in
          rw skipped (e, active, omega arith))
        h)
]

enqueue-Lives :
    (hash : Str) (now id a : ℕ) (table : Table)
    → Lives id a table.tasks
    → Lives id (a + 0) (enqueue hash now table).1.tasks
unfolding enqueue
enqueue-Lives hash now id a table (task, m, e, active, n) =
    elim (Bool-cases (any (is_active_for hash) table.tasks)) [
      | inl taken_already ↦ rw taken_already (task, m, e, active, omega (arith, n))
      | inr free ↦ rw free (task, In-append_left task table.tasks _ m, e, active, omega (arith, n))
    ]

pub reclaimed-active :
    (now : ℕ) (task : Task)
    → is_active task.status ≡ true
    → ((reclaimed now task).id ≡ task.id)
      × (is_active (reclaimed now task).status ≡ true)
      × ((reclaimed now task).attempts ≡ task.attempts + 0)
reclaimed-active now task active = elim (Bool-cases (is_expired now task)) [
  | inl late ↦ rw late (refl, refl, omega arith)
  | inr held ↦ rw held (refl, active, omega arith)
]

operate-Lives :
    (op : Operation) (id a : ℕ) (table : Table)
    → Spares id op
    → IsTable table
    → Lives id a table.tasks
    → Lives id (a + claims_in id op table) (operate op table).tasks
unfolding operate complete fail reclaim_expired
operate-Lives (enqueues hash now) id a table s t h = enqueue-Lives hash now id a table h
operate-Lives (claims now lease_duration) id a table s t h =
    claim-Lives now lease_duration id a table t h
operate-Lives (completes other) id a table s t h =
    other-Lives other id a (λ task. record task { status = done }) table s h
operate-Lives (fails max_attempts other) id a table s t h =
    other-Lives other id a (failed max_attempts) table s h
operate-Lives (reclaims now) id a table s t h =
    Lives-map id a 0 (reclaimed now) table.tasks
      (λ x e active. let (i, still, n) = reclaimed-active now x active in (i ∙ e, still, n)) h

pub operate_all-Lives :
    (ops : List Operation) (id a : ℕ) (table : Table)
    → All (Spares id) ops
    → IsTable table
    → Lives id a table.tasks
    → Lives id (a + claims_of id ops table) (operate_all ops table).tasks
unfolding operate_all claims_of
operate_all-Lives [] id a table s t h = let e : a + 0 ≡ a = omega arith in rw e h
operate_all-Lives (op ∷ ops) id a table (spared, s) t h =
    let n = claims_in id op table in
    let rest =
      operate_all-Lives ops id (a + n) (operate op table) s (operate-IsTable op table t)
        (operate-Lives op id a table spared t h) in
    let e : a + (n + claims_of id ops (operate op table))
        ≡ a + n + claims_of id ops (operate op table) =
      omega arith in
    rw e rest
