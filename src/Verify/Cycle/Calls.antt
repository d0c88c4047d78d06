-- ===== src/Verify/Cycle/Calls.antt =====
-- run_verification_cycle.py: what the calls of the repositories do to the table and the verdicts.
use emule_indexer.Common.{
  ℕ, suc, ◌≤◌, ◌≡◌, refl, inl, inr, List, In, length, any, map, Bool-cases, arith,
}
use emule_indexer.Common.Effects.{◌>>=◌, raise, gets}
use emule_indexer.Common.Contracts.{Runs, Either, >>=-Runs, if-Runs}
use emule_indexer.Common.Text.{Str}
use emule_indexer.Verify.Queue.{
  done, Task, Table, is_held, complete, fail, update, update_one, update_held, if_held, failed,
}
use emule_indexer.Verify.Queue.Active.{reclaim_expired-IsTable, update_held-IsTable}
use emule_indexer.Verify.Cycle.{
  VerifyError, verifier_unreachable, repository_error, VerificationResult, run_verification_cycle,
}
use emule_indexer.Verify.Cycle
use emule_indexer.Verify.Cycle.Truthful.{
  hashes, Backed, Owned, IsTruthful, ClaimedTask, claim-IsTruthful, complete-Backed, failed-Honest,
  map-Backed, reclaim-Backed, more-Backed,
}

module _ (Meta Float : Type 0) (world : Cycle.World Meta Float) where
  abbrev pub St : Type 0
  St = Cycle.State Meta Float

  abbrev pub Act : Type 0 → Type 0
  Act A = Cycle.Action Meta Float A

  -- The invariant, with the sleeps so far and a bound on the verdicts; what else is known of the
  -- table and the verdicts.
  abbrev pub Knows : (Table → List (Str × VerificationResult Meta) → Type 0) → ℕ → ℕ → St → Type 0
  Knows F k n s =
      IsTruthful s.table s.verdicts
      × F s.table s.verdicts
      × (s.sleeps ≡ k)
      × (n ≤ length s.verdicts)

  abbrev pub Nothing : Table → List (Str × VerificationResult Meta) → Type 0
  Nothing table verdicts = Unit {0}

  -- What a call raises, with everything as it was.
  abbrev pub Failed : ℕ → ℕ → VerifyError → St → Type 0
  Failed k n e s = (e ≡ repository_error) × Knows Nothing k n s

  abbrev pub Knowing : ℕ → ℕ → VerifyError → St → Type 0
  Knowing k n e s = Knows Nothing k n s

  -- A call of a repository that fails leaves everything as it was.
  pub calling-Runs :
      {A : Type 0} (F : Table → List (Str × VerificationResult Meta) → Type 0) (k n : ℕ)
      (Q : A → St → Type 0) (body : Act A)
      → Runs (Knows F k n) body (Either Q (Failed k n))
      → Runs (Knows F k n) (Cycle.calling Meta Float world body) (Either Q (Failed k n))
  calling-Runs F k n Q body run =
      >>=-Runs (λ b. Knows F k n) (Failed k n) Q (Cycle.ask Meta Float world.repository_fails)
        (Cycle.unless_failed Meta Float world body) (λ s p. p)
        (λ b.
          if-Runs (Either Q (Failed k n)) b (raise repository_error) body
            (λ s (t, f, e, l). (refl, (t, tt, e, l))) run)

  pub reclaim-Runs :
      (k n : ℕ)
      → Runs
          (Knows Nothing k n)
          (Cycle.reclaim_leases Meta Float world)
          (Either (λ u. Knows Nothing k n) (Failed k n))
  reclaim-Runs k n =
      calling-Runs Nothing k n (λ u. Knows Nothing k n) _
        (λ s ((t, b), f, e, l). (
          (
            reclaim_expired-IsTable (world.now s.calls) s.table t,
            reclaim-Backed (hashes s.verdicts) (world.now s.calls) s.table b,
          ),
          tt,
          e,
          l,
        ))

  pub claim-Runs :
      (k n : ℕ)
      → Runs
          (Knows Nothing k n)
          (Cycle.claim_task Meta Float world)
          (Either (λ task. Knows (λ table verdicts. ClaimedTask task table) k n) (Failed k n))
  claim-Runs k n =
      calling-Runs Nothing k n (λ task. Knows (λ table verdicts. ClaimedTask task table) k n) _
        (λ s (t, f, e, l).
          let (t', c) =
            claim-IsTruthful (world.now s.calls) world.lease_duration s.table s.verdicts t in
          (t', c, e, l))

  pub record-Runs :
      (task : Task) (result : VerificationResult Meta) (k n : ℕ)
      → Runs
          (Knows (λ table verdicts. Owned task table.tasks) k n)
          (Cycle.record_verdict Meta Float world task.ed2k_hash result)
          (Either
            (λ u.
              Knows
                (λ table verdicts. Owned task table.tasks × In task.ed2k_hash (hashes verdicts))
                k
                (suc n))
            (Failed k n))
  record-Runs task result k n =
      calling-Runs (λ table verdicts. Owned task table.tasks) k n _ _
        (λ s ((t, b), o, e, l). (
          (t, more-Backed task.ed2k_hash (hashes s.verdicts) s.table.tasks b),
          (o, inl refl),
          e,
          omega arith,
        ))

  -- The update of a task that is held, by what it means for the invariant.
  put-Runs :
      (F : Table → List (Str × VerificationResult Meta) → Type 0) (k n : ℕ) (id : ℕ)
      (change : Task → Task)
      → ((task : Task) → ((change task).id ≡ task.id) × ((change task).ed2k_hash ≡ task.ed2k_hash))
      → ((table : Table) (verdicts : List (Str × VerificationResult Meta))
          → F table verdicts
          → Backed (hashes verdicts) table.tasks
          → Backed (hashes verdicts) (map (update_one id (if_held change)) table.tasks))
      → Runs
          (Knows F k n)
          (gets (λ s. update_held id change s.table) >>= Cycle.put_or_raise Meta Float)
          (Either (λ u. Knows Nothing k n) (Failed k n))
  unfolding update
  put-Runs F k n id change same backed s ((t, b), f, e, l) =
      elim (Bool-cases (any (is_held id) s.table.tasks)) [
        | inr missing ↦ rw missing (refl, ((t, b), tt, e, l))
        | inl found ↦ rw found (
          (
            update_held-IsTable id change s.table
                (record s.table { tasks = map (update_one id (if_held change)) s.table.tasks }) same
                t (rw found),
            backed s.table s.verdicts f b,
          ),
          tt,
          e,
          l,
        )
      ]

  pub complete-Runs :
      (task : Task) (k n : ℕ)
      → Runs
          (Knows
            (λ table verdicts. Owned task table.tasks × In task.ed2k_hash (hashes verdicts))
            k
            n)
          (Cycle.complete_task Meta Float world task.id)
          (Either (λ u. Knows Nothing k n) (Failed k n))
  unfolding complete
  complete-Runs task k n =
      calling-Runs (λ table verdicts. Owned task table.tasks × In task.ed2k_hash (hashes verdicts))
        k n (λ u. Knows Nothing k n) _
        (put-Runs (λ table verdicts. Owned task table.tasks × In task.ed2k_hash (hashes verdicts)) k
          n task.id (λ t. record t { status = done }) (λ t. (refl, refl))
          (λ table verdicts (o, m) b. complete-Backed (hashes verdicts) task table.tasks m o b))

  pub fail-Runs :
      (id k n : ℕ)
      → Runs
          (Knows Nothing k n)
          (Cycle.fail_task Meta Float world id)
          (Either (λ u. Knows Nothing k n) (Failed k n))
  unfolding fail
  fail-Runs id k n =
      calling-Runs Nothing k n (λ u. Knows Nothing k n) _
        (put-Runs Nothing k n id (failed world.max_attempts) (λ t. (refl, refl))
          (λ table verdicts f b.
            map-Backed (hashes verdicts) (update_one id (if_held (failed world.max_attempts)))
              table.tasks (failed-Honest (hashes verdicts) world.max_attempts id) b))
