-- ===== src/Verify/Cycle.antt =====
-- run_verification_cycle.py: one cycle of the loop over the queue of verifications.
pub mod Truthful
pub mod Calls
pub mod Safety
mod Tests
use emule_indexer.Common.{
  ℕ, zero, suc, ◌+◌, Bool, true, false, Option, none, some, List, [], ◌∷◌, Result, ok, err,
  if◌then◌else◌,
}
use emule_indexer.Common.Effects.{Exec, ◌>>=◌, ◌>>◌, pure, raise, gets, modify, catch}
use emule_indexer.Common.Text.{Str, codes}
use emule_indexer.Observability.Policy.{
  Event, verification_completed, verifier_unavailable, verification_queue_depth_sampled,
}
use emule_indexer.Observability.Edge.{enter, leave}
use emule_indexer.Verify.Queue.{Task, Table, claim, complete, fail, reclaim_expired, count_pending}

-- `VerifierUnavailableError` and `RepositoryError`.
pub data VerifyError : Type 0 where
  verifier_unreachable repository_error : VerifyError

-- The metadata and the checks of a result are passed on unread.
pub record VerificationResult (Meta : Type 0) : Type 0 where
  pub verdict : Str
  pub details : Meta

module _ (Meta Float : Type 0) where
  pub record State : Type 0 where
    pub table : Table
    -- the table of verdicts in the catalogue, by hash, the latest first
    pub verdicts : List (Str × VerificationResult Meta)
    pub edge : List Str
    pub events : List (Event Float)
    -- how often the loop has slept, and how often something outside was asked
    pub sleeps : ℕ
    pub calls : ℕ

  pub record World : Type 0 where
    pub repository_fails : ℕ → Bool
    pub now : ℕ → ℕ
    pub lease_duration : ℕ
    pub max_attempts : ℕ
    pub target_of : Str → Option Str
    -- the answer to a hash and what is expected of it; `none` is a verifier that cannot be reached
    pub verify : ℕ → Str → Option Str → Option (VerificationResult Meta)

  abbrev pub Action : Type 0 → Type 0
  Action A = Exec State VerifyError A

  abbrev pub count_call : State → State
  count_call s = record s { calls = s.calls + 1 }

  abbrev pub ask : {A : Type 0} → (ℕ → A) → Action A
  ask answer s = (ok (answer s.calls), count_call s)

  abbrev pub emit : Event Float → Action (Unit {0})
  emit event = modify (λ s. record s { events = event ∷ s.events })

  -- `clock.sleep(poll_interval_seconds)`
  abbrev pub sleep : Action (Unit {0})
  sleep = modify (λ s. record s { sleeps = s.sleeps + 1 })

  abbrev pub verifier_condition : Str
  verifier_condition = codes "verifier_unavailable"

  abbrev pub enter_condition : Action Bool
  enter_condition s =
      let (first, edge') = enter verifier_condition s.edge in (ok first, record s { edge = edge' })

  abbrev pub leave_condition : Action (Unit {0})
  leave_condition = modify (λ s. record s { edge = (leave verifier_condition s.edge).1 })

  abbrev pub put_table : Table → Action (Unit {0})
  put_table table = modify (λ s. record s { table = table })

  -- An update that touches no row raises a PersistenceError.
  abbrev pub put_or_raise : Option Table → Action (Unit {0})
  put_or_raise none = raise repository_error
  put_or_raise (some table) = put_table table

  abbrev pub expected_target : Option Str → Str
  expected_target none = codes "inconnu"
  expected_target (some target_id) = target_id

  module _ (world : World) where
    -- A call of a repository: it fails, or does its work.
    abbrev pub unless_failed : {A : Type 0} → Action A → Bool → Action A
    unless_failed body fails = if fails then raise repository_error else body

    abbrev pub calling : {A : Type 0} → Action A → Action A
    calling body = ask world.repository_fails >>= unless_failed body

    abbrev pub reclaim_leases : Action (Unit {0})
    reclaim_leases =
        calling
          (ask world.now >>= λ now. modify (λ s. record s { table = reclaim_expired now s.table }))

    abbrev pub claim_task : Action (Option Task)
    claim_task = calling (
        ask world.now >>= λ now s.
        let (task, table) = claim now world.lease_duration s.table in
        (ok task, record s { table = table }))

    abbrev pub complete_task : ℕ → Action (Unit {0})
    complete_task id = calling (gets (λ s. complete id s.table) >>= put_or_raise)

    abbrev pub fail_task : ℕ → Action (Unit {0})
    fail_task id = calling (gets (λ s. fail world.max_attempts id s.table) >>= put_or_raise)

    abbrev pub record_verdict : Str → VerificationResult Meta → Action (Unit {0})
    record_verdict hash result =
        calling (modify (λ s. record s { verdicts = (hash, result) ∷ s.verdicts }))

    -- `_build_expected`: the target, if it is known.
    abbrev pub build_expected : Str → Action (Option Str)
    build_expected hash = calling (pure (world.target_of hash))

    abbrev pub answered : Option (VerificationResult Meta) → Action (VerificationResult Meta)
    answered none = raise verifier_unreachable
    answered (some result) = pure result

    -- What is done with an answer of the verifier.
    abbrev pub keep_answer : Task → Option Str → VerificationResult Meta → Action (Unit {0})
    keep_answer task expected result =
        record_verdict task.ed2k_hash result
        >> (complete_task task.id
            >> (leave_condition
                >> emit (verification_completed (expected_target expected) result.verdict)))

    -- The inner `try`.
    abbrev pub verify_task : Task → Option Str → Action (Unit {0})
    verify_task task expected =
        (ask (λ n. world.verify n task.ed2k_hash expected) >>= answered)
        >>= keep_answer task expected

    -- Its two `except` clauses.
    abbrev pub not_verified : Task → VerifyError → Action (Unit {0})
    not_verified task verifier_unreachable =
        fail_task task.id
        >> ((enter_condition >>= λ first. emit (verifier_unavailable first)) >> sleep)
    not_verified task repository_error = fail_task task.id >> sleep

    abbrev pub serve : Option Task → Action (Unit {0})
    serve none = sleep
    serve (some task) = build_expected task.ed2k_hash >>= λ expected.
        catch (verify_task task expected) (not_verified task)

    abbrev pub sample_depth : Action (Unit {0})
    sample_depth = calling (gets (λ s. count_pending s.table.tasks)) >>= λ count.
        emit (verification_queue_depth_sampled count)

    abbrev pub body : Action (Unit {0})
    body = reclaim_leases >> (sample_depth >> (claim_task >>= serve))

    -- The outer `except RepositoryError`.
    abbrev pub absorbed : VerifyError → Action (Unit {0})
    absorbed repository_error = sleep
    absorbed verifier_unreachable = raise verifier_unreachable

    unfoldable pub run_verification_cycle : Action (Unit {0})
    run_verification_cycle = catch body absorbed

    -- `verification_loop`, over the cycles until the stop is asked for.
    unfoldable pub verification_loop : ℕ → State → State
    unfolding run_verification_cycle
    verification_loop zero s = s
    verification_loop (suc n) s = verification_loop n (run_verification_cycle s).1
