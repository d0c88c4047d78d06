-- ===== src/Verify/Cycle/Safety.antt =====
-- run_verification_cycle.py: a cycle never raises, invents no verdict, and does not spin.
use emule_indexer.Common.{
  ℕ, suc, ◌+◌, ◌≤◌, ◌≡◌, refl, ◌⊎◌, inl, inr, Option, none, some, Result, ok, err, In, length,
  arith,
}
use emule_indexer.Common.Effects.{◌>>=◌, gets, catch}
use emule_indexer.Common.Contracts.{Runs, Either, >>=-Runs, catch-Runs, weaken-Runs}
use emule_indexer.Common.Text.{Str}
use emule_indexer.Verify.Queue.{Task, count_pending}
use emule_indexer.Verify.Cycle.{
  VerifyError, verifier_unreachable, repository_error, VerificationResult, run_verification_cycle,
}
use emule_indexer.Verify.Cycle
use emule_indexer.Verify.Cycle.Truthful.{hashes, Owned, IsTruthful, ClaimedTask}
use emule_indexer.Verify.Cycle.Calls.{
  St, Knows, Nothing, Failed, Knowing, calling-Runs, reclaim-Runs, claim-Runs, record-Runs,
  complete-Runs, fail-Runs,
}

module _ (Meta Float : Type 0) (world : Cycle.World Meta Float) where
  -- The end of a cycle: it has slept once, or a verdict was recorded and its task is done.
  abbrev pub Ended : ℕ → ℕ → (St Meta Float world) → Type 0
  Ended k n s =
      IsTruthful s.table s.verdicts
      × ((s.sleeps ≡ k + 1) ⊎ ((s.sleeps ≡ k) × (suc n ≤ length s.verdicts)))

  keep_answer-Runs :
      (task : Task) (expected : Option Str) (result : VerificationResult Meta) (k n : ℕ)
      → Runs
          (Knows Meta Float world (λ table verdicts. Owned task table.tasks) k n)
          (Cycle.keep_answer Meta Float world task expected result)
          (Either (λ u. Ended k n) (Failed Meta Float world k n))
  keep_answer-Runs task expected result k n =
      >>=-Runs
        (λ u.
          Knows Meta Float world
            (λ table verdicts. Owned task table.tasks × In task.ed2k_hash (hashes verdicts)) k
            (suc n))
        (Failed Meta Float world k n) (λ u. Ended k n)
        (Cycle.record_verdict Meta Float world task.ed2k_hash result) _
        (record-Runs Meta Float world task result k n)
        (λ u.
          >>=-Runs (λ u. Knows Meta Float world (Nothing Meta Float world) k (suc n))
            (Failed Meta Float world k n) (λ u. Ended k n)
            (Cycle.complete_task Meta Float world task.id) _
            (weaken-Runs (λ u'. Knows Meta Float world (Nothing Meta Float world) k (suc n))
              (Failed Meta Float world k (suc n)) (Failed Meta Float world k n)
              (Cycle.complete_task Meta Float world task.id)
              (λ e s (r, (t, f, sleeps, l)). (r, (t, f, sleeps, omega arith)))
              (complete-Runs Meta Float world task k (suc n)))
            (λ u' s (t, f, e, l). (t, inr (e, l))))

  answered-Runs :
      (task : Task) (k n : ℕ) (answer : Option (VerificationResult Meta))
      → Runs
          (Knows Meta Float world (λ table verdicts. Owned task table.tasks) k n)
          (Cycle.answered Meta Float world answer)
          (Either
            (λ result. Knows Meta Float world (λ table verdicts. Owned task table.tasks) k n)
            (Knowing Meta Float world k n))
  answered-Runs task k n none = λ s (t, f, e, l). (t, tt, e, l)
  answered-Runs task k n (some result) = λ s p. p

  verify-Runs :
      (task : Task) (expected : Option Str) (k n : ℕ)
      → Runs
          (Knows Meta Float world (λ table verdicts. Owned task table.tasks) k n)
          (Cycle.verify_task Meta Float world task expected)
          (Either (λ u. Ended k n) (Knowing Meta Float world k n))
  verify-Runs task expected k n =
      >>=-Runs (λ result. Knows Meta Float world (λ table verdicts. Owned task table.tasks) k n)
        (Knowing Meta Float world k n) (λ u. Ended k n)
        (Cycle.ask Meta Float (λ c. world.verify c task.ed2k_hash expected)
          >>= Cycle.answered Meta Float world)
        (Cycle.keep_answer Meta Float world task expected)
        (λ s p.
          answered-Runs task k n (world.verify s.calls task.ed2k_hash expected)
            (Cycle.count_call Meta Float s) p)
        (λ result.
          weaken-Runs (λ u. Ended k n) (Failed Meta Float world k n) (Knowing Meta Float world k n)
            (Cycle.keep_answer Meta Float world task expected result) (λ e s (r, p). p)
            (keep_answer-Runs task expected result k n))

  not_verified-Runs :
      (task : Task) (e : VerifyError) (k n : ℕ)
      → Runs
          (Knows Meta Float world (Nothing Meta Float world) k n)
          (Cycle.not_verified Meta Float world task e)
          (Either (λ u. Ended k n) (Failed Meta Float world k n))
  not_verified-Runs task verifier_unreachable k n =
      >>=-Runs (λ u. Knows Meta Float world (Nothing Meta Float world) k n)
        (Failed Meta Float world k n) (λ u. Ended k n) (Cycle.fail_task Meta Float world task.id) _
        (fail-Runs Meta Float world task.id k n) (λ u s (t, f, e, l). (t, inl (omega arith)))
  not_verified-Runs task repository_error k n =
      >>=-Runs (λ u. Knows Meta Float world (Nothing Meta Float world) k n)
        (Failed Meta Float world k n) (λ u. Ended k n) (Cycle.fail_task Meta Float world task.id) _
        (fail-Runs Meta Float world task.id k n) (λ u s (t, f, e, l). (t, inl (omega arith)))

  serve-Runs :
      (task : Option Task) (k n : ℕ)
      → Runs
          (Knows Meta Float world (λ table verdicts. ClaimedTask task table) k n)
          (Cycle.serve Meta Float world task)
          (Either (λ u. Ended k n) (Failed Meta Float world k n))
  serve-Runs none k n = λ s (t, f, e, l). (t, inl (omega arith))
  serve-Runs (some task) k n =
      >>=-Runs (λ expected. Knows Meta Float world (λ table verdicts. Owned task table.tasks) k n)
        (Failed Meta Float world k n) (λ u. Ended k n)
        (Cycle.build_expected Meta Float world task.ed2k_hash)
        (λ expected.
          catch (Cycle.verify_task Meta Float world task expected)
            (Cycle.not_verified Meta Float world task))
        (calling-Runs Meta Float world (λ table verdicts. Owned task table.tasks) k n
          (λ expected. Knows Meta Float world (λ table verdicts. Owned task table.tasks) k n) _
          (λ s p. p))
        (λ expected.
          catch-Runs (λ u. Ended k n) (Knowing Meta Float world k n) (Failed Meta Float world k n)
            (Cycle.verify_task Meta Float world task expected)
            (Cycle.not_verified Meta Float world task) (verify-Runs task expected k n)
            (λ e. not_verified-Runs task e k n))

  body-Runs :
      (k n : ℕ)
      → Runs
          (Knows Meta Float world (Nothing Meta Float world) k n)
          (Cycle.body Meta Float world)
          (Either (λ u. Ended k n) (Failed Meta Float world k n))
  body-Runs k n =
      >>=-Runs (λ u. Knows Meta Float world (Nothing Meta Float world) k n)
        (Failed Meta Float world k n) (λ u. Ended k n) (Cycle.reclaim_leases Meta Float world) _
        (reclaim-Runs Meta Float world k n)
        (λ u.
          >>=-Runs (λ u'. Knows Meta Float world (Nothing Meta Float world) k n)
            (Failed Meta Float world k n) (λ u'. Ended k n) (Cycle.sample_depth Meta Float world) _
            (>>=-Runs (λ count. Knows Meta Float world (Nothing Meta Float world) k n)
              (Failed Meta Float world k n)
              (λ u'. Knows Meta Float world (Nothing Meta Float world) k n)
              (Cycle.calling Meta Float world (gets (λ s. count_pending s.table.tasks))) _
              (calling-Runs Meta Float world (Nothing Meta Float world) k n
                (λ count. Knows Meta Float world (Nothing Meta Float world) k n) _ (λ s p. p))
              (λ count s p. p))
            (λ u'.
              >>=-Runs
                (λ task. Knows Meta Float world (λ table verdicts. ClaimedTask task table) k n)
                (Failed Meta Float world k n) (λ u''. Ended k n) (Cycle.claim_task Meta Float world)
                (Cycle.serve Meta Float world) (claim-Runs Meta Float world k n)
                (λ task. serve-Runs task k n)))

  absorbed-Runs :
      (e : VerifyError) (k n : ℕ)
      → Runs
          (Failed Meta Float world k n e)
          (Cycle.absorbed Meta Float world e)
          (Either (λ u. Ended k n) (λ e'. λ s. ⊥))
  absorbed-Runs repository_error k n = λ s (r, (t, f, e, l)). (t, inl (omega arith))
  absorbed-Runs verifier_unreachable k n = λ s (r, p). cc r

  returned :
      (k n : ℕ) (r : Result VerifyError (Unit {0}) × (St Meta Float world))
      → Either (λ u. Ended k n) (λ e s. ⊥) r.0 r.1
      → (r.0 ≡ ok tt) × Ended k n r.1
  returned k n (ok u, s) h = (refl, h)
  returned k n (err e, s) h = absurd h

  -- A cycle never raises, whatever fails. It keeps the table well formed and truthful: a task is
  -- done only if a verdict on its file was recorded. And it does not spin: it has slept once, or it
  -- has recorded a verdict.
  pub run_verification_cycle-Ended :
      (s : (St Meta Float world))
      → IsTruthful s.table s.verdicts
      → ((run_verification_cycle Meta Float world s).0 ≡ ok tt)
        × Ended s.sleeps (length s.verdicts) (run_verification_cycle Meta Float world s).1
  unfolding run_verification_cycle
  run_verification_cycle-Ended s t =
      returned s.sleeps (length s.verdicts)
        (catch (Cycle.body Meta Float world) (Cycle.absorbed Meta Float world) s)
        (catch-Runs (λ u. Ended s.sleeps (length s.verdicts))
          (Failed Meta Float world s.sleeps (length s.verdicts)) (λ e s. ⊥)
          (Cycle.body Meta Float world) (Cycle.absorbed Meta Float world)
          (body-Runs s.sleeps (length s.verdicts))
          (λ e. absorbed-Runs e s.sleeps (length s.verdicts)) s (t, tt, refl, omega arith))
