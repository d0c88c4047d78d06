-- ===== src/Search/Worker/Polling.antt =====
-- search_worker.py: the loop that waits for a search comes to its end.
use emule_indexer.Common.{
  ℕ, zero, suc, ◌≡◌, refl, inl, inr, Bool, true, false, Option, Result, ok, err, Bool-cases,
  if◌then◌else◌,
}
use emule_indexer.Common.Effects.{pure, continue_with}
use emule_indexer.Common.Text.{Str}
use emule_indexer.Matching.Library.{Library}
use emule_indexer.Search.Backoff.{Timing, WorkerPolicy}
use emule_indexer.Search.World
use emule_indexer.Search.World.{WorkerError, MuleError, State, Action, ask, count_call}
use emule_indexer.Search.Worker.{answer, is_done, poll}

module _ (lib : Library) (t : Timing lib.Float) (policy : WorkerPolicy lib.Float) where
  -- What was waited after `n` more intervals.
  abbrev pub waited_after : ℕ → lib.Float → lib.Float
  waited_after zero waited = waited
  waited_after (suc n) waited = waited_after n (t.plus waited policy.poll_interval_seconds)

module _ (lib : Library) (t : Timing lib.Float) (policy : WorkerPolicy lib.Float)
    (world : World.World lib t) (name : Str) where
  -- The loop has not run out of fuel.
  abbrev pub CameToEnd : Result WorkerError Bool → Type 0
  CameToEnd (ok ended) = ended ≡ true
  CameToEnd (err e) = Unit {0}

  answered-CameToEnd :
      (r : Result MuleError (Option ℕ)) (wait : Action lib Bool) (s : State lib)
      → CameToEnd (wait s).0
      → CameToEnd
          (continue_with
            (λ p. if is_done lib t policy world name p then pure true else wait)
            (answer lib t policy world name r s)).0
  answered-CameToEnd (err e) wait s h = tt
  answered-CameToEnd (ok p) wait s h = elim (Bool-cases (is_done lib t policy world name p)) [
    | inl done ↦ rw done refl
    | inr more ↦ rw more h
  ]

  -- If the budget is used up after `n` intervals, the loop asks for the progress at most `n` times:
  -- with more than `n` steps it ends by its test, by a search that is done, or by an error.
  pub poll-CameToEnd :
      (n : ℕ) (waited : lib.Float) (s : State lib)
      → t.less (waited_after lib t policy n waited) policy.poll_budget_seconds ≡ false
      → CameToEnd (poll lib t policy world name (suc n) waited s).0
  unfolding poll
  poll-CameToEnd zero waited s over = rw over refl
  poll-CameToEnd (suc n) waited s over =
      elim (Bool-cases (t.less waited policy.poll_budget_seconds)) [
        | inr stop ↦ rw stop refl
        | inl go ↦ rw go (
            answered-CameToEnd (world.search_progress s.calls)
              (poll lib t policy world name (suc n) (t.plus waited policy.poll_interval_seconds))
              (count_call lib s)
              (poll-CameToEnd n (t.plus waited policy.poll_interval_seconds) (count_call lib s)
                over))
      ]
