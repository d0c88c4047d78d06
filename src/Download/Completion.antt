-- ===== src/Download/Completion.antt =====
-- The first two steps of an iteration, which follow the variable `states`: the monitor and the
-- completions.
use emule_indexer.Common.{
  ℕ, refl, sym, inl, inr, Bool-cases, Option, none, some, List, [], ◌∷◌, In, Result, ok, err,
}
use emule_indexer.Common.Text.{Str}
use emule_indexer.Common.Dict.{get}
use emule_indexer.Download.Rules.{
  DownloadState, queued, downloading, completed, quarantined, failed,
}
use emule_indexer.Download.Staging.{safe_basename}
use emule_indexer.Download.World.{
  LoopError, download_completed, State, World, Exec, ◌>>=◌, ◌>>◌, gets, modify, catch,
}
use emule_indexer.Download.Table.{
  get_target_id, enqueue_verification, add_promoted, add_verification, emit, target_of,
}
use emule_indexer.Download.Cycle.{
  answered, move, monitor_entry, monitor_each, monitor, complete, promote, promote_safe, absorb,
  complete_entry, complete_each, handle_completions, known_target,
}
use emule_indexer.Download.Moves.{
  Move, starts, completes_queued, completes, quarantines, quiet, stop, one,
}
use emule_indexer.Download.Agreement.{
  Agrees, At, Sent, Moved, Moved-Agrees, move-Runs, absorb-Runs, pure-Runs, Reads, looking-Runs,
}
use emule_indexer.Download.Runs.{
  Runs, Always, >>=-Runs, catch-Runs, calling-Runs, weaken-Runs, Kept-same,
}

module _ (world : World) (targets : List (Str × Str)) (cap : ℕ) where
  monitor_entry-Runs :
      (h : Str) (current : Option DownloadState)
      → Runs cap
          (Reads world targets cap h current)
          (monitor_entry world targets cap h current)
          (Always Agrees)
  monitor_entry-Runs h none s (a, e) = (stop, a)
  monitor_entry-Runs h (some quarantined) s (a, e) = (stop, a)
  monitor_entry-Runs h (some failed) s (a, e) = (stop, a)
  monitor_entry-Runs h (some completed) s (a, e) = (stop, a)
  monitor_entry-Runs h (some downloading) s (a, e) = (stop, a)
  monitor_entry-Runs h (some queued) s (a, e) =
      weaken-Runs cap (Moved h downloading) (Always Agrees) (move world h downloading)
        (move-Runs world targets cap h queued downloading starts) (Moved-Agrees h downloading) s
        ((a, sym e), λ no. cc)

  monitor_each-Runs :
      (queue : List Str) → Runs cap Agrees (monitor_each world targets cap queue) (Always Agrees)
  unfolding monitor_each
  monitor_each-Runs [] = pure-Runs world targets cap Agrees
  monitor_each-Runs (h ∷ queue) =
      looking-Runs world targets cap h (monitor_entry world targets cap h)
        (monitor_each world targets cap queue) (monitor_entry-Runs h) (monitor_each-Runs queue)

  answered-Runs :
      {A : Type 0} (P : State → Type 0) (reply : Option A) (next : A → Exec (Unit {0}))
      → ((a : A) → Runs cap P (next a) (Always P))
      → Runs cap P (answered reply >>= next) (Always P)
  answered-Runs P none next after s p = (stop, p)
  answered-Runs P (some a) next after s p = after a s p

  pub monitor-Runs : Runs cap Agrees (monitor world targets cap) (Always Agrees)
  unfolding monitor
  monitor-Runs = answered-Runs Agrees world.download_queue _ monitor_each-Runs

  complete-Runs-move :
      (h : Str) (st : DownloadState)
      → Move st completed
      → Runs cap (At h st) (move world h completed) (Moved h completed)
  complete-Runs-move h st mv s at = move-Runs world targets cap h st completed mv s (at, λ no. cc)

  -- After the verification was asked for.
  abbrev Enqueued : Str → Result LoopError (Unit {0}) → State → Type 0
  Enqueued h (ok a) s = At h completed s × Sent h s
  Enqueued h (err e) s = Agrees s

  enqueue-Runs :
      (h : Str)
      → Runs cap
          (λ s. At h completed s × In h s.promoted)
          (enqueue_verification world h)
          (Enqueued h)
  unfolding enqueue_verification
  enqueue-Runs h =
      calling-Runs cap world (Enqueued h) (modify (add_verification h)) (λ s p. p.0.0)
        (λ s p. (one (quiet refl (λ x m. m, λ x m. inr m)), (p.0, (p.1, inl refl))))

  get_target_id-Runs : (h : Str) → Runs cap Agrees (get_target_id world h) (Always Agrees)
  unfolding get_target_id
  get_target_id-Runs h =
      calling-Runs cap world (Always Agrees) (gets (λ s. target_of world (get h s.downloads)))
        (λ s a. a) (λ s a. (stop, a))

  -- The rest of a promotion, from its end.
  reported : Str → Exec (Unit {0})
  reported h =
      get_target_id world h >>= λ target_id. emit (download_completed (known_target target_id) h)

  reported-Runs : (h : Str) → Runs cap Agrees (reported h) (Always Agrees)
  unfolding reported
  reported-Runs h =
      >>=-Runs cap (Always Agrees) (Always Agrees) (get_target_id world h)
        (λ target_id. emit (download_completed (known_target target_id) h)) (get_target_id-Runs h)
        (λ id s a. (one (quiet refl (Kept-same s)), a)) (λ e t a. a)

  moved_in-Runs :
      (h : Str)
      → Runs cap (Enqueued h (ok tt)) (move world h quarantined >> reported h) (Always Agrees)
  moved_in-Runs h =
      >>=-Runs cap (Always Agrees) (Always Agrees) (move world h quarantined) (λ _. reported h)
        (λ s p.
          weaken-Runs cap (Moved h quarantined) (Always Agrees) (move world h quarantined)
            (move-Runs world targets cap h completed quarantined quarantines)
            (Moved-Agrees h quarantined) s (p.0, λ _. p.1))
        (λ _. reported-Runs h) (λ e t a. a)

  enqueued-Runs :
      (h : Str)
      → Runs cap
          (λ s. At h completed s × In h s.promoted)
          (enqueue_verification world h >> (move world h quarantined >> reported h))
          (Always Agrees)
  enqueued-Runs h =
      >>=-Runs cap (Enqueued h) (Always Agrees) (enqueue_verification world h)
        (λ _. move world h quarantined >> reported h) (enqueue-Runs h) (λ _. moved_in-Runs h)
        (λ e t a. a)

  promote-Runs :
      (h safe : Str) → Runs cap (At h completed) (promote world targets cap h safe) (Always Agrees)
  unfolding reported
  promote-Runs h safe = elim (Bool-cases (world.promotes safe h)) [
    | inr refused ↦ rw refused (λ s at. (one (quiet refl (Kept-same s)), at.0))
    | inl promoted ↦ rw promoted (
        >>=-Runs cap (λ r s. At h completed s × In h s.promoted) (Always Agrees)
          (modify (add_promoted h))
          (λ _. enqueue_verification world h >> (move world h quarantined >> reported h))
          (λ s at. (one (quiet refl (λ x m. inr m, λ x m. m)), (at, inl refl)))
          (λ _. enqueued-Runs h) (λ e t p. p.0.0))
  ]

  promote_safe-Runs :
      (h : Str) (st : DownloadState) (safe : Option Str)
      → Runs cap (At h st) (complete world targets cap h st) (Moved h completed)
      → Runs cap (At h st) (promote_safe world targets cap h st safe) (Always Agrees)
  promote_safe-Runs h st none first = λ s at. (stop, at.0)
  promote_safe-Runs h st (some safe) first =
      >>=-Runs cap (Moved h completed) (Always Agrees) (complete world targets cap h st)
        (λ _. promote world targets cap h safe) first (λ _. promote-Runs h safe) (λ e t a. a)

  caught-Runs :
      (h name : Str) (st : DownloadState)
      → Runs cap (At h st) (complete world targets cap h st) (Moved h completed)
      → Runs cap
          (Reads world targets cap h (some st))
          (catch (promote_safe world targets cap h st (safe_basename name)) absorb)
          (Always Agrees)
  caught-Runs h name st first s (a, e) =
      catch-Runs cap (Always Agrees) (Always Agrees)
        (promote_safe world targets cap h st (safe_basename name)) absorb
        (promote_safe-Runs h st (safe_basename name) first) (λ _ t p. p)
        (absorb-Runs world targets cap Agrees) s (a, sym e)

  complete_entry-Runs :
      (h name : Str) (current : Option DownloadState)
      → Runs cap
          (Reads world targets cap h current)
          (complete_entry world targets cap h name current)
          (Always Agrees)
  complete_entry-Runs h name none = λ s (a, e). (stop, a)
  complete_entry-Runs h name (some quarantined) = λ s (a, e). (stop, a)
  complete_entry-Runs h name (some failed) = λ s (a, e). (stop, a)
  complete_entry-Runs h name (some completed) = caught-Runs h name completed (λ s at. (stop, at))
  complete_entry-Runs h name (some downloading) =
      caught-Runs h name downloading (complete-Runs-move h downloading completes)
  complete_entry-Runs h name (some queued) =
      caught-Runs h name queued (complete-Runs-move h queued completes_queued)

  complete_each-Runs :
      (shared : List (Str × Str))
      → Runs cap Agrees (complete_each world targets cap shared) (Always Agrees)
  unfolding complete_each
  complete_each-Runs [] = pure-Runs world targets cap Agrees
  complete_each-Runs ((h, name) ∷ shared) =
      looking-Runs world targets cap h (complete_entry world targets cap h name)
        (complete_each world targets cap shared) (complete_entry-Runs h name)
        (complete_each-Runs shared)

  pub handle_completions-Runs :
      Runs cap Agrees (handle_completions world targets cap) (Always Agrees)
  unfolding handle_completions
  handle_completions-Runs = answered-Runs Agrees world.shared_files _ complete_each-Runs
