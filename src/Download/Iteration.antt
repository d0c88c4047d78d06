-- ===== src/Download/Iteration.antt =====
-- One whole iteration: every change that it makes to the table is a legal move.
use emule_indexer.Common.{
  ℕ, ◌≡◌, refl, inl, inr, Bool-cases, some, some-injective, List, [], ◌∷◌, map, In, Result,
}
use mathlib.Core.Path.{subst}
use emule_indexer.Common.Members.{Nodup}
use emule_indexer.Common.Text.{Str, str_eq, str_eq_iff}
use emule_indexer.Common.Dict.{Dict, get}
use emule_indexer.Download.World.{LoopError, State, World, Exec, ◌>>◌, gets, modify, catch}
use emule_indexer.Download.Table.{active_states, row_state, set_states}
use emule_indexer.Download.Cycle.{
  monitor, handle_completions, queue_new_candidates, add_links, read_states, absorb, run_steps,
  run_download_cycle,
}
use emule_indexer.Download.Moves.{quiet, Steps, stop, one, Steps_keep}
use emule_indexer.Download.Runs.{
  Runs, Always, OnReturn, >>=-Runs, catch-Runs, calling-Runs, weaken-Runs, Kept-same,
}
use emule_indexer.Download.Committed.{keys, Step-Nodup}
use emule_indexer.Download.Agreement.{Agrees, absorb-Runs}
use emule_indexer.Download.Completion.{monitor-Runs, handle_completions-Runs}
use emule_indexer.Download.Candidates.{queue_new_candidates-Runs}
use emule_indexer.Download.Links.{row-Says, add_links-Runs}

-- A table has one row for each hash.
abbrev pub IsTable : State → Type 0
IsTable s = Nodup (keys s.downloads)

get-In : {V : Type 0} (h : Str) (v : V) (d : Dict V) → get h d ≡ some v → In (h, v) d
unfolding get
get-In h v [] e = cc
get-In h v ((k, w) ∷ d) e = elim (Bool-cases (str_eq k h)) [
  | inl same ↦ inl (cc ((str_eq_iff k h).0 same, some-injective (rw same at e)))
  | inr other ↦ inr (get-In h v d (rw other at e))
]

module _ (world : World) (targets : List (Str × Str)) (cap : ℕ) where
  -- Whatever an action does, the table stays a table.
  IsTable-Runs :
      {A : Type 0} (P : State → Type 0) (Q : Result LoopError A → State → Type 0) (m : Exec A)
      → Runs cap P m Q
      → Runs cap (λ s. P s × IsTable s) m (Always IsTable)
  IsTable-Runs P Q m run s (p, table) =
      let (steps, q) = run s p in (steps, Steps_keep IsTable (Step-Nodup cap) table steps)

  read_states-Runs : Runs cap IsTable (read_states world targets cap) (OnReturn (λ _. Agrees))
  unfolding active_states
  read_states-Runs =
      >>=-Runs cap (OnReturn (λ items s. (items ≡ map row_state s.downloads) × IsTable s))
        (OnReturn (λ _. Agrees)) (active_states world) (λ states. modify (set_states states))
        (calling-Runs cap world
          (OnReturn (λ items s. (items ≡ map row_state s.downloads) × IsTable s))
          (gets (λ s. map row_state s.downloads)) (λ s n. tt) (λ s n. (stop, (refl, n))))
        (λ states s (e, n). (
          one (quiet refl (Kept-same s)),
          λ h st known.
              row-Says s.downloads h st n
                (subst (λ items. In (h, st) items) e (get-In h st states known)),
        ))
        (λ e t _. tt)

  -- A step of the iteration that may raise, and what is done then.
  guarded-Runs :
      (m : Exec (Unit {0}))
      → Runs cap IsTable m (Always IsTable)
      → Runs cap IsTable (catch m absorb) (Always IsTable)
  guarded-Runs m run =
      catch-Runs cap (Always IsTable) (Always IsTable) m absorb run (λ _ t p. p)
        (λ e. absorb-Runs world targets cap IsTable e)

  unconditional :
      (m : Exec (Unit {0})) (Q : Result LoopError (Unit {0}) → State → Type 0)
      → Runs cap IsTable m Q
      → Runs cap IsTable m (Always IsTable)
  unconditional m Q run s table = IsTable-Runs IsTable Q m run s (table, table)

  followed-Runs :
      (m : Exec (Unit {0}))
      → Runs cap Agrees m (Always Agrees)
      → Runs cap IsTable (catch (read_states world targets cap >> m) absorb) (Always IsTable)
  followed-Runs m run = guarded-Runs (read_states world targets cap >> m) (
      unconditional (read_states world targets cap >> m) (Always (λ s. Unit {0})) (
        >>=-Runs cap (OnReturn (λ _. Agrees)) (Always (λ s. Unit {0}))
          (read_states world targets cap) (λ _. m) read_states-Runs
          (λ _. weaken-Runs cap (Always Agrees) (Always (λ s. Unit {0})) m run (λ r t a. tt))
          (λ e t _. tt)))

  run_steps-Runs : Runs cap IsTable (run_steps world targets cap) (Always IsTable)
  unfolding run_steps
  run_steps-Runs =
      >>=-Runs cap (Always IsTable) (Always IsTable)
        (catch (read_states world targets cap >> monitor world targets cap) absorb) _
        (followed-Runs (monitor world targets cap) (monitor-Runs world targets cap))
        (λ _.
          >>=-Runs cap (Always IsTable) (Always IsTable)
            (catch (read_states world targets cap >> handle_completions world targets cap) absorb) _
            (followed-Runs (handle_completions world targets cap)
              (handle_completions-Runs world targets cap))
            (λ _.
              >>=-Runs cap (Always IsTable) (Always IsTable)
                (catch (queue_new_candidates world targets cap) absorb) _
                (guarded-Runs (queue_new_candidates world targets cap) (
                  unconditional (queue_new_candidates world targets cap) (Always (λ s. Unit {0}))
                    (λ s table. queue_new_candidates-Runs world targets cap s tt)))
                (λ _. guarded-Runs (add_links world targets cap) (
                  unconditional (add_links world targets cap) (Always (λ s. Unit {0}))
                    (add_links-Runs world targets cap)))
                (λ e t p. p))
            (λ e t p. p))
        (λ e t p. p)

  -- Whatever amuled, the disk and the repositories answer, an iteration changes the table by legal
  -- moves only, and leaves it a table.
  pub run_download_cycle-Steps :
      (s : State)
      → IsTable s
      → Steps cap s (run_download_cycle world targets cap s)
        × IsTable (run_download_cycle world targets cap s)
  unfolding run_download_cycle
  run_download_cycle-Steps s table = run_steps-Runs s table
