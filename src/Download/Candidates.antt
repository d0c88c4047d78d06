-- ===== src/Download/Candidates.antt =====
-- The third step of an iteration queues only what fits under the cap.
use emule_indexer.Common.{
  ℕ, ◌+◌, ◌≤◌, ◌≡◌, refl, inl, inr, Bool, true, false, Bool-cases, Option, none, some, List, [],
  ◌∷◌, Result, arith,
}
use emule_indexer.Common.Text.{Str, codes}
use emule_indexer.Common.Dict.{get}
use emule_indexer.Download.Rules.{
  queued, is_terminal, DownloadVerdict, download, skip_complete, skip_dedup, skip_disk_cap,
  download_policy, download_policy_iff,
}
use emule_indexer.Download.World.{
  Download, download_queued, LoopError, State, World, ◌>>=◌, ◌>>◌, pure, gets,
}
use emule_indexer.Download.Table.{
  committed, record_queued, is_downloaded, committed_bytes, is_some, emit,
}
use emule_indexer.Download.Cycle.{
  last_observation, download_decisions, queue_candidate, observed_candidate, new_candidate,
  queue_each, queue_new_candidates, target_status,
}
use emule_indexer.Download.Moves.{quiet, queues, stop, one}
use emule_indexer.Download.Runs.{Runs, Always, OnReturn, >>=-Runs, calling-Runs, Kept-same}
use emule_indexer.Download.Committed.{committed-put_new}

-- The variable `committed` of the loop is what the table says.
abbrev Counts : ℕ → State → Type 0
Counts c s = committed s.downloads ≡ c

abbrev Unknown : Str → ℕ → State → Type 0
Unknown h c s = Counts c s × (get h s.downloads ≡ none)

is_some-false : {A : Type 0} (world : World) (o : Option A) → false ≡ is_some world o → o ≡ none
is_some-false world none e = refl
is_some-false world (some a) e = cc

module _ (world : World) (targets : List (Str × Str)) (cap : ℕ) where
  record_queued-Runs :
      (h target_id : Str) (size c : ℕ)
      → c + size ≤ cap
      → Runs cap
          (Unknown h c)
          (record_queued world h target_id size)
          (OnReturn (λ _. Counts (c + size)))
  unfolding record_queued is_terminal
  record_queued-Runs h target_id size c fits s (count, absent) =
      elim (Bool-cases (world.repository_fails s.repository_calls)) [
        | inl fails ↦ rw fails (one (quiet refl (Kept-same s)), tt)
        | inr called ↦
            let row : Download = record {
              target_id = target_id;
              state = queued;
              size_bytes = size;
            } in
            let sum = committed-put_new h row s.downloads absent in
            rw (called, absent)
              (
                one (queues h row absent refl (omega (arith, count, fits)) refl (Kept-same s)),
                omega (arith, sum, count),
              )
      ]

  queue_candidate-Runs :
      (h target_id : Str) (size c : ℕ) (verdict : DownloadVerdict)
      → (verdict ≡ download → c + size ≤ cap)
      → Runs cap
          (Unknown h c)
          (queue_candidate world targets cap h target_id size c verdict)
          (OnReturn (λ c'. Counts c'))
  queue_candidate-Runs h target_id size c download fits =
      >>=-Runs cap (OnReturn (λ _. Counts (c + size))) (OnReturn (λ c'. Counts c'))
        (record_queued world h target_id size)
        (λ _. emit (download_queued target_id) >> pure (c + size))
        (record_queued-Runs h target_id size c (fits refl))
        (λ _ s count. (one (quiet refl (Kept-same s)), count)) (λ e t _. tt)
  queue_candidate-Runs h target_id size c skip_complete fits = λ s p. (stop, p.0)
  queue_candidate-Runs h target_id size c skip_dedup fits = λ s p. (stop, p.0)
  queue_candidate-Runs h target_id size c skip_disk_cap fits = λ s p. (stop, p.0)

  observed_candidate-Runs :
      (h target_id : Str) (c : ℕ) (seen : Option (Str × ℕ))
      → Runs cap
          (Unknown h c)
          (observed_candidate world targets cap h target_id c seen)
          (OnReturn (λ c'. Counts c'))
  observed_candidate-Runs h target_id c none = λ s p. (stop, p.0)
  observed_candidate-Runs h target_id c (some (filename, size)) =
      let status = target_status targets target_id in
      queue_candidate-Runs h target_id size c
        (download_policy (codes "download") status false c size cap)
        (λ e. ((download_policy_iff (codes "download") status false c size cap).0 e).1.1.1)

  last_observation-Runs :
      (h : Str) (c : ℕ)
      → Runs cap (Unknown h c) (last_observation world targets cap h) (OnReturn (λ _. Unknown h c))
  last_observation-Runs h c =
      calling-Runs cap world (OnReturn (λ _. Unknown h c)) (pure (world.last_observation h))
        (λ s p. tt) (λ s p. (stop, p))

  new_candidate-Runs :
      (h target_id : Str) (c : ℕ) (known : Bool)
      → Runs cap
          (λ s. Counts c s × (known ≡ is_some world (get h s.downloads)))
          (new_candidate world targets cap h target_id c known)
          (OnReturn (λ c'. Counts c'))
  new_candidate-Runs h target_id c true = λ s p. (stop, p.0)
  new_candidate-Runs h target_id c false = λ s (count, e).
      >>=-Runs cap (OnReturn (λ _. Unknown h c)) (OnReturn (λ c'. Counts c'))
        (last_observation world targets cap h)
        (λ seen. observed_candidate world targets cap h target_id c seen)
        (last_observation-Runs h c) (λ seen. observed_candidate-Runs h target_id c seen)
        (λ e t _. tt) s (count, is_some-false world (get h s.downloads) e)

  is_downloaded-Runs :
      (h : Str) (c : ℕ)
      → Runs cap
          (Counts c)
          (is_downloaded world h)
          (OnReturn (λ known s. Counts c s × (known ≡ is_some world (get h s.downloads))))
  unfolding is_downloaded
  is_downloaded-Runs h c =
      calling-Runs cap world
        (OnReturn (λ known s. Counts c s × (known ≡ is_some world (get h s.downloads))))
        (gets (λ s. is_some world (get h s.downloads))) (λ s p. tt) (λ s p. (stop, (p, refl)))

  -- Nothing is said of the state.
  abbrev Done : Result LoopError (Unit {0}) → State → Type 0
  Done = Always (λ s. Unit {0})

  queue_each-Runs :
      (candidates : List (Str × Str)) (c : ℕ)
      → Runs cap (Counts c) (queue_each world targets cap candidates c) Done
  unfolding queue_each
  queue_each-Runs [] c = λ s p. (stop, tt)
  queue_each-Runs ((h, target_id) ∷ candidates) c =
      >>=-Runs cap (OnReturn (λ known s. Counts c s × (known ≡ is_some world (get h s.downloads))))
        Done (is_downloaded world h)
        (λ known. new_candidate world targets cap h target_id c known >>= λ c'.
          queue_each world targets cap candidates c')
        (is_downloaded-Runs h c)
        (λ known.
          >>=-Runs cap (OnReturn (λ c'. Counts c')) Done
            (new_candidate world targets cap h target_id c known)
            (λ c'. queue_each world targets cap candidates c')
            (new_candidate-Runs h target_id c known) (λ c'. queue_each-Runs candidates c')
            (λ e t _. tt))
        (λ e t _. tt)

  pub queue_new_candidates-Runs :
      Runs cap (λ s. Unit {0}) (queue_new_candidates world targets cap) Done
  unfolding queue_new_candidates committed_bytes
  queue_new_candidates-Runs =
      >>=-Runs cap (OnReturn (λ c. Counts c)) Done (committed_bytes world)
        (λ c. download_decisions world targets cap >>= λ candidates.
          queue_each world targets cap candidates c)
        (calling-Runs cap world (OnReturn (λ c. Counts c)) (gets (λ s. committed s.downloads))
          (λ s p. tt) (λ s p. (stop, refl)))
        (λ c.
          >>=-Runs cap (OnReturn (λ _. Counts c)) Done (download_decisions world targets cap)
            (λ candidates. queue_each world targets cap candidates c)
            (calling-Runs cap world (OnReturn (λ _. Counts c)) (pure world.download_decisions)
              (λ s p. tt) (λ s p. (stop, p)))
            (λ candidates. queue_each-Runs candidates c) (λ e t _. tt))
        (λ e t _. tt)
