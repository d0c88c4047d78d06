-- ===== src/Search/Verdicts.antt =====
-- record_observations.py: a verdict is written exactly when it changes.
use emule_indexer.Common.{
  ◌≡◌, refl, ◌⊎◌, inl, inr, Bool, true, false, Option, none, some, List, [], ◌∷◌, Result, ok,
  Bool-cases,
}
use emule_indexer.Common.Effects.{handled, continue_with, catch}
use emule_indexer.Common.Text.{Str}
use emule_indexer.Matching.Library.{Library}
use emule_indexer.Matching.Engine.{MatchDecision, to_record}
use emule_indexer.Search.Backoff.{Timing}
use emule_indexer.Search.World.{FileObservation, WorkerError, State, World, count_call}
use emule_indexer.Search.Observing.{
  is_download, is_record, is_canonical, to_candidate, last_decision, not_recorded, write_changed,
  judge, observe, tell, record_observation,
}

module _ (lib : Library) (t : Timing lib.Float) (world : World lib t) where
  -- No decision repeats the decision before it on the same hash.
  abbrev pub Changes : List (Str × MatchDecision lib) → Type 0
  Changes [] = Unit {0}
  Changes ((hash, d) ∷ decisions) =
      (is_record (last_decision lib t world hash decisions) (to_record lib d) ≡ false)
      × Changes decisions

  -- What becomes of the decisions: nothing is written, or a verdict that differs from the last on
  -- its hash.
  data Judged (hash : Str) (v : Option (MatchDecision lib)) (s : State lib)
      : Result WorkerError (Option (MatchDecision lib)) × State lib → Type 0 where
    nothing : {s' : State lib} → s'.decisions ≡ s.decisions → Judged hash v s (ok none, s')
    verdict :
        {s' : State lib} (d : MatchDecision lib)
        → v ≡ some d
        → is_record (last_decision lib t world hash s.decisions) (to_record lib d) ≡ false
        → s'.decisions ≡ (hash, d) ∷ s.decisions
        → Judged hash v s (ok (some d), s')

  write-Judged :
      (hash : Str) (d : MatchDecision lib) (s s' : State lib) (same : Bool)
      → is_record (last_decision lib t world hash s.decisions) (to_record lib d) ≡ same
      → s'.decisions ≡ s.decisions
      → Judged hash
          (some d)
          s
          (handled (not_recorded lib t world) (write_changed lib t world hash d same s'))
  write-Judged hash d s s' true known e = nothing e
  write-Judged hash d s s' false fresh e = elim (Bool-cases (is_canonical hash)) [
    | inr bad ↦ rw bad (nothing e)
    | inl good ↦ elim (Bool-cases (world.repository_fails s'.calls)) [
      | inl fails ↦ rw (good, fails) (nothing e)
      | inr fine ↦ rw (good, fine) (verdict d refl fresh (rw e))
    ]
  ]

  judge-Judged :
      (hash : Str) (v : Option (MatchDecision lib)) (s s' : State lib)
      → s'.decisions ≡ s.decisions
      → Judged hash v s (handled (not_recorded lib t world) (judge lib t world hash v s'))
  judge-Judged hash none s s' e = nothing e
  judge-Judged hash (some d) s s' e = elim (Bool-cases (world.repository_fails s'.calls)) [
    | inl fails ↦ rw fails (nothing e)
    | inr fine ↦ rw fine (write-Judged hash d s (count_call lib s') _ (rw e) e)
  ]

  observe-Judged :
      (network : Str) (o : FileObservation) (s : State lib)
      → Judged o.ed2k_hash
          (world.evaluate (to_candidate lib t world o))
          s
          (handled (not_recorded lib t world) (observe lib t world network o s))
  unfolding observe
  observe-Judged network o s = elim (Bool-cases (is_canonical o.ed2k_hash)) [
    | inr bad ↦ rw bad (nothing refl)
    | inl good ↦ elim (Bool-cases (world.repository_fails s.calls)) [
      | inl fails ↦ rw (good, fails) (nothing refl)
      | inr fine ↦ rw (good, fine) (judge-Judged o.ed2k_hash _ s _ refl)
    ]
  ]

  -- What a call answers: whether a verdict was written.
  abbrev pub Recorded : FileObservation → State lib → Result WorkerError Bool × State lib → Type 0
  Recorded o s (r, s') =
      ((r ≡ ok false) × (s'.decisions ≡ s.decisions))
      ⊎ ((d : MatchDecision lib) × (r ≡ ok true)
          × (world.evaluate (to_candidate lib t world o) ≡ some d)
          × (is_record (last_decision lib t world o.ed2k_hash s.decisions) (to_record lib d)
              ≡ false)
          × (s'.decisions ≡ (o.ed2k_hash, d) ∷ s.decisions))

  tell-Recorded :
      (o : FileObservation) (s : State lib)
      (r : Result WorkerError (Option (MatchDecision lib)) × State lib)
      → Judged o.ed2k_hash (world.evaluate (to_candidate lib t world o)) s r
      → Recorded o s (continue_with (tell lib t world o.ed2k_hash) r)
  tell-Recorded o s r (nothing e) = inl (refl, e)
  tell-Recorded o s r (verdict d v fresh e) = elim (Bool-cases (is_download d.tier)) [
    | inl download ↦ rw download (inr (d, refl, v, fresh, e))
    | inr other ↦ rw other (inr (d, refl, v, fresh, e))
  ]

  -- A call never raises, whatever the catalogue does; it answers true exactly if it wrote a verdict,
  -- and writes one only if the engine gave it and it differs from the last verdict on the hash.
  pub record_observation-Recorded :
      (network : Str) (o : FileObservation) (s : State lib)
      → Recorded o s (record_observation lib t world network o s)
  unfolding record_observation
  record_observation-Recorded network o s =
      tell-Recorded o s (catch (observe lib t world network o) (not_recorded lib t world) s)
        (observe-Judged network o s)

  -- The decisions after a call, and the number of those that were written.
  pub Recorded-Changes :
      (o : FileObservation) (s : State lib) (r : Result WorkerError Bool) (s' : State lib)
      → Recorded o s (r, s')
      → Changes s.decisions
      → Changes s'.decisions
  Recorded-Changes o s r s' (inl (answer, e)) h = rw e h
  Recorded-Changes o s r s' (inr (d, answer, v, fresh, e)) h = rw e (fresh, h)
