-- ===== src/Search/Observing.antt =====
-- record_observations.py, with what it calls of catalog_repository.py.
use emule_indexer.Common.{
  ℕ, Bool, true, false, ◌&&◌, Option, none, some, List, [], ◌∷◌, if◌then◌else◌, ◌==◌, ◌||◌, leb,
  length, all,
}
use emule_indexer.Common.Effects.{◌>>=◌, ◌>>◌, pure, raise, gets, modify, catch}
use emule_indexer.Common.Text.{Str, codes, str_eq}
use emule_indexer.Matching.Library.{Library}
use emule_indexer.Matching.Models.{FileCandidate}
use emule_indexer.Matching.Config.{Tier, catalog, notify, download, tier_rank}
use emule_indexer.Matching.Engine.{MatchDecision, DecisionRecord, to_record}
use emule_indexer.Observability.Policy.{observation_recorded, decision_recorded}
use emule_indexer.Search.Backoff.{Timing}
use emule_indexer.Search.World.{
  FileObservation, WorkerError, mule_unreachable, mule_search_failed, repository_error,
  overflow_error, World, Action, ask, emit, send_signal,
}

abbrev pub tier_text : Tier → Str
tier_text catalog = codes "catalog"
tier_text notify = codes "notify"
tier_text download = codes "download"

-- `==` on DecisionRecord
abbrev pub same_record : DecisionRecord → DecisionRecord → Bool
same_record a b =
    str_eq a.target_id b.target_id
    && (str_eq a.rule_name b.rule_name && (tier_rank a.tier == tier_rank b.tier))

abbrev pub is_record : Option DecisionRecord → DecisionRecord → Bool
is_record none fresh = false
is_record (some last) fresh = same_record last fresh

abbrev pub is_download : Tier → Bool
is_download catalog = false
is_download notify = false
is_download download = true

-- `[0-9a-f]{32}`
abbrev is_hex : ℕ → Bool
is_hex c = (leb 0x30 c && leb c 0x39) || (leb 0x61 c && leb c 0x66)

unfoldable pub is_canonical : Str → Bool
is_canonical hash = (length hash == 32) && all is_hex hash

module _ (lib : Library) (t : Timing lib.Float) (world : World lib t) where
  -- `to_candidate`
  abbrev pub float_of : Option ℕ → Option lib.Float
  float_of none = none
  float_of (some n) = some (lib.quotient n 1)

  unfoldable pub to_candidate : FileObservation → FileCandidate lib
  to_candidate o = record {
    filename = o.filename;
    size_mb = some (lib.quotient o.size_bytes 1048576);
    duration_sec = float_of o.media_length_sec;
    bitrate_kbps = float_of o.bitrate_kbps;
  }

  -- A call of the catalogue: it fails, or does its work.
  abbrev pub calling : {A : Type 0} → Action lib A → Action lib A
  calling body =
      ask lib world.repository_fails >>= λ fails. if fails then raise repository_error else body

  -- The latest decision on a hash. Decisions are ordered by their time and number: the clock of the
  -- catalogue is taken not to go back.
  unfoldable pub last_decision : Str → List (Str × MatchDecision lib) → Option DecisionRecord
  last_decision hash [] = none
  last_decision hash ((h, d) ∷ decisions) =
      if str_eq h hash then some (to_record lib d) else last_decision hash decisions

  abbrev pub record_observed : FileObservation → Action lib (Unit {0})
  record_observed o =
      if is_canonical o.ed2k_hash
      then calling (modify (λ s. record s { observations = o ∷ s.observations }))
      else raise repository_error

  abbrev pub record_decision : Str → MatchDecision lib → Action lib (Unit {0})
  record_decision hash d =
      if is_canonical hash
      then calling (modify (λ s. record s { decisions = (hash, d) ∷ s.decisions }))
      else raise repository_error

  -- The verdict that is written, if it is not the one that is known.
  abbrev pub write_changed :
      Str → MatchDecision lib → Bool → Action lib (Option (MatchDecision lib))
  write_changed hash d true = pure none
  write_changed hash d false = record_decision hash d >> pure (some d)

  abbrev pub judge : Str → Option (MatchDecision lib) → Action lib (Option (MatchDecision lib))
  judge hash none = pure none
  judge hash (some d) = do
    last ← calling (gets (λ s. last_decision hash s.decisions))
    write_changed hash d (is_record last (to_record lib d))

  -- The body of the `try`.
  unfoldable pub observe : Str → FileObservation → Action lib (Option (MatchDecision lib))
  unfolding last_decision is_canonical to_candidate
  observe network o = do
    record_observed o
    emit lib (observation_recorded network)
    judge o.ed2k_hash (world.evaluate (to_candidate o))

  -- `except RepositoryError`; any other error goes on.
  abbrev pub not_recorded : WorkerError → Action lib (Option (MatchDecision lib))
  not_recorded repository_error = pure none
  not_recorded mule_unreachable = raise mule_unreachable
  not_recorded mule_search_failed = raise mule_search_failed
  not_recorded overflow_error = raise overflow_error

  abbrev pub tell : Str → Option (MatchDecision lib) → Action lib Bool
  tell hash none = pure false
  tell hash (some d) = do
    emit lib (decision_recorded d.target_id (tier_text d.tier))
    send_signal lib hash
    if is_download d.tier then send_signal lib (codes "download") else pure tt
    pure true

  unfoldable pub record_observation : Str → FileObservation → Action lib Bool
  unfolding observe
  record_observation network o = do
    changed ← catch (observe network o) not_recorded
    tell o.ed2k_hash changed
