-- ===== src/Search/World.antt =====
-- What a search worker keeps, and what answers it from outside.
use emule_indexer.Common.{ℕ, ◌+◌, Bool, Option, List, ◌∷◌, Result, ok}
use emule_indexer.Common.Effects.{Exec, modify}
use emule_indexer.Common.Text.{Str}
use emule_indexer.Common.Dict.{Dict}
use emule_indexer.Matching.Library.{Library}
use emule_indexer.Matching.Models.{FileCandidate}
use emule_indexer.Matching.Engine.{MatchDecision}
use emule_indexer.Observability.Policy.{Event}
use emule_indexer.Search.Tasks.{SearchChannel}
use emule_indexer.Search.Backoff.{Timing, ChannelBackoff}

-- observation.py; what the matching does not read is left out.
pub record FileObservation : Type 0 where
  pub ed2k_hash : Str
  pub filename : Str
  pub size_bytes : ℕ
  pub media_length_sec : Option ℕ
  pub bitrate_kbps : Option ℕ

-- `MuleUnreachableError`, `MuleSearchFailedError`, `RepositoryError` and `OverflowError`.
pub data WorkerError : Type 0 where
  mule_unreachable mule_search_failed repository_error overflow_error : WorkerError

-- What a client can raise.
pub data MuleError : Type 0 where
  unreachable search_failed : MuleError

module _ (lib : Library) where
  pub record State : Type 0 where
    -- the registry that the workers share
    pub backoff : Dict ChannelBackoff
    -- the client's connection
    pub connected : Bool
    -- the catalogue: observations, and decisions by hash, the latest first
    pub observations : List FileObservation
    pub decisions : List (Str × MatchDecision lib)
    pub signals : List Str
    pub events : List (Event lib.Float)
    -- how often something outside was asked
    pub calls : ℕ

  pub record World (t : Timing lib.Float) : Type 0 where
    pub now : ℕ → t.Time
    pub jitter : ℕ → lib.Float → lib.Float
    pub connects : ℕ → Bool
    pub start_search : ℕ → Str → SearchChannel → Result MuleError (Unit {0})
    pub search_progress : ℕ → Result MuleError (Option ℕ)
    pub fetch_results : ℕ → Result MuleError (List FileObservation)
    pub repository_fails : ℕ → Bool
    -- the answers of the matching engine
    pub evaluate : FileCandidate lib → Option (MatchDecision lib)

  abbrev pub Action : Type 0 → Type 0
  Action A = Exec State WorkerError A

  abbrev pub count_call : State → State
  count_call s = record s { calls = s.calls + 1 }

  -- One call that goes outside.
  abbrev pub ask : {A : Type 0} → (ℕ → A) → Action A
  ask answer s = (ok (answer s.calls), count_call s)

  abbrev pub emit : Event lib.Float → Action (Unit {0})
  emit event = modify (λ s. record s { events = event ∷ s.events })

  abbrev pub send_signal : Str → Action (Unit {0})
  send_signal subject = modify (λ s. record s { signals = subject ∷ s.signals })
