-- ===== src/Search/Worker/Ending.antt =====
-- search_worker.py: how `run_task` can end, and what it leaves in the registry.
use emule_indexer.Common.{◌≡◌, true, false, Result, ok, err}
use emule_indexer.Common.Text.{Str}
use emule_indexer.Matching.Library.{Library}
use emule_indexer.Search.Tasks.{SearchTask}
use emule_indexer.Search.Backoff.{Timing, WorkerPolicy, pop}
use emule_indexer.Search.World
use emule_indexer.Search.World.{
  FileObservation, WorkerError, mule_unreachable, mule_search_failed, repository_error,
  overflow_error, MuleError, State, Action, ask,
}
use emule_indexer.Search.Worker.Searched.{HasFailed, Searched}

module _ (lib : Library) (t : Timing lib.Float) (policy : WorkerPolicy lib.Float)
    (world : World.World lib t) (name : Str) where
  -- How a call ends: it is skipped, it does not get a connection, or it searches.
  pub data Ended (task : SearchTask) (s : State lib)
      : Result WorkerError (Unit {0}) × State lib → Type 0 where
    skipped :
        {s' : State lib}
        → s'.backoff ≡ s.backoff
        → s'.connected ≡ s.connected
        → s'.observations ≡ s.observations
        → Ended task s (ok tt, s')
    not_connected :
        {s' : State lib}
        → s.connected ≡ false
        → s'.connected ≡ false
        → HasFailed lib t policy world name name s.backoff s'.backoff
        → Ended task s (ok tt, s')
    went_on :
        {r : Result WorkerError (Unit {0}) × State lib}
        → s.connected ≡ true
        → Searched lib t policy world name task s.backoff r
        → Ended task s r
    reconnected :
        {r : Result WorkerError (Unit {0}) × State lib}
        → s.connected ≡ false
        → Searched lib t policy world name task (pop name s.backoff) r
        → Ended task s r
    no_delay : {s' : State lib} → s.connected ≡ false → Ended task s (err overflow_error, s')
