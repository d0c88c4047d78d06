-- ===== src/Search/Worker.antt =====
-- search_worker.py: the class SearchWorker.
pub mod Searching
pub mod Searched
pub mod Ending
pub mod Polling
pub mod Overflow
mod Tests
use emule_indexer.Common.{
  ℕ, zero, suc, ◌+◌, Bool, true, false, ◌++◌, Option, none, some, List, [], ◌∷◌, Result, ok, err,
  leb, length, if◌then◌else◌,
}
use emule_indexer.Common.Effects.{
  Exec, ◌>>=◌, ◌>>◌, pure, raise, gets, modify, catch, continue_with,
}
use emule_indexer.Common.Text.{Str, codes}
use emule_indexer.Common.Dict.{Dict}
use emule_indexer.Matching.Library.{Library}
use emule_indexer.Observability.Policy.{Event, search_executed, instance_unreachable, search_failed}
use emule_indexer.Search.Tasks.{SearchChannel, global, kad, SearchTask, network_label}
use emule_indexer.Search.Backoff.{
  Timing, ChannelBackoff, WorkerPolicy, is_in_backoff, record_failure, pop,
}
use emule_indexer.Search.World
use emule_indexer.Search.World.{
  FileObservation, WorkerError, mule_unreachable, mule_search_failed, repository_error,
  overflow_error, MuleError, State, Action, ask, emit,
}
use emule_indexer.Search.Observing.{record_observation}

-- `f"{instance}:{channel}"`
abbrev pub channel_text : SearchChannel → Str
channel_text global = codes "global"
channel_text kad = codes "kad"

abbrev pub channel_key : Str → SearchChannel → Str
channel_key instance_name channel = instance_name ++ (0x3A ∷ channel_text channel)

module _ (lib : Library) (t : Timing lib.Float) (policy : WorkerPolicy lib.Float)
    (world : World.World lib t) (instance_name : Str) where
  abbrev pub mule_error : MuleError → WorkerError
  mule_error World.unreachable = mule_unreachable
  mule_error World.search_failed = mule_search_failed

  -- An answer of the client, or what it raises.
  abbrev pub answer : {A : Type 0} → Result MuleError A → Action lib A
  answer (ok a) = pure a
  answer (err e) = raise (mule_error e)

  abbrev pub set_backoff : Option (lib.Float × Dict ChannelBackoff) → Action lib (Unit {0})
  set_backoff none = raise overflow_error
  set_backoff (some (delay, states)) = modify (λ s. record s { backoff = states })

  -- `self._deps.backoff.record_failure(key)`; its delay is for the log.
  unfoldable pub fail : Str → Action lib (Unit {0})
  fail key = do
    jitter ← ask lib world.jitter
    now ← ask lib world.now
    states ← gets (λ s. s.backoff)
    set_backoff (record_failure t policy now jitter key states)

  unfoldable pub reset : Str → Action lib (Unit {0})
  reset key = modify (λ s. record s { backoff = pop key s.backoff })

  -- `is_in_backoff`, at the time that it asks for.
  unfoldable pub in_backoff : Str → Action lib Bool
  in_backoff key = do
    now ← ask lib world.now
    states ← gets (λ s. s.backoff)
    pure (is_in_backoff t now key states)

  abbrev pub or_channel : SearchChannel → Bool → Action lib Bool
  or_channel channel true = pure true
  or_channel channel false = in_backoff (channel_key instance_name channel)

  unfoldable pub is_blocked_for : SearchTask → Action lib Bool
  unfolding in_backoff
  is_blocked_for task = in_backoff instance_name >>= or_channel task.channel

  -- `_ensure_connected`, from the answer of the daemon on.
  abbrev pub connected_now : Bool → Action lib Bool
  connected_now false = do
    fail instance_name
    emit lib (instance_unreachable instance_name)
    pure false
  connected_now true = do
    modify (λ s. record s { connected = true })
    reset instance_name
    pure true

  abbrev pub connect_unless : Bool → Action lib Bool
  connect_unless true = pure true
  connect_unless false = ask lib world.connects >>= connected_now

  unfoldable pub ensure_connected : Action lib Bool
  unfolding fail reset
  ensure_connected = gets (λ s. s.connected) >>= connect_unless

  -- `progress is not None and progress >= _PROGRESS_DONE`
  abbrev pub is_done : Option ℕ → Bool
  is_done none = false
  is_done (some progress) = leb 100 progress

  -- The `while` loop, on fuel; its answer is whether it came to its end.
  unfoldable pub poll : ℕ → lib.Float → Action lib Bool
  poll zero waited = pure false
  poll (suc fuel) waited =
      let wait = poll fuel (t.plus waited policy.poll_interval_seconds) in
      if t.less waited policy.poll_budget_seconds
      then (do
        progress ← ask lib world.search_progress >>= answer
        if is_done progress then pure true else wait)
      else pure true

  -- The loop over the results; `changed` counts the verdicts that were written.
  unfoldable pub record_each : Str → List FileObservation → ℕ → Action lib ℕ
  record_each network [] changed = pure changed
  record_each network (o ∷ observations) changed = do
    new ← record_observation lib t world network o
    record_each network observations (if new then changed + 1 else changed)

  unfoldable pub poll_then_fetch : ℕ → SearchChannel → Action lib ℕ
  unfolding poll record_each
  poll_then_fetch fuel channel = do
    ended ← poll fuel t.zero_seconds
    results ← ask lib world.fetch_results >>= answer
    emit lib (search_executed (network_label channel) (length results))
    record_each (network_label channel) results 0

  -- The `try` of `run_task`.
  abbrev pub search : ℕ → SearchTask → Action lib ℕ
  search fuel task = do
    _ ← ask lib (λ n. world.start_search n task.keyword task.channel) >>= answer
    poll_then_fetch fuel task.channel

  -- Its two `except` clauses, and what follows a search that went well.
  abbrev pub after_search : SearchTask → Result WorkerError ℕ → Action lib (Unit {0})
  after_search task (ok changed) = reset (channel_key instance_name task.channel)
  after_search task (err mule_search_failed) = do
    fail (channel_key instance_name task.channel)
    emit lib (search_failed instance_name (network_label task.channel))
  after_search task (err mule_unreachable) = do
    modify (λ s. record s { connected = false })
    fail instance_name
    emit lib (instance_unreachable instance_name)
  after_search task (err repository_error) = raise repository_error
  after_search task (err overflow_error) = raise overflow_error

  abbrev pub attempt : {A : Type 0} → Action lib A → Action lib (Result WorkerError A)
  attempt m s = let (r, s') = m s in (ok r, s')

  abbrev pub search_if : ℕ → SearchTask → Bool → Action lib (Unit {0})
  search_if fuel task false = pure tt
  search_if fuel task true = attempt (search fuel task) >>= after_search task

  abbrev pub run_unless : ℕ → SearchTask → Bool → Action lib (Unit {0})
  run_unless fuel task true = pure tt
  run_unless fuel task false = ensure_connected >>= search_if fuel task

  unfoldable pub run_task : ℕ → SearchTask → Action lib (Unit {0})
  unfolding is_blocked_for ensure_connected poll_then_fetch
  run_task fuel task = is_blocked_for task >>= run_unless fuel task
