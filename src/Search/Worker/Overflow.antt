-- ===== src/Search/Worker/Overflow.antt =====
-- search_worker.py: the one error that `run_task` lets through.
use emule_indexer.Common.{ℕ, ◌+◌, ◌-◌, ◌<◌, ◌≡◌, false, none, some, err, lt→leb_false, arith}
use emule_indexer.Common.Text.{Str}
use emule_indexer.Common.Dict.{get}
use emule_indexer.Matching.Library.{Library}
use emule_indexer.Search.Tasks.{SearchTask}
use emule_indexer.Search.Backoff.{
  Timing, WorkerPolicy, ChannelBackoff, is_in_backoff, backoff_delay, record_failure,
}
use emule_indexer.Search.World
use emule_indexer.Search.World.{overflow_error, State}
use emule_indexer.Search.Worker.{channel_key, fail, in_backoff, ensure_connected, run_task}

module _ (lib : Library) (t : Timing lib.Float) (policy : WorkerPolicy lib.Float) where
  backoff_delay_overflow :
      (n : ℕ)
      → 0 < n
      → t.power policy.backoff_factor n ≡ none
      → backoff_delay t
          (n + 1)
          policy.backoff_base_seconds
          policy.backoff_cap_seconds
          policy.backoff_factor
        ≡ none
  unfolding backoff_delay
  backoff_delay_overflow n positive e =
      let less : n + 1 - 1 ≡ n = omega arith in rw (lt→leb_false 1 (n + 1) (omega arith), less, e)

  module _ (world : World.World lib t) (name : Str) where
    -- An instance that has failed `n` times in a row and fails again raises an OverflowError out of
    -- the call, when its factor to the power of `n` is no float, whatever the cap is.
    pub run_task_overflow :
        (fuel : ℕ) (task : SearchTask) (s : State lib) (state : ChannelBackoff)
        → s.connected ≡ false
        → get name s.backoff ≡ some state
        → 0 < state.attempts
        → t.power policy.backoff_factor state.attempts ≡ none
        → is_in_backoff t (world.now s.calls) name s.backoff ≡ false
        → is_in_backoff t (world.now (s.calls + 1)) (channel_key name task.channel) s.backoff
          ≡ false
        → world.connects (s.calls + 1 + 1) ≡ false
        → (run_task lib t policy world name fuel task s).0 ≡ err overflow_error
    unfolding run_task in_backoff ensure_connected fail record_failure
    run_task_overflow fuel task s state down known failed over free channel_free refused = rw (
      free,
      channel_free,
      down,
      refused,
      known,
      backoff_delay_overflow state.attempts failed over,
    )
