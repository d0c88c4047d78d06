-- ===== src/Search/Backoff.antt =====
-- backoff.py and the class BackoffRegistry of search_worker.py. Floats, times and their text are
-- parameters.
pub mod Laws
use emule_indexer.Common.{
  ℕ, ◌+◌, ◌-◌, Bool, true, false, Option, none, some, List, [], ◌∷◌, leb, if◌then◌else◌,
}
use emule_indexer.Common.Text.{Str, str_eq, str_lt}
use emule_indexer.Common.Dict.{Dict, get, put}

pub record Timing (Float : Type 0) : Type 1 where
  pub zero_seconds : Float
  -- `<` and `min`
  pub less : Float → Float → Bool
  pub minimum : Float → Float → Float
  pub plus : Float → Float → Float
  pub times : Float → Float → Float
  -- `x ** n`; `none` is an OverflowError
  pub power : Float → ℕ → Option Float
  pub Time : Type 0
  -- `now + timedelta(seconds=delay)`, and the text of a time
  pub later : Time → Float → Time
  pub iso : Time → Str

pub record ChannelBackoff : Type 0 where
  pub attempts : ℕ
  pub retry_after : Str

pub record WorkerPolicy (Float : Type 0) : Type 0 where
  pub backoff_base_seconds : Float
  pub backoff_cap_seconds : Float
  pub backoff_factor : Float
  pub backoff_jitter_ratio : Float
  pub poll_budget_seconds : Float
  pub poll_interval_seconds : Float

-- `dict.pop(key, None)`
unfoldable pub pop : {V : Type 0} → Str → Dict V → Dict V
pop key [] = []
pop key ((k, v) ∷ d) = let rest = pop key d in if str_eq k key then rest else (k, v) ∷ rest

-- The attempts of a key that has failed again.
abbrev pub next_attempts : Option ChannelBackoff → ℕ
next_attempts none = 1
next_attempts (some state) = state.attempts + 1

module _ {Float : Type 0} (t : Timing Float) where
  unfoldable pub backoff_delay : ℕ → Float → Float → Float → Option Float
  backoff_delay attempt base cap factor =
      if leb attempt 1 then some (t.minimum base cap) else (elim (t.power factor (attempt - 1)) [
        | none ↦ none
        | some p ↦ some (t.minimum (t.times base p) cap)
      ])

  abbrev pub in_future : t.Time → Option ChannelBackoff → Bool
  in_future now none = false
  in_future now (some state) = str_lt (t.iso now) state.retry_after

  unfoldable pub is_in_backoff : t.Time → Str → Dict ChannelBackoff → Bool
  is_in_backoff now key states = in_future now (get key states)

  module _ (policy : WorkerPolicy Float) where
    -- From the nominal delay on: the jitter is added, and the deadline written.
    abbrev pub write_failure :
        t.Time
        → (Float → Float)
        → Str
        → Dict ChannelBackoff
        → Option Float
        → Option (Float × Dict ChannelBackoff)
    write_failure now jitter key states none = none
    write_failure now jitter key states (some nominal) =
        let delay = t.plus nominal (jitter (t.times policy.backoff_jitter_ratio nominal)) in
        some (
          delay,
          put key
              (record {
                attempts = next_attempts (get key states);
                retry_after = t.iso (t.later now delay);
              })
              states,
        )

    -- `none` is the OverflowError of `backoff_delay`.
    unfoldable pub record_failure :
        t.Time → (Float → Float) → Str → Dict ChannelBackoff → Option (Float × Dict ChannelBackoff)
    unfolding backoff_delay
    record_failure now jitter key states = write_failure now jitter key states (
        backoff_delay (next_attempts (get key states)) policy.backoff_base_seconds
          policy.backoff_cap_seconds policy.backoff_factor)
