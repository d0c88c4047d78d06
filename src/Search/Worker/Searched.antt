-- ===== src/Search/Worker/Searched.antt =====
-- search_worker.py: how a failure is noted, and how a search ends.
use emule_indexer.Common.{
  ℕ, ◌+◌, ◌≡◌, refl, ap, ◌∙◌, true, false, Option, none, some, Result, ok, err,
}
use emule_indexer.Common.Effects.{continue_with}
use emule_indexer.Common.Text.{Str}
use emule_indexer.Common.Dict.{Dict, get, put}
use emule_indexer.Matching.Library.{Library}
use emule_indexer.Observability.Policy.{Event}
use emule_indexer.Search.Tasks.{SearchTask}
use emule_indexer.Search.Backoff.{
  Timing, WorkerPolicy, ChannelBackoff, next_attempts, pop, backoff_delay, write_failure,
  record_failure,
}
use emule_indexer.Search.World
use emule_indexer.Search.World.{
  FileObservation, WorkerError, mule_unreachable, mule_search_failed, repository_error,
  overflow_error, MuleError, State, Action, ask, emit, count_call,
}
use emule_indexer.Search.Worker.{
  channel_key, search, fail, reset, set_backoff, after_search, search_if,
}
use emule_indexer.Search.Worker.Searching.{IsMule, Keeps, search-Quiet}
use emule_indexer.Common.Contracts.{Either}
use mathlib.Core.Path.{subst}

module _ (lib : Library) (t : Timing lib.Float) (policy : WorkerPolicy lib.Float)
    (world : World.World lib t) (name : Str) where
  -- `key` has failed once more, and nothing else is changed in the registry.
  abbrev pub HasFailed : Str → Dict ChannelBackoff → Dict ChannelBackoff → Type 0
  HasFailed key before after =
      (retry_after : Str) × (after
        ≡ put key (record { attempts = next_attempts (get key before); retry_after = retry_after })
            before)

  pub data Fails (key : Str) (s : State lib)
      : Result WorkerError (Unit {0}) × State lib → Type 0 where
    raised : {s' : State lib} → Fails key s (err overflow_error, s')
    noted :
        {s' : State lib}
        → s'.connected ≡ s.connected
        → HasFailed key s.backoff s'.backoff
        → Fails key s (ok tt, s')

  write_failure-Fails :
      (key : Str) (s s' : State lib) (now : t.Time) (jitter : lib.Float → lib.Float)
      (nominal : Option lib.Float)
      → s'.connected ≡ s.connected
      → Fails key s (
          set_backoff lib t policy world name
            (write_failure t policy now jitter key s.backoff nominal)
            s')
  write_failure-Fails key s s' now jitter none same = raised
  write_failure-Fails key s s' now jitter (some delay) same = noted same (_, refl)

  pub fail-Fails : (key : Str) (s : State lib) → Fails key s (fail lib t policy world name key s)
  unfolding fail record_failure
  fail-Fails key s =
      write_failure-Fails key s (count_call lib (count_call lib s)) (world.now (s.calls + 1))
        (world.jitter s.calls)
        (backoff_delay t (next_attempts (get key s.backoff)) policy.backoff_base_seconds
          policy.backoff_cap_seconds policy.backoff_factor)
        refl

  -- How a call ends that searches, with the registry that it finds once it is connected.
  pub data Searched (task : SearchTask) (b : Dict ChannelBackoff)
      : Result WorkerError (Unit {0}) × State lib → Type 0 where
    searched :
        {s' : State lib}
        → s'.connected ≡ true
        → s'.backoff ≡ pop (channel_key name task.channel) b
        → Searched task b (ok tt, s')
    channel_failed :
        {s' : State lib}
        → s'.connected ≡ true
        → HasFailed (channel_key name task.channel) b s'.backoff
        → Searched task b (ok tt, s')
    instance_down :
        {s' : State lib}
        → s'.connected ≡ false
        → HasFailed name b s'.backoff
        → Searched task b (ok tt, s')
    overflowed : {s' : State lib} → Searched task b (err overflow_error, s')

  channel-Searched :
      (task : SearchTask) (b : Dict ChannelBackoff) (s : State lib) (event : Event lib.Float)
      (r : Result WorkerError (Unit {0}) × State lib)
      → s.backoff ≡ b
      → s.connected ≡ true
      → Fails (channel_key name task.channel) s r
      → Searched task b (continue_with (λ u. emit lib event) r)
  channel-Searched task b s event r e c raised = overflowed
  channel-Searched task b s event r e c (noted {s'} same failed) =
      channel_failed (same ∙ c)
        (subst (λ x. HasFailed (channel_key name task.channel) x s'.backoff) e failed)

  instance-Searched :
      (task : SearchTask) (b : Dict ChannelBackoff) (s : State lib) (event : Event lib.Float)
      (r : Result WorkerError (Unit {0}) × State lib)
      → s.backoff ≡ b
      → s.connected ≡ false
      → Fails name s r
      → Searched task b (continue_with (λ u. emit lib event) r)
  instance-Searched task b s event r e c raised = overflowed
  instance-Searched task b s event r e c (noted {s'} same failed) =
      instance_down (same ∙ c) (subst (λ x. HasFailed name x s'.backoff) e failed)

  after_search-Searched :
      (task : SearchTask) (b : Dict ChannelBackoff) (r : Result WorkerError ℕ) (s : State lib)
      → Either (λ changed. Keeps lib b true) (λ e s. IsMule e × Keeps lib b true s) r s
      → Searched task b (after_search lib t policy world name task r s)
  unfolding reset
  after_search-Searched task b (ok changed) s (e, c) =
      searched c (ap (λ x. pop (channel_key name task.channel) x) e)
  after_search-Searched task b (err mule_search_failed) s (m, (e, c)) =
      channel-Searched task b s _ _ e c (fail-Fails (channel_key name task.channel) s)
  after_search-Searched task b (err mule_unreachable) s (m, (e, c)) =
      instance-Searched task b (record s { connected = false }) _ _ e refl
        (fail-Fails name (record s { connected = false }))
  after_search-Searched task b (err repository_error) s (m, p) = absurd m
  after_search-Searched task b (err overflow_error) s (m, p) = absurd m

  pub search-Searched :
      (fuel : ℕ) (task : SearchTask) (s : State lib)
      → s.connected ≡ true
      → Searched task s.backoff (search_if lib t policy world name fuel task true s)
  search-Searched fuel task s c =
      after_search-Searched task s.backoff (search lib t policy world name fuel task s).0
        (search lib t policy world name fuel task s).1
        (search-Quiet lib s.backoff true t world policy name fuel task s (refl, c))
