-- ===== src/Search/Worker/Searching.antt =====
-- search_worker.py: a search leaves the registry and the connection alone, and what it raises comes
-- from the client.
use emule_indexer.Common.{
  ℕ, zero, suc, ◌+◌, ◌≡◌, refl, inl, inr, Bool, true, false, Option, none, some, List, [], ◌∷◌,
  Result, ok, err, Bool-cases, if◌then◌else◌, length,
}
use emule_indexer.Common.Effects.{◌>>=◌, ◌>>◌, pure, raise, gets, modify, catch}
use emule_indexer.Common.Contracts.{Runs, Either, >>=-Runs, catch-Runs, if-Runs}
use emule_indexer.Common.Text.{Str}
use emule_indexer.Common.Dict.{Dict}
use emule_indexer.Matching.Library.{Library}
use emule_indexer.Matching.Engine.{MatchDecision, to_record}
use emule_indexer.Observability.Policy.{observation_recorded, search_executed}
use emule_indexer.Search.Tasks.{network_label, SearchChannel, SearchTask}
use emule_indexer.Search.Backoff.{Timing, WorkerPolicy, ChannelBackoff}
use emule_indexer.Search.World
use emule_indexer.Search.World.{
  FileObservation, WorkerError, mule_unreachable, mule_search_failed, repository_error,
  overflow_error, MuleError, State, Action, ask, emit,
}
use emule_indexer.Search.Observing.{
  is_download, is_canonical, is_record, calling, record_observed, record_decision, write_changed,
  judge, observe, not_recorded, tell, record_observation, last_decision, to_candidate,
}
use emule_indexer.Search.Worker.{answer, is_done, poll, record_each, poll_then_fetch, search}

-- An error of the client.
abbrev pub IsMule : WorkerError → Type 0
IsMule mule_unreachable = Unit {0}
IsMule mule_search_failed = Unit {0}
IsMule repository_error = ⊥
IsMule overflow_error = ⊥

module _ (lib : Library) (b : Dict ChannelBackoff) (c : Bool) where
  -- The registry and the connection are these.
  abbrev pub Keeps : State lib → Type 0
  Keeps s = (s.backoff ≡ b) × (s.connected ≡ c)

  -- An action that keeps them, and what it may raise.
  abbrev pub Quiet : {A : Type 0} → (WorkerError → Type 0) → Action lib A → Type 0
  Quiet P m = Runs Keeps m (Either (λ a. Keeps) (λ e s. P e × Keeps s))

  >>=-Quiet :
      {A B : Type 0} (P : WorkerError → Type 0) (m : Action lib A) (next : A → Action lib B)
      → Quiet P m
      → ((a : A) → Quiet P (next a))
      → Quiet P (m >>= next)
  >>=-Quiet P m next = >>=-Runs (λ a. Keeps) (λ e s. P e × Keeps s) (λ a. Keeps) m next

  if-Quiet :
      {A : Type 0} (P : WorkerError → Type 0) (test : Bool) (m n : Action lib A)
      → Quiet P m
      → Quiet P n
      → Quiet P (if test then m else n)
  if-Quiet P test m n = if-Runs (Either (λ a. Keeps) (λ e s. P e × Keeps s)) test m n

  abbrev IsRepository : WorkerError → Type 0
  IsRepository e = e ≡ repository_error

  module _ (t : Timing lib.Float) (world : World.World lib t) where
    calling-Quiet :
        {A : Type 0} (body : Action lib A)
        → Quiet IsRepository body
        → Quiet IsRepository (calling lib t world body)
    calling-Quiet body k =
        >>=-Quiet IsRepository (ask lib world.repository_fails)
          (λ fails. if fails then raise repository_error else body) (λ s p. p)
          (λ fails. if-Quiet IsRepository fails (raise repository_error) body (λ s p. (refl, p)) k)

    -- A write to the catalogue.
    written-Quiet :
        (hash : Str) (body : Action lib (Unit {0}))
        → Quiet IsRepository body
        → Quiet IsRepository
            (if is_canonical hash then calling lib t world body else raise repository_error)
    written-Quiet hash body k =
        if-Quiet IsRepository (is_canonical hash) (calling lib t world body)
          (raise repository_error) (calling-Quiet body k) (λ s p. (refl, p))

    write_changed-Quiet :
        (hash : Str) (d : MatchDecision lib) (same : Bool)
        → Quiet IsRepository (write_changed lib t world hash d same)
    write_changed-Quiet hash d true = λ s p. p
    write_changed-Quiet hash d false =
        >>=-Quiet IsRepository (record_decision lib t world hash d) (λ u. pure (some d))
          (written-Quiet hash (modify (λ s. record s { decisions = (hash, d) ∷ s.decisions }))
            (λ s p. p))
          (λ u s p. p)

    judge-Quiet :
        (hash : Str) (v : Option (MatchDecision lib))
        → Quiet IsRepository (judge lib t world hash v)
    judge-Quiet hash none = λ s p. p
    judge-Quiet hash (some d) =
        >>=-Quiet IsRepository
          (calling lib t world (gets (λ s. last_decision lib t world hash s.decisions)))
          (λ last. write_changed lib t world hash d (is_record last (to_record lib d)))
          (calling-Quiet (gets (λ s. last_decision lib t world hash s.decisions)) (λ s p. p))
          (λ last. write_changed-Quiet hash d (is_record last (to_record lib d)))

    observe-Quiet :
        (network : Str) (o : FileObservation) → Quiet IsRepository (observe lib t world network o)
    unfolding observe
    observe-Quiet network o =
        let verdict = judge lib t world o.ed2k_hash (world.evaluate (to_candidate lib t world o)) in
        >>=-Quiet IsRepository (record_observed lib t world o)
          (λ u. emit lib (observation_recorded network) >> verdict)
          (written-Quiet o.ed2k_hash (modify (λ s. record s { observations = o ∷ s.observations }))
            (λ s p. p))
          (λ u s p. judge-Quiet o.ed2k_hash (world.evaluate (to_candidate lib t world o)) _ p)

    not_recorded-Runs :
        (e : WorkerError)
        → Runs
            (λ s. IsRepository e × Keeps s)
            (not_recorded lib t world e)
            (Either (λ a. Keeps) (λ e' s. IsMule e' × Keeps s))
    not_recorded-Runs mule_unreachable s (r, p) = cc r
    not_recorded-Runs mule_search_failed s (r, p) = cc r
    not_recorded-Runs repository_error s (r, p) = p
    not_recorded-Runs overflow_error s (r, p) = cc r

    tell-Quiet :
        (hash : Str) (v : Option (MatchDecision lib)) → Quiet IsMule (tell lib t world hash v)
    tell-Quiet hash none s p = p
    tell-Quiet hash (some d) s p = elim (Bool-cases (is_download d.tier)) [
      | inl download ↦ rw download p
      | inr other ↦ rw other p
    ]

    record_observation-Quiet :
        (network : Str) (o : FileObservation)
        → Quiet IsMule (record_observation lib t world network o)
    unfolding record_observation
    record_observation-Quiet network o =
        >>=-Quiet IsMule (catch (observe lib t world network o) (not_recorded lib t world))
          (tell lib t world o.ed2k_hash)
          (catch-Runs (λ a. Keeps) (λ e s. IsRepository e × Keeps s) (λ e s. IsMule e × Keeps s)
            (observe lib t world network o) (not_recorded lib t world) (observe-Quiet network o)
            not_recorded-Runs)
          (tell-Quiet o.ed2k_hash)

    module _ (policy : WorkerPolicy lib.Float) (name : Str) where
      answer-Quiet :
          {A : Type 0} (r : Result MuleError A) → Quiet IsMule (answer lib t policy world name r)
      answer-Quiet (ok a) s p = p
      answer-Quiet (err World.unreachable) s p = (tt, p)
      answer-Quiet (err World.search_failed) s p = (tt, p)

      asked-Quiet :
          {A : Type 0} (f : ℕ → Result MuleError A)
          → Quiet IsMule (ask lib f >>= answer lib t policy world name)
      asked-Quiet f =
          >>=-Quiet IsMule (ask lib f) (answer lib t policy world name) (λ s p. p) answer-Quiet

      poll-Quiet :
          (fuel : ℕ) (waited : lib.Float) → Quiet IsMule (poll lib t policy world name fuel waited)
      unfolding poll
      poll-Quiet zero waited = λ s p. p
      poll-Quiet (suc fuel) waited =
          let wait =
            poll lib t policy world name fuel (t.plus waited policy.poll_interval_seconds) in
          let asked = ask lib world.search_progress >>= answer lib t policy world name in
          let step =
            λ (p : Option ℕ). if is_done lib t policy world name p then pure true else wait in
          if-Quiet IsMule (t.less waited policy.poll_budget_seconds) (asked >>= step) (pure true)
            (>>=-Quiet IsMule asked step (asked-Quiet world.search_progress) (λ p.
              if-Quiet IsMule (is_done lib t policy world name p) (pure true) wait (λ s k. k)
                (poll-Quiet fuel (t.plus waited policy.poll_interval_seconds))))
            (λ s p. p)

      record_each-Quiet :
          (network : Str) (observations : List FileObservation) (changed : ℕ)
          → Quiet IsMule (record_each lib t policy world name network observations changed)
      unfolding record_each
      record_each-Quiet network [] changed = λ s p. p
      record_each-Quiet network (o ∷ observations) changed =
          >>=-Quiet IsMule (record_observation lib t world network o)
            (λ new.
              record_each lib t policy world name network observations
                (if new then changed + 1 else changed))
            (record_observation-Quiet network o)
            (λ new. record_each-Quiet network observations (if new then changed + 1 else changed))

      poll_then_fetch-Quiet :
          (fuel : ℕ) (channel : SearchChannel)
          → Quiet IsMule (poll_then_fetch lib t policy world name fuel channel)
      unfolding poll_then_fetch
      poll_then_fetch-Quiet fuel channel =
          let results = ask lib world.fetch_results >>= answer lib t policy world name in
          let recorded = λ (found : List FileObservation).
            emit lib (search_executed (network_label channel) (length found))
            >> record_each lib t policy world name (network_label channel) found 0 in
          >>=-Quiet IsMule (poll lib t policy world name fuel t.zero_seconds)
            (λ ended. results >>= recorded) (poll-Quiet fuel t.zero_seconds)
            (λ ended.
              >>=-Quiet IsMule results recorded (asked-Quiet world.fetch_results)
                (λ found s p. record_each-Quiet (network_label channel) found 0 _ p))

      pub search-Quiet :
          (fuel : ℕ) (task : SearchTask) → Quiet IsMule (search lib t policy world name fuel task)
      search-Quiet fuel task =
          let begin = λ (n : ℕ). world.start_search n task.keyword task.channel in
          >>=-Quiet IsMule (ask lib begin >>= answer lib t policy world name)
            (λ u. poll_then_fetch lib t policy world name fuel task.channel) (asked-Quiet begin)
            (λ u. poll_then_fetch-Quiet fuel task.channel)
