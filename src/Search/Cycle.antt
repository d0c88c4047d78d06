-- ===== src/Search/Cycle.antt =====
-- run_search_cycle.py and cycle.py: one cycle, and the loop over cycles of composition/app.py.
pub mod Ends
pub mod Searches
use emule_indexer.Common.{
  ℕ, ◌+◌, Bool, true, false, ◌||◌, Option, none, some, List, [], ◌∷◌, ◌++◌, length, map,
  if◌then◌else◌,
}
use emule_indexer.Common.Text.{Str, codes, decimal}
use emule_indexer.Common.Dict.{Dict}
use emule_indexer.Domain.Keywords.{
  SearchKeyword, generate_keywords, texts_of, Coverage, healthy, degraded, blind,
  effective_coverage,
}
use emule_indexer.Observability.Policy.{
  Event, all_instances_blind, connected_instances_sampled, search_cycle_completed,
}
use emule_indexer.Observability.Edge.{enter, leave}
use emule_indexer.Search.Backoff.{ChannelBackoff}
use emule_indexer.Search.Tasks.{SearchTask, enqueue}
use emule_indexer.Search.Pool.{Pool, drain, start}

pub data KadStatus : Type 0 where
  off kad_running kad_connected firewalled : KadStatus

pub record NetworkStatus : Type 0 where
  pub ed2k_high : Bool
  pub kad_status : KadStatus

abbrev pub is_connected : KadStatus → Bool
is_connected off = false
is_connected kad_running = false
is_connected kad_connected = true
is_connected firewalled = false

unfoldable pub is_search_capable : NetworkStatus → Bool
is_search_capable status = status.ed2k_high || is_connected status.kad_status

-- One client; `none` is a client that cannot be reached.
abbrev pub capable_of : Option NetworkStatus → Bool
capable_of none = false
capable_of (some status) = is_search_capable status

abbrev pub high_of : Option NetworkStatus → Bool
high_of none = false
high_of (some status) = status.ed2k_high

abbrev pub kad_of : Option NetworkStatus → Bool
kad_of none = false
kad_of (some status) = is_connected status.kad_status

unfoldable pub count_of : (Option NetworkStatus → Bool) → List (Option NetworkStatus) → ℕ
count_of p [] = 0
count_of p (client ∷ clients) = let rest = count_of p clients in if p client then rest + 1 else rest

abbrev pub coverage_blind : Str
coverage_blind = codes "coverage_blind"

-- The last step of `_aggregate_coverage`: the events, the latest first, and the active conditions.
abbrev pub report_coverage :
    {Float : Type 0} → Coverage → List Str → List (Event Float) → List (Event Float) × List Str
report_coverage blind edge events =
    let (first, edge') = enter coverage_blind edge in (all_instances_blind first ∷ events, edge')
report_coverage degraded edge events = (events, (leave coverage_blind edge).1)
report_coverage healthy edge events = (events, (leave coverage_blind edge).1)

-- `_aggregate_coverage`
unfoldable pub aggregate_coverage :
    {Float : Type 0} → List (Option NetworkStatus) → List Str → List (Event Float) × List Str
unfolding count_of is_search_capable
aggregate_coverage clients edge =
    report_coverage (effective_coverage (map capable_of clients)) edge (
      connected_instances_sampled (codes "kad") (count_of kad_of clients)
      ∷ connected_instances_sampled (codes "ed2k") (count_of high_of clients)
      ∷ [])

-- `cycle_seed`
unfoldable pub cycle_seed : Str → ℕ → Str
cycle_seed node_id cycle_index = node_id ++ (0x3A ∷ decimal cycle_index)

-- `shuffle_for_cycle`; the shuffle of a seed is a parameter.
unfoldable pub shuffle_for_cycle : (Str → List Str → List Str) → Str → ℕ → List Str → List Str
unfolding cycle_seed
shuffle_for_cycle shuffled node_id cycle_index items =
    shuffled (cycle_seed node_id cycle_index) items

-- From the keywords of the configuration to the queue, and the turns of the workers until `join`
-- returns.
unfoldable pub search_all :
    (Str → List Str → List Str) → Str → ℕ → List Str → List Str → List (ℕ × Bool) → Pool
unfolding generate_keywords shuffle_for_cycle
search_all shuffled node_id cycle_index keywords workers schedule =
    drain (length workers) schedule (
      start workers (
        enqueue
          (shuffle_for_cycle shuffled node_id cycle_index (texts_of (generate_keywords keywords)))
          []))

-- What scheduler_state_repository.py keeps.
pub record Stored : Type 0 where
  pub cycle_index : ℕ
  pub channel_backoff : Dict ChannelBackoff

-- The end of a cycle: two writes, of which each may fail; its answer is whether both went well.
unfoldable pub persist : Bool → Bool → ℕ → Dict ChannelBackoff → Stored → Bool × Stored
persist index_fails backoff_fails cycle_index snapshot stored =
    if index_fails
    then (false, stored)
    else if backoff_fails
    then (false, record stored { cycle_index = cycle_index + 1 })
    else (true, record { cycle_index = cycle_index + 1; channel_backoff = snapshot })

-- How the writes of one cycle go, and the registry then.
pub record CycleEnd : Type 0 where
  pub index_fails : Bool
  pub backoff_fails : Bool
  pub snapshot : Dict ChannelBackoff

-- The loop of app.py, with the index of each cycle that it runs.
unfoldable pub cycle_loop : ℕ → List CycleEnd → Stored → List ℕ × Stored
unfolding persist
cycle_loop cycle_index [] stored = ([], stored)
cycle_loop cycle_index (e ∷ ends) stored =
    let (done, stored') = persist e.index_fails e.backoff_fails cycle_index e.snapshot stored in
    let (indices, stored'') = cycle_loop (cycle_index + 1) ends stored' in
    (cycle_index ∷ indices, stored'')
