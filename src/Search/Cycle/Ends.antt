-- ===== src/Search/Cycle/Ends.antt =====
-- run_search_cycle.py: the coverage that is reported, the searches of a cycle, and what is stored.
use emule_indexer.Common.{
  ℕ, suc, ◌+◌, ◌≡◌, ◌↔◌, refl, ap, ◌∙◌, inl, inr, Bool, true, Option, List, [], ◌∷◌, length, map,
  In, Bool-cases, if◌then◌else◌, arith, range_from,
}
use emule_indexer.Common.Text.{Str, codes}
use emule_indexer.Common.Dict.{Dict}
use emule_indexer.Domain.Keywords.{
  Coverage, healthy, degraded, blind, effective_coverage, effective_coverage_iff,
}
use emule_indexer.Observability.Policy.{Event, all_instances_blind, connected_instances_sampled}
use emule_indexer.Observability.Edge.{enter}
use emule_indexer.Search.Backoff.{ChannelBackoff}
use emule_indexer.Search.Cycle.{
  NetworkStatus, capable_of, report_coverage, aggregate_coverage, count_of, kad_of, high_of,
  coverage_blind, Stored, persist, CycleEnd, cycle_loop,
}

-- What a cycle leaves stored.
abbrev pub stored_index : ℕ → CycleEnd → ℕ → ℕ
stored_index cycle_index e before = if e.index_fails then before else cycle_index + 1

-- The index that is stored: that of the last cycle whose first write went well, and one.
abbrev pub last_index : ℕ → List CycleEnd → ℕ → ℕ
last_index cycle_index [] before = before
last_index cycle_index (e ∷ ends) before =
    last_index (cycle_index + 1) ends (stored_index cycle_index e before)

-- The registry that is stored: that of the last cycle whose two writes went well.
abbrev pub last_backoff : List CycleEnd → Dict ChannelBackoff → Dict ChannelBackoff
last_backoff [] before = before
last_backoff (e ∷ ends) before =
    last_backoff ends
      (if e.index_fails then before else if e.backoff_fails then before else e.snapshot)

persist-stored :
    (cycle_index : ℕ) (e : CycleEnd) (stored : Stored)
    → ((persist e.index_fails e.backoff_fails cycle_index e.snapshot stored).1.cycle_index
        ≡ stored_index cycle_index e stored.cycle_index)
      × ((persist e.index_fails e.backoff_fails cycle_index e.snapshot stored).1.channel_backoff ≡ (
          if e.index_fails
          then stored.channel_backoff
          else if e.backoff_fails
          then stored.channel_backoff
          else e.snapshot))
unfolding persist
persist-stored cycle_index e stored = elim (Bool-cases e.index_fails) [
  | inl fails ↦ rw fails (refl, refl)
  | inr fine ↦ elim (Bool-cases e.backoff_fails) [
    | inl fails ↦ rw (fine, fails) (refl, refl)
    | inr good ↦ rw (fine, good) (refl, refl)
  ]
]

-- The cycles of a run have the indices from the first on, one after the other, also after a cycle
-- whose end was not stored; the stored index belongs to the last cycle that could write it, and the
-- stored registry to the last cycle that could write both.
pub cycle_loop-stored :
    (cycle_index : ℕ) (ends : List CycleEnd) (stored : Stored)
    → ((cycle_loop cycle_index ends stored).0 ≡ range_from cycle_index (length ends))
      × ((cycle_loop cycle_index ends stored).1.cycle_index
          ≡ last_index cycle_index ends stored.cycle_index)
      × ((cycle_loop cycle_index ends stored).1.channel_backoff
          ≡ last_backoff ends stored.channel_backoff)
unfolding cycle_loop
cycle_loop-stored cycle_index [] stored = (refl, refl, refl)
cycle_loop-stored cycle_index (e ∷ ends) stored =
    let next = (persist e.index_fails e.backoff_fails cycle_index e.snapshot stored).1 in
    let (indices, index, backoff) = cycle_loop-stored (cycle_index + 1) ends next in
    let (i, b) = persist-stored cycle_index e stored in
    let one : cycle_index + 1 ≡ suc cycle_index = omega arith in
    (
      ap (λ (x : List ℕ). cycle_index ∷ x)
          (indices ∙ ap (λ (k : ℕ). range_from k (length ends)) one),
      index ∙ ap (λ (k : ℕ). last_index (cycle_index + 1) ends k) i,
      backoff ∙ ap (λ (x : Dict ChannelBackoff). last_backoff ends x) b,
    )

module _ (Float : Type 0) where
  -- The two samples that every cycle takes.
  abbrev samples : List (Option NetworkStatus) → List (Event Float)
  samples clients =
      connected_instances_sampled (codes "kad") (count_of kad_of clients)
      ∷ connected_instances_sampled (codes "ed2k") (count_of high_of clients)
      ∷ []

  not_sampled :
      (f : Bool) (clients : List (Option NetworkStatus))
      → ¬ In (all_instances_blind f) (samples clients)
  not_sampled f clients (inl e) = cc
  not_sampled f clients (inr (inl e)) = cc
  not_sampled f clients (inr (inr m)) = m

  -- Blindness is told in a report exactly if the coverage is blind.
  report_iff :
      (c : Coverage) (edge : List Str) (clients : List (Option NetworkStatus))
      → ((f : Bool) × In
            (all_instances_blind f)
            (report_coverage {Float = Float} c edge (samples clients)).0)
        ↔ (c ≡ blind)
  report_iff blind edge clients = (λ m. refl, λ e. ((enter coverage_blind edge).0, inl refl))
  report_iff degraded edge clients = (λ (f, m). absurd (not_sampled f clients m), λ e. cc)
  report_iff healthy edge clients = (λ (f, m). absurd (not_sampled f clients m), λ e. cc)

  -- A cycle reports that all instances are blind exactly if none of them is reached with a HighID
  -- or a connection to Kad.
  pub aggregate_coverage_iff :
      (clients : List (Option NetworkStatus)) (edge : List Str)
      → ((f : Bool) × In
            (all_instances_blind f)
            (aggregate_coverage {Float = Float} clients edge).0)
        ↔ (¬ In true (map capable_of clients))
  unfolding aggregate_coverage
  aggregate_coverage_iff clients edge =
      let told = report_iff (effective_coverage (map capable_of clients)) edge clients in
      let blind_iff = (effective_coverage_iff (map capable_of clients)).0 in
      (λ m. blind_iff.0 (told.0 m), λ h. told.1 (blind_iff.1 h))
