-- ===== src/Search/Tests.antt =====
-- Two instances, one of them in backoff, over one keyword.
use emule_indexer.Common.{
  ℕ, ◌+◌, ◌*◌, ◌≤◌, ◌≡◌, ◌≢◌, refl, Bool, true, false, some, List, [], ◌∷◌, inl, All, length, arith,
  range_from,
}
use emule_indexer.Common.Text.{Str, codes, str_eq}
use emule_indexer.Search.Tasks.{global, kad, SearchTask, enqueue, add_name}
use emule_indexer.Search.Pool.{waiting, Pool, drain, start, turn_at}
use emule_indexer.Search.Counting.{queued, were_run, given_up}
use emule_indexer.Search.Joined.{drain-joined}
use emule_indexer.Search.Refusals.{RefusedByAll, drain-RefusedByAll}
use emule_indexer.Search.Potential.{turns, refusals_again, turns_bound}
use emule_indexer.Search.Spinning.{rounds, drain-rounds-same}
use emule_indexer.Search.Cycle.{search_all, Stored, CycleEnd, cycle_loop}
use emule_indexer.Search.Cycle.Ends.{cycle_loop-stored, last_index, last_backoff}
use emule_indexer.Search.Cycle.Searches.{is_task, search_all-once}

abbrev names : List Str
names = codes "a" ∷ codes "b" ∷ []

abbrev texts : List Str
texts = codes "keroro" ∷ []

-- `a` is in backoff and refuses both tasks; `b` runs them.
abbrev schedule : List (ℕ × Bool)
schedule =
    (0, true)
    ∷ (1, false)
    ∷ (0, false)
    ∷ (0, true)
    ∷ (1, false)
    ∷ (1, false)
    ∷ (0, false)
    ∷ (1, false)
    ∷ (1, false)
    ∷ []

-- Both refuse the first task.
abbrev refused : List (ℕ × Bool)
refused = (0, true) ∷ (1, true) ∷ (1, true) ∷ []

joined : (drain 2 schedule (start names (enqueue texts []))).shelf.unfinished ≡ 0
unfolding drain start enqueue turn_at add_name str_eq
joined = refl

drain-joined_example :
    were_run
        (is_task (codes "keroro") kad)
        (drain (length names) schedule (start names (enqueue texts []))).shelf.ran
      + given_up
          (is_task (codes "keroro") kad)
          (drain (length names) schedule (start names (enqueue texts []))).shelf.dropped
    ≡ queued (is_task (codes "keroro") kad) (enqueue texts [])
drain-joined_example =
    drain-joined (is_task (codes "keroro") kad) names (enqueue texts []) schedule joined

drain-RefusedByAll_example :
    All
      (RefusedByAll names)
      (drain (length names) refused (start names (enqueue texts []))).shelf.dropped
drain-RefusedByAll_example = drain-RefusedByAll names texts refused

one_dropped : length (drain 2 refused (start names (enqueue texts []))).shelf.dropped ≡ 1
unfolding drain start enqueue turn_at add_name str_eq
one_dropped = refl

turns_bound_example :
    turns (length names) schedule (start names (enqueue texts []))
    ≤ length texts * (8 * length names + 8)
      + 2 * refusals_again (length names) schedule (start names (enqueue texts []))
turns_bound_example = turns_bound names texts schedule

-- `a` has refused the task, and `b` runs another one.
abbrev seen : SearchTask
seen = record { keyword = codes "keroro"; channel = kad; skipped_by = codes "a" ∷ [] }

abbrev spinning : Pool
spinning = record {
  shelf = record { queue = some seen ∷ []; unfinished = 2; ran = []; dropped = [] };
  workers = record { instance_name = codes "a"; phase = waiting } ∷ [];
}

seen_before : str_eq (codes "a") (codes "a") ≡ true
unfolding str_eq
seen_before = refl

drain-rounds-same_example : drain 2 (rounds 3 0) spinning ≡ spinning
drain-rounds-same_example =
    drain-rounds-same 2 3 0 seen [] spinning refl (omega arith) (refl, rw seen_before)

-- The first cycle cannot store its index; the second one stores its index only.
abbrev ends : List CycleEnd
ends =
    record { index_fails = true; backoff_fails = false; snapshot = [] }
    ∷ record { index_fails = false; backoff_fails = true; snapshot = [] }
    ∷ []

abbrev stored : Stored
stored = record { cycle_index = 4; channel_backoff = [] }

cycle_loop-stored_example :
    ((cycle_loop 4 ends stored).0 ≡ range_from 4 (length ends))
    × ((cycle_loop 4 ends stored).1.cycle_index ≡ last_index 4 ends stored.cycle_index)
    × ((cycle_loop 4 ends stored).1.channel_backoff ≡ last_backoff ends stored.channel_backoff)
cycle_loop-stored_example = cycle_loop-stored 4 ends stored

keroro_joined :
    (search_all (λ seed items. items) (codes "n") 0 texts names schedule).shelf.unfinished ≡ 0
unfolding search_all drain start enqueue turn_at add_name str_eq
keroro_joined = refl

keroro_proper : codes "keroro" ≢ []
keroro_proper e = cc e

search_all-once_example :
    were_run
        (is_task (codes "keroro") global)
        (search_all (λ seed items. items) (codes "n") 0 texts names schedule).shelf.ran
      + given_up
          (is_task (codes "keroro") global)
          (search_all (λ seed items. items) (codes "n") 0 texts names schedule).shelf.dropped
    ≡ 1
search_all-once_example =
    search_all-once (λ seed items. items) (codes "n") 0 texts names schedule (codes "keroro") global
      (λ seed items. refl) (inl refl) keroro_proper keroro_joined
