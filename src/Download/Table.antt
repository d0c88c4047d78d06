-- ===== src/Download/Table.antt =====
-- download_repository.py over the table as a dictionary, and the other writes of the loop.
use emule_indexer.Common.{
  ℕ, suc, ◌+◌, Bool, true, false, Option, none, some, [], ◌∷◌, map, err, if◌then◌else◌,
}
use emule_indexer.Common.Text.{Str}
use emule_indexer.Common.Dict.{Dict, get, put}
use emule_indexer.Download.Rules.{DownloadState, queued, is_terminal}
use emule_indexer.Download.World.{
  Download, Event, repository_error, State, World, Exec, ◌>>◌, pure, raise, gets, modify,
}

-- The sum of `_COMMITTED_BYTES`: what is not terminal.
unfoldable pub committed : Dict Download → ℕ
unfolding is_terminal
committed [] = 0
committed ((hash, d) ∷ rows) = (if is_terminal d.state then 0 else d.size_bytes) + committed rows

abbrev pub with_state : Download → DownloadState → Download
with_state d state = record { target_id = d.target_id; state = state; size_bytes = d.size_bytes }

abbrev pub set_downloads : Dict Download → State → State
set_downloads rows s = record {
  downloads = rows;
  promoted = s.promoted;
  verifications = s.verifications;
  links = s.links;
  events = s.events;
  states = s.states;
  repository_calls = s.repository_calls;
}

abbrev pub set_states : Dict DownloadState → State → State
set_states states s = record {
  downloads = s.downloads;
  promoted = s.promoted;
  verifications = s.verifications;
  links = s.links;
  events = s.events;
  states = states;
  repository_calls = s.repository_calls;
}

abbrev pub count_call : State → State
count_call s = record {
  downloads = s.downloads;
  promoted = s.promoted;
  verifications = s.verifications;
  links = s.links;
  events = s.events;
  states = s.states;
  repository_calls = suc s.repository_calls;
}

abbrev pub add_promoted : Str → State → State
add_promoted hash s = record {
  downloads = s.downloads;
  promoted = hash ∷ s.promoted;
  verifications = s.verifications;
  links = s.links;
  events = s.events;
  states = s.states;
  repository_calls = s.repository_calls;
}

abbrev pub add_verification : Str → State → State
add_verification hash s = record {
  downloads = s.downloads;
  promoted = s.promoted;
  verifications = hash ∷ s.verifications;
  links = s.links;
  events = s.events;
  states = s.states;
  repository_calls = s.repository_calls;
}

abbrev pub add_sent : Str → State → State
add_sent link s = record {
  downloads = s.downloads;
  promoted = s.promoted;
  verifications = s.verifications;
  links = link ∷ s.links;
  events = s.events;
  states = s.states;
  repository_calls = s.repository_calls;
}

-- `telemetry.emit`
abbrev pub emit : Event → Exec (Unit {0})
emit event = modify (λ s. record {
  downloads = s.downloads;
  promoted = s.promoted;
  verifications = s.verifications;
  links = s.links;
  events = event ∷ s.events;
  states = s.states;
  repository_calls = s.repository_calls;
})

abbrev pub row_state : Str × Download → Str × DownloadState
row_state (hash, d) = (hash, d.state)

module _ (world : World) where
  -- A call of a repository: it may fail before it does anything.
  abbrev pub calling : {A : Type 0} → Exec A → Exec A
  calling body s =
      if world.repository_fails s.repository_calls
      then (err repository_error, count_call s)
      else body (count_call s)

  abbrev pub insert_row : Str → Download → Option Download → Exec Bool
  insert_row hash row none = modify (λ s. set_downloads (put hash row s.downloads) s) >> pure true
  insert_row hash row (some d) = pure false

  -- `INSERT … ON CONFLICT DO NOTHING`
  unfoldable pub record_queued : Str → Str → ℕ → Exec Bool
  record_queued hash target_id size_bytes = calling (λ s.
      insert_row hash (record { target_id = target_id; state = queued; size_bytes = size_bytes })
        (get hash s.downloads) s)

  abbrev pub update_row : Str → DownloadState → Option Download → Exec (Unit {0})
  update_row hash state none = raise repository_error
  update_row hash state (some d) =
      modify (λ s. set_downloads (put hash (with_state d state) s.downloads) s)

  -- An unknown hash is a `PersistenceError`.
  unfoldable pub set_state : Str → DownloadState → Exec (Unit {0})
  set_state hash state = calling (λ s. update_row hash state (get hash s.downloads) s)

  abbrev pub is_some : {A : Type 0} → Option A → Bool
  is_some none = false
  is_some (some a) = true

  unfoldable pub is_downloaded : Str → Exec Bool
  is_downloaded hash = calling (gets (λ s. is_some (get hash s.downloads)))

  unfoldable pub committed_bytes : Exec ℕ
  committed_bytes = calling (gets (λ s. committed s.downloads))

  unfoldable pub active_states : Exec (Dict DownloadState)
  active_states = calling (gets (λ s. map row_state s.downloads))

  abbrev pub target_of : Option Download → Option Str
  target_of none = none
  target_of (some d) = some d.target_id

  unfoldable pub get_target_id : Str → Exec (Option Str)
  get_target_id hash = calling (gets (λ s. target_of (get hash s.downloads)))

  unfoldable pub enqueue_verification : Str → Exec (Unit {0})
  enqueue_verification hash = calling (modify (add_verification hash))
