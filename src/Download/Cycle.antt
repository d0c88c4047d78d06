-- ===== src/Download/Cycle.antt =====
-- run_download_cycle.py: one iteration of the loop.
use emule_indexer.Common.{
  ℕ, ◌+◌, Bool, true, false, Option, none, some, List, [], ◌∷◌, Result, if◌then◌else◌,
}
use emule_indexer.Common.Text.{Str, codes, str_eq}
use emule_indexer.Common.Dict.{Dict, get, put}
use emule_indexer.Matching.Ed2kLink.{build_ed2k_link}
use emule_indexer.Download.Rules.{
  DownloadState, queued, downloading, completed, quarantined, failed, DownloadVerdict, download,
  skip_complete, skip_dedup, skip_disk_cap, download_policy,
}
use emule_indexer.Download.Staging.{safe_basename}
use emule_indexer.Download.World.{
  download_queued, download_completed, promotion_failed, LoopError, repository_error,
  mule_unreachable, mule_search_failed, unicode_encode_error, LinkReply, accepted, rejected,
  unreachable, State, World, Exec, ◌>>=◌, ◌>>◌, pure, raise, gets, modify, catch,
}
use emule_indexer.Download.Table.{
  committed, set_states, add_promoted, add_sent, emit, record_queued, set_state, is_downloaded,
  committed_bytes, active_states, get_target_id, enqueue_verification, calling,
}

-- `_target_status`, over the ids and the statuses of the targets
unfoldable pub target_status : List (Str × Str) → Str → Str
target_status [] target_id = codes "complete"
target_status ((id, status) ∷ targets) target_id =
    if str_eq id target_id then status else target_status targets target_id

-- A client whose stream is dead raises.
abbrev pub answered : {A : Type 0} → Option A → Exec A
answered none = raise mule_unreachable
answered (some a) = pure a

-- `set_state(hash, state)`, then `states[hash] = state`
abbrev pub move : World → Str → DownloadState → Exec (Unit {0})
move world hash state =
    set_state world hash state >> modify (λ s. set_states (put hash state s.states) s)

-- `except RepositoryError`; any other error goes on.
abbrev pub absorb : LoopError → Exec (Unit {0})
absorb repository_error = pure tt
absorb mule_unreachable = raise mule_unreachable
absorb mule_search_failed = raise mule_search_failed
absorb unicode_encode_error = raise unicode_encode_error

-- `get_target_id(hash) or "inconnu"`
abbrev pub known_target : Option Str → Str
known_target none = codes "inconnu"
known_target (some []) = codes "inconnu"
known_target (some (c ∷ id)) = c ∷ id

module _ (world : World) (targets : List (Str × Str)) (disk_cap_bytes : ℕ) where
  -- one entry of the queue, by what `states` says of it
  abbrev pub monitor_entry : Str → Option DownloadState → Exec (Unit {0})
  monitor_entry hash none = pure tt
  monitor_entry hash (some quarantined) = pure tt
  monitor_entry hash (some failed) = pure tt
  monitor_entry hash (some completed) = pure tt
  monitor_entry hash (some downloading) = pure tt
  monitor_entry hash (some queued) = move world hash downloading

  unfoldable pub monitor_each : List Str → Exec (Unit {0})
  monitor_each [] = pure tt
  monitor_each (hash ∷ queue) = do
    current ← gets (λ s. get hash s.states)
    monitor_entry hash current
    monitor_each queue

  -- `_monitor`
  unfoldable pub monitor : Exec (Unit {0})
  unfolding monitor_each
  monitor = do queue ← answered world.download_queue; monitor_each queue

  -- `if current is not DownloadState.COMPLETED`
  abbrev pub complete : Str → DownloadState → Exec (Unit {0})
  complete hash completed = pure tt
  complete hash queued = move world hash completed
  complete hash downloading = move world hash completed
  complete hash quarantined = move world hash completed
  complete hash failed = move world hash completed

  abbrev pub promote : Str → Str → Exec (Unit {0})
  promote hash safe =
      if world.promotes safe hash
      then (do
        modify (add_promoted hash)
        enqueue_verification world hash
        move world hash quarantined
        target_id ← get_target_id world hash
        emit (download_completed (known_target target_id) hash))
      else emit (promotion_failed hash)

  -- `_promote_completion`, from the safe name on.
  abbrev pub promote_safe : Str → DownloadState → Option Str → Exec (Unit {0})
  promote_safe hash current none = pure tt
  promote_safe hash current (some safe) = complete hash current >> promote hash safe

  abbrev pub complete_entry : Str → Str → Option DownloadState → Exec (Unit {0})
  complete_entry hash name none = pure tt
  complete_entry hash name (some quarantined) = pure tt
  complete_entry hash name (some failed) = pure tt
  complete_entry hash name (some completed) =
      catch (promote_safe hash completed (safe_basename name)) absorb
  complete_entry hash name (some downloading) =
      catch (promote_safe hash downloading (safe_basename name)) absorb
  complete_entry hash name (some queued) =
      catch (promote_safe hash queued (safe_basename name)) absorb

  unfoldable pub complete_each : List (Str × Str) → Exec (Unit {0})
  complete_each [] = pure tt
  complete_each ((hash, name) ∷ shared) = do
    current ← gets (λ s. get hash s.states)
    complete_entry hash name current
    complete_each shared

  -- `_handle_completions`
  unfoldable pub handle_completions : Exec (Unit {0})
  unfolding complete_each
  handle_completions = do shared ← answered world.shared_files; complete_each shared

  -- the two reads of the catalogue
  abbrev pub last_observation : Str → Exec (Option (Str × ℕ))
  last_observation hash = calling world (pure (world.last_observation hash))

  abbrev pub download_decisions : Exec (List (Str × Str))
  download_decisions = calling world (pure world.download_decisions)

  -- the verdict on a candidate, and what is committed then
  abbrev pub queue_candidate : Str → Str → ℕ → ℕ → DownloadVerdict → Exec ℕ
  queue_candidate hash target_id size committed download = do
    record_queued world hash target_id size
    emit (download_queued target_id)
    pure (committed + size)
  queue_candidate hash target_id size committed skip_complete = pure committed
  queue_candidate hash target_id size committed skip_dedup = pure committed
  queue_candidate hash target_id size committed skip_disk_cap = pure committed

  abbrev pub observed_candidate : Str → Str → ℕ → Option (Str × ℕ) → Exec ℕ
  observed_candidate hash target_id committed none = pure committed
  observed_candidate hash target_id committed (some (filename, size)) =
      queue_candidate hash target_id size committed (
        download_policy (codes "download") (target_status targets target_id) false committed size
          disk_cap_bytes)

  abbrev pub new_candidate : Str → Str → ℕ → Bool → Exec ℕ
  new_candidate hash target_id committed true = pure committed
  new_candidate hash target_id committed false = do
    seen ← last_observation hash
    observed_candidate hash target_id committed seen

  unfoldable pub queue_each : List (Str × Str) → ℕ → Exec (Unit {0})
  queue_each [] committed = pure tt
  queue_each ((hash, target_id) ∷ candidates) committed = do
    known ← is_downloaded world hash
    committed' ← new_candidate hash target_id committed known
    queue_each candidates committed'

  -- `_queue_new_candidates`
  unfoldable pub queue_new_candidates : Exec (Unit {0})
  unfolding queue_each
  queue_new_candidates = do
    committed ← committed_bytes world
    candidates ← download_decisions
    queue_each candidates committed

  abbrev pub reply : Str → Str → LinkReply → Exec (Unit {0})
  reply hash link accepted = modify (add_sent link)
  reply hash link rejected = set_state world hash failed
  reply hash link unreachable = raise mule_unreachable

  abbrev pub send_link : Str → Option Str → Exec (Unit {0})
  send_link hash none = raise unicode_encode_error
  send_link hash (some link) = reply hash link (world.add_link link)

  abbrev pub link_observed : Str → Option (Str × ℕ) → Exec (Unit {0})
  link_observed hash none = pure tt
  link_observed hash (some (filename, size)) = send_link hash (build_ed2k_link filename size hash)

  abbrev pub link_entry : Str → DownloadState → Exec (Unit {0})
  link_entry hash queued = do seen ← last_observation hash; link_observed hash seen
  link_entry hash downloading = pure tt
  link_entry hash completed = pure tt
  link_entry hash quarantined = pure tt
  link_entry hash failed = pure tt

  unfoldable pub link_each : Dict DownloadState → Exec (Unit {0})
  link_each [] = pure tt
  link_each ((hash, state) ∷ states) = link_entry hash state >> link_each states

  -- `_add_links`
  unfoldable pub add_links : Exec (Unit {0})
  unfolding link_each
  add_links = do states ← active_states world; link_each states

  -- `states = downloads.active_states()`
  abbrev pub read_states : Exec (Unit {0})
  read_states = do states ← active_states world; modify (set_states states)

  -- `run_download_cycle`: an unreachable daemon ends the iteration, and a repository that fails
  -- ends a step.
  unfoldable pub run_steps : Exec (Unit {0})
  unfolding monitor handle_completions queue_new_candidates add_links
  run_steps = do
    catch (read_states >> monitor) absorb
    catch (read_states >> handle_completions) absorb
    catch queue_new_candidates absorb
    catch add_links absorb

  -- The outer `except MuleUnreachableError: return`. Any other error goes to the caller, with the
  -- state as it is.
  abbrev returned : Result LoopError (Unit {0}) × State → State
  returned (r, s) = s

  unfoldable pub run_download_cycle : State → State
  unfolding run_steps
  run_download_cycle s = returned (run_steps s)
