-- ===== src/PortSync.antt =====
-- port_sync_loop.py: amuled's port follows the forwarded port. Times and intervals are numbers of
-- one unit.
pub mod Spacing
mod Tests
use emule_indexer.Common.{
  ℕ, zero, suc, ◌+◌, Bool, true, false, Option, none, some, List, [], ◌∷◌, Result, ok, err, ltb,
  ◌==◌, if◌then◌else◌,
}
use emule_indexer.Common.Effects.{Exec, ◌>>=◌, ◌>>◌, pure, raise, gets, modify, catch}
use emule_indexer.Common.Text.{Str, codes}
use emule_indexer.Observability.Policy.{
  Event, port_sync_triggered, high_id_recovered, port_mismatch_unresolved,
}
use emule_indexer.Observability.Edge.{enter, leave}

-- `MuleClientError` and `RestarterError`.
pub data SyncError : Type 0 where
  mule_client_error restarter_error : SyncError

module _ (Float : Type 0) where
  pub record State : Type 0 where
    -- `_PortSyncState`
    pub last_restart : Option ℕ
    pub last_target : Option ℕ
    pub edge : List Str
    pub events : List (Event Float)
    pub sleeps : ℕ
    pub calls : ℕ
    -- the ports that were set, and for each restart that the restarter accepted the time that the
    -- cycle had read before it set the port; the latest first
    pub ports_set : List ℕ
    pub restarts : List ℕ

  -- What answers; `none` is an error of the client.
  pub record World : Type 0 where
    pub forwarded_port : ℕ → Option ℕ
    pub get_listen_port : ℕ → Option ℕ
    pub set_listen_port : ℕ → ℕ → Option (Unit {0})
    -- whether the ID is high
    pub network_status : ℕ → Option Bool
    -- whether the restart was accepted
    pub restart : ℕ → Bool
    pub now : ℕ → ℕ
    pub restart_min_interval : ℕ

  abbrev pub Action : Type 0 → Type 0
  Action A = Exec State SyncError A

  abbrev pub count_call : State → State
  count_call s = record s { calls = s.calls + 1 }

  abbrev pub ask : {A : Type 0} → (ℕ → A) → Action A
  ask answer s = (ok (answer s.calls), count_call s)

  abbrev pub answered : {A : Type 0} → Option A → Action A
  answered none = raise mule_client_error
  answered (some a) = pure a

  abbrev pub ask_client : {A : Type 0} → (ℕ → Option A) → Action A
  ask_client answer = ask answer >>= answered

  abbrev pub emit : Event Float → Action (Unit {0})
  emit event = modify (λ s. record s { events = event ∷ s.events })

  abbrev pub sleep : Action (Unit {0})
  sleep = modify (λ s. record s { sleeps = s.sleeps + 1 })

  abbrev pub mismatch : Str
  mismatch = codes "port_mismatch"

  abbrev pub leave_mismatch : Action (Unit {0})
  leave_mismatch = modify (λ s. record s { edge = (leave mismatch s.edge).1 })

  abbrev pub report_mismatch : ℕ → ℕ → Action (Unit {0})
  report_mismatch live configured s =
      let (first, edge') = enter mismatch s.edge in
      (
        ok tt,
        record s {
          edge = edge';
          events = port_mismatch_unresolved first live configured ∷ s.events;
        },
      )

  -- `(now - last_restart).total_seconds() < window`
  unfoldable pub too_soon : ℕ → ℕ → Option ℕ → Bool
  too_soon now window none = false
  too_soon now window (some last) = ltb now (last + window)

  abbrev pub record_restart : ℕ → ℕ → Action (Unit {0})
  record_restart now target =
      modify (λ s. record s { last_restart = some now; last_target = some target })

  module _ (world : World) where
    -- After a restart: the state of the connection is read once.
    abbrev pub check_again : ℕ → Bool → Action (Unit {0})
    check_again live true = leave_mismatch >> emit (high_id_recovered live)
    check_again live false = report_mismatch live live

    abbrev pub after_restart : ℕ → ℕ → Action (Unit {0})
    after_restart now live =
        record_restart now live >> (sleep >> (ask_client world.network_status >>= check_again live))

    -- `restart`, with its `except RestarterError`
    abbrev pub restarted : ℕ → ℕ → ℕ → Bool → Action (Unit {0})
    restarted now live current true = after_restart now live
    restarted now live current false = report_mismatch live current >> sleep

    abbrev pub noted : ℕ → Bool → Action Bool
    noted now true = modify (λ s. record s { restarts = now ∷ s.restarts }) >> pure true
    noted now false = pure false

    -- `await deps.restarter.restart()`: whether the restart was accepted.
    abbrev pub restart_amuled : ℕ → Action Bool
    restart_amuled now = ask world.restart >>= noted now

    abbrev pub set_port : ℕ → Action (Unit {0})
    set_port live =
        ask_client (λ n. world.set_listen_port n live)
        >> modify (λ s. record s { ports_set = live ∷ s.ports_set })

    abbrev pub change_port : ℕ → ℕ → ℕ → Action (Unit {0})
    change_port now live current =
        set_port live
        >> (emit (port_sync_triggered current live)
            >> (restart_amuled now >>= restarted now live current))

    abbrev pub unless_soon : ℕ → ℕ → ℕ → Bool → Action (Unit {0})
    unless_soon now live current true = sleep
    unless_soon now live current false = change_port now live current

    abbrev pub diverged : ℕ → ℕ → ℕ → Action (Unit {0})
    diverged live current now =
        gets (λ s. too_soon now world.restart_min_interval s.last_restart)
        >>= unless_soon now live current

    abbrev pub confirmed : Bool → Action (Unit {0})
    confirmed true = leave_mismatch >> sleep
    confirmed false = sleep

    abbrev pub compare_ports : ℕ → ℕ → Action (Unit {0})
    compare_ports live current =
        if live == current
        then ask_client world.network_status >>= confirmed
        else ask world.now >>= diverged live current

    abbrev pub synchronise : Option ℕ → Action (Unit {0})
    synchronise none = sleep
    synchronise (some live) = ask_client world.get_listen_port >>= compare_ports live

    -- `except MuleClientError`
    abbrev pub tolerated : SyncError → Action (Unit {0})
    tolerated mule_client_error = sleep
    tolerated restarter_error = raise restarter_error

    unfoldable pub run_port_sync_cycle : Action (Unit {0})
    unfolding too_soon
    run_port_sync_cycle = catch (ask world.forwarded_port >>= synchronise) tolerated

    -- `port_sync_loop`, over the cycles until the stop is asked for.
    unfoldable pub port_sync_loop : ℕ → State → State
    unfolding run_port_sync_cycle
    port_sync_loop zero s = s
    port_sync_loop (suc n) s = port_sync_loop n (run_port_sync_cycle s).1
