-- ===== src/PortSync/Tests.antt =====
-- A forwarded port that changes, and a daemon that restarts.
use emule_indexer.Common.{
  ℕ, ◌*◌, ◌≤◌, ◌≡◌, refl, true, false, none, some, [], ◌∷◌, ok, ltb, if◌then◌else◌,
}
use emule_indexer.PortSync.{State, World, port_sync_loop, run_port_sync_cycle}
use emule_indexer.PortSync.Spacing.{IsSpaced, port_sync_loop-IsSpaced}

-- The times run on by ten, and the port of amuled stays what it was.
abbrev world : World ℕ
world = record {
  forwarded_port = λ n. some (if ltb n 12 then 5000 else 6000);
  get_listen_port = λ n. some 4662;
  set_listen_port = λ n port. some tt;
  network_status = λ n. some false;
  restart = λ n. true;
  now = λ n. n * 10;
  restart_min_interval = 60;
}

abbrev fresh : State ℕ
fresh = record {
  last_restart = none;
  last_target = none;
  edge = [];
  events = [];
  sleeps = 0;
  calls = 0;
  ports_set = [];
  restarts = [];
}

-- The ID stays low, and each cycle restarts amuled.
four_restarts : (port_sync_loop ℕ world 4 fresh).restarts ≡ 200 ∷ 140 ∷ 80 ∷ 20 ∷ []
unfolding port_sync_loop
four_restarts = refl

port_sync_loop-IsSpaced_example :
    IsSpaced 60 (port_sync_loop ℕ world 4 fresh).restarts
    × (4 ≤ (port_sync_loop ℕ world 4 fresh).sleeps)
    × ((run_port_sync_cycle ℕ world (port_sync_loop ℕ world 4 fresh)).0 ≡ ok tt)
port_sync_loop-IsSpaced_example = port_sync_loop-IsSpaced ℕ world 4 fresh refl refl
