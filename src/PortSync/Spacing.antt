-- ===== src/PortSync/Spacing.antt =====
-- port_sync_loop.py: the restarts keep their distance, and no cycle raises or spins.
use emule_indexer.Common.{
  ℕ, zero, suc, ◌+◌, ◌≤◌, ◌≡◌, refl, sym, Bool, true, false, Option, none, some, List, [], ◌∷◌,
  Result, ok, err, ◌==◌, arith,
}
use emule_indexer.Common.Effects.{◌>>=◌}
use emule_indexer.Common.Contracts.{Runs, Either, >>=-Runs, catch-Runs, if-Runs, weaken-Runs}
use mathlib.Core.Path.{subst}
use emule_indexer.PortSync
use emule_indexer.PortSync.{
  SyncError, mule_client_error, restarter_error, too_soon, run_port_sync_cycle, port_sync_loop,
}

abbrev pub latest : List ℕ → Option ℕ
latest [] = none
latest (t ∷ times) = some t

-- A time lies at least `window` behind the latest of the times.
abbrev pub FarFrom : ℕ → ℕ → Option ℕ → Type 0
FarFrom window t none = Unit {0}
FarFrom window t (some last) = last + window ≤ t

-- Each time lies at least `window` behind the one before it; the latest stands first.
abbrev pub IsSpaced : ℕ → List ℕ → Type 0
IsSpaced window [] = Unit {0}
IsSpaced window (t ∷ times) = FarFrom window t (latest times) × IsSpaced window times

FarFrom-too_soon :
    (Float : Type 0) (now window : ℕ) (last : Option ℕ)
    → too_soon Float now window last ≡ false
    → FarFrom window now last
unfolding too_soon
FarFrom-too_soon Float now window none h = tt
FarFrom-too_soon Float now window (some last) h = ground arith

module _ (Float : Type 0) (world : PortSync.World Float) where
  abbrev St : Type 0
  St = PortSync.State Float

  abbrev Act : Type 0 → Type 0
  Act A = PortSync.Action Float A

  -- The restarts are spaced, the time of the last one is known, and the loop has slept at least `k`
  -- times.
  abbrev pub Knows : ℕ → St → Type 0
  Knows k s =
      (latest s.restarts ≡ s.last_restart)
      × IsSpaced world.restart_min_interval s.restarts
      × (k ≤ s.sleeps)

  -- A restart is far enough from the last one.
  abbrev Far : ℕ → ℕ → St → Type 0
  Far k now s = Knows k s × FarFrom world.restart_min_interval now s.last_restart

  abbrev Failed : ℕ → SyncError → St → Type 0
  Failed k e s = (e ≡ mule_client_error) × Knows k s

  abbrev Slept : ℕ → Result SyncError (Unit {0}) → St → Type 0
  Slept k = Either (λ u. Knows (suc k)) (Failed k)

  answered-Runs :
      {A : Type 0} (P : St → Type 0) (k : ℕ) (answer : Option A)
      → ((s : St) → P s → Knows k s)
      → Runs P (PortSync.answered Float answer) (Either (λ a. P) (Failed k))
  answered-Runs P k none h = λ s p. (refl, h s p)
  answered-Runs P k (some a) h = λ s p. p

  -- A question to the client changes nothing that is known.
  ask_client-Runs :
      {A : Type 0} (k : ℕ) (answer : ℕ → Option A)
      → Runs (Knows k) (PortSync.ask_client Float answer) (Either (λ a. Knows k) (Failed k))
  ask_client-Runs k answer =
      >>=-Runs (λ a. Knows k) (Failed k) (λ a. Knows k) (PortSync.ask Float answer)
        (PortSync.answered Float) (λ s p. p) (λ a. answered-Runs (Knows k) k a (λ s p. p))

  ask_client-Far-Runs :
      {A : Type 0} (k now : ℕ) (answer : ℕ → Option A)
      → Runs (Far k now) (PortSync.ask_client Float answer) (Either (λ a. Far k now) (Failed k))
  ask_client-Far-Runs k now answer =
      >>=-Runs (λ a. Far k now) (Failed k) (λ a. Far k now) (PortSync.ask Float answer)
        (PortSync.answered Float) (λ s p. p) (λ a. answered-Runs (Far k now) k a (λ s p. p.0))

  check_again-Runs :
      (k live : ℕ) (high : Bool)
      → Runs (Knows (suc k)) (PortSync.check_again Float world live high) (Slept k)
  check_again-Runs k live true = λ s p. p
  check_again-Runs k live false = λ s p. p

  less_slept : (k : ℕ) (e : SyncError) (s : St) → Failed (suc k) e s → Failed k e s
  less_slept k e s (r, (h, d, l)) = (r, (h, d, omega arith))

  -- A restart was accepted, and is not recorded yet.
  abbrev Restarted : ℕ → ℕ → St → Type 0
  Restarted k now s =
      (latest s.restarts ≡ some now)
      × IsSpaced world.restart_min_interval s.restarts
      × (k ≤ s.sleeps)

  after_restart-Runs :
      (k now live : ℕ)
      → Runs (Restarted k now) (PortSync.after_restart Float world now live) (Slept k)
  after_restart-Runs k now live =
      >>=-Runs (λ u. Knows k) (Failed k) (λ u. Knows (suc k))
        (PortSync.record_restart Float now live) _ (λ s p. p)
        (λ u.
          >>=-Runs (λ u'. Knows (suc k)) (Failed k) (λ u'. Knows (suc k)) (PortSync.sleep Float) _
            (λ s (h, d, l). (h, d, omega arith))
            (λ u'.
              >>=-Runs (λ high. Knows (suc k)) (Failed k) (λ high. Knows (suc k))
                (PortSync.ask_client Float world.network_status)
                (PortSync.check_again Float world live)
                (weaken-Runs (λ high. Knows (suc k)) (Failed (suc k)) (Failed k)
                  (PortSync.ask_client Float world.network_status) (less_slept k)
                  (ask_client-Runs (suc k) world.network_status))
                (check_again-Runs k live)))

  noted-Runs :
      (k now live current : ℕ) (accepted : Bool)
      → Runs
          (Far k now)
          (PortSync.noted Float world now accepted
            >>= PortSync.restarted Float world now live current)
          (Slept k)
  noted-Runs k now live current false = λ s ((h, d, l), far). (h, d, omega arith)
  noted-Runs k now live current true = λ s ((h, d, l), far).
      after_restart-Runs k now live (record s { restarts = now ∷ s.restarts })
        (refl, (subst (FarFrom world.restart_min_interval now) (sym h) far, d), l)

  set_port-Runs :
      (k now live : ℕ)
      → Runs (Far k now) (PortSync.set_port Float world live) (Either (λ u. Far k now) (Failed k))
  set_port-Runs k now live =
      >>=-Runs (λ u. Far k now) (Failed k) (λ u. Far k now)
        (PortSync.ask_client Float (λ n. world.set_listen_port n live)) _
        (ask_client-Far-Runs k now (λ n. world.set_listen_port n live)) (λ u s p. p)

  change_port-Runs :
      (k now live current : ℕ)
      → Runs (Far k now) (PortSync.change_port Float world now live current) (Slept k)
  change_port-Runs k now live current =
      >>=-Runs (λ u. Far k now) (Failed k) (λ u. Knows (suc k)) (PortSync.set_port Float world live)
        _ (set_port-Runs k now live)
        (λ u s p. noted-Runs k now live current (world.restart s.calls) _ p)

  unless_soon-Runs :
      (k now live current : ℕ) (soon : Bool) (s : St)
      → too_soon Float now world.restart_min_interval s.last_restart ≡ soon
      → Knows k s
      → Slept k
          (PortSync.unless_soon Float world now live current soon s).0
          (PortSync.unless_soon Float world now live current soon s).1
  unless_soon-Runs k now live current true s e (h, d, l) = (h, d, omega arith)
  unless_soon-Runs k now live current false s e p =
      change_port-Runs k now live current s
        (p, FarFrom-too_soon Float now world.restart_min_interval s.last_restart e)

  confirmed-Runs :
      (k : ℕ) (high : Bool) → Runs (Knows k) (PortSync.confirmed Float world high) (Slept k)
  confirmed-Runs k true = λ s (h, d, l). (h, d, omega arith)
  confirmed-Runs k false = λ s (h, d, l). (h, d, omega arith)

  compare_ports-Runs :
      (k live current : ℕ)
      → Runs (Knows k) (PortSync.compare_ports Float world live current) (Slept k)
  compare_ports-Runs k live current =
      if-Runs (Slept k) (live == current) _ _
        (>>=-Runs (λ high. Knows k) (Failed k) (λ u. Knows (suc k))
          (PortSync.ask_client Float world.network_status) (PortSync.confirmed Float world)
          (ask_client-Runs k world.network_status) (confirmed-Runs k))
        (λ s p.
          unless_soon-Runs k (world.now s.calls) live current _ (PortSync.count_call Float s) refl
            p)

  synchronise-Runs :
      (k : ℕ) (port : Option ℕ) → Runs (Knows k) (PortSync.synchronise Float world port) (Slept k)
  synchronise-Runs k none = λ s (h, d, l). (h, d, omega arith)
  synchronise-Runs k (some live) =
      >>=-Runs (λ current. Knows k) (Failed k) (λ u. Knows (suc k))
        (PortSync.ask_client Float world.get_listen_port) (PortSync.compare_ports Float world live)
        (ask_client-Runs k world.get_listen_port) (compare_ports-Runs k live)

  tolerated-Runs :
      (k : ℕ) (e : SyncError)
      → Runs
          (Failed k e)
          (PortSync.tolerated Float world e)
          (Either (λ u. Knows (suc k)) (λ e' s. ⊥))
  tolerated-Runs k mule_client_error = λ s (r, (h, d, l)). (h, d, omega arith)
  tolerated-Runs k restarter_error = λ s (r, p). cc r

  returned :
      (k : ℕ) (r : Result SyncError (Unit {0}) × St)
      → Either (λ u. Knows (suc k)) (λ e s. ⊥) r.0 r.1
      → (r.0 ≡ ok tt) × Knows (suc k) r.1
  returned k (ok u, s) h = (refl, h)
  returned k (err e, s) h = absurd h

  cycle-Knows :
      (k : ℕ) (s : St)
      → Knows k s
      → ((run_port_sync_cycle Float world s).0 ≡ ok tt)
        × Knows (suc k) (run_port_sync_cycle Float world s).1
  unfolding run_port_sync_cycle
  cycle-Knows k s p = returned k (run_port_sync_cycle Float world s) (
      catch-Runs (λ u. Knows (suc k)) (Failed k) (λ e s. ⊥)
        (PortSync.ask Float world.forwarded_port >>= PortSync.synchronise Float world)
        (PortSync.tolerated Float world)
        (>>=-Runs (λ port. Knows k) (Failed k) (λ u. Knows (suc k))
          (PortSync.ask Float world.forwarded_port) (PortSync.synchronise Float world) (λ s p. p)
          (synchronise-Runs k))
        (tolerated-Runs k) s p)

  loop-Knows : (n k : ℕ) (s : St) → Knows k s → Knows (k + n) (port_sync_loop Float world n s)
  unfolding port_sync_loop
  loop-Knows zero k s p = let e : k + 0 ≡ k = omega arith in rw e p
  loop-Knows (suc n) k s p =
      let e : k + suc n ≡ suc k + n = omega arith in
      rw e (loop-Knows n (suc k) (run_port_sync_cycle Float world s).1 (cycle-Knows k s p).1)

  -- Whatever the ports and the answers are, after any number of cycles from a state with no restart,
  -- the times that the cycles of two accepted restarts in a row have read from the clock are at least
  -- the minimal interval apart, the loop has slept at least once for each cycle, and the next cycle
  -- does not raise.
  pub port_sync_loop-IsSpaced :
      (n : ℕ) (s : St)
      → s.restarts ≡ []
      → s.last_restart ≡ none
      → IsSpaced world.restart_min_interval (port_sync_loop Float world n s).restarts
        × (n ≤ (port_sync_loop Float world n s).sleeps)
        × ((run_port_sync_cycle Float world (port_sync_loop Float world n s)).0 ≡ ok tt)
  port_sync_loop-IsSpaced n s fresh never =
      let p = loop-Knows n 0 s (
        rw (fresh, never),
        subst (IsSpaced world.restart_min_interval) (sym fresh) tt,
        omega arith,
      ) in
      (p.1, omega (arith, p.2), (cycle-Knows (0 + n) (port_sync_loop Float world n s) p).0)
