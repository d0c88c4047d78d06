-- ===== src/Download/Runs.antt =====
-- What an action does to the table, by what it starts from and ends with.
use emule_indexer.Common.{ℕ, ◌≡◌, refl, inl, inr, Bool-cases, Result, ok, err}
use emule_indexer.Download.World.{
  LoopError, repository_error, State, World, Exec, ◌>>=◌, catch, continue_with, handled,
}
use emule_indexer.Download.Table.{calling, count_call}
use emule_indexer.Download.Moves.{Kept, quiet, Steps, Steps-trans, one}

-- The answer does not matter, only where it ends.
abbrev pub Always : {A : Type 0} → (State → Type 0) → Result LoopError A → State → Type 0
Always P r s = P s

-- The state after a return; nothing is said after an error.
abbrev pub OnReturn : {A : Type 0} → (A → State → Type 0) → Result LoopError A → State → Type 0
OnReturn Q (ok a) s = Q a s
OnReturn Q (err e) s = Unit {0}

pub Kept-same : (s : State) → Kept s s
Kept-same s = (λ h m. m, λ h m. m)

module _ (cap : ℕ) where
  -- From a state where `P` holds, `m` makes legal changes and ends, with `Q` of its answer.
  abbrev pub Runs :
      {A : Type 0} → (State → Type 0) → Exec A → (Result LoopError A → State → Type 0) → Type 0
  Runs P m Q = (s : State) → P s → Steps cap s (m s).1 × Q (m s).0 (m s).1

  continue-Runs :
      {A B : Type 0} (s : State) (Q : Result LoopError A → State → Type 0)
      (R : Result LoopError B → State → Type 0) (r : Result LoopError A × State) (next : A → Exec B)
      → Steps cap s r.1 × Q r.0 r.1
      → ((a : A) → Runs (Q (ok a)) (next a) R)
      → ((e : LoopError) (t : State) → Q (err e) t → R (err e) t)
      → Steps cap s (continue_with next r).1 × R (continue_with next r).0 (continue_with next r).1
  continue-Runs s Q R (ok a, t) next (steps, q) after failed =
      let (more, r) = after a t q in (Steps-trans steps more, r)
  continue-Runs s Q R (err e, t) next (steps, q) after failed = (steps, failed e t q)

  pub >>=-Runs :
      {A B : Type 0} {P : State → Type 0} (Q : Result LoopError A → State → Type 0)
      (R : Result LoopError B → State → Type 0) (m : Exec A) (next : A → Exec B)
      → Runs P m Q
      → ((a : A) → Runs (Q (ok a)) (next a) R)
      → ((e : LoopError) (t : State) → Q (err e) t → R (err e) t)
      → Runs P (m >>= next) R
  >>=-Runs Q R m next run after failed s p = continue-Runs s Q R (m s) next (run s p) after failed

  handled-Runs :
      {A : Type 0} (s : State) (Q R : Result LoopError A → State → Type 0)
      (r : Result LoopError A × State) (handler : LoopError → Exec A)
      → Steps cap s r.1 × Q r.0 r.1
      → ((a : A) (t : State) → Q (ok a) t → R (ok a) t)
      → ((e : LoopError) → Runs (Q (err e)) (handler e) R)
      → Steps cap s (handled handler r).1 × R (handled handler r).0 (handled handler r).1
  handled-Runs s Q R (ok a, t) handler (steps, q) fine raised = (steps, fine a t q)
  handled-Runs s Q R (err e, t) handler (steps, q) fine raised =
      let (more, r) = raised e t q in (Steps-trans steps more, r)

  pub catch-Runs :
      {A : Type 0} {P : State → Type 0} (Q R : Result LoopError A → State → Type 0) (m : Exec A)
      (handler : LoopError → Exec A)
      → Runs P m Q
      → ((a : A) (t : State) → Q (ok a) t → R (ok a) t)
      → ((e : LoopError) → Runs (Q (err e)) (handler e) R)
      → Runs P (catch m handler) R
  catch-Runs Q R m handler run fine raised s p =
      handled-Runs s Q R (m s) handler (run s p) fine raised

  pub calling-Runs :
      {A : Type 0} {P : State → Type 0} (world : World) (Q : Result LoopError A → State → Type 0)
      (body : Exec A)
      → ((s : State) → P s → Q (err repository_error) (count_call s))
      → ((s : State)
          → P s
          → Steps cap (count_call s) (body (count_call s)).1
            × Q (body (count_call s)).0 (body (count_call s)).1)
      → Runs P (calling world body) Q
  calling-Runs world Q body failed works s p =
      elim (Bool-cases (world.repository_fails s.repository_calls)) [
        | inl fails ↦ rw fails (one (quiet refl (λ h m. m, λ h m. m)), failed s p)
        | inr called ↦
            let (steps, q) = works s p in
            rw called (Steps-trans (one (quiet refl (λ h m. m, λ h m. m))) steps, q)
      ]

  -- An action that leaves the table and what was kept as they are.
  pub quiet-Runs :
      {A : Type 0} {P : State → Type 0} (Q : Result LoopError A → State → Type 0) (m : Exec A)
      → ((s : State) → s.downloads ≡ (m s).1.downloads)
      → ((s : State) → Kept s (m s).1)
      → ((s : State) → P s → Q (m s).0 (m s).1)
      → Runs P m Q
  quiet-Runs Q m same kept post s p = (one (quiet (same s) (kept s)), post s p)

  pub weaken-Runs :
      {A : Type 0} {P : State → Type 0} (Q R : Result LoopError A → State → Type 0) (m : Exec A)
      → Runs P m Q
      → ((r : Result LoopError A) (t : State) → Q r t → R r t)
      → Runs P m R
  weaken-Runs Q R m run weaker s p = let (steps, q) = run s p in (steps, weaker (m s).0 (m s).1 q)
