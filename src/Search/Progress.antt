-- ===== src/Search/Progress.antt =====
-- run_search_cycle.py: there is always a worker that can go on, and one that spins while it waits.
use emule_indexer.Common.{
  ℕ, zero, suc, ◌<◌, ◌≡◌, refl, sym, ap, ◌∙◌, inl, inr, ◌⊎◌, Bool, false, Option, none, some, List,
  [], ◌∷◌, any, length, In, All, Bool-cases, arith,
}
use emule_indexer.Common.Members.{Nodup, length-Nodup}
use mathlib.Core.Path.{subst}
use emule_indexer.Common.Text.{Str, str_eq}
use emule_indexer.Search.Tasks.{SearchTask, enqueue}
use emule_indexer.Search.Pool.{
  Phase, waiting, running, pausing, reporting, yielding, returned, Worker, Shelf, Pool, turn_at,
  drain, ready, start,
}
use emule_indexer.Search.Joined.{busy, all_busy, all_busy-ready, drain-Accounts}
use emule_indexer.Search.Refusals.{In_any, Item, Works, Stands, start-IsShelf}
use emule_indexer.Search.Potential.{repeats, acts, repeats_at, acts_at}

abbrev names_of : List Worker → List Str
names_of [] = []
names_of (worker ∷ workers) = worker.instance_name ∷ names_of workers

turn_at-names :
    (blocked : Bool) (n place : ℕ) (workers : List Worker) (shelf : Shelf)
    → names_of (turn_at blocked n place workers shelf).0 ≡ names_of workers
unfolding turn_at
turn_at-names blocked n place [] shelf = refl
turn_at-names blocked n zero (worker ∷ workers) shelf = refl
turn_at-names blocked n (suc place) (worker ∷ workers) shelf =
    ap (λ (t : List Str). worker.instance_name ∷ t) (turn_at-names blocked n place workers shelf)

drain-names :
    (n : ℕ) (schedule : List (ℕ × Bool)) (pool : Pool)
    → names_of (drain n schedule pool).workers ≡ names_of pool.workers
unfolding drain
drain-names n [] pool = refl
drain-names n ((place, blocked) ∷ schedule) pool =
    rw
      (drain-names n schedule (record {
        shelf = (turn_at blocked n place pool.workers pool.shelf).1;
        workers = (turn_at blocked n place pool.workers pool.shelf).0;
      }))
      (turn_at-names blocked n place pool.workers pool.shelf)

names_of-ready : (names : List Str) → names_of (ready names) ≡ names
names_of-ready [] = refl
names_of-ready (name ∷ names) = ap (λ (t : List Str). name ∷ t) (names_of-ready names)

-- The worker at a place can do something that is no repeated refusal, whatever it is told.
abbrev pub Proceeds : ℕ → ℕ → List Worker → List (Option SearchTask) → Type 0
Proceeds n place workers queue =
    (acts_at n place workers queue ≡ 1)
    × ((blocked : Bool) → repeats_at n blocked place workers queue ≡ 0)

busy-acts :
    (phase : Phase) (queue : List (Option SearchTask)) (name : Str)
    → busy phase ≡ 1
    → (acts phase queue ≡ 1) × ((blocked : Bool) → repeats blocked name phase queue ≡ 0)
busy-acts waiting queue name h = absurd (omega arith)
busy-acts (running task) queue name h = (refl, λ blocked. refl)
busy-acts pausing queue name h = (refl, λ blocked. refl)
busy-acts (reporting task) queue name h = (refl, λ blocked. refl)
busy-acts yielding queue name h = (refl, λ blocked. refl)
busy-acts returned queue name h = absurd (omega arith)

busy_cases : (phase : Phase) → (busy phase ≡ 0) ⊎ (busy phase ≡ 1)
busy_cases waiting = inl refl
busy_cases (running task) = inr refl
busy_cases pausing = inr refl
busy_cases (reporting task) = inr refl
busy_cases yielding = inr refl
busy_cases returned = inl refl

busy_or_idle : (k : ℕ) → (0 < k) ⊎ (k ≡ 0)
busy_or_idle zero = inr refl
busy_or_idle (suc k) = inl (omega arith)

busy_place :
    (n : ℕ) (workers : List Worker) (queue : List (Option SearchTask))
    → 0 < all_busy workers
    → (place : ℕ) × Proceeds n place workers queue
busy_place n [] queue h = absurd (omega arith)
busy_place n (worker ∷ workers) queue h = elim (busy_cases worker.phase) [
  | inr e ↦ (zero, busy-acts worker.phase queue worker.instance_name e)
  | inl e ↦ let (place, p) = busy_place n workers queue (omega (arith, e)) in (suc place, p)
]

free_phase :
    (names : List Str) (name : Str) (phase : Phase) (task : SearchTask)
    (queue : List (Option SearchTask))
    → Stands names name phase
    → busy phase ≡ 0
    → any (str_eq name) task.skipped_by ≡ false
    → (acts phase (some task ∷ queue) ≡ 1)
      × ((blocked : Bool) → repeats blocked name phase (some task ∷ queue) ≡ 0)
free_phase names name waiting task queue w h e =
    (refl, λ blocked. elim (Bool-cases blocked) [ inl b ↦ rw (b, e) | inr b ↦ rw b ])
free_phase names name (running t) task queue w h e = absurd (omega arith)
free_phase names name pausing task queue w h e = absurd (omega arith)
free_phase names name (reporting t) task queue w h e = absurd (omega arith)
free_phase names name yielding task queue w h e = absurd (omega arith)
free_phase names name returned task queue w h e = absurd w

-- Workers that all wait: one of them has not refused the top task, or all have.
free_place :
    (n : ℕ) (names : List Str) (workers : List Worker) (task : SearchTask)
    (queue : List (Option SearchTask))
    → All (Works names) workers
    → all_busy workers ≡ 0
    → ((place : ℕ) × Proceeds n place workers (some task ∷ queue))
      ⊎ ((a : Str) → In a (names_of workers) → In a task.skipped_by)
free_place n names [] task queue w h = inr (λ a m. absurd m)
free_place n names (worker ∷ workers) task queue (first, w) h =
    elim (Bool-cases (any (str_eq worker.instance_name) task.skipped_by)) [
      | inr new ↦ inl (
        zero,
        free_phase names worker.instance_name worker.phase task queue first.1 (omega arith) new,
      )
      | inl old ↦ elim (free_place n names workers task queue w (omega arith)) [
        | inl (place, p) ↦ inl (suc place, p)
        | inr all ↦ inr (λ a m. elim m [
          | inl e ↦ subst (λ x. In x task.skipped_by) (sym e) (In_any _ task.skipped_by old)
          | inr k ↦ all a k
        ])
      ]
    ]

queue_place :
    (names : List Str) (pool : Pool)
    → Nodup names
    → 0 < length names
    → names_of pool.workers ≡ names
    → All (Works names) pool.workers
    → all_busy pool.workers ≡ 0
    → (queue : List (Option SearchTask)) → pool.shelf.queue ≡ queue
    → All (Item names) queue
    → 0 < length queue
    → (place : ℕ) × Proceeds (length names) place pool.workers queue
queue_place names pool once some_name same w idle [] e h long = absurd (omega arith)
queue_place names pool once some_name same w idle (none ∷ queue) e h long = absurd h.0
queue_place names pool once some_name same w idle (some task ∷ queue) e h long =
    elim (free_place (length names) names pool.workers task queue w idle) [
      | inl found ↦ found
      | inr all ↦
          let more =
            length-Nodup names task.skipped_by once (λ a m. all a (subst (In a) (sym same) m)) in
          absurd (omega (arith, more, h.0.1))
    ]

-- Nothing can block the pool: while a task is not done, some worker has a turn in which it does
-- something that is no repeated refusal, if the pool has workers and their names differ.
pub drain-Proceeds :
    (names texts : List Str) (schedule : List (ℕ × Bool))
    → Nodup names
    → 0 < length names
    → 0 < (drain (length names) schedule (start names (enqueue texts []))).shelf.unfinished
    → (place : ℕ) × Proceeds
        (length names)
        place
        (drain (length names) schedule (start names (enqueue texts []))).workers
        (drain (length names) schedule (start names (enqueue texts []))).shelf.queue
unfolding start
drain-Proceeds names texts schedule once some_name open_tasks =
    let first = start names (enqueue texts []) in
    let pool = drain (length names) schedule first in
    let (works, (items, dropped)) = start-IsShelf names texts schedule in
    let accounts =
      drain-Accounts (length names) schedule first (omega (arith, all_busy-ready names)) in
    elim (busy_or_idle (all_busy pool.workers)) [
      | inl some_busy ↦ busy_place (length names) pool.workers pool.shelf.queue some_busy
      | inr idle ↦
          queue_place names pool once some_name
            (drain-names (length names) schedule first ∙ names_of-ready names) works idle
            pool.shelf.queue refl items (omega (arith, accounts))
    ]
