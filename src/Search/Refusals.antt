-- ===== src/Search/Refusals.antt =====
-- run_search_cycle.py: which tasks are given up.
use emule_indexer.Common.{
  ℕ, zero, suc, ◌-◌, ◌≤◌, ◌≡◌, ◌⊎◌, refl, sym, inl, inr, Bool, true, false, Option, none, some,
  List, [], ◌∷◌, any, length, leb, leb→le, In, All, Bool-cases, arith,
}
use emule_indexer.Common.Members.{Nodup, length-Nodup}
use mathlib.Core.Path.{subst}
use emule_indexer.Common.Text.{Str, str_eq, str_eq_iff}
use emule_indexer.Search.Tasks.{SearchTask, add_name, enqueue}
use emule_indexer.Search.Pool.{
  Phase, waiting, running, pausing, reporting, yielding, returned, Worker, Shelf, Pool, refuse,
  serve, after_task, turn, turn_at, drain, ready, start,
}

pub In_any : (a : Str) (xs : List Str) → any (str_eq a) xs ≡ true → In a xs
In_any a [] h = absurd (cc)
In_any a (x ∷ xs) h = elim (Bool-cases (str_eq a x)) [
  | inl same ↦ inl ((str_eq_iff a x).0 same)
  | inr other ↦ inr (In_any a xs (rw other at h))
]

not-In_any : (a : Str) (xs : List Str) → any (str_eq a) xs ≡ false → ¬ In a xs
not-In_any a [] h m = m
not-In_any a (x ∷ xs) h (inl e) = cc (rw ((str_eq_iff a x).1 e) at h)
not-In_any a (x ∷ xs) h (inr m) = elim (Bool-cases (str_eq a x)) [
  | inl same ↦ absurd (cc (rw same at h))
  | inr other ↦ not-In_any a xs (rw other at h) m
]

add_name-Nodup : (name : Str) (names : List Str) → Nodup names → Nodup (add_name name names)
unfolding add_name
add_name-Nodup name names n = elim (Bool-cases (any (str_eq name) names)) [
  | inl old ↦ rw old n
  | inr new ↦ rw new (not-In_any name names new, n)
]

add_name-In :
    (name a : Str) (names : List Str) → In a (add_name name names) → (a ≡ name) ⊎ In a names
unfolding add_name
add_name-In name a names m = elim (Bool-cases (any (str_eq name) names)) [
  | inl old ↦ inr (rw old at m)
  | inr new ↦ elim (rw new at m) [ inl e ↦ inl e | inr there ↦ inr there ]
]

-- A list without repetition that is as long as a list around it holds all of its members.
In-Nodup :
    (xs ys : List Str)
    → Nodup xs
    → ((a : Str) → In a xs → In a ys)
    → length ys ≤ length xs
    → (a : Str) → In a ys
    → In a xs
In-Nodup xs ys n sub long a m = elim (Bool-cases (any (str_eq a) xs)) [
  | inl there ↦ In_any a xs there
  | inr missing ↦
      let more =
        length-Nodup (a ∷ xs) ys (not-In_any a xs missing, n)
          (λ b k. elim k [ inl e ↦ subst (λ x. In x ys) (sym e) m | inr k' ↦ sub b k' ]) in
      absurd (omega (arith, more))
]

module _ (names : List Str) where
  -- The refusals of a task are by workers of the pool, each noted once.
  abbrev pub Noted : SearchTask → Type 0
  Noted task = Nodup task.skipped_by × ((a : Str) → In a task.skipped_by → In a names)

  -- Every worker of the pool has refused it, the last one now.
  abbrev pub RefusedByAll : SearchTask × Str → Type 0
  RefusedByAll (task, name) = (a : Str) → In a names → In a (add_name name task.skipped_by)

  -- What is in the queue before the sentinels are, and the workers then.
  abbrev pub Item : Option SearchTask → Type 0
  Item none = ⊥
  Item (some task) = Noted task × (length task.skipped_by ≤ length names - 1)

  abbrev pub Stands : Str → Phase → Type 0
  Stands name waiting = Unit {0}
  Stands name (running task) = Noted task
  Stands name pausing = Unit {0}
  Stands name (reporting task) = RefusedByAll (task, name)
  Stands name yielding = Unit {0}
  Stands name returned = ⊥

  abbrev pub Works : Worker → Type 0
  Works worker = In worker.instance_name names × Stands worker.instance_name worker.phase

  abbrev pub IsShelf : Shelf → Type 0
  IsShelf shelf = All Item shelf.queue × All RefusedByAll shelf.dropped

  refuse-IsShelf :
      (name : Str) (task : SearchTask) (shelf : Shelf)
      → In name names
      → Noted task
      → IsShelf shelf
      → Stands name (refuse (length names) name task shelf).0
        × IsShelf (refuse (length names) name task shelf).1
  unfolding refuse
  refuse-IsShelf name task shelf member (once, sub) (queue, dropped) =
      let new_once = add_name-Nodup name task.skipped_by once in
      let new_sub : (a : Str) → In a (add_name name task.skipped_by) → In a names = λ a m.
        elim (add_name-In name a task.skipped_by m) [
          | inl e ↦ subst (λ x. In x names) (sym e) member
          | inr k ↦ sub a k
        ] in
      elim (Bool-cases (leb (length names) (length (add_name name task.skipped_by)))) [
        | inl full ↦ rw full (
          In-Nodup (add_name name task.skipped_by) names new_once new_sub (leb→le _ _ full),
          (queue, dropped),
        )
        | inr left ↦ rw left (tt, ((((new_once, new_sub), ground arith), queue), dropped))
      ]

  serve-IsShelf :
      (blocked : Bool) (name : Str) (queue : List (Option SearchTask)) (shelf : Shelf)
      → In name names
      → All Item queue
      → IsShelf shelf
      → Stands name (serve blocked (length names) name queue shelf).0
        × IsShelf (serve blocked (length names) name queue shelf).1
  unfolding serve
  serve-IsShelf blocked name [] shelf member items s = (tt, s)
  serve-IsShelf blocked name (none ∷ queue) shelf member items s = absurd items.0
  serve-IsShelf true name (some task ∷ queue) shelf member items s =
      refuse-IsShelf name task (record shelf { queue = queue }) member items.0.0 (items.1, s.1)
  serve-IsShelf false name (some task ∷ queue) shelf member items s = (items.0.0, (items.1, s.1))

  after_task-IsShelf :
      (name : Str) (queue : List (Option SearchTask)) (shelf : Shelf)
      → IsShelf shelf
      → Stands name (after_task queue shelf).0 × IsShelf (after_task queue shelf).1
  unfolding after_task
  after_task-IsShelf name [] shelf s = (tt, s)
  after_task-IsShelf name (item ∷ queue) shelf s = (tt, s)

  turn-IsShelf :
      (blocked : Bool) (name : Str) (phase : Phase) (shelf : Shelf)
      → In name names
      → Stands name phase
      → IsShelf shelf
      → Stands name (turn blocked (length names) name phase shelf).0
        × IsShelf (turn blocked (length names) name phase shelf).1
  unfolding turn
  turn-IsShelf blocked name waiting shelf member w s =
      serve-IsShelf blocked name shelf.queue shelf member s.0 s
  turn-IsShelf blocked name (running task) shelf member w s =
      after_task-IsShelf name shelf.queue (record shelf { ran = task ∷ shelf.ran }) s
  turn-IsShelf blocked name pausing shelf member w s = (tt, s)
  turn-IsShelf blocked name (reporting task) shelf member w s = (tt, (s.0, (w, s.1)))
  turn-IsShelf blocked name yielding shelf member w s = (tt, s)
  turn-IsShelf blocked name returned shelf member w s = absurd w

  turn_at-IsShelf :
      (blocked : Bool) (place : ℕ) (workers : List Worker) (shelf : Shelf)
      → All Works workers
      → IsShelf shelf
      → All Works (turn_at blocked (length names) place workers shelf).0
        × IsShelf (turn_at blocked (length names) place workers shelf).1
  unfolding turn_at
  turn_at-IsShelf blocked place [] shelf w s = (tt, s)
  turn_at-IsShelf blocked zero (worker ∷ workers) shelf ((member, stands), w) s =
      let (stands', s') =
        turn-IsShelf blocked worker.instance_name worker.phase shelf member stands s in
      (((member, stands'), w), s')
  turn_at-IsShelf blocked (suc place) (worker ∷ workers) shelf (first, w) s =
      let (w', s') = turn_at-IsShelf blocked place workers shelf w s in ((first, w'), s')

  drain-IsShelf :
      (schedule : List (ℕ × Bool)) (pool : Pool)
      → All Works pool.workers
      → IsShelf pool.shelf
      → All Works (drain (length names) schedule pool).workers
        × IsShelf (drain (length names) schedule pool).shelf
  unfolding drain
  drain-IsShelf [] pool w s = (w, s)
  drain-IsShelf ((place, blocked) ∷ schedule) pool w s =
      let (w', s') = turn_at-IsShelf blocked place pool.workers pool.shelf w s in
      drain-IsShelf schedule
        (record {
          shelf = (turn_at blocked (length names) place pool.workers pool.shelf).1;
          workers = (turn_at blocked (length names) place pool.workers pool.shelf).0;
        })
        w' s'

  enqueue-Item :
      (texts : List Str) (queue : List (Option SearchTask))
      → All Item queue
      → All Item (enqueue texts queue)
  unfolding enqueue
  enqueue-Item [] queue h = h
  enqueue-Item (text ∷ texts) queue h =
      let fresh : Unit {0} × ((a : Str) → ⊥ → In a names) = (tt, λ a m. absurd m) in
      enqueue-Item texts _ ((fresh, omega arith), ((fresh, omega arith), h))

ready-Works :
    (names all : List Str) → ((a : Str) → In a names → In a all) → All (Works all) (ready names)
ready-Works [] all sub = tt
ready-Works (name ∷ names) all sub =
    ((sub name (inl refl), tt), ready-Works names all (λ a m. sub a (inr m)))

-- What holds before the sentinels are put into the queue.
pub start-IsShelf :
    (names texts : List Str) (schedule : List (ℕ × Bool))
    → All (Works names) (drain (length names) schedule (start names (enqueue texts []))).workers
      × IsShelf names (drain (length names) schedule (start names (enqueue texts []))).shelf
unfolding start
start-IsShelf names texts schedule =
    drain-IsShelf names schedule (start names (enqueue texts []))
      (ready-Works names names (λ a m. m)) (enqueue-Item names texts [] tt, tt)

-- A task is given up only when every worker has refused it: whatever the order of the turns, what
-- is noted on it together with the worker that gives it up names all workers of the pool.
pub drain-RefusedByAll :
    (names texts : List Str) (schedule : List (ℕ × Bool))
    → All
        (RefusedByAll names)
        (drain (length names) schedule (start names (enqueue texts []))).shelf.dropped
drain-RefusedByAll names texts schedule = (start-IsShelf names texts schedule).1.1
