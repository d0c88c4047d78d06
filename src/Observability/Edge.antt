-- ===== src/Observability/Edge.antt =====
-- application/edge_state.py, and the alerts about an outage that lasts.
use emule_indexer.Common.{
  ◌≡◌, refl, inl, inr, Bool, true, false, not, Bool-cases, Option, none, some, List, [], ◌∷◌, any,
  if◌then◌else◌,
}
use emule_indexer.Common.Text.{Str, str_eq, str_eq_refl}

abbrev active : Str → List Str → Bool
active condition conditions = any (str_eq condition) conditions

-- What is left without one name.
unfoldable pub discard : Str → List Str → List Str
discard condition [] = []
discard condition (c ∷ conditions) =
    let rest = discard condition conditions in if str_eq condition c then rest else c ∷ rest

-- `enter` and `leave`: their answers and the set of active conditions behind them.
unfoldable pub enter : Str → List Str → Bool × List Str
enter condition conditions =
    if active condition conditions then (false, conditions) else (true, condition ∷ conditions)

unfoldable pub leave : Str → List Str → Bool × List Str
unfolding discard
leave condition conditions =
    if active condition conditions
    then (true, discard condition conditions)
    else (false, conditions)

-- What the cycles say of one condition, one after the other: an answer of `enter` for each cycle
-- in which it holds.
unfoldable pub watch : Str → List Bool → List Str → List (Option Bool)
unfolding enter leave
watch condition [] conditions = []
watch condition (true ∷ cycles) conditions =
    some (enter condition conditions).0 ∷ watch condition cycles (enter condition conditions).1
watch condition (false ∷ cycles) conditions =
    none ∷ watch condition cycles (leave condition conditions).1

-- It is new in a cycle if it did not hold in the one before.
abbrev pub edges : Bool → List Bool → List (Option Bool)
edges before [] = []
edges before (true ∷ cycles) = some (not before) ∷ edges true cycles
edges before (false ∷ cycles) = none ∷ edges false cycles

active-discard :
    (condition : Str) (conditions : List Str)
    → active condition (discard condition conditions) ≡ false
unfolding discard
active-discard condition [] = refl
active-discard condition (c ∷ conditions) = elim (Bool-cases (str_eq condition c)) [
  | inl same ↦ rw same (active-discard condition conditions)
  | inr other ↦ rw other (rw other (active-discard condition conditions))
]

active-enter :
    (condition : Str) (conditions : List Str)
    → active condition (enter condition conditions).1 ≡ true
unfolding enter
active-enter condition conditions = elim (Bool-cases (active condition conditions)) [
  | inl on ↦ rw on on
  | inr off ↦ rw (off, str_eq_refl condition)
]

active-leave :
    (condition : Str) (conditions : List Str)
    → active condition (leave condition conditions).1 ≡ false
unfolding leave
active-leave condition conditions = elim (Bool-cases (active condition conditions)) [
  | inl on ↦ rw on (active-discard condition conditions)
  | inr off ↦ rw off off
]

enter-first :
    (condition : Str) (conditions : List Str)
    → (enter condition conditions).0 ≡ not (active condition conditions)
unfolding enter
enter-first condition conditions = elim (Bool-cases (active condition conditions)) [
  | inl on ↦ rw on
  | inr off ↦ rw off
]

-- Over any cycles, `enter` answers that a condition is new exactly in the cycles where it holds and
-- did not hold in the cycle before.
pub watch-edges :
    (condition : Str) (cycles : List Bool) (conditions : List Str)
    → watch condition cycles conditions ≡ edges (any (str_eq condition) conditions) cycles
unfolding watch
watch-edges condition [] conditions = refl
watch-edges condition (true ∷ cycles) conditions = rw (
  enter-first condition conditions,
  watch-edges condition cycles (enter condition conditions).1,
  active-enter condition conditions,
)
watch-edges condition (false ∷ cycles) conditions =
    rw (
      watch-edges condition cycles (leave condition conditions).1,
      active-leave condition conditions,
    )
