-- ===== src/Matching/Validation/Cycle.antt =====
-- A `CycleError` names a cycle.
use emule_indexer.Common.{
  ℕ, zero, suc, ◌≡◌, inl, inr, refl, sym, ap, ◌∙◌, List, [], ◌∷◌, ◌++◌, In, Result, err,
  Result-cases, Bool-cases, true, map, append_assoc,
}
use mathlib.Core.Path.{subst}
use emule_indexer.Common.Text.{Str, str_eq, str_eq_iff}
use emule_indexer.Matching.Library.{Library}
use emule_indexer.Matching.Config.{MatcherConfig}
use emule_indexer.Matching.Validation.{
  ConfigError, cycle_error, elem, from_name, refs_of, walk_each, walk, check_acyclic,
}

from_name-elem :
    (name : Str) (names : List Str)
    → elem name names ≡ true
    → (before : List Str) × (rest : List Str) × (from_name name names ≡ name ∷ rest)
      × (names ≡ before ++ (name ∷ rest))
unfolding elem from_name
from_name-elem name [] h = cc
from_name-elem name (x ∷ xs) h = elim (Bool-cases (str_eq name x)) [
  | inl same ↦
      let e = (str_eq_iff name x).0 same in
      ([], xs, rw same (ap (λ y. y ∷ xs) (sym e)), ap (λ y. y ∷ xs) (sym e))
  | inr other ↦
      let (before, rest, cut, whole) = from_name-elem name xs (rw other at h) in
      (x ∷ before, rest, rw other cut, ap (λ (t : List Str). x ∷ t) whole)
]

module _ (lib : Library) (config : MatcherConfig lib) where
  -- Each name refers to the one behind it.
  abbrev pub Follows : List Str → Type 0
  Follows [] = Unit {0}
  Follows (a ∷ []) = Unit {0}
  Follows (a ∷ b ∷ names) = In b (refs_of lib config a) × Follows (b ∷ names)

  -- A path of references that comes back to where it starts.
  pub record Cycle (names : List Str) : Type 0 where
    pub start : Str
    pub between : List Str
    pub closes : names ≡ start ∷ (between ++ (start ∷ []))
    pub follows : Follows names

  Follows-suffix : (before names : List Str) → Follows (before ++ names) → Follows names
  Follows-suffix [] names f = f
  Follows-suffix (a ∷ []) [] f = tt
  Follows-suffix (a ∷ []) (b ∷ names) f = f.1
  Follows-suffix (a ∷ b ∷ before) names f = Follows-suffix (b ∷ before) names f.1

  Follows-push :
      (stack : List Str) (a b : Str)
      → Follows (stack ++ (a ∷ []))
      → In b (refs_of lib config a)
      → Follows ((stack ++ (a ∷ [])) ++ (b ∷ []))
  Follows-push [] a b f m = (m, tt)
  Follows-push (x ∷ []) a b f m = (f.0, (m, tt))
  Follows-push (x ∷ y ∷ stack) a b f m = (f.0, Follows-push (y ∷ stack) a b f.1 m)

  loop-Cycle :
      (stack : List Str) (name : Str)
      → Follows (stack ++ (name ∷ []))
      → elem name stack ≡ true
      → Cycle (from_name name stack ++ (name ∷ []))
  loop-Cycle stack name f h =
      let (before, rest, cut, whole) = from_name-elem name stack h in
      record {
        start = name;
        between = rest;
        closes = ap (λ t. t ++ (name ∷ [])) cut;
        follows =
            subst (λ t. Follows (t ++ (name ∷ []))) (sym cut)
              (Follows-suffix before ((name ∷ rest) ++ (name ∷ [])) (
                subst Follows
                  (ap (λ t. t ++ (name ∷ [])) whole ∙ append_assoc before (name ∷ rest) (name ∷ []))
                  f));
      }

  -- The visit that raised the error.
  walk_each-err :
      (visit : Str → List Str → Result ConfigError (List Str)) (refs done : List Str)
      (e : ConfigError)
      → walk_each lib config visit refs done ≡ err e
      → (r : Str) × (d : List Str) × In r refs × (visit r d ≡ err e)
  unfolding walk_each
  walk_each-err visit [] done e h = cc
  walk_each-err visit (r ∷ refs) done e h = elim (Result-cases (visit r done)) [
    | inl (d, v) ↦ let (s, x, m, w) = walk_each-err visit refs d e (rw v at h) in (s, x, inr m, w)
    | inr (e', v) ↦ (r, done, inl refl, v ∙ (rw v at h))
  ]

  cycle-injective :
      {A : Type 0} {a b : List Str}
      → ◌≡◌ {A = Result ConfigError A} (err (cycle_error a)) (err (cycle_error b))
      → a ≡ b
  cycle-injective h = cc

  walk-Cycle :
      (left : ℕ) (stack : List Str) (name : Str) (done names : List Str)
      → Follows (stack ++ (name ∷ []))
      → walk lib config left stack name done ≡ err (cycle_error names)
      → Cycle names
  unfolding walk
  walk-Cycle zero stack name done names f h = elim (Bool-cases (elem name done)) [
    | inl there ↦ cc (rw there at h)
    | inr new ↦ elim (Bool-cases (elem name stack)) [
      | inl loop ↦
          subst Cycle (cycle-injective (rw (new, loop) at h)) (loop-Cycle stack name f loop)
      | inr fresh ↦ cc (rw (new, fresh) at h)
    ]
  ]
  walk-Cycle (suc left) stack name done names f h = elim (Bool-cases (elem name done)) [
    | inl there ↦ cc (rw there at h)
    | inr new ↦ elim (Bool-cases (elem name stack)) [
      | inl loop ↦
          subst Cycle (cycle-injective (rw (new, loop) at h)) (loop-Cycle stack name f loop)
      | inr fresh ↦
          let visit = walk lib config left (stack ++ (name ∷ [])) in
          elim (Result-cases (walk_each lib config visit (refs_of lib config name) done)) [
            | inl (d, v) ↦ cc (rw (new, fresh, v) at h)
            | inr (e, v) ↦
                let (r, d, m, w) = walk_each-err visit (refs_of lib config name) done e v in
                walk-Cycle left (stack ++ (name ∷ [])) r d names (Follows-push stack name r f m)
                  (w ∙ (rw (new, fresh, v) at h))
          ]
    ]
  ]

  -- The names of a `CycleError` are a path of references that comes back to its start.
  pub check_acyclic-Cycle :
      (max_depth : ℕ) (names : List Str)
      → check_acyclic lib config max_depth ≡ err (cycle_error names)
      → Cycle names
  unfolding check_acyclic
  check_acyclic-Cycle n names h =
      let (r, d, m, w) =
        walk_each-err (walk lib config n []) (map (λ t. t.0) config.tokens) [] (cycle_error names)
          h in
      walk-Cycle n [] r d names tt w
