-- ===== src/Matching/Validation/Acyclic.antt =====
-- The references of a config that passes `_check_acyclic` can be put in order, so the recursion of
-- `_max_resolution_depth` ends.
use emule_indexer.Common.{
  ℕ, zero, suc, ◌≡◌, inl, inr, refl, List, [], ◌∷◌, ◌++◌, map, In, All, All-In, ok, Option-cases,
}
use mathlib.Core.Path.{subst}
use emule_indexer.Common.Members.{Nodup, In-append-inv, In-append_left, In-append_right}
use emule_indexer.Common.Text.{Str}
use emule_indexer.Common.Dict.{get, All_names-get}
use emule_indexer.Matching.Library.{Library}
use emule_indexer.Matching.Config.{MatcherConfig}
use emule_indexer.Matching.Validation.{refs_of, walk, check_acyclic}
use emule_indexer.Matching.Validation.Depth.{Known, Closed}
use emule_indexer.Matching.Validation.Walk.{
  walk-ok, walk_each_keeps, walk_each-all, walk-grows, walk-marks,
}

module _ (lib : Library) (config : MatcherConfig lib) where
  -- Each name stands behind what it refers to.
  abbrev pub Ordered : List Str → Type 0
  Ordered [] = Unit {0}
  Ordered (name ∷ done) = All (λ r. In r done) (refs_of lib config name) × Ordered done

  walk-Ordered :
      (left : ℕ) (stack : List Str) (name : Str) (done done' : List Str)
      → Ordered done
      → walk lib config left stack name done ≡ ok done'
      → Ordered done'
  walk-Ordered zero stack name done done' o h =
      elim (walk-ok lib config zero stack name done done' h) [
        | inl (there, same) ↦ subst Ordered same o
        | inr entered ↦ elim entered [ ]
      ]
  walk-Ordered (suc left) stack name done done' o h =
      elim (walk-ok lib config (suc left) stack name done done' h) [
        | inl (there, same) ↦ subst Ordered same o
        | inr (_, _, below, e, same) ↦
            let visit = walk lib config left (stack ++ (name ∷ [])) in
            subst Ordered same (
              walk_each-all lib config visit (refs_of lib config name) done below
                  (λ r d d' v. walk-marks lib config left (stack ++ (name ∷ [])) r d d' v)
                  (λ r x d d' v m. walk-grows lib config left (stack ++ (name ∷ [])) r x d d' v m)
                  e,
              walk_each_keeps lib config visit Ordered (refs_of lib config name) done below
                  (λ r d d' _ i v. walk-Ordered left (stack ++ (name ∷ [])) r d d' i v) o e,
            )
      ]

  -- No name is marked twice, and none that stands on the stack.
  abbrev Apart : List Str → List Str → Type 0
  Apart stack done = Nodup done × ((x : Str) → In x stack → ¬ In x done)

  Apart-push :
      (stack done : List Str) (name : Str)
      → Apart stack done
      → ¬ In name done
      → Apart (stack ++ (name ∷ [])) done
  Apart-push stack done name (n, apart) new = (
    n,
    λ x m i. elim (In-append-inv x stack (name ∷ []) m) [
      | inl l ↦ apart x l i
      | inr (inl same) ↦ new (subst (λ y. In y done) same i)
      | inr (inr other) ↦ elim other [ ]
    ],
  )

  Apart-mark :
      (stack below : List Str) (name : Str)
      → ¬ In name stack
      → ¬ In name below
      → Apart stack below
      → Apart stack (name ∷ below)
  Apart-mark stack below name fresh new (n, apart) = (
    (new, n),
    λ x m i. elim i [ inl same ↦ fresh (subst (λ y. In y stack) same m) | inr l ↦ apart x m l ],
  )

  Apart-pop :
      (stack below : List Str) (name : Str)
      → Apart (stack ++ (name ∷ [])) below
      → (¬ In name below) × Apart stack below
  Apart-pop stack below name (n, apart) = (
    apart name (In-append_right name stack (name ∷ []) (inl refl)),
    (n, λ x m. apart x (In-append_left x stack (name ∷ []) m)),
  )

  walk-Apart :
      (left : ℕ) (stack : List Str) (name : Str) (done done' : List Str)
      → Apart stack done
      → walk lib config left stack name done ≡ ok done'
      → Apart stack done'
  walk-Apart zero stack name done done' a h =
      elim (walk-ok lib config zero stack name done done' h) [
        | inl (there, same) ↦ subst (Apart stack) same a
        | inr entered ↦ elim entered [ ]
      ]
  walk-Apart (suc left) stack name done done' a h =
      elim (walk-ok lib config (suc left) stack name done done' h) [
        | inl (there, same) ↦ subst (Apart stack) same a
        | inr (new, fresh, below, e, same) ↦
            let deeper = stack ++ (name ∷ []) in
            let (unmarked, apart) = Apart-pop stack below name (
              walk_each_keeps lib config (walk lib config left deeper) (Apart deeper)
                (refs_of lib config name) done below
                (λ r d d' _ i v. walk-Apart left deeper r d d' i v)
                (Apart-push stack done name a new) e) in
            subst (Apart stack) same (Apart-mark stack below name fresh unmarked apart)
      ]

  refs_of-Known :
      (name : Str) → Closed lib config → All (Known lib config) (refs_of lib config name)
  refs_of-Known name closed = elim (Option-cases (get name config.tokens)) [
    | inl absent ↦ rw absent tt
    | inr (d, e) ↦ rw e (closed name d e)
  ]

  walk-Known :
      (left : ℕ) (stack : List Str) (name : Str) (done done' : List Str)
      → Closed lib config
      → Known lib config name
      → All (Known lib config) done
      → walk lib config left stack name done ≡ ok done'
      → All (Known lib config) done'
  walk-Known zero stack name done done' c k a h =
      elim (walk-ok lib config zero stack name done done' h) [
        | inl (there, same) ↦ subst (All (Known lib config)) same a
        | inr entered ↦ elim entered [ ]
      ]
  walk-Known (suc left) stack name done done' c k a h =
      elim (walk-ok lib config (suc left) stack name done done' h) [
        | inl (there, same) ↦ subst (All (Known lib config)) same a
        | inr (new, fresh, below, e, same) ↦ subst (All (Known lib config)) same (
          k,
          walk_each_keeps lib config (walk lib config left (stack ++ (name ∷ [])))
              (All (Known lib config)) (refs_of lib config name) done below
              (λ r d d' m i v.
                walk-Known left (stack ++ (name ∷ [])) r d d' c
                  (All-In (Known lib config) r (refs_of lib config name) (refs_of-Known name c) m) i
                  v)
              a e,
        )
      ]

  -- What the marked names of a config that passes are.
  pub record Sorted (done : List Str) : Type 0 where
    pub ordered : Ordered done
    pub once : Nodup done
    pub known : All (Known lib config) done
    pub all : All (λ name. In name done) (map (λ t. t.0) config.tokens)

  pub check_acyclic-Sorted :
      (max_depth : ℕ) (done : List Str)
      → Closed lib config
      → check_acyclic lib config max_depth ≡ ok done
      → Sorted done
  unfolding check_acyclic
  check_acyclic-Sorted n done closed h =
      let names : List Str = map (λ t. t.0) config.tokens in
      let visit = walk lib config n [] in
      record {
        ordered =
            walk_each_keeps lib config visit Ordered names [] done
              (λ r d d' _ i v. walk-Ordered n [] r d d' i v) tt h;
        once =
            (walk_each_keeps lib config visit (Apart []) names [] done
              (λ r d d' _ i v. walk-Apart n [] r d d' i v) (tt, λ x m _. m) h).0;
        known =
            walk_each_keeps lib config visit (All (Known lib config)) names [] done
              (λ r d d' m i v.
                walk-Known n [] r d d' closed
                  (All-In (Known lib config) r names (All_names-get config.tokens) m) i v)
              tt h;
        all =
            walk_each-all lib config visit names [] done
              (λ r d d' v. walk-marks lib config n [] r d d' v)
              (λ r x d d' v m. walk-grows lib config n [] r x d d' v m) h;
      }
