-- ===== src/Matching/Validation/Walk.antt =====
-- One visit of `walk`: either the name was done before, or it is done behind all that it refers to.
use emule_indexer.Common.{
  ℕ, zero, suc, ◌≡◌, ◌⊎◌, inl, inr, refl, ◌↔◌, true, false, List, [], ◌∷◌, ◌++◌, In, All, Result,
  ok, >>=-eq-ok, ok-injective, arith, Bool-cases,
}
use mathlib.Core.Path.{subst}
use emule_indexer.Common.Text.{Str, str_eq_iff}
use emule_indexer.Matching.Library.{Library}
use emule_indexer.Matching.Config.{MatcherConfig}
use emule_indexer.Matching.Validation.{ConfigError, elem, refs_of, walk_each, walk}

pub elem_iff : (name : Str) (names : List Str) → (elem name names ≡ true) ↔ In name names
unfolding elem
elem_iff name [] = (λ h. cc, λ m. absurd m)
elem_iff name (x ∷ xs) = ground (arith, str_eq_iff name x, elem_iff name xs)

pub elem-false : (name : Str) (names : List Str) → elem name names ≡ false → ¬ In name names
elem-false name names h m = cc (h, (elem_iff name names).1 m)

module _ (lib : Library) (config : MatcherConfig lib) where
  -- What `walk` does at a name that is not done.
  abbrev pub Entered : ℕ → List Str → Str → List Str → List Str → Type 0
  Entered zero stack name done done' = ⊥
  Entered (suc left) stack name done done' =
      (¬ In name done)
      × (¬ In name stack)
      × (below : List Str) × (walk_each lib config (walk lib config left (stack ++ (name ∷ [])))
            (refs_of lib config name) done
          ≡ ok below)
      × (name ∷ below ≡ done')

  pub walk-ok :
      (left : ℕ) (stack : List Str) (name : Str) (done done' : List Str)
      → walk lib config left stack name done ≡ ok done'
      → (In name done × (done ≡ done')) ⊎ Entered left stack name done done'
  unfolding walk
  walk-ok zero stack name done done' h = elim (Bool-cases (elem name done)) [
    | inl there ↦ inl ((elem_iff name done).0 there, ok-injective (rw there at h))
    | inr new ↦ elim (Bool-cases (elem name stack)) [
      | inl loop ↦ cc (rw (new, loop) at h)
      | inr fresh ↦ cc (rw (new, fresh) at h)
    ]
  ]
  walk-ok (suc left) stack name done done' h = elim (Bool-cases (elem name done)) [
    | inl there ↦ inl ((elem_iff name done).0 there, ok-injective (rw there at h))
    | inr new ↦ elim (Bool-cases (elem name stack)) [
      | inl loop ↦ cc (rw (new, loop) at h)
      | inr fresh ↦
          let (below, e, h') =
            >>=-eq-ok
              (walk_each lib config (walk lib config left (stack ++ (name ∷ [])))
                (refs_of lib config name) done)
              _ (rw (new, fresh) at h) in
          inr (elem-false name done new, elem-false name stack fresh, below, e, ok-injective h')
    ]
  ]

  module _ (visit : Str → List Str → Result ConfigError (List Str)) where
    -- What each visit keeps is kept.
    pub walk_each_keeps :
        (I : List Str → Type 0) (refs done done' : List Str)
        → ((r : Str) (d d' : List Str) → In r refs → I d → visit r d ≡ ok d' → I d')
        → I done
        → walk_each lib config visit refs done ≡ ok done'
        → I done'
    unfolding walk_each
    walk_each_keeps I [] done done' step i h = subst I (ok-injective h) i
    walk_each_keeps I (r ∷ refs) done done' step i h =
        let (d, e, h') = >>=-eq-ok (visit r done) _ h in
        walk_each_keeps I refs d done' (λ s a b m. step s a b (inr m))
          (step r done d (inl refl) i e) h'

    -- A visit marks its name, and no mark is lost: in the end all names are marked.
    pub walk_each-all :
        (refs done done' : List Str)
        → ((r : Str) (d d' : List Str) → visit r d ≡ ok d' → In r d')
        → ((r x : Str) (d d' : List Str) → visit r d ≡ ok d' → In x d → In x d')
        → walk_each lib config visit refs done ≡ ok done'
        → All (λ r. In r done') refs
    unfolding walk_each
    walk_each-all [] done done' marks grows h = tt
    walk_each-all (r ∷ refs) done done' marks grows h =
        let (d, e, h') = >>=-eq-ok (visit r done) _ h in
        (
          walk_each_keeps (In r) refs d done' (λ s a b _ m v. grows s r a b v m) (marks r done d e)
              h',
          walk_each-all refs d done' marks grows h',
        )

  pub walk-grows :
      (left : ℕ) (stack : List Str) (name x : Str) (done done' : List Str)
      → walk lib config left stack name done ≡ ok done'
      → In x done
      → In x done'
  walk-grows zero stack name x done done' h m = elim (walk-ok zero stack name done done' h) [
    | inl (there, same) ↦ subst (In x) same m
    | inr entered ↦ elim entered [ ]
  ]
  walk-grows (suc left) stack name x done done' h m =
      elim (walk-ok (suc left) stack name done done' h) [
        | inl (there, same) ↦ subst (In x) same m
        | inr (_, _, below, e, same) ↦ subst (In x) same (
            inr (
              walk_each_keeps (walk lib config left (stack ++ (name ∷ []))) (In x)
                (refs_of lib config name) done below
                (λ r d d' _ i v. walk-grows left (stack ++ (name ∷ [])) r x d d' v i) m e))
      ]

  pub walk-marks :
      (left : ℕ) (stack : List Str) (name : Str) (done done' : List Str)
      → walk lib config left stack name done ≡ ok done'
      → In name done'
  walk-marks zero stack name done done' h = elim (walk-ok zero stack name done done' h) [
    | inl (there, same) ↦ subst (In name) same there
    | inr entered ↦ elim entered [ ]
  ]
  walk-marks (suc left) stack name done done' h =
      elim (walk-ok (suc left) stack name done done' h) [
        | inl (there, same) ↦ subst (In name) same there
        | inr (_, _, below, e, same) ↦ subst (In name) same (inl refl)
      ]
