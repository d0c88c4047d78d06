-- ===== src/Matching/Validation/Depth.antt =====
-- A config that passes the checks on references and on depth: what a name refers to is there, and
-- following references ends within the bound.
use emule_indexer.Common.{
  ℕ, zero, suc, ◌≤◌, ◌≡◌, some, List, [], ◌∷◌, map, All, All-map, Result, ok, >>=-eq-ok,
  ok-injective, ok_pair-injective, arith, Option-cases, inl, inr, length,
}
use mathlib.Core.Path.{subst}
use Prim.Native.Nat.{max}
use emule_indexer.Common.Text.{Str}
use emule_indexer.Common.Dict.{Dict, get, get-All, put-All, get-All_names, All_names-get}
use emule_indexer.Matching.Library.{Library}
use emule_indexer.Matching.Config.{TokenDef, Rule, MatcherConfig}
use emule_indexer.Matching.References.{condition_refs, def_refs}
use emule_indexer.Matching.Validation.{
  ConfigError, refs_of, check_refs, check_token_refs, check_rule_refs, check_references_exist,
  deepest, depth, max_resolution_depth,
}

module _ (lib : Library) (config : MatcherConfig lib) where
  abbrev pub Known : Str → Type 0
  Known name = (d : TokenDef lib) × (get name config.tokens ≡ some d)

  -- Following references from `name` meets only known names and ends after `n` of them at most.
  abbrev pub Within : ℕ → Str → Type 0
  Within zero name = ⊥
  Within (suc n) name =
      (d : TokenDef lib) × (get name config.tokens ≡ some d) × All (Within n) (def_refs lib d)

  pub Within-le : (n m : ℕ) (name : Str) → n ≤ m → Within n name → Within m name
  Within-le zero m name l w = elim w [ ]
  Within-le (suc n) zero name l w = absurd (omega arith)
  Within-le (suc n) (suc m) name l (d, e, h) =
      (d, e, All-map (λ ref. Within-le n m ref (omega arith)) (def_refs lib d) h)

  -- Every name that a token of the table refers to is known.
  abbrev pub Closed : Type 0
  Closed =
      (name : Str) (d : TokenDef lib) → get name config.tokens ≡ some d → All Known (def_refs lib d)

  check_refs-Known : (refs : List Str) → check_refs lib config refs ≡ ok tt → All Known refs
  unfolding check_refs
  check_refs-Known [] h = tt
  check_refs-Known (ref ∷ refs) h = elim (Option-cases (get ref config.tokens)) [
    | inl absent ↦ cc (rw absent at h)
    | inr (d, e) ↦ ((d, e), check_refs-Known refs (rw e at h))
  ]

  check_token_refs-Known :
      (tokens : Dict (TokenDef lib))
      → check_token_refs lib config tokens ≡ ok tt
      → All (λ (t : Str × TokenDef lib). All Known (def_refs lib t.1)) tokens
  unfolding check_token_refs
  check_token_refs-Known [] h = tt
  check_token_refs-Known ((name, d) ∷ tokens) h =
      let (tt, e, h') = >>=-eq-ok (check_refs lib config (def_refs lib d)) _ h in
      (check_refs-Known (def_refs lib d) e, check_token_refs-Known tokens h')

  check_rule_refs-Known :
      (rules : List (Rule lib))
      → check_rule_refs lib config rules ≡ ok tt
      → All (λ (r : Rule lib). All Known (condition_refs lib r.condition)) rules
  unfolding check_rule_refs
  check_rule_refs-Known [] h = tt
  check_rule_refs-Known (rule ∷ rules) h =
      let (tt, e, h') = >>=-eq-ok (check_refs lib config (condition_refs lib rule.condition)) _ h in
      (check_refs-Known (condition_refs lib rule.condition) e, check_rule_refs-Known rules h')

  pub check_references_exist-Known :
      check_references_exist lib config ≡ ok tt
      → Closed × All (λ (r : Rule lib). All Known (condition_refs lib r.condition)) config.rules
  unfolding check_references_exist
  check_references_exist-Known h =
      let (tt, e, h') = >>=-eq-ok (check_token_refs lib config config.tokens) _ h in
      (
        λ name d.
            get-All (λ (t : Str × TokenDef lib). All Known (def_refs lib t.1)) name d config.tokens
              (check_token_refs-Known config.tokens e),
        check_rule_refs-Known config.rules h',
      )

  -- An entry of the memo bounds what its name refers to.
  abbrev Bounds : Dict ℕ → Type 0
  Bounds memo = All (λ (t : Str × ℕ). Within t.1 t.0) memo

  abbrev Measures : (Str → Dict ℕ → Result ConfigError (ℕ × Dict ℕ)) → Type 0
  Measures one =
      (name : Str) (memo memo' : Dict ℕ) (k : ℕ)
      → Known name
      → Bounds memo
      → one name memo ≡ ok (k, memo')
      → Within k name × Bounds memo'

  deepest-Within :
      (one : Str → Dict ℕ → Result ConfigError (ℕ × Dict ℕ)) (refs : List Str) (memo memo' : Dict ℕ)
      (m : ℕ)
      → Measures one
      → All Known refs
      → Bounds memo
      → deepest lib config one refs memo ≡ ok (m, memo')
      → All (Within m) refs × Bounds memo'
  unfolding deepest
  deepest-Within one [] memo memo' m step known good h =
      (tt, subst Bounds (ok_pair-injective h).1 good)
  deepest-Within one (ref ∷ refs) memo memo' m step known good h =
      let ((k, memo₁), e₁, h₁) = >>=-eq-ok (one ref memo) _ h in
      let ((n, memo₂), e₂, h₂) = >>=-eq-ok (deepest lib config one refs memo₁) _ h₁ in
      let (w, good₁) = step ref memo memo₁ k known.0 good e₁ in
      let (ws, good₂) = deepest-Within one refs memo₁ memo₂ n step known.1 good₁ e₂ in
      let (top, same) = ok_pair-injective h₂ in
      (
        subst (λ x. All (Within x) (ref ∷ refs)) top
            (
              Within-le k (max k n) ref (omega arith) w,
              All-map (λ r. Within-le n (max k n) r (omega arith)) refs ws,
            ),
        subst Bounds same good₂,
      )

  depth-Within : (fuel : ℕ) → Closed → Measures (depth lib config fuel)
  unfolding depth
  depth-Within zero closed name memo memo' k known good h = cc
  depth-Within (suc fuel) closed name memo memo' k (d, e) good h =
      elim (Option-cases (get name memo)) [
        | inr (n, seen) ↦
            let (same, kept) = ok_pair-injective (rw seen at h) in
            (
              subst (λ x. Within x name) same
                  (get-All (λ (t : Str × ℕ). Within t.1 t.0) name n memo good seen),
              subst Bounds kept good,
            )
        | inl new ↦
            let ((m, memo₁), e₁, h₁) =
              >>=-eq-ok (deepest lib config (depth lib config fuel) (refs_of lib config name) memo)
                _ (rw new at h) in
            let (ws, good₁) =
              deepest-Within (depth lib config fuel) (refs_of lib config name) memo memo₁ m
                (depth-Within fuel closed) (rw e (closed name d e)) good e₁ in
            let (same, kept) = ok_pair-injective h₁ in
            let w : Within (suc m) name = (d, e, rw e at ws) in
            (
              subst (λ x. Within x name) same w,
              subst Bounds kept
                  (put-All (λ (t : Str × ℕ). Within t.1 t.0) name (suc m) memo₁ good₁ w),
            )
      ]

  -- The depth that is computed bounds the references of every token.
  pub max_resolution_depth-Within :
      (m : ℕ)
      → Closed
      → max_resolution_depth lib config ≡ ok m
      → (name : Str) → Known name
      → Within m name
  unfolding max_resolution_depth
  max_resolution_depth-Within m closed h name (d, known) =
      let fuel = length config.tokens in
      let ((k, memo), e, h') =
        >>=-eq-ok (deepest lib config (depth lib config fuel) (map (λ t. t.0) config.tokens) []) _
          h in
      let (ws, _) =
        deepest-Within (depth lib config fuel) (map (λ t. t.0) config.tokens) [] memo k
          (depth-Within fuel closed) (All_names-get config.tokens) tt e in
      subst (λ x. Within x name) (ok-injective h')
        (get-All_names (Within k) name d config.tokens ws known)
