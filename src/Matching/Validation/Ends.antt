-- ===== src/Matching/Validation/Ends.antt =====
-- The recursion of `_max_resolution_depth` ends on a config that passes `_check_acyclic`.
use emule_indexer.Common.{
  ℕ, zero, suc, ◌≤◌, ◌≡◌, inl, inr, refl, List, [], ◌∷◌, map, In, All, All-map, All-In, length,
  length-map, Result, ok, >>=-total, arith, Option-cases,
}
use emule_indexer.Common.Members.{length-Nodup}
use emule_indexer.Common.Text.{Str}
use emule_indexer.Common.Dict.{Dict, get, put, get-In_names}
use emule_indexer.Matching.Library.{Library}
use emule_indexer.Matching.Config.{TokenDef, MatcherConfig}
use emule_indexer.Matching.Validation.{
  ConfigError, refs_of, check_acyclic, deepest, depth, max_resolution_depth,
}
use emule_indexer.Matching.Validation.Depth.{Known, Closed}
use emule_indexer.Matching.Validation.Acyclic.{Ordered, check_acyclic-Sorted}

module _ (lib : Library) (config : MatcherConfig lib) where
  abbrev Answers : (Str → Dict ℕ → Result ConfigError (ℕ × Dict ℕ)) → Str → Type 0
  Answers one name = (memo : Dict ℕ) → (r : ℕ × Dict ℕ) × (one name memo ≡ ok r)

  deepest_total :
      (one : Str → Dict ℕ → Result ConfigError (ℕ × Dict ℕ)) (refs : List Str) (memo : Dict ℕ)
      → All (Answers one) refs
      → (r : ℕ × Dict ℕ) × (deepest lib config one refs memo ≡ ok r)
  unfolding deepest
  deepest_total one [] memo h = (_, refl)
  deepest_total one (ref ∷ refs) memo h =
      let ((k, memo'), e) = h.0 memo in
      >>=-total (one ref memo) _ e (
        let (r, e') = deepest_total one refs memo' h.1 in
        >>=-total (deepest lib config one refs memo') _ e' (_, refl))

  depth_total :
      (done : List Str) (fuel : ℕ) (name : Str)
      → Ordered lib config done
      → In name done
      → length done ≤ fuel
      → Answers (depth lib config fuel) name
  unfolding depth
  depth_total [] fuel name o m l memo = absurd m
  depth_total (x ∷ done) zero name o m l memo = absurd (omega arith)
  depth_total (x ∷ done) (suc fuel) name o (inr m) l memo =
      depth_total done (suc fuel) name o.1 m (omega arith) memo
  depth_total (x ∷ done) (suc fuel) name o (inl same) l memo = elim (Option-cases (get name memo)) [
    | inr (k, seen) ↦ ((k, memo), rw seen)
    | inl new ↦
        let below : All (Answers (depth lib config fuel)) (refs_of lib config name) = rw same (
          All-map (λ r m. depth_total done fuel r o.1 m (omega arith)) (refs_of lib config x)
            o.0) in
        let (r, e) = deepest_total (depth lib config fuel) (refs_of lib config name) memo below in
        ((suc r.0, put name (suc r.0) r.1), rw (new, e))
  ]

  -- On a config whose references exist and have no cycle that `_check_acyclic` finds, the depth is
  -- computed with as many rounds as there are tokens.
  pub max_resolution_depth_total :
      (max_depth : ℕ) (done : List Str)
      → Closed lib config
      → check_acyclic lib config max_depth ≡ ok done
      → (m : ℕ) × (max_resolution_depth lib config ≡ ok m)
  unfolding max_resolution_depth
  max_resolution_depth_total n done closed h =
      let s = check_acyclic-Sorted lib config n done closed h in
      let names : List Str = map (λ t. t.0) config.tokens in
      let few : length done ≤ length names = length-Nodup done names s.once (λ x m.
        let (d, e) = All-In (Known lib config) x done s.known m in
        get-In_names x d config.tokens e) in
      let (r, e) = deepest_total (depth lib config (length config.tokens)) names [] (
        All-map
          (λ name m.
            depth_total done (length config.tokens) name s.ordered m
              (omega (arith, few, length-map (λ (t : Str × TokenDef lib). t.0) config.tokens)))
          names s.all) in
      >>=-total (deepest lib config (depth lib config (length config.tokens)) names []) _ e
        (_, refl)
