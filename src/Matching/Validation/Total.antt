-- ===== src/Matching/Validation/Total.antt =====
-- No check of `validate_config` recurses without end.
use emule_indexer.Common.{
  ℕ, zero, suc, ◌≡◌, ◌≢◌, inl, inr, refl, List, [], ◌∷◌, ◌++◌, map, Option, none, some, Result, ok,
  err, ◌>>=◌, Bool-cases, if◌then◌else◌, ltb, not, ◌&&◌, arith,
}
use emule_indexer.Common.Text.{Str}
use emule_indexer.Common.Dict.{Dict, get}
use emule_indexer.Matching.Library.{Library}
use emule_indexer.Matching.Interpolation.{MatchError}
use emule_indexer.Matching.Config.{
  TokenDef, Rule, MatcherConfig, keyword_def, regex_def, coverage_def, attr_between_def, composite,
}
use emule_indexer.Matching.References.{condition_refs, def_refs, TokenRef}
use emule_indexer.Matching.Validation.{
  ConfigError, recursion_error, known_ref, check_refs, check_token_refs, check_rule_refs,
  check_references_exist, overrides, is_coverage, all_token_refs, check_overrides,
  check_overrides_target_coverage, elem, refs_of, walk_each, walk, check_acyclic,
  max_resolution_depth, compile_outcome, check_regex, check_regexes_compile, validate_config,
}
use emule_indexer.Matching.Validation.Depth.{check_references_exist-Known}
use emule_indexer.Matching.Validation.Ends.{max_resolution_depth_total}

abbrev Ends : {A : Type 0} → Result ConfigError A → Type 0
Ends r = r ≢ err recursion_error

>>=-Ends :
    {A B : Type 0} (m : Result ConfigError A) (next : A → Result ConfigError B)
    → Ends m
    → ((a : A) → m ≡ ok a → Ends (next a))
    → Ends (m >>= next)
>>=-Ends (ok a) next h k = k a refl
>>=-Ends (err e) next h k = λ same. h cc

module _ (lib : Library) (config : MatcherConfig lib) where
  known_ref-Ends : (d : Option (TokenDef lib)) → Ends (known_ref lib config d)
  known_ref-Ends none h = cc
  known_ref-Ends (some d) h = cc

  check_refs-Ends : (refs : List Str) → Ends (check_refs lib config refs)
  unfolding check_refs
  check_refs-Ends [] = λ h. cc
  check_refs-Ends (ref ∷ refs) =
      >>=-Ends (known_ref lib config (get ref config.tokens)) _ (known_ref-Ends _)
        (λ _ _. check_refs-Ends refs)

  check_token_refs-Ends : (tokens : Dict (TokenDef lib)) → Ends (check_token_refs lib config tokens)
  unfolding check_token_refs
  check_token_refs-Ends [] = λ h. cc
  check_token_refs-Ends ((name, d) ∷ tokens) =
      >>=-Ends (check_refs lib config (def_refs lib d)) _ (check_refs-Ends _)
        (λ _ _. check_token_refs-Ends tokens)

  check_rule_refs-Ends : (rules : List (Rule lib)) → Ends (check_rule_refs lib config rules)
  unfolding check_rule_refs
  check_rule_refs-Ends [] = λ h. cc
  check_rule_refs-Ends (rule ∷ rules) =
      >>=-Ends (check_refs lib config (condition_refs lib rule.condition)) _ (check_refs-Ends _)
        (λ _ _. check_rule_refs-Ends rules)

  check_references_exist-Ends : Ends (check_references_exist lib config)
  unfolding check_references_exist
  check_references_exist-Ends =
      >>=-Ends (check_token_refs lib config config.tokens) _ (check_token_refs-Ends _)
        (λ _ _. check_rule_refs-Ends config.rules)

  check_overrides-Ends : (refs : List (TokenRef lib)) → Ends (check_overrides lib config refs)
  unfolding check_overrides
  check_overrides-Ends [] h = cc
  check_overrides-Ends (ref ∷ refs) h =
      elim (Bool-cases
        (overrides lib config ref && not (is_coverage lib config (get ref.0 config.tokens)))) [
          | inl bad ↦ cc (rw bad at h)
          | inr good ↦ check_overrides-Ends refs (rw good at h)
        ]

  check_overrides_target_coverage-Ends : Ends (check_overrides_target_coverage lib config)
  unfolding check_overrides_target_coverage
  check_overrides_target_coverage-Ends =
      check_overrides-Ends (all_token_refs lib config config.tokens config.rules)

  walk_each-Ends :
      (visit : Str → List Str → Result ConfigError (List Str)) (refs done : List Str)
      → ((r : Str) (d : List Str) → Ends (visit r d))
      → Ends (walk_each lib config visit refs done)
  unfolding walk_each
  walk_each-Ends visit [] done v = λ h. cc
  walk_each-Ends visit (r ∷ refs) done v =
      >>=-Ends (visit r done) _ (v r done) (λ d _. walk_each-Ends visit refs d v)

  walk-Ends :
      (left : ℕ) (stack : List Str) (name : Str) (done : List Str)
      → Ends (walk lib config left stack name done)
  unfolding walk
  walk-Ends zero stack name done h = elim (Bool-cases (elem name done)) [
    | inl there ↦ cc (rw there at h)
    | inr new ↦ elim (Bool-cases (elem name stack)) [
      | inl loop ↦ cc (rw (new, loop) at h)
      | inr fresh ↦ cc (rw (new, fresh) at h)
    ]
  ]
  walk-Ends (suc left) stack name done h = elim (Bool-cases (elem name done)) [
    | inl there ↦ cc (rw there at h)
    | inr new ↦ elim (Bool-cases (elem name stack)) [
      | inl loop ↦ cc (rw (new, loop) at h)
      | inr fresh ↦
          >>=-Ends
            (walk_each lib config (walk lib config left (stack ++ (name ∷ [])))
              (refs_of lib config name) done)
            _
            (walk_each-Ends _ (refs_of lib config name) done
              (walk-Ends left (stack ++ (name ∷ []))))
            (λ d _ e. cc) (rw (new, fresh) at h)
    ]
  ]

  check_acyclic-Ends : (max_depth : ℕ) → Ends (check_acyclic lib config max_depth)
  unfolding check_acyclic
  check_acyclic-Ends n = walk_each-Ends _ (map (λ t. t.0) config.tokens) [] (walk-Ends n [])

  compile_outcome-Ends :
      {A : Type 0} (r : Result MatchError A) → Ends (compile_outcome lib config r)
  compile_outcome-Ends (ok a) h = cc
  compile_outcome-Ends (err e) h = cc

  check_regex-Ends : (d : TokenDef lib) → Ends (check_regex lib config d)
  check_regex-Ends (keyword_def phrase) = λ h. cc
  check_regex-Ends (coverage_def r lo fuzz) = λ h. cc
  check_regex-Ends (attr_between_def a lo hi) = λ h. cc
  check_regex-Ends (composite c) = λ h. cc
  check_regex-Ends (regex_def p flags) = compile_outcome-Ends _

  check_regexes_compile-Ends :
      (tokens : Dict (TokenDef lib)) → Ends (check_regexes_compile lib config tokens)
  unfolding check_regexes_compile
  check_regexes_compile-Ends [] = λ h. cc
  check_regexes_compile-Ends ((name, d) ∷ tokens) =
      >>=-Ends (check_regex lib config d) _ (check_regex-Ends d)
        (λ _ _. check_regexes_compile-Ends tokens)

  -- `validate_config` ends on every config, with the fuel of `max_resolution_depth`: it returns, or
  -- it raises one of its own errors.
  pub validate_config-ne-recursion_error :
      (max_depth : ℕ) → validate_config lib config max_depth ≢ err recursion_error
  unfolding validate_config
  validate_config-ne-recursion_error n =
      >>=-Ends (check_references_exist lib config) _ check_references_exist-Ends (λ _ refs.
        >>=-Ends (check_overrides_target_coverage lib config) _ check_overrides_target_coverage-Ends
          (λ _ _. >>=-Ends (check_acyclic lib config n) _ (check_acyclic-Ends n) (λ done walked.
            let (m, e) =
              max_resolution_depth_total lib config n done
                (check_references_exist-Known lib config refs).0 walked in
            >>=-Ends (max_resolution_depth lib config) _ (rw e (λ h. cc)) (λ m _.
              >>=-Ends (if ltb n m then err _ else ok tt) _ (λ h. ground arith)
                (λ _ _. check_regexes_compile-Ends config.tokens)))))
