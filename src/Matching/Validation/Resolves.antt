-- ===== src/Matching/Validation/Resolves.antt =====
-- A config that was validated resolves for every target, but for a regular expression that RE2
-- refuses.
use emule_indexer.Common.{
  ℕ, zero, suc, ◌≡◌, Option, none, some, List, [], ◌∷◌, map, All, All-map, ok, err, >>=-eq-ok,
  arith, Result-cases, inl, inr, ltb, if◌then◌else◌,
}
use emule_indexer.Common.Text.{Str}
use emule_indexer.Common.Dict.{Dict, get, put, get-All, All_names-get}
use emule_indexer.Matching.Library.{Library}
use emule_indexer.Matching.Models.{TargetSegment}
use emule_indexer.Matching.Interpolation.{MatchError, regex_error, interpolate}
use emule_indexer.Matching.Matchers.{Matcher}
use emule_indexer.Matching.Config.{
  TokenDef, Rule, MatcherConfig, keyword_def, regex_def, coverage_def, attr_between_def, composite,
}
use emule_indexer.Matching.Resolver.{
  build_condition, resolve_token, resolve_tokens, resolve_rules, resolve_all,
}
use emule_indexer.Matching.Engine.{resolve_targets}
use emule_indexer.Matching.References.{condition_refs}
use emule_indexer.Matching.Validation.{
  probe_target, check_references_exist, check_overrides_target_coverage, check_acyclic,
  max_resolution_depth, check_regexes_compile, validate_config,
}
use emule_indexer.Matching.Validation.Depth.{
  Known, Within, Within-le, check_references_exist-Known, max_resolution_depth-Within,
}
use emule_indexer.Matching.Validation.Building.{
  OnlyRegex, >>=-OnlyRegex, ok-OnlyRegex, Interpolates, build_condition-OnlyRegex,
  build_def-OnlyRegex,
}

module _ (lib : Library) where
  module _ (config : MatcherConfig lib)
      (interpolates : (name : Str) (d : TokenDef lib)
        → get name config.tokens ≡ some d
        → Interpolates lib d)
      (target : TargetSegment) where
    resolve_token-OnlyRegex :
        (n : ℕ) (name : Str) (lo fuzz : Option lib.Float)
        → Within lib config n name
        → OnlyRegex (resolve_token lib config target n name lo fuzz)
    unfolding resolve_token
    resolve_token-OnlyRegex zero name lo fuzz w = elim w [ ]
    resolve_token-OnlyRegex (suc n) name lo fuzz (d, known, below) = rw known (
        build_def-OnlyRegex lib (resolve_token lib config target n) (Within lib config n)
          (resolve_token-OnlyRegex n) target d lo fuzz (interpolates name d known) below)

    resolve_tokens-OnlyRegex :
        (n : ℕ) (tokens : Dict (TokenDef lib))
        → All (Within lib config n) (map (λ t. t.0) tokens)
        → OnlyRegex (resolve_tokens lib config target n tokens)
    unfolding resolve_tokens
    resolve_tokens-OnlyRegex n [] h = ok-OnlyRegex _
    resolve_tokens-OnlyRegex n ((name, d) ∷ tokens) h =
        >>=-OnlyRegex (resolve_token lib config target n name none none) _
          (resolve_token-OnlyRegex n name none none h.0)
          (λ m.
            >>=-OnlyRegex (resolve_tokens lib config target n tokens) _
              (resolve_tokens-OnlyRegex n tokens h.1) (λ ms. ok-OnlyRegex _))

    resolve_rules-OnlyRegex :
        (n : ℕ) (rules : List (Rule lib)) (built : Dict (Matcher lib))
        → All (λ (r : Rule lib). All (Within lib config n) (condition_refs lib r.condition)) rules
        → OnlyRegex (resolve_rules lib config target n rules built)
    unfolding resolve_rules
    resolve_rules-OnlyRegex n [] built h = ok-OnlyRegex _
    resolve_rules-OnlyRegex n (rule ∷ rules) built h =
        >>=-OnlyRegex (build_condition lib (resolve_token lib config target n) rule.condition) _
          (build_condition-OnlyRegex lib (resolve_token lib config target n) (Within lib config n)
            (resolve_token-OnlyRegex n) rule.condition h.0)
          (λ m. resolve_rules-OnlyRegex n rules (put rule.name m built) h.1)

    resolve_all-OnlyRegex :
        (n : ℕ)
        → All (Within lib config n) (map (λ t. t.0) config.tokens)
        → All
            (λ (r : Rule lib). All (Within lib config n) (condition_refs lib r.condition))
            config.rules
        → OnlyRegex (resolve_all lib config target n)
    unfolding resolve_all
    resolve_all-OnlyRegex n tokens rules =
        >>=-OnlyRegex (resolve_tokens lib config target n config.tokens) _
          (resolve_tokens-OnlyRegex n config.tokens tokens)
          (λ ms.
            >>=-OnlyRegex (resolve_rules lib config target n config.rules []) _
              (resolve_rules-OnlyRegex n config.rules [] rules) (λ rs. ok-OnlyRegex _))

  resolve_targets-OnlyRegex :
      (config : MatcherConfig lib) (n : ℕ) (ts : List TargetSegment)
      → ((t : TargetSegment) → OnlyRegex (resolve_all lib config t n))
      → OnlyRegex (resolve_targets lib n config ts)
  unfolding resolve_targets
  resolve_targets-OnlyRegex config n [] safe = ok-OnlyRegex _
  resolve_targets-OnlyRegex config n (t ∷ ts) safe =
      >>=-OnlyRegex (resolve_all lib config t n) _ (safe t) (λ r.
        >>=-OnlyRegex (resolve_targets lib n config ts) _
          (resolve_targets-OnlyRegex config n ts safe) (λ rs. ok-OnlyRegex _))

  check_regexes_compile-Interpolates :
      (config : MatcherConfig lib) (tokens : Dict (TokenDef lib))
      → check_regexes_compile lib config tokens ≡ ok tt
      → All (λ (t : Str × TokenDef lib). Interpolates lib t.1) tokens
  unfolding check_regexes_compile
  check_regexes_compile-Interpolates config [] h = tt
  check_regexes_compile-Interpolates config ((name, keyword_def phrase) ∷ tokens) h =
      (tt, check_regexes_compile-Interpolates config tokens h)
  check_regexes_compile-Interpolates config ((name, coverage_def r lo fuzz) ∷ tokens) h =
      (tt, check_regexes_compile-Interpolates config tokens h)
  check_regexes_compile-Interpolates config ((name, attr_between_def a lo hi) ∷ tokens) h =
      (tt, check_regexes_compile-Interpolates config tokens h)
  check_regexes_compile-Interpolates config ((name, composite c) ∷ tokens) h =
      (tt, check_regexes_compile-Interpolates config tokens h)
  check_regexes_compile-Interpolates config ((name, regex_def p flags) ∷ tokens) h =
      elim (Result-cases (interpolate lib probe_target p)) [
        | inl found ↦
            let (tt, _, h') = >>=-eq-ok _ (λ _. check_regexes_compile lib config tokens) h in
            (found, check_regexes_compile-Interpolates config tokens h')
        | inr (e, refused) ↦ cc (rw refused at h)
      ]

  -- A config that was validated resolves for all targets, within the depth that it was validated
  -- for, or a regular expression does not compile: no token is missing, no placeholder is unknown and the references end.
  pub validate_config-OnlyRegex :
      (config : MatcherConfig lib) (max_depth : ℕ) (ts : List TargetSegment) (e : MatchError)
      → validate_config lib config max_depth ≡ ok tt
      → resolve_targets lib max_depth config ts ≡ err e
      → e ≡ regex_error
  unfolding validate_config
  validate_config-OnlyRegex config n ts e h =
      let (tt, refs, h₁) = >>=-eq-ok (check_references_exist lib config) _ h in
      let (tt, _, h₂) = >>=-eq-ok (check_overrides_target_coverage lib config) _ h₁ in
      let (_, _, h₃) = >>=-eq-ok (check_acyclic lib config n) _ h₂ in
      let (m, deep, h₄) = >>=-eq-ok (max_resolution_depth lib config) _ h₃ in
      let (tt, fits, h₅) = >>=-eq-ok (if ltb n m then err _ else ok tt) _ h₄ in
      let (closed, rules) = check_references_exist-Known lib config refs in
      let within : (name : Str) → Known lib config name → Within lib config n name = λ name known.
        Within-le lib config m n name (ground arith)
          (max_resolution_depth-Within lib config m closed deep name known) in
      resolve_targets-OnlyRegex config n ts
        (λ t.
          resolve_all-OnlyRegex config
            (λ name d.
              get-All (λ (x : Str × TokenDef lib). Interpolates lib x.1) name d config.tokens
                (check_regexes_compile-Interpolates config config.tokens h₅))
            t n (All-map within (map (λ x. x.0) config.tokens) (All_names-get config.tokens))
            (All-map (λ r. All-map within (condition_refs lib r.condition)) config.rules rules))
        e
