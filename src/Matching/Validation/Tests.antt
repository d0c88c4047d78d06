-- ===== src/Matching/Validation/Tests.antt =====
-- Configs that are refused, and one that is validated and still does not resolve.
use emule_indexer.Common.{◌≡◌, ◌≢◌, refl, true, Option, none, some, [], ◌∷◌, ok, err, if◌then◌else◌}
use emule_indexer.Common.Text.{Str, codes, str_eq}
use emule_indexer.Common.Dict.{get, put}
use emule_indexer.Matching.Interpolation.{regex_error, interpolate}
use emule_indexer.Matching.Config.{
  MatcherConfig, keyword_def, regex_def, composite, all_def, not_def, bare, cons, nil, catalog,
}
use emule_indexer.Matching.Resolver.{regex_matcher}
use emule_indexer.Matching.Engine.{resolve_targets}
use emule_indexer.Matching.References.{condition_refs, def_refs, def_token_refs}
use emule_indexer.Matching.Validation.{
  recursion_error, cycle_error, validate_config, check_acyclic, elem, from_name,
}
use emule_indexer.Matching.Validation.Cycle.{Cycle, check_acyclic-Cycle}
use emule_indexer.Matching.Validation.Resolves.{validate_config-OnlyRegex}
use emule_indexer.Matching.Validation.Total.{validate_config-ne-recursion_error}
use emule_indexer.Matching.Sample.{ascii, ascii_with, segment_of}

-- RE2 refuses a repetition of nothing.
abbrev no_plus : Str → Option Str
no_plus [] = some []
no_plus (c ∷ pattern) = if str_eq (c ∷ pattern) (codes "+") then none else some (c ∷ pattern)

abbrev gated : MatcherConfig (ascii_with no_plus)
gated = record {
  tokens = (codes "gate", regex_def (codes "{mono_gate}+") []) ∷ [];
  rules =
      record { name = codes "r"; tier = catalog; condition = not_def (bare (codes "gate")) } ∷ [];
}

gated_valid : validate_config (ascii_with no_plus) gated 32 ≡ ok tt
unfolding validate_config get str_eq condition_refs def_refs interpolate def_token_refs elem
    regex_matcher
gated_valid = refl

gated_fails :
    resolve_targets (ascii_with no_plus) 32 gated (segment_of true (codes "a") ∷ [])
    ≡ err regex_error
unfolding resolve_targets get str_eq put interpolate
gated_fails = refl

validate_config-OnlyRegex_example : regex_error ≡ regex_error
validate_config-OnlyRegex_example =
    validate_config-OnlyRegex (ascii_with no_plus) gated 32 (segment_of true (codes "a") ∷ [])
      regex_error gated_valid gated_fails

abbrev refers : MatcherConfig ascii
refers = record {
  tokens =
      (codes "a", composite (not_def (bare (codes "b"))))
      ∷ (codes "b", composite (all_def (cons (bare (codes "c")) (cons (bare (codes "a")) nil))))
      ∷ (codes "c", keyword_def (codes "c"))
      ∷ [];
  rules = [];
}

looped : check_acyclic ascii refers 32 ≡ err (cycle_error (codes "a" ∷ codes "b" ∷ codes "a" ∷ []))
unfolding check_acyclic get str_eq elem from_name condition_refs def_refs
looped = refl

check_acyclic-Cycle_example : Cycle ascii refers (codes "a" ∷ codes "b" ∷ codes "a" ∷ [])
check_acyclic-Cycle_example =
    check_acyclic-Cycle ascii refers 32 (codes "a" ∷ codes "b" ∷ codes "a" ∷ []) looped

validate_config-ne-recursion_error_example : validate_config ascii refers 32 ≢ err recursion_error
validate_config-ne-recursion_error_example = validate_config-ne-recursion_error ascii refers 32
