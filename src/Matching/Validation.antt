-- ===== src/Matching/Validation.antt =====
-- validation.py: the checks of `validate_config` on a config that was parsed.
pub mod Depth
pub mod Walk
pub mod Cycle
pub mod Acyclic
pub mod Ends
pub mod Total
mod Tests
pub mod Placeholders
pub mod Building
pub mod Resolves
use emule_indexer.Common.{
  ℕ, zero, suc, Bool, true, false, not, ◌&&◌, ◌||◌, Option, none, some, List, [], ◌∷◌, ◌++◌, any,
  ltb, map, if◌then◌else◌, Result, ok, err, ◌>>=◌, length,
}
use Prim.Native.Nat.{max}
use emule_indexer.Common.Text.{Str, codes, str_eq}
use emule_indexer.Common.Dict.{Dict, get, put}
use emule_indexer.Matching.Library.{Library}
use emule_indexer.Matching.Models.{TargetSegment}
use emule_indexer.Matching.Interpolation.{MatchError, interpolate}
use emule_indexer.Matching.Matchers.{Matcher}
use emule_indexer.Matching.Config.{
  Operand, Operands, Condition, TokenDef, Rule, MatcherConfig, bare, token_ref, inline, nil, cons,
  all_def, any_def, not_def, keyword_def, regex_def, coverage_def, attr_between_def, composite,
}
use emule_indexer.Matching.References.{
  operand_refs, condition_refs, operands_refs, def_refs, TokenRef, operand_token_refs,
  condition_token_refs, operands_token_refs, def_token_refs,
}
use emule_indexer.Matching.Resolver.{regex_matcher}

-- The exceptions; a `CycleError` carries the names of its message. `recursion_error` is a
-- recursion that does not end.
pub data ConfigError : Type 0 where
  config_error unknown_token_error depth_exceeded_error recursion_error : ConfigError
  cycle_error : List Str → ConfigError

-- `_PROBE_TARGET`
abbrev pub probe_target : TargetSegment
probe_target = record {
  season = 2;
  seasonal_number = 11;
  absolute_number = 62;
  segment = codes "a";
  title = codes "sonde";
  status = codes "lost";
  sole_segment = false;
}

-- `name in names`
unfoldable pub elem : Str → List Str → Bool
elem name names = any (str_eq name) names

-- `names[names.index(name):]`
unfoldable pub from_name : Str → List Str → List Str
from_name name [] = []
from_name name (x ∷ xs) = if str_eq name x then x ∷ xs else from_name name xs

module _ (lib : Library) where
  module _ (config : MatcherConfig lib) where
    -- `ref not in known`
    abbrev pub known_ref : Option (TokenDef lib) → Result ConfigError (Unit {0})
    known_ref none = err unknown_token_error
    known_ref (some d) = ok tt

    unfoldable pub check_refs : List Str → Result ConfigError (Unit {0})
    check_refs [] = ok tt
    check_refs (ref ∷ refs) = do _ ← known_ref (get ref config.tokens); check_refs refs

    unfoldable pub check_token_refs : Dict (TokenDef lib) → Result ConfigError (Unit {0})
    unfolding check_refs
    check_token_refs [] = ok tt
    check_token_refs ((name, d) ∷ tokens) = do
      _ ← check_refs (def_refs lib d)
      check_token_refs tokens

    unfoldable pub check_rule_refs : List (Rule lib) → Result ConfigError (Unit {0})
    unfolding check_refs
    check_rule_refs [] = ok tt
    check_rule_refs (rule ∷ rules) = do
      _ ← check_refs (condition_refs lib rule.condition)
      check_rule_refs rules

    -- `_check_references_exist`
    unfoldable pub check_references_exist : Result ConfigError (Unit {0})
    unfolding check_token_refs check_rule_refs
    check_references_exist = do _ ← check_token_refs config.tokens; check_rule_refs config.rules

    abbrev pub overrides : TokenRef lib → Bool
    overrides (name, (none, none)) = false
    overrides (name, (none, some fuzz)) = true
    overrides (name, (some lo, fuzz)) = true

    abbrev pub is_coverage : Option (TokenDef lib) → Bool
    is_coverage (some (coverage_def reference lo fuzz)) = true
    is_coverage _ = false

    unfoldable pub check_overrides : List (TokenRef lib) → Result ConfigError (Unit {0})
    check_overrides [] = ok tt
    check_overrides (ref ∷ refs) =
        if overrides ref && not (is_coverage (get ref.0 config.tokens))
        then err config_error
        else check_overrides refs

    all_token_refs : Dict (TokenDef lib) → List (Rule lib) → List (TokenRef lib)
    all_token_refs [] [] = []
    all_token_refs [] (rule ∷ rules) =
        condition_token_refs lib rule.condition ++ all_token_refs [] rules
    all_token_refs ((name, d) ∷ tokens) rules = def_token_refs lib d ++ all_token_refs tokens rules

    -- `_check_overrides_target_coverage`
    unfoldable pub check_overrides_target_coverage : Result ConfigError (Unit {0})
    unfolding check_overrides all_token_refs
    check_overrides_target_coverage = check_overrides (all_token_refs config.tokens config.rules)

    abbrev refs_of_def : Option (TokenDef lib) → List Str
    refs_of_def none = []
    refs_of_def (some d) = def_refs lib d

    -- `graph.get(name, ())`
    abbrev pub refs_of : Str → List Str
    refs_of name = refs_of_def (get name config.tokens)

    -- `for ref in refs: walk(ref)`
    unfoldable pub walk_each :
        (Str → List Str → Result ConfigError (List Str))
        → List Str
        → List Str
        → Result ConfigError (List Str)
    walk_each visit [] done = ok done
    walk_each visit (ref ∷ refs) done = do done' ← visit ref done; walk_each visit refs done'

    -- `walk`: the first argument is `max_depth - len(stack)`, `visiting` is the set of the names on
    -- `stack`, and the answer is `done`.
    unfoldable pub walk : ℕ → List Str → Str → List Str → Result ConfigError (List Str)
    unfolding walk_each
    walk zero stack name done =
        if elem name done
        then ok done
        else if elem name stack
        then err (cycle_error (from_name name stack ++ (name ∷ [])))
        else err depth_exceeded_error
    walk (suc left) stack name done =
        let below = walk left (stack ++ (name ∷ [])) in
        if elem name done
        then ok done
        else if elem name stack
        then err (cycle_error (from_name name stack ++ (name ∷ [])))
        else (do done' ← walk_each below (refs_of name) done; ok (name ∷ done'))

    -- `_check_acyclic`, with the names that it has marked as done.
    unfoldable pub check_acyclic : ℕ → Result ConfigError (List Str)
    unfolding walk
    check_acyclic max_depth = walk_each (walk max_depth []) (map (λ t. t.0) config.tokens) []

    -- `max(depth(ref) for ref in refs)`, 0 for none, with the memo that is passed on.
    unfoldable pub deepest :
        (Str → Dict ℕ → Result ConfigError (ℕ × Dict ℕ))
        → List Str
        → Dict ℕ
        → Result ConfigError (ℕ × Dict ℕ)
    deepest one [] memo = ok (0, memo)
    deepest one (ref ∷ refs) memo = do
      (k, memo') ← one ref memo
      (m, memo'') ← deepest one refs memo'
      ok (max k m, memo'')

    -- `if name in memo: return memo[name]`
    abbrev recall :
        Option ℕ → Dict ℕ → Result ConfigError (ℕ × Dict ℕ) → Result ConfigError (ℕ × Dict ℕ)
    recall none memo fresh = fresh
    recall (some k) memo fresh = ok (k, memo)

    -- `depth`, on fuel.
    unfoldable pub depth : ℕ → Str → Dict ℕ → Result ConfigError (ℕ × Dict ℕ)
    unfolding deepest
    depth zero name memo = err recursion_error
    depth (suc fuel) name memo = recall (get name memo) memo (do
      (m, memo') ← deepest (depth fuel) (refs_of name) memo
      ok (suc m, put name (suc m) memo'))

    -- `_max_resolution_depth`: the number of tokens is fuel enough.
    unfoldable pub max_resolution_depth : Result ConfigError ℕ
    unfolding depth
    max_resolution_depth = do
      (m, memo) ← deepest (depth (length config.tokens)) (map (λ t. t.0) config.tokens) []
      ok m

    abbrev pub compile_outcome : {A : Type 0} → Result MatchError A → Result ConfigError (Unit {0})
    compile_outcome (ok a) = ok tt
    compile_outcome (err e) = err config_error

    abbrev pub check_regex : TokenDef lib → Result ConfigError (Unit {0})
    check_regex (regex_def pattern flags) =
        compile_outcome
          (do text ← interpolate lib probe_target pattern; regex_matcher lib text flags)
    check_regex _ = ok tt

    -- `_check_regexes_compile`
    unfoldable pub check_regexes_compile : Dict (TokenDef lib) → Result ConfigError (Unit {0})
    check_regexes_compile [] = ok tt
    check_regexes_compile ((name, d) ∷ tokens) = do _ ← check_regex d; check_regexes_compile tokens

    -- `validate_config`
    unfoldable pub validate_config : ℕ → Result ConfigError (Unit {0})
    unfolding check_references_exist check_overrides_target_coverage check_acyclic
        max_resolution_depth check_regexes_compile
    validate_config max_depth = do
      _ ← check_references_exist
      _ ← check_overrides_target_coverage
      _ ← check_acyclic max_depth
      depth ← max_resolution_depth
      _ ← if ltb max_depth depth then err depth_exceeded_error else ok tt
      check_regexes_compile config.tokens
