-- ===== src/Matching/Resolver.antt =====
-- resolver.py: the matchers of every token and rule of a config, for one target.
pub mod Keys
use emule_indexer.Common.{
  ℕ, zero, suc, Bool, Option, none, some, List, [], ◌∷◌, ◌++◌, any, ◌==◌, if◌then◌else◌, Result, ok,
  err, ◌>>=◌,
}
use emule_indexer.Common.Text.{Str, codes, str_eq}
use emule_indexer.Common.Dict.{Dict, get, put}
use emule_indexer.Matching.Library.{Library}
use emule_indexer.Matching.Models.{TargetSegment}
use emule_indexer.Matching.Normalization.{tokenize}
use emule_indexer.Matching.Interpolation.{
  MatchError, regex_error, key_error, recursion_error, interpolate,
}
use emule_indexer.Matching.Matchers.{
  Matcher, Matchers, keyword, regex, coverage, attr_between, all_of, any_of, not_of, significant,
}
use emule_indexer.Matching.Matchers
use emule_indexer.Matching.Config.{
  Operand, Operands, Condition, TokenDef, Rule, MatcherConfig, bare, token_ref, inline, nil, cons,
  all_def, any_def, not_def, keyword_def, regex_def, coverage_def, attr_between_def, composite,
}

pub record ResolvedTarget (lib : Library) : Type 0 where
  pub target : TargetSegment
  pub tokens : Dict (Matcher lib)
  pub rules : Dict (Matcher lib)

-- `d[k]`
abbrev pub lookup_key : {V : Type 0} → Option V → Result MatchError V
lookup_key none = err key_error
lookup_key (some v) = ok v

abbrev pub or_else {ℓ} : {A : Type ℓ} → A → Option A → A
or_else a none = a
or_else a (some b) = b

module _ (lib : Library) where
  -- How a name is resolved: with the overrides of `min` and of `fuzz`.
  abbrev pub Resolve : Type 0
  Resolve = Str → Option lib.Float → Option lib.Float → Result MatchError (Matcher lib)

  abbrev pub compiled : Option lib.Regex → Result MatchError (Matcher lib)
  compiled none = err regex_error
  compiled (some re) = ok (regex re)

  -- The constructor of `RegexMatcher`.
  unfoldable pub regex_matcher : Str → Str → Result MatchError (Matcher lib)
  regex_matcher pattern flags =
      compiled
        (lib.compile (if any (λ c. c == 0x69) flags then codes "(?i)" ++ pattern else pattern))

  -- `_build_operand`, and `_build_def` on a composite.
  unfoldable mutual
    pub build_operand : Resolve → Operand lib → Result MatchError (Matcher lib)
    build_operand resolve (bare name) = resolve name none none
    build_operand resolve (token_ref name lo fuzz) = resolve name lo fuzz
    build_operand resolve (inline c) = build_condition resolve c

    pub build_condition : Resolve → Condition lib → Result MatchError (Matcher lib)
    build_condition resolve (all_def ops) = do ms ← build_operands resolve ops; ok (all_of ms)
    build_condition resolve (any_def ops) = do ms ← build_operands resolve ops; ok (any_of ms)
    build_condition resolve (not_def op) = do m ← build_operand resolve op; ok (not_of m)

    pub build_operands : Resolve → Operands lib → Result MatchError (Matchers lib)
    build_operands resolve nil = ok Matchers.nil
    build_operands resolve (cons op ops) = do
      m ← build_operand resolve op
      ms ← build_operands resolve ops
      ok (Matchers.cons m ms)

  -- `_build_def`
  unfoldable pub build_def :
      Resolve
      → TargetSegment
      → TokenDef lib
      → Option lib.Float
      → Option lib.Float
      → Result MatchError (Matcher lib)
  unfolding build_condition regex_matcher
  build_def resolve target (keyword_def phrase) lo fuzz = ok (keyword (tokenize lib phrase))
  build_def resolve target (regex_def pattern flags) lo fuzz = do
    text ← interpolate lib target pattern
    regex_matcher text flags
  build_def resolve target (coverage_def reference lo' fuzz') lo fuzz =
      let text = if str_eq reference (codes "title") then target.title else reference in
      ok (coverage (significant (tokenize lib text)) (or_else lo' lo) (or_else fuzz' fuzz))
  build_def resolve target (attr_between_def attr lo' hi') lo fuzz = ok (attr_between attr lo' hi')
  build_def resolve target (composite c) lo fuzz = build_condition resolve c

  module _ (config : MatcherConfig lib) (target : TargetSegment) where
    -- `resolve_token`, on fuel: the references that it may still follow.
    unfoldable pub resolve_token : ℕ → Resolve
    unfolding build_def
    resolve_token zero name lo fuzz = err recursion_error
    resolve_token (suc fuel) name lo fuzz = do
      token_def ← lookup_key (get name config.tokens)
      build_def (resolve_token fuel) target token_def lo fuzz

    unfoldable pub resolve_tokens : ℕ → Dict (TokenDef lib) → Result MatchError (Dict (Matcher lib))
    unfolding resolve_token
    resolve_tokens fuel [] = ok []
    resolve_tokens fuel ((name, d) ∷ rest) = do
      m ← resolve_token fuel name none none
      ms ← resolve_tokens fuel rest
      ok ((name, m) ∷ ms)

    -- The dictionary of `resolve_all`: of two rules of one name the later one stays.
    unfoldable pub resolve_rules :
        ℕ → List (Rule lib) → Dict (Matcher lib) → Result MatchError (Dict (Matcher lib))
    unfolding build_condition resolve_token
    resolve_rules fuel [] built = ok built
    resolve_rules fuel (rule ∷ rest) built = do
      m ← build_condition (resolve_token fuel) rule.condition
      resolve_rules fuel rest (put rule.name m built)

    unfoldable pub resolve_all : ℕ → Result MatchError (ResolvedTarget lib)
    unfolding resolve_tokens resolve_rules
    resolve_all fuel = do
      tokens ← resolve_tokens fuel config.tokens
      rules ← resolve_rules fuel config.rules []
      ok (record { target = target; tokens = tokens; rules = rules })
