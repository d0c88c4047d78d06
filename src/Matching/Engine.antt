-- ===== src/Matching/Engine.antt =====
-- engine.py: the decision on one file.
pub mod Order
pub mod Truth
pub mod Choice
pub mod Decision
pub mod Verdict
pub mod Resolved
pub mod Total
use emule_indexer.Common.{
  ℕ, zero, suc, ◌+◌, Bool, true, false, ◌&&◌, ◌||◌, not, Option, none, some, List, [], ◌∷◌, ltb,
  ◌==◌, if◌then◌else◌, length, map, Result, ok, err, ◌>>=◌,
}
use emule_indexer.Common.Text.{Str, str_eq, str_lt}
use emule_indexer.Common.Dict.{Dict, get, put}
use emule_indexer.Matching.Library.{Library}
use emule_indexer.Matching.Models.{FileCandidate, TargetSegment, target_id}
use emule_indexer.Matching.Interpolation.{MatchError}
use emule_indexer.Matching.Matchers.{Matcher, coverage, matches, coverage_value}
use emule_indexer.Matching.Config.{Tier, tier_rank, Rule, MatcherConfig}
use emule_indexer.Matching.Resolver.{ResolvedTarget, lookup_key, resolve_all}

pub record Explanation (lib : Library) : Type 0 where
  pub target_id : Str
  pub rules_fired : List Str
  pub tokens_matched : List Str
  pub coverage_values : Dict lib.Float

pub record MatchDecision (lib : Library) : Type 0 where
  pub target_id : Str
  pub rule_name : Str
  pub tier : Tier
  pub explanation : Explanation lib

pub record DecisionRecord : Type 0 where
  pub target_id : Str
  pub rule_name : Str
  pub tier : Tier

-- Python's `sorted` on pairs with distinct names, by the name.
module _ {ℓ} {V : Type ℓ} where
  unfoldable pub insert_sorted : Str × V → Dict V → Dict V
  insert_sorted (k, v) [] = (k, v) ∷ []
  insert_sorted (k, v) ((j, w) ∷ d) =
      if str_lt j k then (j, w) ∷ insert_sorted (k, v) d else (k, v) ∷ ((j, w) ∷ d)

  unfoldable pub sorted : Dict V → Dict V
  unfolding insert_sorted
  sorted [] = []
  sorted ((k, v) ∷ d) = insert_sorted (k, v) (sorted d)

-- The key `(-_TIER_RANK[tier], index, target_id)`, with the rank itself.
pub record Key : Type 0 where
  pub rank : ℕ
  pub index : ℕ
  pub id : Str

-- `a < b` on these tuples: a higher rank comes first.
unfoldable pub key_lt : Key → Key → Bool
key_lt a b =
    ltb b.rank a.rank
    || (a.rank == b.rank && (ltb a.index b.index || (a.index == b.index && str_lt a.id b.id)))

module _ (lib : Library) where
  unfoldable pub to_record : MatchDecision lib → DecisionRecord
  to_record d = record { target_id = d.target_id; rule_name = d.rule_name; tier = d.tier }

  -- `enumerate(config.rules)` from `index` on.
  unfoldable pub first_matching_rule :
      List (Rule lib)
      → ℕ
      → ResolvedTarget lib
      → FileCandidate lib
      → Result MatchError (Option (ℕ × Rule lib))
  first_matching_rule [] index resolved candidate = ok none
  first_matching_rule (rule ∷ rules) index resolved candidate =
      let rest = first_matching_rule rules (suc index) resolved candidate in
      do
        m ← lookup_key (get rule.name resolved.rules)
        if matches lib m candidate then ok (some (index, rule)) else rest

  unfoldable pub rules_fired :
      List (Rule lib) → ResolvedTarget lib → FileCandidate lib → Result MatchError (List Str)
  rules_fired [] resolved candidate = ok []
  rules_fired (rule ∷ rules) resolved candidate = do
    m ← lookup_key (get rule.name resolved.rules)
    names ← rules_fired rules resolved candidate
    ok (if matches lib m candidate then rule.name ∷ names else names)

  -- the tokens that match
  unfoldable pub matched : Dict (Matcher lib) → FileCandidate lib → Dict (Matcher lib)
  matched [] candidate = []
  matched ((name, m) ∷ tokens) candidate =
      let rest = matched tokens candidate in
      if matches lib m candidate then (name, m) ∷ rest else rest

  unfoldable pub coverage_values : Dict (Matcher lib) → FileCandidate lib → Dict lib.Float
  coverage_values [] candidate = []
  coverage_values ((name, coverage refs lo fuzz) ∷ tokens) candidate =
      (name, coverage_value lib refs fuzz candidate) ∷ coverage_values tokens candidate
  coverage_values ((name, m) ∷ tokens) candidate = coverage_values tokens candidate

  -- `_explain`
  unfoldable pub explain_target :
      MatcherConfig lib
      → ResolvedTarget lib
      → FileCandidate lib
      → Result MatchError (Explanation lib)
  unfolding rules_fired matched coverage_values sorted
  explain_target config resolved candidate = do
    fired ← rules_fired config.rules resolved candidate
    ok (record {
      target_id = target_id lib resolved.target;
      rules_fired = fired;
      tokens_matched = map (λ t. t.0) (sorted (matched resolved.tokens candidate));
      coverage_values = coverage_values (sorted resolved.tokens) candidate;
    })

  -- The variables `best`, `best_resolved`, `best_rule_name` and `best_tier`, once they are set.
  pub record Best : Type 0 where
    pub key : Key
    pub resolved : ResolvedTarget lib
    pub rule_name : Str
    pub tier : Tier

  -- What one target with a true rule stands for.
  abbrev pub rate : ResolvedTarget lib → ℕ × Rule lib → Best
  rate resolved (index, rule) = record {
    key = record { rank = tier_rank rule.tier; index = index; id = target_id lib resolved.target };
    resolved = resolved;
    rule_name = rule.name;
    tier = rule.tier;
  }

  -- `if best is None or key < best`
  unfoldable pub improve : Option Best → Best → Best
  improve none new = new
  improve (some best) new = if key_lt new.key best.key then new else best

  abbrev pub consider : ResolvedTarget lib → Option (ℕ × Rule lib) → Option Best → Option Best
  consider resolved none best = best
  consider resolved (some outcome) best = some (improve best (rate resolved outcome))

  module _ (config : MatcherConfig lib) (candidate : FileCandidate lib) where
    -- The loop over the targets.
    unfoldable pub best_of :
        List (ResolvedTarget lib) → Option Best → Result MatchError (Option Best)
    unfolding first_matching_rule improve
    best_of [] best = ok best
    best_of (resolved ∷ rest) best = do
      outcome ← first_matching_rule config.rules 0 resolved candidate
      best_of rest (consider resolved outcome best)

    abbrev pub decide : Option Best → Result MatchError (Option (MatchDecision lib))
    decide none = ok none
    decide (some best) = do
      explanation ← explain_target config best.resolved candidate
      ok (
          some (record {
            target_id = target_id lib best.resolved.target;
            rule_name = best.rule_name;
            tier = best.tier;
            explanation = explanation;
          }))

    -- `MatchingEngine.evaluate`, over what `__init__` resolved.
    unfoldable pub evaluate :
        ℕ → List (ResolvedTarget lib) → Result MatchError (Option (MatchDecision lib))
    unfolding best_of explain_target
    evaluate max_filename_length resolved =
        if ltb max_filename_length (length candidate.filename)
        then ok none
        else (do best ← best_of resolved none; decide best)

    -- `MatchingEngine.explain`: of two targets of one id the dictionary of `__init__` holds the
    -- later one.
    by_target_id : List (ResolvedTarget lib) → Dict (ResolvedTarget lib) → Dict (ResolvedTarget lib)
    by_target_id [] built = built
    by_target_id (r ∷ rs) built = by_target_id rs (put (target_id lib r.target) r built)

    abbrev explained : Option (ResolvedTarget lib) → Result MatchError (Option (Explanation lib))
    explained none = ok none
    explained (some r) = do x ← explain_target config r candidate; ok (some x)

    unfoldable pub explain :
        List (ResolvedTarget lib) → Str → Result MatchError (Option (Explanation lib))
    unfolding by_target_id explain_target
    explain resolved id = explained (get id (by_target_id resolved []))

  -- `MatchingEngine.__init__`, with the fuel of the resolver.
  unfoldable pub resolve_targets :
      ℕ → MatcherConfig lib → List TargetSegment → Result MatchError (List (ResolvedTarget lib))
  unfolding resolve_all
  resolve_targets fuel config [] = ok []
  resolve_targets fuel config (t ∷ ts) = do
    r ← resolve_all lib config t fuel
    rs ← resolve_targets fuel config ts
    ok (r ∷ rs)
