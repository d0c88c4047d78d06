-- ===== src/Matching/Engine/Total.antt =====
-- No dictionary of the engine misses a key, for targets that hold a matcher for every rule.
use emule_indexer.Common.{
  ℕ, suc, ◌≡◌, refl, Option, none, some, List, [], ◌∷◌, All, ok, inl, inr, Bool-cases, >>=-total,
  if◌then◌else◌,
}
use emule_indexer.Common.Dict.{get}
use emule_indexer.Matching.Library.{Library}
use emule_indexer.Matching.Models.{FileCandidate}
use emule_indexer.Matching.Matchers.{Matcher, matches}
use emule_indexer.Matching.Config.{Rule, MatcherConfig}
use emule_indexer.Matching.Resolver.{ResolvedTarget}
use emule_indexer.Matching.Engine.{
  first_matching_rule, rules_fired, Best, consider, best_of, explain_target, Explanation,
}

module _ (lib : Library) where
  abbrev pub HasRules : List (Rule lib) → ResolvedTarget lib → Type 0
  HasRules rules r = All (λ rule. (m : Matcher lib) × (get rule.name r.rules ≡ some m)) rules

  pub first_matching_rule_total :
      (rules : List (Rule lib)) (index : ℕ) (r : ResolvedTarget lib) (candidate : FileCandidate lib)
      → HasRules rules r
      → (o : Option (ℕ × Rule lib)) × (first_matching_rule lib rules index r candidate ≡ ok o)
  unfolding first_matching_rule
  first_matching_rule_total [] index r candidate h = (none, refl)
  first_matching_rule_total (rule ∷ rules) index r candidate ((m, e), h) =
      let (o, eo) = first_matching_rule_total rules (suc index) r candidate h in
      elim (Bool-cases (matches lib m candidate)) [
        | inl hit ↦ (some (index, rule), rw (e, hit))
        | inr miss ↦ (o, rw (e, miss) eo)
      ]

  rules_fired_total :
      (rules : List (Rule lib)) (r : ResolvedTarget lib) (candidate : FileCandidate lib)
      → HasRules rules r
      → (names : List _) × (rules_fired lib rules r candidate ≡ ok names)
  unfolding rules_fired
  rules_fired_total [] r candidate h = ([], refl)
  rules_fired_total (rule ∷ rules) r candidate ((m, e), h) =
      let (names, en) = rules_fired_total rules r candidate h in
      (if matches lib m candidate then rule.name ∷ names else names, rw (e, en))

  module _ (config : MatcherConfig lib) (candidate : FileCandidate lib) where
    pub explain_target_total :
        (r : ResolvedTarget lib)
        → HasRules config.rules r
        → (x : Explanation lib) × (explain_target lib config r candidate ≡ ok x)
    unfolding explain_target
    explain_target_total r h =
        let (names, e) = rules_fired_total config.rules r candidate h in
        >>=-total (rules_fired lib config.rules r candidate) _ e (_, refl)

    pub best_of_total :
        (rs : List (ResolvedTarget lib)) (start : Option (Best lib))
        → All (HasRules config.rules) rs
        → (b : Option (Best lib)) × (best_of lib config candidate rs start ≡ ok b)
    unfolding best_of
    best_of_total [] start h = (start, refl)
    best_of_total (r ∷ rs) start (hr, h) =
        let (o, e) = first_matching_rule_total config.rules 0 r candidate hr in
        let (b, eb) = best_of_total rs (consider lib r o start) h in (b, rw e eb)
