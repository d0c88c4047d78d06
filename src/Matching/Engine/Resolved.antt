-- ===== src/Matching/Engine/Resolved.antt =====
-- The engine that `__init__` built: its targets hold what `evaluate` looks up.
use emule_indexer.Common.{
  ℕ, ◌≡◌, refl, Bool-cases, inl, inr, Option, none, some, List, [], ◌∷◌, All, ok, >>=-eq-ok,
  ok-injective, ltb, length, >>=-total, All-In,
}
use mathlib.Core.Path.{subst}
use emule_indexer.Matching.Library.{Library}
use emule_indexer.Matching.Models.{FileCandidate, TargetSegment}
use emule_indexer.Matching.Config.{MatcherConfig}
use emule_indexer.Matching.Resolver.{ResolvedTarget, resolve_all}
use emule_indexer.Matching.Resolver.Keys.{resolve_all-Holds}
use emule_indexer.Matching.Engine.{
  Best, decide, best_of, evaluate, MatchDecision, explain_target, resolve_targets,
}
use emule_indexer.Matching.Engine.Choice.{best_of-Chosen}
use emule_indexer.Matching.Engine.Total.{HasRules, best_of_total, explain_target_total}

module _ (lib : Library) (config : MatcherConfig lib) where
  pub resolve_targets-HasRules :
      (fuel : ℕ) (ts : List TargetSegment) (rs : List (ResolvedTarget lib))
      → resolve_targets lib fuel config ts ≡ ok rs
      → All (HasRules lib config.rules) rs
  unfolding resolve_targets
  resolve_targets-HasRules fuel [] rs h =
      subst (All (HasRules lib config.rules)) (ok-injective h) tt
  resolve_targets-HasRules fuel (t ∷ ts) rs h =
      let (r, e, h') = >>=-eq-ok (resolve_all lib config t fuel) _ h in
      let (rest, e', h'') = >>=-eq-ok (resolve_targets lib fuel config ts) _ h' in
      subst (All (HasRules lib config.rules)) (ok-injective h'')
        (resolve_all-Holds lib config t fuel r e, resolve_targets-HasRules fuel ts rest e')

  decide_total :
      (candidate : FileCandidate lib) (rs : List (ResolvedTarget lib)) (found : Option (Best lib))
      → All (HasRules lib config.rules) rs
      → best_of lib config candidate rs none ≡ ok found
      → (o : Option (MatchDecision lib)) × (decide lib config candidate found ≡ ok o)
  decide_total candidate rs none h e = (none, refl)
  decide_total candidate rs (some best) h e =
      let s = (best_of-Chosen lib config candidate rs best e).source in
      let has : HasRules lib config.rules best.resolved =
        subst (λ (b : Best lib). HasRules lib config.rules b.resolved) s.rated
          (All-In (HasRules lib config.rules) s.resolved rs h s.member) in
      let (x, ex) = explain_target_total lib config candidate best.resolved has in
      >>=-total (explain_target lib config best.resolved candidate) _ ex (_, refl)

  -- An engine that was built from a config and targets answers every file: none of its
  -- dictionaries misses a key.
  pub evaluate_total :
      (fuel : ℕ) (ts : List TargetSegment) (rs : List (ResolvedTarget lib))
      (candidate : FileCandidate lib) (limit : ℕ)
      → resolve_targets lib fuel config ts ≡ ok rs
      → (o : Option (MatchDecision lib)) × (evaluate lib config candidate limit rs ≡ ok o)
  unfolding evaluate
  evaluate_total fuel ts rs candidate limit h =
      let has = resolve_targets-HasRules fuel ts rs h in
      let (found, e) = best_of_total lib config candidate rs none has in
      elim (Bool-cases (ltb limit (length candidate.filename))) [
        | inl long ↦ (none, rw long)
        | inr short ↦ let (o, d) = decide_total candidate rs found has e in (o, rw (short, e) d)
      ]
