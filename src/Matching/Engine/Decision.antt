-- ===== src/Matching/Engine/Decision.antt =====
-- What `evaluate` decides, and that it does not depend on the order of the targets.
use emule_indexer.Common.{
  ℕ, false, ◌≡◌, ◌≢◌, inl, inr, refl, sym, ap, ◌∙◌, Option, none, some, List, [], ◌∷◌, ok,
  >>=-eq-ok, ok-injective, some-injective, In, All,
}
use mathlib.Core.Path.{subst}
use emule_indexer.Matching.Library.{Library}
use emule_indexer.Matching.Models.{FileCandidate, target_id}
use emule_indexer.Matching.Config.{Rule, MatcherConfig}
use emule_indexer.Matching.Resolver.{ResolvedTarget}
use emule_indexer.Matching.Engine.{
  Key, key_lt, Best, rate, consider, first_matching_rule, best_of, evaluate,
}
use emule_indexer.Matching.Engine.Order.{key_lt_antisym}
use emule_indexer.Matching.Engine.Choice.{Fires, Chosen, best_of-Chosen}
use emule_indexer.Matching.Engine.Total.{HasRules, best_of_total}

module _ (lib : Library) (config : MatcherConfig lib) (candidate : FileCandidate lib) where
  -- `target_id` tells the resolved targets apart.
  abbrev pub UniqueIds : List (ResolvedTarget lib) → Type 0
  UniqueIds rs =
      (r r' : ResolvedTarget lib)
      → In r rs
      → In r' rs
      → target_id lib r.target ≡ target_id lib r'.target
      → r ≡ r'

  abbrev pub Within : List (ResolvedTarget lib) → List (ResolvedTarget lib) → Type 0
  Within rs rs' = (r : ResolvedTarget lib) → In r rs → In r rs'

  consider-some :
      (r : ResolvedTarget lib) (fired : Option (ℕ × Rule lib)) (start : Best lib)
      → (s : Best lib) × (consider lib r fired (some start) ≡ some s)
  consider-some r none start = (start, refl)
  consider-some r (some o) start = (_, refl)

  best_of-some-ne-none :
      (rs : List (ResolvedTarget lib)) (start : Best lib)
      → best_of lib config candidate rs (some start) ≢ ok none
  unfolding best_of
  best_of-some-ne-none [] start h = cc
  best_of-some-ne-none (r ∷ rs) start h =
      let (fired, e, h') = >>=-eq-ok (first_matching_rule lib config.rules 0 r candidate) _ h in
      let (s, es) = consider-some r fired start in
      best_of-some-ne-none rs s (subst (λ x. best_of lib config candidate rs x ≡ ok none) es h')

  none-Fires-cons :
      (r' : ResolvedTarget lib) (rs : List (ResolvedTarget lib)) (r : ResolvedTarget lib)
      (o : ℕ × Rule lib) (fired : Option (ℕ × Rule lib))
      → first_matching_rule lib config.rules 0 r' candidate ≡ ok fired
      → best_of lib config candidate rs (consider lib r' fired none) ≡ ok none
      → (best_of lib config candidate rs none ≡ ok none → In r rs → ⊥)
      → In r (r' ∷ rs)
      → Fires lib config candidate r o
      → ⊥
  none-Fires-cons r' rs r o (some o') e h ih m f = best_of-some-ne-none rs _ h
  none-Fires-cons r' rs r o none e h ih (inr m) f = ih h m
  none-Fires-cons r' rs r o none e h ih (inl same) f =
      cc (ok-injective (sym e ∙ subst (λ x. Fires lib config candidate x o) same f))

  -- If the loop finds nothing, no rule is true of any target.
  pub none-Fires :
      (rs : List (ResolvedTarget lib)) (r : ResolvedTarget lib) (o : ℕ × Rule lib)
      → best_of lib config candidate rs none ≡ ok none
      → In r rs
      → ¬ Fires lib config candidate r o
  unfolding best_of
  none-Fires [] r o h m f = absurd m
  none-Fires (r' ∷ rs) r o h m f =
      let (fired, e, h') = >>=-eq-ok (first_matching_rule lib config.rules 0 r' candidate) _ h in
      none-Fires-cons r' rs r o fired e h' (λ h'' m'. none-Fires rs r o h'' m' f) m f

  one_source :
      (r r' : ResolvedTarget lib) (o o' : ℕ × Rule lib)
      → Fires lib config candidate r o
      → Fires lib config candidate r' o'
      → key_lt (rate lib r o).key (rate lib r' o').key ≡ false
      → key_lt (rate lib r' o').key (rate lib r o).key ≡ false
      → (target_id lib r.target ≡ target_id lib r'.target → r ≡ r')
      → rate lib r o ≡ rate lib r' o'
  one_source r r' o o' f f' le ge unique =
      let same : r ≡ r' = unique (ap (λ (k : Key). k.id) (key_lt_antisym _ _ le ge)) in
      let fires : Fires lib config candidate r' o =
        subst (λ x. Fires lib config candidate x o) same f in
      let outcome : o ≡ o' = some-injective (ok-injective (sym fires ∙ f')) in cc

  -- Two lists with the same targets have the same best.
  Chosen-unique :
      (rs rs' : List (ResolvedTarget lib)) (b b' : Best lib)
      → Within rs rs'
      → Within rs' rs
      → UniqueIds rs
      → Chosen lib config candidate rs b
      → Chosen lib config candidate rs' b'
      → b ≡ b'
  Chosen-unique rs rs' b b' to from unique c c' =
      let s = c.source in
      let s' = c'.source in
      let le = c'.least s.resolved s.outcome (to s.resolved s.member) s.fires in
      let ge = c.least s'.resolved s'.outcome (from s'.resolved s'.member) s'.fires in
      sym s.rated
      ∙ one_source s.resolved s'.resolved s.outcome s'.outcome s.fires s'.fires
          (subst (λ (x : Best lib). key_lt (rate lib s.resolved s.outcome).key x.key ≡ false)
            (sym s'.rated) le)
          (subst (λ (x : Best lib). key_lt (rate lib s'.resolved s'.outcome).key x.key ≡ false)
            (sym s.rated) ge)
          (unique s.resolved s'.resolved s.member (from s'.resolved s'.member))
      ∙ s'.rated

  best_of_same :
      (rs rs' : List (ResolvedTarget lib)) (o o' : Option (Best lib))
      → Within rs rs'
      → Within rs' rs
      → UniqueIds rs
      → best_of lib config candidate rs none ≡ ok o
      → best_of lib config candidate rs' none ≡ ok o'
      → o ≡ o'
  best_of_same rs rs' none none to from unique e e' = refl
  best_of_same rs rs' none (some b') to from unique e e' =
      let s = (best_of-Chosen lib config candidate rs' b' e').source in
      absurd (none-Fires rs s.resolved s.outcome e (from s.resolved s.member) s.fires)
  best_of_same rs rs' (some b) none to from unique e e' =
      let s = (best_of-Chosen lib config candidate rs b e).source in
      absurd (none-Fires rs' s.resolved s.outcome e' (to s.resolved s.member) s.fires)
  best_of_same rs rs' (some b) (some b') to from unique e e' = ap some (
      Chosen-unique rs rs' b b' to from unique (best_of-Chosen lib config candidate rs b e)
        (best_of-Chosen lib config candidate rs' b' e'))

  -- Over targets with distinct ids that hold a matcher for each rule, the decision depends on which
  -- targets there are and not on their order or how often they stand in the list.
  pub evaluate_order :
      (limit : ℕ) (rs rs' : List (ResolvedTarget lib))
      → All (HasRules lib config.rules) rs
      → All (HasRules lib config.rules) rs'
      → UniqueIds rs
      → Within rs rs'
      → Within rs' rs
      → evaluate lib config candidate limit rs ≡ evaluate lib config candidate limit rs'
  unfolding evaluate
  evaluate_order limit rs rs' h h' unique to from =
      let (o, e) = best_of_total lib config candidate rs none h in
      let (o', e') = best_of_total lib config candidate rs' none h' in
      rw (e, e', best_of_same rs rs' o o' to from unique e e')
