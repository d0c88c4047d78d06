-- ===== src/Matching/Engine/Truth.antt =====
-- What a decision is about, said without the engine: which rules are true of a target, and which of
-- two is better.
use emule_indexer.Common.{
  ℕ, suc, ◌+◌, ◌<◌, ◌≡◌, ◌⊎◌, inl, inr, refl, sym, ap, ◌∙◌, true, false, Bool-cases, Option, none,
  some, List, [], ◌∷◌, In, ok, >>=-eq-ok, ok-injective, some-injective, arith,
}
use mathlib.Core.Path.{subst}
use emule_indexer.Common.Text.{Str, str_lt}
use emule_indexer.Common.Dict.{get}
use emule_indexer.Matching.Library.{Library}
use emule_indexer.Matching.Models.{FileCandidate, target_id}
use emule_indexer.Matching.Matchers.{Matcher, matches}
use emule_indexer.Matching.Config.{Tier, catalog, notify, download, tier_rank, Rule}
use emule_indexer.Matching.Resolver.{ResolvedTarget, lookup_key}
use emule_indexer.Matching.Engine.{key_lt, rate, first_matching_rule}
use emule_indexer.Matching.Engine.Total.{HasRules}

-- `download` is over `notify`, and `notify` over `catalog`.
pub data Higher : Tier → Tier → Type 0 where
  download_notify : Higher download notify
  download_catalog : Higher download catalog
  notify_catalog : Higher notify catalog

-- One text is before another in a dictionary.
pub data Before : Str → Str → Type 0 where
  prefix_before : (c : ℕ) (s : Str) → Before [] (c ∷ s)
  less_before : (c d : ℕ) (s t : Str) → c < d → Before (c ∷ s) (d ∷ t)
  same_before : (c : ℕ) (s t : Str) → Before s t → Before (c ∷ s) (c ∷ t)

-- A higher tier, or the same with a smaller index, or both the same with a smaller id.
abbrev pub Better : Tier → ℕ → Str → Tier → ℕ → Str → Type 0
Better tier index id tier' index' id' =
    Higher tier tier' ⊎ ((tier ≡ tier') × ((index < index') ⊎ ((index ≡ index') × Before id id')))

Higher-rank : (a b : Tier) → Higher a b → tier_rank b < tier_rank a
Higher-rank _ _ download_notify = omega arith
Higher-rank _ _ download_catalog = omega arith
Higher-rank _ _ notify_catalog = omega arith

Before-str_lt : (s t : Str) → Before s t → str_lt s t ≡ true
unfolding str_lt
Before-str_lt _ _ (prefix_before c s) = refl
Before-str_lt _ _ (less_before c d s t h) = ground arith
Before-str_lt _ _ (same_before c s t h) = ground (arith, Before-str_lt s t h)

module _ (lib : Library) (candidate : FileCandidate lib) where
  abbrev pub IsTrue : ResolvedTarget lib → Rule lib → Type 0
  IsTrue r rule =
      (m : Matcher lib) × (get rule.name r.rules ≡ some m) × (matches lib m candidate ≡ true)

  abbrev pub IsFalse : ResolvedTarget lib → Rule lib → Type 0
  IsFalse r rule =
      (m : Matcher lib) × (get rule.name r.rules ≡ some m) × (matches lib m candidate ≡ false)

  -- The rule at an index is true of the target, and those before it are false.
  pub data FirstTrue (r : ResolvedTarget lib) : List (Rule lib) → ℕ → Rule lib → Type 0 where
    here :
        (rule : Rule lib) (rules : List (Rule lib))
        → IsTrue r rule
        → FirstTrue r (rule ∷ rules) 0 rule
    there :
        (rule other : Rule lib) (rules : List (Rule lib)) (index : ℕ)
        → IsFalse r other
        → FirstTrue r rules index rule
        → FirstTrue r (other ∷ rules) (suc index) rule

  pub Better-key_lt :
      (r r' : ResolvedTarget lib) (i i' : ℕ) (x x' : Rule lib)
      → Better x.tier i (target_id lib r.target) x'.tier i' (target_id lib r'.target)
      → key_lt (rate lib r (i, x)).key (rate lib r' (i', x')).key ≡ true
  unfolding key_lt
  Better-key_lt r r' i i' x x' (inl h) = ground (arith, Higher-rank x.tier x'.tier h)
  Better-key_lt r r' i i' x x' (inr (e, inl less)) = ground (arith, ap tier_rank e, less)
  Better-key_lt r r' i i' x x' (inr (e, inr (same, before))) =
      ground (arith, ap tier_rank e, same, Before-str_lt _ _ before)

  -- The scan finds the first true rule,
  pub FirstTrue-first_matching_rule :
      (r : ResolvedTarget lib) (rules : List (Rule lib)) (index i : ℕ) (rule : Rule lib)
      → FirstTrue r rules i rule
      → first_matching_rule lib rules index r candidate ≡ ok (some (index + i, rule))
  unfolding first_matching_rule
  FirstTrue-first_matching_rule r _ index _ _ (here rule rules (m, e, hit)) =
      let n : index + 0 ≡ index = omega arith in rw (e, hit, n) refl
  FirstTrue-first_matching_rule r _ index _ _ (there rule other rules i (m, e, miss) f) =
      let n : suc index + i ≡ index + suc i = omega arith in
      rw (e, miss)
        (FirstTrue-first_matching_rule r rules (suc index) i rule f
          ∙ ap (λ (k : ℕ). ok (some (k, rule))) n)

  lookup_key-some :
      (found : Option (Matcher lib)) (m : Matcher lib) → lookup_key found ≡ ok m → found ≡ some m
  lookup_key-some none m h = cc h
  lookup_key-some (some m') m h = cc h

  -- and nothing else.
  pub first_matching_rule-FirstTrue :
      (r : ResolvedTarget lib) (rules : List (Rule lib)) (index j : ℕ) (rule : Rule lib)
      → first_matching_rule lib rules index r candidate ≡ ok (some (j, rule))
      → (i : ℕ) × (j ≡ index + i) × FirstTrue r rules i rule
  unfolding first_matching_rule
  first_matching_rule-FirstTrue r [] index j rule h = cc h
  first_matching_rule-FirstTrue r (other ∷ rules) index j rule h =
      let (m, e, h') = >>=-eq-ok (lookup_key (get other.name r.rules)) _ h in
      let known = lookup_key-some (get other.name r.rules) m e in
      elim (Bool-cases (matches lib m candidate)) [
        | inl hit ↦
            let o : (index, other) ≡ (j, rule) = some-injective (ok-injective (rw hit at h')) in
            (
              0,
              omega (arith, ap (λ (t : ℕ × Rule lib). t.0) o),
              subst (FirstTrue r (other ∷ rules) 0) (ap (λ (t : ℕ × Rule lib). t.1) o)
                  (here other rules (m, known, hit)),
            )
        | inr miss ↦
            let (i, n, f) =
              first_matching_rule-FirstTrue r rules (suc index) j rule (rw miss at h') in
            (suc i, omega (arith, n), there rule other rules i (m, known, miss) f)
      ]

  pub FirstTrue-IsTrue :
      (r : ResolvedTarget lib) (rules : List (Rule lib)) (i : ℕ) (rule : Rule lib)
      → FirstTrue r rules i rule
      → In rule rules × IsTrue r rule
  FirstTrue-IsTrue r _ _ _ (here rule rules t) = (inl refl, t)
  FirstTrue-IsTrue r _ _ _ (there rule other rules i miss f) =
      let (m, t) = FirstTrue-IsTrue r rules i rule f in (inr m, t)

  -- If some rule is true of a target, there is a first one.
  pub IsTrue-FirstTrue :
      (r : ResolvedTarget lib) (rules : List (Rule lib)) (rule : Rule lib)
      → HasRules lib rules r
      → In rule rules
      → IsTrue r rule
      → (i : ℕ) × (first : Rule lib) × FirstTrue r rules i first
  IsTrue-FirstTrue r (other ∷ rules) rule ((m, known), h) there_is t =
      elim (Bool-cases (matches lib m candidate)) [
        | inl hit ↦ (0, other, here other rules (m, known, hit))
        | inr miss ↦ elim there_is [
          | inl same ↦
              let (m', known', hit) = subst (IsTrue r) same t in
              let one : m' ≡ m = some-injective (sym known' ∙ known) in
              absurd (cc (rw one at hit, miss))
          | inr later ↦
              let (i, first, f) = IsTrue-FirstTrue r rules rule h later t in
              (suc i, first, there first other rules i (m, known, miss) f)
        ]
      ]
  IsTrue-FirstTrue r [] rule h there_is t = absurd there_is
