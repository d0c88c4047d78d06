-- ===== src/Matching/Resolver/Keys.antt =====
-- A resolved target holds a matcher for each rule of the config.
use emule_indexer.Common.{
  ℕ, ◌≡◌, ap, ◌∙◌, some, List, [], ◌∷◌, ok, >>=-eq-ok, ok-injective, All, inl, inr, Bool-cases,
}
use mathlib.Core.Path.{subst}
use emule_indexer.Common.Text.{Str, str_eq, str_eq_refl}
use emule_indexer.Common.Dict.{Dict, get, put, get-put}
use emule_indexer.Matching.Library.{Library}
use emule_indexer.Matching.Models.{TargetSegment}
use emule_indexer.Matching.Matchers.{Matcher}
use emule_indexer.Matching.Config.{Rule, MatcherConfig}
use emule_indexer.Matching.Resolver.{
  ResolvedTarget, build_condition, resolve_token, resolve_tokens, resolve_rules, resolve_all,
}

module _ (lib : Library) where
  abbrev pub Holds : Dict (Matcher lib) → Str → Type 0
  Holds d name = (m : Matcher lib) × (get name d ≡ some m)

  Holds-put :
      (k : Str) (v : Matcher lib) (d : Dict (Matcher lib)) (name : Str)
      → Holds d name
      → Holds (put k v d) name
  Holds-put k v d name (m, e) = elim (Bool-cases (str_eq k name)) [
    | inl same ↦ (v, rw (get-put k name v d, same))
    | inr other ↦ (m, rw (get-put k name v d, other) e)
  ]

  Holds-put_self : (k : Str) (v : Matcher lib) (d : Dict (Matcher lib)) → Holds (put k v d) k
  Holds-put_self k v d = (v, rw (get-put k k v d, str_eq_refl k))

  module _ (config : MatcherConfig lib) (target : TargetSegment) (fuel : ℕ) where
    resolve_rules_keeps :
        (rules : List (Rule lib)) (built d : Dict (Matcher lib)) (name : Str)
        → resolve_rules lib config target fuel rules built ≡ ok d
        → Holds built name
        → Holds d name
    unfolding resolve_rules
    resolve_rules_keeps [] built d name h held = subst (λ x. Holds x name) (ok-injective h) held
    resolve_rules_keeps (rule ∷ rules) built d name h held =
        let (m, e, h') =
          >>=-eq-ok (build_condition lib (resolve_token lib config target fuel) rule.condition) _
            h in
        resolve_rules_keeps rules (put rule.name m built) d name h'
          (Holds-put rule.name m built name held)

    resolve_rules-Holds :
        (rules : List (Rule lib)) (built d : Dict (Matcher lib))
        → resolve_rules lib config target fuel rules built ≡ ok d
        → All (λ rule. Holds d rule.name) rules
    unfolding resolve_rules
    resolve_rules-Holds [] built d h = tt
    resolve_rules-Holds (rule ∷ rules) built d h =
        let (m, e, h') =
          >>=-eq-ok (build_condition lib (resolve_token lib config target fuel) rule.condition) _
            h in
        (
          resolve_rules_keeps rules (put rule.name m built) d rule.name h'
              (Holds-put_self rule.name m built),
          resolve_rules-Holds rules (put rule.name m built) d h',
        )

    pub resolve_all-Holds :
        (r : ResolvedTarget lib)
        → resolve_all lib config target fuel ≡ ok r
        → All (λ rule. Holds r.rules rule.name) config.rules
    unfolding resolve_all
    resolve_all-Holds r h =
        let (tokens, e, h') = >>=-eq-ok (resolve_tokens lib config target fuel config.tokens) _ h in
        let (rules, e', h'') =
          >>=-eq-ok (resolve_rules lib config target fuel config.rules []) _ h' in
        let same : rules ≡ r.rules = ap (λ (x : ResolvedTarget lib). x.rules) (ok-injective h'') in
        resolve_rules-Holds config.rules [] r.rules (e' ∙ ap ok same)
