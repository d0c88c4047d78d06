-- ===== src/Matching/Engine/Verdict.antt =====
-- What `evaluate` answers: the first true rule of the target with the least key, or nothing.
use emule_indexer.Common.{
  ℕ, ◌+◌, false, ◌≡◌, ◌≢◌, All-In, ◌⊎◌, ◌<◌, ◌≤◌, inl, inr, refl, sym, ap, ◌∙◌, ◌↔◌, Option, none,
  some, List, In, All, ok, >>=-eq-ok, ok-injective, arith, Bool-cases, some-injective, length, ltb,
}
use mathlib.Core.Path.{subst}
use emule_indexer.Matching.Library.{Library}
use emule_indexer.Matching.Models.{FileCandidate, target_id}
use emule_indexer.Matching.Config.{Rule, MatcherConfig}
use emule_indexer.Matching.Resolver.{ResolvedTarget}
use emule_indexer.Matching.Engine.{
  Best, rate, decide, best_of, evaluate, explain_target, MatchDecision,
}
use emule_indexer.Matching.Engine.Truth.{
  Better, IsTrue, FirstTrue, Better-key_lt, FirstTrue-first_matching_rule,
  first_matching_rule-FirstTrue, FirstTrue-IsTrue, IsTrue-FirstTrue,
}
use emule_indexer.Matching.Engine.Choice.{Fires, Least, Chosen, best_of-Chosen}
use emule_indexer.Matching.Engine.Total.{HasRules, best_of_total, explain_target_total}
use emule_indexer.Matching.Engine.Decision.{none-Fires}

module _ (lib : Library) (config : MatcherConfig lib) (candidate : FileCandidate lib) where
  -- What the decision reports: a target of the list, its first true rule, that rule's tier and the
  -- explanation of the target; and that no other target is better.
  pub record Reports (rs : List (ResolvedTarget lib)) (d : MatchDecision lib) : Type 0 where
    pub resolved : ResolvedTarget lib
    pub member : In resolved rs
    pub index : ℕ
    pub rule : Rule lib
    pub first : FirstTrue lib candidate resolved config.rules index rule
    pub id : d.target_id ≡ target_id lib resolved.target
    pub rule_name : d.rule_name ≡ rule.name
    pub tier : d.tier ≡ rule.tier
    pub explained : explain_target lib config resolved candidate ≡ ok d.explanation
    pub best :
        (r : ResolvedTarget lib) (i : ℕ) (x : Rule lib)
        → In r rs
        → FirstTrue lib candidate r config.rules i x
        → ¬ Better x.tier i (target_id lib r.target) rule.tier index (target_id lib resolved.target)

  -- A target's first true rule is no better than the one that the loop chose.
  Least-best :
      (rs : List (ResolvedTarget lib)) (s : ResolvedTarget lib) (i : ℕ) (rule : Rule lib)
      → Least lib config candidate rs (rate lib s (i, rule))
      → (r : ResolvedTarget lib) (j : ℕ) (x : Rule lib) → In r rs
      → FirstTrue lib candidate r config.rules j x
      → ¬ Better x.tier j (target_id lib r.target) rule.tier i (target_id lib s.target)
  Least-best rs s i rule least r j x m f better =
      let fires = FirstTrue-first_matching_rule lib candidate r config.rules 0 j x f in
      let n : 0 + j ≡ j = omega arith in
      let lt = Better-key_lt lib candidate r s j i x rule better in
      cc (lt, least r (j, x) m (fires ∙ ap (λ (k : ℕ). ok (some (k, x))) n))

  Source-Reports :
      (rs : List (ResolvedTarget lib)) (s : ResolvedTarget lib) (i : ℕ) (rule : Rule lib)
      (d : MatchDecision lib)
      → In s rs
      → Fires lib config candidate s (i, rule)
      → Least lib config candidate rs (rate lib s (i, rule))
      → decide lib config candidate (some (rate lib s (i, rule))) ≡ ok (some d)
      → Reports rs d
  Source-Reports rs s i rule d m fires least h =
      let (x, ex, hx) = >>=-eq-ok (explain_target lib config s candidate) _ h in
      let e = some-injective (ok-injective hx) in
      let (j, n, f) = first_matching_rule-FirstTrue lib candidate s config.rules 0 i rule fires in
      let same : j ≡ i = omega (arith, n) in
      record {
        resolved = s;
        member = m;
        index = i;
        rule = rule;
        first = subst (λ k. FirstTrue lib candidate s config.rules k rule) same f;
        id = ap (λ (t : MatchDecision lib). t.target_id) (sym e);
        rule_name = ap (λ (t : MatchDecision lib). t.rule_name) (sym e);
        tier = ap (λ (t : MatchDecision lib). t.tier) (sym e);
        explained = ex ∙ ap (λ (t : MatchDecision lib). ok t.explanation) e;
        best = Least-best rs s i rule least;
      }

  decided-Reports :
      (rs : List (ResolvedTarget lib)) (found : Option (Best lib)) (d : MatchDecision lib)
      → best_of lib config candidate rs none ≡ ok found
      → decide lib config candidate found ≡ ok (some d)
      → Reports rs d
  decided-Reports rs none d e h = cc
  decided-Reports rs (some best) d e h =
      let c = best_of-Chosen lib config candidate rs best e in
      let s = c.source in
      Source-Reports rs s.resolved s.outcome.0 s.outcome.1 d s.member s.fires
        (subst (λ x. Least lib config candidate rs x) (sym s.rated) c.least)
        (subst (λ x. decide lib config candidate (some x) ≡ ok (some d)) (sym s.rated) h)

  short_name :
      (limit : ℕ) (rs : List (ResolvedTarget lib)) (d : MatchDecision lib)
      → evaluate lib config candidate limit rs ≡ ok (some d)
      → ltb limit (length candidate.filename) ≡ false
  unfolding evaluate
  short_name limit rs d h = elim (Bool-cases (ltb limit (length candidate.filename))) [
    | inl long ↦ cc (rw long at h)
    | inr short ↦ short
  ]

  -- A decision is about a name within the limit; it reports a target of the list, the first rule that
  -- is true of it, that rule's tier and the explanation that explain_target gives of the target; and
  -- no target of the list has a first true rule of a higher tier, or of that tier with a smaller
  -- index, or of both with a smaller id.
  pub evaluate-some :
      (limit : ℕ) (rs : List (ResolvedTarget lib)) (d : MatchDecision lib)
      → evaluate lib config candidate limit rs ≡ ok (some d)
      → (length candidate.filename ≤ limit) × Reports rs d
  unfolding evaluate
  evaluate-some limit rs d h =
      let short = short_name limit rs d h in
      let (found, e, h') = >>=-eq-ok (best_of lib config candidate rs none) _ (rw short at h) in
      (ground arith, decided-Reports rs found d e h')

  decide-ne-none :
      (rs : List (ResolvedTarget lib)) (best : Best lib)
      → All (HasRules lib config.rules) rs
      → Chosen lib config candidate rs best
      → decide lib config candidate (some best) ≢ ok none
  decide-ne-none rs best h c d =
      let s = c.source in
      let has : HasRules lib config.rules best.resolved =
        subst (λ (b : Best lib). HasRules lib config.rules b.resolved) s.rated
          (All-In (HasRules lib config.rules) s.resolved rs h s.member) in
      let (x, e) = explain_target_total lib config candidate best.resolved has in cc (rw e at d)

  found_none :
      (rs : List (ResolvedTarget lib)) (found : Option (Best lib))
      → All (HasRules lib config.rules) rs
      → best_of lib config candidate rs none ≡ ok found
      → (decide lib config candidate found ≡ ok none → found ≡ none)
        × (((r : ResolvedTarget lib) (o : ℕ × Rule lib)
              → In r rs
              → ¬ Fires lib config candidate r o)
            → found ≡ none)
  found_none rs none h e = (λ _. refl, λ _. refl)
  found_none rs (some best) h e =
      let c = best_of-Chosen lib config candidate rs best e in
      (
        λ d. absurd (decide-ne-none rs best h c d),
        λ quiet. absurd (quiet c.source.resolved c.source.outcome c.source.member c.source.fires),
      )

  -- No rule is true of any target.
  abbrev pub NothingTrue : List (ResolvedTarget lib) → Type 0
  NothingTrue rs =
      (r : ResolvedTarget lib) (rule : Rule lib)
      → In r rs
      → In rule config.rules
      → ¬ IsTrue lib candidate r rule

  quiet-NothingTrue :
      (rs : List (ResolvedTarget lib))
      → All (HasRules lib config.rules) rs
      → ((r : ResolvedTarget lib) (o : ℕ × Rule lib) → In r rs → ¬ Fires lib config candidate r o)
      → NothingTrue rs
  quiet-NothingTrue rs h quiet r rule m n t =
      let has = All-In (HasRules lib config.rules) r rs h m in
      let (i, first, f) = IsTrue-FirstTrue lib candidate r config.rules rule has n t in
      quiet r (0 + i, first) m
        (FirstTrue-first_matching_rule lib candidate r config.rules 0 i first f)

  NothingTrue-quiet :
      (rs : List (ResolvedTarget lib))
      → NothingTrue rs
      → (r : ResolvedTarget lib) (o : ℕ × Rule lib) → In r rs
      → ¬ Fires lib config candidate r o
  NothingTrue-quiet rs nothing r (j, rule) m fires =
      let (i, n, f) = first_matching_rule-FirstTrue lib candidate r config.rules 0 j rule fires in
      let (there, t) = FirstTrue-IsTrue lib candidate r config.rules i rule f in
      nothing r rule m there t

  -- There is no decision exactly if the name is too long or no rule is true of any target, over
  -- targets that hold a matcher for each rule.
  pub evaluate-none :
      (limit : ℕ) (rs : List (ResolvedTarget lib))
      → All (HasRules lib config.rules) rs
      → (evaluate lib config candidate limit rs ≡ ok none)
        ↔ ((limit < length candidate.filename) ⊎ NothingTrue rs)
  unfolding evaluate
  evaluate-none limit rs h = elim (Bool-cases (ltb limit (length candidate.filename))) [
    | inl long ↦ (λ _. inl (ground arith), λ _. rw long)
    | inr short ↦
        let (found, e) = best_of_total lib config candidate rs none h in
        let iff = found_none rs found h e in
        (
          λ d. inr (
              quiet-NothingTrue rs h (λ r o m.
                none-Fires lib config candidate rs r o (rw (iff.0 (rw (short, e) at d)) at e) m)),
          λ c. elim c [
            | inl long ↦ absurd (ground arith)
            | inr nothing ↦ rw (short, e, iff.1 (NothingTrue-quiet rs nothing))
          ],
        )
  ]
