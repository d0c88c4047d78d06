-- ===== src/Matching/Engine/Choice.antt =====
-- The loop of `evaluate` ends with the least key among the targets that have a true rule.
use emule_indexer.Common.{
  ℕ, false, ◌≡◌, ◌⊎◌, inl, inr, refl, sym, ◌∙◌, Option, none, some, List, [], ◌∷◌, ok, >>=-eq-ok,
  ok-injective, Bool-cases, some-injective, In,
}
use mathlib.Core.Path.{subst}
use emule_indexer.Matching.Library.{Library}
use emule_indexer.Matching.Models.{FileCandidate}
use emule_indexer.Matching.Config.{Rule, MatcherConfig}
use emule_indexer.Matching.Resolver.{ResolvedTarget}
use emule_indexer.Matching.Engine.{
  key_lt, Best, rate, improve, consider, first_matching_rule, best_of,
}
use emule_indexer.Matching.Engine.Order.{key_lt_irrefl, key_lt_asym, key_le_trans}

module _ (lib : Library) (config : MatcherConfig lib) (candidate : FileCandidate lib) where
  -- The first rule that is true of a target is `outcome`.
  abbrev pub Fires : ResolvedTarget lib → ℕ × Rule lib → Type 0
  Fires r outcome = first_matching_rule lib config.rules 0 r candidate ≡ ok (some outcome)

  -- `best` stands for a target of the list and its first true rule.
  pub record Source (rs : List (ResolvedTarget lib)) (best : Best lib) : Type 0 where
    pub resolved : ResolvedTarget lib
    pub outcome : ℕ × Rule lib
    pub member : In resolved rs
    pub fires : Fires resolved outcome
    pub rated : rate lib resolved outcome ≡ best

  abbrev pub Least : List (ResolvedTarget lib) → Best lib → Type 0
  Least rs best =
      (r : ResolvedTarget lib) (outcome : ℕ × Rule lib)
      → In r rs
      → Fires r outcome
      → key_lt (rate lib r outcome).key best.key ≡ false

  -- What a run of the loop from `start` ends with.
  record Run (rs : List (ResolvedTarget lib)) (start best : Best lib) : Type 0 where
    origin : (start ≡ best) ⊎ Source rs best
    bettered : key_lt start.key best.key ≡ false
    least : Least rs best

  improve_le :
      (old new : Best lib)
      → (key_lt old.key (improve lib (some old) new).key ≡ false)
        × (key_lt new.key (improve lib (some old) new).key ≡ false)
        × ((old ≡ improve lib (some old) new) ⊎ (new ≡ improve lib (some old) new))
  unfolding improve
  improve_le old new = elim (Bool-cases (key_lt new.key old.key)) [
    | inl lt ↦ rw lt (key_lt_asym new.key old.key lt, key_lt_irrefl new.key, inr refl)
    | inr ge ↦ rw ge (key_lt_irrefl old.key, ge, inl refl)
  ]

  Source-there :
      (r : ResolvedTarget lib) (rs : List (ResolvedTarget lib)) (best : Best lib)
      → Source rs best
      → Source (r ∷ rs) best
  Source-there r rs best s = record {
    resolved = s.resolved;
    outcome = s.outcome;
    member = inr s.member;
    fires = s.fires;
    rated = s.rated;
  }

  Source-here :
      (r : ResolvedTarget lib) (rs : List (ResolvedTarget lib)) (o : ℕ × Rule lib)
      → Fires r o
      → Source (r ∷ rs) (rate lib r o)
  Source-here r rs o f = record {
    resolved = r;
    outcome = o;
    member = inl refl;
    fires = f;
    rated = refl;
  }

  -- One more target in front whose key is not before the best one's.
  Least-cons :
      (r : ResolvedTarget lib) (rs : List (ResolvedTarget lib)) (best : Best lib)
      → ((outcome : ℕ × Rule lib)
          → Fires r outcome
          → key_lt (rate lib r outcome).key best.key ≡ false)
      → Least rs best
      → Least (r ∷ rs) best
  Least-cons r rs best first least r' o (inl e) f = rw e (first o (rw e at f))
  Least-cons r rs best first least r' o (inr m) f = least r' o m f

  Fires-unique :
      (r : ResolvedTarget lib) (o : ℕ × Rule lib) (fired : Option (ℕ × Rule lib))
      → first_matching_rule lib config.rules 0 r candidate ≡ ok fired
      → Fires r o
      → fired ≡ some o
  Fires-unique r o fired h f = ok-injective (sym h ∙ f)

  Run-cons :
      (r : ResolvedTarget lib) (rs : List (ResolvedTarget lib)) (start best : Best lib)
      (fired : Option (ℕ × Rule lib))
      → first_matching_rule lib config.rules 0 r candidate ≡ ok fired
      → ((s : Best lib) → consider lib r fired (some start) ≡ some s → Run rs s best)
      → Run (r ∷ rs) start best
  Run-cons r rs start best none h ih =
      let run = ih start refl in
      record {
        origin = elim run.origin [ inl e ↦ inl e | inr s ↦ inr (Source-there r rs best s) ];
        bettered = run.bettered;
        least = Least-cons r rs best (λ o f. cc (Fires-unique r o none h f)) run.least;
      }
  Run-cons r rs start best (some o) h ih =
      let new = rate lib r o in
      let next = improve lib (some start) new in
      let run = ih next refl in
      let (le_old, le_new, which) = improve_le start new in
      record {
        origin = elim run.origin [
          | inr s ↦ inr (Source-there r rs best s)
          | inl e ↦ elim which [
            | inl same ↦ inl (same ∙ e)
            | inr same ↦ inr (subst (Source (r ∷ rs)) (same ∙ e) (Source-here r rs o h))
          ]
        ];
        bettered = key_le_trans start.key next.key best.key le_old run.bettered;
        least =
            Least-cons r rs best
              (λ o' f.
                subst (λ x. key_lt (rate lib r x).key best.key ≡ false)
                  (some-injective (Fires-unique r o' (some o) h f))
                  (key_le_trans new.key next.key best.key le_new run.bettered))
              run.least;
      }

  best_of-Run :
      (rs : List (ResolvedTarget lib)) (start best : Best lib)
      → best_of lib config candidate rs (some start) ≡ ok (some best)
      → Run rs start best
  unfolding best_of
  best_of-Run [] start best h = record {
    origin = inl (some-injective (ok-injective h));
    bettered =
        subst (λ b. key_lt start.key b.key ≡ false) (some-injective (ok-injective h))
          (key_lt_irrefl start.key);
    least = λ r o m f. absurd m;
  }
  best_of-Run (r ∷ rs) start best h =
      let (fired, e, h') = >>=-eq-ok (first_matching_rule lib config.rules 0 r candidate) _ h in
      Run-cons r rs start best fired e (λ s es. best_of-Run rs s best (rw (← es) h'))

  -- Among the targets with a true rule the loop finds one, with its first true rule, whose key no
  -- other has one before; it finds none exactly if there is none.
  pub record Chosen (rs : List (ResolvedTarget lib)) (best : Best lib) : Type 0 where
    pub source : Source rs best
    pub least : Least rs best

  Chosen-cons :
      (r : ResolvedTarget lib) (rs : List (ResolvedTarget lib)) (best : Best lib)
      (fired : Option (ℕ × Rule lib))
      → first_matching_rule lib config.rules 0 r candidate ≡ ok fired
      → best_of lib config candidate rs (consider lib r fired none) ≡ ok (some best)
      → (fired ≡ none → Chosen rs best)
      → Chosen (r ∷ rs) best
  Chosen-cons r rs best none h e ih =
      let c = ih refl in
      record {
        source = Source-there r rs best c.source;
        least = Least-cons r rs best (λ o f. cc (Fires-unique r o none h f)) c.least;
      }
  Chosen-cons r rs best (some o) h e ih =
      let run = best_of-Run rs (rate lib r o) best (unfold improve in e) in
      record {
        source = elim run.origin [
          | inl same ↦ subst (Source (r ∷ rs)) same (Source-here r rs o h)
          | inr s ↦ Source-there r rs best s
        ];
        least =
            Least-cons r rs best
              (λ o' f.
                subst (λ x. key_lt (rate lib r x).key best.key ≡ false)
                  (some-injective (Fires-unique r o' (some o) h f)) run.bettered)
              run.least;
      }

  pub best_of-Chosen :
      (rs : List (ResolvedTarget lib)) (best : Best lib)
      → best_of lib config candidate rs none ≡ ok (some best)
      → Chosen rs best
  unfolding best_of
  best_of-Chosen [] best h = cc
  best_of-Chosen (r ∷ rs) best h =
      let (fired, e, h') = >>=-eq-ok (first_matching_rule lib config.rules 0 r candidate) _ h in
      Chosen-cons r rs best fired e h' (λ n. best_of-Chosen rs best (
        subst (λ x. best_of lib config candidate rs (consider lib r x none) ≡ ok (some best)) n h'))
