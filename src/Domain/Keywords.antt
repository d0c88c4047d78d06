-- ===== src/Domain/Keywords.antt =====
-- search/keywords.py and search/coverage.py.
use emule_indexer.Common.{
  ◌≡◌, ◌≢◌, ◌↔◌, refl, inl, inr, Bool, true, false, not, ◌&&◌, Bool-cases, List, [], ◌∷◌, map, any,
  all, In, if◌then◌else◌, arith,
}
use mathlib.Core.Path.{subst}
use emule_indexer.Common.Members.{Nodup}
use emule_indexer.Common.Text.{Str, str_eq, str_eq_iff}

pub record SearchKeyword : Type 0 where
  pub text : Str
  pub origin : Str

abbrev is_seen : Str → List Str → Bool
is_seen text seen = any (str_eq text) seen

-- `text and text not in seen`
abbrev is_new : Str → List Str → Bool
is_new text seen = not (str_eq text []) && not (is_seen text seen)

-- The loop, with the set of the texts that it has seen.
unfoldable pub keywords_from : List Str → List Str → List SearchKeyword
keywords_from seen [] = []
keywords_from seen (text ∷ texts) =
    let kept = keywords_from (text ∷ seen) texts in
    let skipped = keywords_from seen texts in
    if is_new text seen then record { text = text; origin = text } ∷ kept else skipped

unfoldable pub generate_keywords : List Str → List SearchKeyword
unfolding keywords_from
generate_keywords keywords = keywords_from [] keywords

pub data Coverage : Type 0 where
  healthy degraded blind : Coverage

unfoldable pub effective_coverage : List Bool → Coverage
effective_coverage search_capable =
    if not (any (λ b. b) search_capable)
    then blind
    else if all (λ b. b) search_capable
    then healthy
    else degraded

abbrev pub texts_of : List SearchKeyword → List Str
texts_of keywords = map (λ k. k.text) keywords

is_seen_iff : (text : Str) (seen : List Str) → (is_seen text seen ≡ true) ↔ In text seen
is_seen_iff text [] = (λ h. cc, λ m. absurd m)
is_seen_iff text (x ∷ xs) = ground (arith, str_eq_iff text x, is_seen_iff text xs)

is_new_iff :
    (text : Str) (seen : List Str) → (is_new text seen ≡ true) ↔ ((text ≢ []) × (¬ In text seen))
is_new_iff text seen = ground (arith, str_eq_iff text [], is_seen_iff text seen)

keywords_from-In :
    (seen keywords : List Str) (text : Str)
    → In text (texts_of (keywords_from seen keywords))
    → In text keywords × ((text ≢ []) × (¬ In text seen))
unfolding keywords_from
keywords_from-In seen [] text m = absurd m
keywords_from-In seen (x ∷ xs) text m = elim (Bool-cases (is_new x seen)) [
  | inl new ↦ elim (rw new at m) [
    | inl e ↦ (inl e, rw e ((is_new_iff x seen).0 new))
    | inr below ↦
        let (there, (proper, fresh)) = keywords_from-In (x ∷ seen) xs text below in
        (inr there, (proper, λ s. fresh (inr s)))
  ]
  | inr old ↦ let (there, rest) = keywords_from-In seen xs text (rw old at m) in (inr there, rest)
]

In-keywords_from :
    (seen keywords : List Str) (text : Str)
    → In text keywords
    → text ≢ []
    → ¬ In text seen
    → In text (texts_of (keywords_from seen keywords))
unfolding keywords_from
In-keywords_from seen [] text m proper fresh = absurd m
In-keywords_from seen (x ∷ xs) text (inl e) proper fresh =
    let new : is_new x seen ≡ true =
      (is_new_iff x seen).1 (subst (λ y. (y ≢ []) × (¬ In y seen)) e (proper, fresh)) in
    rw new (inl e)
In-keywords_from seen (x ∷ xs) text (inr m) proper fresh = elim (Bool-cases (is_new x seen)) [
  | inr old ↦ rw old (In-keywords_from seen xs text m proper fresh)
  | inl new ↦ elim (Bool-cases (str_eq text x)) [
    | inl same ↦ rw new (inl ((str_eq_iff text x).0 same))
    | inr other ↦ rw new (
        inr (
          In-keywords_from (x ∷ seen) xs text m proper (λ s. elim s [
            | inl e ↦ absurd (cc ((str_eq_iff text x).1 e, other))
            | inr s' ↦ fresh s'
          ])))
  ]
]

keywords_from-Nodup : (seen keywords : List Str) → Nodup (texts_of (keywords_from seen keywords))
unfolding keywords_from
keywords_from-Nodup seen [] = tt
keywords_from-Nodup seen (x ∷ xs) = elim (Bool-cases (is_new x seen)) [
  | inr old ↦ rw old (keywords_from-Nodup seen xs)
  | inl new ↦
      rw new (
        λ m. (keywords_from-In (x ∷ seen) xs x m).1.1 (inl refl),
        keywords_from-Nodup (x ∷ seen) xs,
      )
]

-- The keywords of a cycle are the texts of the configuration that are not empty, each of them once.
pub generate_keywords_iff :
    (keywords : List Str)
    → Nodup (texts_of (generate_keywords keywords))
      × ((text : Str)
          → In text (texts_of (generate_keywords keywords)) ↔ (In text keywords × (text ≢ [])))
unfolding generate_keywords
generate_keywords_iff keywords = (
  keywords_from-Nodup [] keywords,
  λ text. (
    λ m. let (there, (proper, _)) = keywords_from-In [] keywords text m in (there, proper),
    λ (there, proper). In-keywords_from [] keywords text there proper (λ m. m),
  ),
)

any_iff : (bs : List Bool) → (any (λ b. b) bs ≡ true) ↔ In true bs
any_iff [] = (λ h. cc, λ m. absurd m)
any_iff (true ∷ bs) = (λ _. inl refl, λ _. refl)
any_iff (false ∷ bs) =
    (λ h. inr ((any_iff bs).0 h), λ m. elim m [ inl e ↦ cc | inr there ↦ (any_iff bs).1 there ])

all_iff : (bs : List Bool) → (all (λ b. b) bs ≡ false) ↔ In false bs
all_iff [] = (λ h. cc, λ m. absurd m)
all_iff (false ∷ bs) = (λ _. inl refl, λ _. refl)
all_iff (true ∷ bs) =
    (λ h. inr ((all_iff bs).0 h), λ m. elim m [ inl e ↦ cc | inr there ↦ (all_iff bs).1 there ])

-- The network is blind exactly if no instance can search, and healthy exactly if one can and all
-- can.
pub effective_coverage_iff :
    (capable : List Bool)
    → ((effective_coverage capable ≡ blind) ↔ (¬ In true capable))
      × ((effective_coverage capable ≡ healthy) ↔ (In true capable × (¬ In false capable)))
unfolding effective_coverage
effective_coverage_iff capable = ground (arith, any_iff capable, all_iff capable)
