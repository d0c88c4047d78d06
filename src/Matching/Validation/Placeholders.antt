-- ===== src/Matching/Validation/Placeholders.antt =====
-- Whether the placeholders of a pattern are known does not depend on the target.
use emule_indexer.Common.{
  ◌≡◌, refl, ap, none, some, List, [], ◌∷◌, ◌++◌, ◌>>=◌, ok, >>=-eq-ok, Result-cases, inl, inr,
  arith, ℕ, Bool-cases, ok-injective,
}
use emule_indexer.Common.Text.{Str}
use emule_indexer.Matching.Library.{Library}
use emule_indexer.Matching.Models.{TargetSegment}
use emule_indexer.Matching.Interpolation.{
  replace, scan, interpolate_from, interpolate, ends_name, Mode,
}

module _ (lib : Library) (t t' : TargetSegment) where
  replace_same :
      (name s : Str) → replace lib t name ≡ ok s → (s' : Str) × (replace lib t' name ≡ ok s')
  unfolding replace
  replace_same name s h = elim (Result-cases (replace lib t' name)) [
    | inl found ↦ found
    | inr (e, h') ↦ absurd (ground arith)
  ]

  scan_same :
      (mode : Mode) (c : ℕ) (step : Str × Mode)
      → scan lib t mode c ≡ ok step
      → (s' : Str) × (scan lib t' mode c ≡ ok (s', step.1))
  unfolding scan
  scan_same none c step h = (step.0, h)
  scan_same (some name) c step h = elim (Bool-cases (ends_name name c)) [
    | inl ends ↦
        let (s, e, h') = >>=-eq-ok (replace lib t name) _ (rw ends at h) in
        let (s', e') = replace_same name s e in
        (s', rw (ends, e') (ap (λ (x : Str × Mode). ok (s', x.1)) (ok-injective h')))
    | inr goes ↦ (step.0, rw goes (rw goes at h))
  ]

  -- What is left of the pattern behind one character.
  abbrev Rest : List ℕ → Type 0
  Rest p =
      (mode : Mode) (text : Str)
      → interpolate_from lib t mode p ≡ ok text
      → (text' : Str) × (interpolate_from lib t' mode p ≡ ok text')

  step_same :
      (mode : Mode) (c : ℕ) (p : List ℕ) (text : Str)
      → Rest p
      → (scan lib t mode c >>= λ step.
          interpolate_from lib t step.1 p >>= λ rest. ok (step.0 ++ rest))
        ≡ ok text
      → (text' : Str) × ((scan lib t' mode c >>= λ step.
            interpolate_from lib t' step.1 p >>= λ rest. ok (step.0 ++ rest))
          ≡ ok text')
  step_same mode c p text rest h =
      let (step, e, h') = >>=-eq-ok (scan lib t mode c) _ h in
      let (s', e') = scan_same mode c step e in
      let (tail, et, _) = >>=-eq-ok (interpolate_from lib t step.1 p) _ h' in
      let (tail', et') = rest step.1 tail et in (s' ++ tail', rw (e', et'))

  interpolate_from_same : (p : List ℕ) → Rest p
  unfolding interpolate_from
  interpolate_from_same [] none text h = (_, refl)
  interpolate_from_same [] (some name) text h = (_, refl)
  interpolate_from_same (c ∷ p) none text h = step_same none c p text (interpolate_from_same p) h
  interpolate_from_same (c ∷ p) (some name) text h =
      step_same (some name) c p text (interpolate_from_same p) h

  pub interpolate_same :
      (p text : Str)
      → interpolate lib t p ≡ ok text
      → (text' : Str) × (interpolate lib t' p ≡ ok text')
  unfolding interpolate
  interpolate_same p text h = interpolate_from_same p none text h
