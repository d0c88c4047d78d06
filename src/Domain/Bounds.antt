-- ===== src/Domain/Bounds.antt =====
-- The smallest and the largest counts of a bucket.
use emule_indexer.Common.{
  ℕ, ◌≤◌, ◌≡◌, refl, sym, inl, inr, Bool-cases, List, [], ◌∷◌, map, In, All, ltb, arith,
}
use mathlib.Core.Path.{subst}
use emule_indexer.Common.Text.{Str}
use emule_indexer.Domain.Buckets.{Group, min_of, max_of, bucket_of}

-- `n` is one of the numbers and none is smaller, or none is larger.
abbrev pub IsMin : ℕ → List ℕ → Type 0
IsMin n ns = In n ns × All (λ k. n ≤ k) ns

abbrev pub IsMax : ℕ → List ℕ → Type 0
IsMax n ns = In n ns × All (λ k. k ≤ n) ns

min_of-IsMin : (m : ℕ) (ns : List ℕ) → IsMin (min_of m ns) (m ∷ ns)
min_of-IsMin m [] = (inl refl, (omega arith, tt))
min_of-IsMin m (n ∷ ns) = elim (Bool-cases (ltb n m)) [
  | inl less ↦
      let (there, (first, rest)) = min_of-IsMin n ns in
      let e : min_of m (n ∷ ns) ≡ min_of n ns = rw less in
      subst (λ x. IsMin x (m ∷ n ∷ ns)) (sym e) (inr there, (ground arith, (first, rest)))
  | inr more ↦
      let (there, (first, rest)) = min_of-IsMin m ns in
      let e : min_of m (n ∷ ns) ≡ min_of m ns = rw more in
      subst (λ x. IsMin x (m ∷ n ∷ ns)) (sym e)
        (elim there [ inl e ↦ inl e | inr below ↦ inr (inr below) ], (first, (ground arith, rest)))
]

max_of-IsMax : (m : ℕ) (ns : List ℕ) → IsMax (max_of m ns) (m ∷ ns)
max_of-IsMax m [] = (inl refl, (omega arith, tt))
max_of-IsMax m (n ∷ ns) = elim (Bool-cases (ltb m n)) [
  | inl less ↦
      let (there, (first, rest)) = max_of-IsMax n ns in
      let e : max_of m (n ∷ ns) ≡ max_of n ns = rw less in
      subst (λ x. IsMax x (m ∷ n ∷ ns)) (sym e) (inr there, (ground arith, (first, rest)))
  | inr more ↦
      let (there, (first, rest)) = max_of-IsMax m ns in
      let e : max_of m (n ∷ ns) ≡ max_of m ns = rw more in
      subst (λ x. IsMax x (m ∷ n ∷ ns)) (sym e)
        (elim there [ inl e ↦ inl e | inr below ↦ inr (inr below) ], (first, (ground arith, rest)))
]

-- The extremes of a bucket are the extremes of the counts of its rows.
pub bucket_of_bounds :
    (dumps : List Str → Str) (g : Group)
    → (IsMin (bucket_of dumps g).source_count_min (map (λ r. r.source_count) (g.0 ∷ g.1))
        × IsMax (bucket_of dumps g).source_count_max (map (λ r. r.source_count) (g.0 ∷ g.1)))
      × (IsMin
            (bucket_of dumps g).complete_source_count_min
            (map (λ r. r.complete_source_count) (g.0 ∷ g.1))
          × IsMax
              (bucket_of dumps g).complete_source_count_max
              (map (λ r. r.complete_source_count) (g.0 ∷ g.1)))
unfolding bucket_of
bucket_of_bounds dumps g = (
  (
    min_of-IsMin g.0.source_count (map (λ r. r.source_count) g.1),
    max_of-IsMax g.0.source_count (map (λ r. r.source_count) g.1),
  ),
  (
    min_of-IsMin g.0.complete_source_count (map (λ r. r.complete_source_count) g.1),
    max_of-IsMax g.0.complete_source_count (map (λ r. r.complete_source_count) g.1),
  ),
)
