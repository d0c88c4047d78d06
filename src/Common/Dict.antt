-- ===== src/Common/Dict.antt =====
-- Python's `dict` with `str` keys, as a list of pairs in insertion order.
use emule_indexer.Common.Tests.{if◌then◌else◌}
use emule_indexer.Common.Text.{Str, str_eq, str_eq_iff, str_eq_refl}
use emule_indexer.Common.Tests.{Bool-cases, some-injective}
use emule_indexer.Common.Lists.{All, All-map, In}
use mathlib.Core.Path.{◌≡◌, refl, sym, subst}
use mathlib.Core.Logic.{inl, inr}
use mathlib.Core.List.{map}
use mathlib.Core.List.{List, [], ◌∷◌}
use mathlib.Core.Option.{Option, none, some}
use native.Mathlib.Omega.{arith}

abbrev pub Dict {ℓ} : Type ℓ → Type ℓ
Dict V = List (Str × V)

module _ {ℓ} {V : Type ℓ} where
  -- `d.get(k)`
  unfoldable pub get : Str → Dict V → Option V
  get k [] = none
  get k ((j, v) ∷ d) = if str_eq j k then some v else get k d

  -- `d[k] = v`: a key that is there keeps its place.
  unfoldable pub put : Str → V → Dict V → Dict V
  put k v [] = (k, v) ∷ []
  put k v ((j, w) ∷ d) = if str_eq j k then (k, v) ∷ d else (j, w) ∷ put k v d

  pub get-put :
      (k j : Str) (v : V) (d : Dict V)
      → get j (put k v d) ≡ (if str_eq k j then some v else get j d)
  unfolding get put
  get-put k j v [] = refl
  get-put k j v ((i, w) ∷ d) =
      ground (arith, str_eq_iff k j, str_eq_iff i k, str_eq_iff i j, get-put k j v d)

-- What holds of every entry, every name, and what stays so when an entry is written.
module _ {ℓ κ} {V : Type ℓ} (P : Str × V → Type κ) where
  pub get-All : (k : Str) (v : V) (d : Dict V) → All P d → get k d ≡ some v → P (k, v)
  unfolding get
  get-All k v [] h e = absurd (cc)
  get-All k v ((j, w) ∷ d) h e = elim (Bool-cases (str_eq j k)) [
    | inl same ↦ subst P (cc ((str_eq_iff j k).0 same, some-injective (rw same at e))) h.0
    | inr other ↦ get-All k v d h.1 (rw other at e)
  ]

  pub put-All : (k : Str) (v : V) (d : Dict V) → All P d → P (k, v) → All P (put k v d)
  unfolding put
  put-All k v [] h p = (p, tt)
  put-All k v ((j, w) ∷ d) h p = elim (Bool-cases (str_eq j k)) [
    | inl same ↦ rw same (p, h.1)
    | inr other ↦ rw other (h.0, put-All k v d h.1 p)
  ]

module _ {ℓ κ} {V : Type ℓ} (P : Str → Type κ) where
  pub get-All_names :
      (k : Str) (v : V) (d : Dict V) → All P (map (λ t. t.0) d) → get k d ≡ some v → P k
  unfolding get
  get-All_names k v [] h e = absurd (cc)
  get-All_names k v ((j, w) ∷ d) h e = elim (Bool-cases (str_eq j k)) [
    | inl same ↦ subst P ((str_eq_iff j k).0 same) h.0
    | inr other ↦ get-All_names k v d h.1 (rw other at e)
  ]

-- Every name of a dictionary has a value.
pub All_names-get {ℓ} :
    {V : Type ℓ} (d : Dict V) → All (λ k. (v : V) × (get k d ≡ some v)) (map (λ t. t.0) d)
unfolding get
All_names-get [] = tt
All_names-get ((j, w) ∷ d) = (
  (w, rw (str_eq_refl j)),
  All-map
      (λ k (v, e). elim (Bool-cases (str_eq j k)) [
        | inl same ↦ (w, rw same)
        | inr other ↦ (v, rw other e)
      ])
      (map (λ t. t.0) d) (All_names-get d),
)

pub get-In_names :
    {V : Type 0} (k : Str) (v : V) (d : Dict V) → get k d ≡ some v → In k (map (λ t. t.0) d)
unfolding get
get-In_names k v [] e = cc
get-In_names k v ((j, w) ∷ d) e = elim (Bool-cases (str_eq j k)) [
  | inl same ↦ inl (sym ((str_eq_iff j k).0 same))
  | inr other ↦ inr (get-In_names k v d (rw other at e))
]
