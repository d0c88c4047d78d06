-- ===== src/Common/Members.antt =====
-- Membership in lists: appending, lists without repetition, and how long these can be.
use Prim.Native.Nat.{◌≤◌}
use mathlib.Core.Path.{◌≡◌, refl, sym, subst, ap}
use mathlib.Core.List.{List, [], ◌∷◌, ◌++◌, map}
use mathlib.Core.Logic.{◌⊎◌, inl, inr}
use native.Mathlib.Omega.{arith}
use emule_indexer.Common.Lists.{length, length-append, In, All}

module _ {A : Type 0} where
  pub In-append_left : (a : A) (xs ys : List A) → In a xs → In a (xs ++ ys)
  In-append_left a [] ys m = absurd m
  In-append_left a (x ∷ xs) ys (inl e) = inl e
  In-append_left a (x ∷ xs) ys (inr m) = inr (In-append_left a xs ys m)

  pub In-append_right : (a : A) (xs ys : List A) → In a ys → In a (xs ++ ys)
  In-append_right a [] ys m = m
  In-append_right a (x ∷ xs) ys m = inr (In-append_right a xs ys m)

  pub In-append-inv : (a : A) (xs ys : List A) → In a (xs ++ ys) → In a xs ⊎ In a ys
  In-append-inv a [] ys m = inr m
  In-append-inv a (x ∷ xs) ys (inl e) = inl (inl e)
  In-append-inv a (x ∷ xs) ys (inr m) = elim (In-append-inv a xs ys m) [
    | inl l ↦ inl (inr l)
    | inr r ↦ inr r
  ]

  pub All-of_In : (P : A → Type 0) (xs : List A) → ((a : A) → In a xs → P a) → All P xs
  All-of_In P [] f = tt
  All-of_In P (x ∷ xs) f = (f x (inl refl), All-of_In P xs (λ a m. f a (inr m)))

  abbrev pub Nodup : List A → Type 0
  Nodup [] = Unit {0}
  Nodup (x ∷ xs) = (¬ In x xs) × Nodup xs

  In-split : (a : A) (ys : List A) → In a ys → (xs : List A) × (zs : List A) × (ys ≡ xs ++ (a ∷ zs))
  In-split a [] m = absurd m
  In-split a (y ∷ ys) (inl e) = ([], ys, ap (λ x. x ∷ ys) (sym e))
  In-split a (y ∷ ys) (inr m) =
      let (xs, zs, e) = In-split a ys m in (y ∷ xs, zs, ap (λ (t : List A). y ∷ t) e)

  -- A list without repetition is no longer than a list that holds its members.
  pub length-Nodup :
      (xs ys : List A) → Nodup xs → ((a : A) → In a xs → In a ys) → length xs ≤ length ys
  length-Nodup [] ys n sub = omega arith
  length-Nodup (x ∷ xs) ys (new, n) sub =
      let (front, back, e) = In-split x ys (sub x (inl refl)) in
      let less : length xs ≤ length (front ++ back) = length-Nodup xs (front ++ back) n (λ a m.
        elim (In-append-inv a front (x ∷ back) (subst (In a) e (sub a (inr m)))) [
          | inl l ↦ In-append_left a front back l
          | inr (inl same) ↦ absurd (new (subst (λ y. In y xs) same m))
          | inr (inr r) ↦ In-append_right a front back r
        ]) in
      omega (arith, ap length e, length-append front (x ∷ back), length-append front back, less)

pub In-map : {A B : Type 0} (f : A → B) (a : A) (xs : List A) → In a xs → In (f a) (map f xs)
In-map f a [] m = absurd m
In-map f a (x ∷ xs) (inl e) = inl (ap f e)
In-map f a (x ∷ xs) (inr m) = inr (In-map f a xs m)
