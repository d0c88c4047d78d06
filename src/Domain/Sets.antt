-- ===== src/Domain/Sets.antt =====
-- `_json_sorted_set` of retention/buckets.py: the distinct values in order.
use emule_indexer.Common.{
  ◌≡◌, ◌⊎◌, refl, sym, ap, ◌∙◌, inl, inr, true, false, Bool-cases, List, [], ◌∷◌, In, All, All-map,
  All-In, if◌then◌else◌,
}
use mathlib.Core.Path.{subst}
use emule_indexer.Common.Members.{All-of_In}
use emule_indexer.Common.Text.{
  Str, str_eq, str_eq_iff, str_lt, str_lt_irrefl, str_lt_trans, str_lt_antisym,
}

unfoldable pub insert_value : Str → List Str → List Str
insert_value v [] = v ∷ []
insert_value v (x ∷ xs) =
    let rest = insert_value v xs in
    if str_eq v x then x ∷ xs else if str_lt v x then v ∷ (x ∷ xs) else x ∷ rest

-- `sorted(set(values))`
unfoldable pub sorted_set : List Str → List Str
unfolding insert_value
sorted_set [] = []
sorted_set (v ∷ vs) = insert_value v (sorted_set vs)

-- The text is a function of the list: `json.dumps` is a library.
unfoldable pub json_sorted_set : (List Str → Str) → List Str → Str
unfolding sorted_set
json_sorted_set dumps values = dumps (sorted_set values)

-- Each value is before all behind it.
abbrev pub Ascending : List Str → Type 0
Ascending [] = Unit {0}
Ascending (x ∷ xs) = All (λ y. str_lt x y ≡ true) xs × Ascending xs

insert_value-In : (v y : Str) (xs : List Str) → In y (insert_value v xs) → (y ≡ v) ⊎ In y xs
unfolding insert_value
insert_value-In v y [] (inl e) = inl e
insert_value-In v y [] (inr m) = absurd m
insert_value-In v y (x ∷ xs) m = elim (Bool-cases (str_eq v x)) [
  | inl same ↦ inr (rw same at m)
  | inr other ↦ elim (Bool-cases (str_lt v x)) [
    | inl before ↦ (rw (other, before) at m)
    | inr after ↦ elim (rw (other, after) at m) [
      | inl e ↦ inr (inl e)
      | inr below ↦ elim (insert_value-In v y xs below) [
        | inl e ↦ inl e
        | inr there ↦ inr (inr there)
      ]
    ]
  ]
]

In-insert_value_self : (v : Str) (xs : List Str) → In v (insert_value v xs)
unfolding insert_value
In-insert_value_self v [] = inl refl
In-insert_value_self v (x ∷ xs) = elim (Bool-cases (str_eq v x)) [
  | inl same ↦ rw same (inl ((str_eq_iff v x).0 same))
  | inr other ↦ elim (Bool-cases (str_lt v x)) [
    | inl before ↦ rw (other, before) (inl refl)
    | inr after ↦ rw (other, after) (inr (In-insert_value_self v xs))
  ]
]

In-insert_value : (v y : Str) (xs : List Str) → In y xs → In y (insert_value v xs)
unfolding insert_value
In-insert_value v y [] m = absurd m
In-insert_value v y (x ∷ xs) m = elim (Bool-cases (str_eq v x)) [
  | inl same ↦ rw same m
  | inr other ↦ elim (Bool-cases (str_lt v x)) [
    | inl before ↦ rw (other, before) (inr m)
    | inr after ↦
        rw (other, after)
          (elim m [ inl e ↦ inl e | inr there ↦ inr (In-insert_value v y xs there) ])
  ]
]

behind : (v x : Str) → str_eq v x ≡ false → str_lt v x ≡ false → str_lt x v ≡ true
behind v x other after = elim (Bool-cases (str_lt x v)) [
  | inl l ↦ l
  | inr ge ↦ cc ((str_eq_iff v x).1 (str_lt_antisym v x after ge), other)
]

insert_value-Ascending : (v : Str) (xs : List Str) → Ascending xs → Ascending (insert_value v xs)
unfolding insert_value
insert_value-Ascending v [] a = (tt, tt)
insert_value-Ascending v (x ∷ xs) (first, a) = elim (Bool-cases (str_eq v x)) [
  | inl same ↦ rw same (first, a)
  | inr other ↦ elim (Bool-cases (str_lt v x)) [
    | inl before ↦
        rw (other, before)
          ((before, All-map (λ y l. str_lt_trans v x y before l) xs first), (first, a))
    | inr after ↦
        rw (other, after)
          (
            All-of_In (λ y. str_lt x y ≡ true) (insert_value v xs)
                (λ y m. elim (insert_value-In v y xs m) [
                  | inl e ↦ rw e (behind v x other after)
                  | inr there ↦ All-In (λ y. str_lt x y ≡ true) y xs first there
                ]),
            insert_value-Ascending v xs a,
          )
  ]
]

sorted_set-Ascending : (values : List Str) → Ascending (sorted_set values)
unfolding sorted_set
sorted_set-Ascending [] = tt
sorted_set-Ascending (v ∷ vs) = insert_value-Ascending v (sorted_set vs) (sorted_set-Ascending vs)

sorted_set-In : (y : Str) (values : List Str) → In y (sorted_set values) → In y values
unfolding sorted_set
sorted_set-In y [] m = m
sorted_set-In y (v ∷ vs) m = elim (insert_value-In v y (sorted_set vs) m) [
  | inl e ↦ inl e
  | inr there ↦ inr (sorted_set-In y vs there)
]

In-sorted_set : (y : Str) (values : List Str) → In y values → In y (sorted_set values)
unfolding sorted_set
In-sorted_set y [] m = m
In-sorted_set y (v ∷ vs) (inl e) = rw e (In-insert_value_self v (sorted_set vs))
In-sorted_set y (v ∷ vs) (inr m) = In-insert_value v y (sorted_set vs) (In-sorted_set y vs m)

abbrev pub Within : List Str → List Str → Type 0
Within xs ys = (y : Str) → In y xs → In y ys

-- A member of the tail is behind the head.
tail-Within :
    (x : Str) (xs ys : List Str) → Ascending (x ∷ xs) → Within (x ∷ xs) (x ∷ ys) → Within xs ys
tail-Within x xs ys a within y m = elim (within y (inr m)) [
  | inl e ↦ cc (All-In (λ z. str_lt x z ≡ true) y xs a.0 m, ap (str_lt x) e, str_lt_irrefl x)
  | inr there ↦ there
]

same_head :
    (x y : Str) (xs ys : List Str)
    → Ascending (x ∷ xs)
    → Ascending (y ∷ ys)
    → In x (y ∷ ys)
    → In y (x ∷ xs)
    → x ≡ y
same_head x y xs ys a b (inl e) n = e
same_head x y xs ys a b (inr m) (inl e) = sym e
same_head x y xs ys a b (inr m) (inr n) = cc (
  str_lt_trans x y x (All-In (λ z. str_lt x z ≡ true) y xs a.0 n)
      (All-In (λ z. str_lt y z ≡ true) x ys b.0 m),
  str_lt_irrefl x,
)

Ascending-unique :
    (xs ys : List Str) → Ascending xs → Ascending ys → Within xs ys → Within ys xs → xs ≡ ys
Ascending-unique [] [] a b to from = refl
Ascending-unique [] (y ∷ ys) a b to from = absurd (from y (inl refl))
Ascending-unique (x ∷ xs) [] a b to from = absurd (to x (inl refl))
Ascending-unique (x ∷ xs) (y ∷ ys) a b to from =
    let e : x ≡ y = same_head x y xs ys a b (to x (inl refl)) (from y (inl refl)) in
    let to' : Within (y ∷ xs) (y ∷ ys) = subst (λ z. Within (z ∷ xs) (y ∷ ys)) e to in
    let from' : Within (y ∷ ys) (y ∷ xs) = subst (λ z. Within (y ∷ ys) (z ∷ xs)) e from in
    let a' : Ascending (y ∷ xs) = subst (λ z. Ascending (z ∷ xs)) e a in
    ap (λ z. z ∷ xs) e
    ∙ ap (λ (t : List Str). y ∷ t)
        (Ascending-unique xs ys a.1 b.1 (tail-Within y xs ys a' to') (tail-Within y ys xs b from'))

-- Two lists with the same values have the same text, whatever their order and how often a value
-- stands in them.
pub json_sorted_set_same :
    (dumps : List Str → Str) (xs ys : List Str)
    → Within xs ys
    → Within ys xs
    → json_sorted_set dumps xs ≡ json_sorted_set dumps ys
unfolding json_sorted_set
json_sorted_set_same dumps xs ys to from = ap dumps (
    Ascending-unique (sorted_set xs) (sorted_set ys) (sorted_set-Ascending xs)
      (sorted_set-Ascending ys) (λ y m. In-sorted_set y ys (to y (sorted_set-In y xs m)))
      (λ y m. In-sorted_set y xs (from y (sorted_set-In y ys m))))
