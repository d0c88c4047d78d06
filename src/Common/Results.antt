-- ===== src/Common/Results.antt =====
-- Code that raises: a value or an error, and `do` blocks over it.
use mathlib.Core.Logic.{◌⊎◌, inl, inr}
use mathlib.Core.Path.{◌≡◌, refl, ap, subst}

pub data Result {ℓ} (E A : Type ℓ) : Type ℓ where
  ok : A → Result E A
  err : E → Result E A

abbrev pub ◌>>=◌ {ℓ} : {E A B : Type ℓ} → Result E A → (A → Result E B) → Result E B
err e >>= next = err e
ok a >>= next = next a

infixl 5 ◌>>=◌
-- Inversion of a successful bind.
pub >>=-eq-ok {ℓ} :
    {E A B : Type ℓ} (first : Result E A) (next : A → Result E B) {result : B}
    → (first >>= next) ≡ ok result
    → (value : A) × (first ≡ ok value) × (next value ≡ ok result)
>>=-eq-ok (err e) next h = cc
>>=-eq-ok (ok value) next h = (value, refl, h)

pub ok-injective {ℓ} : {E A : Type ℓ} {a b : A} → ◌≡◌ {A = Result E A} (ok a) (ok b) → a ≡ b
ok-injective h = cc

pub ok_pair-injective {ℓ} :
    {E A B : Type ℓ} {a a' : A} {b b' : B}
    → ◌≡◌ {A = Result E (A × B)} (ok (a, b)) (ok (a', b'))
    → (a ≡ a') × (b ≡ b')
ok_pair-injective h = (ap (λ t. t.0) (ok-injective h), ap (λ t. t.1) (ok-injective h))

pub Result-cases {ℓ} :
    {E A : Type ℓ} (r : Result E A) → ((a : A) × (r ≡ ok a)) ⊎ ((e : E) × (r ≡ err e))
Result-cases (ok a) = inl (a, refl)
Result-cases (err e) = inr (e, refl)

-- A bind returns if both of its parts do.
pub >>=-total {ℓ} :
    {E A B : Type ℓ} (m : Result E A) (f : A → Result E B) {a : A}
    → m ≡ ok a
    → (b : B) × (f a ≡ ok b)
    → (b : B) × ((m >>= f) ≡ ok b)
>>=-total m f e (b, h) = (b, rw e h)

-- What holds of the value of a result, if it has one.
abbrev pub Holds {ℓ κ} : {E A : Type ℓ} → (A → Type κ) → Result E A → Type κ
Holds P (err e) = Unit
Holds P (ok a) = P a

pub Holds-ok {ℓ κ} :
    {E A : Type ℓ} (P : A → Type κ) (r : Result E A) {a : A} → Holds P r → r ≡ ok a → P a
Holds-ok P (err e) h same = absurd (cc)
Holds-ok P (ok b) h same = subst P (ok-injective same) h

pub Holds->>= {ℓ κ} :
    {E A B : Type ℓ} (Q : A → Type κ) (P : B → Type κ) (m : Result E A) (f : A → Result E B)
    → Holds Q m
    → ((a : A) → Q a → Holds P (f a))
    → Holds P (m >>= f)
Holds->>= Q P (err e) f h next = tt
Holds->>= Q P (ok a) f h next = next a h

-- A step of whose value nothing is used.
pub Holds-after {ℓ κ} :
    {E A B : Type ℓ} (P : B → Type κ) (m : Result E A) (f : A → Result E B)
    → ((a : A) → Holds P (f a))
    → Holds P (m >>= f)
Holds-after P (err e) f next = tt
Holds-after P (ok a) f next = next a

pub Holds-both {ℓ κ} :
    {E A : Type ℓ} (P Q : A → Type κ) (r : Result E A)
    → Holds P r
    → Holds Q r
    → Holds (λ a. P a × Q a) r
Holds-both P Q (err e) p q = tt
Holds-both P Q (ok a) p q = (p, q)

pub Holds-imp {ℓ κ} :
    {E A : Type ℓ} (P Q : A → Type κ) (r : Result E A)
    → ((a : A) → P a → Q a)
    → Holds P r
    → Holds Q r
Holds-imp P Q (err e) h p = tt
Holds-imp P Q (ok a) h p = h a p
