-- ===== src/Common/Text.antt =====
-- Python's `str` as the list of its code points.
use Prim.Native.Nat.{ℕ, zero, suc, ◌+◌, ◌-◌, ◌/◌, ◌%◌, ◌≤◌, ◌<◌}
use Prim.Native.Char.{code}
use Prim.Native.String.{String}
use mathlib.Core.List.{List, [], ◌∷◌, ◌++◌}
use mathlib.Core.Path.{◌≡◌, refl}
use mathlib.Core.Logic.{◌↔◌, inl, inr}
use mathlib.Core.Bool.{Bool, true, false, ◌&&◌, ◌||◌}
use native.Mathlib.Omega.{arith}
use emule_indexer.Common.Tests.{◌==◌, ==_iff, ==_refl, ltb, if◌then◌else◌, Bool-cases}
use emule_indexer.Common.Lists.{length, All, All-append}

abbrev pub Str : Type 0
Str = List ℕ

-- A literal of the source as its code points.
abbrev pub codes : String → Str
codes String.[] = []
codes (String.◌∷◌ c s) = code c ∷ codes s

abbrev pub list_eq {ℓ} : {A : Type ℓ} → (A → A → Bool) → List A → List A → Bool
list_eq eq [] [] = true
list_eq eq [] (y ∷ ys) = false
list_eq eq (x ∷ xs) [] = false
list_eq eq (x ∷ xs) (y ∷ ys) = eq x y && list_eq eq xs ys

pub list_eq_iff {ℓ} :
    {A : Type ℓ} (eq : A → A → Bool)
    → ((a b : A) → (eq a b ≡ true) ↔ (a ≡ b))
    → (xs ys : List A) → (list_eq eq xs ys ≡ true) ↔ (xs ≡ ys)
list_eq_iff eq h [] [] = (λ _. refl, λ _. refl)
list_eq_iff eq h [] (y ∷ ys) = (λ e. cc, λ e. cc)
list_eq_iff eq h (x ∷ xs) [] = (λ e. cc, λ e. cc)
list_eq_iff eq h (x ∷ xs) (y ∷ ys) = ground (arith, h x y, list_eq_iff eq h xs ys)

unfoldable pub str_eq : Str → Str → Bool
str_eq = list_eq ◌==◌

pub str_eq_iff : (s t : Str) → (str_eq s t ≡ true) ↔ (s ≡ t)
unfolding str_eq
str_eq_iff = list_eq_iff ◌==◌ ==_iff

pub str_eq_refl : (s : Str) → str_eq s s ≡ true
str_eq_refl s = (str_eq_iff s s).1 refl

-- Python's `<` on strings: by code points, a proper prefix first.
unfoldable pub str_lt : Str → Str → Bool
str_lt s [] = false
str_lt [] (c ∷ t) = true
str_lt (b ∷ s) (c ∷ t) = ltb b c || ((b == c) && str_lt s t)

pub str_lt_irrefl : (s : Str) → str_lt s s ≡ false
unfolding str_lt
str_lt_irrefl [] = refl
str_lt_irrefl (c ∷ s) = ground (arith, str_lt_irrefl s)

pub str_lt_trans : (r s t : Str) → str_lt r s ≡ true → str_lt s t ≡ true → str_lt r t ≡ true
unfolding str_lt
str_lt_trans [] [] [] h k = cc
str_lt_trans [] (b ∷ s) [] h k = cc
str_lt_trans [] s (c ∷ t) h k = refl
str_lt_trans (a ∷ r) [] t h k = cc
str_lt_trans (a ∷ r) (b ∷ s) [] h k = cc
str_lt_trans (a ∷ r) (b ∷ s) (c ∷ t) h k = ground (arith, str_lt_trans r s t)

pub str_lt_antisym : (s t : Str) → str_lt s t ≡ false → str_lt t s ≡ false → s ≡ t
unfolding str_lt
str_lt_antisym [] [] h k = refl
str_lt_antisym [] (c ∷ t) h k = cc
str_lt_antisym (b ∷ s) [] h k = cc
str_lt_antisym (b ∷ s) (c ∷ t) h k = ground (arith, str_lt_antisym s t)

-- `str(n)`; `suc n` rounds are enough, since each divides by ten.
decimal_fuel : ℕ → ℕ → Str
decimal_fuel zero n = []
decimal_fuel (suc fuel) n =
    let front = decimal_fuel fuel (n / 10) in
    if ltb n 10 then (48 + n) ∷ [] else front ++ ((48 + n % 10) ∷ [])

unfoldable pub decimal : ℕ → Str
unfolding decimal_fuel
decimal n = decimal_fuel (suc n) n

abbrev pub zeros : ℕ → Str
zeros zero = []
zeros (suc n) = 48 ∷ zeros n

-- `format(n, "0wd")`
unfoldable pub decimal_padded : ℕ → ℕ → Str
unfolding decimal
decimal_padded w n = zeros (w - length (decimal n)) ++ decimal n

-- Python's `s.split(sep)` for one character `sep`.
abbrev pub extend : ℕ → List Str → List Str
extend c [] = (c ∷ []) ∷ []
extend c (w ∷ ws) = (c ∷ w) ∷ ws

unfoldable pub split_on : ℕ → Str → List Str
split_on sep [] = [] ∷ []
split_on sep (c ∷ s) = let rest = split_on sep s in if c == sep then [] ∷ rest else extend c rest

-- No character of the text is `sep`.
abbrev pub Free : ℕ → Str → Type 0
Free sep s = All (λ c. (c == sep) ≡ false) s

pub split_on-append :
    (sep : ℕ) (s t : Str) → Free sep s → split_on sep (s ++ (sep ∷ t)) ≡ s ∷ split_on sep t
unfolding split_on
split_on-append sep [] t h = rw ==_refl
split_on-append sep (c ∷ s) t h = rw (h.0, split_on-append sep s t h.1)

pub split_on-whole : (sep : ℕ) (s : Str) → Free sep s → split_on sep s ≡ s ∷ []
unfolding split_on
split_on-whole sep [] h = refl
split_on-whole sep (c ∷ s) h = rw (h.0, split_on-whole sep s h.1)

extend-Free :
    (sep c : ℕ) (ws : List Str)
    → (c == sep) ≡ false
    → All (Free sep) ws
    → All (Free sep) (extend c ws)
extend-Free sep c [] e h = ((e, tt), tt)
extend-Free sep c (w ∷ ws) e h = ((e, h.0), h.1)

-- The pieces hold no separator.
pub split_on-Free : (sep : ℕ) (s : Str) → All (Free sep) (split_on sep s)
unfolding split_on
split_on-Free sep [] = (tt, tt)
split_on-Free sep (c ∷ s) = elim (Bool-cases (c == sep)) [
  | inl same ↦ rw same (tt, split_on-Free sep s)
  | inr other ↦ rw other (extend-Free sep c (split_on sep s) other (split_on-Free sep s))
]

abbrev pub IsDigit : ℕ → Type 0
IsDigit c = (48 ≤ c) × (c < 58)

decimal_fuel-IsDigit : (fuel n : ℕ) → All IsDigit (decimal_fuel fuel n)
unfolding decimal_fuel
decimal_fuel-IsDigit zero n = tt
decimal_fuel-IsDigit (suc fuel) n = elim (Bool-cases (ltb n 10)) [
  | inl small ↦ rw small (ground arith, tt)
  | inr large ↦ rw large (
      All-append IsDigit (decimal_fuel fuel (n / 10)) ((48 + n % 10) ∷ [])
        (decimal_fuel-IsDigit fuel (n / 10)) (omega arith, tt))
]

pub decimal-IsDigit : (n : ℕ) → All IsDigit (decimal n)
unfolding decimal
decimal-IsDigit n = decimal_fuel-IsDigit (suc n) n
