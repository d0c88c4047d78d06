-- ===== src/Settings/Templates.antt =====
-- interpolation.py: what the text of a template becomes.
use emule_indexer.Common.{
  ℕ, zero, suc, ◌≤◌, ◌≡◌, ◌↔◌, inl, inr, In, some-injective, refl, sym, ap, ◌∙◌, true, false,
  Option, none, some, List, [], ◌∷◌, ◌++◌, length, length-append, ◌==◌, arith, All,
}
use mathlib.Core.Path.{subst}
use emule_indexer.Common.Text.{Str, Free}
use emule_indexer.Common.Dict.{Dict, get}
use emule_indexer.Settings.Interpolation.{
  starts_name, in_name, take_name, reference, before, substituted, interpolate_from, interpolate,
}

-- A template: texts, and names of variables.
pub data Part : Type 0 where
  literal variable : Str → Part

unfoldable pub render : List Part → Str
render [] = []
render (literal s ∷ parts) = s ++ render parts
render (variable name ∷ parts) = b'$' ∷ b'{' ∷ (name ++ (b'}' ∷ render parts))

-- The text that a template stands for, in an environment that has its variables.
pub data Fills (env : Dict Str) : List Part → Str → Type 0 where
  fills_nothing : Fills env [] []
  fills_text :
      (s : Str) (parts : List Part) (text : Str)
      → Fills env parts text
      → Fills env (literal s ∷ parts) (s ++ text)
  fills_variable :
      (name value : Str) (parts : List Part) (text : Str)
      → get name env ≡ some value
      → Fills env parts text
      → Fills env (variable name ∷ parts) (value ++ text)

-- Some variable of the template is not in the environment.
abbrev pub LacksOne : Dict Str → List Part → Type 0
LacksOne env parts = (name : Str) × In (variable name) parts × (get name env ≡ none)

abbrev pub IsName : Str → Type 0
IsName [] = ⊥
IsName (c ∷ name) = (starts_name c ≡ true) × All (λ d. in_name d ≡ true) (c ∷ name)

abbrev pub IsPart : Part → Type 0
IsPart (literal s) = Free b'$' s
IsPart (variable name) = IsName name

-- What a text becomes, on enough fuel.
abbrev Becomes : Dict Str → Str → Option Str → Type 0
Becomes env s result = (fuel : ℕ) → length s ≤ fuel → interpolate_from fuel env s ≡ result

reference-none : (c : ℕ) (s : Str) → (c == b'$') ≡ false → reference (c ∷ s) ≡ none
unfolding reference
reference-none c [] h = refl
reference-none c (b ∷ []) h = refl
reference-none c (b ∷ d ∷ s) h = rw h refl

take_name-append :
    (name rest : Str)
    → All (λ d. in_name d ≡ true) name
    → take_name (name ++ (b'}' ∷ rest)) ≡ (name, b'}' ∷ rest)
unfolding take_name
take_name-append [] rest h = refl
take_name-append (c ∷ name) rest h = rw (take_name-append name rest h.1, h.0) refl

reference-some :
    (name rest : Str)
    → IsName name
    → reference (b'$' ∷ b'{' ∷ (name ++ (b'}' ∷ rest))) ≡ some (name, rest)
unfolding reference
reference-some [] rest h = absurd h
reference-some (c ∷ name) rest h = rw (h.0, take_name-append (c ∷ name) rest h.1) refl

before-before : (c : ℕ) (s : Str) (r : Option Str) → before (c ∷ []) (before s r) ≡ before (c ∷ s) r
before-before c s none = refl
before-before c s (some t) = refl

before_nil : (r : Option Str) → before [] r ≡ r
before_nil none = refl
before_nil (some t) = refl

Becomes-literal :
    (env : Dict Str) (s t : Str) (r : Option Str)
    → Free b'$' s
    → Becomes env t r
    → Becomes env (s ++ t) (before s r)
unfolding interpolate_from
Becomes-literal env [] t r free h fuel enough = h fuel enough ∙ sym (before_nil r)
Becomes-literal env (c ∷ s) t r free h zero enough = absurd (omega (arith, enough))
Becomes-literal env (c ∷ s) t r free h (suc fuel) enough = rw (reference-none c (s ++ t) free.0) (
    ap (before (c ∷ [])) (Becomes-literal env s t r free.1 h fuel (omega (arith, enough)))
    ∙ before-before c s r)

interpolate_from-some :
    (env : Dict Str) (fuel c : ℕ) (s name rest : Str)
    → reference (c ∷ s) ≡ some (name, rest)
    → interpolate_from (suc fuel) env (c ∷ s)
      ≡ substituted (get name env) (interpolate_from fuel env rest)
unfolding interpolate_from
interpolate_from-some env fuel c s name rest e = rw e refl

Becomes-variable :
    (env : Dict Str) (name t : Str) (r : Option Str)
    → IsName name
    → Becomes env t r
    → Becomes env (b'$' ∷ b'{' ∷ (name ++ (b'}' ∷ t))) (substituted (get name env) r)
Becomes-variable env name t r named h zero enough = absurd (omega (arith, enough))
Becomes-variable env name t r named h (suc fuel) enough =
    interpolate_from-some env fuel b'$' (b'{' ∷ (name ++ (b'}' ∷ t))) name t
      (reference-some name t named)
    ∙ ap (substituted (get name env))
        (h fuel (grind (arith, enough, length-append name (b'}' ∷ t))))

empty-Becomes : (env : Dict Str) → Becomes env [] (some [])
unfolding interpolate_from
empty-Becomes env zero enough = refl
empty-Becomes env (suc fuel) enough = refl

-- What a template becomes: a text that it stands for, or nothing where a variable is missing.
abbrev Answers : Dict Str → List Part → Option Str → Type 0
Answers env parts none = LacksOne env parts
Answers env parts (some text) = Fills env parts text

Answers-literal :
    (env : Dict Str) (s : Str) (parts : List Part) (r : Option Str)
    → Answers env parts r
    → Answers env (literal s ∷ parts) (before s r)
Answers-literal env s parts none (name, m, missing) = (name, inr m, missing)
Answers-literal env s parts (some text) f = fills_text s parts text f

Answers-variable :
    (env : Dict Str) (name : Str) (parts : List Part) (value r : Option Str)
    → get name env ≡ value
    → Answers env parts r
    → Answers env (variable name ∷ parts) (substituted value r)
Answers-variable env name parts none r e f = (name, inl refl, e)
Answers-variable env name parts (some value) none e (other, m, missing) = (other, inr m, missing)
Answers-variable env name parts (some value) (some text) e f =
    fills_variable name value parts text e f

render-Becomes :
    (env : Dict Str) (parts : List Part)
    → All IsPart parts
    → (r : Option Str) × Becomes env (render parts) r × Answers env parts r
unfolding render interpolate_from
render-Becomes env [] h = (some [], empty-Becomes env, fills_nothing)
render-Becomes env (literal s ∷ parts) (free, h) =
    let (r, becomes, f) = render-Becomes env parts h in
    (
      before s r,
      Becomes-literal env s (render parts) r free becomes,
      Answers-literal env s parts r f,
    )
render-Becomes env (variable name ∷ parts) (named, h) =
    let (r, becomes, f) = render-Becomes env parts h in
    (
      substituted (get name env) r,
      Becomes-variable env name (render parts) r named becomes,
      Answers-variable env name parts (get name env) r refl f,
    )

-- A template stands for one text, and for none if a variable is missing.
Fills-unique :
    (env : Dict Str) (parts : List Part) (s t : Str) → Fills env parts s → Fills env parts t → s ≡ t
Fills-unique env [] _ _ fills_nothing fills_nothing = refl
Fills-unique env _ _ _ (fills_text s parts t f) (fills_text _ _ t' f') =
    ap (λ x. s ++ x) (Fills-unique env parts t t' f f')
Fills-unique env _ _ _ (fills_variable name v parts t e f) (fills_variable _ v' _ t' e' f') =
    let same : v ≡ v' = some-injective (sym e ∙ e') in
    rw same (ap (λ x. v' ++ x) (Fills-unique env parts t t' f f'))

Fills-complete :
    (env : Dict Str) (parts : List Part) (s : Str) → Fills env parts s → ¬ LacksOne env parts
Fills-complete env _ _ fills_nothing (name, m, missing) = absurd m
Fills-complete env _ _ (fills_text s parts t f) (name, inl same, missing) = cc same
Fills-complete env _ _ (fills_text s parts t f) (name, inr m, missing) =
    Fills-complete env parts t f (name, m, missing)
Fills-complete env _ _ (fills_variable n v parts t e f) (name, inl same, missing) =
    cc (same, e, missing)
Fills-complete env _ _ (fills_variable n v parts t e f) (name, inr m, missing) =
    Fills-complete env parts t f (name, m, missing)

Answers-iff :
    (env : Dict Str) (parts : List Part) (r : Option Str)
    → Answers env parts r
    → ((text : Str) → (r ≡ some text) ↔ Fills env parts text) × ((r ≡ none) ↔ LacksOne env parts)
Answers-iff env parts none lacks = (
  λ text. (λ e. cc e, λ f. absurd (Fills-complete env parts text f lacks)),
  (λ e. lacks, λ l. refl),
)
Answers-iff env parts (some s) f = (
  λ text. (
    λ e. subst (Fills env parts) (some-injective e) f,
    λ f'. ap some (Fills-unique env parts s text f f'),
  ),
  (λ e. cc e, λ l. absurd (Fills-complete env parts s f l)),
)

-- A template whose texts have no `$` becomes exactly the text that it stands for: its texts with the
-- values of its variables between them, and no value is read again; and it is an error exactly if it
-- names a variable that is missing.
pub interpolate-render :
    (env : Dict Str) (parts : List Part)
    → All IsPart parts
    → ((text : Str) → (interpolate (render parts) env ≡ some text) ↔ Fills env parts text)
      × ((interpolate (render parts) env ≡ none) ↔ LacksOne env parts)
unfolding interpolate
interpolate-render env parts h =
    let (r, becomes, f) = render-Becomes env parts h in
    rw (becomes (length (render parts)) (omega arith)) (Answers-iff env parts r f)
