-- ===== src/Settings/Readers.antt =====
-- What the values promise that the readers of fields let through.
use emule_indexer.Common.{
  ℕ, ◌<◌, ◌≡◌, refl, ◌≢◌, Bool, true, false, not, Option, none, some, [], ◌∷◌, ok, ◌>>=◌, ltb,
  arith, Holds, Holds->>=, Holds-after,
}
use emule_indexer.Common.Text.{Str, codes}
use emule_indexer.Common.Dict.{Dict}
use emule_indexer.Settings.Interpolation.{interpolate}
use emule_indexer.Settings.Values.{
  Value, null, boolean, integer, negative, floating, text, sequence, mapping, Fields, Numbers,
  Parsed, required, guard, get, number, positive, non_negative, positive_integer, positive_int,
  port_of, require_port, require_str, not_empty, text_of, optional,
}
use emule_indexer.Settings.Model.{AmuleEndpoint}
use emule_indexer.Settings.Sections.{parse_endpoint}

abbrev pub IsPort : ℕ → Type 0
IsPort n = (0 < n) × (n < 65536)

abbrev pub IsNonempty : Str → Type 0
IsNonempty s = s ≢ []

pub record IsEndpoint (e : AmuleEndpoint) : Type 0 where
  pub name : IsNonempty e.name
  pub host : IsNonempty e.host
  pub port : IsPort e.port
  pub password : IsNonempty e.password

pub guard-Holds : (b : Bool) → Holds (λ done. b ≡ true) (guard b)
guard-Holds true = refl
guard-Holds false = tt

-- A check that raises if the test is true.
pub guard-not :
    {B : Type 0} (P : B → Type 0) (b : Bool) (f : Unit {0} → Parsed B)
    → (b ≡ false → Holds P (f tt))
    → Holds P (guard (not b) >>= f)
guard-not P true f next = tt
guard-not P false f next = next refl

pub not_empty-Holds : (s : Str) → Holds IsNonempty (not_empty s)
not_empty-Holds [] = tt
not_empty-Holds (c ∷ s) = λ e. absurd (cc)

pub positive_integer-Holds :
    {Float : Type 0} (v : Value Float) → Holds (λ n. 0 < n) (positive_integer v)
positive_integer-Holds (integer n) = ground arith
positive_integer-Holds (negative n) = tt
positive_integer-Holds (floating x) = tt
positive_integer-Holds null = tt
positive_integer-Holds (boolean b) = tt
positive_integer-Holds (text s) = tt
positive_integer-Holds (sequence items) = tt
positive_integer-Holds (mapping fields) = tt

pub port_of-Holds : {Float : Type 0} (v : Value Float) → Holds IsPort (port_of v)
port_of-Holds v =
    Holds->>= (λ n. 0 < n) IsPort (positive_integer v) _ (positive_integer-Holds v)
      (λ n positive.
        Holds->>= (λ done. ltb n 65536 ≡ true) IsPort (guard (ltb n 65536)) _
          (guard-Holds (ltb n 65536)) (λ done small. (positive, ground (arith, small))))

module _ {Float : Type 0} where
  pub required-Holds :
      {A : Type 0} (P : A → Type 0) (read : Value Float → Parsed A) (v : Option (Value Float))
      → ((w : Value Float) → Holds P (read w))
      → Holds P (required read v)
  required-Holds P read none h = tt
  required-Holds P read (some v) h = h v

  pub require_port-Holds : (fields : Fields Float) → Holds IsPort (require_port fields)
  unfolding require_port
  require_port-Holds fields =
      required-Holds IsPort port_of (get (codes "port") fields) port_of-Holds

  pub positive_int-Holds :
      (key : Str) (fields : Fields Float) → Holds (λ n. 0 < n) (positive_int key fields)
  unfolding positive_int
  positive_int-Holds key fields =
      required-Holds (λ n. 0 < n) positive_integer (get key fields) positive_integer-Holds

  pub require_str-Holds :
      (env : Dict Str) (key : Str) (fields : Fields Float)
      → Holds IsNonempty (require_str env key fields)
  unfolding require_str
  require_str-Holds env key fields =
      Holds-after IsNonempty (required text_of (get key fields)) _
        (λ value. Holds-after IsNonempty (required ok (interpolate value env)) _ not_empty-Holds)

  pub optional-Holds :
      {A : Type 0} (P : A → Type 0) {default : A} (read : Value Float → Parsed A)
      (v : Option (Value Float))
      → P default
      → ((w : Value Float) → Holds P (read w))
      → Holds P (optional default read v)
  optional-Holds P read none d h = d
  optional-Holds P read (some v) d h = h v

  module _ {B : Type 0} (P : B → Type 0) where
    pub then_text :
        (env : Dict Str) (key : Str) (fields : Fields Float) (f : Str → Parsed B)
        → ((s : Str) → IsNonempty s → Holds P (f s))
        → Holds P (require_str env key fields >>= f)
    then_text env key fields f next =
        Holds->>= IsNonempty P _ f (require_str-Holds env key fields) next

  module _ (numbers : Numbers Float) where
    abbrev pub IsPositive : Float → Type 0
    IsPositive x = numbers.at_most x numbers.zero_value ≡ false

    pub positive-Holds :
        (key : Str) (fields : Fields Float) → Holds IsPositive (positive numbers key fields)
    unfolding positive
    positive-Holds key fields =
        Holds-after IsPositive (number numbers key fields) _
          (λ x. guard-not IsPositive (numbers.at_most x numbers.zero_value) _ (λ more. more))

    pub then_positive :
        {B : Type 0} (P : B → Type 0) (key : Str) (fields : Fields Float) (f : Float → Parsed B)
        → ((x : Float) → IsPositive x → Holds P (f x))
        → Holds P (positive numbers key fields >>= f)
    then_positive P key fields f next = Holds->>= IsPositive P _ f (positive-Holds key fields) next

    pub non_negative-Holds :
        (key : Str) (fields : Fields Float)
        → Holds (λ x. numbers.less x numbers.zero_value ≡ false) (non_negative numbers key fields)
    unfolding non_negative
    non_negative-Holds key fields =
        let P : Float → Type 0 = λ x. numbers.less x numbers.zero_value ≡ false in
        Holds-after P (number numbers key fields) _
          (λ x. guard-not P (numbers.less x numbers.zero_value) _ (λ enough. enough))

  pub parse_endpoint-Holds :
      (env : Dict Str) (fields : Fields Float) → Holds IsEndpoint (parse_endpoint env fields)
  unfolding parse_endpoint
  parse_endpoint-Holds env fields = then_text IsEndpoint env (codes "name") fields _ (λ name n.
      then_text IsEndpoint env (codes "host") fields _ (λ host h.
        Holds->>= IsPort IsEndpoint _ _ (require_port-Holds fields) (λ port p.
          then_text IsEndpoint env (codes "password") fields _
            (λ password w. record { name = n; host = h; port = p; password = w }))))
