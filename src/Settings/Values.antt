-- ===== src/Settings/Values.antt =====
-- crawler_config.py: what the parsed YAML holds, and the readers of its fields.
use emule_indexer.Common.{
  ℕ, Bool, true, false, not, Option, none, some, [], ◌∷◌, Result, ok, err, ◌>>=◌, ltb,
  if◌then◌else◌,
}
use emule_indexer.Common.Text.{Str, str_eq, codes}
use emule_indexer.Common.Dict.{Dict}
use emule_indexer.Settings.Interpolation.{interpolate}

-- `negative n` is -(n + 1). The keys of a mapping are texts; a date, bytes or a set, which YAML can
-- also give, is left out.
mutual
  pub data Value (Float : Type 0) : Type 0 where
    null : Value Float
    boolean : Bool → Value Float
    integer : ℕ → Value Float
    negative : ℕ → Value Float
    floating : Float → Value Float
    text : Str → Value Float
    sequence : Items Float → Value Float
    mapping : Fields Float → Value Float

  pub data Items (Float : Type 0) : Type 0 where
    nil : Items Float
    cons : Value Float → Items Float → Items Float

  pub data Fields (Float : Type 0) : Type 0 where
    end : Fields Float
    field : Str → Value Float → Fields Float → Fields Float

-- `ConfigError`, the TypeError of a loop over a value that is no collection, and the
-- OverflowError of `float` of an integer that is too large.
pub data ConfigError : Type 0 where
  config_error type_error overflow_error : ConfigError

pub record Numbers (Float : Type 0) : Type 0 where
  -- `float`; `none` is an OverflowError
  pub of_integer : ℕ → Option Float
  pub of_negative : ℕ → Option Float
  pub zero_value : Float
  pub one : Float
  -- `<` and `<=`, which are both false where an operand is not a number
  pub less : Float → Float → Bool
  pub at_most : Float → Float → Bool
  -- the defaults of two timeouts, 5.0 and 180.0
  pub five : Float
  pub hundred_eighty : Float

abbrev pub Parsed : Type 0 → Type 0
Parsed A = Result ConfigError A

-- A required field, read by what takes its value.
abbrev pub required : {A B : Type 0} → (A → Parsed B) → Option A → Parsed B
required read none = err config_error
required read (some v) = read v

-- `if not ...: raise ConfigError`
abbrev pub guard : Bool → Parsed (Unit {0})
guard true = ok tt
guard false = err config_error

abbrev pub not_empty : Str → Parsed Str
not_empty [] = err config_error
not_empty (c ∷ s) = ok (c ∷ s)

abbrev pub float_of : {Float : Type 0} → Option Float → Parsed Float
float_of none = err overflow_error
float_of (some x) = ok x

module _ {Float : Type 0} where
  -- `mapping.get(key)`
  unfoldable pub get : Str → Fields Float → Option (Value Float)
  get key end = none
  get key (field k v fields) = if str_eq k key then some v else get key fields

  -- `_require_mapping`
  abbrev pub require_mapping : Value Float → Parsed (Fields Float)
  require_mapping (mapping fields) = ok fields
  require_mapping null = err config_error
  require_mapping (boolean b) = err config_error
  require_mapping (integer n) = err config_error
  require_mapping (negative n) = err config_error
  require_mapping (floating x) = err config_error
  require_mapping (text s) = err config_error
  require_mapping (sequence items) = err config_error

  module _ (numbers : Numbers Float) where
    abbrev pub number_of : Value Float → Parsed Float
    number_of (integer n) = float_of (numbers.of_integer n)
    number_of (negative n) = float_of (numbers.of_negative n)
    number_of (floating x) = ok x
    number_of null = err config_error
    number_of (boolean b) = err config_error
    number_of (text s) = err config_error
    number_of (sequence items) = err config_error
    number_of (mapping fields) = err config_error

    -- `_number`, `_positive` and `_non_negative`
    unfoldable pub number : Str → Fields Float → Parsed Float
    unfolding get
    number key fields = required number_of (get key fields)

    unfoldable pub positive : Str → Fields Float → Parsed Float
    unfolding number
    positive key fields = do
      x ← number key fields
      _ ← guard (not (numbers.at_most x numbers.zero_value))
      ok x

    unfoldable pub non_negative : Str → Fields Float → Parsed Float
    unfolding number
    non_negative key fields = do
      x ← number key fields
      _ ← guard (not (numbers.less x numbers.zero_value))
      ok x

  abbrev pub positive_integer : Value Float → Parsed ℕ
  positive_integer (integer n) = if ltb 0 n then ok n else err config_error
  positive_integer (negative n) = err config_error
  positive_integer (floating x) = err config_error
  positive_integer null = err config_error
  positive_integer (boolean b) = err config_error
  positive_integer (text s) = err config_error
  positive_integer (sequence items) = err config_error
  positive_integer (mapping fields) = err config_error

  -- `_positive_int`
  unfoldable pub positive_int : Str → Fields Float → Parsed ℕ
  unfolding get
  positive_int key fields = required positive_integer (get key fields)

  abbrev pub boolean_of : Value Float → Parsed Bool
  boolean_of (boolean b) = ok b
  boolean_of null = err config_error
  boolean_of (integer n) = err config_error
  boolean_of (negative n) = err config_error
  boolean_of (floating x) = err config_error
  boolean_of (text s) = err config_error
  boolean_of (sequence items) = err config_error
  boolean_of (mapping fields) = err config_error

  -- `_bool`
  unfoldable pub bool : Str → Fields Float → Parsed Bool
  unfolding get
  bool key fields = required boolean_of (get key fields)

  abbrev pub boolean_or : Bool → Option (Value Float) → Parsed Bool
  boolean_or default none = ok default
  boolean_or default (some v) = boolean_of v

  -- `_bool_default`
  unfoldable pub bool_default : Str → Bool → Fields Float → Parsed Bool
  unfolding get
  bool_default key default fields = boolean_or default (get key fields)

  abbrev pub text_of : Value Float → Parsed Str
  text_of (text s) = ok s
  text_of null = err config_error
  text_of (boolean b) = err config_error
  text_of (integer n) = err config_error
  text_of (negative n) = err config_error
  text_of (floating x) = err config_error
  text_of (sequence items) = err config_error
  text_of (mapping fields) = err config_error

  -- `_require_str`
  unfoldable pub require_str : Dict Str → Str → Fields Float → Parsed Str
  unfolding get interpolate
  require_str env key fields = do
    value ← required text_of (get key fields)
    s ← required ok (interpolate value env)
    not_empty s

  -- `0 < value < 65536`
  abbrev pub port_of : Value Float → Parsed ℕ
  port_of v = do n ← positive_integer v; _ ← guard (ltb n 65536); ok n

  -- `_require_port`
  unfoldable pub require_port : Fields Float → Parsed ℕ
  unfolding get
  require_port fields = required port_of (get (codes "port") fields)

  -- `mapping.get(key, {})`
  abbrev pub or_empty : Option (Value Float) → Value Float
  or_empty none = mapping end
  or_empty (some v) = v

  -- `if key in mapping: ... else: default`
  abbrev pub optional :
      {A : Type 0} → A → (Value Float → Parsed A) → Option (Value Float) → Parsed A
  optional default read none = ok default
  optional default read (some v) = read v
