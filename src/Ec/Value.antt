-- ===== src/Ec/Value.antt =====
-- codec.py: the typed views of a tag's value, and the builders of tags.
use emule_indexer.Common.{
  ℕ, ◌^◌, Option, none, some, List, [], ◌∷◌, ltb, ◌==◌, if◌then◌else◌, length, Result, ok, err,
}
use emule_indexer.Common.Bytes.{Bytes, to_bytes, from_bytes}
use emule_indexer.Ec.Codes.{
  ec_tagtype_custom, ec_tagtype_uint8, ec_tagtype_uint16, ec_tagtype_uint32, ec_tagtype_uint64,
  ec_tagtype_hash16,
}
use emule_indexer.Ec.Tag.{EcError, ec_protocol_error, EcTag, tag, Tags, type_of, value_of}

-- `INT_WIDTHS`, in the order in which Python walks the dictionary.
abbrev pub int_widths : List (ℕ × ℕ)
int_widths =
    (ec_tagtype_uint8, 1)
    ∷ (ec_tagtype_uint16, 2)
    ∷ (ec_tagtype_uint32, 4)
    ∷ (ec_tagtype_uint64, 8)
    ∷ []

abbrev pub width_of : ℕ → List (ℕ × ℕ) → Option ℕ
width_of tag_type [] = none
width_of tag_type ((t, w) ∷ rest) = if t == tag_type then some w else width_of tag_type rest

unfoldable pub int_value : EcTag → Result EcError ℕ
int_value t = elim (width_of (type_of t) int_widths) [
  | none ↦ err ec_protocol_error
  | some width ↦
      if length (value_of t) == width then ok (from_bytes (value_of t)) else err ec_protocol_error
]

-- The loop of `uint_tag`: `1 << (8 * width)` is `256 ^ width`.
abbrev pub first_width : ℕ → ℕ → Tags → List (ℕ × ℕ) → Result EcError EcTag
first_width name value children [] = err ec_protocol_error
first_width name value children ((tag_type, width) ∷ rest) =
    if ltb value (256 ^ width)
    then ok (tag name tag_type (to_bytes width value) children)
    else first_width name value children rest

-- Of a value that is not negative: the check before the loop never raises here.
unfoldable pub uint_tag : ℕ → ℕ → Tags → Result EcError EcTag
uint_tag name value children = first_width name value children int_widths

unfoldable pub hash16_tag : ℕ → Bytes → Tags → Result EcError EcTag
hash16_tag name digest children =
    if length digest == 16
    then ok (tag name ec_tagtype_hash16 digest children)
    else err ec_protocol_error

unfoldable pub empty_tag : ℕ → Tags → EcTag
empty_tag name children = tag name ec_tagtype_custom [] children
