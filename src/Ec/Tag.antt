-- ===== src/Ec/Tag.antt =====
-- codec.py: tags and packets as trees. Error messages are left out: an error is its class.
use emule_indexer.Common.{ℕ, suc, Option, none, some, ◌==◌, if◌then◌else◌}
use emule_indexer.Common.Bytes.{Bytes}
use Prim.Native.Nat.{max}

-- `EcProtocolError`, and the two exceptions by which Python refuses a number that does not fit
-- its bytes: `OverflowError` of `int.to_bytes`, `ValueError` of `bytes([n])`.
pub data EcError : Type 0 where
  ec_protocol_error overflow_error value_error : EcError

mutual
  -- name, tag_type, value, children
  pub data EcTag : Type 0 where
    tag : ℕ → ℕ → Bytes → Tags → EcTag

  -- the tuple of children
  pub data Tags : Type 0 where
    nil : Tags
    cons : EcTag → Tags → Tags

abbrev pub name_of : EcTag → ℕ
name_of (tag name tag_type value children) = name

abbrev pub type_of : EcTag → ℕ
type_of (tag name tag_type value children) = tag_type

abbrev pub value_of : EcTag → Bytes
value_of (tag name tag_type value children) = value

abbrev pub children_of : EcTag → Tags
children_of (tag name tag_type value children) = children

pub record EcPacket : Type 0 where
  pub opcode : ℕ
  pub tags : Tags

abbrev pub count_tags : Tags → ℕ
count_tags nil = 0
count_tags (cons t ts) = suc (count_tags ts)

-- The first tag of that logical name; both `find` methods are this loop.
unfoldable pub find_in : ℕ → Tags → Option EcTag
find_in name nil = none
find_in name (cons t ts) = if name_of t == name then some t else find_in name ts

unfoldable pub find : EcTag → ℕ → Option EcTag
unfolding find_in
find t name = find_in name (children_of t)

unfoldable pub find_packet : EcPacket → ℕ → Option EcTag
unfolding find_in
find_packet p name = find_in name p.tags

-- How deep tags nest: a tag with no children is one level.
unfoldable mutual
  pub depth : EcTag → ℕ
  depth (tag name tag_type value children) = suc (depth_tags children)

  pub depth_tags : Tags → ℕ
  depth_tags nil = 0
  depth_tags (cons t ts) = max (depth t) (depth_tags ts)
