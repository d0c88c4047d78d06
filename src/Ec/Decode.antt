-- ===== src/Ec/Decode.antt =====
-- codec.py: `decode_header`, `_inflate`, `_decode_tag`, `decode_payload`, `decode_packet`.
use emule_indexer.Common
use emule_indexer.Common.{
  ℕ, zero, suc, ◌+◌, ◌-◌, ◌*◌, ◌/◌, ◌%◌, ◌^◌, Bool, true, false, not, ◌||◌, ◌&&◌, Option, none,
  some, List, [], ◌∷◌, ltb, ◌==◌, if◌then◌else◌, length, take as take_front, drop, Result, ok, err,
}
use emule_indexer.Common.Bytes.{Bytes, from_bytes}
use Prim.Native.Nat.{bit_and, bit_or}
use emule_indexer.Ec.Codes.{ec_flag_base, ec_flag_zlib}
use emule_indexer.Ec.Tag.{EcError, ec_protocol_error, EcTag, tag, Tags, nil, cons, EcPacket}
use emule_indexer.Ec.Reader.{
  Reader, Parser, ◌>>=◌, pure, fail, position, take, read_u8, read_u16, read_u32, exhausted,
}

abbrev pub header_size : ℕ
header_size = 8

abbrev pub max_packet_payload : ℕ
max_packet_payload = 16 * 1024 * 1024

abbrev pub max_decompressed : ℕ
max_decompressed = 16 * 1024 * 1024

abbrev pub max_tag_depth : ℕ
max_tag_depth = 32

-- `flags not in _ACCEPTED_FLAGS`, negated
abbrev pub accepted_flags : ℕ → Bool
accepted_flags flags = flags == ec_flag_base || flags == bit_or ec_flag_base ec_flag_zlib

unfoldable pub decode_header : Bytes → Result EcError (ℕ × ℕ)
decode_header header =
    let flags = from_bytes (take_front 4 header) in
    let size = from_bytes (drop 4 header) in
    if not (length header == header_size)
    then err ec_protocol_error
    else if not (accepted_flags flags)
    then err ec_protocol_error
    else if ltb max_packet_payload size
    then err ec_protocol_error
    else ok (flags, size)

-- What zlib's `decompressobj` leaves after one `decompress(data, max_length)`.
pub record Inflated : Type 0 where
  pub output : Bytes
  pub unconsumed_tail : Bytes
  pub eof : Bool

-- zlib is a library: `none` is `zlib.error`.
abbrev pub Decompress : Type 0
Decompress = Bytes → ℕ → Option Inflated

abbrev is_empty : Bytes → Bool
is_empty [] = true
is_empty (b ∷ bs) = false

unfoldable pub inflate : Decompress → Bytes → Result EcError Bytes
inflate decompress deflated = elim (decompress deflated max_decompressed) [
  | none ↦ err ec_protocol_error
  | some z ↦
      if not (is_empty z.unconsumed_tail) || not z.eof then err ec_protocol_error else ok z.output
]

-- `tuple(_decode_tag(reader, …) for _ in range(count))`
unfoldable pub decode_many : Parser EcTag → ℕ → Parser Tags
decode_many one zero = pure nil
decode_many one (suc count) = do t ← one; ts ← decode_many one count; pure (cons t ts)

-- The loop over the children once their TAGCOUNT is read, measured by the cursor.
unfoldable pub decode_counted : Parser EcTag → ℕ → Parser (Tags × ℕ)
decode_counted one count = if count == 0 then fail ec_protocol_error else do
  before ← position
  children ← decode_many one count
  after ← position
  pure (children, after - before)

-- The children and how many bytes they took; bit 0 of the wire name says that there are some.
unfoldable pub decode_children : Parser EcTag → ℕ → Parser (Tags × ℕ)
unfolding decode_counted
decode_children one wire =
    if wire % 2 == 0 then pure (nil, 0) else do count ← read_u16; decode_counted one count

-- The value is what the children leave of TAGLEN.
unfoldable pub decode_value : ℕ → ℕ → ℕ → Tags × ℕ → Parser EcTag
decode_value wire tag_type size (children, children_size) =
    if ltb size children_size
    then fail ec_protocol_error
    else do value ← take (size - children_size); pure (tag (wire / 2) tag_type value children)

-- The first argument is `_MAX_TAG_DEPTH - depth`, so `depth >= _MAX_TAG_DEPTH` is `zero`.
unfoldable pub decode_tag : ℕ → Parser EcTag
unfolding decode_children decode_value
decode_tag zero = fail ec_protocol_error
decode_tag (suc left) = do
  wire ← read_u16
  tag_type ← read_u8
  size ← read_u32
  children ← decode_children (decode_tag left) wire
  decode_value wire tag_type size children

-- The reads of `decode_payload`, before its check that nothing is left.
unfoldable pub parse_packet : Parser EcPacket
parse_packet = do
  opcode ← read_u8
  tag_count ← read_u16
  tags ← decode_many (decode_tag max_tag_depth) tag_count
  pure (record { opcode = opcode; tags = tags })

abbrev pub all_read : EcPacket × Reader → Result EcError EcPacket
all_read (packet, r) = if not (exhausted r) then err ec_protocol_error else ok packet

unfoldable pub decode_body : Bytes → Result EcError EcPacket
decode_body payload = Common.◌>>=◌ (parse_packet (record { bytes = payload; pos = 0 })) all_read

module _ (decompress : Decompress) where
  unfoldable pub decode_payload : ℕ → Bytes → Result EcError EcPacket
  decode_payload flags payload =
      if not (bit_and flags ec_flag_zlib == 0)
      then Common.◌>>=◌ (inflate decompress payload) decode_body
      else decode_body payload

  unfoldable pub decode_packet : Bytes → Result EcError EcPacket
  decode_packet frame = Common.◌>>=◌ (decode_header (take_front header_size frame)) (λ h.
      if not (length frame == header_size + h.1)
      then err ec_protocol_error
      else decode_payload h.0 (drop header_size frame))
