-- ===== src/Ec/Tests.antt =====
-- The EC codec on concrete packets.
use emule_indexer.Common.{◌≡◌, ◌≤◌, ◌++◌, refl, [], ◌∷◌, none, arith, All, length, ok, err}
use emule_indexer.Common.Bytes.{Bytes, IsByte, to_bytes, from_bytes}
use emule_indexer.Ec.Tag.{EcTag, tag, nil, cons, EcPacket, depth_tags, value_of, ec_protocol_error}
use emule_indexer.Ec.Value.{uint_tag, int_value}
use emule_indexer.Ec.Integers.{int_value-uint_tag}
use emule_indexer.Ec.Encode.{
  encode_packet, encode_body, encode_tag, sum_serialized_len, byte_of, int_to_bytes,
}
use emule_indexer.Ec.Reader.{take, exhausted}
use emule_indexer.Ec.Decode.{
  Decompress, decode_packet, decode_body, parse_packet, decode_many, decode_tag, max_tag_depth,
}
use emule_indexer.Ec.Packets.{decode_packet-encode_packet}
use emule_indexer.Ec.Canonical.{encode_body-decode_body}

-- A tag with a number in it and a string below it.
abbrev request : EcPacket
request = record {
  opcode = 0x26;
  tags = cons (tag 0x701 2 (7 ∷ []) (cons (tag 0x702 6 (107 ∷ 0 ∷ []) nil) nil)) nil;
}

abbrev request_body : Bytes
request_body =
    38 ∷ 0 ∷ 1 ∷ 14 ∷ 3 ∷ 2 ∷ 0 ∷ 0 ∷ 0 ∷ 10 ∷ 0 ∷ 1 ∷ 14 ∷ 4 ∷ 6 ∷ 0 ∷ 0 ∷ 0 ∷ 2 ∷ 107 ∷ 0 ∷ 7 ∷ []

abbrev request_frame : Bytes
request_frame = 0 ∷ 0 ∷ 0 ∷ 0x20 ∷ 0 ∷ 0 ∷ 0 ∷ 22 ∷ request_body

encode_body-request : encode_body request ≡ ok request_body
unfolding encode_body encode_tag byte_of int_to_bytes sum_serialized_len to_bytes
encode_body-request = refl

encode_packet-request : encode_packet request ≡ ok request_frame
unfolding encode_packet encode_body encode_tag byte_of int_to_bytes sum_serialized_len to_bytes
encode_packet-request = refl

decode_body-request : decode_body request_body ≡ ok request
unfolding decode_body parse_packet take decode_many from_bytes decode_tag exhausted
decode_body-request = refl

shallow : depth_tags request.tags ≤ max_tag_depth
unfolding depth_tags
shallow = omega arith

-- A zlib that refuses every stream.
abbrev no_zlib : Decompress
no_zlib deflated max_length = none

decode_packet-encode_packet_example : decode_packet no_zlib request_frame ≡ ok request
decode_packet-encode_packet_example =
    decode_packet-encode_packet no_zlib request request_frame encode_packet-request shallow
      (omega arith)

encode_body-decode_body_example :
    (encode_body request ≡ ok request_body) × (depth_tags request.tags ≤ max_tag_depth)
encode_body-decode_body_example =
    encode_body-decode_body request_body request (ground arith) decode_body-request

uint_tag-300 : uint_tag 5 300 nil ≡ ok (tag 5 3 (1 ∷ 44 ∷ []) nil)
unfolding uint_tag to_bytes
uint_tag-300 = refl

int_value-uint_tag_example :
    (int_value (tag 5 3 (1 ∷ 44 ∷ []) nil) ≡ ok 300)
    × ((u : EcTag) → All IsByte (value_of u) → int_value u ≡ ok 300 → 2 ≤ length (value_of u))
int_value-uint_tag_example = int_value-uint_tag 5 300 nil (tag 5 3 (1 ∷ 44 ∷ []) nil) uint_tag-300

-- A payload with a byte too many, a TAGCOUNT of zero, and a TAGLEN below its children's.
trailing_byte : decode_body (request_body ++ (0 ∷ [])) ≡ err ec_protocol_error
unfolding decode_body parse_packet take decode_many from_bytes decode_tag exhausted
trailing_byte = refl

no_children :
    decode_body (38 ∷ 0 ∷ 1 ∷ 14 ∷ 3 ∷ 2 ∷ 0 ∷ 0 ∷ 0 ∷ 0 ∷ 0 ∷ 0 ∷ []) ≡ err ec_protocol_error
unfolding decode_body parse_packet take decode_many from_bytes decode_tag exhausted
no_children = refl

lying_length :
    decode_body (38 ∷ 0 ∷ 1 ∷ 14 ∷ 3 ∷ 2 ∷ 0 ∷ 0 ∷ 0 ∷ 1 ∷ 0 ∷ 1 ∷ 14 ∷ 4 ∷ 6 ∷ 0 ∷ 0 ∷ 0 ∷ 0 ∷ [])
    ≡ err ec_protocol_error
unfolding decode_body parse_packet take decode_many from_bytes decode_tag exhausted
lying_length = refl
