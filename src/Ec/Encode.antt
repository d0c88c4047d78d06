-- ===== src/Ec/Encode.antt =====
-- codec.py: `_tag_len`, `_serialized_len`, `_encode_tag`, `encode_packet`.
use emule_indexer.Common.{
  ℕ, ◌+◌, ◌*◌, ◌^◌, [], ◌∷◌, ◌++◌, ltb, if◌then◌else◌, length, Result, ok, err, ◌>>=◌,
}
use emule_indexer.Common.Bytes.{Bytes, to_bytes}
use emule_indexer.Ec.Codes.{ec_flag_base}
use emule_indexer.Ec.Tag.{
  EcError, overflow_error, value_error, EcTag, tag, Tags, nil, cons, EcPacket, count_tags,
}

abbrev pub tag_header_size : ℕ
tag_header_size = 7

-- `_TAGCOUNT_SIZE if tag.children else 0`
abbrev pub tagcount_size : Tags → ℕ
tagcount_size nil = 0
tagcount_size (cons t ts) = 2

unfoldable mutual
  pub serialized_len : EcTag → ℕ
  serialized_len (tag name tag_type value children) =
      tag_header_size + tagcount_size children + (length value + sum_serialized_len children)

  pub sum_serialized_len : Tags → ℕ
  sum_serialized_len nil = 0
  sum_serialized_len (cons t ts) = serialized_len t + sum_serialized_len ts

unfoldable pub tag_len : EcTag → ℕ
tag_len (tag name tag_type value children) = length value + sum_serialized_len children

-- `n.to_bytes(w, "big")`
unfoldable pub int_to_bytes : ℕ → ℕ → Result EcError Bytes
int_to_bytes w n = if ltb n (256 ^ w) then ok (to_bytes w n) else err overflow_error

-- `bytes([n])`
unfoldable pub byte_of : ℕ → Result EcError Bytes
byte_of n = if ltb n 256 then ok (n ∷ []) else err value_error

-- `(name << 1) | (1 if children else 0)`; the bit is free, so the `or` is a sum.
abbrev pub wire_name : ℕ → Tags → ℕ
wire_name name nil = name * 2
wire_name name (cons t ts) = name * 2 + 1

-- `len(children).to_bytes(2, "big")`, written only if there are children.
abbrev pub tagcount_bytes : Tags → Result EcError Bytes
tagcount_bytes nil = ok []
tagcount_bytes (cons t ts) = int_to_bytes 2 (count_tags (cons t ts))

unfoldable mutual
  pub encode_tag : EcTag → Result EcError Bytes
  encode_tag (tag name tag_type value children) = do
    name_bytes ← int_to_bytes 2 (wire_name name children)
    type_byte ← byte_of tag_type
    len_bytes ← int_to_bytes 4 (length value + sum_serialized_len children)
    count_bytes ← tagcount_bytes children
    inner ← encode_tags children
    ok (name_bytes ++ (type_byte ++ (len_bytes ++ (count_bytes ++ (inner ++ value)))))

  -- the loop over the children, or over the tags of a packet
  pub encode_tags : Tags → Result EcError Bytes
  encode_tags nil = ok []
  encode_tags (cons t ts) = do front ← encode_tag t; back ← encode_tags ts; ok (front ++ back)

unfoldable pub encode_body : EcPacket → Result EcError Bytes
encode_body p = do
  opcode ← byte_of p.opcode
  count ← int_to_bytes 2 (count_tags p.tags)
  body ← encode_tags p.tags
  ok (opcode ++ (count ++ body))

unfoldable pub encode_packet : EcPacket → Result EcError Bytes
unfolding encode_body
encode_packet p = do
  payload ← encode_body p
  flags ← int_to_bytes 4 ec_flag_base
  size ← int_to_bytes 4 (length payload)
  ok (flags ++ (size ++ payload))
