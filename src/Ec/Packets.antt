-- ===== src/Ec/Packets.antt =====
-- Whole packets and frames: decoding what `encode_packet` wrote.
use emule_indexer.Common.{
  ℕ, ◌+◌, ◌^◌, ◌<◌, ◌≤◌, ◌≡◌, ap, sym, ◌∙◌, [], ◌∷◌, ◌++◌, length, length-append, append_assoc,
  ==_refl, ltb, false, ok, >>=-eq-ok, ok-injective, arith, le→ltb_false, append-nil, take-append_at,
  drop-append_at,
}
use emule_indexer.Common.Bytes.{Bytes, to_bytes, length-to_bytes, from_bytes-to_bytes}
use emule_indexer.Ec.Tag.{EcPacket, count_tags, depth_tags}
use emule_indexer.Ec.Encode.{encode_tags, encode_body, encode_packet, int_to_bytes, byte_of}
use emule_indexer.Ec.Cursor.{cursor, read_int-cursor, read_u8-cursor}
use emule_indexer.Ec.Frame.{int_to_bytes-ok, byte_of-ok}
use emule_indexer.Ec.Reader.{exhausted}
use emule_indexer.Ec.Decode.{
  decode_header, parse_packet, decode_body, Decompress, decode_payload, decode_packet,
  max_packet_payload, max_tag_depth, header_size,
}
use emule_indexer.Ec.RoundTrip.{decode_many-encode_tags}

parse_packet-cursor :
    (p : EcPacket) (body : Bytes)
    → count_tags p.tags < 256 ^ 2
    → encode_tags p.tags ≡ ok body
    → depth_tags p.tags ≤ max_tag_depth
    → let payload = (p.opcode ∷ []) ++ (to_bytes 2 (count_tags p.tags) ++ body) in
      parse_packet (cursor [] payload) ≡ ok (p, cursor payload [])
unfolding parse_packet
parse_packet-cursor p body fits h d =
    rw
      (
        ← append-nil body,
        read_u8-cursor p.opcode [] (to_bytes 2 (count_tags p.tags) ++ (body ++ [])),
        read_int-cursor 2 (count_tags p.tags) (p.opcode ∷ []) (body ++ []) fits,
        decode_many-encode_tags p.tags max_tag_depth body
            ((p.opcode ∷ []) ++ to_bytes 2 (count_tags p.tags)) [] d h,
      )
      (simp append-nil)

-- A payload is read to its end.
pub decode_body-encode_body :
    (p : EcPacket) (payload : Bytes)
    → encode_body p ≡ ok payload
    → depth_tags p.tags ≤ max_tag_depth
    → decode_body payload ≡ ok p
unfolding decode_body encode_body exhausted
decode_body-encode_body p payload h d =
    let (a, ea, ha) = >>=-eq-ok (byte_of p.opcode) _ h in
    let (b, eb, hb) = >>=-eq-ok (int_to_bytes 2 (count_tags p.tags)) _ ha in
    let (c, ec, hc) = >>=-eq-ok (encode_tags p.tags) _ hb in
    let e : a ++ (b ++ c) ≡ payload = ok-injective hc in
    let (tf, te) = byte_of-ok p.opcode ea in
    let (cf, ce) = int_to_bytes-ok 2 (count_tags p.tags) eb in
    rw (← e, te, ce, parse_packet-cursor p c cf ec d, append-nil, ==_refl)

decode_header-frame :
    (size : ℕ)
    → size ≤ max_packet_payload
    → decode_header (to_bytes 4 0x20 ++ to_bytes 4 size) ≡ ok (0x20, size)
unfolding decode_header
decode_header-frame size h =
    let sized : length (to_bytes 4 0x20 ++ to_bytes 4 size) ≡ 8 = omega (
      arith,
      length-append (to_bytes 4 0x20) (to_bytes 4 size),
      length-to_bytes 4 0x20,
      length-to_bytes 4 size,
    ) in
    let small : ltb max_packet_payload size ≡ false = le→ltb_false _ _ h in
    rw (
      sized,
      take-append_at 4 (to_bytes 4 0x20) (to_bytes 4 size) (length-to_bytes 4 0x20),
      drop-append_at 4 (to_bytes 4 0x20) (to_bytes 4 size) (length-to_bytes 4 0x20),
      from_bytes-to_bytes 4 size (omega arith),
      from_bytes-to_bytes 4 0x20 (omega arith),
      small,
    )

decode_frame :
    (decompress : Decompress) (p : EcPacket) (payload frame : Bytes)
    → frame ≡ to_bytes 4 0x20 ++ (to_bytes 4 (length payload) ++ payload)
    → length frame ≤ header_size + max_packet_payload
    → decode_body payload ≡ ok p
    → decode_packet decompress frame ≡ ok p
unfolding decode_packet decode_payload
decode_frame decompress p payload frame e fits h =
    let head : Bytes = to_bytes 4 0x20 ++ to_bytes 4 (length payload) in
    let split : frame ≡ head ++ payload = e ∙ sym (append_assoc _ _ payload) in
    let sized : length head ≡ 8 = omega (
      arith,
      length-append (to_bytes 4 0x20) (to_bytes 4 (length payload)),
      length-to_bytes 4 0x20,
      length-to_bytes 4 (length payload),
    ) in
    let whole : length (head ++ payload) ≡ 8 + length payload =
      omega (arith, length-append head payload, sized) in
    let small : length payload ≤ max_packet_payload = omega (arith, ap length split, whole, fits) in
    rw (
      split,
      take-append_at 8 head payload sized,
      drop-append_at 8 head payload sized,
      decode_header-frame (length payload) small,
      whole,
      ==_refl,
      h,
    )

-- A frame that `encode_packet` wrote is decoded to the packet that it was written for, whatever
-- zlib is.
pub decode_packet-encode_packet :
    (decompress : Decompress) (p : EcPacket) (frame : Bytes)
    → encode_packet p ≡ ok frame
    → depth_tags p.tags ≤ max_tag_depth
    → length frame ≤ header_size + max_packet_payload
    → decode_packet decompress frame ≡ ok p
unfolding decode_packet encode_packet decode_payload
decode_packet-encode_packet decompress p frame h d fits =
    let (payload, eb, hb) = >>=-eq-ok (encode_body p) _ h in
    let (flags, ef, hf) = >>=-eq-ok (int_to_bytes 4 0x20) _ hb in
    let (size, es, hs) = >>=-eq-ok (int_to_bytes 4 (length payload)) _ hf in
    let e : flags ++ (size ++ payload) ≡ frame = ok-injective hs in
    let (ff, fe) = int_to_bytes-ok 4 0x20 ef in
    let (sf, se) = int_to_bytes-ok 4 (length payload) es in
    decode_frame decompress p payload frame (sym e ∙ cc (fe, se)) fits
      (decode_body-encode_body p payload eb d)
