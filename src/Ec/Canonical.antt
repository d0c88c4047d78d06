-- ===== src/Ec/Canonical.antt =====
-- What a successful decoding says of the bytes: they are the encoding of its result.
use emule_indexer.Common.{
  >>=-eq-ok, ℕ, zero, suc, ◌+◌, ◌-◌, ◌/◌, ◌%◌, ◌^◌, ◌<◌, ◌≤◌, ◌≡◌, refl, ap, lt→ltb, sym, ◌∙◌, [],
  ◌∷◌, ◌++◌, length, length-append, append_assoc, append-nil, ltb, ok, ok_pair-injective, arith,
  All, Bool-cases, inl, inr,
}
use emule_indexer.Common.Bytes.{Bytes, IsByte, to_bytes}
use emule_indexer.Ec.Tag.{EcPacket, EcTag, tag, Tags, count_tags, depth, depth_tags}
use emule_indexer.Ec.Encode.{
  encode_body, encode_tag, encode_tags, int_to_bytes, byte_of, sum_serialized_len,
}
use emule_indexer.Ec.Reader.{exhausted, Reader, take, read_int, parser_bind-ok}
use emule_indexer.Ec.Cursor.{cursor}
use emule_indexer.Ec.Took.{Took, take-ok, read_int-ok, Took-append}
use emule_indexer.Ec.Frame.{length-encode_tags}
use emule_indexer.Ec.Children.{Sound, Children, decode_many-ok, decode_children-ok}
use emule_indexer.Ec.Decode.{
  all_read, parse_packet, decode_body, max_tag_depth, decode_many, decode_children, decode_value,
  decode_tag,
}

decode_value-ok :
    (wire tag_type size : ℕ) (children : Tags) (n : ℕ) (front rest : Bytes) (t : EcTag) (r : Reader)
    → All IsByte rest
    → decode_value wire tag_type size (children, n) (cursor front rest) ≡ ok (t, r)
    → (value : Bytes) × (tag (wire / 2) tag_type value children ≡ t)
      × (length value + n ≡ size)
      × Took front rest value r
unfolding decode_value
decode_value-ok wire tag_type size children n front rest t r clean h =
    elim (Bool-cases (ltb size n)) [
      | inl lying ↦ cc (rw lying at h)
      | inr honest ↦
          let (value, r', e, h') =
            parser_bind-ok (take (size - n)) _ (cursor front rest) (rw honest at h) in
          let (et, er) = ok_pair-injective h' in
          let (took, sized, bytes) = take-ok (size - n) front rest value r clean (rw er at e) in
          let n-le : n ≤ size = ground arith in (value, et, omega arith, took)
    ]

to_bytes-one : (b : ℕ) → b < 256 → to_bytes 1 b ≡ b ∷ []
unfolding to_bytes
to_bytes-one b h = let e : b % 256 ≡ b = omega arith in rw e

-- The fields that a tag was read from are those that it is written in.
encode_tag-Children :
    (left wire tag_type size : ℕ) (value : Bytes) (children : Tags) (n : ℕ) (front rest : Bytes)
    (r : Reader) (c : Children left wire children n front rest r)
    → wire < 256 ^ 2
    → tag_type < 256
    → size < 256 ^ 4
    → length value + n ≡ size
    → encode_tag (tag (wire / 2) tag_type value children)
      ≡ ok (
          to_bytes 2 wire
          ++ (to_bytes 1 tag_type ++ (to_bytes 4 size ++ ((c.count_bytes ++ c.inner) ++ value))))
unfolding encode_tag int_to_bytes byte_of
encode_tag-Children left wire tag_type size value children n front rest r c hw ht hs e =
    let total : length value + sum_serialized_len children ≡ size =
      omega (arith, length-encode_tags children c.inner c.encoded, c.sized) in
    rw (
      c.named,
      total,
      lt→ltb wire 65536 hw,
      lt→ltb tag_type 256 ht,
      lt→ltb size 4294967296 hs,
      c.counted,
      c.encoded,
      to_bytes-one tag_type ht,
      append_assoc c.count_bytes c.inner value,
    )

-- What a parser of tags promises, of one run.
abbrev Written : ℕ → Bytes → Bytes → EcTag → Reader → Type 0
Written left front rest t r =
    (bs : Bytes) × (encode_tag t ≡ ok bs) × (depth t ≤ left) × Took front rest bs r

module _ (left wire tag_type size : ℕ) (children : Tags) (n : ℕ) (value front rest : Bytes)
    (r₁ r₂ r₃ r₄ : Reader) (t : EcTag) (r : Reader) where
  decode_tag-finish :
      (took₁ : Took front rest (to_bytes 2 wire) r₁)
      (took₂ : Took (front ++ to_bytes 2 wire) took₁.left (to_bytes 1 tag_type) r₂)
      (took₃ : Took
        ((front ++ to_bytes 2 wire) ++ to_bytes 1 tag_type)
        took₂.left
        (to_bytes 4 size)
        r₃)
      → wire < 256 ^ 2
      → tag_type < 256
      → size < 256 ^ 4
      → (c : Children left wire children n
          (((front ++ to_bytes 2 wire) ++ to_bytes 1 tag_type) ++ to_bytes 4 size)
          took₃.left
          r₄)
      → tag (wire / 2) tag_type value children ≡ t
      → length value + n ≡ size
      → Took
          ((((front ++ to_bytes 2 wire) ++ to_bytes 1 tag_type) ++ to_bytes 4 size)
            ++ (c.count_bytes ++ c.inner))
          c.took.left
          value
          r
      → Written (suc left) front rest t r
  unfolding depth
  decode_tag-finish took₁ took₂ took₃ f₁ f₂ f₃ c et sized took₅ = (
    to_bytes 2 wire
        ++ (to_bytes 1 tag_type ++ (to_bytes 4 size ++ ((c.count_bytes ++ c.inner) ++ value))),
    rw (← et)
        (encode_tag-Children left wire tag_type size value children n _ _ r₄ c f₁ f₂ f₃ sized),
    rw (← et) (omega (arith, c.deep)),
    Took-append took₁ (Took-append took₂ (Took-append took₃ (Took-append c.took took₅))),
  )

-- A tag that was decoded is the one that its bytes encode, and nests no deeper than was allowed.
pub decode_tag-ok : (left : ℕ) → Sound left (decode_tag left)
unfolding decode_tag
decode_tag-ok zero front rest t r clean h = cc
decode_tag-ok (suc left) front rest t r clean h =
    let (wire, r₁, e₁, h₁) = parser_bind-ok (read_int 2) _ (cursor front rest) h in
    let (took₁, f₁) = read_int-ok 2 wire front rest r₁ clean e₁ in
    let (tag_type, r₂, e₂, h₂) = parser_bind-ok (read_int 1) _ r₁ h₁ in
    let (took₂, f₂) = read_int-ok 1 tag_type _ took₁.left r₂ took₁.clean (rw took₁.moved at e₂) in
    let (size, r₃, e₃, h₃) = parser_bind-ok (read_int 4) _ r₂ h₂ in
    let (took₃, f₃) = read_int-ok 4 size _ took₂.left r₃ took₂.clean (rw took₂.moved at e₃) in
    let ((children, n), r₄, e₄, h₄) =
      parser_bind-ok (decode_children (decode_tag left) wire) _ r₃ h₃ in
    let c =
      decode_children-ok left (decode_tag left) (decode_tag-ok left) wire _ took₃.left children n r₄
        took₃.clean (rw took₃.moved at e₄) in
    let (value, et, sized, took₅) =
      decode_value-ok wire tag_type size children n _ c.took.left t r c.took.clean
        (rw c.took.moved at h₄) in
    decode_tag-finish left wire tag_type size children n value front rest r₁ r₂ r₃ r₄ t r took₁
      took₂ took₃ f₁ f₂ f₃ c et sized took₅

-- The same for a packet.
abbrev PacketWritten : Bytes → EcPacket → Reader → Type 0
PacketWritten payload p r =
    (bs : Bytes) × (encode_body p ≡ ok bs)
    × (depth_tags p.tags ≤ max_tag_depth)
    × Took [] payload bs r

parse_packet-finish :
    (opcode count : ℕ) (ts : Tags) (bs payload : Bytes) (r₁ r₂ : Reader) (p : EcPacket) (r : Reader)
    (took₁ : Took [] payload (to_bytes 1 opcode) r₁)
    (took₂ : Took ([] ++ to_bytes 1 opcode) took₁.left (to_bytes 2 count) r₂)
    → opcode < 256
    → count < 256 ^ 2
    → encode_tags ts ≡ ok bs
    → depth_tags ts ≤ max_tag_depth
    → Took (([] ++ to_bytes 1 opcode) ++ to_bytes 2 count) took₂.left bs r
    → count_tags ts ≡ count
    → record { opcode = opcode; tags = ts } ≡ p
    → PacketWritten payload p r
unfolding encode_body int_to_bytes byte_of
parse_packet-finish opcode count ts bs payload r₁ r₂ p r took₁ took₂ f₁ f₂ ebs deep took₃ counted
      ep =
    (
      to_bytes 1 opcode ++ (to_bytes 2 count ++ bs),
      rw (← ep)
          (rw (lt→ltb opcode 256 f₁, counted, lt→ltb count 65536 f₂, ebs, to_bytes-one opcode f₁)),
      rw (← ep) deep,
      Took-append took₁ (Took-append took₂ took₃),
    )

parse_packet-ok :
    (payload : Bytes) (p : EcPacket) (r : Reader)
    → All IsByte payload
    → parse_packet (cursor [] payload) ≡ ok (p, r)
    → PacketWritten payload p r
unfolding parse_packet
parse_packet-ok payload p r clean h =
    let (opcode, r₁, e₁, h₁) = parser_bind-ok (read_int 1) _ (cursor [] payload) h in
    let (took₁, f₁) = read_int-ok 1 opcode [] payload r₁ clean e₁ in
    let (count, r₂, e₂, h₂) = parser_bind-ok (read_int 2) _ r₁ h₁ in
    let (took₂, f₂) = read_int-ok 2 count _ took₁.left r₂ took₁.clean (rw took₁.moved at e₂) in
    let (ts, r₃, e₃, h₃) = parser_bind-ok (decode_many (decode_tag max_tag_depth) count) _ r₂ h₂ in
    let (ep, er) = ok_pair-injective h₃ in
    let (bs, ebs, deep, took₃, counted) =
      decode_many-ok max_tag_depth (decode_tag max_tag_depth) (decode_tag-ok max_tag_depth) count _
        took₂.left ts r took₂.clean (rw (took₂.moved, er) at e₃) in
    parse_packet-finish opcode count ts bs payload r₁ r₂ p r took₁ took₂ f₁ f₂ ebs deep took₃
      counted ep

length-zero : (xs : Bytes) → length xs ≡ 0 → xs ≡ []
length-zero [] h = refl
length-zero (x ∷ xs) h = absurd (omega arith)

all_read-exhausted :
    (p' : EcPacket) (r : Reader) (p : EcPacket)
    → all_read (p', r) ≡ ok p
    → (r.pos ≡ length r.bytes) × (p' ≡ p)
unfolding exhausted
all_read-exhausted p' r p h = ground arith

all_read-ok :
    (payload : Bytes) (p' : EcPacket) (r : Reader) (p : EcPacket)
    → PacketWritten payload p' r
    → all_read (p', r) ≡ ok p
    → (encode_body p ≡ ok payload) × (depth_tags p.tags ≤ max_tag_depth)
all_read-ok payload p' r p (bs, ebs, deep, took) h =
    let (at_end, ep) = all_read-exhausted p' r p h in
    let nothing : took.left ≡ [] = length-zero took.left (
      omega (
        arith,
        ap (λ (x : Reader). x.pos) took.moved,
        ap (λ (x : Reader). length x.bytes) took.moved,
        length-append bs took.left,
      )) in
    let same : bs ≡ payload = sym (took.split ∙ ap (λ x. bs ++ x) nothing ∙ append-nil bs) in
    rw (← ep, ← same) (ebs, deep)

-- A payload that decodes is the encoding of its packet, which nests at most 32 levels: no two
-- payloads decode to one packet, and no byte of a payload is left out of it.
pub encode_body-decode_body :
    (payload : Bytes) (p : EcPacket)
    → All IsByte payload
    → decode_body payload ≡ ok p
    → (encode_body p ≡ ok payload) × (depth_tags p.tags ≤ max_tag_depth)
unfolding decode_body
encode_body-decode_body payload p clean h =
    let ((p', r), e, h') = >>=-eq-ok (parse_packet (cursor [] payload)) _ h in
    all_read-ok payload p' r p (parse_packet-ok payload p' r clean e) h'
