-- ===== src/Ec/RoundTrip.antt =====
-- Decoding what was encoded.

use emule_indexer.Common.{
  ℕ, zero, suc, ◌+◌, ◌*◌, ◌-◌, ◌/◌, ◌%◌, ◌^◌, ◌<◌, ◌≤◌, ◌≡◌, [], ◌∷◌, ◌++◌, length, length-append,
  append_assoc, ltb, ◌==◌, true, false, ok, >>=-eq-ok, ok-injective, arith, le→ltb_false,
  append-nil,
}
use emule_indexer.Common.Bytes.{Bytes, to_bytes}
use emule_indexer.Ec.Tag.{EcTag, tag, Tags, nil, cons, count_tags, depth, depth_tags}
use emule_indexer.Ec.Encode.{
  encode_tag, encode_tags, int_to_bytes, sum_serialized_len, serialized_len,
}
use emule_indexer.Ec.Reader.{Parser, ◌>>=◌}
use emule_indexer.Ec.Cursor.{cursor, take-cursor, read_int-cursor, read_u8-cursor}
use emule_indexer.Ec.Frame.{frame, Encoded, Encoded-of, length-encode_tags, int_to_bytes-ok}
use emule_indexer.Ec.Decode.{decode_many, decode_children, decode_value, decode_tag}

-- The bytes of the fixed fields of a tag.
abbrev fields : ℕ → ℕ → ℕ → Bytes
fields wire tag_type size = to_bytes 2 wire ++ ((tag_type ∷ []) ++ to_bytes 4 size)

decode_tag-frame :
    (left wire tag_type size : ℕ) (front body : Bytes)
    → wire < 256 ^ 2
    → size < 256 ^ 4
    → decode_tag (suc left) (cursor front (frame wire tag_type size body))
      ≡ (decode_children (decode_tag left) wire >>= decode_value wire tag_type size)
          (cursor (((front ++ to_bytes 2 wire) ++ (tag_type ∷ [])) ++ to_bytes 4 size) body)
unfolding decode_tag
decode_tag-frame left wire tag_type size front body hw hs = rw (
  read_int-cursor 2 wire front ((tag_type ∷ []) ++ (to_bytes 4 size ++ body)) hw,
  read_u8-cursor tag_type (front ++ to_bytes 2 wire) (to_bytes 4 size ++ body),
  read_int-cursor 4 size ((front ++ to_bytes 2 wire) ++ (tag_type ∷ [])) body hs,
)

decode_value-cursor :
    (wire tag_type : ℕ) (children : Tags) (children_size : ℕ) (front value rest : Bytes)
    → decode_value wire tag_type
        (length value + children_size)
        (children, children_size)
        (cursor front (value ++ rest))
      ≡ ok (tag (wire / 2) tag_type value children, cursor (front ++ value) rest)
unfolding decode_value
decode_value-cursor wire tag_type children n front value rest =
    let fits : ltb (length value + n) n ≡ false = le→ltb_false _ _ (omega arith) in
    rw (fits, take-cursor front value rest (length value + n - n) (omega arith))

decode_children-nil :
    (one : Parser EcTag) (name : ℕ) (front rest : Bytes)
    → decode_children one (name * 2) (cursor front rest) ≡ ok ((nil, 0), cursor front rest)
unfolding decode_children
decode_children-nil one name front rest =
    let even : (name * 2 % 2 == 0) ≡ true = ground arith in rw even

decode_children-cons :
    (one : Parser EcTag) (name : ℕ) (t : EcTag) (ts : Tags) (front count inner rest : Bytes)
    → int_to_bytes 2 (count_tags (cons t ts)) ≡ ok count
    → decode_many one (count_tags (cons t ts)) (cursor (front ++ count) (inner ++ rest))
      ≡ ok (cons t ts, cursor ((front ++ count) ++ inner) rest)
    → decode_children one (name * 2 + 1) (cursor front (count ++ (inner ++ rest)))
      ≡ ok ((cons t ts, length inner), cursor ((front ++ count) ++ inner) rest)
unfolding decode_children
decode_children-cons one name t ts front count inner rest hc h =
    let odd : ((name * 2 + 1) % 2 == 0) ≡ false = ground arith in
    let (fits, e) = int_to_bytes-ok 2 (count_tags (cons t ts)) hc in
    let pos : length ((front ++ count) ++ inner) - length (front ++ count) ≡ length inner =
      omega (arith, length-append (front ++ count) inner) in
    let some_tags : (suc (count_tags ts) == 0) ≡ false = ground arith in
    rw (
      odd,
      e,
      read_int-cursor 2 (suc (count_tags ts)) front (inner ++ rest) fits,
      some_tags,
      ← e,
      h,
      pos,
    )

frame-append :
    (wire tag_type size : ℕ) (body rest : Bytes)
    → frame wire tag_type size body ++ rest ≡ frame wire tag_type size (body ++ rest)
frame-append wire tag_type size body rest = simp append_assoc

after-frame :
    (wire tag_type size : ℕ) (front body value : Bytes)
    → ((((front ++ to_bytes 2 wire) ++ (tag_type ∷ [])) ++ to_bytes 4 size) ++ body) ++ value
      ≡ front ++ frame wire tag_type size (body ++ value)
after-frame wire tag_type size front body value = simp append_assoc

-- What has been read of a tag when its body begins.
abbrev before_body : Bytes → ℕ → ℕ → ℕ → Bytes
before_body front wire tag_type size =
    ((front ++ to_bytes 2 wire) ++ (tag_type ∷ [])) ++ to_bytes 4 size

module _ (left wire tag_type : ℕ) (value front rest : Bytes) where
  -- A tag is read if its children are, from where its body begins.
  decode_tag-body :
      (n : ℕ) (body : Bytes) (children : Tags)
      → wire < 256 ^ 2
      → length value + n < 256 ^ 4
      → decode_children
          (decode_tag left)
          wire
          (cursor (before_body front wire tag_type (length value + n)) (body ++ (value ++ rest)))
        ≡ ok (
          (children, n),
          cursor (before_body front wire tag_type (length value + n) ++ body) (value ++ rest),
        )
      → decode_tag
          (suc left)
          (cursor front (frame wire tag_type (length value + n) (body ++ value) ++ rest))
        ≡ ok (
          tag (wire / 2) tag_type value children,
          cursor (front ++ frame wire tag_type (length value + n) (body ++ value)) rest,
        )
  decode_tag-body n body children hw hs h = rw (
    frame-append wire tag_type (length value + n) (body ++ value) rest,
    append_assoc body value rest,
    decode_tag-frame left wire tag_type (length value + n) front (body ++ (value ++ rest)) hw hs,
    h,
    decode_value-cursor wire tag_type children n
        (before_body front wire tag_type (length value + n) ++ body) value rest,
    after-frame wire tag_type (length value + n) front body value,
  )

encode_tags-nil : {bs : Bytes} → encode_tags nil ≡ ok bs → [] ≡ bs
unfolding encode_tag
encode_tags-nil h = ok-injective h

-- The step for a tag, from that for its children.
decode_tag-Encoded :
    (left name tag_type : ℕ) (value : Bytes) (children : Tags) (bs front rest : Bytes)
    (e : Encoded name tag_type value children bs)
    → ((at : Bytes)
        → decode_many
            (decode_tag left)
            (count_tags children)
            (cursor at (e.inner ++ (value ++ rest)))
          ≡ ok (children, cursor (at ++ e.inner) (value ++ rest)))
    → decode_tag (suc left) (cursor front (bs ++ rest))
      ≡ ok (tag name tag_type value children, cursor (front ++ bs) rest)
unfolding serialized_len
decode_tag-Encoded left name tag_type value nil bs front rest e h =
    let half : name * 2 / 2 ≡ name = omega arith in
    let c : [] ≡ e.count_bytes = ok-injective e.counted in
    let i : [] ≡ e.inner = encode_tags-nil e.encoded in
    rw (e.framed, ← c, ← i)
      (rw half at (
        decode_tag-body left (name * 2) tag_type value front rest 0 [] nil e.wire_fits e.size_fits
          (rw append-nil (decode_children-nil (decode_tag left) name _ (value ++ rest)))))
decode_tag-Encoded left name tag_type value (cons t ts) bs front rest e h =
    let half : (name * 2 + 1) / 2 ≡ name = omega arith in
    let counted : length e.inner ≡ sum_serialized_len (cons t ts) =
      length-encode_tags (cons t ts) e.inner e.encoded in
    let at =
      before_body front (name * 2 + 1) tag_type (length value + sum_serialized_len (cons t ts)) in
    let child =
      decode_children-cons (decode_tag left) name t ts at e.count_bytes e.inner (value ++ rest)
        e.counted (h _) in
    rw (e.framed, ← append_assoc e.count_bytes e.inner value)
      (rw half at (
        decode_tag-body left (name * 2 + 1) tag_type value front rest
          (sum_serialized_len (cons t ts)) (e.count_bytes ++ e.inner) (cons t ts) e.wire_fits
          e.size_fits
          (rw
            (
              append_assoc e.count_bytes e.inner (value ++ rest),
              ← append_assoc at e.count_bytes e.inner,
            )
            (rw counted at child))))

mutual
  unfolding encode_tag depth decode_many

  pub decode_tag-encode_tag :
      (t : EcTag) (left : ℕ) (bs front rest : Bytes)
      → depth t ≤ left
      → encode_tag t ≡ ok bs
      → decode_tag left (cursor front (bs ++ rest)) ≡ ok (t, cursor (front ++ bs) rest)
  decode_tag-encode_tag (tag name tag_type value children) zero bs front rest d h =
      absurd (omega arith)
  decode_tag-encode_tag (tag name tag_type value children) (suc left) bs front rest d h =
      let e = Encoded-of name tag_type value children bs h in
      decode_tag-Encoded left name tag_type value children bs front rest e (λ at.
        decode_many-encode_tags children left e.inner at (value ++ rest) (omega arith) e.encoded)

  pub decode_many-encode_tags :
      (ts : Tags) (left : ℕ) (bs front rest : Bytes)
      → depth_tags ts ≤ left
      → encode_tags ts ≡ ok bs
      → decode_many (decode_tag left) (count_tags ts) (cursor front (bs ++ rest))
        ≡ ok (ts, cursor (front ++ bs) rest)
  decode_many-encode_tags nil left bs front rest d h =
      let e : [] ≡ bs = ok-injective h in rw (← e, append-nil)
  decode_many-encode_tags (cons t ts) left bs front rest d h =
      let (a, ea, ha) = >>=-eq-ok (encode_tag t) _ h in
      let (b, eb, hb) = >>=-eq-ok (encode_tags ts) _ ha in
      let e : a ++ b ≡ bs = ok-injective hb in
      rw (
        ← e,
        append_assoc a b rest,
        decode_tag-encode_tag t left a front (b ++ rest) (omega arith) ea,
        decode_many-encode_tags ts left b (front ++ a) rest (omega arith) eb,
        append_assoc front a b,
      )
