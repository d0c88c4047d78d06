-- ===== src/Ec/Frame.antt =====
-- What a successful encoding of a tag looks like, and how long it is.
use emule_indexer.Common.{
  ℕ, ◌+◌, ◌^◌, ◌<◌, ◌≡◌, ok-injective, >>=-eq-ok, [], ◌∷◌, ◌++◌, length, length-append, ok, arith,
}
use emule_indexer.Common.Bytes.{Bytes, to_bytes, length-to_bytes}
use emule_indexer.Ec.Tag.{EcTag, tag, Tags, nil, cons, count_tags}
use emule_indexer.Ec.Encode.{
  encode_tag, encode_tags, int_to_bytes, byte_of, tagcount_bytes, tagcount_size, wire_name,
  serialized_len, sum_serialized_len,
}

-- The fields of the frame of a tag, in wire order.
abbrev pub frame : ℕ → ℕ → ℕ → Bytes → Bytes
frame wire tag_type size body = to_bytes 2 wire ++ ((tag_type ∷ []) ++ (to_bytes 4 size ++ body))

pub record Encoded (name tag_type : ℕ) (value : Bytes) (children : Tags) (bs : Bytes) : Type 0 where
  pub count_bytes : Bytes
  pub inner : Bytes
  pub wire_fits : wire_name name children < 256 ^ 2
  pub type_fits : tag_type < 256
  pub size_fits : length value + sum_serialized_len children < 256 ^ 4
  pub counted : tagcount_bytes children ≡ ok count_bytes
  pub encoded : encode_tags children ≡ ok inner
  pub framed :
      bs
      ≡ frame
          (wire_name name children)
          tag_type
          (length value + sum_serialized_len children)
          (count_bytes ++ (inner ++ value))

pub int_to_bytes-ok :
    (w n : ℕ) {bs : Bytes} → int_to_bytes w n ≡ ok bs → (n < 256 ^ w) × (bs ≡ to_bytes w n)
unfolding int_to_bytes
int_to_bytes-ok w n h = ground arith

pub byte_of-ok : (n : ℕ) {bs : Bytes} → byte_of n ≡ ok bs → (n < 256) × (bs ≡ n ∷ [])
unfolding byte_of
byte_of-ok n h = ground arith

pub Encoded-of :
    (name tag_type : ℕ) (value : Bytes) (children : Tags) (bs : Bytes)
    → encode_tag (tag name tag_type value children) ≡ ok bs
    → Encoded name tag_type value children bs
unfolding encode_tag
Encoded-of name tag_type value children bs h =
    let (a, ea, ha) = >>=-eq-ok (int_to_bytes 2 (wire_name name children)) _ h in
    let (b, eb, hb) = >>=-eq-ok (byte_of tag_type) _ ha in
    let (c, ec, hc) =
      >>=-eq-ok (int_to_bytes 4 (length value + sum_serialized_len children)) _ hb in
    let (d, ed, hd) = >>=-eq-ok (tagcount_bytes children) _ hc in
    let (e, ee, he) = >>=-eq-ok (encode_tags children) _ hd in
    let (wf, wa) = int_to_bytes-ok 2 _ ea in
    let (tf, tb) = byte_of-ok _ eb in
    let (sf, sc) = int_to_bytes-ok 4 _ ec in
    record {
      count_bytes = d;
      inner = e;
      wire_fits = wf;
      type_fits = tf;
      size_fits = sf;
      counted = ed;
      encoded = ee;
      framed = cc;
    }

length-frame :
    (wire tag_type size : ℕ) (body : Bytes)
    → length (frame wire tag_type size body) ≡ 7 + length body
length-frame wire tag_type size body = omega (
  arith,
  length-append (to_bytes 2 wire) ((tag_type ∷ []) ++ (to_bytes 4 size ++ body)),
  length-append (to_bytes 4 size) body,
  length-to_bytes 2 wire,
  length-to_bytes 4 size,
)

-- TAGCOUNT is there exactly for a tag with children.
length-tagcount_bytes :
    (children : Tags) {bs : Bytes}
    → tagcount_bytes children ≡ ok bs
    → length bs ≡ tagcount_size children
length-tagcount_bytes nil h = ground arith
length-tagcount_bytes (cons t ts) h =
    rw ((int_to_bytes-ok 2 (count_tags (cons t ts)) h).1)
      (length-to_bytes 2 (count_tags (cons t ts)))

mutual
  unfolding encode_tag serialized_len

  encode_tag-length : (t : EcTag) (bs : Bytes) → encode_tag t ≡ ok bs → length bs ≡ serialized_len t
  encode_tag-length (tag name tag_type value children) bs h =
      let e = Encoded-of name tag_type value children bs h in
      rw e.framed (
        omega (
          arith,
          length-frame _ tag_type _ (e.count_bytes ++ (e.inner ++ value)),
          length-append e.count_bytes (e.inner ++ value),
          length-append e.inner value,
          length-tagcount_bytes children e.counted,
          encode_tags-length children e.inner e.encoded,
        ))

  encode_tags-length :
      (ts : Tags) (bs : Bytes) → encode_tags ts ≡ ok bs → length bs ≡ sum_serialized_len ts
  encode_tags-length nil bs h = ground arith
  encode_tags-length (cons t ts) bs h =
      let (a, ea, ha) = >>=-eq-ok (encode_tag t) _ h in
      let (b, eb, hb) = >>=-eq-ok (encode_tags ts) _ ha in
      let e : a ++ b ≡ bs = ok-injective hb in
      rw (← e)
        (omega (arith, length-append a b, encode_tag-length t a ea, encode_tags-length ts b eb))

-- The size that a parent counts for a child is the number of bytes that the child is written in.
pub length-encode_tag :
    (t : EcTag) (bs : Bytes) → encode_tag t ≡ ok bs → length bs ≡ serialized_len t
length-encode_tag t bs h = encode_tag-length t bs h

pub length-encode_tags :
    (ts : Tags) (bs : Bytes) → encode_tags ts ≡ ok bs → length bs ≡ sum_serialized_len ts
length-encode_tags ts bs h = encode_tags-length ts bs h
