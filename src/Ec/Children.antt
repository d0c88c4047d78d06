-- ===== src/Ec/Children.antt =====
-- What a successful reading of a tuple of children says of the bytes.
use emule_indexer.Common.{
  ℕ, zero, suc, ◌+◌, ◌-◌, ◌*◌, ◌/◌, ◌%◌, ◌^◌, ◌<◌, ◌≤◌, ◌≡◌, ◌≢◌, refl, ap, lt→ltb, ==_iff, sym,
  ◌∙◌, [], ◌++◌, length, length-append, ◌==◌, true, false, ok, ok_pair-injective, arith, All,
  Bool-cases, inl, inr,
}
use emule_indexer.Common.Bytes.{Bytes, IsByte, to_bytes}
use emule_indexer.Ec.Tag.{EcTag, Tags, nil, cons, count_tags, depth, depth_tags}
use emule_indexer.Ec.Encode.{encode_tag, encode_tags, int_to_bytes, tagcount_bytes, wire_name}
use emule_indexer.Ec.Reader.{Reader, Parser, read_int, parser_bind-ok}
use emule_indexer.Ec.Cursor.{cursor}
use emule_indexer.Ec.Took.{Took, read_int-ok, Took-append, Took-nil}
use emule_indexer.Ec.Decode.{decode_many, decode_counted, decode_children}

-- What a parser of tags promises.
abbrev pub Sound : ℕ → Parser EcTag → Type 0
Sound left one =
    (front rest : Bytes) (t : EcTag) (r : Reader)
    → All IsByte rest
    → one (cursor front rest) ≡ ok (t, r)
    → (bs : Bytes) × (encode_tag t ≡ ok bs) × (depth t ≤ left) × Took front rest bs r

pub decode_many-ok :
    (left : ℕ) (one : Parser EcTag)
    → Sound left one
    → (count : ℕ) (front rest : Bytes) (ts : Tags) (r : Reader) → All IsByte rest
    → decode_many one count (cursor front rest) ≡ ok (ts, r)
    → (bs : Bytes) × (encode_tags ts ≡ ok bs)
      × (depth_tags ts ≤ left)
      × Took front rest bs r
      × (count_tags ts ≡ count)
unfolding decode_many encode_tag depth
decode_many-ok left one sound zero front rest ts r clean h =
    let (et, er) = ok_pair-injective h in
    rw (← et, ← er) ([], refl, omega arith, Took-nil front rest clean, refl)
decode_many-ok left one sound (suc count) front rest ts r clean h =
    let (t, r', e, h') = parser_bind-ok one _ (cursor front rest) h in
    let (ts', r'', e', h'') = parser_bind-ok (decode_many one count) _ r' h' in
    let (bs, ebs, deep, took) = sound front rest t r' clean e in
    let (bs', ebs', deep', took', counted) =
      decode_many-ok left one sound count (front ++ bs) took.left ts' r'' took.clean
        (rw took.moved at e') in
    let (et, er) = ok_pair-injective h'' in
    rw (← et, ← er) (bs ++ bs', rw (ebs, ebs'), omega arith, Took-append took took', ap suc counted)

-- The children, their bytes with the TAGCOUNT before them, and the bit of the wire name.
pub record Children (left wire : ℕ) (children : Tags) (size : ℕ) (front rest : Bytes) (r : Reader)
    : Type 0 where
  pub count_bytes : Bytes
  pub inner : Bytes
  pub counted : tagcount_bytes children ≡ ok count_bytes
  pub encoded : encode_tags children ≡ ok inner
  pub deep : depth_tags children ≤ left
  pub named : wire_name (wire / 2) children ≡ wire
  pub sized : size ≡ length inner
  pub took : Took front rest (count_bytes ++ inner) r

Children-nil :
    (left wire : ℕ) (front rest : Bytes)
    → (wire % 2 == 0) ≡ true
    → All IsByte rest
    → Children left wire nil 0 front rest (cursor front rest)
unfolding encode_tag depth
Children-nil left wire front rest even clean = record {
  count_bytes = [];
  inner = [];
  counted = refl;
  encoded = refl;
  deep = omega arith;
  named = ground arith;
  sized = refl;
  took = Took-nil front rest clean;
}

tagcount_bytes-cons :
    (count : ℕ) (ts : Tags)
    → count_tags ts ≡ count
    → count ≢ 0
    → count < 256 ^ 2
    → (tagcount_bytes ts ≡ ok (to_bytes 2 count)) × ((w : ℕ) → wire_name w ts ≡ w * 2 + 1)
unfolding int_to_bytes
tagcount_bytes-cons count nil e n f = absurd (n (sym e))
tagcount_bytes-cons count (cons t ts) e n f = (rw (e, lt→ltb _ _ f), λ w. refl)

Children-cons :
    (left wire count : ℕ) (front rest : Bytes) (ts : Tags) (bs : Bytes) (r r' : Reader)
    → (wire % 2 == 0) ≡ false
    → count ≢ 0
    → count < 256 ^ 2
    → (took : Took front rest (to_bytes 2 count) r)
    → Took (front ++ to_bytes 2 count) took.left bs r'
    → count_tags ts ≡ count
    → encode_tags ts ≡ ok bs
    → depth_tags ts ≤ left
    → Children left wire ts (r'.pos - r.pos) front rest r'
Children-cons left wire count front rest ts bs r r' odd some fits took took' counted ebs deep =
    let (tagged, bit) = tagcount_bytes-cons count ts counted some fits in
    let last : wire / 2 * 2 + 1 ≡ wire = ground arith in
    record {
      count_bytes = to_bytes 2 count;
      inner = bs;
      counted = tagged;
      encoded = ebs;
      deep = deep;
      named = bit (wire / 2) ∙ last;
      sized = omega (
        arith,
        ap (λ (x : Reader). x.pos) took.moved,
        ap (λ (x : Reader). x.pos) took'.moved,
        length-append (front ++ to_bytes 2 count) bs,
      );
      took = Took-append took took';
    }

module _ (left : ℕ) (one : Parser EcTag) (sound : Sound left one) where
  decode_counted-ok :
      (wire count : ℕ) (front rest : Bytes) (children : Tags) (size : ℕ) (r r' : Reader)
      → (wire % 2 == 0) ≡ false
      → count < 256 ^ 2
      → Took front rest (to_bytes 2 count) r
      → decode_counted one count r ≡ ok ((children, size), r')
      → Children left wire children size front rest r'
  unfolding decode_counted
  decode_counted-ok wire count front rest children size r r' odd fits took h =
      elim (Bool-cases (count == 0)) [
        | inl none ↦ cc (rw none at h)
        | inr some ↦
            let (ts, r'', e, h') = parser_bind-ok (decode_many one count) _ r (rw some at h) in
            let (bs, ebs, deep, took', counted) =
              decode_many-ok left one sound count (front ++ to_bytes 2 count) took.left ts r''
                took.clean (rw took.moved at e) in
            let (ep, er) = ok_pair-injective h' in
            let c =
              Children-cons left wire count front rest ts bs r r'' odd
                (λ z. cc (some, (==_iff count 0).1 z)) fits took took' counted ebs deep in
            rw (← er, ← ap (λ t. t.0) ep, ← ap (λ t. t.1) ep) c
      ]

  pub decode_children-ok :
      (wire : ℕ) (front rest : Bytes) (children : Tags) (size : ℕ) (r : Reader)
      → All IsByte rest
      → decode_children one wire (cursor front rest) ≡ ok ((children, size), r)
      → Children left wire children size front rest r
  unfolding decode_children
  decode_children-ok wire front rest children size r clean h = elim (Bool-cases (wire % 2 == 0)) [
    | inl even ↦
        let (ep, er) = ok_pair-injective (rw even at h) in
        rw (← er, ← ap (λ t. t.0) ep, ← ap (λ t. t.1) ep)
          (Children-nil left wire front rest even clean)
    | inr odd ↦
        let (count, r', e, h') = parser_bind-ok (read_int 2) _ (cursor front rest) (rw odd at h) in
        let (took, fits) = read_int-ok 2 count front rest r' clean e in
        decode_counted-ok wire count front rest children size r' r odd fits took h'
  ]
