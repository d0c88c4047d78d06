-- ===== src/Ec/Cursor.antt =====
-- A reader between what it has read and what is left, and what each read does there.
use emule_indexer.Common.{
  ℕ, ◌+◌, ◌^◌, ◌<◌, ◌≡◌, refl, sym, [], ◌∷◌, ◌++◌, ltb, length, length-append, drop-append,
  take-append, append_assoc, le→ltb_false, ok, arith, false,
}
use emule_indexer.Common.Bytes.{
  Bytes, to_bytes, length-to_bytes, from_bytes-to_bytes, from_bytes-one,
}
use emule_indexer.Ec.Reader.{Reader, take, read_int}

-- `front` has been read, `rest` is left.
abbrev pub cursor : Bytes → Bytes → Reader
cursor front rest = record { bytes = front ++ rest; pos = length front }

-- A read of exactly the bytes in front of the cursor.
pub take-cursor :
    (front chunk rest : Bytes) (n : ℕ)
    → n ≡ length chunk
    → take n (cursor front (chunk ++ rest)) ≡ ok (chunk, cursor (front ++ chunk) rest)
unfolding take
take-cursor front chunk rest n e =
    let fits : ltb (length (front ++ (chunk ++ rest))) (length front + n) ≡ false =
      le→ltb_false _ _
        (omega (arith, length-append front (chunk ++ rest), length-append chunk rest)) in
    rw (
      fits,
      drop-append front (chunk ++ rest),
      e,
      take-append chunk rest,
      append_assoc front chunk rest,
      length-append front chunk,
    )

pub read_int-cursor :
    (w n : ℕ) (front rest : Bytes)
    → n < 256 ^ w
    → read_int w (cursor front (to_bytes w n ++ rest)) ≡ ok (n, cursor (front ++ to_bytes w n) rest)
read_int-cursor w n front rest h =
    rw (
      take-cursor front (to_bytes w n) rest w (sym (length-to_bytes w n)),
      from_bytes-to_bytes w n h,
    )

pub read_u8-cursor :
    (n : ℕ) (front rest : Bytes)
    → read_int 1 (cursor front ((n ∷ []) ++ rest)) ≡ ok (n, cursor (front ++ (n ∷ [])) rest)
read_u8-cursor n front rest = rw (take-cursor front (n ∷ []) rest 1 refl, from_bytes-one n)
