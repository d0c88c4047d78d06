-- ===== src/Ec/Took.antt =====
-- What a successful read says of the bytes: which were taken, and what number they spell.
use emule_indexer.Common.{
  ℕ, zero, suc, ◌+◌, ◌^◌, ◌<◌, ◌≤◌, ◌≡◌, refl, ap, sym, ◌∙◌, [], ◌∷◌, ◌++◌, length, length-append,
  append_assoc, append-nil, ok, ok_pair-injective, arith, take as take_front, drop,
  take-append-drop, drop-append, length-take, All,
}
use emule_indexer.Common.Bytes.{
  Bytes, IsByte, to_bytes, from_bytes, to_bytes-from_bytes, from_bytes-lt,
}
use emule_indexer.Ec.Reader.{Reader, take, read_int, parser_bind-ok}
use emule_indexer.Ec.Cursor.{cursor}

-- A read from `cursor front rest` to `r` that consumed `chunk`.
pub record Took (front rest chunk : Bytes) (r : Reader) : Type 0 where
  pub left : Bytes
  pub split : rest ≡ chunk ++ left
  pub moved : r ≡ cursor (front ++ chunk) left
  pub clean : All IsByte left

All-drop : (n : ℕ) (xs : Bytes) → All IsByte xs → All IsByte (drop n xs)
All-drop zero xs h = h
All-drop (suc n) [] h = tt
All-drop (suc n) (x ∷ xs) (hx, hxs) = All-drop n xs hxs

All-take : (n : ℕ) (xs : Bytes) → All IsByte xs → All IsByte (take_front n xs)
All-take zero xs h = tt
All-take (suc n) [] h = tt
All-take (suc n) (x ∷ xs) (hx, hxs) = (hx, All-take n xs hxs)

take-fits :
    (n : ℕ) (front rest chunk : Bytes) (r : Reader)
    → take n (cursor front rest) ≡ ok (chunk, r)
    → (n ≤ length rest)
      × (chunk ≡ take_front n rest)
      × (r ≡ record { bytes = front ++ rest; pos = length front + n })
unfolding take
take-fits n front rest chunk r h = ground (arith, drop-append front rest, length-append front rest)

pub take-ok :
    (n : ℕ) (front rest chunk : Bytes) (r : Reader)
    → All IsByte rest
    → take n (cursor front rest) ≡ ok (chunk, r)
    → Took front rest chunk r × (length chunk ≡ n) × All IsByte chunk
take-ok n front rest chunk r clean h =
    let (fits, ec, er) = take-fits n front rest chunk r h in
    let sized : length (take_front n rest) ≡ n = omega (arith, length-take n rest) in
    let whole : rest ≡ take_front n rest ++ drop n rest = sym (take-append-drop n rest) in
    let past : length (front ++ take_front n rest) ≡ length front + n =
      omega (arith, length-append front (take_front n rest)) in
    (
      record {
        left = drop n rest;
        split = rw ec whole;
        moved = rw (ec, er, past, append_assoc, ← whole);
        clean = All-drop n rest clean;
      },
      rw ec sized,
      rw ec (All-take n rest clean),
    )

read_int-take :
    (w n : ℕ) (front rest chunk : Bytes) (r : Reader)
    → All IsByte rest
    → take w (cursor front rest) ≡ ok (chunk, r)
    → from_bytes chunk ≡ n
    → Took front rest (to_bytes w n) r × (n < 256 ^ w)
read_int-take w n front rest chunk r clean h en =
    let (took, sized, bytes) = take-ok w front rest chunk r clean h in
    let same : to_bytes w n ≡ chunk = rw (← en, ← sized) (to_bytes-from_bytes chunk bytes) in
    (rw same took, rw (← en, ← sized) (from_bytes-lt chunk bytes))

-- A number that was read is written in the same bytes.
pub read_int-ok :
    (w n : ℕ) (front rest : Bytes) (r : Reader)
    → All IsByte rest
    → read_int w (cursor front rest) ≡ ok (n, r)
    → Took front rest (to_bytes w n) r × (n < 256 ^ w)
read_int-ok w n front rest r clean h =
    let (chunk, r', et, eh) = parser_bind-ok (take w) _ (cursor front rest) h in
    let (en, er) = ok_pair-injective eh in
    read_int-take w n front rest chunk r clean (rw er at et) en

-- Two reads in a row.
pub Took-append :
    {front rest a b : Bytes} {r r' : Reader} (t : Took front rest a r)
    → Took (front ++ a) t.left b r'
    → Took front rest (a ++ b) r'
Took-append {front} {a = a} {b = b} t u = record {
  left = u.left;
  split = t.split ∙ ap (λ x. a ++ x) u.split ∙ sym (append_assoc a b u.left);
  moved = u.moved ∙ ap (λ x. cursor x u.left) (append_assoc front a b);
  clean = u.clean;
}

pub Took-nil : (front rest : Bytes) → All IsByte rest → Took front rest [] (cursor front rest)
Took-nil front rest clean = record {
  left = rest;
  split = refl;
  moved = rw append-nil;
  clean = clean;
}
