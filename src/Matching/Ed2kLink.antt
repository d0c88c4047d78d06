-- ===== src/Matching/Ed2kLink.antt =====
-- ed2k_link.py: the link of a file. `urllib.parse.quote` is written out, with the UnicodeEncodeError
-- that it raises for a surrogate.
use emule_indexer.Common.{
  ℕ, ◌+◌, ◌/◌, ◌%◌, ◌<◌, ◌≤◌, ◌≡◌, ◌↔◌, ◌⊎◌, Bool, false, Option, none, some, some-injective, In,
  sym, refl, ◌&&◌, ◌||◌, List, [], ◌∷◌, ◌++◌, any, leb, ltb, ◌==◌, if◌then◌else◌, All, All-map,
  All-append, arith, Bool-cases, inl, inr, ap, ◌∙◌,
}
use emule_indexer.Common.Text.{
  Str, codes, decimal, split_on, Free, split_on-append, split_on-whole, decimal-IsDigit,
}

-- `_SAFE_NAME_CHARS`
abbrev pub safe_name_chars : Str
safe_name_chars = codes ".()[]-_"

-- `chr(c).encode("utf-8")`
unfoldable pub utf8 : ℕ → Str
utf8 c =
    if ltb c 0x80
    then c ∷ []
    else if ltb c 0x800
    then (0xc0 + c / 64) ∷ (0x80 + c % 64) ∷ []
    else if ltb c 0x10000
    then (0xe0 + c / 4096) ∷ (0x80 + c / 64 % 64) ∷ (0x80 + c % 64) ∷ []
    else (0xf0 + c / 262144) ∷ (0x80 + c / 4096 % 64) ∷ (0x80 + c / 64 % 64) ∷ (0x80 + c % 64) ∷ []

abbrev hex_digit : ℕ → ℕ
hex_digit d = if ltb d 10 then 48 + d else 55 + d

-- Letters, digits and `_.-~` are never quoted, and here the safe characters are not.
unfoldable pub unquoted : ℕ → Bool
unquoted b =
    (leb 0x61 b && leb b 0x7a)
    || ((leb 0x41 b && leb b 0x5a)
        || ((leb 0x30 b && leb b 0x39)
            || (any (λ c. b == c) (codes "_.-~") || any (λ c. b == c) safe_name_chars)))

unfoldable pub quote_byte : ℕ → Str
unfolding unquoted
quote_byte b = if unquoted b then b ∷ [] else 0x25 ∷ hex_digit (b / 16) ∷ hex_digit (b % 16) ∷ []

unfoldable pub quote_bytes : Str → Str
unfolding quote_byte
quote_bytes [] = []
quote_bytes (b ∷ bs) = quote_byte b ++ quote_bytes bs

-- The code points that UTF-8 does not encode.
abbrev pub is_surrogate : ℕ → Bool
is_surrogate c = leb 0xd800 c && leb c 0xdfff

abbrev pub put_before : Str → Option Str → Option Str
put_before s none = none
put_before s (some rest) = some (s ++ rest)

-- `quote(filename, safe=_SAFE_NAME_CHARS)`; `none` is a UnicodeEncodeError.
unfoldable pub quote : Str → Option Str
unfolding quote_bytes utf8
quote [] = some []
quote (c ∷ s) =
    let rest = quote s in if is_surrogate c then none else put_before (quote_bytes (utf8 c)) rest

abbrev pub link_of : ℕ → Str → Option Str → Option Str
link_of size_bytes ed2k_hash none = none
link_of size_bytes ed2k_hash (some safe_name) = some (
    codes "ed2k://"
    ++ (0x7c
        ∷ (codes "file"
            ++ (0x7c
                ∷ (safe_name
                    ++ (0x7c
                        ∷ (decimal size_bytes ++ (0x7c ∷ (ed2k_hash ++ (0x7c ∷ codes "/"))))))))))

unfoldable pub build_ed2k_link : Str → ℕ → Str → Option Str
unfolding quote
build_ed2k_link filename size_bytes ed2k_hash = link_of size_bytes ed2k_hash (quote filename)

abbrev IsByte : ℕ → Type 0
IsByte b = b < 256

utf8-IsByte : (c : ℕ) → c < 0x110000 → All IsByte (utf8 c)
unfolding utf8
utf8-IsByte c h = elim (Bool-cases (ltb c 0x80)) [
  | inl one ↦ rw one (ground arith, tt)
  | inr more ↦ elim (Bool-cases (ltb c 0x800)) [
    | inl two ↦ rw (more, two) (ground arith, (ground arith, tt))
    | inr longer ↦ elim (Bool-cases (ltb c 0x10000)) [
      | inl three ↦ rw (more, longer, three) (ground arith, (omega arith, (omega arith, tt)))
      | inr four ↦
          rw (more, longer, four) (omega arith, (omega arith, (omega arith, (omega arith, tt))))
    ]
  ]
]

quote_byte-Free : (b : ℕ) → IsByte b → Free 0x7c (quote_byte b)
unfolding quote_byte unquoted
quote_byte-Free b h = elim (Bool-cases (unquoted b)) [
  | inl safe ↦ rw safe (ground arith, tt)
  | inr unsafe ↦ rw unsafe (ground arith, (ground arith, (ground arith, tt)))
]

quote_bytes-Free : (bs : Str) → All IsByte bs → Free 0x7c (quote_bytes bs)
unfolding quote_bytes
quote_bytes-Free [] h = tt
quote_bytes-Free (b ∷ bs) h =
    All-append _ (quote_byte b) (quote_bytes bs) (quote_byte-Free b h.0) (quote_bytes-Free bs h.1)

-- Some character is a surrogate.
abbrev pub HasSurrogate : Str → Type 0
HasSurrogate s = (c : ℕ) × In c s × (0xd800 ≤ c) × (c < 0xe000)

HasSurrogate-cons :
    (c : ℕ) (s : Str) → is_surrogate c ≡ false → ¬ HasSurrogate s → ¬ HasSurrogate (c ∷ s)
HasSurrogate-cons c s good clean (d, inl e, low, high) = absurd (ground (arith, good, e, low, high))
HasSurrogate-cons c s good clean (d, inr m, low, high) = clean (d, m, low, high)

abbrev pub IsCodePoint : ℕ → Type 0
IsCodePoint c = c < 0x110000

-- A text is quoted, with no separator in it, exactly if it has no surrogate.
quote-cases :
    (s : Str)
    → All IsCodePoint s
    → ((quoted : Str) × (quote s ≡ some quoted) × Free 0x7c quoted × (¬ HasSurrogate s))
      ⊎ ((quote s ≡ none) × HasSurrogate s)
unfolding quote
quote-cases [] h = inl ([], refl, tt, λ t. absurd t.1)
quote-cases (c ∷ s) h = elim (Bool-cases (is_surrogate c)) [
  | inl bad ↦ inr (rw bad refl, (c, inl refl, ground (arith, bad), ground (arith, bad)))
  | inr good ↦ elim (quote-cases s h.1) [
    | inr (e, (d, m, low, high)) ↦ inr (rw (good, e) refl, (d, inr m, low, high))
    | inl (q, e, free, clean) ↦ inl (
      quote_bytes (utf8 c) ++ q,
      rw (good, e) refl,
      All-append _ (quote_bytes (utf8 c)) q (quote_bytes-Free (utf8 c) (utf8-IsByte c h.0)) free,
      λ t. HasSurrogate-cons c s good clean t,
    )
  ]
]

decimal-Free : (n : ℕ) → Free 0x7c (decimal n)
decimal-Free n = All-map (λ c d. ground arith) (decimal n) (decimal-IsDigit n)

words-Free : Free 0x7c (codes "ed2k://") × Free 0x7c (codes "file") × Free 0x7c (codes "/")
words-Free = ground arith

-- The fields of a link.
fields_of :
    (safe_name : Str) (size_bytes : ℕ) (ed2k_hash link : Str)
    → Free 0x7c safe_name
    → Free 0x7c ed2k_hash
    → link_of size_bytes ed2k_hash (some safe_name) ≡ some link
    → split_on 0x7c link
      ≡ codes "ed2k://" ∷ codes "file" ∷ safe_name ∷ decimal size_bytes ∷ ed2k_hash ∷ codes "/" ∷ []
fields_of safe_name size_bytes ed2k_hash link free h e =
    ap (split_on 0x7c) (sym (some-injective e))
    ∙ split_on-append 0x7c (codes "ed2k://") _ words-Free.0
    ∙ ap (λ (t : List Str). codes "ed2k://" ∷ t)
        (split_on-append 0x7c (codes "file") _ words-Free.1
          ∙ ap (λ (t : List Str). codes "file" ∷ t)
              (split_on-append 0x7c safe_name _ free
                ∙ ap (λ (t : List Str). safe_name ∷ t)
                    (split_on-append 0x7c (decimal size_bytes) _ (decimal-Free size_bytes)
                      ∙ ap (λ (t : List Str). decimal size_bytes ∷ t)
                          (split_on-append 0x7c ed2k_hash _ h
                            ∙ ap (λ (t : List Str). ed2k_hash ∷ t)
                                (split_on-whole 0x7c (codes "/") words-Free.2)))))

-- A link that is built has exactly the six fields of an ed2k link, with the quoted name, the size
-- and the hash in their places, if the hash has no separator in it; and a link is not built, but an
-- error raised, exactly if the name has a surrogate.
pub split_on-build_ed2k_link :
    (filename : Str) (size_bytes : ℕ) (ed2k_hash : Str)
    → All IsCodePoint filename
    → Free 0x7c ed2k_hash
    → ((link : Str)
        → build_ed2k_link filename size_bytes ed2k_hash ≡ some link
        → (safe_name : Str) × (quote filename ≡ some safe_name)
          × (split_on 0x7c link
              ≡ codes "ed2k://"
                ∷ codes "file"
                ∷ safe_name
                ∷ decimal size_bytes
                ∷ ed2k_hash
                ∷ codes "/"
                ∷ []))
      × ((build_ed2k_link filename size_bytes ed2k_hash ≡ none) ↔ HasSurrogate filename)
unfolding build_ed2k_link
split_on-build_ed2k_link filename size_bytes ed2k_hash points h =
    elim (quote-cases filename points) [
      | inl (q, e, free, clean) ↦ rw e (
        λ link built. (q, refl, fields_of q size_bytes ed2k_hash link free h built),
        (λ n. cc n, λ bad. absurd (clean bad)),
      )
      | inr (e, bad) ↦ rw e (λ link built. cc built, (λ _. bad, λ _. refl))
    ]
