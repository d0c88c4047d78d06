-- ===== src/Ec/Integers.antt =====
-- Integers in tags: written in the shortest width, and read back at any width.
use emule_indexer.Common.{
  ℕ, ◌^◌, ◌<◌, ◌≤◌, ◌≡◌, ◌⊎◌, ◌≢◌, Result-cases, ◌↔◌, All, ok-injective, inl, inr, refl, ltb,
  length, ok, err, arith, Bool-cases,
}
use mathlib.Core.Path.{subst}
use emule_indexer.Common.Bytes.{
  IsByte, from_bytes-lt, to_bytes, from_bytes, length-to_bytes, from_bytes-to_bytes,
}
use emule_indexer.Ec.Tag.{EcError, EcTag, tag, Tags, value_of}
use emule_indexer.Ec.Value.{int_value, uint_tag}

-- The widths that EC knows, shortest first.
data IsWidth : ℕ → ℕ → ℕ → Type 0 where
  one : IsWidth 0x02 1 0
  two : IsWidth 0x03 2 1
  four : IsWidth 0x04 4 2
  eight : IsWidth 0x05 8 4

int_value-to_bytes :
    (name tag_type w prev n : ℕ) (children : Tags)
    → IsWidth tag_type w prev
    → n < 256 ^ w
    → int_value (tag name tag_type (to_bytes w n) children) ≡ ok n
unfolding int_value
int_value-to_bytes name tag_type w prev n children one h =
    rw (length-to_bytes 1 n, from_bytes-to_bytes 1 n h)
int_value-to_bytes name tag_type w prev n children two h =
    rw (length-to_bytes 2 n, from_bytes-to_bytes 2 n h)
int_value-to_bytes name tag_type w prev n children four h =
    rw (length-to_bytes 4 n, from_bytes-to_bytes 4 n h)
int_value-to_bytes name tag_type w prev n children eight h =
    rw (length-to_bytes 8 n, from_bytes-to_bytes 8 n h)

-- Which width was taken, and that none before it would do.
Shortest : ℕ → ℕ → Tags → EcTag → Type 0
Shortest name n children t =
    (tag_type : ℕ) × (w : ℕ) × (prev : ℕ) × IsWidth tag_type w prev
    × (n < 256 ^ w)
    × ((w ≡ 1) ⊎ (256 ^ prev ≤ n))
    × (tag name tag_type (to_bytes w n) children ≡ t)

uint_tag-Shortest :
    (name n : ℕ) (children : Tags) (t : EcTag)
    → uint_tag name n children ≡ ok t
    → Shortest name n children t
unfolding uint_tag Shortest
uint_tag-Shortest name n children t h = elim (Bool-cases (ltb n (256 ^ 1))) [
  | inl fits ↦ (_, _, _, one, ground arith, inl refl, ok-injective (rw fits at h))
  | inr a ↦ elim (Bool-cases (ltb n (256 ^ 2))) [
    | inl fits ↦ (_, _, _, two, ground arith, inr (ground arith), ok-injective (rw (a, fits) at h))
    | inr b ↦ elim (Bool-cases (ltb n (256 ^ 4))) [
      | inl fits ↦
          (_, _, _, four, ground arith, inr (ground arith), ok-injective (rw (a, b, fits) at h))
      | inr c ↦ elim (Bool-cases (ltb n (256 ^ 8))) [
        | inl fits ↦ (
          _,
          _,
          _,
          eight,
          ground arith,
          inr (ground arith),
          ok-injective (rw (a, b, c, fits) at h),
        )
        | inr d ↦ cc (rw (a, b, c, d) at h)
      ]
    ]
  ]
]

width-lt : {tag_type w prev : ℕ} (n : ℕ) → IsWidth tag_type w prev → n < 256 ^ w → n < 2 ^ 64
width-lt n one h = omega arith
width-lt n two h = omega arith
width-lt n four h = omega arith
width-lt n eight h = omega arith

uint_tag-ne-err :
    (name n : ℕ) (children : Tags) (e : EcError) → n < 2 ^ 64 → uint_tag name n children ≢ err e
unfolding uint_tag
uint_tag-ne-err name n children e h = ground arith

-- `uint_tag` succeeds exactly on the numbers that fit 64 bits.
pub uint_tag_domain :
    (name n : ℕ) (children : Tags)
    → ((t : EcTag) × (uint_tag name n children ≡ ok t)) ↔ (n < 2 ^ 64)
unfolding Shortest
uint_tag_domain name n children = (
  λ (t, h).
      let (_, _, _, width, fits, _, _) = uint_tag-Shortest name n children t h in
      width-lt n width fits,
  λ h. elim (Result-cases (uint_tag name n children)) [
    | inl t ↦ t
    | inr (e, h') ↦ absurd (uint_tag-ne-err name n children e h h')
  ],
)

abbrev IsIntLength : ℕ → Type 0
IsIntLength k = (k ≡ 1) ⊎ ((k ≡ 2) ⊎ ((k ≡ 4) ⊎ (k ≡ 8)))

width-le :
    {tag_type w prev : ℕ} (n k : ℕ)
    → IsWidth tag_type w prev
    → (w ≡ 1) ⊎ (256 ^ prev ≤ n)
    → IsIntLength k
    → (k ≡ 1 → n < 256 ^ 1)
    → (k ≡ 2 → n < 256 ^ 2)
    → (k ≡ 4 → n < 256 ^ 4)
    → w ≤ k
width-le n k one short l h₁ h₂ h₄ = ground arith
width-le n k two short l h₁ h₂ h₄ = ground arith
width-le n k four short l h₁ h₂ h₄ = ground arith
width-le n k eight short l h₁ h₂ h₄ = ground arith

int_value-length :
    (t : EcTag) (n : ℕ)
    → int_value t ≡ ok n
    → (from_bytes (value_of t) ≡ n) × IsIntLength (length (value_of t))
unfolding int_value
int_value-length t n h = ground arith

-- An integer tag reads back as the number that it was built from, and no integer tag that reads
-- so is shorter.
pub int_value-uint_tag :
    (name n : ℕ) (children : Tags) (t : EcTag)
    → uint_tag name n children ≡ ok t
    → (int_value t ≡ ok n)
      × ((u : EcTag)
          → All IsByte (value_of u)
          → int_value u ≡ ok n
          → length (value_of t) ≤ length (value_of u))
unfolding Shortest
int_value-uint_tag name n children t h =
    let (tag_type, w, prev, width, fits, short, e) = uint_tag-Shortest name n children t h in
    rw (← e) (
      int_value-to_bytes name tag_type w prev n children width fits,
      λ u bytes hu.
          let (read, l) = int_value-length u n hu in
          let bound : n < 256 ^ length (value_of u) =
            rw (← read) (from_bytes-lt (value_of u) bytes) in
          let at = λ (k : ℕ) (e : length (value_of u) ≡ k). subst (λ m. n < 256 ^ m) e bound in
          rw (length-to_bytes w n)
            (width-le n (length (value_of u)) width short l (at 1) (at 2) (at 4)),
    )
