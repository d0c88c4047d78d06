-- ===== src/Download/Staging.antt =====
-- `_safe_basename`: the name of a file that amuled shares is confined to the staging folder.
use emule_indexer.Common.{
  ◌≡◌, ◌≢◌, ◌||◌, Option, none, some, List, [], ◌∷◌, All, arith, Bool-cases, inl, inr,
  if◌then◌else◌, some-injective,
}
use mathlib.Core.Path.{subst}
use emule_indexer.Common.Text.{Str, codes, str_eq, str_eq_iff, split_on, Free, split_on-Free}

-- The parts that `PurePosixPath` keeps, and the last of them.
unfoldable pub path_name : Str → List Str → Str
path_name last [] = last
path_name last (part ∷ parts) =
    if str_eq part [] || str_eq part (codes ".") then path_name last parts else path_name part parts

-- `Path(name).name`
unfoldable pub basename : Str → Str
unfolding path_name
basename name = path_name [] (split_on 0x2f name)

unfoldable pub safe_basename : Str → Option Str
unfolding basename
safe_basename name =
    let base = basename name in
    if str_eq base [] || (str_eq base (codes ".") || str_eq base (codes ".."))
    then none
    else some base

path_name-Free :
    (last : Str) (parts : List Str)
    → Free 0x2f last
    → All (Free 0x2f) parts
    → Free 0x2f (path_name last parts)
unfolding path_name
path_name-Free last [] h hs = h
path_name-Free last (part ∷ parts) h hs =
    elim (Bool-cases (str_eq part [] || str_eq part (codes "."))) [
      | inl skipped ↦ rw skipped (path_name-Free last parts h hs.1)
      | inr kept ↦ rw kept (path_name-Free part parts hs.0 hs.1)
    ]

-- A name that is let through is one proper file name: it has no slash, and is neither empty, nor
-- the folder itself, nor the one above.
pub safe_basename-some :
    (name base : Str)
    → safe_basename name ≡ some base
    → Free 0x2f base × ((base ≢ []) × ((base ≢ codes ".") × (base ≢ codes "..")))
unfolding safe_basename basename
safe_basename-some name base h =
    let path = path_name [] (split_on 0x2f name) in
    elim (Bool-cases (str_eq path [] || (str_eq path (codes ".") || str_eq path (codes "..")))) [
      | inl refused ↦ cc (rw refused at h)
      | inr proper ↦
          let same : path ≡ base = some-injective (rw proper at h) in
          (
            subst (Free 0x2f) same
                (path_name-Free [] (split_on 0x2f name) tt (split_on-Free 0x2f name)),
            ground (
              arith,
              same,
              proper,
              str_eq_iff base [],
              str_eq_iff base (codes "."),
              str_eq_iff base (codes ".."),
            ),
          )
    ]
