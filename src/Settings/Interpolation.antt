-- ===== src/Settings/Interpolation.antt =====
-- interpolation.py: `${NAME}` in a text.
use emule_indexer.Common.{
  ℕ, zero, suc, Bool, ◌&&◌, ◌||◌, Option, none, some, [], ◌∷◌, ◌++◌, length, leb, ◌==◌,
  if◌then◌else◌,
}
use emule_indexer.Common.Text.{Str}
use emule_indexer.Common.Dict.{Dict, get}

-- `[A-Za-z_]` and `[A-Za-z0-9_]`
abbrev pub starts_name : ℕ → Bool
starts_name c = (leb b'A' c && leb c b'Z') || ((leb b'a' c && leb c b'z') || (c == b'_'))

abbrev pub in_name : ℕ → Bool
in_name c = starts_name c || (leb b'0' c && leb c b'9')

-- The longest name at the start of a text, and the rest.
unfoldable pub take_name : Str → Str × Str
take_name [] = ([], [])
take_name (c ∷ s) =
    let (name, rest) = take_name s in if in_name c then (c ∷ name, rest) else ([], c ∷ s)

abbrev pub closed : Str × Str → Option (Str × Str)
closed (name, []) = none
closed (name, (c ∷ rest)) = if c == b'}' then some (name, rest) else none

-- A match of the pattern: the name and what follows.
unfoldable pub reference : Str → Option (Str × Str)
reference [] = none
reference (d ∷ []) = none
reference (d ∷ b ∷ []) = none
reference (d ∷ b ∷ c ∷ s) =
    if (d == b'$') && ((b == b'{') && starts_name c) then closed (take_name (c ∷ s)) else none

abbrev pub before : Str → Option Str → Option Str
before s none = none
before s (some rest) = some (s ++ rest)

abbrev pub substituted : Option Str → Option Str → Option Str
substituted none rest = none
substituted (some value) rest = before value rest

-- At a match its value stands in the result, and else the character.
abbrev pub resumed : (Str → Option Str) → Dict Str → ℕ → Str → Option (Str × Str) → Option Str
resumed next env c s none = before (c ∷ []) (next s)
resumed next env c s (some (name, rest)) = substituted (get name env) (next rest)

-- `interpolate`, on fuel for the rounds; `none` is a ConfigError.
unfoldable pub interpolate_from : ℕ → Dict Str → Str → Option Str
interpolate_from zero env s = some s
interpolate_from (suc fuel) env [] = some []
interpolate_from (suc fuel) env (c ∷ s) =
    resumed (interpolate_from fuel env) env c s (reference (c ∷ s))

unfoldable pub interpolate : Str → Dict Str → Option Str
interpolate s env = interpolate_from (length s) env s
