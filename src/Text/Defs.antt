-- ===== src/Text/Defs.antt =====
-- `strings.HasPrefix`, `TrimPrefix`, `Split` and `TrimSpace` over the bytes of a string (UTF-8).
use Prim.Native.Char.{code}
use Prim.Native.String.{String}
use torrxfer.Base.{
  ℕ, zero, suc, Bool, true, false, List, [], ◌∷◌, ◌++◌, map, reverse, Option, none, some, ◌==◌,
  if◌then◌else◌, length,
}

abbrev pub Bytes : Type 0
Bytes = List ℕ

-- The bytes of an ASCII literal.
abbrev pub codes : String → Bytes
codes String.[] = []
codes (String.◌∷◌ c s) = code c ∷ codes s

-- What is left of `s` behind the prefix `p`, if `s` begins with it.
unfoldable pub after_prefix : Bytes → Bytes → Option Bytes
after_prefix [] s = some s
after_prefix (a ∷ p) [] = none
after_prefix (a ∷ p) (b ∷ s) = if a == b then after_prefix p s else none

unfoldable pub has_prefix : Bytes → Bytes → Bool
unfolding after_prefix
has_prefix s p = elim (after_prefix p s) [ none ↦ false | some _ ↦ true ]

unfoldable pub trim_prefix : Bytes → Bytes → Bytes
unfolding after_prefix
trim_prefix s p = elim (after_prefix p s) [ none ↦ s | some rest ↦ rest ]

-- The loop of `Split` for a separator that is not empty. `cur` is the part that is being read,
-- and `skip` counts the bytes of a separator that are still to be passed over.
unfoldable pub split_from : Bytes → Bytes → Bytes → ℕ → List Bytes
unfolding after_prefix
split_from sep [] cur skip = cur ∷ []
split_from sep (c ∷ s) cur (suc skip) = split_from sep s cur skip
split_from sep (c ∷ s) cur zero = elim (after_prefix sep (c ∷ s)) [
  | none ↦ split_from sep s (cur ++ (c ∷ [])) zero
  | some _ ↦ cur ∷ split_from sep s [] (elim (length sep) [ zero ↦ zero | suc n ↦ n ])
]

unfoldable pub split : Bytes → Bytes → List Bytes
unfolding split_from
split s sep = split_from sep s [] 0

-- The UTF-8 encodings of the runes of `unicode.IsSpace`.
abbrev pub spaces : List Bytes
spaces =
    (9 ∷ [])
    ∷ (10 ∷ [])
    ∷ (11 ∷ [])
    ∷ (12 ∷ [])
    ∷ (13 ∷ [])
    ∷ (32 ∷ [])
    ∷ (0xc2 ∷ 0x85 ∷ [])
    ∷ (0xc2 ∷ 0xa0 ∷ [])
    ∷ (0xe1 ∷ 0x9a ∷ 0x80 ∷ [])
    ∷ (0xe2 ∷ 0x80 ∷ 0x80 ∷ [])
    ∷ (0xe2 ∷ 0x80 ∷ 0x81 ∷ [])
    ∷ (0xe2 ∷ 0x80 ∷ 0x82 ∷ [])
    ∷ (0xe2 ∷ 0x80 ∷ 0x83 ∷ [])
    ∷ (0xe2 ∷ 0x80 ∷ 0x84 ∷ [])
    ∷ (0xe2 ∷ 0x80 ∷ 0x85 ∷ [])
    ∷ (0xe2 ∷ 0x80 ∷ 0x86 ∷ [])
    ∷ (0xe2 ∷ 0x80 ∷ 0x87 ∷ [])
    ∷ (0xe2 ∷ 0x80 ∷ 0x88 ∷ [])
    ∷ (0xe2 ∷ 0x80 ∷ 0x89 ∷ [])
    ∷ (0xe2 ∷ 0x80 ∷ 0x8a ∷ [])
    ∷ (0xe2 ∷ 0x80 ∷ 0xa8 ∷ [])
    ∷ (0xe2 ∷ 0x80 ∷ 0xa9 ∷ [])
    ∷ (0xe2 ∷ 0x80 ∷ 0xaf ∷ [])
    ∷ (0xe2 ∷ 0x81 ∷ 0x9f ∷ [])
    ∷ (0xe3 ∷ 0x80 ∷ 0x80 ∷ [])
    ∷ []

-- What is left behind the first of the patterns that `s` begins with.
unfoldable pub after_any : List Bytes → Bytes → Option Bytes
unfolding after_prefix
after_any [] s = none
after_any (p ∷ ps) s =
    let rest = after_any ps s in elim (after_prefix p s) [ some t ↦ some t | none ↦ rest ]

-- Each round drops a byte at least, so the length is fuel enough.
unfoldable pub trim_left : ℕ → List Bytes → Bytes → Bytes
unfolding after_any
trim_left zero ps s = s
trim_left (suc fuel) ps s = elim (after_any ps s) [ none ↦ s | some t ↦ trim_left fuel ps t ]

-- The right end is trimmed as the left end of the reversed text, by the reversed encodings.
unfoldable pub trim_space : Bytes → Bytes
unfolding trim_left
trim_space s =
    let front = trim_left (length s) spaces s in
    reverse (trim_left (length front) (map reverse spaces) (reverse front))
