-- ===== src/Text/Plain.antt =====
-- Texts of plain bytes, between `+` and `Z`: digits, and dates in RFC 3339.
use mathlib.Core.List.{reverse_aux}
use torrxfer.Base.{◌⊎◌, ◌≢◌, ℕ, ◌≤◌, ◌<◌, ◌≡◌, refl, List, [], ◌∷◌, reverse, none, arith, All, map}
use torrxfer.Text.Defs.{Bytes, spaces, after_prefix, after_any}
use torrxfer.Text.Trim.{IsTrimmed}
use torrxfer.Text.Split.{IsFree}

abbrev pub IsPlain : ℕ → Type 0
IsPlain c = (43 ≤ c) × (c ≤ 90)

-- The pattern begins with a byte that is no plain.
abbrev Avoids : Bytes → Type 0
Avoids [] = ⊥
Avoids (a ∷ _) = (a < 43) ⊎ (90 < a)

after_any-plain :
    (ps : List Bytes) (c : ℕ) (s : Bytes) → All Avoids ps → IsPlain c → after_any ps (c ∷ s) ≡ none
unfolding after_any after_prefix
after_any-plain [] c s h d = refl
after_any-plain ([] ∷ ps) c s h d = absurd h.0
after_any-plain ((a ∷ p) ∷ ps) c s h d = ground (arith, after_any-plain ps c s h.1 d)

spaces-Avoids : All Avoids spaces
spaces-Avoids = omega arith

reversed_spaces-Avoids : All Avoids (map reverse spaces)
reversed_spaces-Avoids = omega arith

after_any-reverse :
    (ps : List Bytes) (s : Bytes) (c : ℕ) (r : Bytes)
    → All Avoids ps
    → All IsPlain s
    → IsPlain c
    → after_any ps (reverse_aux s (c ∷ r)) ≡ none
after_any-reverse ps [] c r h _ d = after_any-plain ps c r h d
after_any-reverse ps (b ∷ s) c r h (e, hs) d = after_any-reverse ps s b (c ∷ r) h hs e

-- A plain text is not trimmed.
pub IsTrimmed-of_plain : (s : Bytes) → s ≢ [] → All IsPlain s → IsTrimmed s
IsTrimmed-of_plain [] ne all = absurd (ne refl)
IsTrimmed-of_plain (c ∷ s) ne (d, ds) = (
  after_any-plain spaces c s spaces-Avoids d,
  after_any-reverse (map reverse spaces) s c [] reversed_spaces-Avoids ds d,
)

-- A separator that begins with a byte that is not plain begins nowhere in such a text.
pub IsFree-of_plain : (a : ℕ) (w s : Bytes) → (a < 43) ⊎ (90 < a) → All IsPlain s → IsFree (a ∷ w) s
unfolding after_prefix
IsFree-of_plain a w [] other _ = tt
IsFree-of_plain a w (c ∷ s) other (d, ds) = (ground arith, IsFree-of_plain a w s other ds)
