-- ===== src/Text/Trim.antt =====
-- Texts that `trim_space` leaves alone.
use torrxfer.Base.{ℕ, zero, suc, ◌≡◌, refl, List, map, reverse, reverse-reverse, none, length}
use torrxfer.Text.Defs.{Bytes, spaces, after_any, trim_left, trim_space}

-- No white space at either end.
abbrev pub IsTrimmed : Bytes → Type 0
IsTrimmed s = (after_any spaces s ≡ none) × (after_any (map reverse spaces) (reverse s) ≡ none)

trim_left_lem :
    (fuel : ℕ) (ps : List Bytes) (s : Bytes) → after_any ps s ≡ none → trim_left fuel ps s ≡ s
unfolding trim_left
trim_left_lem zero ps s h = refl
trim_left_lem (suc fuel) ps s h = rw (h, trim_left)

pub trim_space_of_trimmed : (s : Bytes) → IsTrimmed s → trim_space s ≡ s
unfolding trim_space
trim_space_of_trimmed s (front, back) =
    rw
      (
        trim_left_lem (length s) spaces s front,
        trim_left_lem (length s) (map reverse spaces) (reverse s) back,
      )
      (reverse-reverse s)
