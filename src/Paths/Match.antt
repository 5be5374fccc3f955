-- ===== src/Paths/Match.antt =====
-- `Match` of Go's `path/filepath` on Unix, for texts of one byte per character. A malformed pattern,
-- which is an error there, matches nothing here.
use torrxfer.Base.{
  ℕ, zero, suc, Bool, true, false, ◌&&◌, ◌||◌, not, List, [], ◌∷◌, Option, none, some, ◌==◌, leb,
  length, if◌then◌else◌, ◌>>=◌, ◌≡◌, refl,
}
use torrxfer.Text.{Bytes, codes}

abbrev pub backslash : ℕ
backslash = 92

-- The stars at the start of a pattern, and what follows them.
abbrev pub strip_stars : Bytes → Bool × Bytes
strip_stars [] = (false, [])
strip_stars (c ∷ p) = if c == b'*' then (true, (strip_stars p).1) else (false, c ∷ p)

abbrev in_brackets : ℕ → Bool → Bool
in_brackets c in_range = if c == b'[' then true else if c == b']' then false else in_range

-- The text up to the next star outside of brackets, and the rest.
abbrev pub chunk_of : Bool → Bytes → Bytes × Bytes
chunk_of in_range [] = ([], [])
chunk_of in_range (c ∷ []) = if c == b'*' && not in_range then ([], c ∷ []) else (c ∷ [], [])
chunk_of in_range (c ∷ e ∷ p) =
    let (chunk, rest) = chunk_of in_range p in
    let (chunk', rest') = chunk_of (in_brackets c in_range) (e ∷ p) in
    if c == backslash
    then (c ∷ e ∷ chunk, rest)
    else if c == b'*' && not in_range
    then ([], c ∷ e ∷ p)
    else (c ∷ chunk', rest')

-- One character of a bracket, perhaps escaped; something has to follow it.
abbrev unless_last : ℕ → Bytes → Option (ℕ × Bytes)
unless_last c [] = none
unless_last c (e ∷ p) = some (c, e ∷ p)

abbrev escaped : Bytes → Option (ℕ × Bytes)
escaped [] = none
escaped (c ∷ p) = unless_last c p

abbrev get_esc : Bytes → Option (ℕ × Bytes)
get_esc [] = none
get_esc (c ∷ p) =
    if c == b'-' || c == b']' then none else if c == backslash then escaped p else unless_last c p

abbrev high_of : ℕ → Bytes → Option (ℕ × Bytes)
high_of lo [] = some (lo, [])
high_of lo (c ∷ p) = if c == b'-' then get_esc p else some (lo, c ∷ p)

-- Whether the ranges of a bracket have the character, and what follows the bracket. Each round
-- takes a character at least, so the length of the pattern is enough fuel.
abbrev pub ranges : ℕ → ℕ → Bool → Bool → Bytes → Option (Bool × Bytes)
ranges zero c any found p = none
ranges (suc f) c any found [] = none
ranges (suc f) c any found (e ∷ p) = if e == b']' && any then some (found, p) else do
  (lo, p1) ← get_esc (e ∷ p)
  (hi, p2) ← high_of lo p1
  ranges f c true (found || leb lo c && leb c hi) p2

abbrev same : Bool → Bool → Bool
same true b = b
same false b = not b

abbrev bracket : ℕ → Bytes → Option Bytes
bracket x [] = none
bracket x (c ∷ p) = do
  (found, rest) ← ranges (suc (length p)) x false false (if c == b'^' then p else c ∷ p)
  if same found (c == b'^') then none else some rest

abbrev literal : ℕ → ℕ → Bytes → Option Bytes
literal x c p = if c == x then some p else none

abbrev escaped_literal : ℕ → Bytes → Option Bytes
escaped_literal x [] = none
escaped_literal x (c ∷ p) = literal x c p

-- The rest of a chunk `c ∷ p` whose first item takes the character `x`.
abbrev pub take_item : ℕ → ℕ → Bytes → Option Bytes
take_item x c p =
    if c == b'['
    then bracket x p
    else if c == b'?'
    then (if x == b'/' then none else some p)
    else if c == backslash
    then escaped_literal x p
    else literal x c p

-- What is left of the text behind a chunk. Each round takes an item of the chunk.
unfoldable pub match_chunk : ℕ → Bytes → Bytes → Option Bytes
match_chunk f [] s = some s
match_chunk zero (c ∷ p) s = none
match_chunk (suc f) (c ∷ p) [] = none
match_chunk (suc f) (c ∷ p) (x ∷ s) = do p' ← take_item x c p; match_chunk f p' s

abbrev pub is_empty : Bytes → Bool
is_empty [] = true
is_empty (_ ∷ _) = false

-- The last chunk has to take all of the text.
abbrev pub fits : Bytes → Option Bytes → Option Bytes
fits rest none = none
fits rest (some t) = if is_empty t || not (is_empty rest) then some t else none

abbrev pub or_else : Option Bytes → Option Bytes → Option Bytes
or_else none o = o
or_else (some t) o = some t

-- The first place behind some characters other than slashes where the chunk fits.
unfoldable pub skip_to : Bytes → Bytes → Bytes → Option Bytes
skip_to chunk rest [] = none
skip_to chunk rest (x ∷ s) =
    let later = skip_to chunk rest s in
    if x == b'/' then none else or_else (fits rest (match_chunk (length chunk) chunk s)) later

abbrev pub has_slash : Bytes → Bool
has_slash [] = false
has_slash (c ∷ s) = c == b'/' || has_slash s

abbrev pub place : Bool → Bytes → Bytes → Bytes → Option Bytes
place star chunk rest s =
    or_else (fits rest (match_chunk (length chunk) chunk s))
      (if star then skip_to chunk rest s else none)

abbrev pub on_place : (Bytes → Bytes → Bool) → Bytes → Option Bytes → Bool
on_place next rest none = false
on_place next rest (some t) = next rest t

abbrev pub on_chunk : (Bytes → Bytes → Bool) → Bytes → Bool → Bytes × Bytes → Bool
on_chunk next s star (chunk, rest) =
    if star && is_empty chunk
    then not (has_slash s)
    else on_place next rest (place star chunk rest s)

abbrev pub on_stars : (Bytes → Bytes → Bool) → Bytes → Bool × Bytes → Bool
on_stars next s (star, p) = on_chunk next s star (chunk_of false p)

-- Each round takes a chunk, so the length of the pattern and one are enough fuel.
unfoldable pub match_from : ℕ → Bytes → Bytes → Bool
match_from zero p s = false
match_from (suc f) [] s = is_empty s
match_from (suc f) (c ∷ p) s = on_stars (match_from f) s (strip_stars (c ∷ p))

unfoldable pub match : Bytes → Bytes → Bool
unfolding match_from match_chunk skip_to
match p s = match_from (suc (length p)) p s

-- Some patterns.
match_tests : List Bool
unfolding match
match_tests =
    match (codes "/a/*") (codes "/a/b")
    ∷ match (codes "/a/*") (codes "/a/b/c")
    ∷ match (codes "a*b*c") (codes "aXbbYc")
    ∷ match (codes "a[^x-z]?") (codes "ayq")
    ∷ match (codes "a[^x-z]?") (codes "awq")
    ∷ match (codes "a\\*") (codes "a*")
    ∷ match (codes "a[") (codes "a")
    ∷ match (codes "*[a/]*b") (codes "a/b")
    ∷ []

match_tests_lem : match_tests ≡ true ∷ false ∷ true ∷ false ∷ true ∷ true ∷ false ∷ false ∷ []
unfolding match_tests
match_tests_lem = refl
