-- ===== src/Decimal.antt =====
-- `fmt.Sprintf("%d", n)` and `strconv.ParseUint(s, 10, 64)` of Go's standard library.
pub mod RoundTrip
use torrxfer.Base.{
  ℕ, zero, suc, ◌+◌, ◌-◌, ◌*◌, ◌/◌, ◌%◌, ◌^◌, Bool, ◌||◌, List, [], ◌∷◌, ◌++◌, Option, none, some,
  ltb, leb, if◌then◌else◌,
}
use torrxfer.Text.{Bytes}

abbrev pub max_u64 : ℕ
max_u64 = 2 ^ 64 - 1

-- A uint64 has at most 20 digits.
unfoldable pub digits : ℕ → ℕ → Bytes
digits zero n = []
digits (suc fuel) n =
    let front = digits fuel (n / 10) in
    if ltb n 10 then (b'0' + n) ∷ [] else front ++ (b'0' + n % 10) ∷ []

unfoldable pub format_uint : ℕ → Bytes
unfolding digits
format_uint n = digits 20 n

-- The loop of `ParseUint` in base 10: `n >= cutoff` and the wrap-around of `n*10 + d`.
unfoldable pub scan : Bytes → ℕ → Option ℕ
scan [] n = some n
scan (c ∷ s) n =
    let next = (n * 10 + (c - b'0')) % 2 ^ 64 in
    let rest = scan s next in
    if ltb c b'0' || ltb b'9' c
    then none
    else if leb (max_u64 / 10 + 1) n
    then none
    else if ltb next (n * 10)
    then none
    else rest

unfoldable pub parse_uint : Bytes → Option ℕ
unfolding scan
parse_uint [] = none
parse_uint (c ∷ s) = scan (c ∷ s) 0
