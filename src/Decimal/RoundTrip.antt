-- ===== src/Decimal/RoundTrip.antt =====
-- Decimal texts are read back, and hold digits only.
use mathlib.Core.List.{concat-ne-nil}
use torrxfer.Base.{
  ◌≢◌, ℕ, zero, suc, ◌+◌, ◌-◌, ◌*◌, ◌/◌, ◌%◌, ◌^◌, ◌≤◌, ◌<◌, ◌≡◌, refl, [], ◌∷◌, ◌++◌, some, arith,
  All, All-append,
}
use torrxfer.Text.{Bytes}
use torrxfer.Text.Plain.{IsPlain}
use torrxfer.Decimal.{max_u64, digits, format_uint, scan, parse_uint}

abbrev power_of_ten : ℕ → ℕ
power_of_ten zero = 1
power_of_ten (suc k) = 10 * power_of_ten k

-- Reading a last digit.
scan-append :
    (s : Bytes) (n m d : ℕ)
    → scan s n ≡ some m
    → d < 10
    → m * 10 + d ≤ max_u64
    → scan (s ++ (b'0' + d) ∷ []) n ≡ some (m * 10 + d)
unfolding scan
scan-append [] n m d h small fits = ground arith
scan-append (c ∷ s) n m d h small fits =
    ground (arith, scan-append s ((n * 10 + (c - b'0')) % 2 ^ 64) m d)

scan-digits :
    (fuel n : ℕ) → n < power_of_ten (suc fuel) → n ≤ max_u64 → scan (digits (suc fuel) n) 0 ≡ some n
unfolding scan digits
scan-digits zero n h fits = ground arith
scan-digits (suc fuel) n h fits = ground (
  arith,
  scan-digits fuel (n / 10) (omega arith) (omega arith),
  scan-append (digits (suc fuel) (n / 10)) 0 (n / 10) (n % 10),
)

pub digits-IsPlain : (fuel n : ℕ) → All IsPlain (digits fuel n)
unfolding digits
digits-IsPlain zero n = tt
digits-IsPlain (suc fuel) n = ground (
  arith,
  digits-IsPlain fuel (n / 10),
  All-append IsPlain (digits fuel (n / 10)) ((b'0' + n % 10) ∷ []),
)

digits-ne-nil : (fuel n : ℕ) → digits (suc fuel) n ≢ []
unfolding digits
digits-ne-nil fuel n = ground (arith, concat-ne-nil (b'0' + n % 10) (digits fuel (n / 10)))

pub format_uint-ne-nil : (n : ℕ) → format_uint n ≢ []
unfolding format_uint
format_uint-ne-nil n = digits-ne-nil 19 n

pub format_uint-IsPlain : (n : ℕ) → All IsPlain (format_uint n)
unfolding format_uint
format_uint-IsPlain n = digits-IsPlain 20 n

parse_uint-scan : (s : Bytes) → s ≢ [] → parse_uint s ≡ scan s 0
unfolding parse_uint
parse_uint-scan [] h = absurd (h refl)
parse_uint-scan (c ∷ s) _ = refl

-- Every uint64 is read back from its decimal text.
pub parse_uint-format_uint : (n : ℕ) → n ≤ max_u64 → parse_uint (format_uint n) ≡ some n
parse_uint-format_uint n fits =
    rw (parse_uint-scan (format_uint n) (format_uint-ne-nil n))
      (unfold format_uint in scan-digits 19 n (omega arith) fits)
