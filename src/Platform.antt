-- ===== src/Platform.antt =====
-- What the program takes from outside: Go's clock with the text form of a time, and SHA-256.
-- The model carries these as a parameter; `IsRfc3339` states what the package `time` documents.
use torrxfer.Base.{ℕ, ◌≡◌, ◌≢◌, ◌↔◌, Bool, true, [], Option, none, some, All}
use torrxfer.Text.{Bytes}
use torrxfer.Text.Plain.{IsPlain}

pub record Platform : Type 1 where
  pub Time : Type 0
  -- `==` on times
  pub same_time : Time → Time → Bool
  -- `time.Time{}`
  pub zero_time : Time
  -- `time.Unix(int64(n), 0)` and `uint64(t.Unix())`, over the bit pattern of the int64
  pub from_unix : ℕ → Time
  pub unix : Time → ℕ
  -- `MarshalText` and `UnmarshalText` of a time; `none` is an error
  pub marshal_time : Time → Option Bytes
  pub unmarshal_time : Bytes → Option Time
  -- the SHA-256 sum of the bytes, in hexadecimal
  pub sha256 : Bytes → Bytes

-- A time is its RFC 3339 text, which is made of digits and of `+ - . : T Z`.
pub record IsRfc3339 (w : Platform) : Type 0 where
  pub same_time_iff : (t u : w.Time) → (w.same_time t u ≡ true) ↔ (t ≡ u)
  pub ne_nil : (t : w.Time) (s : Bytes) → w.marshal_time t ≡ some s → s ≢ []
  pub plain : (t : w.Time) (s : Bytes) → w.marshal_time t ≡ some s → All IsPlain s
  pub reads : (t : w.Time) (s : Bytes) → w.marshal_time t ≡ some s → w.unmarshal_time s ≡ some t
  pub empty : w.unmarshal_time [] ≡ none
