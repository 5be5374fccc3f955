-- ===== src/Tests/World.antt =====
-- A platform, a pogreb and a database to run the model with: times are numbers, their text is
-- decimal, and the sum of a text is the text.
use torrxfer.Base.{
  ℕ, ◌≤◌, ◌≡◌, ◌≢◌, refl, ap, true, false, Bool, Option, none, some, List, [], arith, ◌==◌, leb,
  if◌then◌else◌, lookup, insert, erase, lookup-insert, lookup-erase, eq_bytes_refl, eq_bytes_iff,
}
use torrxfer.Text.{Bytes}
use torrxfer.Decimal.{max_u64, format_uint, parse_uint}
use torrxfer.Decimal.RoundTrip.{format_uint-ne-nil, format_uint-IsPlain, parse_uint-format_uint}
use torrxfer.Platform.{Platform, IsRfc3339}
use torrxfer.Db.{Pogreb, Fetch, value, missing}
use torrxfer.Db.Store.{IsReliable}
use torrxfer.Database.{Database, IsLawful}

abbrev pub marshal : ℕ → Option Bytes
marshal t = if leb t max_u64 then some (format_uint t) else none

abbrev pub platform : Platform
platform = record {
  Time = ℕ;
  same_time = ◌==◌;
  zero_time = 1;
  from_unix = λ n. n;
  unix = λ t. t;
  marshal_time = marshal;
  unmarshal_time = parse_uint;
  sha256 = λ b. b;
}

marshal_eq : (t : ℕ) (s : Bytes) → marshal t ≡ some s → (t ≤ max_u64) × (s ≡ format_uint t)
marshal_eq t s h = ground arith

pub platform-IsRfc3339 : IsRfc3339 platform
platform-IsRfc3339 = record {
  same_time_iff = λ t u. ground arith;
  ne_nil = λ t s h. rw (marshal_eq t s h).1 (format_uint-ne-nil t);
  plain = λ t s h. rw (marshal_eq t s h).1 (format_uint-IsPlain t);
  reads = λ t s h. rw (marshal_eq t s h).1 (parse_uint-format_uint t (marshal_eq t s h).0);
  empty = unfold parse_uint in refl;
}

abbrev pub Table : Type 0
Table = List (Bytes × Bytes)

abbrev pub fetch_of : Option Bytes → Fetch
fetch_of none = missing
fetch_of (some v) = value v

abbrev pub is_some : Option Bytes → Bool
is_some none = false
is_some (some _) = true

lookup-insert_self : (k v : Bytes) (s : Table) → lookup k (insert k v s) ≡ some v
lookup-insert_self k v s = rw (lookup-insert k k v s, eq_bytes_refl k)

lookup-insert_ne : (k v j : Bytes) (s : Table) → j ≢ k → lookup j (insert k v s) ≡ lookup j s
lookup-insert_ne k v j s ne = ground (arith, lookup-insert k j v s, eq_bytes_iff k j)

lookup-erase_self : (k : Bytes) (s : Table) → lookup k (erase k s) ≡ none
lookup-erase_self k s = rw (lookup-erase k k s, eq_bytes_refl k)

abbrev pub pogreb : Pogreb
pogreb = record {
  State = Table;
  get = λ s k. fetch_of (lookup k s);
  has = λ s k. some (is_some (lookup k s));
  put = λ s k v. (insert k v s, true);
  delete = λ s k. (erase k s, true);
  compact = λ s. s;
  sync = λ s. s;
  close = λ s. (s, true);
  open_at = λ _. some [];
}

pub pogreb-IsReliable : IsReliable pogreb
pogreb-IsReliable = record {
  get-put = λ s k v _. ap fetch_of (lookup-insert_self k v s);
  get-put_ne = λ s k v j ne. ap fetch_of (lookup-insert_ne k v j s ne);
  has-put = λ s k v _. ap (λ o. some (is_some o)) (lookup-insert_self k v s);
  has-delete = λ s k _. ap (λ o. some (is_some o)) (lookup-erase_self k s);
}

abbrev pub database : Database
database = record {
  State = Table;
  has = λ s k. is_some (lookup k s);
  get = λ s k. lookup k s;
  put = λ s k v. (insert k v s, true);
  delete = λ s k. (erase k s, true);
}

pub database-IsLawful : IsLawful database
database-IsLawful = record {
  has-put = λ s k v _. ap is_some (lookup-insert_self k v s);
  get-put = λ s k v _. lookup-insert_self k v s;
  has-delete = λ s k _. ap is_some (lookup-erase_self k s);
}
