-- ===== src/Disk/Directories.antt =====
-- What the making of directories leaves as it is.
use torrxfer.Base.{
  ◌+◌, ◌<◌, ◌≡◌, ◌≢◌, ◌∙◌, refl, inl, inr, List, [], ◌∷◌, ◌++◌, Option, none, some, arith, All,
  Bool-cases, lookup, lookup-insert, eq_bytes, eq_bytes_iff, eq_bytes_sound, ap, length,
  length-append, ◌==◌,
}
use torrxfer.Text.{Bytes}
use torrxfer.Disk.{
  Disk, Entry, directory, parents_from, parents, make_dir_at, make_dir, make_dirs, with_named,
  mkdir_all,
}

-- The path is none of these.
abbrev pub IsNone : Bytes → List Bytes → Type 0
IsNone q ps = All (λ p. p ≢ q) ps

-- What a writer at `path` makes stands elsewhere: neither its file nor a directory above it is `q`.
abbrev pub IsApart : Bytes → Bytes → Type 0
IsApart q path = (path ≢ q) × IsNone q (parents path)

module _ {T : Type 0} where
  pub make_dir-lookup :
      (disk : Disk T) (p q : Bytes) (now : T) (at : Option (Entry T))
      → p ≢ q
      → lookup q (make_dir_at disk p now at).entries ≡ lookup q disk.entries
  make_dir-lookup disk p q now none ne =
      ground (arith, lookup-insert p q (directory 0 now) disk.entries, eq_bytes_iff p q)
  make_dir-lookup disk p q now (some x) ne = refl

  make_dirs-lookup :
      (ps : List Bytes) (disk : Disk T) (q : Bytes) (now : T)
      → IsNone q ps
      → lookup q (make_dirs disk ps now).entries ≡ lookup q disk.entries
  make_dirs-lookup [] disk q now h = refl
  make_dirs-lookup (p ∷ ps) disk q now (h, hs) =
      make_dirs-lookup ps (make_dir disk p now) q now hs ∙ make_dir-lookup disk p q now _ h

  -- What stands somewhere is not replaced.
  absent_present :
      (disk : Disk T) (p q : Bytes) (x : Entry T)
      → p ≡ q
      → lookup p disk.entries ≡ none
      → lookup q disk.entries ≡ some x
      → ⊥
  absent_present disk p q x same e h =
      absurd (ground (arith, ap (λ r. lookup r disk.entries) same, e, h))

  make_dir-keeps :
      (disk : Disk T) (p q : Bytes) (now : T) (x : Entry T) (at : Option (Entry T))
      → lookup p disk.entries ≡ at
      → lookup q disk.entries ≡ some x
      → lookup q (make_dir_at disk p now at).entries ≡ some x
  make_dir-keeps disk p q now x none e h = elim (Bool-cases (eq_bytes p q)) [
    | inl same ↦ absurd (absent_present disk p q x (eq_bytes_sound p q same) e h)
    | inr other ↦ rw (lookup-insert p q (directory 0 now) disk.entries, other) h
  ]
  make_dir-keeps disk p q now x (some y) e h = h

  make_dirs-keeps :
      (ps : List Bytes) (disk : Disk T) (q : Bytes) (now : T) (x : Entry T)
      → lookup q disk.entries ≡ some x
      → lookup q (make_dirs disk ps now).entries ≡ some x
  make_dirs-keeps [] disk q now x h = h
  make_dirs-keeps (p ∷ ps) disk q now x h =
      make_dirs-keeps ps (make_dir disk p now) q now x (make_dir-keeps disk p q now x _ refl h)

  pub make_dir-refuses :
      (disk : Disk T) (p : Bytes) (now : T) (at : Option (Entry T))
      → (make_dir_at disk p now at).refuses ≡ disk.refuses
  make_dir-refuses disk p now none = refl
  make_dir-refuses disk p now (some x) = refl

  make_dirs-refuses :
      (ps : List Bytes) (disk : Disk T) (now : T) → (make_dirs disk ps now).refuses ≡ disk.refuses
  make_dirs-refuses [] disk now = refl
  make_dirs-refuses (p ∷ ps) disk now =
      make_dirs-refuses ps (make_dir disk p now) now ∙ make_dir-refuses disk p now _

  pub mkdir_all-elsewhere :
      (disk : Disk T) (path q : Bytes) (now : T)
      → IsNone q (parents path)
      → lookup q (mkdir_all disk path now).entries ≡ lookup q disk.entries
  unfolding mkdir_all
  mkdir_all-elsewhere disk path q now h = make_dirs-lookup (parents path) disk q now h

  pub mkdir_all-keeps :
      (disk : Disk T) (path q : Bytes) (now : T) (x : Entry T)
      → lookup q disk.entries ≡ some x
      → lookup q (mkdir_all disk path now).entries ≡ some x
  unfolding mkdir_all
  mkdir_all-keeps disk path q now x h = make_dirs-keeps (parents path) disk q now x h

  pub mkdir_all-refuses :
      (disk : Disk T) (path : Bytes) (now : T) → (mkdir_all disk path now).refuses ≡ disk.refuses
  unfolding mkdir_all
  mkdir_all-refuses disk path now = make_dirs-refuses (parents path) disk now

-- A path is longer than the directories above it.
with_named-IsNone :
    (before q : Bytes) (ps : List Bytes)
    → length before < length q
    → IsNone q ps
    → IsNone q (with_named before ps)
with_named-IsNone [] q ps h v = v
with_named-IsNone (c ∷ before) q ps h v = (λ e. omega (arith, ap length e), v)

parents_from-IsNone :
    (before s q : Bytes) → length before + length s ≡ length q → IsNone q (parents_from before s)
parents_from-IsNone before [] q e = tt
parents_from-IsNone before (c ∷ s) q e =
    let rest =
      parents_from-IsNone (before ++ (c ∷ [])) s q
        (omega (arith, length-append {0} before (c ∷ []))) in
    elim (Bool-cases (c == b'/')) [
      | inl k ↦ rw k (with_named-IsNone before q _ (omega arith) rest)
      | inr k ↦ rw k rest
    ]

pub parents-IsNone : (path : Bytes) → IsNone path (parents path)
parents-IsNone path = parents_from-IsNone [] path path (omega arith)
