-- ===== src/Disk.antt =====
-- The file system as the program sees it through Go's `os` and `io`: the entries by path, and the
-- calls that the operating system refuses for another reason than a missing entry.
pub mod Writes
pub mod Directories
use torrxfer.Base.{
  ℕ, zero, suc, ◌+◌, ◌-◌, ◌≤◌, ◌≡◌, refl, Bool, true, false, List, ◌∷◌, [], ◌++◌, Option, none,
  some, if◌then◌else◌, ◌==◌, length, take, drop, replicate, lookup, insert, erase,
}
use torrxfer.Text.{Bytes}

pub data Call : Type 0 where
  stat_call open_call read_call remove_call mkdir_call seek_call write_call : Call

pub data Entry (T : Type 0) : Type 0 where
  regular : Bytes → T → Entry T
  directory : ℕ → T → Entry T

pub record Disk (T : Type 0) : Type 0 where
  pub entries : List (Bytes × Entry T)
  pub refuses : Call → Bytes → Bool

-- What `os.Stat` reports: size, modification time and `IsDir`.
pub data Stat (T : Type 0) : Type 0 where
  found : ℕ → T → Bool → Stat T
  not_exist : Stat T
  stat_failed : Stat T

module _ {T : Type 0} where
  abbrev entry_at : Disk T → Bytes → Option (Entry T)
  entry_at d p = lookup p d.entries

  abbrev stat_of : Option (Entry T) → Stat T
  stat_of none = not_exist
  stat_of (some (regular b t)) = found (length b) t false
  stat_of (some (directory n t)) = found n t true

  unfoldable pub os_stat : Disk T → Bytes → Stat T
  os_stat d p = if d.refuses stat_call p then stat_failed else stat_of (lookup p d.entries)

  abbrev content_of : Option (Entry T) → Option Bytes
  content_of (some (regular b _)) = some b
  content_of _ = none

  -- Opening a file for reading and reading it to its end; a directory cannot be read.
  unfoldable pub read_file : Disk T → Bytes → Option Bytes
  read_file d p =
      if d.refuses open_call p
      then none
      else if d.refuses read_call p
      then none
      else content_of (lookup p d.entries)

  -- `os.Remove`; `none` is an error.
  unfoldable pub os_remove : Disk T → Bytes → Option (Disk T)
  os_remove d p = if d.refuses remove_call p then none else elim (lookup p d.entries) [
    | none ↦ none
    | some _ ↦ some (record d { entries = erase p d.entries })
  ]

  -- `os.OpenFile` with `O_CREATE|O_RDWR`: a missing file is created empty, another one is kept.
  unfoldable pub open_file : Disk T → Bytes → T → Option (Disk T)
  open_file d p now = if d.refuses open_call p then none else elim (lookup p d.entries) [
    | none ↦ some (record d { entries = insert p (regular [] now) d.entries })
    | some (regular _ _) ↦ some d
    | some (directory _ _) ↦ none
  ]

-- The directories above a cleaned path, the outermost first: what stands before each of its slashes.
-- `/` itself is always there.
abbrev with_named : Bytes → List Bytes → List Bytes
with_named [] ps = ps
with_named (c ∷ p) ps = (c ∷ p) ∷ ps

abbrev parents_from : Bytes → Bytes → List Bytes
parents_from before [] = []
parents_from before (c ∷ s) =
    let rest = parents_from (before ++ (c ∷ [])) s in
    if c == b'/' then with_named before rest else rest

abbrev pub parents : Bytes → List Bytes
parents path = parents_from [] path

module _ {T : Type 0} where
  abbrev pub make_dir_at : Disk T → Bytes → T → Option (Entry T) → Disk T
  make_dir_at d p now none = record d { entries = insert p (directory 0 now) d.entries }
  make_dir_at d p now (some _) = d

  abbrev pub make_dir : Disk T → Bytes → T → Disk T
  make_dir d p now = make_dir_at d p now (lookup p d.entries)

  abbrev pub make_dirs : Disk T → List Bytes → T → Disk T
  make_dirs d [] now = d
  make_dirs d (p ∷ ps) now = make_dirs (make_dir d p now) ps now

  -- What `os.MkdirAll` of the directory of a cleaned path makes: each directory above the path where
  -- nothing stands. A disk refuses the call where a file stands in its way.
  unfoldable pub mkdir_all : Disk T → Bytes → T → Disk T
  mkdir_all d path now = make_dirs d (parents path) now

-- The bytes take the place of as many bytes of the old content.
unfoldable pub overwrite : Bytes → Bytes → Bytes
overwrite [] old = old
overwrite (c ∷ b) [] = c ∷ b
overwrite (c ∷ b) (_ ∷ old) = c ∷ overwrite b old

-- The same at an offset; a gap in front is filled with zeros.
unfoldable pub place : ℕ → Bytes → Bytes → Bytes
unfolding overwrite
place zero b old = overwrite b old
place (suc p) b [] = 0 ∷ place p b []
place (suc p) b (x ∷ old) = x ∷ place p b old

-- A write of no bytes changes nothing, also behind the end.
unfoldable pub write_at : ℕ → Bytes → Bytes → Bytes
write_at p [] old = old
write_at p (c ∷ b) old = place p (c ∷ b) old

module _ {T : Type 0} where
  -- A write through an open file at a position; it also sets the modification time.
  unfoldable pub write_open : Disk T → Bytes → ℕ → Bytes → T → Disk T
  write_open d p pos b now = elim (lookup p d.entries) [
    | some (regular old _) ↦ record d {
      entries = insert p (regular (write_at pos b old) now) d.entries;
    }
    | _ ↦ d
  ]
