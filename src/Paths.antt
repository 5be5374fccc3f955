-- ===== src/Paths.antt =====
-- pkg/common/path.go: `IsSubdir`, `CleanPath` and the decoder of a directory's name.
pub mod Match
pub mod Subdir
use torrxfer.Base.{
  Bool, true, false, ◌||◌, List, [], ◌∷◌, ◌++◌, Option, none, some, eq_bytes, if◌then◌else◌,
}
use torrxfer.Text.{Bytes, codes}
use torrxfer.FilePath.{clean, slash}
use torrxfer.Paths.Match.{match}

-- The pattern for what stands directly in a directory.
abbrev pub children : Bytes → Bytes
children root = clean root ++ (b'/' ∷ b'*' ∷ [])

unfoldable pub is_subdir : Bytes → Bytes → Bool
is_subdir root subdir = eq_bytes (clean root) (clean subdir) || match (children root) subdir

-- What `EvalSymlinks` returns: a path, a `PathError` with its operation and its path, or an error
-- of another type.
pub data Evaluated : Type 0 where
  resolved : Bytes → Evaluated
  path_error : Bytes → Bytes → Evaluated
  other_error : Evaluated

pub data Cleaned : Type 0 where
  cleaned : Bytes → Cleaned
  fails : Cleaned
  -- The error is used as a `PathError` before it is known to be one.
  panics : Cleaned

abbrev of_option : Option Bytes → Cleaned
of_option none = fails
of_option (some p) = cleaned p

-- `absolute` is `filepath.Abs`, which may fail.
unfoldable pub clean_path : (Bytes → Evaluated) → (Bytes → Option Bytes) → Bytes → Cleaned
clean_path eval_symlinks absolute path = elim (eval_symlinks path) [
  | resolved p ↦ of_option (absolute p)
  | path_error op p ↦
      if eq_bytes op (codes "readlink") || eq_bytes op (codes "CreateFile")
      then of_option (absolute p)
      else fails
  | other_error ↦ panics
]

-- `DirectoryDecoder.Decode` for a name, with whether `Stat` finds it: its `Filepath`.
unfoldable pub decode_directory :
    (Bytes → Bool) → (Bytes → Evaluated) → (Bytes → Option Bytes) → Bytes → Cleaned
unfolding clean_path
decode_directory is_there eval_symlinks absolute value =
    if is_there value then clean_path eval_symlinks absolute value else fails
