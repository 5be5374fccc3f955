-- ===== src/Server/File.antt =====
-- pkg/server/serverfile.go: the fields of `File` that are stored, and their text form. The
-- channels and locks of a `File` belong to its writer thread.
pub mod RoundTrip
use torrxfer.Base.{
  ℕ, Bool, true, false, List, [], ◌∷◌, ◌++◌, Option, none, some, if◌then◌else◌, flatten, ◌>>=◌,
}
use torrxfer.Text.{Bytes, codes, split, trim_space}
use torrxfer.Decimal.{format_uint, parse_uint}
use torrxfer.Platform.{Platform}
use torrxfer.Disk.{Disk}
use torrxfer.Net.File.{Outcome, done, exits, WireFile, new_file, set_media_path}

abbrev pub delimiter : Bytes
delimiter = codes "*?*"

pub record File (T : Type 0) : Type 0 where
  pub full_path : Bytes
  pub media_prefix : Bytes
  pub size : ℕ  -- uint64
  pub current_size : ℕ  -- uint64
  pub creation_time : T
  pub modified_time : T

pub data UnmarshalError : Type 0 where
  bad_tokens bad_number bad_time : UnmarshalError

module _ (w : Platform) where
  open w use {Time, same_time, zero_time, from_unix, marshal_time, unmarshal_time}

  -- The creation time is left empty at the epoch.
  abbrev pub creation_text : Time → Option Bytes
  creation_text t = if same_time t (from_unix 0) then some [] else marshal_time t

  abbrev strings_with : File Time → Option Bytes → Option Bytes → Option (List Bytes)
  strings_with f none modified = none
  strings_with f (some creation) none = none
  strings_with f (some creation) (some modified) = some (
      f.full_path
      ∷ delimiter
      ∷ f.media_prefix
      ∷ delimiter
      ∷ format_uint f.size
      ∷ delimiter
      ∷ format_uint f.current_size
      ∷ delimiter
      ∷ creation
      ∷ delimiter
      ∷ modified
      ∷ [])

  unfoldable pub get_strings : File Time → Option (List Bytes)
  get_strings f = strings_with f (creation_text f.creation_time) (marshal_time f.modified_time)

  -- The strings are copied one behind another; `none` is the error.
  unfoldable pub marshal_text : File Time → Option Bytes
  unfolding get_strings
  marshal_text f = do strings ← get_strings f; some (flatten strings)

  abbrev read_creation : File Time → Option Time → File Time × Option UnmarshalError
  read_creation f none = (record f { creation_time = zero_time }, some bad_time)
  read_creation f (some t) = (record f { creation_time = t }, none)

  abbrev read_times : File Time → Bytes → Option Time → File Time × Option UnmarshalError
  read_times f last none = (record f { modified_time = zero_time }, some bad_time)
  read_times f last (some t) =
      read_creation (record f { modified_time = t }) (unmarshal_time (trim_space last))

  abbrev read_current_size :
      File Time → Bytes → Bytes → Option ℕ → File Time × Option UnmarshalError
  read_current_size f t4 t5 none = (f, some bad_number)
  read_current_size f t4 t5 (some n) =
      read_times (record f { current_size = n }) t5 (unmarshal_time (trim_space t4))

  abbrev read_size :
      File Time → Bytes → Bytes → Bytes → Option ℕ → File Time × Option UnmarshalError
  read_size f t3 t4 t5 none = (f, some bad_number)
  read_size f t3 t4 t5 (some n) =
      read_current_size (record f { size = n }) t4 t5 (parse_uint (trim_space t3))

  -- Token 4 is read as the modification time, and token 5 as the creation time.
  abbrev read_tokens : File Time → List Bytes → File Time × Option UnmarshalError
  read_tokens f (t0 ∷ t1 ∷ t2 ∷ t3 ∷ t4 ∷ t5 ∷ []) =
      read_size (record f { full_path = trim_space t0; media_prefix = trim_space t1 }) t3 t4 t5
        (parse_uint (trim_space t2))
  read_tokens f _ = (f, some bad_tokens)

  unfoldable pub unmarshal_text : File Time → Bytes → File Time × Option UnmarshalError
  unmarshal_text f text = read_tokens f (split text delimiter)

  abbrev with_media : File Time → Outcome WireFile → Outcome WireFile
  with_media f exits = exits
  with_media f (done r) = set_media_path (some r) f.media_prefix

  unfoldable pub generate_rpc_file : Disk Time → File Time → Outcome WireFile
  unfolding new_file set_media_path
  generate_rpc_file d f = with_media f (new_file w d f.full_path)
