-- ===== src/Client/File.antt =====
-- pkg/client/clientfile.go: the client's `File`, its text form, and the media prefix.
pub mod Laws
use torrxfer.Base.{
  ℕ, ◌%◌, ◌^◌, Bool, true, false, List, [], ◌∷◌, ◌++◌, Option, none, some, if◌then◌else◌, flatten,
  get_elem?, ◌>>=◌,
}
use torrxfer.Text.{Bytes, codes, split, trim_space, has_prefix, trim_prefix}
use torrxfer.Decimal.{format_uint, parse_uint}
use torrxfer.Platform.{Platform}
use torrxfer.FilePath.{dir}
use torrxfer.Disk.{Disk, Stat, found, not_exist, stat_failed, os_stat}
use torrxfer.Net.File.{Outcome, done, exits, WireFile, new_file, set_media_path}

abbrev pub delimiter : Bytes
delimiter = codes "*?*"

pub record File (T : Type 0) : Type 0 where
  pub path : Bytes
  pub media_prefix : Bytes
  pub size : ℕ  -- uint64
  pub modified_time : T
  pub watch_time : T
  pub transfer_time : T

-- The media prefix over the two cleaned paths, where `CleanPath` may fail.
unfoldable pub generate_media_prefix : Option Bytes → Option Bytes → Option Bytes
generate_media_prefix root path = do
  root' ← root
  path' ← path
  if has_prefix (dir path') root' then some (trim_prefix (dir path') root') else none

-- How `UnmarshalText` ends: with no error, with an error and the fields set so far, or by a panic.
pub data Unmarshalled (T : Type 0) : Type 0 where
  parsed : File T → Unmarshalled T
  failed : File T → Unmarshalled T
  panics : Unmarshalled T

module _ (w : Platform) where
  open w use {Time, same_time, zero_time, from_unix, marshal_time, unmarshal_time}

  abbrev or_empty : Option Bytes → Bytes
  or_empty none = []
  or_empty (some s) = s

  -- `NewClientFile` over the cleaned root and path: a prefix that cannot be made is empty.
  abbrev client_file_of : Bytes → Bytes → Stat Time → Option (File Time)
  client_file_of path prefix (found size modtime _) = some (record {
    path = path;
    media_prefix = prefix;
    size = size % 2 ^ 64;
    modified_time = modtime;
    watch_time = from_unix 0;
    transfer_time = from_unix 0;
  })
  client_file_of path prefix not_exist = none
  client_file_of path prefix stat_failed = none

  unfoldable pub new_client_file : Disk Time → Option Bytes → Option Bytes → Option (File Time)
  unfolding generate_media_prefix
  new_client_file disk root path = do
    path' ← path
    client_file_of path' (or_empty (generate_media_prefix root path)) (os_stat disk path')

  -- A time other than the epoch is written as the text of `written`.
  abbrev time_text : Time → Time → Option Bytes
  time_text t written = if same_time t (from_unix 0) then some [] else marshal_time written

  -- The transfer time is written as the text of the watch time.
  unfoldable pub get_strings : File Time → Option (List Bytes)
  get_strings f = do
    modified ← marshal_time f.modified_time
    watched ← time_text f.watch_time f.watch_time
    transferred ← time_text f.transfer_time f.watch_time
    some (
        f.path
        ∷ delimiter
        ∷ f.media_prefix
        ∷ delimiter
        ∷ format_uint f.size
        ∷ delimiter
        ∷ modified
        ∷ delimiter
        ∷ watched
        ∷ delimiter
        ∷ transferred
        ∷ [])

  unfoldable pub marshal_text : File Time → Option Bytes
  unfolding get_strings
  marshal_text f = do strings ← get_strings f; some (flatten strings)

  abbrev or_epoch : Option Time → Time
  or_epoch none = from_unix 0
  or_epoch (some t) = t

  -- An index that is out of range panics.
  abbrev read_transfer : File Time → Option Bytes → Unmarshalled Time
  read_transfer f none = panics
  read_transfer f (some t6) =
      parsed (record f { transfer_time = or_epoch (unmarshal_time (trim_space t6)) })

  abbrev read_watch : File Time → Option Bytes → Option Bytes → Unmarshalled Time
  read_watch f none t6 = panics
  read_watch f (some t5) t6 =
      read_transfer (record f { watch_time = or_epoch (unmarshal_time (trim_space t5)) }) t6

  abbrev read_modified : File Time → Option Bytes → Option Bytes → Option Time → Unmarshalled Time
  read_modified f t5 t6 none = failed (record f { modified_time = zero_time })
  read_modified f t5 t6 (some t) = read_watch (record f { modified_time = t }) t5 t6

  abbrev read_size : File Time → Bytes → Option Bytes → Option Bytes → Option ℕ → Unmarshalled Time
  read_size f t4 t5 t6 none = failed f
  read_size f t4 t5 t6 (some n) =
      read_modified (record f { size = n }) t5 t6 (unmarshal_time (trim_space t4))

  -- Any other number of tokens than six is a panic of the log. The tokens 4, 5 and 6 are read.
  abbrev read_tokens : File Time → List Bytes → Unmarshalled Time
  read_tokens f (t0 ∷ t1 ∷ t2 ∷ t3 ∷ t4 ∷ t5 ∷ []) =
      let ts = t0 ∷ t1 ∷ t2 ∷ t3 ∷ t4 ∷ t5 ∷ [] in
      read_size (record f { path = trim_space t0; media_prefix = trim_space t1 }) t4
        (get_elem? ts 5) (get_elem? ts 6) (parse_uint (trim_space t2))
  read_tokens f _ = panics

  unfoldable pub unmarshal_text : File Time → Bytes → Unmarshalled Time
  unmarshal_text f text = read_tokens f (split text delimiter)

  abbrev with_media : File Time → Outcome WireFile → Outcome WireFile
  with_media f exits = exits
  with_media f (done r) = set_media_path (some r) f.media_prefix

  unfoldable pub generate_rpc_file : Disk Time → File Time → Outcome WireFile
  unfolding set_media_path
  generate_rpc_file d f = with_media f (new_file w d f.path)
