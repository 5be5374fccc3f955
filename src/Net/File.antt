-- ===== src/Net/File.antt =====
-- pkg/net/file.go: `RPCFile`, a wrapper around the message `File` of proto/server.proto.
use torrxfer.Base.{◌≡◌, ◌⊎◌, inl, inr, refl, ℕ, ◌%◌, ◌^◌, [], Option, none, some}
use torrxfer.Text.{Bytes}
use torrxfer.Platform.{Platform}
use torrxfer.FilePath.{base}
use torrxfer.Disk.{Disk, Stat, found, not_exist, stat_failed, os_stat, read_file}

-- `log.Fatal` ends the process.
pub data Outcome {ℓ} (A : Type ℓ) : Type ℓ where
  done : A → Outcome A
  exits : Outcome A

pub record WireFile : Type 0 where
  pub name : Bytes
  pub data_hash : Bytes
  pub media_directory : Bytes
  pub created_time : ℕ  -- uint64
  pub modified_time : ℕ  -- uint64
  pub size : ℕ  -- uint64
  pub size_on_disk : ℕ  -- uint64

module _ (w : Platform) where
  open w use {Time, zero_time, from_unix, unix, sha256}

  -- The message of `NewFile`; the field `SizeOnDisk` is not given, and so it is 0.
  abbrev pub describe : Bytes → Bytes → Time → ℕ → WireFile
  describe path hash modtime size = record {
    name = base path;
    data_hash = hash;
    media_directory = [];
    created_time = unix modtime;
    modified_time = unix modtime;
    size = size;
    size_on_disk = 0;
  }

  abbrev describe_found : Bytes → Option Bytes → Time → ℕ → Outcome WireFile
  describe_found path none modtime size = exits
  describe_found path (some b) modtime size =
      done (describe path (sha256 b) modtime (size % 2 ^ 64))

  abbrev describe_stat : Disk Time → Bytes → Stat Time → Outcome WireFile
  describe_stat d path (found size modtime _) = describe_found path (read_file d path) modtime size
  describe_stat d path not_exist = done (describe path [] (from_unix 0) 0)
  describe_stat d path stat_failed = done (describe path [] zero_time 0)

  unfoldable pub new_file : Disk Time → Bytes → Outcome WireFile
  new_file d path = describe_stat d path (os_stat d path)

  unfoldable pub get_creation_time : WireFile → Time
  get_creation_time f = from_unix f.created_time

  unfoldable pub get_modified_time : WireFile → Time
  get_modified_time f = from_unix f.modified_time

-- The wrapped pointer may be nil.
unfoldable pub set_media_path : Option WireFile → Bytes → Outcome WireFile
set_media_path none dir = exits
set_media_path (some f) dir = done (record f { media_directory = dir })

unfoldable pub get_file_name : WireFile → Bytes
get_file_name f = f.name

unfoldable pub get_size : WireFile → ℕ
get_size f = f.size

unfoldable pub get_remote_size : WireFile → ℕ
get_remote_size f = f.size_on_disk

unfoldable pub get_data_hash : WireFile → Bytes
get_data_hash f = f.data_hash

unfoldable pub get_media_path : WireFile → Bytes
get_media_path f = f.media_directory

pub Outcome-cases {ℓ} : {A : Type ℓ} (o : Outcome A) → (o ≡ exits) ⊎ ((a : A) × (o ≡ done a))
Outcome-cases exits = inl refl
Outcome-cases (done a) = inr (a, refl)
