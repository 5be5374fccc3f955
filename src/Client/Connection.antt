-- ===== src/Client/Connection.antt =====
-- pkg/client/connection.go: `ServerConnection` and the notifications about it. A `*File` is the
-- number of its file; `none` is the nil pointer.
pub mod Laws
use torrxfer.Base.{
  ℕ, ◌+◌, ◌%◌, ◌^◌, Bool, true, false, List, [], ◌∷◌, ◌++◌, Option, none, some, if◌then◌else◌, ◌==◌,
  length, replicate, lookup, insert, map,
}
use torrxfer.Text.{Bytes, codes}
use torrxfer.Platform.{Platform}

pub data ConnectionNotificationType : Type 0 where
  connected disconnected files_updated completed query_error transfer_error fatal_error :
      ConnectionNotificationType

-- The display strings; there is none for a fatal error.
abbrev pub connection_notification_string : ConnectionNotificationType → Option Bytes
connection_notification_string connected = some (codes "Connected")
connection_notification_string disconnected = some (codes "Disconnected")
connection_notification_string files_updated = some (codes "File Updated")
connection_notification_string query_error = some (codes "Query Error")
connection_notification_string transfer_error = some (codes "Transfer Error")
connection_notification_string completed = some (codes "Completed")
connection_notification_string fatal_error = none

pub record ServerNotification : Type 0 where
  pub notification_type : ConnectionNotificationType
  pub has_error : Bool
  pub sent_file : ℕ
  pub last_sent_size : ℕ  -- uint64

-- `file_transfer_status` is read as 0 at a key that is not there, as a Go map is.
pub record ServerConnection (T : Type 0) : Type 0 where
  pub index : ℕ  -- uint16
  pub address : Bytes
  pub port : ℕ  -- uint32
  pub connection_time : T
  pub bytes_transferred : ℕ  -- uint64
  pub file_transfer_status : Option ℕ → ℕ
  pub files_transferred : List (Bytes × ℕ)

abbrev pub with_status : (Option ℕ → ℕ) → ℕ → ℕ → Option ℕ → ℕ
with_status status file n none = status none
with_status status file n (some g) = if file == g then n else status (some g)

abbrev pub file_of : Bytes × ℕ → Option ℕ
file_of (path, file) = some file

module _ {T : Type 0} where
  unfoldable pub new_server_connection : ℕ → Bytes → ℕ → T → ServerConnection T
  new_server_connection index address port now = record {
    index = index;
    address = address;
    port = port;
    connection_time = now;
    bytes_transferred = 0;
    file_transfer_status = λ _. 0;
    files_transferred = [];
  }

  -- Both maps are set for a file.
  unfoldable pub record_file : ServerConnection T → Bytes → ℕ → ℕ → ServerConnection T
  record_file s path file n = record s {
    files_transferred = insert path file s.files_transferred;
    file_transfer_status = with_status s.file_transfer_status file n;
  }

  -- A notification of `n` bytes.
  unfoldable pub add_bytes : ServerConnection T → ℕ → ℕ → ServerConnection T
  add_bytes s file n = record s {
    bytes_transferred = (s.bytes_transferred + n) % 2 ^ 64;
    file_transfer_status =
        with_status s.file_transfer_status file ((s.file_transfer_status (some file) + n) % 2 ^ 64);
  }

  unfoldable pub get_index : ServerConnection T → ℕ
  get_index s = s.index

  unfoldable pub get_address : ServerConnection T → Bytes
  get_address s = s.address

  unfoldable pub get_port : ServerConnection T → ℕ
  get_port s = s.port

  unfoldable pub get_connection_time : ServerConnection T → T
  get_connection_time s = s.connection_time

  unfoldable pub get_bytes_transferred : ServerConnection T → ℕ
  get_bytes_transferred s = s.bytes_transferred

  unfoldable pub get_file_size_on_server : ServerConnection T → Bytes → ℕ
  get_file_size_on_server s filename = s.file_transfer_status (lookup filename s.files_transferred)

  -- `make([]*File, n)` holds n nil pointers, and the files are appended behind these.
  unfoldable pub get_files_transferred : ServerConnection T → List (Option ℕ)
  get_files_transferred s =
      replicate (length s.files_transferred) none ++ map file_of s.files_transferred
