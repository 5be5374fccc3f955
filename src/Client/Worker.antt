-- ===== src/Client/Worker.antt =====
-- pkg/client/worker.go: `doFileTransferJob`. What the calls of the operating system and of the
-- server answer during the job is given, in the order in which the job asks. The call of
-- `TransferFile` itself reports no error: what goes wrong in its goroutine comes as a notification.
pub mod Decisions
pub mod Progress
use torrxfer.Base.{
  ℕ, ◌+◌, ◌%◌, ◌^◌, Bool, true, false, ◌||◌, List, [], ◌∷◌, ◌++◌, Option, none, some, if◌then◌else◌,
  ◌==◌, ltb, leb, length, take, drop, eq_bytes, min,
}
use torrxfer.Text.{Bytes}
use torrxfer.Platform.{Platform}
use torrxfer.Net.File.{WireFile, get_data_hash, get_remote_size, get_size}
use torrxfer.Net.Sender.{Notification, NotificationType, error_note, bytes_note, closed_note}
use torrxfer.Client.File.{File}
use torrxfer.Client.Connection.{
  ConnectionNotificationType, files_updated, completed, query_error, transfer_error, fatal_error,
  ServerNotification, ServerConnection, record_file, add_bytes,
}

-- `query_reply` is what `QueryFile` returns, and `local_hash` the result of `HashFile`. `opened` is
-- the content of the file, if `os.Open` succeeds. Reading its start for a hash may fail behind
-- some bytes (`broken_at`), and either seek may fail.
pub record Answers : Type 0 where
  pub query_reply : Option WireFile
  pub local_hash : Option Bytes
  pub opened : Option Bytes
  pub broken_at : Option ℕ
  pub seeks_offset : Bool
  pub seeks_start : Bool

-- The connection afterwards, the notifications that were sent, and what is handed to
-- `TransferFile`: the offset, and the bytes from the file's position on.
pub record JobResult (T : Type 0) : Type 0 where
  pub connection : ServerConnection T
  pub notes : List ServerNotification
  pub streamed : Option (ℕ × Bytes)

-- `sendConnectionNotification`
abbrev pub notification : ConnectionNotificationType → ℕ → ℕ → Bool → ServerNotification
notification kind file last has_error = record {
  notification_type = kind;
  has_error = has_error;
  sent_file = file;
  last_sent_size = last;
}

module _ (w : Platform) where
  open w use {Time, sha256}

  -- The file as the job sees it, with the number that stands for its pointer.
  module _ (a : Answers) (id : ℕ) (file : File Time) (s : ServerConnection Time) where
    abbrev hash_or_empty : Option Bytes → Bytes
    hash_or_empty none = []
    hash_or_empty (some h) = h

    -- The offset, the position of the open file, and the notifications, when streaming begins.
    abbrev pub Start : Type 0
    Start = ℕ × ℕ × List ServerNotification

    -- `int64(offset)` of an offset from 2^63 on is negative, and then nothing is read.
    abbrev pub limited : ℕ → Bytes → Bytes
    limited offset content = if ltb offset (2 ^ 63) then take offset content else []

    -- The hash of the start of the file, and the position behind what was read of it.
    abbrev prefix_hash : ℕ → Bytes → Option ℕ → Bytes × ℕ
    prefix_hash offset content none =
        (sha256 (limited offset content), length (limited offset content))
    prefix_hash offset content (some k) = ([], min k (length (limited offset content)))

    abbrev seek_resume : ℕ → ℕ → Start
    seek_resume offset position =
        if a.seeks_offset
        then (offset, offset, [])
        else if a.seeks_start
        then (0, 0, [])
        else (0, position, notification fatal_error id 0 true ∷ [])

    abbrev check_prefix : ℕ → WireFile → Bytes × ℕ → Start
    check_prefix offset remote (hash, position) =
        if eq_bytes hash (get_data_hash remote)
        then seek_resume offset position
        else (offset, position, [])

    unfoldable pub find_start : WireFile → Bytes → Start
    unfolding get_data_hash get_remote_size
    find_start remote content =
        let offset = get_remote_size remote in
        if ltb 0 offset
        then check_prefix offset remote (prefix_hash offset content a.broken_at)
        else if a.seeks_start
        then (0, 0, [])
        else (0, 0, notification fatal_error id 0 true ∷ [])

    abbrev stream_from : Bytes → Start → JobResult Time
    stream_from content (offset, position, notes) = record {
      connection = record_file s file.path id offset;
      notes = notes;
      streamed = some (offset, drop position content);
    }

    abbrev pub open_job : WireFile → Option Bytes → JobResult Time
    open_job remote none = record { connection = s; notes = []; streamed = none }
    open_job remote (some content) = stream_from content (find_start remote content)

    -- The local hash is the server's, or the local size is the size on the server's disk.
    unfoldable pub is_complete : WireFile → Bool
    unfolding get_data_hash get_remote_size
    is_complete remote =
        eq_bytes (hash_or_empty a.local_hash) (get_data_hash remote)
        || file.size == get_remote_size remote

    abbrev pub run_job : Option WireFile → JobResult Time
    run_job none = record {
      connection = s;
      notes = notification query_error id 0 true ∷ [];
      streamed = none;
    }
    run_job (some remote) =
        if is_complete remote
        then record {
          connection = record_file s file.path id (get_size remote);
          notes = notification completed id 0 false ∷ [];
          streamed = none;
        }
        else open_job remote a.opened

    unfoldable pub do_file_transfer_job : JobResult Time
    unfolding is_complete find_start
    do_file_transfer_job = run_job a.query_reply

-- The job begins by setting the file's transfer time.
unfoldable pub prime : {T : Type 0} → T → File T → File T
prime now file = record file { transfer_time = now }

-- Behind the start of the transfer: `io.Copy` from the file into the pipe may fail.
unfoldable pub pipe_notes : ℕ → Bool → List ServerNotification
pipe_notes id true = []
pipe_notes id false = notification transfer_error id 0 true ∷ []

-- One summary of the running transfer.
abbrev pub consume_kind :
    {T : Type 0}
    → ℕ
    → ServerConnection T
    → NotificationType
    → ℕ
    → ServerConnection T × ServerNotification
consume_kind id s error_note n = (s, notification transfer_error id 0 true)
consume_kind id s bytes_note n = (add_bytes s id n, notification files_updated id n false)
consume_kind id s closed_note n = (s, notification completed id 0 false)

-- The goroutine that reads the summaries.
unfoldable pub consume :
    {T : Type 0}
    → ℕ
    → ServerConnection T
    → List Notification
    → ServerConnection T × List ServerNotification
consume id s [] = (s, [])
consume id s (n ∷ ns) =
    let (s', out) = consume_kind id s n.kind n.last_transferred in
    let (s'', outs) = consume id s' ns in (s'', out ∷ outs)
