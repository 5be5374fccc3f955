-- ===== src/Net/Sender.antt =====
-- pkg/net/torrxferserverconnection.go: the goroutine of `TransferFile`, which reads blocks from a
-- pipe and sends them on the stream. What the pipe and the stream answer is given: the results of
-- the calls of `Read`, one behind another, and for each call of `Send` whether it succeeds.
pub mod Trace
use torrxfer.Base.{
  ℕ, zero, suc, ◌+◌, ◌%◌, ◌^◌, Bool, true, false, List, [], ◌∷◌, ◌++◌, if◌then◌else◌, length,
}
use torrxfer.Text.{Bytes}

-- `TransferFileRequest`
pub record Request : Type 0 where
  pub block : Bytes
  pub size : ℕ  -- uint32
  pub offset : ℕ  -- uint64

pub data NotificationType : Type 0 where
  error_note bytes_note closed_note : NotificationType

pub record Notification : Type 0 where
  pub kind : NotificationType
  pub last_transferred : ℕ  -- uint64
  pub current_offset : ℕ  -- uint64

pub data ReadResult : Type 0 where
  got : Bytes → ReadResult
  eof : ReadResult
  read_failed : ReadResult

-- What was sent and notified, and whether the notification channel is closed at the end.
pub record Sending : Type 0 where
  pub requests : List Request
  pub notes : List Notification
  pub channel_closed : Bool

abbrev note : NotificationType → ℕ → ℕ → Notification
note kind last offset = record { kind = kind; last_transferred = last; current_offset = offset }

abbrev request : Bytes → ℕ → Request
request b offset = record { block = b; size = length b % 2 ^ 32; offset = offset }

-- A request went out: `currentOffset += n`, and the new offset is notified.
abbrev pub and_sent : Bytes → ℕ → Sending → Sending
and_sent b offset rest = record rest {
  requests = request b offset ∷ rest.requests;
  notes = note bytes_note (length b) ((offset + length b) % 2 ^ 64) ∷ rest.notes;
}

abbrev stop : NotificationType → ℕ → Sending
stop kind offset = record { requests = []; notes = note kind 0 offset ∷ []; channel_closed = true }

-- The loop; where the given results end the goroutine waits in `Read`, and has not closed yet.
unfoldable pub send_loop : List ReadResult → (ℕ → Bool) → ℕ → ℕ → Sending
send_loop [] accepts k offset = record { requests = []; notes = []; channel_closed = false }
send_loop (eof ∷ _) accepts k offset = stop closed_note offset
send_loop (read_failed ∷ _) accepts k offset = stop error_note offset
send_loop (got b ∷ reads) accepts k offset =
    let rest = send_loop reads accepts (suc k) ((offset + length b) % 2 ^ 64) in
    if accepts k then and_sent b offset rest else stop error_note offset

-- If the stream cannot be opened, the goroutine returns before the channel's `close` is deferred.
unfoldable pub transfer_file : Bool → List ReadResult → (ℕ → Bool) → ℕ → Sending
unfolding send_loop
transfer_file false reads accepts offset = record {
  requests = [];
  notes = note error_note 0 offset ∷ [];
  channel_closed = false;
}
transfer_file true reads accepts offset = send_loop reads accepts 0 offset
