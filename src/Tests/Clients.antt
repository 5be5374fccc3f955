-- ===== src/Tests/Clients.antt =====
-- The client at concrete data.
use torrxfer.Base.{
  ℕ, ◌+◌, ◌%◌, ◌^◌, ◌≡◌, ◌≢◌, ◌⊎◌, refl, true, false, none, some, [], ◌∷◌, length, arith,
}
use torrxfer.Text.{codes}
use torrxfer.Net.File.{WireFile, get_data_hash, get_remote_size}
use torrxfer.Net.Sender.{transfer_file}
use torrxfer.Net.Sender.Trace.{sent_bytes}
use torrxfer.Client.File.{File}
use torrxfer.Client.Connection.{
  ServerConnection, completed, record_file, get_file_size_on_server, get_bytes_transferred,
}
use torrxfer.Client.Worker.{Answers, do_file_transfer_job, is_complete, consume, notification}
use torrxfer.Client.Worker.Decisions.{completed_without_streaming}
use torrxfer.Client.Worker.Progress.{consume-transfer_file}
use torrxfer.Tests.World.{platform}
use torrxfer.Tests.Servers.{partial_reply}
use torrxfer.Tests.Streams.{reads, accepts}

abbrev pub local_file : File ℕ
local_file = record {
  path = codes "/home/f";
  media_prefix = [];
  size = 5;
  modified_time = 5;
  watch_time = 6;
  transfer_time = 0;
}

abbrev pub connection : ServerConnection ℕ
connection = record {
  index = 0;
  address = codes "localhost";
  port = 9650;
  connection_time = 1;
  bytes_transferred = 4;
  file_transfer_status = λ _. 0;
  files_transferred = (codes "/home/g", 1) ∷ [];
}

abbrev pub answers : Answers
answers = record {
  query_reply = some partial_reply;
  local_hash = some (codes "hello");
  opened = some (codes "hello");
  broken_at = none;
  seeks_offset = true;
  seeks_start = true;
}

-- The hash of the local file failed, and the server has no hash either.
abbrev hashless_reply : WireFile
hashless_reply = record partial_reply { data_hash = [] }

abbrev hashless : Answers
hashless = record answers { query_reply = some hashless_reply; local_hash = none }

completed_without_streaming_example :
    ((is_complete platform hashless 0 local_file connection hashless_reply ≡ true)
      × ((hashless.local_hash ≡ some (get_data_hash hashless_reply))
          ⊎ ((hashless.local_hash ≡ none) × (get_data_hash hashless_reply ≡ []))
          ⊎ (local_file.size ≡ get_remote_size hashless_reply))
      × ((do_file_transfer_job platform hashless 0 local_file connection).notes
          ≡ notification completed 0 0 false ∷ [])
      × ((do_file_transfer_job platform hashless 0 local_file connection).streamed ≡ none))
    ⊎ ((is_complete platform hashless 0 local_file connection hashless_reply ≡ false)
        × (hashless.local_hash ≢ some (get_data_hash hashless_reply))
        × ¬ ((hashless.local_hash ≡ none) × (get_data_hash hashless_reply ≡ []))
        × (local_file.size ≢ get_remote_size hashless_reply)
        × ((do_file_transfer_job platform hashless 0 local_file connection).notes
            ≢ notification completed 0 0 false ∷ []))
completed_without_streaming_example =
    completed_without_streaming platform hashless 0 local_file connection hashless_reply refl

consume-transfer_file_example :
    (get_file_size_on_server
        (consume 0
          (record_file connection (codes "/home/f") 0 7)
          (transfer_file true reads accepts 7).notes).0
        (codes "/home/f")
      ≡ (7 + length (sent_bytes (transfer_file true reads accepts 7).requests)) % 2 ^ 64)
    × (get_bytes_transferred
          (consume 0
            (record_file connection (codes "/home/f") 0 7)
            (transfer_file true reads accepts 7).notes).0
        ≡ (4 + length (sent_bytes (transfer_file true reads accepts 7).requests)) % 2 ^ 64)
consume-transfer_file_example =
    consume-transfer_file connection (codes "/home/f") 0 7 true reads accepts (omega arith)
      (omega arith)
