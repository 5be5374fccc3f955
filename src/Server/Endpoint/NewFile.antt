-- ===== src/Server/Endpoint/NewFile.antt =====
-- A query for a file that the server does not have, and the upload that follows it.
use torrxfer.Base.{
  ℕ, ◌≡◌, refl, Bool, true, false, List, [], ◌∷◌, some, arith, length, lookup, get_elem?,
}
use torrxfer.Text.{Bytes}
use torrxfer.Platform.{Platform}
use torrxfer.Database.{Database}
use torrxfer.Disk.{write_call, seek_call, regular}
use torrxfer.Disk.Writes.{write_at-empty}
use torrxfer.Net.File.{done, WireFile, get_data_hash}
use torrxfer.Net.Sender
use torrxfer.Net.Sender.{ReadResult, got}
use torrxfer.Net.Sender.Trace.{bytes_read, reaches_eof}
use torrxfer.Net.Handler.{Metadata, validate_incoming_request, ok, transfer_file}
use torrxfer.Net.Handler.Laws.{received}
use torrxfer.Server.File.{marshal_text}
use torrxfer.Server.Writer.{Machine, Writer}
use torrxfer.Server.Writer.Delivery.{final_file}
use torrxfer.Server.State.{Server, thread_step}
use torrxfer.Server.Query.{query_function, path_of, new_record}
use torrxfer.Server.Endpoint.{endpoint}
use torrxfer.Server.Endpoint.Placed.{twice}
use torrxfer.Server.Endpoint.Upload.{IsUploaded, sent_blocks, uploaded}
use torrxfer.Server.Endpoint.Opening.{
  IsWilling, mkdir_all-IsWilling, waiting_machine, waiting_machine-IsWaiting, query_function-IsAt,
}

module _ (w : Platform) (d : Database) where
  open w use {Time}

  -- The file has the content, the writer has said that it is done, and the record is in the
  -- database.
  pub record HasStored (i : ℕ) (key path content : Bytes) (now : Time) (text : Bytes)
      (s : Server w d) : Type 0 where
    pub written : lookup path s.disk.entries ≡ some (regular content now)
    pub stored : (db : d.State) × (s.db ≡ (d.put db key text).0)
    pub reported : (x : Writer Time) × (get_elem? s.writers i ≡ some x) × (x.done_sent ≡ true)

  IsUploaded-HasStored :
      (c : Bytes) (i : ℕ) (m : Machine w d) (content : Bytes) (now : Time) (text : Bytes)
      (s : Server w d)
      → IsUploaded w d c i m 0 [] content now text s
      → HasStored i m.writer.db_key m.writer.file.full_path content now text s
  IsUploaded-HasStored c i m content now text s u = record {
    written = rw (u.written, write_at-empty content) refl;
    stored = (m.db, u.stored);
    reported = u.reported;
  }

  -- A client asks for a file that the server does not have, and gets a reply. The disk refuses
  -- nothing, and the new thread makes its file and waits before the client, which has read its whole
  -- file in at least one block, sends it over a stream that accepts every request; the thread takes
  -- a step after each block and after the end. Then the call returns without an error, and the
  -- server has exactly the content at the file's path, whatever was there before, the record under
  -- the hash that was asked for, and the writer's report.
  pub new_file_stored :
      (md : Metadata) (c : Bytes) (s s' : Server w d) (file r : WireFile)
      (created modified opened now : Time) (b : Bytes) (reads : List ReadResult)
      (accepts : ℕ → Bool) (text : Bytes)
      → validate_incoming_request md ≡ done (some c)
      → d.has s.db (get_data_hash file) ≡ false
      → IsWilling w d s.disk
      → query_function w d s c file created modified 0 ≡ done (s', some r)
      → reaches_eof reads ≡ true
      → ((j : ℕ) → accepts j ≡ true)
      → marshal_text w (
          final_file w d
            (new_record w d s file created modified)
            0
            (length (bytes_read (got b ∷ reads))))
        ≡ some text
      → (s'' : Server w d) × (transfer_file
            (endpoint w d)
            md
            (received (
              sent_blocks w d
                (length s.writers)
                now
                (Sender.transfer_file true (got b ∷ reads) accepts 0).requests))
            (twice w d (length s.writers) opened s')
          ≡ done (s'', some ok))
        × HasStored
            (length s.writers)
            (get_data_hash file)
            (path_of w d s file)
            (bytes_read (got b ∷ reads))
            now
            text
            (thread_step w d s'' (length s.writers) now)
  new_file_stored md c s s' file r created modified opened now b reads accepts text v new willing h
        eof a m =
      let (disk, db, willing', at) =
        query_function-IsAt w d s s' c file r created modified opened new willing h in
      let f = new_record w d s file created modified in
      let (s'', returned, there) =
        uploaded w d md c (length s.writers)
          (waiting_machine w d disk db f (get_data_hash file) opened) _ b reads accepts 0 [] opened
          now text v at (waiting_machine-IsWaiting w d disk db f (get_data_hash file) opened)
          (mkdir_all-IsWilling w d disk f.full_path opened willing' write_call f.full_path)
          (mkdir_all-IsWilling w d disk f.full_path opened willing' seek_call f.full_path)
          (omega arith) eof a m in
      (s'', returned, IsUploaded-HasStored c (length s.writers) _ _ now text _ there)
