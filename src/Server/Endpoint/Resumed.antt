-- ===== src/Server/Endpoint/Resumed.antt =====
-- A query for a file of which the server has something else than all of it, and the upload after it.
use mathlib.Core.Path.{subst}
use torrxfer.Base.{
  ℕ, ◌≡◌, ◌≢◌, refl, ap, Bool, true, false, List, ◌∷◌, none, some, arith, lookup, length, eq_bytes,
  eq_bytes_iff,
}
use torrxfer.Disk.Directories.{mkdir_all-keeps}
use torrxfer.Text.{Bytes}
use torrxfer.Platform.{Platform}
use torrxfer.Database.{Database}
use torrxfer.Disk.{
  Disk, mkdir_call, mkdir_all, open_call, write_call, seek_call, regular, os_stat, open_file,
}
use torrxfer.FilePath.{dir}
use torrxfer.Net.File.{done, WireFile, get_data_hash}
use torrxfer.Net.Sender
use torrxfer.Net.Sender.{ReadResult, got}
use torrxfer.Net.Sender.Trace.{bytes_read, reaches_eof}
use torrxfer.Net.Handler.{Metadata, validate_incoming_request, ok, transfer_file}
use torrxfer.Net.Handler.Laws.{received}
use torrxfer.Server.File.{File, marshal_text, unmarshal_text}
use torrxfer.Server.Writer.{Machine, ready, waiting, writer_step}
use torrxfer.Server.Writer.Delivery.{IsWaiting, final_file}
use torrxfer.Server.State.{Server, new_writer, set_active_file, thread_step}
use torrxfer.Server.Query.{query_function, path_of, found_record, blank}
use torrxfer.Server.Endpoint.{endpoint}
use torrxfer.Server.Endpoint.Placed.{IsAt, thread_step-IsAt, twice}
use torrxfer.Server.Endpoint.Upload.{IsUploaded, sent_blocks, uploaded}
use torrxfer.Server.Endpoint.Opening.{
  IsWilling, mkdir_all-IsWilling, new_machine, set_active_file-IsAt,
}
use torrxfer.Server.Endpoint.Again.{generate_rpc_file-regular}

module _ (w : Platform) (d : Database) where
  open w use {Time, sha256}

  -- What the server knows of the file, with what stands on its disk.
  abbrev pub known_file : Server w d → WireFile → File Time
  known_file s file = found_record w d s file (os_stat s.disk (path_of w d s file))

  -- The file is made active for the client, and the reply has the hash of what is there.
  pub query_function-resumed :
      (s : Server w d) (c : Bytes) (file : WireFile) (old text : Bytes)
      (stamp created modified : Time) (n : ℕ)
      → d.has s.db (get_data_hash file) ≡ true
      → d.get s.db (get_data_hash file) ≡ some text
      → (unmarshal_text w (blank w d) text).1 ≡ none
      → IsWilling w d s.disk
      → lookup (path_of w d s file) s.disk.entries ≡ some (regular old stamp)
      → sha256 old ≢ get_data_hash file
      → (r : WireFile) × (query_function w d s c file created modified n
          ≡ done (set_active_file w d s c (get_data_hash file) (known_file s file), some r))
        × (get_data_hash r ≡ sha256 old)
  unfolding query_function get_data_hash
  query_function-resumed s c file old text stamp created modified n has found readable willing
        present other =
      let (r, e, h) =
        generate_rpc_file-regular w d s.disk (known_file s file) old stamp willing present in
      (r, rw (has, found, readable, e, h, differ) refl, h)
    where
      differ : eq_bytes (sha256 old) file.data_hash ≡ false
      differ = ground (arith, eq_bytes_iff (sha256 old) file.data_hash)

  -- The new thread when it waits on a file that was there.
  abbrev resumed_machine : Disk Time → d.State → File Time → Bytes → Time → Machine w d
  resumed_machine disk db f key now = record {
    writer = record (new_writer f key) { phase = waiting };
    disk = mkdir_all disk f.full_path now;
    db = db;
  }

  new_machine-resumed_machine :
      (disk : Disk Time) (db : d.State) (f : File Time) (key old : Bytes) (stamp now : Time)
      → IsWilling w d disk
      → lookup f.full_path disk.entries ≡ some (regular old stamp)
      → writer_step w d (writer_step w d (new_machine w d disk db f key) now) now
        ≡ resumed_machine disk db f key now
  unfolding writer_step open_file
  new_machine-resumed_machine disk db f key old stamp now willing e =
      ap (λ m. writer_step w d m now) opened
    where
      opened :
          writer_step w d (new_machine w d disk db f key) now
          ≡ record (resumed_machine disk db f key now) {
            writer = record (new_writer f key) { phase = ready };
          }
      opened =
          rw
            (
              willing mkdir_call (dir f.full_path),
              mkdir_all-IsWilling w d disk f.full_path now willing open_call f.full_path,
              mkdir_all-keeps disk f.full_path f.full_path now (regular old stamp) e,
            )
            refl

  resumed_machine-IsAt :
      (s : Server w d) (c key old : Bytes) (f : File Time) (stamp opened : Time)
      → IsWilling w d s.disk
      → lookup f.full_path s.disk.entries ≡ some (regular old stamp)
      → IsAt w d c
          (length s.writers)
          (resumed_machine s.disk s.db f key opened)
          (twice w d (length s.writers) opened (set_active_file w d s c key f))
  resumed_machine-IsAt s c key old f stamp opened willing e =
      let at1 =
        thread_step-IsAt w d c (length s.writers) _ _ opened (set_active_file-IsAt w d s c key f) in
      let at2 = thread_step-IsAt w d c (length s.writers) _ _ opened at1 in
      subst
        (λ m.
          IsAt w d c (length s.writers) m
            (twice w d (length s.writers) opened (set_active_file w d s c key f)))
        (new_machine-resumed_machine s.disk s.db f key old stamp opened willing e) at2

  resumed_machine-IsWaiting :
      (disk : Disk Time) (db : d.State) (f : File Time) (key old : Bytes) (stamp opened : Time)
      → lookup f.full_path disk.entries ≡ some (regular old stamp)
      → IsWaiting w d old stamp (resumed_machine disk db f key opened)
  resumed_machine-IsWaiting disk db f key old stamp opened e = record {
    phase = refl;
    once_done = refl;
    pending = refl;
    closed = refl;
    done_sent = refl;
    present = mkdir_all-keeps disk f.full_path f.full_path opened (regular old stamp) e;
  }

  -- The upload from the offset 0 on that follows such a query.
  pub resumed_upload :
      (md : Metadata) (c : Bytes) (s : Server w d) (file : WireFile) (old : Bytes)
      (stamp opened now : Time) (b : Bytes) (reads : List ReadResult) (accepts : ℕ → Bool)
      (text : Bytes)
      → validate_incoming_request md ≡ done (some c)
      → IsWilling w d s.disk
      → lookup (path_of w d s file) s.disk.entries ≡ some (regular old stamp)
      → reaches_eof reads ≡ true
      → ((j : ℕ) → accepts j ≡ true)
      → marshal_text w (final_file w d (known_file s file) 0 (length (bytes_read (got b ∷ reads))))
        ≡ some text
      → (s' : Server w d) × (transfer_file
            (endpoint w d)
            md
            (received (
              sent_blocks w d
                (length s.writers)
                now
                (Sender.transfer_file true (got b ∷ reads) accepts 0).requests))
            (twice w d
              (length s.writers)
              opened
              (set_active_file w d s c (get_data_hash file) (known_file s file)))
          ≡ done (s', some ok))
        × IsUploaded w d c
            (length s.writers)
            (resumed_machine s.disk s.db (known_file s file) (get_data_hash file) opened)
            0
            old
            (bytes_read (got b ∷ reads))
            now
            text
            (thread_step w d s' (length s.writers) now)
  resumed_upload md c s file old stamp opened now b reads accepts text v willing e eof a m =
      let f = known_file s file in
      uploaded w d md c (length s.writers)
        (resumed_machine s.disk s.db f (get_data_hash file) opened) _ b reads accepts 0 old stamp
        now text v (resumed_machine-IsAt s c (get_data_hash file) old f stamp opened willing e)
        (resumed_machine-IsWaiting s.disk s.db f (get_data_hash file) old stamp opened e)
        (mkdir_all-IsWilling w d s.disk f.full_path opened willing write_call f.full_path)
        (mkdir_all-IsWilling w d s.disk f.full_path opened willing seek_call f.full_path)
        (omega arith) eof a m
