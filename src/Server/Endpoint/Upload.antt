-- ===== src/Server/Endpoint/Upload.antt =====
-- A whole upload: the client's sender, the call of gRPC, the server and its writer thread.
use torrxfer.Base.{
  append_assoc, append-nil, ℕ, ◌^◌, ◌<◌, ◌≡◌, Bool, true, false, List, [], ◌∷◌, ◌++◌, some, length,
  lookup, get_elem?,
}
use torrxfer.Text.{Bytes}
use torrxfer.Platform.{Platform}
use torrxfer.Database.{Database}
use torrxfer.Disk.{regular, write_at, write_call, seek_call}
use torrxfer.Net.File.{done}
use torrxfer.Net.Sender
use torrxfer.Net.Sender.{Request, ReadResult, got}
use torrxfer.Net.Sender.Trace.{
  sent_bytes, bytes_read, reaches_eof, transfer_file-closed, transfer_file-first,
}
use torrxfer.Net.Handler.{Metadata, validate_incoming_request, ok, transfer_file}
use torrxfer.Net.Handler.Laws.{Block, received, play, AreAccepted, transfer_file-received}
use torrxfer.Server.File.{File, marshal_text}
use torrxfer.Server.Writer.{Machine, Writer, writer_step}
use torrxfer.Server.Writer.Schedule.{transfer, close, tick, handle}
use torrxfer.Server.Writer.Delivery.{IsWaiting, final_file}
use torrxfer.Server.Writer.Completion.{IsCopying, IsStored, transferred, finished, first_block}
use torrxfer.Server.State.{Server, transfer_function, close_client, thread_step}
use torrxfer.Server.Endpoint.{endpoint}
use torrxfer.Server.Endpoint.Placed.{
  IsAt, thread_step-IsAt, transfer_function-IsAt, close_client-IsAt, once, twice,
}

module _ (w : Platform) (d : Database) where
  open w use {Time}

  -- The sender's requests as blocks of the call.
  abbrev pub later_blocks : ℕ → Time → List Request → List (Block (Server w d))
  later_blocks i now [] = []
  later_blocks i now (r ∷ rs) = (r.block, r.size, r.offset, once w d i now) ∷ later_blocks i now rs

  abbrev pub sent_blocks : ℕ → Time → List Request → List (Block (Server w d))
  sent_blocks i now [] = []
  sent_blocks i now (r ∷ rs) = (r.block, r.size, r.offset, twice w d i now) ∷ later_blocks i now rs

  module _ (c : Bytes) (i : ℕ) (f : File Time) (key : Bytes) (db : d.State) (o : ℕ) (old : Bytes)
      (now : Time) where
    -- The server while the writer copies.
    abbrev Copies : Bytes → Time → Machine w d → Server w d → Type 0
    Copies copied stamp m s = IsAt w d c i m s × IsCopying w d f key db o old copied stamp m

    later_block :
        (copied : Bytes) (stamp : Time) (m : Machine w d) (s : Server w d) (b : Bytes) (n : ℕ)
        → Copies copied stamp m s
        → ((transfer_function w d s c b n).1 ≡ true)
          × Copies
              (copied ++ b)
              now
              (handle w d (handle w d m (transfer b n)) (tick now))
              (once w d i now (transfer_function w d s c b n).0)
    unfolding handle
    later_block copied stamp m s b n (v, k) =
        let (accepted, at) = transfer_function-IsAt w d c i m s b n v k.pending in
        (
          accepted,
          (
            thread_step-IsAt w d c i (handle w d m (transfer b n)) (transfer_function w d s c b n).0
                now at,
            transferred w d f key db o old now m b n k,
          ),
        )

    later_run :
        (rs : List Request) (copied : Bytes) (m : Machine w d) (s : Server w d)
        → Copies copied now m s
        → AreAccepted (endpoint w d) c (later_blocks i now rs) s
          × ((m' : Machine w d) × Copies
                (copied ++ sent_bytes rs)
                now
                m'
                (play (endpoint w d) c (later_blocks i now rs) s))
    unfolding endpoint
    later_run [] copied m s k = (tt, (m, rw (append-nil copied) k))
    later_run (r ∷ rs) copied m s k =
        let (accepted, copies) = later_block copied now m s r.block r.offset k in
        let (more, (m', end)) = later_run rs (copied ++ r.block) _ _ copies in
        ((accepted, more), (m', rw (← append_assoc copied r.block (sent_bytes rs)) end))

    closed_run :
        (copied text : Bytes) (m : Machine w d) (s : Server w d)
        → Copies copied now m s
        → marshal_text w (final_file w d f o (length copied)) ≡ some text
        → (m' : Machine w d) × IsAt w d c i m' (once w d i now (close_client w d s c))
          × IsStored w d f key db o old copied now text m'
    unfolding handle
    closed_run copied text m s (v, k) h = (
      handle w d (handle w d m close) (tick now),
      thread_step-IsAt w d c i (handle w d m close) (close_client w d s c) now
          (close_client-IsAt w d c i m s v k.pending),
      finished w d f key db o old now m k h,
    )

  -- What stands on the server after an upload, once the writer has seen the end of the pipe: the
  -- file with the bytes from the offset on over its old content, its record in the database, and a
  -- message that the writer is done.
  pub record IsUploaded (c : Bytes) (i : ℕ) (m : Machine w d) (o : ℕ) (old content : Bytes)
      (now : Time) (text : Bytes) (s : Server w d) : Type 0 where
    pub written :
        lookup m.writer.file.full_path s.disk.entries ≡ some (regular (write_at o content old) now)
    pub stored : s.db ≡ (d.put m.db m.writer.db_key text).0
    pub reported : (x : Writer Time) × (get_elem? s.writers i ≡ some x) × (x.done_sent ≡ true)

  IsStored-IsUploaded :
      (c : Bytes) (i : ℕ) (m m' : Machine w d) (o : ℕ) (old content : Bytes) (now : Time)
      (text : Bytes) (s : Server w d)
      → IsAt w d c i m' s
      → IsStored w d m.writer.file m.writer.db_key m.db o old content now text m'
      → IsUploaded c i m o old content now text s
  IsStored-IsUploaded c i m m' o old content now text s v k = record {
    written = rw v.disk k.written;
    stored = rw v.db k.stored;
    reported = (m'.writer, v.writer, k.done_sent);
  }

  -- The call over the blocks of some requests.
  requests-IsUploaded :
      (md : Metadata) (c : Bytes) (i : ℕ) (m : Machine w d) (s : Server w d) (r : Request)
      (rs : List Request) (old : Bytes) (stamp now : Time) (text : Bytes)
      → validate_incoming_request md ≡ done (some c)
      → IsAt w d c i m s
      → IsWaiting w d old stamp m
      → m.disk.refuses write_call m.writer.file.full_path ≡ false
      → m.disk.refuses seek_call m.writer.file.full_path ≡ false
      → r.offset < 2 ^ 63
      → marshal_text w (final_file w d m.writer.file r.offset (length (sent_bytes (r ∷ rs))))
        ≡ some text
      → (s' : Server w d) × (transfer_file
            (endpoint w d)
            md
            (received (sent_blocks i now (r ∷ rs)))
            s
          ≡ done (s', some ok))
        × IsUploaded c i m r.offset old (sent_bytes (r ∷ rs)) now text (thread_step w d s' i now)
  unfolding handle endpoint
  requests-IsUploaded md c i m s r rs old stamp now text v at waits may_write may_seek small h =
      let (accepted, at1) = transfer_function-IsAt w d c i m s r.block r.offset at waits.pending in
      let s1 = (transfer_function w d s c r.block r.offset).0 in
      let m1 = handle w d m (transfer r.block r.offset) in
      let at2 = thread_step-IsAt w d c i m1 s1 now at1 in
      let at3 =
        thread_step-IsAt w d c i (writer_step w d m1 now) (thread_step w d s1 i now) now at2 in
      let copies =
        first_block w d m old stamp now r.block r.offset waits may_write may_seek small in
      let (more, (m', end)) =
        later_run c i m.writer.file m.writer.db_key m.db r.offset old now rs r.block _ _
          (at3, copies) in
      let (m'', at', stored) =
        closed_run c i m.writer.file m.writer.db_key m.db r.offset old now
          (r.block ++ sent_bytes rs) text m' _ end h in
      (
        close_client w d (play (endpoint w d) c (sent_blocks i now (r ∷ rs)) s) c,
        transfer_file-received (endpoint w d) md c (sent_blocks i now (r ∷ rs)) s v
            (accepted, more),
        IsStored-IsUploaded c i m m'' r.offset old (r.block ++ sent_bytes rs) now text _ at' stored,
      )

  -- A client's sender reads a file to its end, in at least one block, and sends it from the offset
  -- `o` on over a stream that accepts every request. The server has a writer for the client that
  -- waits, over a disk that refuses neither the seek nor a write, and takes a step after each block
  -- and after the end. Then the call returns without an error, and the server has the whole file
  -- from `o` on, its record, and the writer's report.
  pub uploaded :
      (md : Metadata) (c : Bytes) (i : ℕ) (m : Machine w d) (s : Server w d) (b : Bytes)
      (reads : List ReadResult) (accepts : ℕ → Bool) (o : ℕ) (old : Bytes) (stamp now : Time)
      (text : Bytes)
      → validate_incoming_request md ≡ done (some c)
      → IsAt w d c i m s
      → IsWaiting w d old stamp m
      → m.disk.refuses write_call m.writer.file.full_path ≡ false
      → m.disk.refuses seek_call m.writer.file.full_path ≡ false
      → o < 2 ^ 63
      → reaches_eof reads ≡ true
      → ((j : ℕ) → accepts j ≡ true)
      → marshal_text w (final_file w d m.writer.file o (length (bytes_read (got b ∷ reads))))
        ≡ some text
      → (s' : Server w d) × (transfer_file
            (endpoint w d)
            md
            (received
              (sent_blocks i now (Sender.transfer_file true (got b ∷ reads) accepts o).requests))
            s
          ≡ done (s', some ok))
        × IsUploaded c i m o old (bytes_read (got b ∷ reads)) now text (thread_step w d s' i now)
  unfolding endpoint
  uploaded md c i m s b reads accepts o old stamp now text v at waits may_write may_seek small e a
        h =
      let all = (transfer_file-closed (got b ∷ reads) accepts o e a).0 in
      let first = transfer_file-first b reads accepts o (a 0) in
      rw (← all, first)
        (requests-IsUploaded md c i m s _ _ old stamp now text v at waits may_write may_seek small
          (rw (← all, first) at h))
