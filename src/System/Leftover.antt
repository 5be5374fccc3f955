-- ===== src/System/Leftover.antt =====
-- An upload to a path where something longer stood.
use torrxfer.Base.{
  ℕ, ◌≡◌, ◌≢◌, Bool, true, none, List, ◌∷◌, ◌++◌, some, arith, length, lookup, drop, sym, ap, ◌∙◌,
  ◌<◌, length-append, length-drop,
}
use torrxfer.Text.{Bytes}
use torrxfer.Platform.{Platform}
use torrxfer.Database.{Database}
use torrxfer.Disk.{regular, write_at}
use torrxfer.Disk.Writes.{write_at-start}
use torrxfer.Net.File.{done, WireFile, get_data_hash}
use torrxfer.Net.Sender
use torrxfer.Net.Sender.{ReadResult, got}
use torrxfer.Net.Sender.Trace.{bytes_read, reaches_eof}
use torrxfer.Net.Handler.{Metadata, validate_incoming_request, ok, transfer_file}
use torrxfer.Net.Handler.Laws.{received}
use torrxfer.Server.File.{marshal_text, unmarshal_text}
use torrxfer.Server.Writer.Delivery.{final_file}
use torrxfer.Server.State.{Server, thread_step}
use torrxfer.Server.Query.{path_of, query_function, blank}
use torrxfer.Server.Endpoint.{endpoint}
use torrxfer.Server.Endpoint.Opening.{IsWilling}
use torrxfer.Server.Endpoint.Placed.{twice}
use torrxfer.Server.Endpoint.Upload.{sent_blocks}
use torrxfer.Server.Endpoint.Resumed.{known_file, query_function-resumed, resumed_upload}

longer_differs :
    (content old : Bytes)
    → length content < length old
    → content ++ drop (length content) old ≢ content
longer_differs content old h e =
    let same : length (content ++ drop (length content) old) ≡ length content = ap length e in
    ground (
      arith,
      length-append {0} content (drop (length content) old),
      length-drop {0} (length content) old,
    )

module _ (w : Platform) (d : Database) where
  open w use {Time}

  -- A client asks for a file of which the server has a record that can be read, and what stands at
  -- its path is longer than the file and has another hash. It gets a reply, and then sends the file
  -- from the offset 0 on, to a disk that refuses nothing, over a stream that accepts every request,
  -- with two steps of the new thread before the first block and after it, and one after each later
  -- block and after the end; the new record can be marshalled. Then the call returns without an
  -- error, and the rest of what was there still stands behind the content of the file.
  pub leaves_rest :
      (md : Metadata) (c : Bytes) (s : Server w d) (file : WireFile) (old kept : Bytes)
      (since created modified opened now : Time) (n : ℕ) (b : Bytes) (reads : List ReadResult)
      (accepts : ℕ → Bool) (text : Bytes)
      → validate_incoming_request md ≡ done (some c)
      → IsWilling w d s.disk
      → d.has s.db (get_data_hash file) ≡ true
      → d.get s.db (get_data_hash file) ≡ some kept
      → (unmarshal_text w (blank w d) kept).1 ≡ none
      → lookup (path_of w d s file) s.disk.entries ≡ some (regular old since)
      → w.sha256 old ≢ get_data_hash file
      → length (bytes_read (got b ∷ reads)) < length old
      → reaches_eof reads ≡ true
      → ((j : ℕ) → accepts j ≡ true)
      → marshal_text w
          (final_file w d (known_file w d s file) 0 (length (bytes_read (got b ∷ reads))))
        ≡ some text
      → (r : WireFile) × (s1 : Server w d) × (s2 : Server w d) × (there : Bytes) × (query_function w
            d s c file created modified n
          ≡ done (s1, some r))
        × (transfer_file
              (endpoint w d)
              md
              (received (
                sent_blocks w d
                  (length s.writers)
                  now
                  (Sender.transfer_file true (got b ∷ reads) accepts 0).requests))
              (twice w d (length s.writers) opened s1)
            ≡ done (s2, some ok))
        × (lookup (path_of w d s file) (thread_step w d s2 (length s.writers) now).disk.entries
            ≡ some (regular there now))
        × (there ≡ bytes_read (got b ∷ reads) ++ drop (length (bytes_read (got b ∷ reads))) old)
        × (there ≢ bytes_read (got b ∷ reads))
  leaves_rest md c s file old kept since created modified opened now n b reads accepts text v
        willing has found readable present other longer eof a m =
      let (r, asked, hash) =
        query_function-resumed w d s c file old kept since created modified n has found readable
          willing present other in
      let (s2, returned, up) =
        resumed_upload w d md c s file old since opened now b reads accepts text v willing present
          eof a m in
      let content = bytes_read (got b ∷ reads) in
      (
        r,
        _,
        s2,
        write_at 0 content old,
        asked,
        returned,
        up.written,
        write_at-start content old,
        λ e. absurd (longer_differs content old longer (sym (write_at-start content old) ∙ e)),
      )
