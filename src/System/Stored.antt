-- ===== src/System/Stored.antt =====
-- What the upload of a new file leaves behind on the server, for whoever asks next.
use torrxfer.Base.{ℕ, ◌≡◌, ◌≢◌, refl, true, false, List, ◌∷◌, some, length, ap, Bool}
use torrxfer.Text.{Bytes}
use torrxfer.Platform.{Platform, IsRfc3339}
use torrxfer.Database.{Database, IsLawful}
use torrxfer.Net.File.{done, WireFile, get_data_hash}
use torrxfer.Net.Sender
use torrxfer.Net.Sender.{ReadResult, got}
use torrxfer.Net.Sender.Trace.{bytes_read, reaches_eof}
use torrxfer.Net.Handler.{Metadata, validate_incoming_request, ok, transfer_file}
use torrxfer.Net.Handler.Laws.{received}
use torrxfer.Server.File.{File, marshal_text}
use torrxfer.Server.File.RoundTrip.{IsStorable, unmarshal_text-marshal_text}
use torrxfer.Server.Writer.Delivery.{final_file}
use torrxfer.Server.State.{Server, thread_step, set_active_file, get_full_server_file_path}
use torrxfer.Server.Query.{query_function, path_of, new_record, blank}
use torrxfer.Server.Endpoint.{endpoint}
use torrxfer.Server.Endpoint.Opening.{IsWilling, query_function-started}
use torrxfer.Server.Endpoint.Placed.{twice}
use torrxfer.Server.Endpoint.Upload.{sent_blocks}
use torrxfer.Server.Endpoint.NewFile.{HasStored, new_file_stored}
use torrxfer.Server.Endpoint.Settled.{
  IsSettled, thread_step-IsSettled, twice-IsSettled, transfer_file-IsSettled,
}
use torrxfer.Server.Endpoint.Again.{query_function-stored}

module _ (w : Platform) (d : Database) where
  open w use {Time, from_unix, sha256}

  query_function-IsSettled :
      (s s' : Server w d) (c : Bytes) (file r : WireFile) (created modified : Time)
      → d.has s.db (get_data_hash file) ≡ false
      → IsWilling w d s.disk
      → query_function w d s c file created modified 0 ≡ done (s', some r)
      → IsSettled w d s.server_root_dir s'
  unfolding set_active_file
  query_function-IsSettled s s' c file r created modified new willing h =
      let (disk, db, gone, willing', e) =
        query_function-started w d s s' c file r created modified new willing h in
      rw e (record { at_root = refl; willing = willing' })

  path_of-settled :
      (s t : Server w d) (file : WireFile)
      → IsSettled w d s.server_root_dir t
      → path_of w d t file ≡ path_of w d s file
  unfolding get_full_server_file_path
  path_of-settled s t file v = rw v.at_root refl

  -- A server that has stored a file with a record that can be read replies with the file's hash to
  -- whoever asks for it.
  pub HasStored-reply :
      (law : IsRfc3339 w) (lawful : IsLawful d) (s t : Server w d) (i : ℕ) (c : Bytes)
      (file : WireFile) (f : File Time) (content : Bytes) (now created modified : Time) (n : ℕ)
      (text : Bytes)
      → IsSettled w d s.server_root_dir t
      → HasStored w d i (get_data_hash file) (path_of w d s file) content now text t
      → ((db : d.State) (v : Bytes) → (d.put db (get_data_hash file) v).1 ≡ true)
      → f.creation_time ≢ from_unix 0
      → IsStorable f
      → marshal_text w f ≡ some text
      → sha256 content ≡ get_data_hash file
      → (r : WireFile) × (query_function w d t c file created modified n ≡ done (t, some r))
        × (get_data_hash r ≡ get_data_hash file)
  HasStored-reply law lawful s t i c file f content now created modified n text v stored puts later
        storable m same =
      let (db, e) = stored.stored in
      query_function-stored w d t c file content text now created modified n
        (rw e (lawful.has-put db (get_data_hash file) text (puts db text)))
        (rw e (lawful.get-put db (get_data_hash file) text (puts db text)))
        (ap (λ x. x.1) (unmarshal_text-marshal_text w law f (blank w d) text storable later m))
        v.willing (rw (path_of-settled s t file v) stored.written) same

  -- Where the upload of a new file leaves the server.
  pub new_file_stored-IsSettled :
      (md : Metadata) (c : Bytes) (s s' : Server w d) (file r : WireFile)
      (created modified opened now : Time) (b : Bytes) (reads : List ReadResult)
      (accepts : ℕ → Bool) (text : Bytes)
      → validate_incoming_request md ≡ done (some c)
      → d.has s.db (get_data_hash file) ≡ false
      → IsWilling w d s.disk
      → query_function w d s c file created modified 0 ≡ done (s', some r)
      → reaches_eof reads ≡ true
      → ((j : ℕ) → accepts j ≡ true)
      → marshal_text w (
          final_file w d
            (new_record w d s file created modified)
            0
            (length (bytes_read (got b ∷ reads))))
        ≡ some text
      → (s'' : Server w d) × (transfer_file
            (endpoint w d)
            md
            (received (
              sent_blocks w d
                (length s.writers)
                now
                (Sender.transfer_file true (got b ∷ reads) accepts 0).requests))
            (twice w d (length s.writers) opened s')
          ≡ done (s'', some ok))
        × HasStored w d
            (length s.writers)
            (get_data_hash file)
            (path_of w d s file)
            (bytes_read (got b ∷ reads))
            now
            text
            (thread_step w d s'' (length s.writers) now)
        × IsSettled w d s.server_root_dir (thread_step w d s'' (length s.writers) now)
  new_file_stored-IsSettled md c s s' file r created modified opened now b reads accepts text v new
        willing h eof a m =
      let i = length s.writers in
      let (s'', returned, there) =
        new_file_stored w d md c s s' file r created modified opened now b reads accepts text v new
          willing h eof a m in
      (
        s'',
        returned,
        there,
        thread_step-IsSettled w d s.server_root_dir s'' i now (
            transfer_file-IsSettled w d s.server_root_dir md i now _ _ s'' _
              (twice-IsSettled w d s.server_root_dir i opened s'
                (query_function-IsSettled s s' c file r created modified new willing h))
              returned),
      )
