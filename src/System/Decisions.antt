-- ===== src/System/Decisions.antt =====
-- What a job asks of the server, and what it does with the reply.
use torrxfer.Base.{
  ℕ, ◌≡◌, ◌≢◌, refl, false, [], ◌∷◌, none, some, arith, length, lookup, ◌%◌, ◌^◌, eq_bytes_refl,
  eq_bytes_iff,
}
use torrxfer.Text.{Bytes}
use torrxfer.Platform.{Platform}
use torrxfer.Database.{Database}
use torrxfer.Disk.{Disk, regular}
use torrxfer.Crypto.{hash_file}
use torrxfer.Net.File.{
  done, WireFile, describe, new_file, set_media_path, get_data_hash, get_remote_size,
}
use torrxfer.Net.Dial.{described}
use torrxfer.Net.Handler.{Metadata, validate_incoming_request, query_file}
use torrxfer.Server.State.{Server}
use torrxfer.Server.Query.{query_function}
use torrxfer.Server.Query.Replies.{query_function-remote_size}
use torrxfer.Server.Endpoint.{endpoint}
use torrxfer.Server.Endpoint.Opening.{IsWilling}
use torrxfer.Server.Endpoint.Again.{os_stat-regular, read_file-regular}
use torrxfer.Client.File.{File}
use torrxfer.Client.Connection.{ServerConnection, completed}
use torrxfer.Client.Worker.{JobResult, notification, do_file_transfer_job, is_complete}
use torrxfer.Client.Worker.Decisions.{streams_all}
use torrxfer.System.{answers_on, job_on_server}

module _ (w : Platform) (d : Database) where
  open w use {Time, sha256}

  -- The message that describes a file of the client.
  abbrev pub asked_for : File Time → Bytes → Time → WireFile
  asked_for local content stamp =
      record (describe w local.path (sha256 content) stamp (length content % 2 ^ 64)) {
        media_directory = local.media_prefix;
      }

  module _ (mine : Disk Time) (local : File Time) (content : Bytes) (stamp : Time)
      (willing : IsWilling w d mine)
      (present : lookup local.path mine.entries ≡ some (regular content stamp)) where
    pub described-asked_for :
        described w local.media_prefix (new_file w mine local.path)
        ≡ done (asked_for local content stamp)
    unfolding new_file set_media_path
    described-asked_for =
        rw
          (
            os_stat-regular w d mine local.path content stamp willing present,
            read_file-regular w d mine local.path content stamp willing present,
          )
          refl

    -- The reply reaches the job.
    pub job_on_server-replied :
        (created modified : Time) (n : ℕ) (md : Metadata) (c : Bytes) (id : ℕ)
        (conn : ServerConnection Time) (s s' : Server w d) (r : WireFile)
        → validate_incoming_request md ≡ done (some c)
        → query_function w d s c (asked_for local content stamp) created modified n
          ≡ done (s', some r)
        → job_on_server w d mine local id conn (created, modified, n) md s
          ≡ done (s', do_file_transfer_job w (answers_on w d mine local (some r)) id local conn)
    unfolding job_on_server query_file endpoint
    job_on_server-replied created modified n md c id conn s s' r v h =
        rw (described-asked_for, v, h) refl

    local_hash_lem : hash_file w mine local.path ≡ some (sha256 content)
    unfolding hash_file
    local_hash_lem = rw (read_file-regular w d mine local.path content stamp willing present) refl

    -- For a reply with another hash all of a file is streamed, unless the file is empty.
    pub do_file_transfer_job-streams :
        (id : ℕ) (conn : ServerConnection Time) (r : WireFile)
        → get_remote_size r ≡ 0
        → sha256 content ≢ get_data_hash r
        → local.size ≢ 0
        → ((do_file_transfer_job w (answers_on w d mine local (some r)) id local conn).streamed
            ≡ some (0, content))
          × ((do_file_transfer_job w (answers_on w d mine local (some r)) id local conn).notes ≡ [])
    unfolding is_complete
    do_file_transfer_job-streams id conn r none_there other has_bytes =
        let (streamed, quiet, recorded) =
          streams_all w (answers_on w d mine local (some r)) id local conn r content refl
            (read_file-regular w d mine local.path content stamp willing present) refl incomplete
            none_there in
        (streamed, quiet)
      where
        incomplete : is_complete w (answers_on w d mine local (some r)) id local conn r ≡ false
        incomplete =
            rw local_hash_lem (ground (arith, eq_bytes_iff (sha256 content) (get_data_hash r)))

    -- For a reply with the hash of the file nothing is streamed: the job is completed.
    pub do_file_transfer_job-completes :
        (id : ℕ) (conn : ServerConnection Time) (r : WireFile)
        → get_data_hash r ≡ sha256 content
        → ((do_file_transfer_job w (answers_on w d mine local (some r)) id local conn).streamed
            ≡ none)
          × ((do_file_transfer_job w (answers_on w d mine local (some r)) id local conn).notes
              ≡ notification completed id 0 false ∷ [])
    unfolding do_file_transfer_job is_complete
    do_file_transfer_job-completes id conn r h =
        rw (local_hash_lem, h, eq_bytes_refl (sha256 content)) (refl, refl)

  -- A job that gets a reply with another hash than the file's, and one that gets the file's.
  pub job-streams :
      (md : Metadata) (c : Bytes) (s s1 : Server w d) (mine : Disk Time) (local : File Time)
      (id : ℕ) (conn : ServerConnection Time) (content : Bytes) (stamp created modified : Time)
      (n : ℕ) (r : WireFile)
      → validate_incoming_request md ≡ done (some c)
      → IsWilling w d mine
      → lookup local.path mine.entries ≡ some (regular content stamp)
      → local.size ≢ 0
      → sha256 content ≢ get_data_hash r
      → query_function w d s c (asked_for local content stamp) created modified n
        ≡ done (s1, some r)
      → (job : JobResult Time) × (job_on_server w d mine local id conn (created, modified, n) md s
          ≡ done (s1, job))
        × (job.streamed ≡ some (0, content))
  job-streams md c s s1 mine local id conn content stamp created modified n r v willing present
        has_bytes other asked =
      (
        do_file_transfer_job w (answers_on w d mine local (some r)) id local conn,
        job_on_server-replied mine local content stamp willing present created modified n md c id
            conn s s1 r v asked,
        (do_file_transfer_job-streams mine local content stamp willing present id conn r
            (query_function-remote_size w d s s1 c (asked_for local content stamp) r created
              modified n asked).0
            other has_bytes).0,
      )

  pub job-completes :
      (md : Metadata) (c : Bytes) (s : Server w d) (mine : Disk Time) (local : File Time) (id : ℕ)
      (conn : ServerConnection Time) (content : Bytes) (stamp created modified : Time) (n : ℕ)
      (r : WireFile)
      → validate_incoming_request md ≡ done (some c)
      → IsWilling w d mine
      → lookup local.path mine.entries ≡ some (regular content stamp)
      → query_function w d s c (asked_for local content stamp) created modified n ≡ done (s, some r)
      → get_data_hash r ≡ sha256 content
      → (job : JobResult Time) × (job_on_server w d mine local id conn (created, modified, n) md s
          ≡ done (s, job))
        × (job.streamed ≡ none)
        × (job.notes ≡ notification completed id 0 false ∷ [])
  job-completes md c s mine local id conn content stamp created modified n r v willing present asked
        same =
      let (none_streamed, completes) =
        do_file_transfer_job-completes mine local content stamp willing present id conn r same in
      (
        do_file_transfer_job w (answers_on w d mine local (some r)) id local conn,
        job_on_server-replied mine local content stamp willing present created modified n md c id
            conn s s r v asked,
        none_streamed,
        completes,
      )
