-- ===== src/System/Recovery.antt =====
-- A job for a file whose record on the server cannot be read.
use torrxfer.Base.{ℕ, ◌<◌, ◌≡◌, refl, true, false, [], ◌∷◌, ◌++◌, none, some, arith, length, lookup}
use torrxfer.Text.{Bytes}
use torrxfer.Platform.{Platform}
use torrxfer.Database.{Database, IsLawful}
use torrxfer.Disk.{Disk, regular}
use torrxfer.Net.File.{done, get_data_hash}
use torrxfer.Net.Handler.{Metadata, validate_incoming_request, query_file}
use torrxfer.Server.File.{UnmarshalError, unmarshal_text}
use torrxfer.Server.State.{Server}
use torrxfer.Server.Query.{blank}
use torrxfer.Server.Query.Replies.{query_function_bad_record}
use torrxfer.Server.Endpoint.{endpoint}
use torrxfer.Server.Endpoint.Opening.{IsWilling}
use torrxfer.Client.File.{File}
use torrxfer.Client.Connection.{ServerConnection, query_error}
use torrxfer.Client.Worker.{JobResult, notification, do_file_transfer_job}
use torrxfer.Client.Transfer.{
  ServerTransferJob, TorrxferClient, queue_capacity, enqueue, route, route_all,
}
use torrxfer.System.{answers_on, job_on_server}
use torrxfer.System.Decisions.{asked_for, described-asked_for}

module _ (w : Platform) (d : Database) where
  open w use {Time, sha256}

  route_all-query_error :
      (client : TorrxferClient) (job : ServerTransferJob) (id : ℕ)
      → length client.job_queue < queue_capacity
      → route_all client job (notification query_error id 0 true ∷ [])
        ≡ (record client { job_queue = client.job_queue ++ (job ∷ []) }, true)
  unfolding route_all route enqueue
  route_all-query_error client job id room = ground arith

  -- A client's job asks for a file whose record on the server cannot be read, and the deletion of the
  -- record succeeds. Then the job streams nothing and leaves its connection as it is, what it notifies
  -- queues it again, if the queue has room, and reaches no subscriber; and the server has no record of
  -- the file any more and is as it was otherwise, so that the next query is that for a new file.
  pub recovers :
      (lawful : IsLawful d) (md : Metadata) (c : Bytes) (s : Server w d) (mine : Disk Time)
      (local : File Time) (id : ℕ) (conn : ServerConnection Time) (content : Bytes)
      (stamp created modified : Time) (n : ℕ) (text : Bytes) (error : UnmarshalError)
      (client : TorrxferClient) (queued : ServerTransferJob)
      → validate_incoming_request md ≡ done (some c)
      → IsWilling w d mine
      → lookup local.path mine.entries ≡ some (regular content stamp)
      → d.has s.db (sha256 content) ≡ true
      → d.get s.db (sha256 content) ≡ some text
      → (unmarshal_text w (blank w d) text).1 ≡ some error
      → (d.delete s.db (sha256 content)).1 ≡ true
      → length client.job_queue < queue_capacity
      → (s' : Server w d) × (job : JobResult Time) × (job_on_server w d mine local id conn
            (created, modified, n)
            md
            s
          ≡ done (s', job))
        × (job.streamed ≡ none)
        × (job.connection ≡ conn)
        × (route_all client queued job.notes
            ≡ (record client { job_queue = client.job_queue ++ (queued ∷ []) }, true))
        × (d.has s'.db (sha256 content) ≡ false)
        × (s' ≡ record s { db = s'.db })
  unfolding job_on_server query_file endpoint do_file_transfer_job get_data_hash
  recovers lawful md c s mine local id conn content stamp created modified n text error client
        queued v willing present has found bad deleted room =
      let (s', failed, same, gone) =
        query_function_bad_record w d lawful s c (asked_for w d local content stamp) created
          modified n text error has found bad deleted in
      (
        s',
        do_file_transfer_job w (answers_on w d mine local none) id local conn,
        rw (described-asked_for w d mine local content stamp willing present, v, failed) refl,
        refl,
        refl,
        route_all-query_error client queued id room,
        gone,
        rw same refl,
      )
