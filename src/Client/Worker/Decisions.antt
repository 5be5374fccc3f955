-- ===== src/Client/Worker/Decisions.antt =====
-- What a transfer job does with the server's answer.
use torrxfer.Base.{
  ℕ, ◌^◌, ◌<◌, ◌≤◌, ◌≡◌, ◌≢◌, ◌⊎◌, inl, inr, true, false, [], ◌∷◌, none, some, arith, length, drop,
  length-take, eq_bytes_iff, Option-cases,
}
use torrxfer.Text.{Bytes}
use torrxfer.Platform.{Platform}
use torrxfer.Net.File.{WireFile, get_data_hash, get_remote_size}
use torrxfer.Client.File.{File}
use torrxfer.Client.Connection.{ServerConnection, completed, query_error, record_file}
use torrxfer.Client.Worker.{Answers, notification, is_complete, do_file_transfer_job}

module _ (w : Platform) where
  open w use {Time}

  module _ (a : Answers) (id : ℕ) (file : File Time) (s : ServerConnection Time) where
    -- When the server says that it has `n` bytes, fewer than the file, and the file can be opened,
    -- read and sought in, the file is streamed from the offset `n` on, whether or not the hash of
    -- its first `n` bytes is the server's.
    pub resumes_at_offset :
        (remote : WireFile) (content : Bytes)
        → a.query_reply ≡ some remote
        → a.opened ≡ some content
        → a.broken_at ≡ none
        → a.seeks_offset ≡ true
        → is_complete w a id file s remote ≡ false
        → 0 < get_remote_size remote
        → get_remote_size remote ≤ length content
        → get_remote_size remote < 2 ^ 63
        → ((do_file_transfer_job w a id file s).streamed
            ≡ some (get_remote_size remote, drop (get_remote_size remote) content))
          × ((do_file_transfer_job w a id file s).notes ≡ [])
    unfolding do_file_transfer_job
    resumes_at_offset remote content r o b k c pos le small =
        ground (arith, length-take {0} (get_remote_size remote) content)

    -- When the server says that it has none of the file and the job cannot be skipped, the whole
    -- file is streamed from the offset 0 if the file can be opened and sought in.
    pub streams_all :
        (remote : WireFile) (content : Bytes)
        → a.query_reply ≡ some remote
        → a.opened ≡ some content
        → a.seeks_start ≡ true
        → is_complete w a id file s remote ≡ false
        → get_remote_size remote ≡ 0
        → ((do_file_transfer_job w a id file s).streamed ≡ some (0, content))
          × ((do_file_transfer_job w a id file s).notes ≡ [])
          × ((do_file_transfer_job w a id file s).connection ≡ record_file s file.path id 0)
    unfolding do_file_transfer_job
    streams_all remote content r o k c z = ground arith

    -- A query that fails leads to one notification of a query error, to no streaming, and leaves
    -- the connection as it was. If the file cannot be opened there is no notification at all.
    pub do_file_transfer_job_failed :
        (a.query_reply ≡ none)
          ⊎ ((remote : WireFile) × (a.query_reply ≡ some remote)
              × (is_complete w a id file s remote ≡ false)
              × (a.opened ≡ none))
        → ((do_file_transfer_job w a id file s).streamed ≡ none)
          × ((do_file_transfer_job w a id file s).connection ≡ s)
          × (((do_file_transfer_job w a id file s).notes ≡ [])
              ⊎ ((a.query_reply ≡ none)
                  × ((do_file_transfer_job w a id file s).notes
                      ≡ notification query_error id 0 true ∷ [])))
    unfolding do_file_transfer_job
    do_file_transfer_job_failed (inl r) = ground arith
    do_file_transfer_job_failed (inr (remote, r, c, o)) = ground arith

    -- A job is notified as completed, without any byte being streamed, exactly if the server's hash is
    -- the local one, or it is empty and the local hash failed, or the size of the local file is the
    -- size on the server's disk. In every other case its notifications are others.
    pub completed_without_streaming :
        (remote : WireFile)
        → a.query_reply ≡ some remote
        → (is_complete w a id file s remote ≡ true)
            × ((a.local_hash ≡ some (get_data_hash remote))
                ⊎ ((a.local_hash ≡ none) × (get_data_hash remote ≡ []))
                ⊎ (file.size ≡ get_remote_size remote))
            × ((do_file_transfer_job w a id file s).notes ≡ notification completed id 0 false ∷ [])
            × ((do_file_transfer_job w a id file s).streamed ≡ none)
          ⊎ (is_complete w a id file s remote ≡ false)
            × (a.local_hash ≢ some (get_data_hash remote))
            × ¬ ((a.local_hash ≡ none) × (get_data_hash remote ≡ []))
            × (file.size ≢ get_remote_size remote)
            × ((do_file_transfer_job w a id file s).notes ≢ notification completed id 0 false ∷ [])
    unfolding do_file_transfer_job is_complete
    completed_without_streaming remote r = elim (Option-cases a.local_hash) [
      | inl e ↦ rw (e, r) (ground (arith, eq_bytes_iff [] (get_data_hash remote)))
      | inr (h, e) ↦ rw (e, r) (ground (arith, eq_bytes_iff h (get_data_hash remote)))
    ]
