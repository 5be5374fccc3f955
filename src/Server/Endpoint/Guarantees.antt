-- ===== src/Server/Endpoint/Guarantees.antt =====
-- What the calls of gRPC, the server and the client's job make together.
use torrxfer.Base.{
  ℕ, ◌≡◌, ◌⊎◌, inl, inr, refl, false, List, [], ◌∷◌, none, some, arith, Bool-cases, Option-cases,
}
use torrxfer.Text.{Bytes}
use torrxfer.Platform.{Platform}
use torrxfer.Database.{Database}
use torrxfer.Net.File.{Outcome-cases, done, WireFile, get_remote_size}
use torrxfer.Net.Handler.{
  transfer_error, Reception, block, Selected, Metadata, validate_incoming_request, transfer_file,
  query_file, receive_loop,
}
use torrxfer.Server.State.{Server, is_file_active, transfer_function, close_client}
use torrxfer.Server.Query.Replies.{query_function-remote_size}
use torrxfer.Server.Endpoint.{endpoint}
use torrxfer.Client.File.{File}
use torrxfer.Client.Connection.{ServerConnection, completed}
use torrxfer.Client.Worker.{Answers, notification, do_file_transfer_job, find_start, is_complete}

module _ (w : Platform) (d : Database) where
  open w use {Time}

  -- A stream of a client without an active file is refused at its first block, and leaves the
  -- server as it was.
  pub transfer_file-stranger :
      (md : Metadata) (client b : Bytes) (size offset : ℕ) (meanwhile : Server w d → Server w d)
      (chosen : Selected) (rs : List (Reception (Server w d))) (s : Server w d)
      → validate_incoming_request md ≡ done (some client)
      → is_file_active w d s client ≡ none
      → transfer_file (endpoint w d) md (block b size offset meanwhile chosen ∷ rs) s
        ≡ done (s, some transfer_error)
  unfolding transfer_file endpoint receive_loop transfer_function close_client
  transfer_file-stranger md client b size offset meanwhile chosen rs s v n = rw (v, n, closed) refl
    where
      closed : close_client w d s client ≡ s
      closed = rw n refl

  abbrev with_answer : Answers → WireFile → Bytes → Answers
  with_answer a r content = record a { query_reply = some r; opened = some content }

  query_file-remote_size :
      (e : Time × Time × ℕ) (md : Metadata) (s s' : Server w d) (file r : WireFile)
      → query_file (endpoint w d) e md s file ≡ done (s', some r)
      → get_remote_size r ≡ 0
  unfolding query_file endpoint
  query_file-remote_size (created, modified, n) md s s' file r h =
      elim (Outcome-cases (validate_incoming_request md)) [
        | inl v ↦ absurd (ground arith)
        | inr (none, v) ↦ absurd (ground arith)
        | inr (some client, v) ↦
            (query_function-remote_size w d s s' client file r created modified n (ground arith)).0
      ]

  find_start-zero :
      (a : Answers) (id : ℕ) (file : File Time) (c : ServerConnection Time) (r : WireFile)
      (content : Bytes)
      → get_remote_size r ≡ 0
      → ((find_start w a id file c r content).0 ≡ 0) × ((find_start w a id file c r content).1 ≡ 0)
  unfolding find_start
  find_start-zero a id file c r content h =
      rw h
        (elim (Bool-cases a.seeks_start) [ inl e ↦ rw e (refl, refl) | inr e ↦ rw e (refl, refl) ])

  -- Whatever the server behind the calls replies to the query of a job, the job streams nothing, or
  -- all of the file's content from the offset 0 on: no transfer is continued where one before it
  -- stopped.
  pub never_resumes :
      (e : Time × Time × ℕ) (md : Metadata) (s s' : Server w d) (file r : WireFile) (a : Answers)
      (id : ℕ) (local : File Time) (c : ServerConnection Time)
      → query_file (endpoint w d) e md s file ≡ done (s', some r)
      → a.query_reply ≡ some r
      → ((do_file_transfer_job w a id local c).streamed ≡ none)
        ⊎ ((content : Bytes) × (a.opened ≡ some content)
            × ((do_file_transfer_job w a id local c).streamed ≡ some (0, content)))
  unfolding do_file_transfer_job
  never_resumes e md s s' file r a id local c h k =
      let none_there = query_file-remote_size e md s s' file r h in
      elim (Bool-cases (is_complete w a id local c r)) [
        | inl y ↦ inl (rw (k, y) refl)
        | inr n ↦ elim (Option-cases a.opened) [
          | inl o ↦ inl (rw (k, n, o) refl)
          | inr (content, o) ↦ inr (
            content,
            o,
            rw
                (
                  k,
                  n,
                  o,
                  (find_start-zero (with_answer a r content) id local c r content none_there).0,
                  (find_start-zero (with_answer a r content) id local c r content none_there).1,
                )
                refl,
          )
        ]
      ]

  -- A job for a file of size 0 that gets a reply is reported as completed and streams nothing,
  -- whatever the server behind the calls has of it.
  pub empty_completes :
      (e : Time × Time × ℕ) (md : Metadata) (s s' : Server w d) (file r : WireFile) (a : Answers)
      (id : ℕ) (local : File Time) (c : ServerConnection Time)
      → query_file (endpoint w d) e md s file ≡ done (s', some r)
      → a.query_reply ≡ some r
      → local.size ≡ 0
      → ((do_file_transfer_job w a id local c).streamed ≡ none)
        × ((do_file_transfer_job w a id local c).notes ≡ notification completed id 0 false ∷ [])
  unfolding do_file_transfer_job is_complete
  empty_completes e md s s' file r a id local c h k empty =
      ground (arith, query_file-remote_size e md s s' file r h)
