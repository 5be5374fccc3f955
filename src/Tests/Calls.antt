-- ===== src/Tests/Calls.antt =====
-- The calls of gRPC at concrete data.
use torrxfer.Base.{
  ◌≡◌, ◌⊎◌, refl, true, false, none, some, List, [], ◌∷◌, ◌++◌, length, lookup, eq_bytes,
  if◌then◌else◌, ltb,
}
use torrxfer.Text.{Bytes, codes}
use torrxfer.Net.File.{done}
use torrxfer.Net.Handler.{
  TorrxferServer, Metadata, validate_incoming_request, ok, query_file, transfer_file,
}
use torrxfer.Net.Handler.Laws.{Block, received, transfer_file-received}
use torrxfer.Server.State.{set_active_file}
use torrxfer.Server.Endpoint.{endpoint}
use torrxfer.Server.Endpoint.Guarantees.{never_resumes, empty_completes}
use torrxfer.Client.Worker.{notification, do_file_transfer_job}
use torrxfer.Client.Connection.{completed}
use torrxfer.Tests.World.{platform, database}
use torrxfer.Tests.Servers.{partial, partial_reply, partial_query, asked_file, resumed}
use torrxfer.Tests.Clients.{local_file, connection, answers}

-- A server that keeps what it is given, up to three blocks.
abbrev keeper : TorrxferServer (Unit {0}) (List Bytes)
keeper = record {
  query_function = λ e s client file. done (s, some file);
  transfer_function =
      λ s client b size offset. if ltb (length s) 3 then (s ++ (b ∷ []), true) else (s, false);
  register_for_write_notification = λ s client. none;
  close = λ s client. s ++ (codes "closed" ∷ []);
}

abbrev pub header : Metadata
header = some ((codes "clientdata", codes "c1" ∷ []) ∷ [])

pub header_client : validate_incoming_request header ≡ done (some (codes "c1"))
unfolding validate_incoming_request lookup eq_bytes
header_client = refl

abbrev two_blocks : List (Block (List Bytes))
two_blocks = (codes "hel", 3, 0, λ s. s) ∷ (codes "lo", 2, 3, λ s. s) ∷ []

transfer_file-received_example :
    transfer_file keeper header (received two_blocks) []
    ≡ done (codes "hel" ∷ codes "lo" ∷ codes "closed" ∷ [], some ok)
transfer_file-received_example =
    transfer_file-received keeper header (codes "c1") two_blocks [] header_client (refl, (refl, tt))

query_file-partial :
    query_file (endpoint platform database) (8, 8, 0) header partial asked_file
    ≡ done (
      set_active_file platform database partial (codes "c1") (codes "hello") resumed,
      some partial_reply,
    )
unfolding query_file endpoint validate_incoming_request lookup eq_bytes
query_file-partial = partial_query

never_resumes_example :
    ((do_file_transfer_job platform answers 0 local_file connection).streamed ≡ none)
    ⊎ ((content : Bytes) × (answers.opened ≡ some content)
        × ((do_file_transfer_job platform answers 0 local_file connection).streamed
            ≡ some (0, content)))
never_resumes_example =
    never_resumes platform database (8, 8, 0) header partial
      (set_active_file platform database partial (codes "c1") (codes "hello") resumed) asked_file
      partial_reply answers 0 local_file connection query_file-partial refl

empty_completes_example :
    ((do_file_transfer_job platform answers 0 (record local_file { size = 0 }) connection).streamed
      ≡ none)
    × ((do_file_transfer_job platform answers 0 (record local_file { size = 0 }) connection).notes
        ≡ notification completed 0 0 false ∷ [])
empty_completes_example =
    empty_completes platform database (8, 8, 0) header partial
      (set_active_file platform database partial (codes "c1") (codes "hello") resumed) asked_file
      partial_reply answers 0 (record local_file { size = 0 }) connection query_file-partial refl
      refl
