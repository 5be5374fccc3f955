-- ===== src/Tests/Retries.antt =====
-- A job for a file of which the server has something else, at concrete data.
use torrxfer.Base.{ℕ, ◌≡◌, ◌≢◌, refl, true, false, none, some, [], ◌∷◌, lookup, eq_bytes, arith}
use torrxfer.Text.{Bytes, codes, split, trim_space}
use torrxfer.FilePath.{join, base}
use torrxfer.Decimal.{format_uint, parse_uint}
use torrxfer.Disk.{regular, os_stat}
use torrxfer.Net.File.{
  WireFile, done, get_data_hash, get_media_path, get_file_name, get_size, get_creation_time,
}
use torrxfer.Net.Sender
use torrxfer.Net.Handler
use torrxfer.Net.Handler.{ok}
use torrxfer.Net.Handler.Laws.{received}
use torrxfer.Server.File.{bad_tokens, marshal_text, unmarshal_text}
use torrxfer.Server.Writer.Delivery.{final_file}
use torrxfer.Server.State.{Server, thread_step, get_full_server_file_path}
use torrxfer.Server.Query.{path_of, blank, query_function}
use torrxfer.Server.Endpoint.{endpoint}
use torrxfer.Server.Endpoint.Placed.{twice}
use torrxfer.Server.Endpoint.Upload.{sent_blocks}
use torrxfer.Server.Endpoint.Resumed.{known_file}
use torrxfer.Client.Worker.{JobResult}
use torrxfer.System.{job_on_server}
use torrxfer.Client.Transfer.{ServerTransferJob, TorrxferClient, route_all}
use torrxfer.System.Recovery.{recovers}
use torrxfer.System.Leftover.{leaves_rest}
use torrxfer.Tests.World.{platform, database, database-IsLawful}
use torrxfer.Tests.Calls.{header, header_client}
use torrxfer.Tests.Clients.{connection}
use torrxfer.Tests.Streams.{reads}
use torrxfer.Tests.Servers.{partial}
use torrxfer.Tests.Systems.{mine, local, asked, lookup-mine}

partial_readable :
    (unmarshal_text platform (blank platform database) (codes "/srv/f*?**?*5*?*2*?*5*?*5")).1 ≡ none
unfolding unmarshal_text split trim_space parse_uint
partial_readable = refl

-- A server on which another file, which is longer, stands at the path.
abbrev longer : Server platform database
longer = record partial {
  disk = record {
    entries = (codes "/srv/f", regular (codes "0123456789") 7) ∷ [];
    refuses = λ _ _. false;
  };
}

lookup-longer :
    lookup (path_of platform database longer asked) longer.disk.entries
    ≡ some (regular (codes "0123456789") 7)
unfolding lookup eq_bytes get_full_server_file_path get_media_path get_file_name join base
lookup-longer = refl

longer_text :
    marshal_text platform
      (final_file platform database (known_file platform database longer asked) 0 5)
    ≡ some (codes "/srv/f*?**?*5*?*5*?*3*?*7")
unfolding marshal_text format_uint get_full_server_file_path get_media_path get_file_name get_size
    get_creation_time join base os_stat lookup eq_bytes
longer_text = refl

longer_differs : platform.sha256 (codes "0123456789") ≢ get_data_hash asked
unfolding get_data_hash
longer_differs e = ground arith

has-longer : database.has longer.db (get_data_hash asked) ≡ true
unfolding get_data_hash lookup eq_bytes
has-longer = refl

kept-longer :
    database.get longer.db (get_data_hash asked) ≡ some (codes "/srv/f*?**?*5*?*2*?*5*?*5")
unfolding get_data_hash lookup eq_bytes
kept-longer = refl

leaves_rest_example :
    (r : WireFile) × (s1 : Server platform database) × (s2 : Server platform database)
    × (there : Bytes) × (query_function platform database longer (codes "c1") asked 6 6 0
        ≡ done (s1, some r))
    × (Handler.transfer_file
          (endpoint platform database)
          header
          (received (
            sent_blocks platform database 0 9
              (Sender.transfer_file true reads (λ _. true) 0).requests))
          (twice platform database 0 8 s1)
        ≡ done (s2, some ok))
    × (lookup
          (path_of platform database longer asked)
          (thread_step platform database s2 0 9).disk.entries
        ≡ some (regular there 9))
    × (there ≡ codes "hello56789")
    × (there ≢ codes "hello")
leaves_rest_example =
    leaves_rest platform database header (codes "c1") longer asked (codes "0123456789")
      (codes "/srv/f*?**?*5*?*2*?*5*?*5") 7 6 6 8 9 0 _ _ (λ _. true)
      (codes "/srv/f*?**?*5*?*5*?*3*?*7") header_client (λ call p. refl) has-longer kept-longer
      partial_readable lookup-longer longer_differs (omega arith) refl (λ j. refl) longer_text

-- A server whose record of the file has too few tokens.
abbrev broken : Server platform database
broken = record partial { db = (codes "hello", codes "/srv/f") ∷ [] }

broken_bad :
    (unmarshal_text platform (blank platform database) (codes "/srv/f")).1 ≡ some bad_tokens
unfolding unmarshal_text split trim_space
broken_bad = refl

abbrev retried : ServerTransferJob
retried = record { id = 8; server = 1; file = 0 }

abbrev waiting_client : TorrxferClient
waiting_client = record {
  connections = 1 ∷ [];
  notification_channels = [] ∷ [];
  job_queue = [];
  delete_on_complete = false;
  removed = [];
  touched = [];
}

recovers_example :
    (s' : Server platform database) × (job : JobResult ℕ) × (job_on_server platform database mine
        local 0 connection
        (6, 6, 0)
        header
        broken
      ≡ done (s', job))
    × (job.streamed ≡ none)
    × (job.connection ≡ connection)
    × (route_all waiting_client retried job.notes
        ≡ (record waiting_client { job_queue = retried ∷ [] }, true))
    × (database.has s'.db (codes "hello") ≡ false)
    × (s' ≡ record broken { db = s'.db })
unfolding lookup eq_bytes
recovers_example =
    recovers platform database database-IsLawful header (codes "c1") broken mine local 0 connection
      (codes "hello") 3 6 6 0 (codes "/srv/f") bad_tokens waiting_client retried header_client
      (λ call p. refl) lookup-mine refl refl broken_bad refl (omega arith)
