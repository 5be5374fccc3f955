-- ===== src/Tests/Starts.antt =====
-- The start of a client, and a description in the metadata of a call, at concrete data.
use torrxfer.Base.{ℕ, ◌≡◌, Bool, true, false, some, [], ◌∷◌}
use torrxfer.Text.{Bytes, codes}
use torrxfer.Disk.{Disk, regular}
use torrxfer.Crypto.{Certificates}
use torrxfer.Net.Dial.{ServerConnectionConfig, Transport}
use torrxfer.Net.Metadata.{file, add_file_metadata_to_context, get_file_metadata_from_context}
use torrxfer.Net.Metadata.RoundTrip.{get_file_metadata-add_file_metadata}
use torrxfer.Client.Launch.{ClientConfig}
use torrxfer.Tests.World.{platform}
use torrxfer.Tests.Servers.{asked_file}

-- A file is one block, which is its certificate; none is valid for any host.
abbrev pub certificates : Certificates
certificates = record {
  Certificate = Bytes;
  decode = λ b. some (b, []);
  parse = some;
  verifies = λ c host roots. false;
}

abbrev disk : Disk ℕ
disk = record { entries = (codes "/c.pem", regular (codes "cert") 7) ∷ []; refuses = λ _ _. false }

abbrev conf : ServerConnectionConfig
conf = record { address = codes "h"; port = 9650; use_tls = true; cert_file = codes "/c.pem" }

abbrev dial : Bytes → Transport Bytes → Bool
dial target transport = true

get_file_metadata-add_file_metadata_example :
    get_file_metadata_from_context platform (some (add_file_metadata_to_context asked_file))
    ≡ file (record asked_file { created_time = 0; modified_time = 0; size = 0; size_on_disk = 0 })
get_file_metadata-add_file_metadata_example =
    get_file_metadata-add_file_metadata platform asked_file

abbrev config : ClientConfig
config = record {
  servers = conf ∷ record conf { address = [] } ∷ record conf { use_tls = false } ∷ [];
  watched_directories = record { directory = codes "/m/tv"; media_root = codes "/m" } ∷ [];
  delete_on_complete = false;
}
