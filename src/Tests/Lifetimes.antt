-- ===== src/Tests/Lifetimes.antt =====
-- The start and the end of a server, at concrete data.
use torrxfer.Base.{◌≡◌, ◌⊎◌, refl, true, false, none, some, [], ◌∷◌}
use torrxfer.Text.{Bytes, codes}
use torrxfer.Net.File.{done, exits}
use torrxfer.Server.Writer.{waiting}
use torrxfer.Server.State.{Server}
use torrxfer.Server.Startup.{ServerConfig, Environment, has_credentials, run_server}
use torrxfer.Server.Startup.Launch.{started, db_path, run_server_lem}
use torrxfer.Db.{Global}
use torrxfer.Tests.World.{Table, platform, database, pogreb}
use torrxfer.Tests.Writers.{disk, in_phase}

abbrev client : Bytes
client = codes "c1"

-- The client's writer waits.
abbrev server : Server platform database
server = record {
  active_files = (client, 0) ∷ [];
  writers = (in_phase waiting).writer ∷ [];
  server_root_dir = codes "/srv";
  disk = disk;
  db = [];
}

abbrev environment : Environment
environment = record {
  listens = λ _. true;
  is_missing = λ _. false;
  loads_credentials = λ cert key. true;
  temp_dir = codes "/tmp";
}

abbrev conf : ServerConfig
conf = record { port = 9650; save_dir = codes "/srv"; db_dir = codes "/var/torrxfer" }

abbrev before : Global Table
before = record { ran = false; singleton = none }

run_server_lem_example :
    ((g' : Global Table) × (db : Table) × (run_server pogreb platform environment before disk conf
          true
          (codes "ca")
          (codes "key")
        ≡ done (g', started pogreb platform disk conf db))
      × (environment.listens conf.port ≡ true)
      × (true ≡ true → has_credentials environment (codes "ca") (codes "key") ≡ true)
      × (pogreb.open_at (db_path pogreb platform environment conf) ≡ some db))
    ⊎ ((run_server pogreb platform environment before disk conf true (codes "ca") (codes "key")
          ≡ exits)
        × ((environment.listens conf.port ≡ false)
            ⊎ ((true ≡ true) × (has_credentials environment (codes "ca") (codes "key") ≡ false))
            ⊎ (pogreb.open_at (db_path pogreb platform environment conf) ≡ none)))
run_server_lem_example =
    run_server_lem pogreb platform environment before disk conf true (codes "ca") (codes "key") refl

-- A server that has an old file at the path and no record of it.
abbrev pub empty : Server platform database
empty = record server { active_files = []; writers = [] }
