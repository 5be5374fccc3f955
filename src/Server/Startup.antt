-- ===== src/Server/Startup.antt =====
-- pkg/server/server.go: `RunServer`, from its arguments to a server that takes calls, and what it
-- does when a signal has come. pkg/common/conf.go: the configuration.
pub mod Shutdown
pub mod Launch
use torrxfer.Base.{
  ℕ, Bool, true, false, ◌&&◌, not, List, [], ◌∷◌, Option, none, some, if◌then◌else◌, eq_bytes,
}
use torrxfer.Text.{Bytes, codes}
use torrxfer.Platform.{Platform}
use torrxfer.Disk.{Disk}
use torrxfer.Net.File.{Outcome, done, exits}
use torrxfer.Db.{Pogreb, KvDb, Global, get_db}
use torrxfer.Db.Store.{kv_database}
use torrxfer.Database.{Database}
use torrxfer.Server.State.{Server, close_client}

abbrev pub server_db_name : Bytes
server_db_name = codes "sfdb.dat"

-- The fields that the server reads; `save_dir` is the path of the decoded directory.
pub record ServerConfig : Type 0 where
  pub port : ℕ
  pub save_dir : Bytes
  pub db_dir : Bytes

-- What the operating system and the TLS library answer: whether the port can be listened on,
-- whether a file is missing, and whether a certificate and a key can be loaded.
pub record Environment : Type 0 where
  pub listens : ℕ → Bool
  pub is_missing : Bytes → Bool
  pub loads_credentials : Bytes → Bytes → Bool
  pub temp_dir : Bytes

-- The checks before TLS is used.
unfoldable pub has_credentials : Environment → Bytes → Bytes → Bool
has_credentials e cafile keyfile =
    not (eq_bytes cafile [])
    && not (e.is_missing cafile)
    && not (eq_bytes keyfile [])
    && not (e.is_missing keyfile)
    && e.loads_credentials cafile keyfile

module _ (p : Pogreb) (w : Platform) where
  open w use {Time}

  abbrev pub Running : Type 0
  Running = Server w (kv_database p w)

  -- The database is opened in the temporary directory if none is configured.
  abbrev pub directories : Bytes → List Bytes
  directories [] = []
  directories (c ∷ dir) = (c ∷ dir) ∷ []

  -- A database that could not be opened ends the process, as a nil pointer does at its first use.
  abbrev pub serve :
      Disk Time
      → ServerConfig
      → Global p.State × Option (KvDb p.State) × Bool
      → Outcome (Global p.State × Running)
  serve disk conf (g, none, ok) = exits
  serve disk conf (g, some db, false) = exits
  serve disk conf (g, some db, true) = done (
    g,
    record {
      active_files = [];
      writers = [];
      server_root_dir = conf.save_dir;
      disk = disk;
      db = db.inner;
    },
  )

  -- `log.Fatal` at each failure.
  unfoldable pub run_server :
      Environment
      → Global p.State
      → Disk Time
      → ServerConfig
      → Bool
      → Bytes
      → Bytes
      → Outcome (Global p.State × Running)
  unfolding has_credentials get_db
  run_server e g disk conf enable_tls cafile keyfile =
      if not (e.listens conf.port)
      then exits
      else if enable_tls && not (has_credentials e cafile keyfile)
      then exits
      else serve disk conf (get_db p g e.temp_dir server_db_name (directories conf.db_dir))

module _ (w : Platform) (d : Database) where
  -- `Close` of each client in the table.
  unfoldable pub close_clients : Server w d → List (Bytes × ℕ) → Server w d
  close_clients s [] = s
  close_clients s ((c, i) ∷ entries) = close_clients (close_client w d s c) entries

  -- Behind the signal, before the database is closed.
  unfoldable pub shut_down : Server w d → Server w d
  unfolding close_clients
  shut_down s = close_clients s s.active_files
