-- ===== src/Client/Launch.antt =====
-- pkg/client/client.go: `Run`, `ConnectServer` and `WatchDirectory`. pkg/common/connectionconf.go: the
-- configuration of a client.
pub mod Order
use torrxfer.Base.{
  ℕ, ◌+◌, ◌%◌, ◌^◌, Bool, true, false, List, [], ◌∷◌, ◌++◌, Option, none, some, if◌then◌else◌,
  length, map, ◌>>=◌,
}
use torrxfer.Text.{Bytes}
use torrxfer.Platform.{Platform}
use torrxfer.Disk.{Disk}
use torrxfer.Client.File.{File}
use torrxfer.Client.Watcher.Events.{ActiveFiles}
use torrxfer.Crypto.{Certificates}
use torrxfer.Net.Dial.{ServerConnectionConfig, Transport, new_torrxfer_server_connection}
use torrxfer.Client.Connection.{ServerConnection, new_server_connection}
use torrxfer.Client.Watcher.Service.{FileWatcher, new_file_watcher, register_for_file_notifications}

pub record WatchedDirectory : Type 0 where
  pub directory : Bytes
  pub media_root : Bytes

pub record ClientConfig : Type 0 where
  pub servers : List ServerConnectionConfig
  pub watched_directories : List WatchedDirectory
  pub delete_on_complete : Bool

module _ (w : Platform) (x : Certificates) where
  open w use {Time}
  open x use {Certificate}

  -- What `Run` builds: the connections with their transports, the watchers, and the configuration
  -- once it is set.
  pub record Launched : Type 0 where
    pub connections : List (ServerConnection Time × Transport Certificate)
    pub file_stored_dbs : List (FileWatcher (File Time) (ActiveFiles w))
    pub client_config : Option ClientConfig

  abbrev pub new_torrxfer_client : Launched
  new_torrxfer_client = record { connections = []; file_stored_dbs = []; client_config = none }

  abbrev pub add_connection :
      Launched → Option (ServerConnection Time × Transport Certificate) → Launched
  add_connection c none = c
  add_connection c (some s) = record c { connections = c.connections ++ (s ∷ []) }

  -- The goroutine that passes the files on is the watcher's subscriber.
  abbrev pub add_watcher : Launched → Option (FileWatcher (File Time) (ActiveFiles w)) → Launched
  add_watcher c none = c
  add_watcher c (some fw) = record c {
    file_stored_dbs = c.file_stored_dbs ++ (register_for_file_notifications fw ∷ []);
  }

  -- A media root that is refused adds no watcher.
  unfoldable pub watch_directory : Launched → WatchedDirectory → Launched
  watch_directory c dir = add_watcher c (new_file_watcher [] dir.directory dir.media_root)

  unfoldable pub watch_directories : Launched → List WatchedDirectory → Launched
  unfolding watch_directory
  watch_directories c [] = c
  watch_directories c (dir ∷ dirs) = watch_directories (watch_directory c dir) dirs

  module _ (dial : Bytes → Transport Certificate → Bool) (disk : Disk Time) (now : Time) where
    -- The index is the number of connections so far, as a uint16.
    unfoldable pub connect_server :
        Launched → ServerConnectionConfig → Option (ServerConnection Time × Transport Certificate)
    connect_server c conf = do
      transport ← new_torrxfer_server_connection x dial disk conf
      some (
        new_server_connection (length c.connections % 2 ^ 16) conf.address conf.port now,
        transport,
      )

    -- A server that cannot be reached is passed over.
    unfoldable pub connect_servers : Launched → List ServerConnectionConfig → Launched
    unfolding connect_server
    connect_servers c [] = c
    connect_servers c (conf ∷ confs) =
        connect_servers (add_connection c (connect_server c conf)) confs

    -- The configuration is what the JSON of the file gives; `none` if it cannot be read or parsed,
    -- and then `Run` returns that error.
    unfoldable pub run : Launched → Option ClientConfig → Option Launched
    unfolding connect_servers watch_directories
    run c none = none
    run c (some conf) =
        let connected = connect_servers c conf.servers in
        let watching = watch_directories connected conf.watched_directories in
        some (record watching { client_config = some conf })
