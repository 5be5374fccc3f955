-- ===== src/Client/Launch/Order.antt =====
-- The indices of a client's connections.
use torrxfer.Base.{if◌then◌else◌, ℕ, suc, ◌%◌, ◌^◌, ◌≡◌, Bool, Option, List, [], ◌∷◌, none, some}
use torrxfer.Text.{Bytes}
use torrxfer.Platform.{Platform}
use torrxfer.Disk.{Disk}
use torrxfer.Paths.{is_subdir}
use torrxfer.Crypto.{Certificates}
use torrxfer.Net.Dial.{ServerConnectionConfig, Transport, new_torrxfer_server_connection}
use torrxfer.Client.Connection.{ServerConnection}
use torrxfer.Client.Launch.{WatchedDirectory}
use torrxfer.Client.File.{File}
use torrxfer.Client.Watcher.Events.{ActiveFiles}
use torrxfer.Client.Watcher.Service.{FileWatcher}

-- The connections are numbered one after another from `i` on.
abbrev pub AreNumbered : {T C : Type 0} → ℕ → List (ServerConnection T × C) → Type 0
AreNumbered i [] = Unit
AreNumbered i ((s, _) ∷ ss) = (s.index ≡ i % 2 ^ 16) × AreNumbered (suc i) ss

module _ (w : Platform) (x : Certificates) where
  open w use {Time}
  open x use {Certificate}

  -- A watcher for each directory whose media root is accepted, with one subscriber that has
  -- received nothing.
  abbrev pub watchers_of : List WatchedDirectory → List (FileWatcher (File Time) (ActiveFiles w))
  watchers_of [] = []
  watchers_of (dir ∷ dirs) =
      if is_subdir dir.media_root dir.directory
      then record {
        watched_directory = dir.directory;
        media_directory_root = dir.media_root;
        active_files = [];
        outgoing = [] ∷ [];
      }
        ∷ watchers_of dirs
      else watchers_of dirs

  -- What the connections are to: addresses and ports, with their transports.
  abbrev pub targets :
      List (ServerConnection Time × Transport Certificate)
      → List (Bytes × ℕ × Transport Certificate)
  targets [] = []
  targets ((s, t) ∷ ss) = (s.address, s.port, t) ∷ targets ss

  module _ (dial : Bytes → Transport Certificate → Bool) (disk : Disk Time) (now : Time) where
    abbrev with_target :
        ServerConnectionConfig
        → Option (Transport Certificate)
        → List (Bytes × ℕ × Transport Certificate)
        → List (Bytes × ℕ × Transport Certificate)
    with_target conf none ts = ts
    with_target conf (some t) ts = (conf.address, conf.port, t) ∷ ts

    -- The servers of a configuration that can be reached, in their order.
    abbrev pub reached : List ServerConnectionConfig → List (Bytes × ℕ × Transport Certificate)
    reached [] = []
    reached (conf ∷ confs) =
        with_target conf (new_torrxfer_server_connection x dial disk conf) (reached confs)
