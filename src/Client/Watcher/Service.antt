-- ===== src/Client/Watcher/Service.antt =====
-- pkg/client/filewatcher.go: a watcher with its subscribers, the first round over the files of the
-- directory, and the loop over the events of the library.
pub mod Ownership
pub mod Ending
use torrxfer.Base.{
  ℕ, Bool, true, false, List, [], ◌∷◌, ◌++◌, Option, none, some, if◌then◌else◌, ltb, length, ◌>>=◌,
  lookup, insert,
}
use torrxfer.Text.{Bytes}
use torrxfer.Platform.{Platform}
use torrxfer.Disk.{Disk}
use torrxfer.Paths.{is_subdir}
use torrxfer.Client.File.{File, new_client_file}
use torrxfer.Client.Watcher.{Handler, Action, act}
use torrxfer.Client.Watcher.Events.{ActiveFiles, handle_file_event}

-- `outgoing` are the channels of the subscribers, each with what has not been received.
pub record FileWatcher (F A : Type 0) : Type 0 where
  pub watched_directory : Bytes
  pub media_directory_root : Bytes
  pub active_files : A
  pub outgoing : List (List F)

abbrev pub outgoing_capacity : ℕ
outgoing_capacity = 10

module _ {F A : Type 0} where
  -- `none`: the media root is refused.
  unfoldable pub new_file_watcher : A → Bytes → Bytes → Option (FileWatcher F A)
  new_file_watcher no_files directory root =
      if is_subdir root directory
      then some (record {
        watched_directory = directory;
        media_directory_root = root;
        active_files = no_files;
        outgoing = [];
      })
      else none

  unfoldable pub register_for_file_notifications : FileWatcher F A → FileWatcher F A
  register_for_file_notifications fw = record fw { outgoing = fw.outgoing ++ ([] ∷ []) }

-- A send waits where a channel is full; the flag is false then.
abbrev pub send_to_all : {F : Type 0} → F → List (List F) → List (List F) × Bool
send_to_all f [] = ([], true)
send_to_all f (ch ∷ chs) =
    let (chs', sent) = send_to_all f chs in
    if ltb (length ch) outgoing_capacity then ((ch ++ (f ∷ [])) ∷ chs', sent) else (ch ∷ chs, false)

module _ {F A : Type 0} where
  unfoldable pub notify_file_available : FileWatcher F A → F → FileWatcher F A × Bool
  notify_file_available fw f =
      let (outgoing, sent) = send_to_all f fw.outgoing in (record fw { outgoing = outgoing }, sent)

-- What the library's channels give: an event with the disk at that time, the path, the cleaned path
-- and the time, or that the watcher is closed, or an error.
pub data WatcherMessage (T : Type 0) : Type 0 where
  event : Disk T → Bytes → Option Bytes → T → WatcherMessage T
  watcher_closed watcher_error : WatcherMessage T

module _ (w : Platform) where
  open w use {Time}

  -- The watched files of the first round: the path, whether it is a directory, its cleaned path,
  -- and the time. A file that cannot be described is passed over. `none`: a send waits.
  unfoldable pub first_round :
      Disk Time
      → Option Bytes
      → ActiveFiles w
      → List (Bytes × Bool × Option Bytes × Time)
      → Option (ActiveFiles w)
  first_round disk root active [] = some active
  first_round disk root active ((path, is_dir, cleaned, now) ∷ files) =
      if is_dir
      then first_round disk root active files
      else elim (new_client_file w disk root cleaned) [
        | none ↦ first_round disk root active files
        | some f ↦ do
          active' ← handle_file_event w disk root active f.path cleaned now
          first_round disk root active' files
      ]

  -- The flag says whether the loop has ended.
  unfoldable pub event_loop :
      Option Bytes → ActiveFiles w → List (WatcherMessage Time) → Option (ActiveFiles w × Bool)
  event_loop root active [] = some (active, false)
  event_loop root active (watcher_closed ∷ _) = some (active, true)
  event_loop root active (watcher_error ∷ _) = some (active, true)
  event_loop root active (event disk path cleaned now ∷ messages) = do
    active' ← handle_file_event w disk root active path cleaned now
    event_loop root active' messages

  abbrev pub act_at :
      ActiveFiles w → Bytes → Action (File Time) → Option (Handler (File Time)) → ActiveFiles w
  act_at active path x none = active
  act_at active path x (some h) = insert path (act h x) active

  -- A step of the thread of a path, or of its timer.
  unfoldable pub thread_act : ActiveFiles w → Bytes → Action (File Time) → ActiveFiles w
  thread_act active path x = act_at active path x (lookup path active)
