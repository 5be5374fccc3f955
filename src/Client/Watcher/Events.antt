-- ===== src/Client/Watcher/Events.antt =====
-- pkg/client/filewatcher.go: `handleFileEvent`, over the waiting threads of the paths. The check
-- whether a path has a thread and the send to it are taken as one step here.
use torrxfer.Base.{
  ◌⊎◌, inl, inr, ◌≡◌, ◌≢◌, refl, List, [], ◌∷◌, Option, none, some, arith, if◌then◌else◌, lookup,
  insert, lookup-insert, eq_bytes_iff, eq_bytes_refl,
}
use torrxfer.Text.{Bytes}
use torrxfer.Platform.{Platform}
use torrxfer.Disk.{Disk, Stat, found, not_exist, stat_failed, os_stat}
use torrxfer.Client.File.{File, new_client_file}
use torrxfer.Client.Watcher.{Phase, exited, Handler, new_handler, send_update}

module _ (w : Platform) where
  open w use {Time, from_unix}

  -- `activeFilesMap`
  abbrev pub ActiveFiles : Type 0
  ActiveFiles = List (Bytes × Handler (File Time))

  -- A thread that has ended has deleted its path from the map.
  abbrev pub unless_exited : Handler (File Time) → Phase → Handler (File Time)
  unless_exited h exited = new_handler
  unless_exited h _ = h

  abbrev pub or_new : Option (Handler (File Time)) → Handler (File Time)
  or_new none = new_handler
  or_new (some h) = unless_exited h h.phase

  -- The file of an event, over the cleaned root and path; there is none for a directory.
  abbrev stat_file : Disk Time → Option Bytes → Option Bytes → Stat Time → Option (File Time)
  stat_file disk root cleaned (found _ _ is_dir) =
      if is_dir then none else new_client_file w disk root cleaned
  stat_file disk root cleaned not_exist = none
  stat_file disk root cleaned stat_failed = none

  abbrev pub event_file : Disk Time → Option Bytes → Bytes → Option Bytes → Option (File Time)
  event_file disk root path cleaned = stat_file disk root cleaned (os_stat disk path)

  abbrev pub stamped : File Time → Time → File Time
  stamped f now = record f { watch_time = now; transfer_time = from_unix 0 }

  abbrev pub sent_to : ActiveFiles → Bytes → Option (Handler (File Time)) → Option ActiveFiles
  sent_to active path none = none
  sent_to active path (some h) = some (insert path h active)

  abbrev pub handle_file : ActiveFiles → Time → Option (File Time) → Option ActiveFiles
  handle_file active now none = some active
  handle_file active now (some f) =
      sent_to active f.path (send_update (or_new (lookup f.path active)) (stamped f now))

  -- `none`: the send waits.
  unfoldable pub handle_file_event :
      Disk Time → Option Bytes → ActiveFiles → Bytes → Option Bytes → Time → Option ActiveFiles
  handle_file_event disk root active path cleaned now =
      handle_file active now (event_file disk root path cleaned)

  -- The path has no thread that could take an update.
  abbrev pub IsUnwatched : Bytes → ActiveFiles → Type 0
  IsUnwatched path active =
      (lookup path active ≡ none)
      ⊎ ((h : Handler (File Time)) × (lookup path active ≡ some h) × (h.phase ≡ exited))

  or_new-IsUnwatched :
      (path : Bytes) (active : ActiveFiles)
      → IsUnwatched path active
      → or_new (lookup path active) ≡ new_handler
  or_new-IsUnwatched path active (inl e) = rw e refl
  or_new-IsUnwatched path active (inr (h, e, x)) = rw e (rw x refl)

  -- An event for a file whose path has no thread, or whose thread has ended, starts a thread that
  -- waits with one update, the file with the time of the event. The threads of all other paths are
  -- as they were.
  pub handle_file_event_first :
      (disk : Disk Time) (root cleaned : Option Bytes) (active : ActiveFiles) (path other : Bytes)
      (now : Time) (f : File Time)
      → event_file disk root path cleaned ≡ some f
      → IsUnwatched f.path active
      → other ≢ f.path
      → (active' : ActiveFiles) × (handle_file_event disk root active path cleaned now
          ≡ some active')
        × (lookup f.path active'
            ≡ some (record (new_handler {F = File Time}) { updates = stamped f now ∷ [] }))
        × (lookup other active' ≡ lookup other active)
  unfolding handle_file_event send_update new_handler
  handle_file_event_first disk root cleaned active path other now f e fresh ne =
      let h : Handler (File Time) = record (new_handler {F = File Time}) {
        updates = stamped f now ∷ [];
      } in
      (
        insert f.path h active,
        rw (e, or_new-IsUnwatched f.path active fresh) refl,
        rw (lookup-insert f.path f.path h active, eq_bytes_refl f.path) refl,
        ground (arith, lookup-insert f.path other h active, eq_bytes_iff f.path other),
      )
