-- ===== src/Client/Watcher/Service/Ending.antt =====
-- pkg/client/filewatcher.go: the goroutine of `NewFileWatcher`, which closes the subscribers' channels
-- when `watcherThread` returns, and `Close`. The threads of the paths go on.
use torrxfer.Base.{
  ◌≡◌, refl, Bool, true, false, List, ◌∷◌, Option, some, if◌then◌else◌, ltb, length, ◌<◌, arith,
  ◌&&◌, ◌>>=◌,
}
use torrxfer.Text.{Bytes}
use torrxfer.Platform.{Platform}
use torrxfer.Disk.{Disk}
use torrxfer.Client.File.{File}
use torrxfer.Client.Watcher.{Handler, selecting, delayed, fires, notifies, act, fire, notify}
use torrxfer.Client.Watcher.Events.{ActiveFiles}
use torrxfer.Client.Watcher.Service.{FileWatcher, first_round, notify_file_available}

-- What a thread's notification comes to.
pub data Told (S : Type 0) : Type 0 where
  told : S × Bool → Told S
  panics : Told S

module _ (w : Platform) where
  open w use {Time}

  -- `ended`: the channels of the subscribers are closed.
  pub record Service : Type 0 where
    pub watcher : FileWatcher (File Time) (ActiveFiles w)
    pub ended : Bool

  -- `adds` is whether `AddRecursive` gives no error. Behind the first round the thread waits in `Start`
  -- until the library's watcher is closed. `none`: a send waits.
  unfoldable pub watcher_thread :
      Bool
      → Disk Time
      → Option Bytes
      → List (Bytes × Bool × Option Bytes × Time)
      → Service
      → Option Service
  watcher_thread false disk root files s = some (record s { ended = true })
  watcher_thread true disk root files s = do
    active ← first_round w disk root s.watcher.active_files files
    some (record s { watcher = record s.watcher { active_files = active } })

  -- `Close` of the library's watcher makes `Start` return.
  unfoldable pub close : Service → Service
  close s = record s { ended = true }

  -- A notification on a watcher; a closed channel panics.
  unfoldable pub notify_subscribers :
      Service → File Time → Told (FileWatcher (File Time) (ActiveFiles w))
  unfolding notify_file_available
  notify_subscribers s f =
      if s.ended && ltb 0 (length s.watcher.outgoing)
      then panics
      else told (notify_file_available s.watcher f)

  -- A watcher with a subscriber is closed while the thread of a path waits for the delay behind an
  -- update to pass. Once it has passed, the thread tells the subscribers of the file, and the process
  -- ends by a panic. The same holds if the directory could not be added at the start.
  pub close-panics :
      (s : Service) (h : Handler (File Time)) (f : File Time) (disk : Disk Time)
      (root : Option Bytes) (files : List (Bytes × Bool × Option Bytes × Time))
      → h.phase ≡ selecting
      → h.timer ≡ delayed false
      → h.file ≡ some f
      → 0 < length s.watcher.outgoing
      → ((act (act h fires) notifies).sent ≡ some f ∷ h.sent)
        × (notify_subscribers (close s) f ≡ panics)
        × ((s' : Service) × (watcher_thread false disk root files s ≡ some s')
            × (notify_subscribers s' f ≡ panics))
  unfolding act fire notify notify_subscribers close watcher_thread
  close-panics s h f disk root files p t e some_there =
      (rw (t, p, e) refl, ground arith, (record s { ended = true }, refl, ground arith))
