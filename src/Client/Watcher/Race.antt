-- ===== src/Client/Watcher/Race.antt =====
-- pkg/client/filewatcher.go: `handleFileEvent` in its single steps, between which the threads go on.
pub mod Atomic
pub mod Late
pub mod Lost
use torrxfer.Base.{
  ◌≡◌, List, [], ◌∷◌, Option, none, some, Bool, true, false, if◌then◌else◌, lookup, insert,
}
use torrxfer.Text.{Bytes}
use torrxfer.Platform.{Platform}
use torrxfer.Client.File.{File}
use torrxfer.Client.Watcher.{Phase, exited, Handler, new_handler, send_update, Action}
use torrxfer.Client.Watcher.Events.{ActiveFiles}
use torrxfer.Client.Watcher.Service.{thread_act}

-- The goroutine of the events: between two events, behind the check of the map, with the channel
-- that it has read from the map, or at a send on a nil channel.
pub data Sender (F : Type 0) : Type 0 where
  idle at_nil : Sender F
  checked sending : F → Sender F

-- A step of that goroutine, or of the thread of a path.
pub data RaceStep (F : Type 0) : Type 0 where
  check : F → RaceStep F
  load deliver : RaceStep F
  thread : Bytes → Action F → RaceStep F

module _ (w : Platform) where
  open w use {Time}

  pub record Watching : Type 0 where
    pub active : ActiveFiles w
    pub sender : Sender (File Time)

  -- A thread that has ended has deleted its path.
  abbrev pub not_exited : Phase → Bool
  not_exited exited = false
  not_exited _ = true

  abbrev pub in_map : Option (Handler (File Time)) → Bool
  in_map none = false
  in_map (some h) = not_exited h.phase

  abbrev pub unless_live : ActiveFiles w → Bytes → Bool → ActiveFiles w
  unless_live active path true = active
  unless_live active path false = insert path new_handler active

  -- The first time a file is seen, its channel and thread are made.
  abbrev pub with_thread : ActiveFiles w → Bytes → ActiveFiles w
  with_thread active path = unless_live active path (in_map (lookup path active))

  abbrev pub delivered_to : Watching → File Time → Option (Handler (File Time)) → Watching
  delivered_to s f none = s
  delivered_to s f (some h) = record { active = insert f.path h s.active; sender = idle }

  -- The channel is that of the path's thread, whether or not it is still in the map.
  abbrev pub deliver_from : Watching → File Time → Option (Handler (File Time)) → Watching
  deliver_from s f none = s
  deliver_from s f (some h) = delivered_to s f (send_update h f)

  abbrev pub race_at : Watching → Sender (File Time) → RaceStep (File Time) → Watching
  race_at s idle (check f) = record { active = with_thread s.active f.path; sender = checked f }
  race_at s (checked f) load = record s {
    sender = if in_map (lookup f.path s.active) then sending f else at_nil;
  }
  race_at s (sending f) deliver = deliver_from s f (lookup f.path s.active)
  race_at s _ (thread path x) = record s { active = thread_act w s.active path x }
  race_at s _ _ = s

  unfoldable pub race_step : Watching → RaceStep (File Time) → Watching
  race_step s x = race_at s s.sender x

  unfoldable pub race : Watching → List (RaceStep (File Time)) → Watching
  race s [] = s
  race s (x ∷ xs) = race (race_step s x) xs
