-- ===== src/Tests/Watchers.antt =====
-- The threads that wait on files, at concrete data.
use torrxfer.Base.{true, false, ℕ, ◌≡◌, refl, some, [], ◌∷◌, lookup, insert, eq_bytes}
use torrxfer.Text.{codes}
use torrxfer.Client.File.{File}
use torrxfer.Client.Watcher.{
  delayed, Phase, notified, closing, finishes, run, Handler, new_handler, send_update, receives,
  act,
}
use torrxfer.Client.Watcher.Contents.{Holds}
use torrxfer.Client.Watcher.Race.{idle, check, load, deliver, thread, at_nil, race}
use torrxfer.Client.Watcher.Race.Late.{late_event}
use torrxfer.Client.Watcher.Race.Lost.{lost_update}
use torrxfer.Client.Watcher.Events.{ActiveFiles, handle_file_event}
use torrxfer.Client.Watcher.Service.{thread_act}
use torrxfer.Client.Watcher.Service.Ownership.{Reach, fresh, handled, acted, IsOf, Reach-Holds}
use torrxfer.Tests.World.{platform}
use torrxfer.Tests.Routes.{disk, written, written_event}

-- The map after an event for a new file, and after its thread has received the update.
abbrev seen : ActiveFiles platform
seen =
    (
      codes "/home/a/f",
      record (new_handler {F = File ℕ}) { updates = record written { watch_time = 9 } ∷ [] },
    )
    ∷ []

seen_event :
    handle_file_event platform disk
      (some (codes "/home"))
      []
      (codes "/home/a/f")
      (some (codes "/home/a/f"))
      9
    ≡ some seen
unfolding handle_file_event send_update insert lookup eq_bytes new_handler
seen_event = rw written_event refl

abbrev received : Handler (File ℕ)
received =
    act (record (new_handler {F = File ℕ}) { updates = record written { watch_time = 9 } ∷ [] })
      receives

received-Reach : Reach platform ((codes "/home/a/f", received) ∷ [])
unfolding thread_act lookup insert eq_bytes
received-Reach =
    acted
      (handled fresh disk (some (codes "/home")) (codes "/home/a/f") (some (codes "/home/a/f")) 9
        seen_event)
      (codes "/home/a/f") receives tt refl

Reach-Holds_example : Holds (IsOf platform (codes "/home/a/f")) received
unfolding lookup eq_bytes
Reach-Holds_example = Reach-Holds platform received-Reach (codes "/home/a/f") received refl

abbrev at_end : Phase → Handler (File ℕ)
at_end p = record {
  updates = [];
  timer = delayed true;
  file = some written;
  phase = p;
  sent = some written ∷ [];
  panicked = false;
}

abbrev at_end_map : ActiveFiles platform
at_end_map = (codes "/home/a/f", at_end closing) ∷ []

lookup-at_end : lookup (codes "/home/a/f") at_end_map ≡ some (at_end closing)
unfolding lookup eq_bytes
lookup-at_end = refl

late_event_example :
    ((h' : Handler (File ℕ)) × (lookup
          (codes "/home/a/f")
          (race platform
            (record { active = at_end_map; sender = idle })
            (check written ∷ load ∷ deliver ∷ [])).active
        ≡ some h')
      × (h'.panicked ≡ true))
    × ((race platform
          (record { active = at_end_map; sender = idle })
          (check written
            ∷ thread (codes "/home/a/f") finishes
            ∷ load
            ∷ check written
            ∷ load
            ∷ [])).sender
        ≡ at_nil)
late_event_example =
    late_event platform at_end_map written (at_end closing) (check written ∷ load ∷ [])
      lookup-at_end refl

lost_update_example :
    (h' : Handler (File ℕ)) × (send_update (at_end notified) written ≡ some h')
    × (h'.updates ≡ written ∷ [])
    × (h'.panicked ≡ false)
    × ((run h' (finishes ∷ receives ∷ finishes ∷ [])).sent ≡ some written ∷ [])
lost_update_example =
    lost_update (at_end notified) written (finishes ∷ receives ∷ finishes ∷ []) refl refl
