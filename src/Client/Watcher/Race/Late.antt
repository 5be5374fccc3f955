-- ===== src/Client/Watcher/Race/Late.antt =====
-- An event for a file whose thread has closed its channel and has yet to leave the map.
use torrxfer.Base.{◌≡◌, refl, List, [], ◌∷◌, some, true, lookup, lookup-insert, eq_bytes_refl}
use torrxfer.Platform.{Platform}
use torrxfer.Client.File.{File}
use torrxfer.Client.Watcher.{closing, exited, Handler, send_update, finish, finishes, act}
use torrxfer.Client.Watcher.Events.{ActiveFiles}
use torrxfer.Client.Watcher.Service.{thread_act}
use torrxfer.Client.Watcher.Race.{
  idle, at_nil, RaceStep, check, load, deliver, thread, Watching, race_step, race,
}

module _ (w : Platform) where
  open w use {Time}

  race_step-at_nil :
      (s : Watching w) (x : RaceStep (File Time))
      → s.sender ≡ at_nil
      → (race_step w s x).sender ≡ at_nil
  unfolding race_step
  race_step-at_nil s (check f) e = rw e refl
  race_step-at_nil s load e = rw e refl
  race_step-at_nil s deliver e = rw e refl
  race_step-at_nil s (thread p x) e = rw e refl

  race-at_nil :
      (s : Watching w) (xs : List (RaceStep (File Time)))
      → s.sender ≡ at_nil
      → (race w s xs).sender ≡ at_nil
  unfolding race
  race-at_nil s [] e = e
  race-at_nil s (x ∷ xs) e = race-at_nil (race_step w s x) xs (race_step-at_nil s x e)

  -- An event comes for a file whose thread has closed its channel but is still in the map. If the
  -- event's steps come first, the send on the closed channel ends the process. If the thread leaves the map between the
  -- check and the reading of the map, the goroutine of the events waits at a nil channel, and does so
  -- after all that follows: no further event is handled.
  pub late_event :
      (active : ActiveFiles w) (f : File Time) (h : Handler (File Time))
      (xs : List (RaceStep (File Time)))
      → lookup f.path active ≡ some h
      → h.phase ≡ closing
      → ((h' : Handler (File Time)) × (lookup f.path
              (race w
                (record { active = active; sender = idle })
                (check f ∷ load ∷ deliver ∷ [])).active
            ≡ some h')
          × (h'.panicked ≡ true))
        × ((race w
              (record { active = active; sender = idle })
              (check f ∷ thread f.path finishes ∷ load ∷ xs)).sender
            ≡ at_nil)
  unfolding race race_step send_update thread_act act finish
  late_event active f h xs e p = (
    (
      record h { panicked = true },
      rw
          (
            e,
            p,
            e,
            p,
            e,
            p,
            lookup-insert f.path f.path (record h { phase = closing; panicked = true }) active,
            eq_bytes_refl f.path,
          )
          refl,
      refl,
    ),
    race-at_nil
        (race w (record { active = active; sender = idle })
          (check f ∷ thread f.path finishes ∷ load ∷ []))
        xs
        (rw
          (
            e,
            p,
            e,
            p,
            lookup-insert f.path f.path (record h { phase = exited }) active,
            eq_bytes_refl f.path,
          )
          refl),
  )
