-- ===== src/Client/Watcher/Race/Atomic.antt =====
-- The steps of `handleFileEvent` with no step of a thread between them.
use torrxfer.Base.{
  ◌≡◌, ◌⊎◌, refl, List, [], ◌∷◌, Option, none, some, true, inl, inr, Option-cases, Bool-cases,
  lookup, insert, lookup-insert, insert-insert, eq_bytes_refl,
}
use torrxfer.Text.{Bytes}
use torrxfer.Platform.{Platform}
use torrxfer.Disk.{Disk}
use torrxfer.Client.File.{File}
use torrxfer.Client.Watcher.{
  Phase, selecting, draining, notified, closing, exited, Handler, new_handler, send_update,
}
use torrxfer.Client.Watcher.Events.{
  ActiveFiles, event_file, stamped, handle_file_event, or_new, unless_exited,
}
use torrxfer.Client.Watcher.Race.{
  idle, sending, check, load, deliver, unless_live, not_exited, RaceStep, in_map, with_thread,
  delivered_to, race_step, race,
}

module _ (w : Platform) where
  open w use {Time}

  new_thread :
      (active : ActiveFiles w) (path : Bytes)
      → lookup path (insert path (new_handler {F = File Time}) active) ≡ some new_handler
  new_thread active path =
      rw (lookup-insert path path (new_handler {F = File Time}) active, eq_bytes_refl path) refl

  -- Behind the check the path has the thread that the event is for.
  with_thread_lem :
      (active : ActiveFiles w) (path : Bytes)
      → lookup path (with_thread w active path) ≡ some (or_new w (lookup path active))
  with_thread_lem active path = of_entry (lookup path active) refl
    where
      of_phase :
          (h : Handler (File Time)) (p : Phase)
          → lookup path active ≡ some h
          → lookup path (unless_live w active path (not_exited w p)) ≡ some (unless_exited w h p)
      of_phase h selecting e = e
      of_phase h draining e = e
      of_phase h notified e = e
      of_phase h closing e = e
      of_phase h exited e = new_thread active path

      of_entry :
          (o : Option (Handler (File Time)))
          → lookup path active ≡ o
          → lookup path (unless_live w active path (in_map w o)) ≡ some (or_new w o)
      of_entry none e = new_thread active path
      of_entry (some h) e = of_phase h h.phase e

  insert-with_thread :
      (active : ActiveFiles w) (path : Bytes) (h : Handler (File Time))
      → insert path h (with_thread w active path) ≡ insert path h active
  insert-with_thread active path h = elim (Bool-cases (in_map w (lookup path active))) [
    | inl e ↦ rw e refl
    | inr e ↦ rw e (insert-insert path new_handler h active)
  ]

  in_map-or_new : (o : Option (Handler (File Time))) → in_map w (some (or_new w o)) ≡ true
  unfolding new_handler
  in_map-or_new none = refl
  in_map-or_new (some h) = of_phase h.phase refl
    where
      of_phase : (p : Phase) → h.phase ≡ p → in_map w (some (unless_exited w h p)) ≡ true
      of_phase selecting e = rw e refl
      of_phase draining e = rw e refl
      of_phase notified e = rw e refl
      of_phase closing e = rw e refl
      of_phase exited e = refl

  -- The three steps of an event.
  abbrev pub event_steps : File Time → List (RaceStep (File Time))
  event_steps f = check f ∷ load ∷ deliver ∷ []

  race-event_steps :
      (active : ActiveFiles w) (f : File Time)
      → race w (record { active = active; sender = idle }) (event_steps f)
        ≡ delivered_to w
            (record { active = with_thread w active f.path; sender = sending f })
            f
            (send_update (or_new w (lookup f.path active)) f)
  unfolding race race_step
  race-event_steps active f =
      rw
        (
          with_thread_lem active f.path,
          in_map-or_new (lookup f.path active),
          with_thread_lem active f.path,
        )
        refl

  -- If no thread takes a step between the steps of an event, they do what `handle_file_event` does:
  -- the update stands in the channel of the path's thread, or the send waits.
  pub race-handle_file_event :
      (disk : Disk Time) (root cleaned : Option Bytes) (active : ActiveFiles w) (path : Bytes)
      (now : Time) (f : File Time)
      → event_file w disk root path cleaned ≡ some f
      → ((active' : ActiveFiles w) × (handle_file_event w disk root active path cleaned now
            ≡ some active')
          × (race w (record { active = active; sender = idle }) (event_steps (stamped w f now))
              ≡ record { active = active'; sender = idle }))
        ⊎ ((handle_file_event w disk root active path cleaned now ≡ none)
            × (race w (record { active = active; sender = idle }) (event_steps (stamped w f now))
                ≡ record {
                  active = with_thread w active f.path;
                  sender = sending (stamped w f now);
                }))
  unfolding handle_file_event
  race-handle_file_event disk root cleaned active path now f e =
      elim (Option-cases (send_update (or_new w (lookup f.path active)) (stamped w f now))) [
        | inl k ↦ inr (rw (e, k) refl, rw (race-event_steps active (stamped w f now), k) refl)
        | inr (h, k) ↦ inl (
          insert f.path h active,
          rw (e, k) refl,
          rw (race-event_steps active (stamped w f now), k, insert-with_thread active f.path h)
              refl,
        )
      ]
