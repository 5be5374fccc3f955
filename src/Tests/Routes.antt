-- ===== src/Tests/Routes.antt =====
-- The client's files, its connections, its watcher and the notifications, at concrete data.
use torrxfer.Base.{
  ℕ, ◌≤◌, ◌≡◌, ◌⊎◌, refl, true, false, none, some, [], ◌∷◌, length, lookup, eq_bytes, arith,
}
use torrxfer.Text.{codes, has_prefix, trim_prefix}
use torrxfer.FilePath.{dir}
use torrxfer.Client.File.{File, generate_media_prefix}
use torrxfer.Client.Connection.{ServerNotification, completed, query_error}
use torrxfer.Client.Transfer.{ServerTransferJob, TorrxferClient, route_all}
use torrxfer.Client.Transfer.Shutdown.{
  close_steps, ending, route_at_end, panics, enqueue_at_end, close_steps-panics,
}
use torrxfer.Client.Transfer.Routing.{route_all_lem}
use torrxfer.Client.Watcher.{
  Handler, delayed, selecting, draining, send, fires, receives, notifies, run, act, new_handler,
  send_update,
}
use torrxfer.Client.Watcher.Debounce.{run-sent}
use torrxfer.Client.Watcher.Stuck.{late_update}
use torrxfer.Tests.World.{platform}
use torrxfer.Disk.{Disk, regular, os_stat}
use torrxfer.Client.File.{new_client_file}
use torrxfer.Client.Watcher.Events.{event_file}

-- A file is written twice, and then left alone.
run-sent_example :
    ((run (new_handler {F = ℕ}) (send 3 ∷ receives ∷ send 4 ∷ fires ∷ notifies ∷ [])).sent ≡ [])
    ⊎ ((f : ℕ) × ((run
            (new_handler {F = ℕ})
            (send 3 ∷ receives ∷ send 4 ∷ fires ∷ notifies ∷ [])).file
          ≡ some f)
        × ((run (new_handler {F = ℕ}) (send 3 ∷ receives ∷ send 4 ∷ fires ∷ notifies ∷ [])).sent
            ≡ some f ∷ [])
        × ((run (new_handler {F = ℕ}) (send 3 ∷ receives ∷ send 4 ∷ fires ∷ notifies ∷ [])).timer
            ≡ delayed true))
run-sent_example = run-sent (send 3 ∷ receives ∷ send 4 ∷ fires ∷ notifies ∷ [])

-- The delay behind the file 3 has passed when 4 is there.
abbrev late : Handler ℕ
late = record {
  updates = 4 ∷ [];
  timer = delayed true;
  file = some 3;
  phase = selecting;
  sent = [];
  panicked = false;
}

late_update_example :
    ((run (act late receives) (send 5 ∷ notifies ∷ [])).phase ≡ draining)
    × ((run (act late receives) (send 5 ∷ notifies ∷ [])).sent ≡ [])
    × (5 ≤ length (run (act late receives) (send 5 ∷ notifies ∷ [])).updates
        → send_update (run (act late receives) (send 5 ∷ notifies ∷ [])) 6 ≡ none)
late_update_example = late_update late 4 6 [] (send 5 ∷ notifies ∷ []) refl refl refl

abbrev note : ServerNotification
note = record {
  notification_type = completed;
  has_error = false;
  sent_file = 0;
  last_sent_size = 0;
}

abbrev failed_note : ServerNotification
failed_note = record note { notification_type = query_error; has_error = true }

abbrev job : ServerTransferJob
job = record { id = 8; server = 1; file = 0 }

abbrev client : TorrxferClient
client = record {
  connections = 1 ∷ 2 ∷ [];
  notification_channels = [] ∷ (note ∷ []) ∷ [];
  job_queue = [];
  delete_on_complete = true;
  removed = [];
  touched = [];
}

route_all_lem_example :
    ((route_all client job (failed_note ∷ note ∷ [])).1 ≡ true)
    × ((route_all client job (failed_note ∷ note ∷ [])).0.notification_channels
        ≡ (note ∷ []) ∷ (note ∷ note ∷ []) ∷ [])
    × ((route_all client job (failed_note ∷ note ∷ [])).0.job_queue ≡ job ∷ [])
    × ((route_all client job (failed_note ∷ note ∷ [])).0.removed ≡ 0 ∷ [])
route_all_lem_example =
    route_all_lem (failed_note ∷ note ∷ []) client job (omega arith, (omega arith, tt))
      (omega arith)

close_steps-panics_example :
    (close_steps 5 (ending client 2 0 false) ≡ ending client 0 2 true)
    × ((c' : TorrxferClient) × (route_at_end (close_steps 5 (ending client 2 0 false)) job note
          ≡ panics c'))
    × (enqueue_at_end (close_steps 5 (ending client 2 0 false)) job ≡ panics client)
close_steps-panics_example = close_steps-panics client 2 job note (omega arith)

-- A disk with the file.
abbrev pub disk : Disk ℕ
disk = record {
  entries = (codes "/home/a/f", regular (codes "hello") 5) ∷ [];
  refuses = λ _ _. false;
}

abbrev pub written : File ℕ
written = record {
  path = codes "/home/a/f";
  media_prefix = codes "/a";
  size = 5;
  modified_time = 5;
  watch_time = 0;
  transfer_time = 0;
}

pub written_event :
    event_file platform disk (some (codes "/home")) (codes "/home/a/f") (some (codes "/home/a/f"))
    ≡ some written
unfolding os_stat new_client_file generate_media_prefix dir has_prefix trim_prefix lookup eq_bytes
written_event = refl
