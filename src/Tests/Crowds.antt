-- ===== src/Tests/Crowds.antt =====
-- Two clients that send at the same time, at concrete data.
use torrxfer.Base.{ℕ, true, List, [], ◌∷◌}
use torrxfer.Text.{codes}
use torrxfer.Disk.{regular}
use torrxfer.Server.Writer.{Writer, waiting, exited, copying}
use torrxfer.Server.Writer.Schedule
use torrxfer.Server.State.{Server}
use torrxfer.Server.Session.{Operation, transfer, close, tick}
use torrxfer.Tests.World.{platform, database}
use torrxfer.Tests.Writers.{path, file, disk, in_phase}

abbrev other_writer : Writer ℕ
other_writer = record (in_phase waiting).writer {
  file = record file { full_path = codes "/srv/g" };
  db_key = codes "other";
}

abbrev crowd : Server platform database
crowd = record {
  active_files = (codes "c1", 0) ∷ (codes "c2", 1) ∷ [];
  writers = (in_phase waiting).writer ∷ other_writer ∷ [];
  server_root_dir = codes "/srv";
  disk = record disk {
    entries = (path, regular (codes "0123456789") 7) ∷ (codes "/srv/g", regular [] 7) ∷ [];
  };
  db = [];
}

-- Both clients send a block; the first client another one, and closes.
abbrev calls : List (Operation platform database)
calls =
    transfer (codes "c2") (codes "xy") 0
    ∷ tick 0 9
    ∷ tick 1 9
    ∷ tick 0 9
    ∷ tick 1 9
    ∷ transfer (codes "c1") (codes "de") 99
    ∷ tick 0 9
    ∷ close (codes "c1")
    ∷ tick 1 9
    ∷ tick 0 9
    ∷ []

abbrev sent_writer : Writer ℕ
sent_writer = record (in_phase exited).writer {
  file = record file { current_size = 7 };
  once_done = true;
  closed = true;
  done_sent = true;
}

abbrev all_sent : Server platform database
all_sent = record crowd {
  writers = sent_writer ∷ record other_writer { phase = copying 2 2; once_done = true } ∷ [];
  disk = record disk {
    entries =
        (path, regular (codes "01abcde789") 9) ∷ (codes "/srv/g", regular (codes "xy") 9) ∷ [];
  };
  db = (codes "key", codes "/srv/f*?**?*5*?*7*?*1600*?*1700") ∷ [];
}
