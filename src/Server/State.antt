-- ===== src/Server/State.antt =====
-- pkg/server/server.go: the state of `TorrxferServer` and the operations on its active files.
use torrxfer.Base.{
  ℕ, zero, suc, Bool, true, false, List, [], ◌∷◌, ◌++◌, Option, none, some, length, get_elem?, set,
  lookup, insert,
}
use torrxfer.Text.{Bytes}
use torrxfer.Platform.{Platform}
use torrxfer.FilePath.{join}
use torrxfer.Disk.{Disk}
use torrxfer.Database.{Database}
use torrxfer.Server.File.{File}
use torrxfer.Server.Writer.{Writer, starting, writer_step, transfer_to, close_pipe}

-- The writer of a new `File`, whose thread was just started.
abbrev pub new_writer : {T : Type 0} → File T → Bytes → Writer T
new_writer f key = record {
  file = f;
  db_key = key;
  phase = starting;
  once_done = false;
  pending = none;
  closed = false;
  error_sent = false;
  done_sent = false;
}

module _ (w : Platform) (d : Database) where
  open w use {Time}

  -- `active_files` maps a client to its file, here an index into the writers that were started.
  pub record Server : Type 0 where
    pub active_files : List (Bytes × ℕ)
    pub writers : List (Writer Time)
    pub server_root_dir : Bytes
    pub disk : Disk Time
    pub db : d.State

  unfoldable pub get_full_server_file_path : Server → Bytes → Bytes → Bytes
  get_full_server_file_path s media_path filename =
      join (s.server_root_dir ∷ media_path ∷ filename ∷ [])

  unfoldable pub is_file_active : Server → Bytes → Option ℕ
  is_file_active s client = lookup client s.active_files

  unfoldable pub set_active_file : Server → Bytes → Bytes → File Time → Server
  set_active_file s client db_file_key file = record s {
    active_files = insert client (length s.writers) s.active_files;
    writers = s.writers ++ (new_writer file db_file_key ∷ []);
  }

  -- A step of the writer thread with that index.
  abbrev pub step_writer : Server → ℕ → Time → Option (Writer Time) → Server
  step_writer s i now none = s
  step_writer s i now (some x) =
      let m = writer_step w d (record { writer = x; disk = s.disk; db = s.db }) now in
      record s { writers = set s.writers i m.writer; disk = m.disk; db = m.db }

  unfoldable pub thread_step : Server → ℕ → Time → Server
  thread_step s i now = step_writer s i now (get_elem? s.writers i)

  unfoldable pub thread_steps : ℕ → Server → ℕ → Time → Server
  unfolding thread_step
  thread_steps zero s i now = s
  thread_steps (suc n) s i now = thread_steps n (thread_step s i now) i now

  abbrev pub transfer_writer : Server → Bytes → ℕ → ℕ → Option (Writer Time) → Server × Bool
  transfer_writer s b offset i none = (s, false)
  transfer_writer s b offset i (some x) =
      (record s { writers = set s.writers i (transfer_to x b offset) }, true)

  abbrev pub transfer_at : Server → Bytes → ℕ → Option ℕ → Server × Bool
  transfer_at s b offset none = (s, false)
  transfer_at s b offset (some i) = transfer_writer s b offset i (get_elem? s.writers i)

  -- `TransferFunction` up to its `Write`; the flag is false if no file is active for the client.
  unfoldable pub transfer_function : Server → Bytes → Bytes → ℕ → Server × Bool
  unfolding is_file_active
  transfer_function s client b offset = transfer_at s b offset (is_file_active s client)

  abbrev pub close_writer : Server → ℕ → Option (Writer Time) → Server
  close_writer s i none = s
  close_writer s i (some x) = record s { writers = set s.writers i (close_pipe x) }

  abbrev pub close_at : Server → Option ℕ → Server
  close_at s none = s
  close_at s (some i) = close_writer s i (get_elem? s.writers i)

  unfoldable pub close_client : Server → Bytes → Server
  unfolding is_file_active
  close_client s client = close_at s (is_file_active s client)

  -- The channels of the client's file, as the index of the writer that has them.
  unfoldable pub register_for_write_notification : Server → Bytes → Option ℕ
  unfolding is_file_active
  register_for_write_notification s client = is_file_active s client
