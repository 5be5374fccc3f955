-- ===== src/Server/Writer.antt =====
-- pkg/server/server.go: `startFileWriteThread` as a machine of steps, with the calls that reach it
-- through the fields of its `File`: the condition variable, the pipe and the two channels. A step
-- is what the goroutine does between two points where it may wait.
pub mod Schedule
pub mod LostSignal
pub mod Invariant
pub mod Delivery
pub mod Completion
pub mod Local
use torrxfer.Base.{
  ℕ, ◌+◌, ◌%◌, ◌^◌, Bool, true, false, ◌||◌, List, [], ◌∷◌, Option, none, some, leb, if◌then◌else◌,
  length,
}
use torrxfer.Text.{Bytes}
use torrxfer.Platform.{Platform}
use torrxfer.FilePath.{dir}
use torrxfer.Disk.{Disk, mkdir_call, mkdir_all, seek_call, write_call, open_file, write_open}
use torrxfer.Database.{Database}
use torrxfer.Server.File.{File, marshal_text}

-- `starting`: before the directories are made and the file is opened. `ready`: before `Wait`.
-- `signalled`: woken up, before `Seek`. `copying`: in `io.Copy`, at a position of the file, with
-- the number of bytes copied. `exited`: both channels are closed.
pub data Phase : Type 0 where
  starting ready waiting signalled exited : Phase
  copying : ℕ → ℕ → Phase

pub record Writer (T : Type 0) : Type 0 where
  pub file : File T
  pub db_key : Bytes
  pub phase : Phase
  -- `file.Once` has run.
  pub once_done : Bool
  -- The block that a `Write` to the pipe is waiting to hand over.
  pub pending : Option Bytes
  -- The writing end of the pipe is closed.
  pub closed : Bool
  -- A message was sent on the error channel, on the done channel.
  pub error_sent : Bool
  pub done_sent : Bool

module _ (w : Platform) (d : Database) where
  open w use {Time}

  pub record Machine : Type 0 where
    pub writer : Writer Time
    pub disk : Disk Time
    pub db : d.State

  abbrev in_phase : Machine → Phase → Machine
  in_phase m ph = record m { writer = record m.writer { phase = ph } }

  -- `errorChannel <- err; return`, with the deferred calls.
  abbrev fail : Machine → Machine
  fail m = record m { writer = record m.writer { phase = exited; error_sent = true } }

  abbrev open_handle : Machine → Option (Disk Time) → Machine
  open_handle m none = fail m
  open_handle m (some disk) = record m { writer = record m.writer { phase = ready }; disk = disk }

  -- The directories are there, and the file is opened.
  abbrev open_made : Machine → Time → Machine
  open_made m now = open_handle m (open_file m.disk m.writer.file.full_path now)

  -- The file's record is written to the database; whether that succeeded is not looked at. The step
  -- is one in which the call of the database returns; while it waits no step is taken.
  abbrev store_record : Machine → Option Bytes → Machine
  store_record m none = fail m
  store_record m (some text) = record m {
    writer = record m.writer { phase = exited; done_sent = true };
    db = (d.put m.db m.writer.db_key text).0;
  }

  -- The pipe is at its end: `currentSize += n`, and the record is stored.
  abbrev finish_copy : Machine → ℕ → Machine
  finish_copy m n =
      let file = record m.writer.file {
        current_size = (m.writer.file.current_size + n) % 2 ^ 64;
      } in
      store_record (record m { writer = record m.writer { file = file } }) (marshal_text w file)

  -- The block leaves the pipe, and is then written to the file.
  abbrev copy_block : Machine → ℕ → ℕ → Time → Bytes → Machine
  copy_block m pos n now b =
      let taken = record m { writer = record m.writer { pending = none } } in
      if m.disk.refuses write_call m.writer.file.full_path then fail taken else record taken {
        writer = record taken.writer { phase = copying (pos + length b) (n + length b) };
        disk = write_open m.disk m.writer.file.full_path pos b now;
      }

  abbrev copy_step : Machine → ℕ → ℕ → Time → Option Bytes → Machine
  copy_step m pos n now (some b) = copy_block m pos n now b
  copy_step m pos n now none = if m.writer.closed then finish_copy m n else m

  -- `Seek` refuses an offset that is negative as an int64.
  abbrev step_from : Machine → Time → Phase → Machine
  step_from m now starting =
      if m.disk.refuses mkdir_call (dir m.writer.file.full_path)
      then fail m
      else open_made (record m { disk = mkdir_all m.disk m.writer.file.full_path now }) now
  step_from m now ready = in_phase m waiting
  step_from m now waiting = m
  step_from m now signalled =
      let offset = m.writer.file.current_size in
      if m.disk.refuses seek_call m.writer.file.full_path || leb (2 ^ 63) offset
      then fail m
      else in_phase m (copying offset 0)
  step_from m now (copying pos n) = copy_step m pos n now m.writer.pending
  step_from m now exited = m

  unfoldable pub writer_step : Machine → Time → Machine
  writer_step m now = step_from m now m.writer.phase

-- `Signal` wakes the goroutine only if it is waiting.
abbrev pub wake : Phase → Phase
wake waiting = signalled
wake p = p

module _ {T : Type 0} where
  -- The function given to `Once.Do` in `TransferFunction`.
  abbrev first_transfer : Writer T → ℕ → Writer T
  first_transfer x offset = if x.once_done then x else record x {
    file = record x.file { current_size = offset };
    phase = wake x.phase;
    once_done = true;
  }

  -- `writeChannel.Write`: on a pipe that is closed it returns at once, with an error that the
  -- caller drops. Otherwise the caller waits until the block is taken.
  abbrev write_pipe : Writer T → Bytes → Writer T
  write_pipe x b = if x.closed then x else record x { pending = some b }

  unfoldable pub transfer_to : Writer T → Bytes → ℕ → Writer T
  transfer_to x b offset = write_pipe (first_transfer x offset) b

  -- A `Write` that waits fails, and its block is lost.
  unfoldable pub close_pipe : Writer T → Writer T
  close_pipe x = record x { pending = none; closed = true }
