-- ===== src/Server/Writer/LostSignal.antt =====
-- A first transfer that comes before the writer thread waits.
use torrxfer.Base.{ℕ, ◌≡◌, ◌⊎◌, Bool, true, false, List, [], ◌∷◌, none, some, arith}
use torrxfer.Text.{Bytes}
use torrxfer.Platform.{Platform}
use torrxfer.Database.{Database}
use torrxfer.Server.Writer.{Machine, starting, ready, waiting, exited, writer_step, transfer_to}
use torrxfer.Server.Writer.Schedule.{Event, transfer, close, tick, handle, run}

module _ (w : Platform) (d : Database) where
  open w use {Time}

  -- The signal was given, the thread is not past `Wait`, and a block stands in the pipe.
  record IsStuck (b : Bytes) (done : Bool) (db : d.State) (m : Machine w d) : Type 0 where
    given : m.writer.once_done ≡ true
    before :
        (m.writer.phase ≡ starting)
        ⊎ ((m.writer.phase ≡ ready) ⊎ ((m.writer.phase ≡ waiting) ⊎ (m.writer.phase ≡ exited)))
    held : m.writer.pending ≡ some b
    not_done : m.writer.done_sent ≡ done
    kept : m.db ≡ db

  writer_step-IsStuck :
      {b : Bytes} {done : Bool} {db : d.State} (m : Machine w d) (now : Time)
      → IsStuck b done db m
      → IsStuck b done db (writer_step w d m now)
  unfolding writer_step
  writer_step-IsStuck m now s = ground arith

  handle-IsStuck :
      {b : Bytes} {done : Bool} {db : d.State} (m : Machine w d) (e : Event Time)
      → IsStuck b done db m
      → IsStuck b done db (handle w d m e)
  unfolding handle
  handle-IsStuck m (transfer b offset) s = ground arith
  handle-IsStuck m close s = ground arith
  handle-IsStuck m (tick now) s = writer_step-IsStuck m now s

  run-IsStuck :
      {b : Bytes} {done : Bool} {db : d.State} (m : Machine w d) (es : List (Event Time))
      → IsStuck b done db m
      → IsStuck b done db (run w d m es)
  unfolding run
  run-IsStuck m [] s = s
  run-IsStuck m (e ∷ es) s = run-IsStuck (handle w d m e) es (handle-IsStuck m e s)

  -- If the first block of a transfer arrives before the writer thread waits for the signal, or
  -- when the thread has given up, the signal is lost: on every schedule the call that hands over
  -- the block waits for ever, nothing is reported as done, and the database is left as it was.
  pub lost_signal :
      (m : Machine w d) (b : Bytes) (offset : ℕ) (es : List (Event Time))
      → m.writer.once_done ≡ false
      → m.writer.pending ≡ none
      → m.writer.closed ≡ false
      → (m.writer.phase ≡ starting) ⊎ ((m.writer.phase ≡ ready) ⊎ (m.writer.phase ≡ exited))
      → ((run w d (handle w d m (transfer b offset)) es).writer.pending ≡ some b)
        × ((run w d (handle w d m (transfer b offset)) es).writer.done_sent ≡ m.writer.done_sent)
        × ((run w d (handle w d m (transfer b offset)) es).db ≡ m.db)
  lost_signal m b offset es first free open_pipe early =
      let s = run-IsStuck (handle w d m (transfer b offset)) es given in
      (s.held, s.not_done, s.kept)
    where
      given : IsStuck b m.writer.done_sent m.db (handle w d m (transfer b offset))
      given = unfold handle transfer_to in ground arith
