-- ===== src/Server/Writer/Schedule.antt =====
-- The writer thread and the handler that feeds it, interleaved in any order.
use torrxfer.Base.{◌≡◌, refl, arith, ℕ, List, [], ◌∷◌, Option, none, some}
use torrxfer.Text.{Bytes}
use torrxfer.Platform.{Platform}
use torrxfer.Database.{Database}
use torrxfer.Server.Writer.{Machine, Writer, writer_step, transfer_to, close_pipe}

-- The handler calls `TransferFunction` with a block and an offset, or closes the pipe; or the
-- thread takes a step, at some time of day.
pub data Event (T : Type 0) : Type 0 where
  transfer : Bytes → ℕ → Event T
  close : Event T
  tick : T → Event T

module _ (w : Platform) (d : Database) where
  open w use {Time}

  -- While a `Write` waits the handler is stuck in it, and does nothing else.
  abbrev when_free : Machine w d → Option Bytes → Writer Time → Machine w d
  when_free m none x = record m { writer = x }
  when_free m (some _) x = m

  unfoldable pub handle : Machine w d → Event Time → Machine w d
  handle m (transfer b offset) = when_free m m.writer.pending (transfer_to m.writer b offset)
  handle m close = when_free m m.writer.pending (close_pipe m.writer)
  handle m (tick now) = writer_step w d m now

  unfoldable pub run : Machine w d → List (Event Time) → Machine w d
  unfolding handle
  run m [] = m
  run m (e ∷ es) = run (handle m e) es

  when_free_lem :
      (m : Machine w d) (p : Option Bytes) (x : Writer Time)
      → p ≡ none
      → when_free m p x ≡ record m { writer = x }
  when_free_lem m none x e = refl
  when_free_lem m (some b) x e = absurd (ground arith)

  -- The handler is not stuck in a `Write`.
  pub handle-transfer :
      (m : Machine w d) (b : Bytes) (o : ℕ)
      → m.writer.pending ≡ none
      → handle m (transfer b o) ≡ record m { writer = transfer_to m.writer b o }
  unfolding handle
  handle-transfer m b o e = when_free_lem m m.writer.pending (transfer_to m.writer b o) e

  pub handle-close :
      (m : Machine w d)
      → m.writer.pending ≡ none
      → handle m close ≡ record m { writer = close_pipe m.writer }
  unfolding handle
  handle-close m e = when_free_lem m m.writer.pending (close_pipe m.writer) e
