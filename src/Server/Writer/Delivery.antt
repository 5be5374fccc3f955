-- ===== src/Server/Writer/Delivery.antt =====
-- What stands in the file and in the database when the writer thread reports that it is done.
use torrxfer.Base.{
  ℕ, ◌+◌, ◌%◌, ◌^◌, ◌≡◌, inl, inr, true, false, List, [], ◌++◌, none, some, arith, length, lookup,
}
use torrxfer.Text.{Bytes}
use torrxfer.Platform.{Platform}
use torrxfer.Database.{Database}
use torrxfer.Disk.{regular, write_at}
use torrxfer.Server.File.{File, marshal_text}
use torrxfer.Server.Writer.{Machine, waiting, transfer_to}
use torrxfer.Server.Writer.Invariant.{accepted_on, Active, run-Good, Done-of-Good}
use torrxfer.Server.Writer.Schedule.{Event, transfer, handle, run}

module _ (w : Platform) (d : Database) where
  open w use {Time}

  -- A writer thread that waits for its first block, over a file with the content `old`.
  pub record IsWaiting (old : Bytes) (stamp : Time) (m : Machine w d) : Type 0 where
    pub phase : m.writer.phase ≡ waiting
    pub once_done : m.writer.once_done ≡ false
    pub pending : m.writer.pending ≡ none
    pub closed : m.writer.closed ≡ false
    pub done_sent : m.writer.done_sent ≡ false
    pub present : lookup m.writer.file.full_path m.disk.entries ≡ some (regular old stamp)

  -- The file's record after a transfer of `n` bytes from the offset `o` on.
  abbrev pub final_file : File Time → ℕ → ℕ → File Time
  final_file f o n = record f { current_size = (o + n) % 2 ^ 64 }

  -- If the thread was waiting when the first block came, then on every schedule on which it
  -- reports that it is done, the file holds, from the first block's offset on, exactly the bytes
  -- that the pipe has accepted, in their order, with the rest of its old content; and the
  -- database was given the file's record with the offset behind the last byte as its size.
  pub delivered :
      (m : Machine w d) (old : Bytes) (stamp : Time) (b : Bytes) (o : ℕ) (es : List (Event Time))
      → IsWaiting old stamp m
      → (run w d (handle w d m (transfer b o)) es).writer.done_sent ≡ true
      → (stamp' : Time) × (text : Bytes) × (lookup m.writer.file.full_path
            (run w d (handle w d m (transfer b o)) es).disk.entries
          ≡ some (
              regular
                (write_at o (b ++ accepted_on w d (handle w d m (transfer b o)) es) old)
                stamp'))
        × (marshal_text w (
              final_file m.writer.file o
                (length (b ++ accepted_on w d (handle w d m (transfer b o)) es)))
            ≡ some text)
        × ((run w d (handle w d m (transfer b o)) es).db ≡ (d.put m.db m.writer.db_key text).0)
  delivered m old stamp b o es s h =
      let (stamp', text, x) =
        Done-of-Good w d m.writer.file m.writer.db_key o old m.db (b ++ accepted_on w d m1 es)
          (run w d m1 es)
          (run-Good w d m.writer.file m.writer.db_key o old m.db m1 es b
            (inr (inl ([], stamp, woken))))
          h in
      (stamp', text, x.written, x.marshalled, x.stored)
    where
      m1 : Machine w d
      m1 = handle w d m (transfer b o)

      woken :
          Active w d m.writer.file m.writer.db_key o old m.db [] b stamp
            (handle w d m (transfer b o))
      woken = unfold handle transfer_to write_at in ground (arith, s.present)
