-- ===== src/Server/Writer/Completion.antt =====
-- A transfer that nothing goes wrong with is completed.
use torrxfer.Base.{
  ℕ, ◌+◌, ◌^◌, ◌<◌, ◌≡◌, true, false, List, [], ◌∷◌, ◌++◌, append_assoc, append-nil, none, some,
  arith, length, length-append, lookup, eq_bytes_refl,
}
use torrxfer.Text.{Bytes}
use torrxfer.Platform.{Platform}
use torrxfer.Database.{Database}
use torrxfer.Disk.{regular, write_at, write_call, seek_call}
use torrxfer.Disk.Writes.{write_at-append, lookup-write_open, write_open-refuses}
use torrxfer.Server.File.{File, marshal_text}
use torrxfer.Server.Writer.{Machine, copying, exited, writer_step, transfer_to, close_pipe}
use torrxfer.Server.Writer.Schedule.{Event, transfer, close, tick, handle, run}
use torrxfer.Server.Writer.Delivery.{IsWaiting, final_file}

module _ (w : Platform) (d : Database) where
  open w use {Time}

  -- The handler sends the blocks, each with its offset, then closes the pipe; the thread takes a
  -- step after each call.
  abbrev pub paced : Time → List (Bytes × ℕ) → List (Event Time)
  paced now [] = close ∷ tick now ∷ []
  paced now ((b, n) ∷ bs) = transfer b n ∷ tick now ∷ paced now bs

  -- The bytes of all blocks.
  abbrev pub blocks : List (Bytes × ℕ) → Bytes
  blocks [] = []
  blocks ((b, n) ∷ bs) = b ++ blocks bs

  -- The thread has copied `c` from the offset `o` on, and waits for the next block.
  pub record IsCopying (f : File Time) (key : Bytes) (db : d.State) (o : ℕ) (old c : Bytes)
      (stamp : Time) (m : Machine w d) : Type 0 where
    pub file : m.writer.file ≡ record f { current_size = o }
    pub once_done : m.writer.once_done ≡ true
    pub phase : m.writer.phase ≡ copying (o + length c) (length c)
    pub pending : m.writer.pending ≡ none
    pub closed : m.writer.closed ≡ false
    pub db_key : m.writer.db_key ≡ key
    pub stored : m.db ≡ db
    pub allowed : m.disk.refuses write_call f.full_path ≡ false
    pub written : lookup f.full_path m.disk.entries ≡ some (regular (write_at o c old) stamp)

  -- The thread has reported the file as done, with the bytes `c` in it and its record stored.
  pub record IsStored (f : File Time) (key : Bytes) (db : d.State) (o : ℕ) (old c : Bytes)
      (stamp : Time) (text : Bytes) (m : Machine w d) : Type 0 where
    pub done_sent : m.writer.done_sent ≡ true
    pub error_free : m.writer.phase ≡ exited
    pub written : lookup f.full_path m.disk.entries ≡ some (regular (write_at o c old) stamp)
    pub stored : m.db ≡ (d.put db key text).0

  module _ (f : File Time) (key : Bytes) (db : d.State) (o : ℕ) (old : Bytes) (now : Time) where
    -- One block more.
    pub transferred :
        {c : Bytes} {stamp : Time} (m : Machine w d) (b : Bytes) (n : ℕ)
        → IsCopying f key db o old c stamp m
        → IsCopying f key db o old
            (c ++ b)
            now
            (handle w d (handle w d m (transfer b n)) (tick now))
    unfolding handle writer_step transfer_to
    transferred {c} {stamp} m b n s = ground (
      arith,
      s.written,
      s.allowed,
      lookup-write_open m.disk f.full_path f.full_path (o + length c) b (write_at o c old) stamp
          now,
      write_open-refuses m.disk f.full_path (o + length c) b now,
      write_at-append o c b old,
      length-append {0} c b,
      eq_bytes_refl f.full_path,
    )

    pub finished :
        {c text : Bytes} {stamp : Time} (m : Machine w d)
        → IsCopying f key db o old c stamp m
        → marshal_text w (final_file w d f o (length c)) ≡ some text
        → IsStored f key db o old c stamp text (handle w d (handle w d m close) (tick now))
    unfolding handle writer_step close_pipe
    finished {c} m s h = ground (arith, s.written)

    run-paced :
        (m : Machine w d) (bs : List (Bytes × ℕ)) (c text : Bytes)
        → IsCopying f key db o old c now m
        → marshal_text w (final_file w d f o (length (c ++ blocks bs))) ≡ some text
        → IsStored f key db o old (c ++ blocks bs) now text (run w d m (paced now bs))
    unfolding run
    run-paced m [] c text s h = rw append-nil (finished m s (rw (append-nil c) at h))
    run-paced m ((b, n) ∷ bs) c text s h = rw (← append_assoc c b (blocks bs)) (
        run-paced (handle w d (handle w d m (transfer b n)) (tick now)) bs (c ++ b) text
          (transferred m b n s) (rw (← append_assoc c b (blocks bs)) at h))

  -- The thread is woken, seeks, and copies the first block.
  pub first_block :
      (m : Machine w d) (old : Bytes) (stamp now : Time) (b : Bytes) (o : ℕ)
      → IsWaiting w d old stamp m
      → m.disk.refuses write_call m.writer.file.full_path ≡ false
      → m.disk.refuses seek_call m.writer.file.full_path ≡ false
      → o < 2 ^ 63
      → IsCopying m.writer.file m.writer.db_key m.db o old b now
          (handle w d (handle w d (handle w d m (transfer b o)) (tick now)) (tick now))
  unfolding handle writer_step transfer_to
  first_block m old stamp now b o s may_write may_seek small = ground (
    arith,
    s.present,
    lookup-write_open m.disk m.writer.file.full_path m.writer.file.full_path o b old stamp now,
    write_open-refuses m.disk m.writer.file.full_path o b now,
    eq_bytes_refl m.writer.file.full_path,
  )

  -- A thread waits, with a disk that refuses neither the seek nor a write to the file, a first offset
  -- below 2^63, and a record that can be marshalled. A first block comes, then others, then the
  -- close, with a step of the thread after each of these and one more behind the first block, and the
  -- call of the database in the last step returns. Then the thread has reported that it is done, the
  -- file holds the blocks one behind another from the first offset on, with the rest of its old
  -- content, and Put was given the record with the end offset as its size, whatever it answered.
  pub completed :
      (m : Machine w d) (old : Bytes) (stamp now : Time) (b : Bytes) (bs : List (Bytes × ℕ)) (o : ℕ)
      (text : Bytes)
      → IsWaiting w d old stamp m
      → m.disk.refuses write_call m.writer.file.full_path ≡ false
      → m.disk.refuses seek_call m.writer.file.full_path ≡ false
      → o < 2 ^ 63
      → marshal_text w (final_file w d m.writer.file o (length (b ++ blocks bs))) ≡ some text
      → IsStored m.writer.file m.writer.db_key m.db o old
          (b ++ blocks bs)
          now
          text
          (run w d m (transfer b o ∷ tick now ∷ tick now ∷ paced now bs))
  unfolding run
  completed m old stamp now b bs o text s may_write may_seek small h =
      run-paced m.writer.file m.writer.db_key m.db o old now _ bs b text
        (first_block m old stamp now b o s may_write may_seek small) h
