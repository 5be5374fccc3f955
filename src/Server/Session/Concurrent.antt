-- ===== src/Server/Session/Concurrent.antt =====
-- What becomes of an upload among the calls of other clients.
use torrxfer.Base.{
  ℕ, ◌^◌, ◌<◌, ◌≡◌, ◌∙◌, true, false, List, [], ◌∷◌, ◌++◌, some, All, lookup, length, get_elem?,
  sym, ap,
}
use torrxfer.Text.{Bytes}
use torrxfer.Platform.{Platform}
use torrxfer.Database.{Database}
use torrxfer.Disk.{regular, write_at, write_call, seek_call}
use torrxfer.Server.File.{File, marshal_text}
use torrxfer.Server.Writer.{Machine, Writer}
use torrxfer.Server.Writer.Schedule.{Event, transfer, tick, run}
use torrxfer.Server.Writer.Delivery.{IsWaiting, final_file}
use torrxfer.Server.Writer.Completion.{
  IsCopying, paced, blocks, transferred, first_block, completed,
}
use torrxfer.Server.State.{Server}
use torrxfer.Server.Session
use torrxfer.Server.Session.{Operation}
use torrxfer.Server.Session.Frame.{operate_all}
use torrxfer.Server.Session.Beside.{IsBeside}
use torrxfer.Server.Session.Interleaved.{IsOfOthers, IsPatient, all_seen, operate_all-IsBeside}

module _ (w : Platform) (d : Database) where
  open w use {Time}

  -- A thread that takes a step after each call leaves no `Write` waiting.
  paced-IsPatient :
      (f : File Time) (key : Bytes) (db : d.State) (o : ℕ) (old : Bytes) (now stamp : Time)
      (bs : List (Bytes × ℕ)) (copied : Bytes) (m : Machine w d)
      → IsCopying w d f key db o old copied stamp m
      → IsPatient w d m (paced w d now bs)
  paced-IsPatient f key db o old now stamp [] copied m k = (k.pending, (tt, tt))
  paced-IsPatient f key db o old now stamp ((b, n) ∷ bs) copied m k = (
    k.pending,
    (
      tt,
      paced-IsPatient f key db o old now now bs (copied ++ b) _
          (transferred w d f key db o old now m b n k),
    ),
  )

  -- A client sends a block and others and closes, and its thread takes a step after each call, and
  -- one more behind the first block, where it has to wake up.
  abbrev pub turns : Time → Bytes → ℕ → List (Bytes × ℕ) → List (Event Time)
  turns now b o bs = transfer b o ∷ tick now ∷ tick now ∷ paced w d now bs

  -- Nothing stands in the way of an upload to a writer that waits.
  pub record IsFree (m : Machine w d) (old : Bytes) (stamp : Time) (content : Bytes) (o : ℕ)
      (text : Bytes) : Type 0 where
    pub waits : IsWaiting w d old stamp m
    pub may_write : m.disk.refuses write_call m.writer.file.full_path ≡ false
    pub may_seek : m.disk.refuses seek_call m.writer.file.full_path ≡ false
    pub small : o < 2 ^ 63
    pub marshalled : marshal_text w (final_file w d m.writer.file o (length content)) ≡ some text

  pub turns-IsPatient :
      (m : Machine w d) (old : Bytes) (stamp now : Time) (b : Bytes) (o : ℕ) (bs : List (Bytes × ℕ))
      (text : Bytes)
      → IsFree m old stamp (b ++ blocks w d bs) o text
      → IsPatient w d m (turns now b o bs)
  turns-IsPatient m old stamp now b o bs text v = (
    v.waits.pending,
    (
      tt,
      (
        tt,
        paced-IsPatient m.writer.file m.writer.db_key m.db o old now now bs b _
            (first_block w d m old stamp now b o v.waits v.may_write v.may_seek v.small),
      ),
    ),
  )

  -- The file of the writer `i` has the content, and its thread says that it is done.
  abbrev pub IsThere : ℕ → Bytes → Bytes → Time → Server w d → Type 0
  IsThere i q content now s =
      (lookup q s.disk.entries ≡ some (regular content now))
      × (y : Writer Time) × (get_elem? s.writers i ≡ some y)
      × (y.done_sent ≡ true)

  pub turns-IsThere :
      (c : Bytes) (i : ℕ) (root q : Bytes) (m : Machine w d) (s : Server w d) (old : Bytes)
      (stamp now : Time) (b : Bytes) (o : ℕ) (bs : List (Bytes × ℕ)) (text : Bytes)
      → m.writer.file.full_path ≡ q
      → IsFree m old stamp (b ++ blocks w d bs) o text
      → IsBeside w d c i root q (run w d m (turns now b o bs)) s
      → IsThere i q (write_at o (b ++ blocks w d bs) old) now s
  turns-IsThere c i root q m s old stamp now b o bs text path v k =
      let end = run w d m (turns now b o bs) in
      let stored =
        completed w d m old stamp now b bs o text v.waits v.may_write v.may_seek v.small
          v.marshalled in
      (
        k.disk.there ∙ (ap (λ (p : Bytes). lookup p end.disk.entries) (sym path) ∙ stored.written),
        end.writer,
        k.writer,
        stored.done_sent,
      )

  module _ (c : Bytes) (i : ℕ) (root q : Bytes) (m : Machine w d) (s s' : Server w d) (b : Bytes)
      (o : ℕ) (old : Bytes) (stamp : Time) where
    -- The file of a client is a waiting writer, which alone is for its path, over a disk that refuses
    -- neither the seek nor a write to it. The client sends a first block with an offset below 2^63,
    -- then others, and closes, with steps of its thread after each; whatever operations of other
    -- clients and of their threads come in between, with no query for that path or from that client.
    -- If the record can be marshalled and the process runs on, then the thread says that it is done,
    -- and the file holds the blocks from the first offset on, with the rest of its old content.
    pub completed_beside :
        (ops : List (Operation w d)) (bs : List (Bytes × ℕ)) (now : Time) (text : Bytes)
        → IsBeside w d c i root q m s
        → IsFree m old stamp (b ++ blocks w d bs) o text
        → All (IsOfOthers w d c root q) ops
        → all_seen w d c i ops ≡ turns now b o bs
        → operate_all w d s ops ≡ some s'
        → IsThere i q (write_at o (b ++ blocks w d bs) old) now s'
    completed_beside ops bs now text v free others e h =
        turns-IsThere c i root q m s' old stamp now b o bs text v.path free (
          rw (← e) (
            operate_all-IsBeside w d c i root q ops m s s' others
              (rw e (turns-IsPatient m old stamp now b o bs text free)) h v))
