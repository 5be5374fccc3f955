-- ===== src/Server/Session/Table.antt =====
-- What each operation of the server does to the table of the active files.
use torrxfer.Base.{
  ℕ, zero, suc, ◌+◌, ◌≡◌, ◌⊎◌, inl, inr, refl, [], ◌∷◌, Option, none, some, arith, length,
  length-append, length-set, get_elem?, insert, eq_bytes, Bool-cases,
}
use torrxfer.Text.{Bytes}
use torrxfer.Platform.{Platform}
use torrxfer.Disk.{Disk}
use torrxfer.Database.{Database}
use torrxfer.Net.File.{Outcome, done, exits, WireFile, get_data_hash}
use torrxfer.Server.File.{File, UnmarshalError, generate_rpc_file}
use torrxfer.Server.Writer.{Writer}
use torrxfer.Server.State.{
  Server, set_active_file, new_writer, step_writer, transfer_writer, transfer_at, close_writer,
  close_at, thread_step, thread_steps,
}
use torrxfer.Server.Query.{
  Reply, reply, query_new, new_record, resume, start_new, query_record, query_known, query_function,
}

module _ (w : Platform) (d : Database) where
  open w use {Time}

  -- No file is given to a client or taken from it, and no writer is started.
  abbrev pub Keeps : Server w d → Server w d → Type 0
  Keeps s s' = (s'.active_files ≡ s.active_files) × (length s'.writers ≡ length s.writers)

  step_writer-Keeps :
      (s : Server w d) (i : ℕ) (now : Time) (x : Option (Writer Time))
      → Keeps s (step_writer w d s i now x)
  step_writer-Keeps s i now none = (refl, refl)
  step_writer-Keeps s i now (some x) = (refl, length-set s.writers i _)

  pub thread_step-Keeps : (s : Server w d) (i : ℕ) (now : Time) → Keeps s (thread_step w d s i now)
  unfolding thread_step
  thread_step-Keeps s i now = step_writer-Keeps s i now (get_elem? s.writers i)

  thread_steps-Keeps :
      (n : ℕ) (s : Server w d) (i : ℕ) (now : Time) → Keeps s (thread_steps w d n s i now)
  unfolding thread_steps
  thread_steps-Keeps zero s i now = (refl, refl)
  thread_steps-Keeps (suc n) s i now =
      ground
        (arith, thread_step-Keeps s i now, thread_steps-Keeps n (thread_step w d s i now) i now)

  transfer_writer-Keeps :
      (s : Server w d) (b : Bytes) (o i : ℕ) (x : Option (Writer Time))
      → Keeps s (transfer_writer w d s b o i x).0
  transfer_writer-Keeps s b o i none = (refl, refl)
  transfer_writer-Keeps s b o i (some x) = (refl, length-set s.writers i _)

  pub transfer_at-Keeps :
      (s : Server w d) (b : Bytes) (o : ℕ) (i : Option ℕ) → Keeps s (transfer_at w d s b o i).0
  transfer_at-Keeps s b o none = (refl, refl)
  transfer_at-Keeps s b o (some i) = transfer_writer-Keeps s b o i (get_elem? s.writers i)

  close_writer-Keeps :
      (s : Server w d) (i : ℕ) (x : Option (Writer Time)) → Keeps s (close_writer w d s i x)
  close_writer-Keeps s i none = (refl, refl)
  close_writer-Keeps s i (some x) = (refl, length-set s.writers i _)

  pub close_at-Keeps : (s : Server w d) (i : Option ℕ) → Keeps s (close_at w d s i)
  close_at-Keeps s none = (refl, refl)
  close_at-Keeps s (some i) = close_writer-Keeps s i (get_elem? s.writers i)

  -- What a query does to the table: nothing, or the client is given the last of one writer more.
  abbrev pub Gives : Bytes → Server w d → Server w d → Type 0
  Gives c s s' =
      Keeps s s'
      ⊎ ((s'.active_files ≡ insert c (length s.writers) s.active_files)
          × (length s'.writers ≡ length s.writers + 1))

  abbrev pub GivesReply : Bytes → Server w d → Reply w d → Type 0
  GivesReply c s exits = Unit
  GivesReply c s (done (s', r)) = Gives c s s'

  set_active_file-Gives :
      (s : Server w d) (c key : Bytes) (f : File Time) → Gives c s (set_active_file w d s c key f)
  unfolding set_active_file
  set_active_file-Gives s c key f =
      inr (refl, omega (arith, length-append {0} s.writers (new_writer f key ∷ [])))

  reply-Gives :
      (c : Bytes) (s s' : Server w d) (o : Outcome WireFile)
      → Gives c s s'
      → GivesReply c s (reply w d s' o)
  reply-Gives c s s' exits g = tt
  reply-Gives c s s' (done r) g = g

  Keeps-Gives : (c : Bytes) (s s' s'' : Server w d) → Gives c s s' → Keeps s' s'' → Gives c s s''
  Keeps-Gives c s s' s'' (inl k) k' = inl (ground arith)
  Keeps-Gives c s s' s'' (inr g) k' = inr (ground arith)

  start_new-Gives :
      (s : Server w d) (c : Bytes) (file : WireFile) (f : File Time) (n : ℕ) (now : Time)
      (text : Option Bytes)
      → GivesReply c s (start_new w d s c file f n now text)
  start_new-Gives s c file f n now none = inl ((refl, refl))
  start_new-Gives s c file f n now (some text) =
      let s1 = record s { db = (d.put s.db (get_data_hash file) text).0 } in
      let s2 = set_active_file w d s1 c (get_data_hash file) f in
      let s3 = thread_steps w d n s2 (length s.writers) now in
      reply-Gives c s s3 (generate_rpc_file w s3.disk f) (
        Keeps-Gives c s s2 s3 (set_active_file-Gives s1 c (get_data_hash file) f)
          (thread_steps-Keeps n s2 (length s.writers) now))

  query_new-Gives :
      (s : Server w d) (c : Bytes) (file : WireFile) (t u : Time) (n : ℕ)
      (disk : Option (Disk Time))
      → GivesReply c s (query_new w d s c file t u n disk)
  query_new-Gives s c file t u n none = inl ((refl, refl))
  query_new-Gives s c file t u n (some disk) =
      start_new-Gives (record s { disk = disk }) c file (new_record w d s file t u) n u _

  resume-Gives :
      (s : Server w d) (c : Bytes) (file : WireFile) (f : File Time) (o : Outcome WireFile)
      → GivesReply c s (resume w d s c file f o)
  resume-Gives s c file f exits = tt
  resume-Gives s c file f (done r) =
      elim (Bool-cases (eq_bytes (get_data_hash r) (get_data_hash file))) [
        | inl same ↦ rw same (inl ((refl, refl)))
        | inr other ↦ rw other (set_active_file-Gives s c (get_data_hash file) f)
      ]

  query_record-Gives :
      (s : Server w d) (c : Bytes) (file : WireFile) (e : Option UnmarshalError)
      → GivesReply c s (query_record w d s c file e)
  query_record-Gives s c file (some e) = inl ((refl, refl))
  query_record-Gives s c file none = resume-Gives s c file _ _

  query_known-Gives :
      (s : Server w d) (c : Bytes) (file : WireFile) (text : Option Bytes)
      → GivesReply c s (query_known w d s c file text)
  query_known-Gives s c file none = inl ((refl, refl))
  query_known-Gives s c file (some text) = query_record-Gives s c file _

  pub query_function-Gives :
      (s : Server w d) (c : Bytes) (file : WireFile) (t u : Time) (n : ℕ)
      → GivesReply c s (query_function w d s c file t u n)
  unfolding query_function
  query_function-Gives s c file t u n = elim (Bool-cases (d.has s.db (get_data_hash file))) [
    | inl known ↦ rw known (query_known-Gives s c file _)
    | inr new ↦ rw new (query_new-Gives s c file t u n _)
  ]
