-- ===== src/Server/Endpoint/Opening.antt =====
-- pkg/server/server.go: the query that starts a writer, and the writer until it waits.
use mathlib.Core.Path.{subst}
use torrxfer.Base.{
  ◌≡◌, inl, inr, refl, ap, false, [], ◌∷◌, Option, none, some, arith, length, length-append, lookup,
  insert, erase, lookup-insert, lookup-erase, eq_bytes_refl, get_elem?-length, Option-cases,
}
use torrxfer.Disk.Directories.{mkdir_all-elsewhere, mkdir_all-refuses, parents-IsNone}
use torrxfer.Text.{Bytes}
use torrxfer.Platform.{Platform}
use torrxfer.Database.{Database}
use torrxfer.Disk.{
  Disk, Call, stat_call, remove_call, mkdir_call, mkdir_all, open_call, Entry, regular, directory,
  os_stat, os_remove, open_file,
}
use torrxfer.FilePath.{dir}
use torrxfer.Net.File.{Outcome, done, exits, WireFile, get_data_hash}
use torrxfer.Server.File.{File, marshal_text}
use torrxfer.Server.Writer.{Machine, ready, waiting, writer_step}
use torrxfer.Server.Writer.Delivery.{IsWaiting}
use torrxfer.Server.State.{Server, new_writer, set_active_file, is_file_active, thread_steps}
use torrxfer.Server.Query.{query_function, path_of, remove_old, new_record, Reply, reply, start_new}
use torrxfer.Server.Endpoint.Placed.{IsAt, thread_step-IsAt, twice}

module _ (w : Platform) (d : Database) where
  open w use {Time}

  -- The disk refuses nothing.
  abbrev pub IsWilling : Disk Time → Type 0
  IsWilling disk = (call : Call) (p : Bytes) → disk.refuses call p ≡ false

  pub mkdir_all-IsWilling :
      (disk : Disk Time) (path : Bytes) (now : Time)
      → IsWilling disk
      → IsWilling (mkdir_all disk path now)
  mkdir_all-IsWilling disk path now willing call p =
      rw (mkdir_all-refuses disk path now) (willing call p)

  -- The disk without an old file at the path.
  pub remove_old-clears :
      (disk : Disk Time) (path : Bytes)
      → IsWilling disk
      → (disk' : Disk Time) × (remove_old w d disk path (os_stat disk path) ≡ some disk')
        × (lookup path disk'.entries ≡ none)
        × IsWilling disk'
  unfolding os_stat os_remove
  remove_old-clears disk path willing = elim (Option-cases (lookup path disk.entries)) [
    | inl e ↦ (disk, rw (willing _ path, e) refl, e, willing)
    | inr (r, e) ↦ (
      record disk { entries = erase path disk.entries },
      cleared r e,
      rw (lookup-erase path path disk.entries, eq_bytes_refl path) refl,
      willing,
    )
  ]
    where
      cleared :
          (r : Entry Time)
          → lookup path disk.entries ≡ some r
          → remove_old w d disk path (os_stat disk path)
            ≡ some (record disk { entries = erase path disk.entries })
      cleared (regular b t) e = rw (willing stat_call path, e, willing remove_call path, e) refl
      cleared (directory n t) e = rw (willing stat_call path, e, willing remove_call path, e) refl

  -- A new writer, its disk and its database; and the same when its thread waits.
  abbrev pub new_machine : Disk Time → d.State → File Time → Bytes → Machine w d
  new_machine disk db f key = record { writer = new_writer f key; disk = disk; db = db }

  abbrev pub waiting_machine : Disk Time → d.State → File Time → Bytes → Time → Machine w d
  waiting_machine disk db f key now = record {
    writer = record (new_writer f key) { phase = waiting };
    disk = record (mkdir_all disk f.full_path now) {
      entries = insert f.full_path (regular [] now) (mkdir_all disk f.full_path now).entries;
    };
    db = db;
  }

  -- A new writer's thread makes the directories, opens the file, and waits.
  pub new_machine-waiting_machine :
      (disk : Disk Time) (db : d.State) (f : File Time) (key : Bytes) (now : Time)
      → IsWilling disk
      → lookup f.full_path disk.entries ≡ none
      → writer_step w d (writer_step w d (new_machine disk db f key) now) now
        ≡ waiting_machine disk db f key now
  unfolding writer_step open_file
  new_machine-waiting_machine disk db f key now willing e = ap (λ m. writer_step w d m now) opened
    where
      opened :
          writer_step w d (new_machine disk db f key) now
          ≡ record (waiting_machine disk db f key now) {
            writer = record (new_writer f key) { phase = ready };
          }
      opened =
          rw
            (
              willing mkdir_call (dir f.full_path),
              mkdir_all-IsWilling disk f.full_path now willing open_call f.full_path,
              mkdir_all-elsewhere disk f.full_path f.full_path now (parents-IsNone f.full_path),
              e,
            )
            refl

  pub waiting_machine-IsWaiting :
      (disk : Disk Time) (db : d.State) (f : File Time) (key : Bytes) (now : Time)
      → IsWaiting w d [] now (waiting_machine disk db f key now)
  waiting_machine-IsWaiting disk db f key now = record {
    phase = refl;
    once_done = refl;
    pending = refl;
    closed = refl;
    done_sent = refl;
    present =
        rw
          (
            lookup-insert f.full_path f.full_path (regular [] now)
                (mkdir_all disk f.full_path now).entries,
            eq_bytes_refl f.full_path,
          )
          refl;
  }

  pub set_active_file-IsAt :
      (s : Server w d) (c key : Bytes) (f : File Time)
      → IsAt w d c
          (length s.writers)
          (record { writer = new_writer f key; disk = s.disk; db = s.db })
          (set_active_file w d s c key f)
  unfolding set_active_file is_file_active
  set_active_file-IsAt s c key f = record {
    active = rw (lookup-insert c c (length s.writers) s.active_files, eq_bytes_refl c) refl;
    in_range = ground (arith, length-append {0} s.writers (new_writer f key ∷ []));
    writer = get_elem?-length s.writers (new_writer f key);
    disk = refl;
    db = refl;
  }

  replied :
      (t s' : Server w d) (r : WireFile) (o : Outcome WireFile)
      → reply w d t o ≡ done (s', some r)
      → s' ≡ t
  replied t s' r exits h = absurd (ground arith)
  replied t s' r (done x) h =
      let h' : ◌≡◌ {A = Reply w d} (done (t, some x)) (done (s', some r)) = h in ground arith

  -- The server after a query for an unknown file, before the file's thread has taken a step.
  start_new-started :
      (s s' : Server w d) (c : Bytes) (file r : WireFile) (f : File Time) (now : Time)
      (text : Option Bytes)
      → start_new w d s c file f 0 now text ≡ done (s', some r)
      → (db : d.State) × (s' ≡ set_active_file w d (record s { db = db }) c (get_data_hash file) f)
  unfolding thread_steps
  start_new-started s s' c file r f now none h = absurd (ground arith)
  start_new-started s s' c file r f now (some text) h =
      ((d.put s.db (get_data_hash file) text).0, replied _ s' r _ h)

  pub query_function-started :
      (s s' : Server w d) (c : Bytes) (file r : WireFile) (created modified : Time)
      → d.has s.db (get_data_hash file) ≡ false
      → IsWilling s.disk
      → query_function w d s c file created modified 0 ≡ done (s', some r)
      → (disk : Disk Time) × (db : d.State) × (lookup (path_of w d s file) disk.entries ≡ none)
        × IsWilling disk
        × (s'
            ≡ set_active_file w d
                (record s { disk = disk; db = db })
                c
                (get_data_hash file)
                (new_record w d s file created modified))
  unfolding query_function
  query_function-started s s' c file r created modified new willing h =
      let (disk, removed, gone, willing') = remove_old-clears s.disk (path_of w d s file) willing in
      let (db, e) =
        start_new-started (record s { disk = disk }) s' c file r
          (new_record w d s file created modified) modified
          (marshal_text w (new_record w d s file created modified)) (rw (new, removed) at h) in
      (disk, db, gone, willing', e)

  -- The writer that a query has started waits once its thread has taken two steps.
  pub query_function-IsAt :
      (s s' : Server w d) (c : Bytes) (file r : WireFile) (created modified opened : Time)
      → d.has s.db (get_data_hash file) ≡ false
      → IsWilling s.disk
      → query_function w d s c file created modified 0 ≡ done (s', some r)
      → (disk : Disk Time) × (db : d.State) × IsWilling disk
        × IsAt w d c
            (length s.writers)
            (waiting_machine disk db
              (new_record w d s file created modified)
              (get_data_hash file)
              opened)
            (twice w d (length s.writers) opened s')
  query_function-IsAt s s' c file r created modified opened new willing h =
      let (disk, db, gone, willing', e) =
        query_function-started s s' c file r created modified new willing h in
      let f = new_record w d s file created modified in
      let t = record s { disk = disk; db = db } in
      let at = set_active_file-IsAt t c (get_data_hash file) f in
      let at1 = thread_step-IsAt w d c (length s.writers) _ _ opened at in
      let at2 = thread_step-IsAt w d c (length s.writers) _ _ opened at1 in
      (
        disk,
        db,
        willing',
        rw e (
            subst
              (λ m. IsAt w d c (length s.writers) m (
                twice w d (length s.writers) opened
                  (set_active_file w d t c (get_data_hash file) f)))
              (new_machine-waiting_machine disk db f (get_data_hash file) opened willing' gone)
              at2),
      )
