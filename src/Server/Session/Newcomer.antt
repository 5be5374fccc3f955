-- ===== src/Server/Session/Newcomer.antt =====
-- A new file of one client, from the query on, among the calls of other clients.
use mathlib.Core.Path.{subst}
use torrxfer.Base.{
  ℕ, ◌<◌, ◌≡◌, ◌∙◌, inl, inr, refl, sym, false, List, [], ◌∷◌, ◌++◌, none, some, arith, All, lookup,
  lookup-insert, eq_bytes_iff, eq_bytes_refl, length, length-append, get_elem?-length,
  get_elem?-snoc,
}
use torrxfer.Disk.Directories.{IsNone}
use torrxfer.Server.Session.Apart.{path_below}
use torrxfer.Text.{Bytes}
use torrxfer.Platform.{Platform}
use torrxfer.Database.{Database}
use torrxfer.Disk.{Disk, parents, write_call, seek_call}
use torrxfer.Disk.Writes.{write_at-empty}
use torrxfer.Net.File.{done, WireFile, get_data_hash}
use torrxfer.Server.File.{File, marshal_text}
use torrxfer.Server.Writer.{Machine}
use torrxfer.Server.Writer.Schedule.{tick, run}
use torrxfer.Server.Writer.Delivery.{final_file}
use torrxfer.Server.Writer.Completion.{blocks}
use torrxfer.Server.State.{Server, new_writer, set_active_file}
use torrxfer.Server.Query.{query_function, path_of, new_record}
use torrxfer.Server.Endpoint.Opening.{
  IsWilling, mkdir_all-IsWilling, new_machine, waiting_machine, waiting_machine-IsWaiting,
  new_machine-waiting_machine, query_function-started,
}
use torrxfer.Server.Session.{Operation, Reach, query}
use torrxfer.Server.Session.Access.{Reach-in_range}
use torrxfer.Server.Session.Elsewhere.{IsElsewhere}
use torrxfer.Server.Session.Untouched.{All-get_elem?}
use torrxfer.Server.Session.Frame.{operate_all}
use torrxfer.Server.Session.Beside.{IsBeside}
use torrxfer.Server.Session.Interleaved.{IsOfOthers, IsPatient, all_seen, operate_all-IsBeside}
use torrxfer.Server.Session.Concurrent.{turns, IsFree, IsThere, turns-IsPatient, turns-IsThere}

module _ (w : Platform) (d : Database) where
  open w use {Time}

  -- A writer that was just started is the only one for its path, if there was none before.
  set_active_file-IsBeside :
      (s : Server w d) (c key : Bytes) (f : File Time)
      → ((k : Bytes) (j : ℕ) → lookup k s.active_files ≡ some j → j < length s.writers)
      → All (IsElsewhere w d f.full_path) s.writers
      → IsBeside w d c
          (length s.writers)
          s.server_root_dir
          f.full_path
          (new_machine w d s.disk s.db f key)
          (set_active_file w d s c key f)
  unfolding set_active_file
  set_active_file-IsBeside s c key f in_range elsewhere = record {
    at_root = refl;
    active = rw (lookup-insert c c (length s.writers) s.active_files, eq_bytes_refl c) refl;
    sole = λ k e. ground (
      arith,
      in_range k (length s.writers),
      lookup-insert c k (length s.writers) s.active_files,
      eq_bytes_iff c k,
    );
    in_range = ground (arith, length-append {0} s.writers (new_writer f key ∷ []));
    writer = get_elem?-length s.writers (new_writer f key);
    path = refl;
    disk = record { there = refl; refuses = refl };
    others = λ j x ne e. elim (get_elem?-snoc s.writers (new_writer f key) j) [
      | inl h ↦ All-get_elem? (IsElsewhere w d f.full_path) s.writers j x elsewhere (sym h ∙ e)
      | inr (at, h) ↦ absurd (ne at)
    ];
  }

  -- A new writer whose thread opens the file before the client's blocks come.
  new_machine-IsThere :
      (s1 s' : Server w d) (c : Bytes) (i : ℕ) (root : Bytes) (disk : Disk Time) (db : d.State)
      (f : File Time) (key : Bytes) (opened now : Time) (ops : List (Operation w d)) (b : Bytes)
      (bs : List (Bytes × ℕ)) (text : Bytes)
      → IsWilling w d disk
      → lookup f.full_path disk.entries ≡ none
      → marshal_text w (final_file w d f 0 (length (b ++ blocks w d bs))) ≡ some text
      → IsBeside w d c i root f.full_path (new_machine w d disk db f key) s1
      → All (IsOfOthers w d c root f.full_path) ops
      → all_seen w d c i ops ≡ tick opened ∷ tick opened ∷ turns w d now b 0 bs
      → operate_all w d s1 ops ≡ some s'
      → IsThere w d i f.full_path (b ++ blocks w d bs) now s'
  unfolding run
  new_machine-IsThere s1 s' c i root disk db f key opened now ops b bs text willing gone m v others
        e k =
      let m0 = new_machine w d disk db f key in
      let m1 = waiting_machine w d disk db f key opened in
      let opens = new_machine-waiting_machine w d disk db f key opened willing gone in
      let free : IsFree w d m1 [] opened (b ++ blocks w d bs) 0 text = record {
        waits = waiting_machine-IsWaiting w d disk db f key opened;
        may_write = mkdir_all-IsWilling w d disk f.full_path opened willing write_call f.full_path;
        may_seek = mkdir_all-IsWilling w d disk f.full_path opened willing seek_call f.full_path;
        small = omega arith;
        marshalled = m;
      } in
      let patient =
        subst (λ (x : Machine w d). IsPatient w d x (turns w d now b 0 bs)) (sym opens)
          (turns-IsPatient w d m1 [] opened now b 0 bs text free) in
      let end =
        operate_all-IsBeside w d c i root f.full_path ops m0 s1 s' others (rw e (tt, (tt, patient)))
          k v in
      subst (λ (x : Bytes). IsThere w d i f.full_path x now s')
        (write_at-empty (b ++ blocks w d bs))
        (turns-IsThere w d c i root f.full_path m1 s' [] opened now b 0 bs text refl free (
          subst
            (λ (x : Machine w d).
              IsBeside w d c i root f.full_path (run w d x (turns w d now b 0 bs)) s')
            opens (rw e at end)))

  -- A query is not for a path at which a directory above `q` has to be made.
  abbrev pub SparesAbove : Bytes → Bytes → Operation w d → Type 0
  SparesAbove root q (query k file t u n) = IsNone (path_below w d root file) (parents q)
  SparesAbove root q _ = Unit

  -- In a state that a server can reach, with a disk that refuses nothing, a client asks for a file of
  -- which the database has no record, and gets a reply; no writer is for its path, for a path below
  -- it, or for a path above it. Its new thread takes two steps; then the client sends the blocks and
  -- closes, with a step of the thread after each call and one more behind the first block, and its
  -- call of the database returns in the last step. Whatever calls other clients make and whatever
  -- steps other threads take in between, with no query from that client, and none for that path, a
  -- path below it or a path above it: if the record can be marshalled and the process runs on, then
  -- exactly the blocks stand at the path, whatever was there before, and the thread says that it is
  -- done.
  pub new_file_beside :
      {cs : List Bytes} (s s1 s' : Server w d) (c : Bytes) (file r : WireFile)
      (created modified opened now : Time) (ops : List (Operation w d)) (b : Bytes)
      (bs : List (Bytes × ℕ)) (text : Bytes)
      → Reach w d cs s
      → All (IsElsewhere w d (path_of w d s file)) s.writers
      → All (λ x. IsNone x.file.full_path (parents (path_of w d s file))) s.writers
      → d.has s.db (get_data_hash file) ≡ false
      → IsWilling w d s.disk
      → query_function w d s c file created modified 0 ≡ done (s1, some r)
      → marshal_text w
          (final_file w d (new_record w d s file created modified) 0 (length (b ++ blocks w d bs)))
        ≡ some text
      → All (IsOfOthers w d c s.server_root_dir (path_of w d s file)) ops
      → All (SparesAbove s.server_root_dir (path_of w d s file)) ops
      → all_seen w d c (length s.writers) ops ≡ tick opened ∷ tick opened ∷ turns w d now b 0 bs
      → operate_all w d s1 ops ≡ some s'
      → IsThere w d (length s.writers) (path_of w d s file) (b ++ blocks w d bs) now s'
  new_file_beside s s1 s' c file r created modified opened now ops b bs text reach elsewhere above
        new willing h m others spares e k =
      let (disk, db, gone, willing', started) =
        query_function-started w d s s1 c file r created modified new willing h in
      let f = new_record w d s file created modified in
      new_machine-IsThere s1 s' c (length s.writers) s.server_root_dir disk db f
        (get_data_hash file) opened now ops b bs text willing' gone m
        (rw started (
          set_active_file-IsBeside (record s { disk = disk; db = db }) c (get_data_hash file) f
            (Reach-in_range w d reach) elsewhere))
        others e k
