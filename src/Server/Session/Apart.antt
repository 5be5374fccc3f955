-- ===== src/Server/Session/Apart.antt =====
-- The queries for other paths, and all that a server does.
use torrxfer.Base.{
  ℕ, ◌≡◌, ◌≢◌, inl, inr, refl, [], ◌∷◌, Option, none, some, arith, lookup, lookup-erase, eq_bytes,
  eq_bytes_iff, length, Bool-cases,
}
use torrxfer.Disk.Directories.{IsApart}
use torrxfer.Text.{Bytes}
use torrxfer.Platform.{Platform}
use torrxfer.Database.{Database}
use torrxfer.FilePath.{join}
use torrxfer.Disk.{Disk, Stat, found, not_exist, stat_failed, os_stat, os_remove}
use torrxfer.Net.File.{Outcome, done, exits, WireFile, get_data_hash, get_media_path, get_file_name}
use torrxfer.Server.File.{File, UnmarshalError, generate_rpc_file}
use torrxfer.Server.State.{Server, set_active_file, thread_steps, get_full_server_file_path}
use torrxfer.Server.Query.{
  Reply, reply, path_of, remove_old, query_new, new_record, resume, start_new, query_record,
  query_known, query_function,
}

module _ (w : Platform) (d : Database) where
  open w use {Time}

  -- The path of a file below a directory.
  abbrev pub path_below : Bytes → WireFile → Bytes
  path_below root file = join (root ∷ get_media_path file ∷ get_file_name file ∷ [])

  -- What holds of a server whatever a client asks it for another path than `q`.
  pub record IsKept (root q c : Bytes) (P : Server w d → Type 0) : Type 0 where
    pub at_root : (s : Server w d) → P s → s.server_root_dir ≡ root
    pub stores : (s : Server w d) (db : d.State) → P s → P (record s { db = db })
    pub removes :
        (s : Server w d) (disk : Disk Time)
        → lookup q disk.entries ≡ lookup q s.disk.entries
        → disk.refuses ≡ s.disk.refuses
        → P s
        → P (record s { disk = disk })
    pub starts :
        (s : Server w d) (key : Bytes) (f : File Time) (n : ℕ) (now : Time)
        → IsApart q f.full_path
        → P s
        → P (thread_steps w d n (set_active_file w d s c key f) (length s.writers) now)

  module _ (root q c : Bytes) (P : Server w d → Type 0) (kept : IsKept root q c P) where
    abbrev pub InReply : Reply w d → Type 0
    InReply exits = Unit
    InReply (done (s, r)) = P s

    reply-InReply : (s : Server w d) (o : Outcome WireFile) → P s → InReply (reply w d s o)
    reply-InReply s exits v = tt
    reply-InReply s (done r) v = v

    start_new-InReply :
        (s : Server w d) (file : WireFile) (f : File Time) (n : ℕ) (now : Time)
        (text : Option Bytes)
        → IsApart q f.full_path
        → P s
        → InReply (start_new w d s c file f n now text)
    start_new-InReply s file f n now none ne v = v
    start_new-InReply s file f n now (some text) ne v =
        let s1 = record s { db = (d.put s.db (get_data_hash file) text).0 } in
        let s2 = set_active_file w d s1 c (get_data_hash file) f in
        let s3 = thread_steps w d n s2 (length s.writers) now in
        reply-InReply s3 (generate_rpc_file w s3.disk f) (
          kept.starts s1 (get_data_hash file) f n now ne
            (kept.stores s (d.put s.db (get_data_hash file) text).0 v))

    remove_old-elsewhere :
        (disk disk' : Disk Time) (path : Bytes) (stat : Stat Time)
        → path ≢ q
        → remove_old w d disk path stat ≡ some disk'
        → (lookup q disk'.entries ≡ lookup q disk.entries) × (disk'.refuses ≡ disk.refuses)
    unfolding os_remove
    remove_old-elsewhere disk disk' path (found n t b) ne h =
        ground (arith, lookup-erase path q disk.entries, eq_bytes_iff path q)
    remove_old-elsewhere disk disk' path not_exist ne h = ground arith
    remove_old-elsewhere disk disk' path stat_failed ne h = ground arith

    query_new-InReply :
        (s : Server w d) (file : WireFile) (t u : Time) (n : ℕ) (disk : Option (Disk Time))
        → IsApart q (path_of w d s file)
        → remove_old w d s.disk (path_of w d s file) (os_stat s.disk (path_of w d s file)) ≡ disk
        → P s
        → InReply (query_new w d s c file t u n disk)
    query_new-InReply s file t u n none ne h v = v
    query_new-InReply s file t u n (some disk) ne h v =
        let (there, refuses) = remove_old-elsewhere s.disk disk (path_of w d s file) _ ne.0 h in
        start_new-InReply (record s { disk = disk }) file (new_record w d s file t u) n u _ ne
          (kept.removes s disk there refuses v)

    resume-InReply :
        (s : Server w d) (file : WireFile) (f : File Time) (now : Time) (o : Outcome WireFile)
        → IsApart q f.full_path
        → P s
        → InReply (resume w d s c file f o)
    unfolding thread_steps
    resume-InReply s file f now exits ne v = tt
    resume-InReply s file f now (done r) ne v =
        elim (Bool-cases (eq_bytes (get_data_hash r) (get_data_hash file))) [
          | inl same ↦ rw same v
          | inr other ↦ rw other (kept.starts s (get_data_hash file) f 0 now ne v)
        ]

    query_record-InReply :
        (s : Server w d) (file : WireFile) (now : Time) (e : Option UnmarshalError)
        → IsApart q (path_of w d s file)
        → P s
        → InReply (query_record w d s c file e)
    query_record-InReply s file now (some e) ne v =
        kept.stores s (d.delete s.db (get_data_hash file)).0 v
    query_record-InReply s file now none ne v = resume-InReply s file _ now _ ne v

    query_known-InReply :
        (s : Server w d) (file : WireFile) (now : Time) (text : Option Bytes)
        → IsApart q (path_of w d s file)
        → P s
        → InReply (query_known w d s c file text)
    query_known-InReply s file now none ne v = v
    query_known-InReply s file now (some text) ne v = query_record-InReply s file now _ ne v

    pub query_function-InReply :
        (s : Server w d) (file : WireFile) (t u : Time) (n : ℕ)
        → IsApart q (path_below root file)
        → P s
        → InReply (query_function w d s c file t u n)
    unfolding query_function get_full_server_file_path
    query_function-InReply s file t u n ne v =
        let ne' : IsApart q (path_of w d s file) = rw (kept.at_root s v) ne in
        elim (Bool-cases (d.has s.db (get_data_hash file))) [
          | inl e ↦ rw e (query_known-InReply s file t (d.get s.db (get_data_hash file)) ne' v)
          | inr e ↦ rw e (query_new-InReply s file t u n _ ne' refl v)
        ]
