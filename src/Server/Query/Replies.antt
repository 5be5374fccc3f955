-- ===== src/Server/Query/Replies.antt =====
-- What `query_function` answers, and what it leaves behind.
use torrxfer.Base.{
  ℕ, ◌≡◌, ◌≢◌, refl, true, false, Option, none, some, arith, eq_bytes, eq_bytes_iff, Bool-cases,
  Option-cases, inl, inr, ◌⊎◌,
}
use torrxfer.Text.{Bytes}
use torrxfer.Platform.{Platform}
use torrxfer.Disk.{Disk}
use torrxfer.Database.{Database, IsLawful}
use torrxfer.Net.File.{
  Outcome, done, exits, Outcome-cases, WireFile, get_data_hash, get_media_path, get_remote_size,
}
use torrxfer.Server.File.{File, UnmarshalError, marshal_text, unmarshal_text, generate_rpc_file}
use torrxfer.Server.State.{Server, set_active_file}
use torrxfer.Server.Query.{
  Reply, blank, reply, query_new, resume, query_known, new_record, query_function,
}

module _ (w : Platform) (d : Database) where
  open w use {Time}

  generate_rpc_file_lem :
      (disk : Disk Time) (f : File Time) {r : WireFile}
      → generate_rpc_file w disk f ≡ done r
      → (r.size_on_disk ≡ 0) × (r.media_directory ≡ f.media_prefix)
  unfolding generate_rpc_file
  generate_rpc_file_lem disk f h = ground arith

  -- What is said of a reply that is a file: nothing is on disk, and the media path is `p`.
  abbrev IsSilent : Bytes → Reply w d → Type 0
  IsSilent p exits = Unit
  IsSilent p (done (_, none)) = Unit
  IsSilent p (done (_, some r)) = (r.size_on_disk ≡ 0) × (r.media_directory ≡ p)

  reply-IsSilent :
      (s : Server w d) (disk : Disk Time) (f : File Time)
      → IsSilent f.media_prefix (reply w d s (generate_rpc_file w disk f))
  reply-IsSilent s disk f = elim (Outcome-cases (generate_rpc_file w disk f)) [
    | inl e ↦ rw e tt
    | inr (r, e) ↦ rw e (generate_rpc_file_lem disk f e)
  ]

  query_new-IsSilent :
      (s : Server w d) (client : Bytes) (file : WireFile) (created modified : Time) (n : ℕ)
      (disk : Option (Disk Time))
      → IsSilent file.media_directory (query_new w d s client file created modified n disk)
  unfolding get_media_path
  query_new-IsSilent s client file created modified n none = tt
  query_new-IsSilent s client file created modified n (some disk) =
      elim (Option-cases (marshal_text w (new_record w d s file created modified))) [
        | inl e ↦ rw e tt
        | inr (text, e) ↦ rw e (reply-IsSilent _ _ (new_record w d s file created modified))
      ]

  resume-IsSilent :
      (s : Server w d) (client : Bytes) (file : WireFile) (f : File Time)
      → IsSilent f.media_prefix (resume w d s client file f (generate_rpc_file w s.disk f))
  resume-IsSilent s client file f = elim (Outcome-cases (generate_rpc_file w s.disk f)) [
    | inl e ↦ rw e tt
    | inr (r, e) ↦ elim (Bool-cases (eq_bytes (get_data_hash r) (get_data_hash file))) [
      | inl same ↦ rw (e, same) (generate_rpc_file_lem s.disk f e)
      | inr other ↦ rw (e, other) (generate_rpc_file_lem s.disk f e)
    ]
  ]

  query_known-IsSilent :
      (s : Server w d) (client : Bytes) (file : WireFile) (text : Option Bytes)
      → IsSilent file.media_directory (query_known w d s client file text)
  unfolding get_media_path
  query_known-IsSilent s client file none = tt
  query_known-IsSilent s client file (some text) =
      elim (Option-cases (unmarshal_text w (blank w d) text).1) [
        | inl e ↦ rw e (resume-IsSilent s client file _)
        | inr (x, e) ↦ rw e tt
      ]

  -- A reply never says that the server already has bytes of the file, whatever the server has:
  -- its `SizeOnDisk` is 0. It repeats the media path of the question.
  pub query_function-remote_size :
      (s s' : Server w d) (client : Bytes) (file r : WireFile) (created modified : Time)
      (head_start : ℕ)
      → query_function w d s client file created modified head_start ≡ done (s', some r)
      → (get_remote_size r ≡ 0) × (get_media_path r ≡ get_media_path file)
  unfolding query_function get_remote_size get_media_path
  query_function-remote_size s s' client file r created modified head_start h = rw h at silent
    where
      silent :
          IsSilent file.media_directory
            (query_function w d s client file created modified head_start)
      silent = elim (Bool-cases (d.has s.db (get_data_hash file))) [
        | inl known ↦ rw (query_function, known) (query_known-IsSilent s client file _)
        | inr new ↦
            rw (query_function, new)
              (query_new-IsSilent s client file created modified head_start _)
      ]

  -- A record that the database has but that cannot be read is deleted, and the reply is an error;
  -- if the deletion succeeds, the server no longer knows the file.
  pub query_function_bad_record :
      IsLawful d
      → (s : Server w d) (client : Bytes) (file : WireFile) (created modified : Time)
        (head_start : ℕ) (text : Bytes) (e : UnmarshalError)
      → d.has s.db (get_data_hash file) ≡ true
      → d.get s.db (get_data_hash file) ≡ some text
      → (unmarshal_text w (blank w d) text).1 ≡ some e
      → (d.delete s.db (get_data_hash file)).1 ≡ true
      → (s' : Server w d) × (query_function w d s client file created modified head_start
          ≡ done (s', none))
        × (s' ≡ record s { db = (d.delete s.db (get_data_hash file)).0 })
        × (d.has s'.db (get_data_hash file) ≡ false)
  unfolding query_function
  query_function_bad_record law s client file created modified head_start text e known got bad ok =
      (
        record s { db = (d.delete s.db (get_data_hash file)).0 },
        ground arith,
        refl,
        law.has-delete s.db (get_data_hash file) ok,
      )

  -- The reply has the client's hash and the server is as it was, or a writer was started.
  abbrev SameOrStarted : Server w d → Server w d → Bytes → WireFile → WireFile → Type 0
  SameOrStarted s s' client file r =
      ((get_data_hash r ≡ get_data_hash file) × (s' ≡ s))
      ⊎ ((get_data_hash r ≢ get_data_hash file)
          × ((f : File Time) × (s' ≡ set_active_file w d s client (get_data_hash file) f)))

  resume_lem :
      (s s' : Server w d) (client : Bytes) (file r : WireFile) (f : File Time)
      (o : Outcome WireFile)
      → resume w d s client file f o ≡ done (s', some r)
      → SameOrStarted s s' client file r
  resume_lem s s' client file r f exits h = absurd (ground arith)
  resume_lem s s' client file r f (done x) h =
      elim (Bool-cases (eq_bytes (get_data_hash x) (get_data_hash file))) [
        | inl same ↦
            let h' : ◌≡◌ {A = Reply w d} (done (s, some x)) (done (s', some r)) = rw same at h in
            inl (ground (arith, eq_bytes_iff (get_data_hash x) (get_data_hash file)), ground arith)
        | inr other ↦
            let h' : ◌≡◌ {A = Reply w d}
                (done (set_active_file w d s client (get_data_hash file) f, some x))
                (done (s', some r)) =
              rw other at h in
            inr (
              ground (arith, eq_bytes_iff (get_data_hash x) (get_data_hash file)),
              (f, ground arith),
            )
      ]

  query_known_lem :
      (s s' : Server w d) (client : Bytes) (file r : WireFile) (text : Option Bytes)
      → query_known w d s client file text ≡ done (s', some r)
      → SameOrStarted s s' client file r
  query_known_lem s s' client file r none h = absurd (ground arith)
  query_known_lem s s' client file r (some text) h =
      elim (Option-cases (unmarshal_text w (blank w d) text).1) [
        | inl e ↦ resume_lem s s' client file r _ _ (rw e at h)
        | inr (x, e) ↦ absurd (ground arith)
      ]

  -- For a file that the server knows, a reply either has the hash that the client asked for, and
  -- then nothing changes; or it has another one, and then a writer of that file is started and is
  -- the active one of the client.
  pub query_function_known :
      (s s' : Server w d) (client : Bytes) (file r : WireFile) (created modified : Time)
      (head_start : ℕ)
      → d.has s.db (get_data_hash file) ≡ true
      → query_function w d s client file created modified head_start ≡ done (s', some r)
      → ((get_data_hash r ≡ get_data_hash file) × (s' ≡ s))
        ⊎ ((get_data_hash r ≢ get_data_hash file)
            × ((f : File Time) × (s' ≡ set_active_file w d s client (get_data_hash file) f)))
  unfolding query_function
  query_function_known s s' client file r created modified head_start known h =
      query_known_lem s s' client file r _ (rw (known) at h)
