-- ===== src/Server/Query.antt =====
-- pkg/server/server.go: `QueryFunction`.
pub mod Replies
use torrxfer.Base.{
  ℕ, ◌%◌, ◌^◌, Bool, true, false, List, [], ◌∷◌, Option, none, some, if◌then◌else◌, length,
  eq_bytes, not,
}
use torrxfer.Text.{Bytes}
use torrxfer.Platform.{Platform}
use torrxfer.Disk.{Disk, Stat, found, not_exist, stat_failed, os_stat, os_remove}
use torrxfer.Database.{Database}
use torrxfer.Net.File.{
  Outcome, done, exits, WireFile, get_creation_time, get_file_name, get_size, get_data_hash,
  get_media_path,
}
use torrxfer.Server.File.{File, UnmarshalError, marshal_text, unmarshal_text, generate_rpc_file}
use torrxfer.Server.State.{Server, get_full_server_file_path, set_active_file, thread_steps}

module _ (w : Platform) (d : Database) where
  open w use {Time, zero_time, from_unix}

  -- The reply to the client, or `none` for an error.
  abbrev pub Reply : Type 0
  Reply = Outcome (Server w d × Option WireFile)

  abbrev pub reply : Server w d → Outcome WireFile → Reply
  reply s exits = exits
  reply s (done r) = done (s, some r)

  abbrev pub path_of : Server w d → WireFile → Bytes
  path_of s file = get_full_server_file_path w d s (get_media_path file) (get_file_name file)

  -- An old file of that name is removed; `none` if that fails.
  abbrev pub remove_old : Disk Time → Bytes → Stat Time → Option (Disk Time)
  remove_old disk path (found _ _ _) = os_remove disk path
  remove_old disk path not_exist = some disk
  remove_old disk path stat_failed = some disk

  -- The new file's writer thread may take some steps before the reply is made.
  abbrev pub start_new : Server w d → Bytes → WireFile → File Time → ℕ → Time → Option Bytes → Reply
  start_new s client file f head_start now none = done (s, none)
  start_new s client file f head_start now (some text) =
      let s1 = record s { db = (d.put s.db (get_data_hash file) text).0 } in
      let s2 = set_active_file w d s1 client (get_data_hash file) f in
      let s3 = thread_steps w d head_start s2 (length s.writers) now in
      reply s3 (generate_rpc_file w s3.disk f)

  -- The two calls of `time.Now()` give `created` and `modified`.
  abbrev pub new_record : Server w d → WireFile → Time → Time → File Time
  new_record s file created modified = record {
    full_path = path_of s file;
    media_prefix = get_media_path file;
    size = get_size file;
    current_size = 0;
    creation_time = created;
    modified_time = modified;
  }

  abbrev pub query_new :
      Server w d → Bytes → WireFile → Time → Time → ℕ → Option (Disk Time) → Reply
  query_new s client file created modified head_start none = done (s, none)
  query_new s client file created modified head_start (some disk) =
      let f = new_record s file created modified in
      start_new (record s { disk = disk }) client file f head_start modified (marshal_text w f)

  abbrev pub found_size : Stat Time → ℕ
  found_size (found n _ _) = n % 2 ^ 64
  found_size not_exist = 0
  found_size stat_failed = 0

  abbrev pub found_time : Stat Time → Time
  found_time (found _ t _) = t
  found_time not_exist = from_unix 0
  found_time stat_failed = from_unix 0

  -- The file on disk gives the current size and the modification time.
  abbrev pub found_record : Server w d → WireFile → Stat Time → File Time
  found_record s file stat = record {
    full_path = path_of s file;
    media_prefix = get_media_path file;
    size = get_size file;
    current_size = found_size stat;
    creation_time = get_creation_time w file;
    modified_time = found_time stat;
  }

  -- The file is made active for the client unless the server has all of it.
  abbrev pub resume : Server w d → Bytes → WireFile → File Time → Outcome WireFile → Reply
  resume s client file f exits = exits
  resume s client file f (done r) =
      if eq_bytes (get_data_hash r) (get_data_hash file)
      then done (s, some r)
      else done (set_active_file w d s client (get_data_hash file) f, some r)

  -- A record that cannot be read is deleted, and the client is told to try again.
  abbrev pub query_record : Server w d → Bytes → WireFile → Option UnmarshalError → Reply
  query_record s client file (some _) =
      done (record s { db = (d.delete s.db (get_data_hash file)).0 }, none)
  query_record s client file none =
      let f = found_record s file (os_stat s.disk (path_of s file)) in
      resume s client file f (generate_rpc_file w s.disk f)

  -- `new(File)`
  abbrev pub blank : File Time
  blank = record {
    full_path = [];
    media_prefix = [];
    size = 0;
    current_size = 0;
    creation_time = zero_time;
    modified_time = zero_time;
  }

  abbrev pub query_known : Server w d → Bytes → WireFile → Option Bytes → Reply
  query_known s client file none = done (s, none)
  query_known s client file (some text) = query_record s client file (unmarshal_text w blank text).1

  unfoldable pub query_function : Server w d → Bytes → WireFile → Time → Time → ℕ → Reply
  query_function s client file created modified head_start =
      if d.has s.db (get_data_hash file)
      then query_known s client file (d.get s.db (get_data_hash file))
      else query_new s client file created modified head_start
          (remove_old s.disk (path_of s file) (os_stat s.disk (path_of s file)))
