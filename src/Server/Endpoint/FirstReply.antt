-- ===== src/Server/Endpoint/FirstReply.antt =====
-- The reply to a query for a file that the server does not have.
use torrxfer.Base.{◌≡◌, refl, false, [], Option, none, some, arith, lookup}
use torrxfer.Text.{Bytes}
use torrxfer.Platform.{Platform}
use torrxfer.Database.{Database}
use torrxfer.Disk.{Disk, stat_call, os_stat}
use torrxfer.Net.File.{done, WireFile, get_data_hash, describe, new_file, set_media_path}
use torrxfer.Server.File.{File, marshal_text, generate_rpc_file}
use torrxfer.Server.State.{Server, set_active_file, thread_steps}
use torrxfer.Server.Query.{query_function, path_of, new_record, Reply, reply, start_new}
use torrxfer.Server.Endpoint.Opening.{IsWilling, remove_old-clears}

module _ (w : Platform) (d : Database) where
  open w use {Time, from_unix}

  pub generate_rpc_file-missing :
      (disk : Disk Time) (f : File Time)
      → IsWilling w d disk
      → lookup f.full_path disk.entries ≡ none
      → generate_rpc_file w disk f
        ≡ done (record (describe w f.full_path [] (from_unix 0) 0) {
          media_directory = f.media_prefix;
        })
  unfolding generate_rpc_file set_media_path new_file os_stat
  generate_rpc_file-missing disk f willing e = rw (willing stat_call f.full_path, e) refl

  hash_of :
      (t s' : Server w d) (f r : WireFile)
      → ◌≡◌ {A = Reply w d} (done (t, some f)) (done (s', some r))
      → get_data_hash r ≡ get_data_hash f
  unfolding get_data_hash
  hash_of t s' f r h = ground arith

  start_new-hash :
      (s s' : Server w d) (c : Bytes) (file r : WireFile) (f : File Time) (now : Time)
      (text : Option Bytes)
      → IsWilling w d s.disk
      → lookup f.full_path s.disk.entries ≡ none
      → start_new w d s c file f 0 now text ≡ done (s', some r)
      → get_data_hash r ≡ []
  unfolding thread_steps set_active_file get_data_hash
  start_new-hash s s' c file r f now none willing gone h = absurd (ground arith)
  start_new-hash s s' c file r f now (some text) willing gone h =
      hash_of _ s' _ r (rw (generate_rpc_file-missing s.disk f willing gone) at h)

  pub query_function-hash :
      (s s' : Server w d) (c : Bytes) (file r : WireFile) (created modified : Time)
      → d.has s.db (get_data_hash file) ≡ false
      → IsWilling w d s.disk
      → query_function w d s c file created modified 0 ≡ done (s', some r)
      → get_data_hash r ≡ []
  unfolding query_function
  query_function-hash s s' c file r created modified new willing h =
      let (disk, removed, gone, willing') =
        remove_old-clears w d s.disk (path_of w d s file) willing in
      start_new-hash (record s { disk = disk }) s' c file r (new_record w d s file created modified)
        modified (marshal_text w (new_record w d s file created modified)) willing' gone
        (rw (new, removed) at h)

  missing_reply : File Time → WireFile
  missing_reply f = record (describe w f.full_path [] (from_unix 0) 0) {
    media_directory = f.media_prefix;
  }

  reply-missing :
      (t : Server w d) (f : File Time)
      → IsWilling w d t.disk
      → lookup f.full_path t.disk.entries ≡ none
      → reply w d t (generate_rpc_file w t.disk f) ≡ done (t, some (missing_reply f))
  unfolding missing_reply
  reply-missing t f willing gone = rw (generate_rpc_file-missing t.disk f willing gone) refl

  -- A server that has no record of the file replies, if the new record can be marshalled.
  pub query_function-replies :
      (s : Server w d) (c : Bytes) (file : WireFile) (created modified : Time) (text : Bytes)
      → d.has s.db (get_data_hash file) ≡ false
      → IsWilling w d s.disk
      → marshal_text w (new_record w d s file created modified) ≡ some text
      → (s' : Server w d) × (r : WireFile) × (query_function w d s c file created modified 0
          ≡ done (s', some r))
  unfolding query_function thread_steps set_active_file
  query_function-replies s c file created modified text new willing m =
      let (disk, removed, gone, willing') =
        remove_old-clears w d s.disk (path_of w d s file) willing in
      let f = new_record w d s file created modified in
      let s1 = record s { disk = disk; db = (d.put s.db (get_data_hash file) text).0 } in
      let t = set_active_file w d s1 c (get_data_hash file) f in
      (t, missing_reply f, rw (new, removed, m) (reply-missing t f willing' gone))
