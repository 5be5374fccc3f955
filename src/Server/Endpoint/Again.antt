-- ===== src/Server/Endpoint/Again.antt =====
-- A query for a file that the server has all of.
use torrxfer.Base.{ℕ, ◌≡◌, refl, true, false, none, some, lookup, length, eq_bytes_refl, ◌%◌, ◌^◌}
use torrxfer.Text.{Bytes}
use torrxfer.Platform.{Platform}
use torrxfer.Database.{Database}
use torrxfer.Disk.{Disk, stat_call, open_call, read_call, found, regular, os_stat, read_file}
use torrxfer.Net.File.{done, WireFile, get_data_hash, describe, new_file, set_media_path}
use torrxfer.Server.File.{File, unmarshal_text, generate_rpc_file}
use torrxfer.Server.State.{Server}
use torrxfer.Server.Query.{query_function, path_of, blank, found_record}
use torrxfer.Server.Endpoint.Opening.{IsWilling}

module _ (w : Platform) (d : Database) where
  open w use {Time, sha256}

  module _ (disk : Disk Time) (path content : Bytes) (stamp : Time) (willing : IsWilling w d disk)
      (present : lookup path disk.entries ≡ some (regular content stamp)) where
    pub os_stat-regular : os_stat disk path ≡ found (length content) stamp false
    unfolding os_stat
    os_stat-regular = rw (willing stat_call path, present) refl

    pub read_file-regular : read_file disk path ≡ some content
    unfolding read_file
    read_file-regular = rw (willing open_call path, willing read_call path, present) refl

    pub new_file-regular :
        (f : WireFile) × (new_file w disk path ≡ done f)
        × (f.data_hash ≡ sha256 content)
        × (f.size ≡ length content % 2 ^ 64)
    unfolding new_file
    new_file-regular = (
      describe w path (sha256 content) stamp (length content % 2 ^ 64),
      rw (os_stat-regular, read_file-regular) refl,
      refl,
      refl,
    )

  pub generate_rpc_file-regular :
      (disk : Disk Time) (f : File Time) (content : Bytes) (stamp : Time)
      → IsWilling w d disk
      → lookup f.full_path disk.entries ≡ some (regular content stamp)
      → (r : WireFile) × (generate_rpc_file w disk f ≡ done r) × (r.data_hash ≡ sha256 content)
  unfolding generate_rpc_file set_media_path
  generate_rpc_file-regular disk f content stamp willing present =
      let (r, e, h, n) = new_file-regular disk f.full_path content stamp willing present in
      (record r { media_directory = f.media_prefix }, rw e refl, h)

  -- A server that has a readable record of the hash that is asked for, and the file with content of
  -- that hash, replies with that hash and is not changed: no writer is started.
  pub query_function-stored :
      (s : Server w d) (c : Bytes) (file : WireFile) (content text : Bytes)
      (stamp created modified : Time) (head_start : ℕ)
      → d.has s.db (get_data_hash file) ≡ true
      → d.get s.db (get_data_hash file) ≡ some text
      → (unmarshal_text w (blank w d) text).1 ≡ none
      → IsWilling w d s.disk
      → lookup (path_of w d s file) s.disk.entries ≡ some (regular content stamp)
      → sha256 content ≡ get_data_hash file
      → (r : WireFile) × (query_function w d s c file created modified head_start
          ≡ done (s, some r))
        × (get_data_hash r ≡ get_data_hash file)
  unfolding query_function get_data_hash
  query_function-stored s c file content text stamp created modified head_start has got readable
        willing present same =
      let f = found_record w d s file (os_stat s.disk (path_of w d s file)) in
      let (r, e, h) = generate_rpc_file-regular s.disk f content stamp willing present in
      (r, rw (has, got, readable, e, h, same, eq_bytes_refl file.data_hash) refl, rw h same)
