-- ===== src/Tests/Servers.antt =====
-- The server at concrete data.
use torrxfer.Base.{
  ℕ, ◌≡◌, ◌≢◌, ◌⊎◌, refl, true, false, none, some, List, All, arith, [], ◌∷◌, lookup, insert,
  eq_bytes,
}
use torrxfer.Disk.Directories.{IsApart}
use torrxfer.Text.{Bytes, codes, split, trim_space}
use torrxfer.Decimal.{parse_uint}
use torrxfer.Disk.{regular, os_stat, read_file}
use torrxfer.FilePath.{join, base}
use torrxfer.Net.File.{
  done, WireFile, get_data_hash, get_media_path, get_creation_time, get_file_name, get_size,
}
use torrxfer.Server.File.{File, unmarshal_text, generate_rpc_file}
use torrxfer.Server.State.{
  Server, thread_step, set_active_file, transfer_function, is_file_active,
  get_full_server_file_path,
}
use torrxfer.Server.Query.{query_function}
use torrxfer.Server.Session.Frame.{operate_all, operate_all-keeps}
use torrxfer.Server.Session.Apart.{path_below}
use torrxfer.Server.Session.Elsewhere.{IsElsewhere}
use torrxfer.Server.Session.{Operation, query, tick, operate, fresh, contains}
use torrxfer.Server.Session.Access.{transfer_function_outcome}
use torrxfer.Tests.World.{platform, database}

abbrev path : Bytes
path = codes "/srv/f"

abbrev pub asked_file : WireFile
asked_file = record {
  name = codes "f";
  data_hash = codes "hello";
  media_directory = [];
  created_time = 5;
  modified_time = 5;
  size = 5;
  size_on_disk = 0;
}

abbrev server_with : Bytes → Bytes → Server platform database
server_with stored content = record {
  active_files = [];
  writers = [];
  server_root_dir = codes "/srv";
  disk = record { entries = (path, regular content 7) ∷ []; refuses = λ _ _. false };
  db = (codes "hello", stored) ∷ [];
}

-- The server has the first two bytes of the file.
abbrev pub partial : Server platform database
partial = server_with (codes "/srv/f*?**?*5*?*2*?*5*?*5") (codes "he")

abbrev pub partial_reply : WireFile
partial_reply = record asked_file {
  data_hash = codes "he";
  created_time = 7;
  modified_time = 7;
  size = 2;
}

abbrev pub resumed : File ℕ
resumed = record {
  full_path = path;
  media_prefix = [];
  size = 5;
  current_size = 2;
  creation_time = 5;
  modified_time = 7;
}

pub partial_query :
    query_function platform database partial (codes "c1") asked_file 8 8 0
    ≡ done (
      set_active_file platform database partial (codes "c1") (codes "hello") resumed,
      some partial_reply,
    )
unfolding query_function get_data_hash get_media_path get_file_name get_size get_creation_time
    get_full_server_file_path join base lookup insert eq_bytes unmarshal_text os_stat read_file
    generate_rpc_file split set_active_file parse_uint trim_space
partial_query = refl

transfer_function_outcome_example :
    (((transfer_function platform database partial (codes "c1") (codes "llo") 2).1 ≡ true)
      × (is_file_active platform database partial (codes "c1") ≢ none)
      × (contains [] (codes "c1") ≡ true))
    ⊎ ((transfer_function platform database partial (codes "c1") (codes "llo") 2 ≡ (partial, false))
        × (is_file_active platform database partial (codes "c1") ≡ none))
transfer_function_outcome_example =
    transfer_function_outcome platform database (fresh partial refl) (codes "c1") (codes "llo") 2

-- A query for /srv/f and a step of the thread that it has started.
abbrev operations : List (Operation platform database)
operations = query (codes "c1") asked_file 8 8 0 ∷ tick 0 9 ∷ []

abbrev queried : Server platform database
queried = set_active_file platform database partial (codes "c1") (codes "hello") resumed

operated :
    operate_all platform database partial operations
    ≡ some (thread_step platform database queried 0 9)
unfolding operate_all operate
operated = rw partial_query refl

other_path : IsApart (codes "/srv/g") (path_below platform database (codes "/srv") asked_file)
unfolding get_media_path get_file_name join
other_path = (λ e. ground arith, (λ e. ground arith, tt))

operate_all-keeps_example :
    (lookup (codes "/srv/g") (thread_step platform database queried 0 9).disk.entries
      ≡ lookup (codes "/srv/g") partial.disk.entries)
    × All
        (IsElsewhere platform database (codes "/srv/g"))
        (thread_step platform database queried 0 9).writers
operate_all-keeps_example =
    operate_all-keeps platform database operations partial
      (thread_step platform database queried 0 9) (codes "/srv/g") tt (other_path, (tt, tt))
      operated
