-- ===== src/Tests/Newcomers.antt =====
-- A new file of one client while another one asks for a file, at concrete data.
use torrxfer.Base.{
  ℕ, ◌≡◌, refl, true, false, none, some, arith, List, [], ◌∷◌, All, lookup, insert, erase, eq_bytes,
}
use torrxfer.Text.{codes}
use torrxfer.FilePath.{join, base}
use torrxfer.Decimal.{format_uint}
use torrxfer.Disk.{
  regular, directory, mkdir_all, write_at, write_open, place, os_stat, read_file, open_file,
  os_remove,
}
use torrxfer.Net.File.{done, WireFile, get_media_path, get_file_name, get_size, get_data_hash}
use torrxfer.Server.File.{File, marshal_text, generate_rpc_file}
use torrxfer.Server.Writer.{writer_step, transfer_to, close_pipe, exited, ready}
use torrxfer.Server.Writer.Schedule
use torrxfer.Server.State.{
  Server, set_active_file, transfer_function, close_client, thread_step, thread_steps,
  is_file_active, get_full_server_file_path,
}
use torrxfer.Server.Query.{query_function, path_of, new_record}
use torrxfer.Server.Session.{Operation, operate, query, transfer, close, tick, fresh}
use torrxfer.Server.Session.Frame.{operate_all}
use torrxfer.Server.Session.Interleaved.{IsOfOthers, all_seen}
use torrxfer.Server.Session.Concurrent.{IsThere, turns}
use torrxfer.Server.Session.Newcomer.{SparesAbove, new_file_beside}
use torrxfer.Tests.World.{platform, database}
use torrxfer.Tests.Lifetimes.{empty}
use torrxfer.Tests.Systems.{asked, last_text}

abbrev record_of : WireFile → File ℕ
record_of file = new_record platform database empty file 6 6

abbrev asked_now : Server platform database
asked_now =
    set_active_file platform database
      (record empty {
        disk = record empty.disk { entries = [] };
        db = (codes "hello", codes "/srv/f*?**?*5*?*0*?*6*?*6") ∷ [];
      })
      (codes "c1") (codes "hello") (record_of asked)

abbrev first_reply : WireFile
first_reply = record asked { data_hash = []; created_time = 0; modified_time = 0; size = 0 }

query_lem :
    query_function platform database empty (codes "c1") asked 6 6 0
    ≡ done (asked_now, some first_reply)
unfolding query_function get_data_hash get_media_path get_file_name get_size
    get_full_server_file_path join base lookup insert eq_bytes os_stat read_file generate_rpc_file
    set_active_file marshal_text format_uint os_remove thread_steps erase
query_lem = refl

-- The other client asks for another file, and its thread makes that file.
abbrev operations : List (Operation platform database)
operations =
    tick 0 7
    ∷ query (codes "c2") (record asked { name = codes "g"; data_hash = codes "other" }) 6 6 0
    ∷ tick 0 7
    ∷ transfer (codes "c1") (codes "hel") 0
    ∷ tick 1 8
    ∷ tick 0 9
    ∷ tick 0 9
    ∷ transfer (codes "c1") (codes "lo") 3
    ∷ tick 0 9
    ∷ close (codes "c1")
    ∷ tick 0 9
    ∷ []

abbrev all_sent : Server platform database
all_sent = record {
  active_files = (codes "c1", 0) ∷ (codes "c2", 1) ∷ [];
  writers =
      record {
        file = record (record_of asked) { current_size = 5 };
        db_key = codes "hello";
        phase = exited;
        once_done = true;
        pending = none;
        closed = true;
        error_sent = false;
        done_sent = true;
      }
      ∷ record {
        file = record (record_of asked) { full_path = codes "/srv/g" };
        db_key = codes "other";
        phase = ready;
        once_done = false;
        pending = none;
        closed = false;
        error_sent = false;
        done_sent = false;
      }
      ∷ [];
  server_root_dir = codes "/srv";
  disk = record empty.disk {
    entries =
        (codes "/srv", directory 0 7)
        ∷ (codes "/srv/f", regular (codes "hello") 9)
        ∷ (codes "/srv/g", regular [] 8)
        ∷ [];
  };
  db =
      (codes "hello", codes "/srv/f*?**?*5*?*5*?*6*?*6")
      ∷ (codes "other", codes "/srv/g*?**?*5*?*0*?*6*?*6")
      ∷ [];
}

operations_lem : operate_all platform database asked_now operations ≡ some all_sent
unfolding query_function get_data_hash get_media_path get_file_name get_size
    get_full_server_file_path join base lookup insert eq_bytes os_stat read_file generate_rpc_file
    set_active_file marshal_text format_uint thread_steps operate_all operate transfer_function
    close_client thread_step transfer_to close_pipe is_file_active writer_step write_open write_at
    place open_file mkdir_all
operations_lem = refl

in_turns :
    all_seen platform database (codes "c1") 0 operations
    ≡ Schedule.tick 7
      ∷ Schedule.tick 7
      ∷ turns platform database 9 (codes "hel") 0 ((codes "lo", 3) ∷ [])
unfolding all_seen eq_bytes
in_turns = refl

of_others :
    All
      (IsOfOthers platform database
        (codes "c1")
        (codes "/srv")
        (path_of platform database empty asked))
      operations
unfolding get_full_server_file_path get_media_path get_file_name join base
of_others = (tt, ((λ e. ground arith, (λ e. ground arith, (λ e. ground arith, tt))), omega arith))

spares :
    All
      (SparesAbove platform database (codes "/srv") (path_of platform database empty asked))
      operations
unfolding get_full_server_file_path get_media_path get_file_name join base
spares = (tt, ((λ e. ground arith, tt), omega arith))

unknown : database.has empty.db (get_data_hash asked) ≡ false
unfolding get_data_hash lookup
unknown = refl

new_file_beside_example :
    IsThere platform database 0 (path_of platform database empty asked) (codes "hello") 9 all_sent
new_file_beside_example =
    new_file_beside platform database empty asked_now all_sent (codes "c1") asked first_reply 6 6 7
      9 operations (codes "hel") ((codes "lo", 3) ∷ []) (codes "/srv/f*?**?*5*?*5*?*6*?*6")
      (fresh empty refl) tt tt unknown (λ _ _. refl) query_lem last_text of_others spares in_turns
      operations_lem
