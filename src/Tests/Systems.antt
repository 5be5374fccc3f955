-- ===== src/Tests/Systems.antt =====
-- A job of a client against a server, at concrete data.
use torrxfer.Base.{ℕ, ◌≡◌, refl, false, some, [], ◌∷◌, lookup, eq_bytes}
use torrxfer.Text.{codes}
use torrxfer.FilePath.{join, base}
use torrxfer.Decimal.{format_uint}
use torrxfer.Disk.{Disk, regular}
use torrxfer.Net.File.{WireFile, get_media_path, get_file_name, get_size}
use torrxfer.Net.Sender
use torrxfer.Net.Handler
use torrxfer.Net.Handler.{query_file, validate_incoming_request}
use torrxfer.Server.File.{marshal_text}
use torrxfer.Server.Writer.Delivery.{final_file}
use torrxfer.Server.State.{Server, get_full_server_file_path}
use torrxfer.Server.Query.{new_record}
use torrxfer.Client.File.{File}
use torrxfer.System.Decisions.{asked_for}
use torrxfer.Tests.World.{platform, database}
use torrxfer.Tests.Lifetimes.{empty}

abbrev pub mine : Disk ℕ
mine = record {
  entries = (codes "/home/f", regular (codes "hello") 3) ∷ [];
  refuses = λ _ _. false;
}

abbrev pub local : File ℕ
local = record {
  path = codes "/home/f";
  media_prefix = [];
  size = 5;
  modified_time = 3;
  watch_time = 4;
  transfer_time = 5;
}

abbrev pub asked : WireFile
asked = asked_for platform database local (codes "hello") 3

pub last_text :
    marshal_text platform
      (final_file platform database (new_record platform database empty asked 6 6) 0 5)
    ≡ some (codes "/srv/f*?**?*5*?*5*?*6*?*6")
unfolding marshal_text format_uint get_full_server_file_path get_media_path get_file_name get_size
    join base
last_text = refl

pub lookup-mine : lookup (codes "/home/f") mine.entries ≡ some (regular (codes "hello") 3)
unfolding lookup eq_bytes
lookup-mine = refl
