-- ===== src/Tests/Files.antt =====
-- The stored records of the server's files.
use torrxfer.Base.{ℕ}
use torrxfer.Text.{codes}
use torrxfer.Server.File.{File}

abbrev movie : File ℕ
movie = record {
  full_path = codes "/srv/tv/a b?.mkv";
  media_prefix = codes "/tv";
  size = 4096;
  current_size = 1024;
  creation_time = 1600;
  modified_time = 1700;
}

abbrev undated : File ℕ
undated = record movie { creation_time = 0 }
