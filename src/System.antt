-- ===== src/System.antt =====
-- pkg/client/worker.go over pkg/net and pkg/server: a job of the client against a server.
pub mod Decisions
pub mod Stored
pub mod Arrival
pub mod Recovery
pub mod Retry
pub mod Leftover
use torrxfer.Base.{ℕ, true, Option, none, some}
use torrxfer.Platform.{Platform}
use torrxfer.Database.{Database}
use torrxfer.Disk.{Disk, read_file}
use torrxfer.Crypto.{hash_file}
use torrxfer.Net.File.{Outcome, done, exits, WireFile, new_file}
use torrxfer.Net.Dial.{described}
use torrxfer.Net.Handler.{Metadata, query_file}
use torrxfer.Server.State.{Server}
use torrxfer.Server.Endpoint.{endpoint}
use torrxfer.Client.File.{File}
use torrxfer.Client.Connection.{ServerConnection}
use torrxfer.Client.Worker.{Answers, JobResult, do_file_transfer_job}

module _ (w : Platform) (d : Database) where
  open w use {Time}

  -- What the client's disk answers to a job, if a file that it opens can be read and sought in.
  abbrev pub answers_on : Disk Time → File Time → Option WireFile → Answers
  answers_on mine local reply = record {
    query_reply = reply;
    local_hash = hash_file w mine local.path;
    opened = read_file mine local.path;
    broken_at = none;
    seeks_offset = true;
    seeks_start = true;
  }

  module _ (mine : Disk Time) (local : File Time) (id : ℕ) (c : ServerConnection Time) where
    abbrev decide : Outcome (Server w d × Option WireFile) → Outcome (Server w d × JobResult Time)
    decide exits = exits
    decide (done (s, reply)) =
        done (s, do_file_transfer_job w (answers_on mine local reply) id local c)

    abbrev ask :
        Time × Time × ℕ
        → Metadata
        → Server w d
        → Outcome WireFile
        → Outcome (Server w d × JobResult Time)
    ask e md s exits = exits
    ask e md s (done f) = decide (query_file (endpoint w d) e md s f)

    -- The job, which has set the transfer time of `local`, describes the file, asks the server about
    -- it, and decides what to stream.
    unfoldable pub job_on_server :
        Time × Time × ℕ → Metadata → Server w d → Outcome (Server w d × JobResult Time)
    job_on_server e md s = ask e md s (described w local.media_prefix (new_file w mine local.path))
