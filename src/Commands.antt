-- ===== src/Commands.antt =====
-- cmd/server/main.go and cmd/client/main.go up to the loop over the notifications, with the decoder of
-- the log file of pkg/common/logger.go. The flags and the environment are given.
pub mod Logs
use torrxfer.Base.{ℕ, Bool, true, false, List, [], ◌∷◌, Option, none, some, if◌then◌else◌, eq_bytes}
use torrxfer.Text.{Bytes}
use torrxfer.Platform.{Platform}
use torrxfer.Disk.{Disk}
use torrxfer.Crypto.{Certificates}
use torrxfer.Net.File.{Outcome, done, exits}
use torrxfer.Net.Dial.{Transport}
use torrxfer.Db.{Pogreb, Global}
use torrxfer.Logging.{Sink, configure_logging}
use torrxfer.Server.Startup.{ServerConfig, Environment, Running, run_server}
use torrxfer.Client.Launch.{Launched, ClientConfig, new_torrxfer_client, run}

pub data Level : Type 0 where
  trace_level debug_level info_level : Level

-- The flags `trace` and `debug`.
unfoldable pub level_of : Bool → Bool → Level
level_of true debug = trace_level
level_of false true = debug_level
level_of false false = info_level

abbrev pub opened_log : Option ℕ → Option (Option ℕ)
opened_log none = none
opened_log (some file) = some (some file)

-- `LogFileDecoder.Decode`: no writer for the empty text, else what `os.Open` gives; `none` is its
-- error.
unfoldable pub decode_log_file : (Bytes → Option ℕ) → Bytes → Option (Option ℕ)
decode_log_file opens value = if eq_bytes value [] then some none else opened_log (opens value)

module _ (stdout stderr : ℕ) (before : List Sink) (trace debug : Bool) where
  module _ (p : Pogreb) (w : Platform) where
    open w use {Time}

    abbrev pub serving :
        Level × List Sink
        → Outcome (Global p.State × Running p w)
        → Outcome ((Level × List Sink) × Global p.State × Running p w)
    serving logs exits = exits
    serving logs (done (g, s)) = done (logs, g, s)

    -- The configuration with the log file; `none` if envconfig cannot read it.
    unfoldable pub server_main :
        Environment
        → Global p.State
        → Disk Time
        → Option (ServerConfig × Option ℕ)
        → Bool
        → Bytes
        → Bytes
        → Outcome ((Level × List Sink) × Global p.State × Running p w)
    unfolding level_of configure_logging run_server
    server_main e g disk none tls cafile keyfile = exits
    server_main e g disk (some (conf, logfile)) tls cafile keyfile =
        serving
          (level_of trace debug, configure_logging stdout before false (logfile ∷ some stdout ∷ []))
          (run_server p w e g disk conf tls cafile keyfile)

  module _ (w : Platform) (x : Certificates) where
    open w use {Time}
    open x use {Certificate}

    abbrev pub running :
        Level × List Sink → Option (Launched w x) → Outcome ((Level × List Sink) × Launched w x)
    running logs none = exits
    running logs (some c) = done (logs, c)

    unfoldable pub client_main :
        (Bytes → Transport Certificate → Bool)
        → Disk Time
        → Time
        → Option ClientConfig
        → Outcome ((Level × List Sink) × Launched w x)
    unfolding level_of configure_logging run
    client_main dial disk now conf =
        running (level_of trace debug, configure_logging stdout before false (some stderr ∷ []))
          (run w x dial disk now (new_torrxfer_client w x) conf)
