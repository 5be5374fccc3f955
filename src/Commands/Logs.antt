-- ===== src/Commands/Logs.antt =====
-- Where the two programs write their logs.
use torrxfer.Base.{ℕ, ◌≡◌, ap, ◌∙◌, Bool, false, List, [], ◌∷◌, Option, some, if◌then◌else◌, arith}
use torrxfer.Text.{Bytes}
use torrxfer.Platform.{Platform}
use torrxfer.Disk.{Disk}
use torrxfer.Net.File.{Outcome, done, exits}
use torrxfer.Db.{Pogreb, Global}
use torrxfer.Logging.{Sink, configure_logging}
use torrxfer.Logging.Sinks.{raw_count, is_given, configure_logging_lem}
use torrxfer.Server.Startup.{ServerConfig, Environment, Running, run_server}
use torrxfer.Commands.{Level, level_of, server_main, serving}

module _ (stdout stderr : ℕ) (before : List Sink) (trace debug : Bool) (p : Pogreb)
    (w : Platform) where
  open w use {Time}

  logs_of :
      (logs logs' : Level × List Sink) (o : Outcome (Global p.State × Running p w))
      (g : Global p.State) (s : Running p w)
      → serving stdout stderr before trace debug p w logs o ≡ done (logs', g, s)
      → logs' ≡ logs
  logs_of logs logs' exits g s h = absurd (ground arith)
  logs_of logs logs' (done (g0, s0)) g s h =
      let h' : ◌≡◌ {A = Outcome ((Level × List Sink) × Global p.State × Running p w)}
          (done (logs, g0, s0)) (done (logs', g, s)) =
        h in
      ground arith

  -- If a server starts, each line of its log is written once to the standard output, once to the log
  -- file if one is configured, and to nothing else, at the level that the flags choose.
  pub server_main-logs :
      (e : Environment) (g g' : Global p.State) (disk : Disk Time) (conf : ServerConfig)
      (logfile : Option ℕ) (tls : Bool) (cafile keyfile : Bytes) (logs : Level × List Sink)
      (s : Running p w) (out : ℕ)
      → server_main stdout stderr before trace debug p w e g disk
          (some (conf, logfile))
          tls
          cafile
          keyfile
        ≡ done (logs, g', s)
      → (logs.0 ≡ level_of trace debug)
        × (raw_count out logs.1
            ≡ (if is_given stdout out (logfile ∷ some stdout ∷ []) then 1 else 0))
  unfolding server_main
  server_main-logs e g g' disk conf logfile tls cafile keyfile logs s out h =
      let set =
        logs_of
          (level_of trace debug, configure_logging stdout before false (logfile ∷ some stdout ∷ []))
          logs (run_server p w e g disk conf tls cafile keyfile) g' s h in
      (
        ap (λ l. l.0) set,
        ap (λ l. raw_count out l.1) set
            ∙ (configure_logging_lem stdout before false logfile (some stdout ∷ []) out).0,
      )
