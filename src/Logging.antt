-- ===== src/Logging.antt =====
-- pkg/common/logger.go: `ConfigureLogging` and `AddLogger`. A writer is a number, and `none` the nil
-- writer. The settings of the logging library are left out.
pub mod Sinks
use torrxfer.Base.{
  ℕ, suc, Bool, true, false, ◌||◌, List, [], ◌∷◌, ◌++◌, Option, none, some, ◌==◌, if◌then◌else◌,
}

-- What a line is written to: a writer as it is, or through a console writer, with its short form.
pub data Sink : Type 0 where
  raw : ℕ → Sink
  console : ℕ → Bool → Sink

abbrev pub has_logger : ℕ → List ℕ → Bool
has_logger l [] = false
has_logger l (k ∷ ks) = l == k || has_logger l ks

module _ (stdout : ℕ) where
  abbrev pub or_stdout : Option ℕ → ℕ
  or_stdout none = stdout
  or_stdout (some l) = l

  -- The map `loggers` as the list of its keys.
  unfoldable pub add_logger : List ℕ → Option ℕ → List ℕ
  add_logger loggers l =
      if has_logger (or_stdout l) loggers then loggers else loggers ++ (or_stdout l ∷ [])

  unfoldable pub add_loggers : List ℕ → List (Option ℕ) → List ℕ
  unfolding add_logger
  add_loggers loggers [] = loggers
  add_loggers loggers (l ∷ ls) = add_loggers (add_logger loggers l) ls

  -- The loop over the loggers: the console writer of each is made, and the logger itself is taken.
  unfoldable pub multis : Bool → List ℕ → List Sink
  multis short_log [] = []
  multis short_log (l ∷ ls) = let writer = console l short_log in raw l ∷ multis short_log ls

  -- What the last `AddLogger` sets; with no writer at all the logger stays as it was.
  unfoldable pub configure_logging : List Sink → Bool → List (Option ℕ) → List Sink
  unfolding add_loggers multis
  configure_logging before short_log [] = before
  configure_logging before short_log (l ∷ ls) = multis short_log (add_loggers [] (l ∷ ls))
