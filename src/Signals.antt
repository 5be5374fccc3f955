-- ===== src/Signals.antt =====
-- `configureSignals` of pkg/client/client.go and of pkg/server/server.go: the goroutine that waits for
-- a signal. The channel of the signals has room for one, and os/signal drops what finds it full.
use torrxfer.Base.{
  ℕ, suc, ◌+◌, ◌≤◌, ◌≡◌, Bool, true, false, List, [], ◌∷◌, arith, if◌then◌else◌, ◌&&◌, ◌||◌, refl,
}

pub data Signal : Type 0 where
  sigint sigterm sigkill sighup sigabrt other_signal : Signal

-- What is given to `signal.Notify`; the system delivers no SIGKILL all the same.
abbrev pub client_signals : Signal → Bool
client_signals sigint = true
client_signals sigterm = true
client_signals sigkill = true
client_signals sighup = true
client_signals sigabrt = true
client_signals other_signal = false

abbrev pub server_signals : Signal → Bool
server_signals sigint = true
server_signals sigterm = true
server_signals sigkill = false
server_signals sighup = false
server_signals sigabrt = false
server_signals other_signal = false

-- `sigs` and `done`: whether the channel holds a value. `reading`: the goroutine waits at `<-sigs`.
-- `taken`: how often the channel that is returned has given a value.
pub record Signals : Type 0 where
  pub sigs : Bool
  pub reading : Bool
  pub done : Bool
  pub taken : ℕ

abbrev pub configure_signals : Signals
configure_signals = record { sigs = false; reading = true; done = false; taken = 0 }

-- A signal arrives, the goroutine takes its step, or the caller reads the channel.
pub data SignalAction : Type 0 where
  arrives : Signal → SignalAction
  forwards reads : SignalAction

module _ (notified : Signal → Bool) where
  unfoldable pub signal_step : Signals → SignalAction → Signals
  signal_step s (arrives x) = record s { sigs = s.sigs || notified x }
  signal_step s forwards =
      if s.sigs && s.reading then record s { sigs = false; reading = false; done = true } else s
  signal_step s reads = if s.done then record s { done = false; taken = suc s.taken } else s

  unfoldable pub signal_run : Signals → List SignalAction → Signals
  unfolding signal_step
  signal_run s [] = s
  signal_run s (a ∷ as') = signal_run (signal_step s a) as'

  abbrev one : Bool → ℕ
  one true = 1
  one false = 0

  -- The value that is still to come, that is there, or that was taken.
  abbrev value_count : Signals → ℕ
  value_count s = one s.reading + one s.done + s.taken

  signal_step-count :
      (s : Signals) (a : SignalAction) → value_count s ≡ 1 → value_count (signal_step s a) ≡ 1
  unfolding signal_step
  signal_step-count s (arrives x) e = e
  signal_step-count s forwards e = ground arith
  signal_step-count s reads e = ground arith

  signal_run-count :
      (as' : List SignalAction) (s : Signals)
      → value_count s ≡ 1
      → value_count (signal_run s as') ≡ 1
  unfolding signal_run
  signal_run-count [] s e = e
  signal_run-count (a ∷ as') s e = signal_run-count as' (signal_step s a) (signal_step-count s a e)

  -- The caller goes on once at most, however many signals arrive.
  pub signal_run-taken : (as' : List SignalAction) → (signal_run configure_signals as').taken ≤ 1
  signal_run-taken as' = omega (arith, signal_run-count as' configure_signals refl)
