-- ===== src/Server/Session.antt =====
-- The server under any sequence of calls and of steps of its writer threads.
pub mod Table
pub mod Access
pub mod Elsewhere
pub mod Untouched
pub mod Apart
pub mod Frame
pub mod Beside
pub mod Interleaved
pub mod Concurrent
pub mod Newcomer
use mathlib.Core.Path.{subst}
use mathlib.Core.Option.{some-injective}
use torrxfer.Base.{
  ℕ, zero, suc, ◌+◌, ◌≤◌, ◌<◌, ◌≡◌, ◌≢◌, ◌⊎◌, inl, inr, refl, Bool, true, false, List, [], ◌∷◌,
  ◌++◌, Option, none, some, arith, length, length-append, length-set, get_elem?, set, lookup,
  insert, lookup-insert, eq_bytes, eq_bytes_iff, Bool-cases, Option-cases, if◌then◌else◌, ◌||◌,
  get_elem?_of_lt,
}
use torrxfer.Text.{Bytes}
use torrxfer.Platform.{Platform}
use torrxfer.Disk.{Disk}
use torrxfer.Database.{Database}
use torrxfer.Net.File.{Outcome, done, exits, Outcome-cases, WireFile, get_data_hash}
use torrxfer.Server.File.{File, UnmarshalError, generate_rpc_file}
use torrxfer.Server.Writer.{Writer}
use torrxfer.Server.State.{
  Server, is_file_active, set_active_file, new_writer, step_writer, transfer_writer, transfer_at,
  close_writer, close_at, thread_step, thread_steps, transfer_function, close_client,
}
use torrxfer.Server.Query.{
  Reply, blank, reply, query_new, new_record, resume, start_new, query_record, query_known,
  query_function,
}

abbrev pub contains : List Bytes → Bytes → Bool
contains [] c = false
contains (k ∷ ks) c = eq_bytes k c || contains ks c

module _ (w : Platform) (d : Database) where
  open w use {Time}

  pub data Operation : Type 0 where
    query : Bytes → WireFile → Time → Time → ℕ → Operation
    transfer : Bytes → Bytes → ℕ → Operation
    close : Bytes → Operation
    tick : ℕ → Time → Operation

  abbrev pub after_reply : Reply w d → Option (Server w d)
  after_reply exits = none
  after_reply (done (s, r)) = some s

  -- `none`: the process has ended.
  unfoldable pub operate : Server w d → Operation → Option (Server w d)
  operate s (query c file t u n) = after_reply (query_function w d s c file t u n)
  operate s (transfer c b o) = some (transfer_function w d s c b o).0
  operate s (close c) = some (close_client w d s c)
  operate s (tick i now) = some (thread_step w d s i now)

  -- The clients that have asked for a file, the last one first.
  abbrev pub asked : Operation → List Bytes → List Bytes
  asked (query c _ _ _ _) cs = c ∷ cs
  asked _ cs = cs

  -- The states that a server without active files can reach, with the clients that have asked.
  pub data Reach : List Bytes → Server w d → Type 0 where
    fresh : (s : Server w d) → s.active_files ≡ [] → Reach [] s
    later :
        {cs cs' : List Bytes} {s s' : Server w d}
        → Reach cs s
        → (op : Operation) → operate s op ≡ some s'
        → cs' ≡ asked op cs
        → Reach cs' s'
