-- ===== src/Tests/Databases.antt =====
-- The database wrapper at concrete data.
use torrxfer.Base.{ℕ, zero, suc, ◌+◌, ◌≤◌, ◌<◌, ◌≡◌, refl, true, false, Bool, none, some, arith, []}
use torrxfer.Db.{KvDb, Reader, ranging, locking, called, reader_step, channel_capacity, close}
use torrxfer.Db.Calls.{Reach, opened, later, returns, reads, calls_bounded, close_lem}
use torrxfer.Tests.World.{Table, pogreb}

abbrev state : ℕ → Bool → ℕ → Reader → KvDb Table
state queued locked counter reader = record {
  inner = [];
  queued = queued;
  locked = locked;
  called_counter = counter;
  reader = reader;
}

-- Two operations and three steps of the goroutine: it holds the lock and waits for it.
stuck_reader : Reach pogreb 2 (state 0 true 1 locking)
unfolding called reader_step
stuck_reader =
    let r1 : Reach pogreb 1 (state 1 false 0 ranging) =
      later {db' = state 1 false 0 ranging} (opened []) (returns [] refl) refl in
    let r2 : Reach pogreb 1 (state 0 false 0 locking) =
      later {db' = state 0 false 0 locking} r1 (reads refl) refl in
    let r3 : Reach pogreb 1 (state 0 true 1 ranging) =
      later {db' = state 0 true 1 ranging} r2 (reads refl) refl in
    let r4 : Reach pogreb 2 (state 1 true 1 ranging) =
      later {db' = state 1 true 1 ranging} r3 (returns [] refl) refl in
    later {db' = state 0 true 1 locking} r4 (reads refl) refl

-- After that the channel fills up.
filled : (k : ℕ) → k ≤ channel_capacity → Reach pogreb (2 + k) (state k true 1 locking)
unfolding called
filled zero h = stuck_reader
filled (suc k) h =
    later {db' = state (suc k) true 1 locking} (filled k (omega arith)) (returns [] (ground arith))
      (omega arith)

exhausted : Reach pogreb 1002 (state 1000 true 1 locking)
exhausted = filled 1000 (omega arith)

calls_bounded_example : 1002 ≤ channel_capacity + 2
calls_bounded_example = calls_bounded pogreb exhausted

close_lem_example :
    (1002 < channel_capacity
      → (db' : KvDb Table) × (close pogreb (state 1000 true 1 locking) ≡ some db')
        × (db'.inner ≡ []))
    × (1002 ≡ channel_capacity + 2 → close pogreb (state 1000 true 1 locking) ≡ none)
close_lem_example = close_lem pogreb exhausted
