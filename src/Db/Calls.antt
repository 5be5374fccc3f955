-- ===== src/Db/Calls.antt =====
-- How long the operations of the database return: the goroutine that reads their reports locks
-- a mutex that nothing unlocks.
use torrxfer.Base.{ℕ, ◌+◌, ◌≤◌, ◌<◌, ◌≡◌, refl, true, false, none, some, arith, Bool}
use torrxfer.Db.{
  Pogreb, KvDb, Reader, ranging, locking, reader_step, called, channel_capacity, close,
  closed_inner,
}

module _ (p : Pogreb) where
  open p use {State}

  -- One operation returns, or the goroutine takes a step.
  pub data Step (db db' : KvDb State) : ℕ → Type 0 where
    returns : (s : State) → called p (record db { inner = s }) ≡ some db' → Step db db' 1
    reads : db' ≡ reader_step p db → Step db db' 0

  -- The states that a new database can reach, with the number of operations that have returned.
  pub data Reach : ℕ → KvDb State → Type 0 where
    opened :
        (s : State)
        → Reach 0
            (record { inner = s; queued = 0; locked = false; called_counter = 0; reader = ranging })
    later : {n k m : ℕ} {db db' : KvDb State} → Reach n db → Step db db' k → m ≡ n + k → Reach m db'

  -- The reports that the goroutine has taken from the channel.
  abbrev taken : Reader → Bool → ℕ
  taken ranging false = 0
  taken locking false = 1
  taken ranging true = 1
  taken locking true = 2

  record Inv (n : ℕ) (db : KvDb State) : Type 0 where
    conserved : n ≡ db.queued + taken db.reader db.locked
    bounded : db.queued ≤ channel_capacity
    counted : db.called_counter ≤ 1
    counted_once : db.locked ≡ false → db.called_counter ≡ 0

  Step-Inv : {n k : ℕ} {db db' : KvDb State} → Step db db' k → Inv n db → Inv (n + k) db'
  unfolding reader_step called
  Step-Inv (returns s e) v = ground arith
  Step-Inv (reads e) v = ground arith

  Reach-Inv : {n : ℕ} {db : KvDb State} → Reach n db → Inv n db
  Reach-Inv (opened s) = omega arith
  Reach-Inv (later r st e) = rw e (Step-Inv st (Reach-Inv r))

  -- At most 1002 operations of an opened database ever return, whatever the schedule.
  pub calls_bounded : {n : ℕ} {db : KvDb State} → Reach n db → n ≤ channel_capacity + 2
  calls_bounded r = ground (arith, Reach-Inv r)

  -- After 1002 operations the database is stuck: the next operation blocks, whatever it does to
  -- the stored data, and the goroutine that should read the reports does not move either.
  pub calls_exhausted :
      {n : ℕ} {db : KvDb State}
      → Reach n db
      → n ≡ channel_capacity + 2
      → (s : State) → (called p (record db { inner = s }) ≡ none) × (reader_step p db ≡ db)
  unfolding called reader_step
  calls_exhausted r e s = ground (arith, Reach-Inv r)

  -- The goroutine never compacts the database, since it counts one operation at most.
  pub never_compacts : {n : ℕ} {db : KvDb State} → Reach n db → (reader_step p db).inner ≡ db.inner
  unfolding reader_step
  never_compacts r = ground (arith, Reach-Inv r)

  -- `Close` returns on a database on which fewer operations than the channel holds have returned,
  -- and pogreb is then synchronised and closed; after 1002 operations it closes pogreb, but never
  -- returns.
  pub close_lem :
      {n : ℕ} {db : KvDb State}
      → Reach n db
      → (n < channel_capacity
          → (db' : KvDb State) × (close p db ≡ some db') × (db'.inner ≡ closed_inner p db.inner))
        × (n ≡ channel_capacity + 2 → close p db ≡ none)
  unfolding close called
  close_lem {n} {db} r = (
    λ few. (
      record db { inner = closed_inner p db.inner; queued = db.queued + 1 },
      ground (arith, Reach-Inv r),
      refl,
    ),
    λ e. ground (arith, Reach-Inv r),
  )
