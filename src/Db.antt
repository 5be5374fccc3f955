-- ===== src/Db.antt =====
-- internal/db/db.go: `kvDb`, the key-value store of the server, over the pogreb database. The
-- operations hash the key with `Hash` of pkg/crypto/crypto.go, and each one reports itself on
-- `calledChannel`, which a goroutine reads in order to compact the database now and then.
pub mod Calls
pub mod Store
use torrxfer.Base.{
  ℕ, ◌+◌, ◌-◌, Bool, true, false, [], ◌∷◌, List, Option, none, some, ltb, ◌==◌, if◌then◌else◌,
  ◌>>=◌,
}
use torrxfer.Text.{Bytes, codes}
use torrxfer.Platform.{Platform}
use torrxfer.FilePath.{join}

abbrev pub threshold : ℕ
threshold = 1000

abbrev pub channel_capacity : ℕ
channel_capacity = 1000

-- What pogreb answers to `Get`: a value, no such key (nil and no error), or an error.
pub data Fetch : Type 0 where
  value : Bytes → Fetch
  missing : Fetch
  fetch_failed : Fetch

-- The pogreb database. A write returns the new state and whether it succeeded.
pub record Pogreb : Type 1 where
  pub State : Type 0
  pub get : State → Bytes → Fetch
  pub has : State → Bytes → Option Bool
  pub put : State → Bytes → Bytes → State × Bool
  pub delete : State → Bytes → State × Bool
  pub compact : State → State
  pub sync : State → State
  pub close : State → State × Bool
  pub open_at : Bytes → Option State

-- Where the goroutine of `initDb` stands: at the head of `range`, or at `channelMux.Lock()`.
pub data Reader : Type 0 where
  ranging locking : Reader

pub record KvDb (S : Type 0) : Type 0 where
  pub inner : S
  pub queued : ℕ
  pub locked : Bool
  pub called_counter : ℕ
  pub reader : Reader

-- `crypto.Hash`; reading a string and summing it do not fail.
unfoldable pub hash_key : Platform → Bytes → Option Bytes
hash_key w key = some (w.sha256 key)

module _ (p : Pogreb) where
  open p use {State, compact, open_at}

  unfoldable pub init_db : Bytes → Bytes → Option (KvDb State)
  unfolding join
  init_db name directory = do
    inner ← open_at (join (directory ∷ name ∷ []))
    some
        (record { inner = inner; queued = 0; locked = false; called_counter = 0; reader = ranging })

  -- The goroutine receives a message, or tries to lock and counts; a lock is never given back.
  abbrev count_call : KvDb State → KvDb State
  count_call db =
      let n = db.called_counter + 1 in
      if n == threshold
      then record db {
        inner = compact db.inner;
        locked = true;
        called_counter = 0;
        reader = ranging;
      }
      else record db { locked = true; called_counter = n; reader = ranging }

  abbrev read_from : Reader → KvDb State → KvDb State
  read_from ranging db =
      if ltb 0 db.queued then record db { queued = db.queued - 1; reader = locking } else db
  read_from locking db = if db.locked then db else count_call db

  unfoldable pub reader_step : KvDb State → KvDb State
  reader_step db = read_from db.reader db

  -- `called`: the send blocks on a full channel, and then the operation does not return (`none`).
  unfoldable pub called : KvDb State → Option (KvDb State)
  called db =
      if ltb db.queued channel_capacity then some (record db { queued = db.queued + 1 }) else none

  -- The effect of each operation on the database, with its result. In `Put` and `Delete` the flag
  -- tells whether the operation succeeded.
  module _ (w : Platform) where
    abbrev put_hashed : State → Bytes → Option Bytes → State × Bool
    put_hashed s v none = (s, false)
    put_hashed s v (some h) = p.put s h v

    unfoldable pub put_inner : State → Bytes → Bytes → State × Bool
    unfolding hash_key
    put_inner s k v = put_hashed s v (hash_key w k)

    -- The bytes of a key that is not there are nil, which is the empty string.
    abbrev string_of : Fetch → Option Bytes
    string_of (value v) = some v
    string_of missing = some []
    string_of fetch_failed = none

    unfoldable pub get_inner : State → Bytes → Option Bytes
    unfolding hash_key
    get_inner s k = do h ← hash_key w k; string_of (p.get s h)

    abbrev delete_hashed : State → Option Bytes → State × Bool
    delete_hashed s none = (s, false)
    delete_hashed s (some h) = p.delete s h

    unfoldable pub delete_inner : State → Bytes → State × Bool
    unfolding hash_key
    delete_inner s k = delete_hashed s (hash_key w k)

    abbrev or_false : Option Bool → Bool
    or_false none = false
    or_false (some b) = b

    unfoldable pub has_inner : State → Bytes → Bool
    unfolding hash_key
    has_inner s k = or_false (do h ← hash_key w k; p.has s h)

    -- The operations of `KvDB`, each with the deferred `called`.
    unfoldable pub put : KvDb State → Bytes → Bytes → Option (KvDb State × Bool)
    unfolding put_inner called
    put db k v =
        let (inner, ok) = put_inner db.inner k v in
        do db' ← called (record db { inner = inner }); some (db', ok)

    unfoldable pub get : KvDb State → Bytes → Option (KvDb State × Option Bytes)
    unfolding get_inner called
    get db k = let r = get_inner db.inner k in do db' ← called db; some (db', r)

    unfoldable pub delete : KvDb State → Bytes → Option (KvDb State × Bool)
    unfolding delete_inner called
    delete db k =
        let (inner, ok) = delete_inner db.inner k in
        do db' ← called (record db { inner = inner }); some (db', ok)

    unfoldable pub has : KvDb State → Bytes → Option (KvDb State × Bool)
    unfolding has_inner called
    has db k = let r = has_inner db.inner k in do db' ← called db; some (db', r)

  -- `Close`: pogreb is closed twice, and the error of the second time is only written to the log.
  abbrev pub closed_inner : State → State
  closed_inner s = (p.close (p.close (p.sync s)).0).0

  unfoldable pub close : KvDb State → Option (KvDb State)
  unfolding called
  close db = called (record db { inner = closed_inner db.inner })

-- The package's `once` and `singleton`. `GetDb` returns the database, which may be nil, and
-- whether there was an error: only the call that runs `initDb` can report one.
pub record Global (S : Type 0) : Type 0 where
  pub ran : Bool
  pub singleton : Option (KvDb S)

module _ (p : Pogreb) where
  open p use {State}

  abbrev pub directory_or : Bytes → List Bytes → Bytes
  directory_or temp_dir [] = temp_dir
  directory_or temp_dir (d ∷ _) = d

  abbrev pub opened : Option (KvDb State) → Global State × Option (KvDb State) × Bool
  opened none = (record { ran = true; singleton = none }, none, false)
  opened (some db) = (record { ran = true; singleton = some db }, some db, true)

  unfoldable pub get_db :
      Global State → Bytes → Bytes → List Bytes → Global State × Option (KvDb State) × Bool
  unfolding init_db
  get_db g temp_dir name dirs =
      if g.ran then (g, g.singleton, true) else opened (init_db p name (directory_or temp_dir dirs))
