-- ===== src/Db/Store.antt =====
-- What the operations of the database store and return, over a pogreb that keeps its promises.
use torrxfer.Base.{◌≡◌, ◌≢◌, true, false, Option, some, arith}
use torrxfer.Text.{Bytes}
use torrxfer.Platform.{Platform}
use torrxfer.Database.{Database, IsLawful}
use torrxfer.Db.{Pogreb, KvDb, value, put, get, put_inner, get_inner, has_inner, delete_inner}

-- What pogreb documents: a write that reports no error is seen by the reads that follow, and
-- the other keys are left alone.
pub record IsReliable (p : Pogreb) : Type 0 where
  pub get-put :
      (s : p.State) (k v : Bytes) → (p.put s k v).1 ≡ true → p.get (p.put s k v).0 k ≡ value v
  pub get-put_ne : (s : p.State) (k v j : Bytes) → j ≢ k → p.get (p.put s k v).0 j ≡ p.get s j
  pub has-put :
      (s : p.State) (k v : Bytes) → (p.put s k v).1 ≡ true → p.has (p.put s k v).0 k ≡ some true
  pub has-delete :
      (s : p.State) (k : Bytes) → (p.delete s k).1 ≡ true → p.has (p.delete s k).0 k ≡ some false

module _ (p : Pogreb) (w : Platform) where
  open p use {State}

  -- The effect of the operations, as the server's interface.
  abbrev pub kv_database : Database
  kv_database = record {
    State = State;
    has = has_inner p w;
    get = get_inner p w;
    put = put_inner p w;
    delete = delete_inner p w;
  }

  module _ (law : IsReliable p) where
    pub kv_database-IsLawful : IsLawful kv_database
    unfolding has_inner get_inner put_inner delete_inner
    kv_database-IsLawful = record {
      has-put = λ s k v h. rw (law.has-put s (w.sha256 k) v h);
      get-put = λ s k v h. rw (law.get-put s (w.sha256 k) v h);
      has-delete = λ s k h. rw (law.has-delete s (w.sha256 k) h);
    }

    -- When a `Put` returns without an error and a `Get` of the next call returns, the `Get` of
    -- the same key gives the value, and the `Get` of a key with another hash gives what it gave
    -- before the `Put`.
    pub get-put :
        (db db' db'' : KvDb State) (k v j : Bytes) (r : Option Bytes)
        → put p w db k v ≡ some (db', true)
        → get p w db' j ≡ some (db'', r)
        → (j ≡ k → r ≡ some v) × (w.sha256 j ≢ w.sha256 k → r ≡ get_inner p w db.inner j)
    unfolding put get
    get-put db db' db'' k v j r hp hg = (
      λ e. ground (arith, law.get-put db.inner (w.sha256 k) v),
      λ ne. ground (arith, law.get-put_ne db.inner (w.sha256 k) v (w.sha256 j) ne),
    )
