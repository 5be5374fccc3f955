-- ===== src/Database.antt =====
-- The database as the server uses it (`db.KvDB`): the operations' effect and result, as long as
-- they return, with what a client may rely on. `Db.Store` fills this interface.
use torrxfer.Base.{◌≡◌, Bool, true, false, Option, some}
use torrxfer.Text.{Bytes}

pub record Database : Type 1 where
  pub State : Type 0
  pub has : State → Bytes → Bool
  pub get : State → Bytes → Option Bytes
  pub put : State → Bytes → Bytes → State × Bool
  pub delete : State → Bytes → State × Bool

-- After a write that succeeded the key has the value; after a deletion it is gone.
pub record IsLawful (d : Database) : Type 0 where
  pub has-put :
      (s : d.State) (k v : Bytes) → (d.put s k v).1 ≡ true → d.has (d.put s k v).0 k ≡ true
  pub get-put :
      (s : d.State) (k v : Bytes) → (d.put s k v).1 ≡ true → d.get (d.put s k v).0 k ≡ some v
  pub has-delete :
      (s : d.State) (k : Bytes) → (d.delete s k).1 ≡ true → d.has (d.delete s k).0 k ≡ false
