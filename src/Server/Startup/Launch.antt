-- ===== src/Server/Startup/Launch.antt =====
-- When a server comes up.
use torrxfer.Base.{
  ◌≡◌, ◌⊎◌, inl, inr, refl, Bool, true, false, ◌&&◌, not, [], ◌∷◌, none, some, arith, Option-cases,
  Bool-cases,
}
use torrxfer.Text.{Bytes}
use torrxfer.Platform.{Platform}
use torrxfer.Disk.{Disk}
use torrxfer.FilePath.{join}
use torrxfer.Net.File.{done, exits}
use torrxfer.Db.{ranging, directory_or, Pogreb, Global, get_db, init_db}
use torrxfer.Server.Startup.{
  ServerConfig, Environment, has_credentials, run_server, server_db_name, Running, directories,
}

module _ (p : Pogreb) (w : Platform) where
  open w use {Time}

  -- The path of the database.
  abbrev pub db_path : Environment → ServerConfig → Bytes
  db_path e conf =
      join (directory_or p e.temp_dir (directories p w conf.db_dir) ∷ server_db_name ∷ [])

  abbrev pub started : Disk Time → ServerConfig → p.State → Running p w
  started disk conf db = record {
    active_files = [];
    writers = [];
    server_root_dir = conf.save_dir;
    disk = disk;
    db = db;
  }

  abbrev ran_with : p.State → Global p.State
  ran_with db = record {
    ran = true;
    singleton =
        some
          (record { inner = db; queued = 0; locked = false; called_counter = 0; reader = ranging });
  }

  -- The first start in a process gives a server exactly if the port can be listened on, the
  -- credentials can be loaded where TLS is asked for, and the database opens; the server then has
  -- no client, the configured directory, the disk as it is and the database as it was opened.
  -- Otherwise the process ends.
  pub run_server_lem :
      (e : Environment) (g : Global p.State) (disk : Disk Time) (conf : ServerConfig)
      (enable_tls : Bool) (cafile keyfile : Bytes)
      → g.ran ≡ false
      → ((g' : Global p.State) × (db : p.State) × (run_server p w e g disk conf enable_tls cafile
              keyfile
            ≡ done (g', started disk conf db))
          × (e.listens conf.port ≡ true)
          × (enable_tls ≡ true → has_credentials e cafile keyfile ≡ true)
          × (p.open_at (db_path e conf) ≡ some db))
        ⊎ ((run_server p w e g disk conf enable_tls cafile keyfile ≡ exits)
            × ((e.listens conf.port ≡ false)
                ⊎ ((enable_tls ≡ true) × (has_credentials e cafile keyfile ≡ false))
                ⊎ (p.open_at (db_path e conf) ≡ none)))
  unfolding run_server get_db init_db
  run_server_lem e g disk conf enable_tls cafile keyfile r =
      elim (Bool-cases (e.listens conf.port)) [
        | inr l ↦ inr (ground arith, inl l)
        | inl l ↦ elim (Bool-cases (enable_tls && not (has_credentials e cafile keyfile))) [
          | inl c ↦ inr (ground arith, inr (inl (ground arith)))
          | inr c ↦ elim (Option-cases (p.open_at (db_path e conf))) [
            | inl o ↦ inr (rw (l, c, r, o) refl, inr (inr o))
            | inr (db, o) ↦ inl (ran_with db, db, rw (l, c, r, o) refl, l, ground arith, o)
          ]
        ]
      ]
