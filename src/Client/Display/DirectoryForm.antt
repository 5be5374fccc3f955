-- ===== src/Client/Display/DirectoryForm.antt =====
-- internal/client/ui.go: `addDirectory`, what its form does when a field is left and when the button
-- Add is pressed. The colours of the fields are flags.
use torrxfer.Base.{◌≡◌, refl, Bool, true, false, ◌||◌, not, [], ◌∷◌, ◌++◌}
use torrxfer.Text.{Bytes}
use torrxfer.Platform.{Platform}
use torrxfer.Crypto.{Certificates}
use torrxfer.Disk.{Disk, Stat, found, not_exist, stat_failed, os_stat}
use torrxfer.Paths.{is_subdir}
use torrxfer.Client.Launch.{Launched, WatchedDirectory, watch_directory}
use torrxfer.Client.Watcher.Service.{new_file_watcher, register_for_file_notifications}

-- The texts of the fields, and whether they are marked.
pub record DirectoryForm : Type 0 where
  pub directory : Bytes
  pub media_root : Bytes
  pub directory_marked : Bool
  pub root_marked : Bool

-- `os.IsNotExist(err)`
abbrev pub is_not_exist : {T : Type 0} → Stat T → Bool
is_not_exist (found n t d) = false
is_not_exist not_exist = true
is_not_exist stat_failed = false

unfoldable pub directory_done : {T : Type 0} → Disk T → DirectoryForm → DirectoryForm
directory_done disk f = record f {
  directory_marked = f.directory_marked || is_not_exist (os_stat disk f.directory);
}

unfoldable pub media_root_done : {T : Type 0} → Disk T → DirectoryForm → DirectoryForm
media_root_done disk f = record f {
  root_marked =
      f.root_marked
      || is_not_exist (os_stat disk f.directory)
      || not (is_subdir f.media_root f.directory);
}

module _ (w : Platform) (x : Certificates) where
  abbrev pub watched_of : DirectoryForm → WatchedDirectory
  watched_of f = record { directory = f.directory; media_root = f.media_root }

  -- The client afterwards, and whether `WatchDirectory` gave no error.
  unfoldable pub add_directory : Launched w x → DirectoryForm → Launched w x × Bool
  add_directory c f = (watch_directory w x c (watched_of f), is_subdir f.media_root f.directory)

  -- When the field of the media root is left, with a directory that the disk knows, the field is
  -- marked exactly if the button Add will give an error. Add adds one watcher, with one subscriber, if it
  -- gives none, and leaves the client as it is if it does; whether a field is marked, or the directory is
  -- missing, makes no difference to it.
  pub media_root_done-add_directory :
      {T : Type 0} (disk : Disk T) (c : Launched w x) (f : DirectoryForm)
      → f.root_marked ≡ false
      → is_not_exist (os_stat disk f.directory) ≡ false
      → ((media_root_done disk f).root_marked ≡ not (add_directory c f).1)
        × ((add_directory c (directory_done disk (media_root_done disk f))) ≡ add_directory c f)
        × ((add_directory c f).1 ≡ false → (add_directory c f).0 ≡ c)
        × ((add_directory c f).1 ≡ true
            → (add_directory c f).0.file_stored_dbs
              ≡ c.file_stored_dbs
                ++ (record {
                  watched_directory = f.directory;
                  media_directory_root = f.media_root;
                  active_files = [];
                  outgoing = [] ∷ [];
                }
                    ∷ []))
  unfolding media_root_done directory_done add_directory watch_directory new_file_watcher
      register_for_file_notifications
  media_root_done-add_directory disk c f clean there =
      (rw (clean, there) refl, refl, λ e. rw e refl, λ e. rw e refl)
