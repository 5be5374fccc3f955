-- ===== src/Client/Display/Layout.antt =====
-- internal/client/ui.go: the grid of `StartUI`, the menu, and what it and the forms' buttons do to
-- the grid. `updateUI` hands its function to a goroutine, and so it runs later.
pub mod Places
pub mod Presses
use torrxfer.Base.{
  ℕ, suc, ◌+◌, ◌==◌, ◌&&◌, ◌≡◌, Bool, true, false, List, [], ◌∷◌, ◌++◌, Option, none, some,
  if◌then◌else◌, not,
}

-- What stands in the grid. A form is a pointer, and so it has a number.
pub data Primitive : Type 0 where
  text_header connection_status menu log_streaming : Primitive
  server_form directory_form : ℕ → Primitive

abbrev pub same_primitive : Primitive → Primitive → Bool
same_primitive text_header text_header = true
same_primitive connection_status connection_status = true
same_primitive menu menu = true
same_primitive log_streaming log_streaming = true
same_primitive (server_form n) (server_form m) = n == m
same_primitive (directory_form n) (directory_form m) = n == m
same_primitive _ _ = false

-- A row, a column, and how many of them.
pub record Place : Type 0 where
  pub row : ℕ
  pub column : ℕ
  pub row_span : ℕ
  pub column_span : ℕ

abbrev pub Items : Type 0
Items = List (Primitive × Place)

-- The grid of the library, with what it shows.
pub record GridLibrary : Type 1 where
  pub Grid : Type 0
  pub new_grid : Grid
  pub add_item : Grid → Primitive → Place → Grid
  pub remove_item : Grid → Primitive → Grid
  pub items : Grid → Items

abbrev pub without : Primitive → Items → Items
without p [] = []
without p ((q, at) ∷ xs) = if same_primitive p q then without p xs else (q, at) ∷ without p xs

-- `AddItem` adds behind the others, and `RemoveItem` removes all items of a primitive and keeps the
-- order of the rest.
pub record IsDocumented (g : GridLibrary) : Type 0 where
  pub items-new_grid : g.items g.new_grid ≡ []
  pub items-add_item :
      (s : g.Grid) (p : Primitive) (at : Place)
      → g.items (g.add_item s p at) ≡ g.items s ++ ((p, at) ∷ [])
  pub items-remove_item :
      (s : g.Grid) (p : Primitive) → g.items (g.remove_item s p) ≡ without p (g.items s)

-- A function that waits to be run: a form takes the menu's place, or the menu takes a form's.
pub data Update : Type 0 where
  open_form close_form : Primitive → Update

pub data Choice : Type 0 where
  connect add_folder background configuration quit : Choice

abbrev pub place_at : ℕ → ℕ → ℕ → Place
place_at row column columns = record {
  row = row;
  column = column;
  row_span = 1;
  column_span = columns;
}

module _ (g : GridLibrary) where
  open g use {Grid, new_grid, add_item, remove_item}

  -- `forms` counts the forms that were made.
  pub record Screen : Type 0 where
    pub grid : Grid
    pub focus : Primitive
    pub pending : List Update
    pub forms : ℕ
    pub stopped : Bool

  abbrev pub main_grid : Grid
  main_grid =
      add_item
        (add_item
          (add_item (add_item new_grid text_header (place_at 0 0 2)) connection_status
            (place_at 1 0 1))
          menu (place_at 1 1 1))
        log_streaming (place_at 2 0 2)

  abbrev pub start_ui : Screen
  start_ui = record { grid = main_grid; focus = menu; pending = []; forms = 0; stopped = false }

  abbrev pub later : Screen → Update → Screen
  later s u = record s { pending = s.pending ++ (u ∷ []) }

  -- `connectServer` and `addDirectory` make a new form. `Background` has no function, and `settings`
  -- does nothing.
  unfoldable pub select_item : Screen → Choice → Screen
  select_item s connect = record (later s (open_form (server_form s.forms))) { forms = suc s.forms }
  select_item s add_folder = record (later s (open_form (directory_form s.forms))) {
    forms = suc s.forms;
  }
  select_item s background = s
  select_item s configuration = s
  select_item s quit = record s { stopped = true }

  -- The button Quit of a form, and the last step of Connect.
  unfoldable pub leave : Screen → Primitive → Screen
  leave s form = later s (close_form form)

  -- The button Add: `watched` is whether `WatchDirectory` gives no error.
  unfoldable pub add_pressed : Screen → Primitive → Bool → Screen
  unfolding leave
  add_pressed s form watched = if watched then leave s form else s

  abbrev pub replace : Screen → Primitive → Primitive → Screen
  replace s old new = record s {
    grid = add_item (remove_item s.grid old) new (place_at 1 1 1);
    focus = new;
  }

  unfoldable pub run_update : Screen → Update → Screen
  run_update s (open_form form) = replace s menu form
  run_update s (close_form form) = replace s form menu

  unfoldable pub run_updates : Screen → List Update → Screen
  unfolding run_update
  run_updates s [] = s
  run_updates s (u ∷ us) = run_updates (run_update s u) us

  -- All that waits is run, in its order.
  unfoldable pub draw : Screen → Screen
  unfolding run_updates
  draw s = run_updates (record s { pending = [] }) s.pending
