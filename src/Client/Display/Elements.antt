-- ===== src/Client/Display/Elements.antt =====
-- internal/client/ui.go: `updateServerState` and `generateServerStatusUI`, with the elements of the
-- screen and the progress bars of the files. The rendering is left out.
pub mod Removal
pub mod NilFiles
use torrxfer.Base.{
  ℕ, suc, Bool, true, false, List, [], ◌∷◌, ◌++◌, Option, none, some, if◌then◌else◌, ltb, length,
  get_elem?, set, lookup, insert, take, drop,
}
use torrxfer.Text.{Bytes}
use torrxfer.Decimal.{format_uint}
use torrxfer.Net.File.{Outcome, done, exits}
use torrxfer.Client.Connection.{
  ServerConnection, ConnectionNotificationType, connected, disconnected, files_updated, completed,
  query_error, transfer_error, fatal_error, get_index, get_address, get_port, get_connection_time,
  get_bytes_transferred, get_files_transferred, get_file_size_on_server,
}

-- A bar with its maximum.
pub record ProgressBar : Type 0 where
  pub max : ℕ
  pub progress : ℕ

-- The texts of a connection's element.
pub record StatusView (T : Type 0) : Type 0 where
  pub title : Bytes
  pub connected_since : T
  pub bytes_transferred : ℕ

pub record Screen (T : Type 0) : Type 0 where
  pub elements : List (StatusView T)
  pub progress_bars : List (List (Bytes × ProgressBar))

-- `append(xs[:i], xs[i+1:]...)`, which ends the process out of range.
abbrev pub remove_at : {A : Type 0} → List A → ℕ → Outcome (List A)
remove_at xs i = if ltb i (length xs) then done (take i xs ++ drop (suc i) xs) else exits

-- `path` and `size` are those of the numbered files, and `nil_accepts` says whether the library's
-- `SetProgress` returns from a nil bar.
module _ (path : ℕ → Bytes) (size : ℕ → ℕ) (nil_accepts : Bool) where
  abbrev bar_in :
      List (List (Bytes × ProgressBar))
      → ℕ
      → ℕ
      → Option (List (Bytes × ProgressBar))
      → Outcome (List (List (Bytes × ProgressBar)))
  bar_in bars i file none = exits
  bar_in bars i file (some m) =
      done (set bars i (insert (path file) (record { max = size file; progress = 0 }) m))

  -- A new bar for each file of the connection `i`; a nil file ends the process.
  abbrev pub add_bars :
      List (List (Bytes × ProgressBar))
      → ℕ
      → List (Option ℕ)
      → Outcome (List (List (Bytes × ProgressBar)))
  add_bars bars i [] = done bars
  add_bars bars i (none ∷ files) = exits
  add_bars bars i (some file ∷ files) = elim (bar_in bars i file (get_elem? bars i)) [
    | exits ↦ exits
    | done bars' ↦ add_bars bars' i files
  ]

  abbrev set_bar :
      ℕ
      → List (Bytes × ProgressBar)
      → Bytes
      → Option ProgressBar
      → Outcome (List (Bytes × ProgressBar))
  set_bar n m q none = if nil_accepts then done m else exits
  set_bar n m q (some bar) = done (insert q (record bar { progress = n }) m)

  abbrev set_in :
      List (List (Bytes × ProgressBar))
      → ℕ
      → Bytes
      → ℕ
      → Option (List (Bytes × ProgressBar))
      → Outcome (List (List (Bytes × ProgressBar)))
  set_in bars i q n none = exits
  set_in bars i q n (some m) = elim (set_bar n m q (lookup q m)) [
    | exits ↦ exits
    | done m' ↦ done (set bars i m')
  ]

  module _ {T : Type 0} where
    abbrev pub set_bars :
        ServerConnection T
        → List (List (Bytes × ProgressBar))
        → List (Option ℕ)
        → Outcome (List (List (Bytes × ProgressBar)))
    set_bars s bars [] = done bars
    set_bars s bars (none ∷ files) = exits
    set_bars s bars (some file ∷ files) =
        elim (set_in bars (get_index s) (path file) (get_file_size_on_server s (path file))
          (get_elem? bars (get_index s))) [ exits ↦ exits | done bars' ↦ set_bars s bars' files ]

    abbrev pub view_of : ServerConnection T → StatusView T
    view_of s = record {
      title = get_address s ++ (b':' ∷ format_uint (get_port s));
      connected_since = get_connection_time s;
      bytes_transferred = get_bytes_transferred s;
    }

    abbrev shown_with :
        Screen T
        → StatusView T
        → Outcome (List (List (Bytes × ProgressBar)))
        → Outcome (Screen T × StatusView T)
    shown_with screen view exits = exits
    shown_with screen view (done bars) = done (record screen { progress_bars = bars }, view)

    unfoldable pub generate_server_status_ui :
        Screen T → ServerConnection T → Outcome (Screen T × StatusView T)
    generate_server_status_ui screen s =
        shown_with screen (view_of s)
          (add_bars (screen.progress_bars ++ ([] ∷ [])) (get_index s) (get_files_transferred s))

    abbrev with_element : Outcome (Screen T × StatusView T) → Outcome (Screen T)
    with_element exits = exits
    with_element (done (screen, view)) =
        done (record screen { elements = screen.elements ++ (view ∷ []) })

    abbrev with_elements : Screen T → Outcome (List (StatusView T)) → Outcome (Screen T)
    with_elements screen exits = exits
    with_elements screen (done es) = done (record screen { elements = es })

    abbrev with_bars : Screen T → Outcome (List (List (Bytes × ProgressBar))) → Outcome (Screen T)
    with_bars screen exits = exits
    with_bars screen (done bars) = done (record screen { progress_bars = bars })

    unfoldable pub update_server_state :
        Screen T → ConnectionNotificationType → ServerConnection T → Outcome (Screen T)
    unfolding generate_server_status_ui
    update_server_state screen connected s = with_element (generate_server_status_ui screen s)
    update_server_state screen disconnected s =
        with_elements screen (remove_at screen.elements (get_index s))
    update_server_state screen files_updated s =
        with_bars screen (set_bars s screen.progress_bars (get_files_transferred s))
    update_server_state screen completed s = done screen
    update_server_state screen query_error s = done screen
    update_server_state screen transfer_error s = done screen
    update_server_state screen fatal_error s = done screen
