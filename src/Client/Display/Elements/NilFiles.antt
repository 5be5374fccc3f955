-- ===== src/Client/Display/Elements/NilFiles.antt =====
-- The screen and the nil pointers in the list of a connection's files.
use torrxfer.Base.{
  ℕ, suc, ◌≡◌, ◌≢◌, ◌⊎◌, inl, inr, refl, Bool, List, [], ◌∷◌, ◌++◌, Option, none, some, arith,
  length, length-append, get_elem?, get_elem?-length, replicate, map,
}
use torrxfer.Text.{Bytes}
use torrxfer.Net.File.{done, exits}
use torrxfer.Client.Connection.{
  ServerConnection, connected, files_updated, file_of, get_files_transferred,
}
use torrxfer.Client.Display.Elements.{
  Screen, view_of, generate_server_status_ui, update_server_state,
}

-- The list begins with a nil pointer, or there is no file.
get_files_transferred-cases :
    {T : Type 0} (s : ServerConnection T)
    → ((s.files_transferred ≡ []) × (get_files_transferred s ≡ []))
      ⊎ ((s.files_transferred ≢ [])
          × ((files : List (Option ℕ)) × (get_files_transferred s ≡ none ∷ files)))
unfolding get_files_transferred
get_files_transferred-cases s = of_files s.files_transferred refl
  where
    of_files :
        (fs : List (Bytes × ℕ))
        → s.files_transferred ≡ fs
        → ((s.files_transferred ≡ []) × (get_files_transferred s ≡ []))
          ⊎ ((s.files_transferred ≢ [])
              × ((files : List (Option ℕ)) × (get_files_transferred s ≡ none ∷ files)))
    of_files [] e = inl (e, rw e refl)
    of_files (f ∷ fs) e =
        inr (ground arith, (replicate (length fs) none ++ map file_of (f ∷ fs), rw e refl))

module _ (path : ℕ → Bytes) (size : ℕ → ℕ) (nil_accepts : Bool) {T : Type 0} where
  -- A connection without files is shown by one more element with no bars, and an update of it
  -- changes nothing. As soon as a connection has a file, its element cannot be made, and an update
  -- of it ends the process, in every state of the screen.
  pub update_server_state-files :
      (screen : Screen T) (s : ServerConnection T)
      → (s.files_transferred ≢ []
          → (update_server_state path size nil_accepts screen connected s ≡ exits)
            × (update_server_state path size nil_accepts screen files_updated s ≡ exits))
        × (s.files_transferred ≡ []
            → (update_server_state path size nil_accepts screen files_updated s ≡ done screen)
              × ((s' : Screen T) × (update_server_state path size nil_accepts screen connected s
                    ≡ done s')
                  × (length s'.elements ≡ suc (length screen.elements))
                  × (get_elem? s'.progress_bars (length screen.progress_bars) ≡ some [])))
  unfolding update_server_state generate_server_status_ui
  update_server_state-files screen s = elim (get_files_transferred-cases s) [
    | inl (e, q) ↦ (
      λ n. absurd (n e),
      λ _. (
        rw q refl,
        (
          record screen {
            elements = screen.elements ++ (view_of path size nil_accepts s ∷ []);
            progress_bars = screen.progress_bars ++ ([] ∷ []);
          },
          rw q refl,
          ground (arith, length-append {0} screen.elements (view_of path size nil_accepts s ∷ [])),
          get_elem?-length screen.progress_bars [],
        ),
      ),
    )
    | inr (n, (files, q)) ↦ (λ _. (rw q refl, rw q refl), λ e. absurd (n e))
  ]
