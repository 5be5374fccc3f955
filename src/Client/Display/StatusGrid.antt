-- ===== src/Client/Display/StatusGrid.antt =====
-- internal/client/ui.go: the grid of the connections, which the end of `updateServerState` draws
-- again behind every notification but that of progress.
use torrxfer.Base.{ℕ, suc, ◌≡◌, refl, List, [], ◌∷◌, ◌++◌, append_assoc, append-nil, replicate}

module _ (E : Type 0) where
  -- The grid of the library: its elements with their rows.
  pub record StatusLibrary : Type 1 where
    pub Grid : Type 0
    pub new_grid : Grid
    pub set_rows : Grid → List ℕ → Grid
    pub add_item : Grid → E → ℕ → Grid
    pub items : Grid → List (E × ℕ)

  pub record IsDocumented (g : StatusLibrary) : Type 0 where
    pub items-set_rows : (s : g.Grid) (rows : List ℕ) → g.items (g.set_rows s rows) ≡ g.items s
    pub items-add_item :
        (s : g.Grid) (e : E) (row : ℕ) → g.items (g.add_item s e row) ≡ g.items s ++ ((e, row) ∷ [])

  module _ (g : StatusLibrary) where
    open g use {Grid, set_rows, add_item, items}

    -- An element for each row, from a row on.
    unfoldable pub add_elements : Grid → List E → ℕ → Grid
    add_elements s [] row = s
    add_elements s (e ∷ es) row = add_elements (add_item s e row) es (suc row)

    -- The function that is handed to `updateUI`: as many rows as there were elements when it was made,
    -- and the elements by the time it runs.
    unfoldable pub draw_status : Grid → ℕ → List E → Grid
    unfolding add_elements
    draw_status s n es = add_elements (set_rows s (replicate n 0)) es 0

    abbrev pub in_rows : List E → ℕ → List (E × ℕ)
    in_rows [] row = []
    in_rows (e ∷ es) row = (e, row) ∷ in_rows es (suc row)

    module _ (h : IsDocumented g) where
      items-add_elements :
          (es : List E) (s : Grid) (row : ℕ)
          → items (add_elements s es row) ≡ items s ++ in_rows es row
      unfolding add_elements
      items-add_elements [] s row = rw append-nil refl
      items-add_elements (e ∷ es) s row =
          rw (items-add_elements es (add_item s e row) (suc row), h.items-add_item s e row)
            (append_assoc (items s) ((e, row) ∷ []) (in_rows es (suc row)))

      -- Whatever the grid shows it goes on to show, also a connection that has ended; and a connection
      -- that is still there is shown once more.
      pub items-draw_status :
          (s : Grid) (n : ℕ) (es : List E) → items (draw_status s n es) ≡ items s ++ in_rows es 0
      unfolding draw_status
      items-draw_status s n es =
          rw
            (
              items-add_elements es (set_rows s (replicate n 0)) 0,
              h.items-set_rows s (replicate n 0),
            )
            refl
