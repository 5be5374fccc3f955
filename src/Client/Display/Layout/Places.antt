-- ===== src/Client/Display/Layout/Places.antt =====
-- What stands beside the list of connections, when each update runs before the next key.
use torrxfer.Base.{
  ℕ, suc, ◌==◌, ◌&&◌, ◌≡◌, ◌⊎◌, refl, Bool, true, false, List, [], ◌∷◌, ◌++◌, arith, inl, inr,
  if◌then◌else◌, ap, ◌∙◌,
}
use torrxfer.Client.Display.Layout.{
  Primitive, text_header, connection_status, menu, log_streaming, server_form, directory_form,
  same_primitive, Items, GridLibrary, without, IsDocumented, open_form, Choice, connect, add_folder,
  background, configuration, quit, place_at, Screen, start_ui, select_item, leave, later,
  add_pressed, replace, run_update, run_updates, draw,
}

-- What stands in the second row and column.
abbrev pub beside : Items → List Primitive
beside [] = []
beside ((p, at) ∷ xs) = if (at.row == 1) && (at.column == 1) then p ∷ beside xs else beside xs

abbrev pub drop_primitive : Primitive → List Primitive → List Primitive
drop_primitive p [] = []
drop_primitive p (q ∷ qs) =
    if same_primitive p q then drop_primitive p qs else q ∷ drop_primitive p qs

beside-without : (p : Primitive) (xs : Items) → beside (without p xs) ≡ drop_primitive p (beside xs)
beside-without p [] = refl
beside-without p ((q, at) ∷ xs) = ground (arith, beside-without p xs)

beside-snoc :
    (xs : Items) (p : Primitive) → beside (xs ++ ((p, place_at 1 1 1) ∷ [])) ≡ beside xs ++ (p ∷ [])
beside-snoc [] p = refl
beside-snoc ((q, at) ∷ xs) p = ground (arith, beside-snoc xs p)

pub same_primitive_refl : (p : Primitive) → same_primitive p p ≡ true
same_primitive_refl text_header = refl
same_primitive_refl connection_status = refl
same_primitive_refl menu = refl
same_primitive_refl log_streaming = refl
same_primitive_refl (server_form n) = ground arith
same_primitive_refl (directory_form n) = ground arith

abbrev pub IsForm : Primitive → Type 0
IsForm (server_form _) = Unit
IsForm (directory_form _) = Unit
IsForm _ = ⊥

module _ (g : GridLibrary) (law : IsDocumented g) where
  open g use {items}

  pub beside-replace :
      (s : Screen g) (old new : Primitive)
      → beside (items (replace g s old new).grid)
        ≡ drop_primitive old (beside (items s.grid)) ++ (new ∷ [])
  beside-replace s old new =
      rw
        (
          law.items-add_item (g.remove_item s.grid old) new (place_at 1 1 1),
          law.items-remove_item s.grid old,
          beside-snoc (without old (items s.grid)) new,
          beside-without old (items s.grid),
        )
        refl

  -- The screens that keys lead to, if what a key leaves to be run has run before the next key. The
  -- keys go to what has the focus.
  pub data Prompt : Screen g → Type 0 where
    started : Prompt (start_ui g)
    chosen :
        {s s' : Screen g}
        → Prompt s
        → s.focus ≡ menu
        → (c : Choice) → s' ≡ draw g (select_item g s c)
        → Prompt s'
    left :
        {s s' : Screen g} → Prompt s → IsForm s.focus → s' ≡ draw g (leave g s s.focus) → Prompt s'
    added :
        {s s' : Screen g}
        → Prompt s
        → IsForm s.focus
        → (watched : Bool) → s' ≡ draw g (add_pressed g s s.focus watched)
        → Prompt s'

  -- One thing stands beside the connections, and it has the focus.
  pub record IsTidy (s : Screen g) : Type 0 where
    pub alone : beside (items s.grid) ≡ s.focus ∷ []
    pub at_rest : s.pending ≡ []
    pub known : (s.focus ≡ menu) ⊎ IsForm s.focus

  drop_alone : (p : Primitive) → drop_primitive p (p ∷ []) ≡ []
  drop_alone p = rw (same_primitive_refl p) refl

  replace-IsTidy :
      (s : Screen g) (old new : Primitive)
      → beside (items s.grid) ≡ old ∷ []
      → s.pending ≡ []
      → (new ≡ menu) ⊎ IsForm new
      → IsTidy (replace g s old new)
  replace-IsTidy s old new alone rest k = record {
    alone = rw (beside-replace s old new, alone, same_primitive_refl old) refl;
    at_rest = rest;
    known = k;
  }

  open_form-IsTidy :
      (s : Screen g) (form : Primitive) (n : ℕ)
      → IsForm form
      → s.focus ≡ menu
      → IsTidy s
      → IsTidy (draw g (record (later g s (open_form form)) { forms = n }))
  unfolding draw run_updates run_update
  open_form-IsTidy s form n f m v = rw v.at_rest (
      replace-IsTidy (record s { pending = []; forms = n }) menu form (v.alone ∙ ap (λ p. p ∷ []) m)
        refl (inr f))

  leave-IsTidy : (s : Screen g) → IsTidy s → IsTidy (draw g (leave g s s.focus))
  unfolding draw leave run_updates run_update
  leave-IsTidy s v =
      rw v.at_rest (replace-IsTidy (record s { pending = [] }) s.focus menu v.alone refl (inl refl))

  draw-IsTidy : (s : Screen g) → IsTidy s → IsTidy (draw g s)
  unfolding draw run_updates
  draw-IsTidy s v = rw v.at_rest (record { alone = v.alone; at_rest = refl; known = v.known })

  select-IsTidy :
      (s : Screen g) (c : Choice) → s.focus ≡ menu → IsTidy s → IsTidy (draw g (select_item g s c))
  unfolding select_item
  select-IsTidy s connect m v = open_form-IsTidy s (server_form s.forms) (suc s.forms) tt m v
  select-IsTidy s add_folder m v = open_form-IsTidy s (directory_form s.forms) (suc s.forms) tt m v
  select-IsTidy s background m v = draw-IsTidy s v
  select-IsTidy s configuration m v = draw-IsTidy s v
  select-IsTidy s quit m v =
      draw-IsTidy (record s { stopped = true })
        (record { alone = v.alone; at_rest = v.at_rest; known = v.known })

  start_ui-IsTidy : IsTidy (start_ui g)
  start_ui-IsTidy = record {
    alone =
        rw
          (
            law.items-add_item, law.items-add_item, law.items-add_item, law.items-add_item,
            law.items-new_grid,
          )
          refl;
    at_rest = refl;
    known = inl refl;
  }

  -- If each key comes after what the key before it has left to be run, then exactly one of the menu
  -- and a form stands beside the connections, it has the focus, and nothing waits to be run.
  pub Prompt-IsTidy : {s : Screen g} → Prompt s → IsTidy s
  unfolding add_pressed
  Prompt-IsTidy started = start_ui-IsTidy
  Prompt-IsTidy (chosen {s} r m c e) = rw e (select-IsTidy s c m (Prompt-IsTidy r))
  Prompt-IsTidy (left {s} r f e) = rw e (leave-IsTidy s (Prompt-IsTidy r))
  Prompt-IsTidy (added {s} r f true e) = rw e (leave-IsTidy s (Prompt-IsTidy r))
  Prompt-IsTidy (added {s} r f false e) = rw e (draw-IsTidy s (Prompt-IsTidy r))
