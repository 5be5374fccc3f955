-- ===== src/Client/Display/Layout/Presses.antt =====
-- Keys that come before the updates have run.
use torrxfer.Base.{
  ℕ, zero, suc, ◌+◌, ◌≡◌, refl, List, [], ◌∷◌, ◌++◌, arith, ap, ◌∙◌, sym, append_assoc, append-nil,
}
use torrxfer.Client.Display.Layout.{
  Primitive, menu, server_form, GridLibrary, IsDocumented, Update, open_form, connect, Screen,
  select_item, replace, run_update, run_updates, draw,
}
use torrxfer.Client.Display.Layout.Places.{beside, drop_primitive, beside-replace, IsTidy}

-- The forms from the number `k` on.
abbrev pub forms_from : ℕ → ℕ → List Primitive
forms_from k zero = []
forms_from k (suc n) = server_form k ∷ forms_from (suc k) n

abbrev pub openings : List Primitive → List Update
openings [] = []
openings (p ∷ ps) = open_form p ∷ openings ps

forms-IsMenuless : (k n : ℕ) → drop_primitive menu (forms_from k n) ≡ forms_from k n
forms-IsMenuless k zero = refl
forms-IsMenuless k (suc n) = ap (λ ps. server_form k ∷ ps) (forms-IsMenuless (suc k) n)

forms_from-snoc : (k n : ℕ) → forms_from k n ++ (server_form (k + n) ∷ []) ≡ forms_from k (suc n)
forms_from-snoc k zero = ground arith
forms_from-snoc k (suc n) = ground (arith, forms_from-snoc (suc k) n)

module _ (g : GridLibrary) (law : IsDocumented g) where
  open g use {items}

  -- The item Connect is chosen `n` times.
  abbrev pub presses : ℕ → Screen g → Screen g
  presses zero s = s
  presses (suc n) s = presses n (select_item g s connect)

  presses-pending :
      (n : ℕ) (s : Screen g)
      → ((presses n s).pending ≡ s.pending ++ openings (forms_from s.forms n))
        × ((presses n s).grid ≡ s.grid)
  unfolding select_item
  presses-pending zero s = (sym (append-nil s.pending), refl)
  presses-pending (suc n) s =
      let (waiting, same) = presses-pending n (select_item g s connect) in
      (
        waiting
            ∙ append_assoc s.pending (open_form (server_form s.forms) ∷ [])
                (openings (forms_from (suc s.forms) n)),
        same,
      )

  run_updates-forms :
      (n k m j t : ℕ) (s : Screen g)
      → j ≡ k + m
      → t ≡ m + n
      → beside (items s.grid) ≡ forms_from k m
      → beside (items (run_updates g s (openings (forms_from j n))).grid) ≡ forms_from k t
  unfolding run_updates run_update
  run_updates-forms zero k m j t s next all e = ground arith
  run_updates-forms (suc n) k m j t s next all e =
      run_updates-forms n k (suc m) (suc j) t (replace g s menu (server_form j)) (omega arith)
        (omega arith) one_more
    where
      one_more : beside (items (replace g s menu (server_form j)).grid) ≡ forms_from k (suc m)
      one_more =
          rw (next, beside-replace g law s menu (server_form (k + m)), e, forms-IsMenuless k m)
            (forms_from-snoc k m)

  draw-forms :
      (s : Screen g) (k n : ℕ)
      → s.pending ≡ openings (forms_from k (suc n))
      → beside (items s.grid) ≡ menu ∷ []
      → beside (items (draw g s).grid) ≡ forms_from k (suc n)
  unfolding draw run_updates run_update
  draw-forms s k n waiting alone = rw waiting (
      run_updates-forms n k 1 (suc k) (suc n)
        (replace g (record s { pending = [] }) menu (server_form k)) (omega arith) (omega arith)
        first)
    where
      first :
          beside (items (replace g (record s { pending = [] }) menu (server_form k)).grid)
          ≡ server_form k ∷ []
      first = rw (beside-replace g law (record s { pending = [] }) menu (server_form k), alone) refl

  -- If Connect is chosen several times from a tidy screen before what the first one has left is run, then as many forms
  -- stand in one place, in the order of the choices, and none of them is removed by the others.
  pub presses-draw :
      (s : Screen g) (n : ℕ)
      → IsTidy g law s
      → s.focus ≡ menu
      → beside (items (draw g (presses (suc n) s)).grid) ≡ forms_from s.forms (suc n)
  presses-draw s n v m =
      let (waiting, same) = presses-pending (suc n) s in
      draw-forms (presses (suc n) s) s.forms n
        (waiting ∙ ap (λ p. p ++ openings (forms_from s.forms (suc n))) v.at_rest)
        (ap (λ grid. beside (items grid)) same ∙ v.alone ∙ ap (λ p. p ∷ []) m)
