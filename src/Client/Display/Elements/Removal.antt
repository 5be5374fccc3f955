-- ===== src/Client/Display/Elements/Removal.antt =====
-- What is on the screen after connections have ended.
use torrxfer.Base.{
  Bool-cases, ◌∙◌, ℕ, zero, suc, ◌≤◌, ◌<◌, ◌≡◌, ◌⊎◌, inl, inr, refl, Bool, List, [], ◌∷◌, ◌++◌,
  arith, ltb, length, get_elem?, take, drop,
}
use torrxfer.Text.{Bytes}
use torrxfer.Net.File.{Outcome, done, exits}
use torrxfer.Client.Connection.{ServerConnection, disconnected, get_index}
use torrxfer.Client.Display.Elements.{Screen, update_server_state}

removed : {A : Type 0} → List A → ℕ → List A
removed xs i = take i xs ++ drop (suc i) xs

module _ {A : Type 0} where
  length-removed : (xs : List A) (i : ℕ) → i < length xs → suc (length (removed xs i)) ≡ length xs
  unfolding removed
  length-removed [] i h = absurd (omega (arith, h))
  length-removed (x ∷ xs) zero h = refl
  length-removed (x ∷ xs) (suc i) h = omega (arith, length-removed xs i (omega (arith, h)))

  -- From the place on, everything moves by one.
  get_elem?-removed :
      (xs : List A) (i j : ℕ) → i ≤ j → get_elem? (removed xs i) j ≡ get_elem? xs (suc j)
  unfolding removed
  get_elem?-removed [] zero j h = refl
  get_elem?-removed [] (suc i) j h = refl
  get_elem?-removed (x ∷ xs) zero j h = refl
  get_elem?-removed (x ∷ xs) (suc i) zero h = absurd (omega (arith, h))
  get_elem?-removed (x ∷ xs) (suc i) (suc j) h = get_elem?-removed xs i j (omega (arith, h))

  get_elem?-removed_lt :
      (xs : List A) (i j : ℕ) → j < i → get_elem? (removed xs i) j ≡ get_elem? xs j
  unfolding removed
  get_elem?-removed_lt [] zero j h = refl
  get_elem?-removed_lt [] (suc i) j h = refl
  get_elem?-removed_lt (x ∷ xs) zero j h = absurd (omega (arith, h))
  get_elem?-removed_lt (x ∷ xs) (suc i) zero h = refl
  get_elem?-removed_lt (x ∷ xs) (suc i) (suc j) h = get_elem?-removed_lt xs i j (omega (arith, h))

module _ (path : ℕ → Bytes) (size : ℕ → ℕ) (nil_accepts : Bool) {T : Type 0} where
  abbrev disconnect : Screen T → ServerConnection T → Outcome (Screen T)
  disconnect screen s = update_server_state path size nil_accepts screen disconnected s

  abbrev without : Screen T → ℕ → Screen T
  without screen i = record screen { elements = removed screen.elements i }

  disconnect-without :
      (screen : Screen T) (s : ServerConnection T)
      → get_index s < length screen.elements
      → disconnect screen s ≡ done (without screen (get_index s))
  unfolding update_server_state removed
  disconnect-without screen s h = ground arith

  disconnect-exits :
      (screen : Screen T) (s : ServerConnection T)
      → length screen.elements ≤ get_index s
      → disconnect screen s ≡ exits
  unfolding update_server_state
  disconnect-exits screen s h = ground arith

  -- Two connections end, the one with the smaller index first. From then on the element of the
  -- other one stands one place before its index. When that one ends, its own element stays, and the
  -- element behind it is removed; if there is none behind it, the process ends.
  pub later_disconnect :
      (screen : Screen T) (a b : ServerConnection T) (j : ℕ)
      → get_index a ≤ j
      → get_index b ≡ suc j
      → suc j < length screen.elements
      → (s1 : Screen T) × (update_server_state path size nil_accepts screen disconnected a
          ≡ done s1)
        × (get_elem? s1.elements j ≡ get_elem? screen.elements (get_index b))
        × (((suc (get_index b) ≡ length screen.elements)
              × (update_server_state path size nil_accepts s1 disconnected b ≡ exits))
            ⊎ ((s2 : Screen T) × (update_server_state path size nil_accepts s1 disconnected b
                  ≡ done s2)
                × (get_elem? s2.elements j ≡ get_elem? screen.elements (get_index b))
                × (get_elem? s2.elements (get_index b)
                    ≡ get_elem? screen.elements (suc (suc (get_index b))))))
  later_disconnect screen a b j la eb lb = (
    s1,
    disconnect-without screen a (omega arith),
    moved,
    elim (Bool-cases (ltb (get_index b) (length s1.elements))) [
      | inl e ↦ inr (
        without s1 (get_index b),
        disconnect-without s1 b (ground arith),
        get_elem?-removed_lt s1.elements (get_index b) j (omega arith) ∙ moved,
        get_elem?-removed s1.elements (get_index b) (get_index b) (omega arith)
            ∙ get_elem?-removed screen.elements (get_index a) (suc (get_index b)) (omega arith),
      )
      | inr e ↦ inl (
        ground (arith, length-removed screen.elements (get_index a) (omega arith)),
        disconnect-exits s1 b (ground arith),
      )
    ],
  )
    where
      s1 : Screen T
      s1 = without screen (get_index a)

      moved : get_elem? s1.elements j ≡ get_elem? screen.elements (get_index b)
      moved = rw eb (get_elem?-removed screen.elements (get_index a) j la)
