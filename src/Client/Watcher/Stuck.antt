-- ===== src/Client/Watcher/Stuck.antt =====
-- An update that comes after the delay has passed.
use torrxfer.Base.{
  ◌≡◌, ◌≤◌, inl, inr, refl, true, List, [], ◌∷◌, Option, none, arith, ltb, length, Bool-cases,
}
use torrxfer.Client.Watcher.{
  delayed, selecting, draining, Handler, send_update, fire, receive, notify, finish, Action, send,
  fires, receives, notifies, finishes, act, run,
}

module _ {F : Type 0} where
  -- It waits for a channel that is nil, and `sent` were sent until then.
  abbrev IsStuck : List (Option F) → Handler F → Type 0
  IsStuck sent h = (h.phase ≡ draining) × (h.sent ≡ sent)

  act-IsStuck :
      (sent : List (Option F)) (h : Handler F) (x : Action F)
      → IsStuck sent h
      → IsStuck sent (act h x)
  unfolding act send_update fire receive notify finish
  act-IsStuck sent h (send f) (p, s) = elim (Bool-cases (ltb (length h.updates) 5)) [
    | inl l ↦ rw (p, l) (refl, s)
    | inr l ↦ rw (p, l) (refl, s)
  ]
  act-IsStuck sent h fires v = v
  act-IsStuck sent h receives (p, s) = rw p (refl, s)
  act-IsStuck sent h notifies (p, s) = rw p (refl, s)
  act-IsStuck sent h finishes (p, s) = rw p (refl, s)

  run-IsStuck :
      (sent : List (Option F)) (h : Handler F) (xs : List (Action F))
      → IsStuck sent h
      → IsStuck sent (run h xs)
  unfolding run
  run-IsStuck sent h [] v = v
  run-IsStuck sent h (x ∷ xs) v = run-IsStuck sent (act h x) xs (act-IsStuck sent h x v)

  -- If the thread takes an update when the delay behind the one before has passed, then whatever
  -- follows, it waits for ever, tells the subscribers of no file, and once five more updates stand
  -- in its channel every further one makes its sender wait.
  pub late_update :
      (h : Handler F) (f g : F) (fs : List F) (xs : List (Action F))
      → h.phase ≡ selecting
      → h.timer ≡ delayed true
      → h.updates ≡ f ∷ fs
      → ((run (act h receives) xs).phase ≡ draining)
        × ((run (act h receives) xs).sent ≡ h.sent)
        × (5 ≤ length (run (act h receives) xs).updates
            → send_update (run (act h receives) xs) g ≡ none)
  unfolding act receive send_update
  late_update h f g fs xs p t u =
      let stuck : IsStuck h.sent (run (receive h) xs) =
        run-IsStuck h.sent (receive h) xs (rw (u, t, p) (refl, refl)) in
      (stuck.0, stuck.1, λ l. rw stuck.0 (ground arith))
