-- ===== src/Client/Watcher/Race/Lost.antt =====
-- An update that comes when the thread has told the subscribers.
use torrxfer.Base.{
  ◌≡◌, refl, List, [], ◌∷◌, ◌++◌, Option, some, Bool, true, false, arith, ltb, length, inl, inr,
  Bool-cases,
}
use torrxfer.Client.Watcher.{
  Phase, selecting, draining, notified, closing, exited, Handler, send_update, fire, receive,
  notify, finish, Action, send, fires, receives, notifies, finishes, act, run, receive_from,
  notify_at, finish_at, is_closed,
}

-- Behind the notification.
abbrev is_past : Phase → Bool
is_past selecting = false
is_past draining = false
is_past _ = true

module _ {F : Type 0} where
  abbrev IsPast : List (Option F) → Handler F → Type 0
  IsPast sent h = (is_past h.phase ≡ true) × (h.sent ≡ sent)

  receive_from-past :
      (h : Handler F) (p : Phase) (fs : List F) → is_past p ≡ true → receive_from h p fs ≡ h
  receive_from-past h selecting fs e = absurd (ground arith)
  receive_from-past h draining fs e = refl
  receive_from-past h notified fs e = refl
  receive_from-past h closing fs e = refl
  receive_from-past h exited fs e = refl

  notify_at-past : (h : Handler F) (p : Phase) → is_past p ≡ true → notify_at h p h.timer ≡ h
  notify_at-past h selecting e = absurd (ground arith)
  notify_at-past h draining e = refl
  notify_at-past h notified e = refl
  notify_at-past h closing e = refl
  notify_at-past h exited e = refl

  finish_at-IsPast :
      (sent : List (Option F)) (h : Handler F) (p : Phase)
      → IsPast sent h
      → IsPast sent (finish_at h p)
  finish_at-IsPast sent h selecting v = v
  finish_at-IsPast sent h draining v = v
  finish_at-IsPast sent h notified v = (refl, v.1)
  finish_at-IsPast sent h closing v = (refl, v.1)
  finish_at-IsPast sent h exited v = v

  act-IsPast :
      (sent : List (Option F)) (h : Handler F) (x : Action F)
      → IsPast sent h
      → IsPast sent (act h x)
  unfolding act send_update fire receive notify finish
  act-IsPast sent h (send f) v = elim (Bool-cases (is_closed h.phase)) [
    | inl c ↦ rw c v
    | inr c ↦ elim (Bool-cases (ltb (length h.updates) 5)) [
      | inl l ↦ rw (c, l) v
      | inr l ↦ rw (c, l) v
    ]
  ]
  act-IsPast sent h fires v = v
  act-IsPast sent h receives v = rw (receive_from-past h h.phase h.updates v.0) v
  act-IsPast sent h notifies v = rw (notify_at-past h h.phase v.0) v
  act-IsPast sent h finishes v = finish_at-IsPast sent h h.phase v

  run-IsPast :
      (sent : List (Option F)) (h : Handler F) (xs : List (Action F))
      → IsPast sent h
      → IsPast sent (run h xs)
  unfolding run
  run-IsPast sent h [] v = v
  run-IsPast sent h (x ∷ xs) v = run-IsPast sent (act h x) xs (act-IsPast sent h x v)

  -- An update that is sent when the thread has told the subscribers and has yet to close its channel
  -- is taken by the channel if there is room, without an error, and the subscribers are told nothing
  -- more by this thread, whatever follows.
  pub lost_update :
      (h : Handler F) (f : F) (xs : List (Action F))
      → h.phase ≡ notified
      → ltb (length h.updates) 5 ≡ true
      → (h' : Handler F) × (send_update h f ≡ some h')
        × (h'.updates ≡ h.updates ++ (f ∷ []))
        × (h'.panicked ≡ h.panicked)
        × ((run h' xs).sent ≡ h.sent)
  unfolding send_update
  lost_update h f xs p l = (
    record h { updates = h.updates ++ (f ∷ []) },
    rw (p, l) refl,
    refl,
    refl,
    (run-IsPast h.sent (record h { updates = h.updates ++ (f ∷ []) }) xs (rw p (refl, refl))).1,
  )
