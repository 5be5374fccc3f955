-- ===== src/Client/Watcher/Debounce.antt =====
-- What the waiting thread sends to the subscribers.
use torrxfer.Base.{
  ◌≡◌, ◌⊎◌, inl, inr, refl, true, false, List, [], ◌∷◌, Option, some, arith, ltb, length,
  Bool-cases,
}
use torrxfer.Client.Watcher.{
  Timer, initial, delayed, Phase, selecting, draining, notified, closing, exited, Handler,
  new_handler, send_update, fire, receive, notify, finish, Action, send, fires, receives, notifies,
  finishes, act, run, fired, restart, receive_from, notify_at, finish_at, or_same, is_closed,
}

module _ {F : Type 0} where
  -- The thread has a file if its timer is delayed.
  abbrev HasFile : Timer → Option F → Type 0
  HasFile (initial _) file = Unit
  HasFile (delayed _) file = (f : F) × (file ≡ some f)

  abbrev IsSent : Phase → Timer → Option F → List (Option F) → Type 0
  IsSent selecting timer file sent = sent ≡ []
  IsSent draining timer file sent = sent ≡ []
  IsSent _ timer file sent = (timer ≡ delayed true) × (sent ≡ file ∷ [])

  abbrev Inv : Handler F → Type 0
  Inv h = HasFile h.timer h.file × IsSent h.phase h.timer h.file h.sent

  send_update-Inv : (h : Handler F) (f : F) → Inv h → Inv (or_same h (send_update h f))
  unfolding send_update
  send_update-Inv h f v = elim (Bool-cases (is_closed h.phase)) [
    | inl e ↦ rw e v
    | inr e ↦ elim (Bool-cases (ltb (length h.updates) 5)) [
      | inl l ↦ rw (e, l) v
      | inr l ↦ rw (e, l) v
    ]
  ]

  fire-Inv :
      (p : Phase) (t : Timer) (file : Option F) (sent : List (Option F))
      → HasFile t file × IsSent p t file sent
      → HasFile (fired t) file × IsSent p (fired t) file sent
  fire-Inv selecting (initial b) file sent v = v
  fire-Inv selecting (delayed b) file sent v = v
  fire-Inv draining (initial b) file sent v = v
  fire-Inv draining (delayed b) file sent v = v
  fire-Inv notified (initial b) file sent (x, (y, z)) = absurd (ground arith)
  fire-Inv notified (delayed b) file sent (x, (y, z)) = (x, (refl, z))
  fire-Inv closing (initial b) file sent (x, (y, z)) = absurd (ground arith)
  fire-Inv closing (delayed b) file sent (x, (y, z)) = (x, (refl, z))
  fire-Inv exited (initial b) file sent (x, (y, z)) = absurd (ground arith)
  fire-Inv exited (delayed b) file sent (x, (y, z)) = (x, (refl, z))

  restart-Inv :
      (h : Handler F) (t : Timer) (f : F)
      → h.phase ≡ selecting
      → h.sent ≡ []
      → h.file ≡ some f
      → h.timer ≡ t
      → Inv (restart h t)
  restart-Inv h (initial b) f p s e q = rw (p, s) ((f, e), refl)
  restart-Inv h (delayed false) f p s e q = rw (p, s) ((f, e), refl)
  restart-Inv h (delayed true) f p s e q = rw (q, s) ((f, e), refl)

  receive-Inv :
      (h : Handler F) (p : Phase) (fs : List F) → h.phase ≡ p → Inv h → Inv (receive_from h p fs)
  receive-Inv h selecting (f ∷ fs) e (v, u) =
      restart-Inv (record h { updates = fs; file = some f }) h.timer f e (rw e at u) refl refl
  receive-Inv h selecting [] e v = v
  receive-Inv h draining fs e v = v
  receive-Inv h notified fs e v = v
  receive-Inv h closing fs e v = v
  receive-Inv h exited fs e v = v

  notify-Inv :
      (h : Handler F) (p : Phase) (t : Timer)
      → h.phase ≡ p
      → h.timer ≡ t
      → Inv h
      → Inv (notify_at h p t)
  notify-Inv h selecting (initial b) e q v = v
  notify-Inv h selecting (delayed false) e q v = v
  notify-Inv h selecting (delayed true) e q (v, u) =
      let empty : h.sent ≡ [] = rw e at u in (v, (q, rw empty refl))
  notify-Inv h draining t e q v = v
  notify-Inv h notified t e q v = v
  notify-Inv h closing t e q v = v
  notify-Inv h exited t e q v = v

  finish-Inv : (h : Handler F) (p : Phase) → h.phase ≡ p → Inv h → Inv (finish_at h p)
  finish-Inv h selecting e v = v
  finish-Inv h draining e v = v
  finish-Inv h notified e (v, u) = (v, rw e at u)
  finish-Inv h closing e (v, u) = (v, rw e at u)
  finish-Inv h exited e v = v

  act-Inv : (h : Handler F) (x : Action F) → Inv h → Inv (act h x)
  unfolding act fire receive notify finish
  act-Inv h (send f) v = send_update-Inv h f v
  act-Inv h fires v = fire-Inv h.phase h.timer h.file h.sent v
  act-Inv h receives v = receive-Inv h h.phase h.updates refl v
  act-Inv h notifies v = notify-Inv h h.phase h.timer refl refl v
  act-Inv h finishes v = finish-Inv h h.phase refl v

  run-Inv : (h : Handler F) (xs : List (Action F)) → Inv h → Inv (run h xs)
  unfolding run
  run-Inv h [] v = v
  run-Inv h (x ∷ xs) v = run-Inv (act h x) xs (act-Inv h x v)

  sent-Inv :
      (p : Phase) (t : Timer) (file : Option F) (sent : List (Option F))
      → HasFile t file × IsSent p t file sent
      → (sent ≡ []) ⊎ ((f : F) × (file ≡ some f) × (sent ≡ some f ∷ []) × (t ≡ delayed true))
  sent-Inv selecting t file sent (v, u) = inl u
  sent-Inv draining t file sent (v, u) = inl u
  sent-Inv notified (delayed b) file sent ((f, e), (q, s)) = inr (f, e, rw (← e) s, q)
  sent-Inv notified (initial b) file sent (v, (q, s)) = absurd (ground arith)
  sent-Inv closing (delayed b) file sent ((f, e), (q, s)) = inr (f, e, rw (← e) s, q)
  sent-Inv closing (initial b) file sent (v, (q, s)) = absurd (ground arith)
  sent-Inv exited (delayed b) file sent ((f, e), (q, s)) = inr (f, e, rw (← e) s, q)
  sent-Inv exited (initial b) file sent (v, (q, s)) = absurd (ground arith)

  -- Whatever updates are sent and however the steps of the thread and of its timer are ordered, the
  -- subscribers are told of a file once at most, after a delay that has passed, and then it is the
  -- file that was received last, never a nil pointer.
  pub run-sent :
      (xs : List (Action F))
      → ((run (new_handler {F = F}) xs).sent ≡ [])
        ⊎ ((f : F) × ((run (new_handler {F = F}) xs).file ≡ some f)
            × ((run (new_handler {F = F}) xs).sent ≡ some f ∷ [])
            × ((run (new_handler {F = F}) xs).timer ≡ delayed true))
  unfolding new_handler
  run-sent xs =
      let h = run (new_handler {F = F}) xs in
      sent-Inv h.phase h.timer h.file h.sent (run-Inv (new_handler {F = F}) xs (tt, refl))

  -- An update that is received at once, and the one behind it.
  abbrev pub received : List F → List (Action F)
  received [] = fires ∷ notifies ∷ finishes ∷ finishes ∷ []
  received (f ∷ fs) = send f ∷ receives ∷ received fs

  abbrev pub last : F → List F → F
  last f [] = f
  last f (g ∷ gs) = last g gs

  abbrev waiting_with : F → Handler F
  waiting_with f = record {
    updates = [];
    timer = delayed false;
    file = some f;
    phase = selecting;
    sent = [];
    panicked = false;
  }

  run-received :
      (fs : List F) (f : F)
      → ((run (waiting_with f) (received fs)).sent ≡ some (last f fs) ∷ [])
        × ((run (waiting_with f) (received fs)).phase ≡ exited)
  unfolding run act send_update receive fire notify finish
  run-received [] f = (refl, refl)
  run-received (g ∷ gs) f = run-received gs g

  -- If each of some updates is received at once, and the delay passes only behind the last one, and the
  -- sends to the subscribers are done, then they were told of the last one, and the thread ends.
  pub debounced :
      (f : F) (fs : List F)
      → ((run new_handler (send f ∷ receives ∷ received fs)).sent ≡ some (last f fs) ∷ [])
        × ((run new_handler (send f ∷ receives ∷ received fs)).phase ≡ exited)
  unfolding run act send_update receive new_handler
  debounced f fs = run-received fs f
