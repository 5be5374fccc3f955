-- ===== src/Client/Watcher/Contents.antt =====
-- What a thread that waits on a file holds and has sent.
use torrxfer.Base.{
  ◌≤◌, ◌≡◌, inl, inr, refl, true, false, List, [], ◌∷◌, All, All-append, Option, none, some, arith,
  ltb, length, length-append, Bool-cases,
}
use torrxfer.Client.Watcher.{
  Timer, initial, delayed, Phase, selecting, draining, notified, closing, exited, Handler,
  new_handler, send_update, fire, receive, notify, finish, Action, send, fires, receives, notifies,
  finishes, act, restart, receive_from, notify_at, finish_at, is_closed,
}

-- A step of the thread or of its timer.
abbrev pub IsOwn : {F : Type 0} → Action F → Type 0
IsOwn (send f) = ⊥
IsOwn _ = Unit

module _ {F : Type 0} (P : F → Type 0) where
  -- A pointer that is nil, or to a file with the property.
  abbrev pub Points : Option F → Type 0
  Points none = Unit
  Points (some f) = P f

  -- Everything that a thread holds or has sent has the property, and its channel is in bounds.
  pub record Holds (h : Handler F) : Type 0 where
    pub updates : All P h.updates
    pub file : Points h.file
    pub sent : All Points h.sent
    pub room : length h.updates ≤ 5

  pub new_handler-Holds : Holds new_handler
  unfolding new_handler
  new_handler-Holds = record { updates = tt; file = tt; sent = tt; room = omega arith }

  abbrev pub HoldsSome : Option (Handler F) → Type 0
  HoldsSome none = Unit
  HoldsSome (some h) = Holds h

  pub send_update-Holds : (h : Handler F) (f : F) → Holds h → P f → HoldsSome (send_update h f)
  unfolding send_update
  send_update-Holds h f v p = elim (Bool-cases (is_closed h.phase)) [
    | inl e ↦ rw e (record { updates = v.updates; file = v.file; sent = v.sent; room = v.room })
    | inr e ↦ elim (Bool-cases (ltb (length h.updates) 5)) [
      | inl l ↦
          rw (e, l)
            (record {
              updates = All-append P h.updates (f ∷ []) v.updates (p, tt);
              file = v.file;
              sent = v.sent;
              room = ground (arith, length-append {0} h.updates (f ∷ []));
            })
      | inr l ↦ rw (e, l) tt
    ]
  ]

  receive_from-Holds :
      (h : Handler F) (p : Phase) (fs : List F) (t : Timer)
      → h.updates ≡ fs
      → h.timer ≡ t
      → Holds h
      → Holds (receive_from h p fs)
  receive_from-Holds h selecting [] t e q v = v
  receive_from-Holds h draining fs t e q v = v
  receive_from-Holds h notified fs t e q v = v
  receive_from-Holds h closing fs t e q v = v
  receive_from-Holds h exited fs t e q v = v
  receive_from-Holds h selecting (f ∷ fs) t e q v =
      restart-Holds h.timer (rw e at all).0 (rw e at all).1
    where
      all : All P h.updates
      all = v.updates

      fewer : length fs ≤ 5
      fewer = ground (arith, v.room)

      restart-Holds :
          (t : Timer)
          → P f
          → All P fs
          → Holds (restart (record h { updates = fs; file = some f }) t)
      restart-Holds (initial b) p ps = record {
        updates = ps;
        file = p;
        sent = v.sent;
        room = fewer;
      }
      restart-Holds (delayed false) p ps = record {
        updates = ps;
        file = p;
        sent = v.sent;
        room = fewer;
      }
      restart-Holds (delayed true) p ps = record {
        updates = ps;
        file = p;
        sent = v.sent;
        room = fewer;
      }

  notify_at-Holds : (h : Handler F) (p : Phase) (t : Timer) → Holds h → Holds (notify_at h p t)
  notify_at-Holds h selecting (initial b) v = v
  notify_at-Holds h selecting (delayed false) v = v
  notify_at-Holds h selecting (delayed true) v = record {
    updates = v.updates;
    file = v.file;
    sent = (v.file, v.sent);
    room = v.room;
  }
  notify_at-Holds h draining t v = v
  notify_at-Holds h notified t v = v
  notify_at-Holds h closing t v = v
  notify_at-Holds h exited t v = v

  finish_at-Holds : (h : Handler F) (p : Phase) → Holds h → Holds (finish_at h p)
  finish_at-Holds h selecting v = v
  finish_at-Holds h draining v = v
  finish_at-Holds h notified v = record {
    updates = v.updates;
    file = v.file;
    sent = v.sent;
    room = v.room;
  }
  finish_at-Holds h closing v = record {
    updates = v.updates;
    file = v.file;
    sent = v.sent;
    room = v.room;
  }
  finish_at-Holds h exited v = v

  pub act-Holds : (h : Handler F) (x : Action F) → IsOwn x → Holds h → Holds (act h x)
  unfolding act fire receive notify finish
  act-Holds h (send f) o v = absurd o
  act-Holds h fires o v = record {
    updates = v.updates;
    file = v.file;
    sent = v.sent;
    room = v.room;
  }
  act-Holds h receives o v = receive_from-Holds h h.phase h.updates h.timer refl refl v
  act-Holds h notifies o v = notify_at-Holds h h.phase h.timer v
  act-Holds h finishes o v = finish_at-Holds h h.phase v
