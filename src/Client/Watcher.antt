-- ===== src/Client/Watcher.antt =====
-- pkg/client/filewatcher.go: the thread that waits for a file to be left alone, as a machine of
-- steps with its channel and its timer. `F` is the type of the files.
pub mod Contents
pub mod Debounce
pub mod Stuck
pub mod Events
pub mod Service
pub mod Race
use torrxfer.Base.{
  ℕ, Bool, true, false, List, [], ◌∷◌, ◌++◌, Option, none, some, if◌then◌else◌, ltb, length,
}

-- `initial`: the timer of `NewTimer`, whose channel holds a value once it has fired. `delayed`: one
-- of `AfterFunc`, whose channel is nil; once it has fired, its function waits to send on
-- `waitChannel`. The flag says whether the timer has fired.
pub data Timer : Type 0 where
  initial delayed : Bool → Timer

-- `selecting`: at the `select`. `draining`: at `<-timer.C` with a nil channel. `notified`: behind
-- `notifyFileAvailable`. `closing`: behind `close`. `exited`: the path is deleted from the map.
pub data Phase : Type 0 where
  selecting draining notified closing exited : Phase

pub record Handler (F : Type 0) : Type 0 where
  pub updates : List F
  pub timer : Timer
  pub file : Option F
  pub phase : Phase
  -- What the watcher's subscribers were sent, the last one first; `none` is the nil pointer.
  pub sent : List (Option F)
  -- A send on the closed channel has ended the process.
  pub panicked : Bool

-- The channel has been closed.
abbrev pub is_closed : Phase → Bool
is_closed closing = true
is_closed exited = true
is_closed _ = false

abbrev pub fired : Timer → Timer
fired (initial b) = initial true
fired (delayed b) = delayed true

module _ {F : Type 0} where
  -- The channel is made and the thread started.
  unfoldable pub new_handler : Handler F
  new_handler = record {
    updates = [];
    timer = initial false;
    file = none;
    phase = selecting;
    sent = [];
    panicked = false;
  }

  -- `channel <- file` in `handleFileEvent`: `none` if the send has to wait for room.
  unfoldable pub send_update : Handler F → F → Option (Handler F)
  send_update h f =
      if is_closed h.phase
      then some (record h { panicked = true })
      else if ltb (length h.updates) 5
      then some (record h { updates = h.updates ++ (f ∷ []) })
      else none

  -- The time of the timer has passed.
  unfoldable pub fire : Handler F → Handler F
  fire h = record h { timer = fired h.timer }

  -- `Stop`, the receive from the timer's channel where it returns false, and the new timer.
  abbrev pub restart : Handler F → Timer → Handler F
  restart h (initial b) = record h { timer = delayed false }
  restart h (delayed false) = record h { timer = delayed false }
  restart h (delayed true) = record h { phase = draining }

  abbrev pub receive_from : Handler F → Phase → List F → Handler F
  receive_from h selecting (f ∷ fs) = restart (record h { updates = fs; file = some f }) h.timer
  receive_from h _ _ = h

  -- The first case of the `select`.
  unfoldable pub receive : Handler F → Handler F
  receive h = receive_from h h.phase h.updates

  abbrev pub notify_at : Handler F → Phase → Timer → Handler F
  notify_at h selecting (delayed true) = record h { phase = notified; sent = h.file ∷ h.sent }
  notify_at h _ _ = h

  -- The second case, up to `notifyFileAvailable`. The sends there wait while a subscriber's channel is
  -- full; the step is the one in which the last of them is done.
  unfoldable pub notify : Handler F → Handler F
  notify h = notify_at h h.phase h.timer

  abbrev pub finish_at : Handler F → Phase → Handler F
  finish_at h notified = record h { phase = closing }
  finish_at h closing = record h { phase = exited }
  finish_at h _ = h

  -- The rest of it: `close`, and the deletion from the map.
  unfoldable pub finish : Handler F → Handler F
  finish h = finish_at h h.phase

-- A step of the thread, of its timer, or of a sender that does not wait.
pub data Action (F : Type 0) : Type 0 where
  send : F → Action F
  fires receives notifies finishes : Action F

module _ {F : Type 0} where
  abbrev pub or_same : Handler F → Option (Handler F) → Handler F
  or_same h none = h
  or_same h (some h') = h'

  unfoldable pub act : Handler F → Action F → Handler F
  unfolding send_update
  act h (send f) = or_same h (send_update h f)
  act h fires = fire h
  act h receives = receive h
  act h notifies = notify h
  act h finishes = finish h

  unfoldable pub run : Handler F → List (Action F) → Handler F
  run h [] = h
  run h (x ∷ xs) = run (act h x) xs
