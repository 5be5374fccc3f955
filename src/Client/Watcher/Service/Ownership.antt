-- ===== src/Client/Watcher/Service/Ownership.antt =====
-- The thread of a path has only that path's files.
use mathlib.Core.Path.{subst}
use mathlib.Core.Option.{some-injective}
use torrxfer.Base.{
  ap, eq_bytes_sound, ◌≡◌, inl, inr, refl, Bool, List, [], ◌∷◌, Option, none, some, arith, lookup,
  insert, lookup-insert, eq_bytes, Option-cases, Bool-cases,
}
use torrxfer.Text.{Bytes}
use torrxfer.Platform.{Platform}
use torrxfer.Disk.{Disk}
use torrxfer.Client.File.{File}
use torrxfer.Client.Watcher.{
  Phase, selecting, draining, notified, closing, exited, Handler, send_update, Action, act,
}
use torrxfer.Client.Watcher.Events.{
  ActiveFiles, event_file, handle_file_event, stamped, or_new, unless_exited, sent_to, handle_file,
}
use torrxfer.Client.Watcher.Service.{
  WatcherMessage, event, watcher_closed, watcher_error, event_loop, thread_act, act_at,
}
use torrxfer.Client.Watcher.Contents.{
  IsOwn, Holds, HoldsSome, new_handler-Holds, send_update-Holds, act-Holds,
}

module _ (w : Platform) where
  open w use {Time}

  -- The maps that events and steps of the threads lead to.
  pub data Reach : ActiveFiles w → Type 0 where
    fresh : Reach []
    handled :
        {active active' : ActiveFiles w}
        → Reach active
        → (disk : Disk Time) (root : Option Bytes) (path : Bytes) (cleaned : Option Bytes)
          (now : Time)
        → handle_file_event w disk root active path cleaned now ≡ some active'
        → Reach active'
    acted :
        {active active' : ActiveFiles w}
        → Reach active
        → (path : Bytes) (x : Action (File Time)) → IsOwn x
        → active' ≡ thread_act w active path x
        → Reach active'

  abbrev pub IsOf : Bytes → File Time → Type 0
  IsOf path f = f.path ≡ path

  -- Each thread holds only files of its path.
  abbrev Owned : ActiveFiles w → Type 0
  Owned active =
      (path : Bytes) (h : Handler (File Time)) → lookup path active ≡ some h → Holds (IsOf path) h

  insert-Owned :
      (active : ActiveFiles w) (path : Bytes) (h : Handler (File Time))
      → Owned active
      → Holds (IsOf path) h
      → Owned (insert path h active)
  insert-Owned active path h o v other g e = elim (Bool-cases (eq_bytes path other)) [
    | inl y ↦
        subst (λ q. Holds (IsOf q) g) (eq_bytes_sound path other y)
          (subst (Holds (IsOf path))
            (some-injective h g (ground (arith, lookup-insert path other h active))) v)
    | inr n ↦ o other g (ground (arith, lookup-insert path other h active))
  ]

  or_new-Holds :
      (active : ActiveFiles w) (path : Bytes)
      → Owned active
      → Holds (IsOf path) (or_new w (lookup path active))
  or_new-Holds active path o = of_entry (lookup path active) refl
    where
      of_phase :
          (h : Handler (File Time)) (p : Phase)
          → Holds (IsOf path) h
          → Holds (IsOf path) (unless_exited w h p)
      of_phase h selecting v = v
      of_phase h draining v = v
      of_phase h notified v = v
      of_phase h closing v = v
      of_phase h exited v = new_handler-Holds (IsOf path)

      of_entry :
          (entry : Option (Handler (File Time)))
          → lookup path active ≡ entry
          → Holds (IsOf path) (or_new w entry)
      of_entry none e = new_handler-Holds (IsOf path)
      of_entry (some h) e = of_phase h h.phase (o path h e)

  handle_file-Owned :
      (active active' : ActiveFiles w) (now : Time) (file : Option (File Time))
      → Owned active
      → handle_file w active now file ≡ some active'
      → Owned active'
  handle_file-Owned active active' now none o e = subst Owned (some-injective active active' e) o
  handle_file-Owned active active' now (some f) o e =
      of_sent (send_update (or_new w (lookup f.path active)) (stamped w f now))
        (send_update-Holds (IsOf f.path) (or_new w (lookup f.path active)) (stamped w f now)
          (or_new-Holds active f.path o) refl)
        e
    where
      of_sent :
          (sent : Option (Handler (File Time)))
          → HoldsSome (IsOf f.path) sent
          → sent_to w active f.path sent ≡ some active'
          → Owned active'
      of_sent none v k = absurd (ground arith)
      of_sent (some h) v k =
          subst Owned (some-injective (insert f.path h active) active' k)
            (insert-Owned active f.path h o v)

  thread_act-Owned :
      (active : ActiveFiles w) (path : Bytes) (x : Action (File Time))
      → IsOwn x
      → Owned active
      → Owned (thread_act w active path x)
  unfolding thread_act
  thread_act-Owned active path x own o = of_entry (lookup path active) refl
    where
      of_entry :
          (entry : Option (Handler (File Time)))
          → lookup path active ≡ entry
          → Owned (act_at w active path x entry)
      of_entry none e = o
      of_entry (some h) e =
          insert-Owned active path (act h x) o (act-Holds (IsOf path) h x own (o path h e))

  -- In every state that events and steps of the threads lead to, the thread of a path holds, and has
  -- sent to the subscribers, only files of that path, and has five updates at most in its channel.
  pub Reach-Holds :
      {active : ActiveFiles w}
      → Reach active
      → (path : Bytes) (h : Handler (File Time)) → lookup path active ≡ some h
      → Holds (IsOf path) h
  unfolding lookup
  Reach-Holds fresh path h e = absurd (ground arith)
  Reach-Holds (handled {active} {active'} r disk root changed cleaned now e) path h k =
      handle_file-Owned active active' now (event_file w disk root changed cleaned) (Reach-Holds r)
        (unfold handle_file_event in e) path h k
  Reach-Holds (acted {active} r changed x own e) path h k =
      thread_act-Owned active changed x own (Reach-Holds r) path h (rw e at k)

  same_map :
      {b c : Bool} {active active' : ActiveFiles w}
      → ◌≡◌ {A = Option (ActiveFiles w × Bool)} (some (active, b)) (some (active', c))
      → active ≡ active'
  same_map e = ap (λ p. p.0) (some-injective _ _ e)

  event_loop-Reach :
      (root : Option Bytes) (messages : List (WatcherMessage Time)) (active active' : ActiveFiles w)
      (ended : Bool)
      → Reach active
      → event_loop w root active messages ≡ some (active', ended)
      → Reach active'
  unfolding event_loop
  event_loop-Reach root [] active active' ended r e = subst Reach (same_map e) r
  event_loop-Reach root (watcher_closed ∷ ms) active active' ended r e = subst Reach (same_map e) r
  event_loop-Reach root (watcher_error ∷ ms) active active' ended r e = subst Reach (same_map e) r
  event_loop-Reach root (event disk path cleaned now ∷ ms) active active' ended r e =
      elim (Option-cases (handle_file_event w disk root active path cleaned now)) [
        | inl k ↦ absurd (ground arith)
        | inr (next, k) ↦
            event_loop-Reach root ms next active' ended (handled r disk root path cleaned now k)
              (rw k at e)
      ]
