-- ===== src/Client/Display/Bars.antt =====
-- cmd/client/main.go: the loop over the notifications, with a progress bar for each path. Its log
-- lines are left out.
use torrxfer.Base.{
  ℕ, ◌≡◌, refl, Bool, true, false, ◌&&◌, not, List, [], ◌∷◌, Option, none, some, if◌then◌else◌,
  lookup, insert, lookup-insert, eq_bytes, eq_bytes_sound, ap, Bool-cases, inl, inr, ◌∙◌,
}
use torrxfer.Text.{Bytes}
use torrxfer.Client.Connection.{
  ServerNotification, ServerConnection, ConnectionNotificationType, files_updated,
  get_file_size_on_server,
}

-- The library mpb: a new bar with a total, `SetCurrent` and `IncrInt64`. The numbers are the words
-- of the int64 that the program makes of a uint64.
pub record Progress : Type 1 where
  pub Bar : Type 0
  pub add : ℕ → Bar
  pub set_current : Bar → ℕ → Bar
  pub incr_int64 : Bar → ℕ → Bar

abbrev pub is_files_updated : ConnectionNotificationType → Bool
is_files_updated files_updated = true
is_files_updated _ = false

module _ (p : Progress) (T : Type 0) where
  open p use {Bar, add, set_current, incr_int64}

  -- A notification, and its connection at the time when the loop takes it.
  abbrev pub Taken : Type 0
  Taken = ServerNotification × ServerConnection T

  -- `path` and `size` are those of the numbered files.
  module _ (path : ℕ → Bytes) (size : ℕ → ℕ) where
    -- The first update of a path sets its bar to what the connection has counted by then, and each
    -- later one adds its bytes.
    abbrev pub next_bar : Taken → Option Bar → Bar
    next_bar (n, s) none =
        set_current (add (size n.sent_file)) (get_file_size_on_server s (path n.sent_file))
    next_bar (n, s) (some bar) = incr_int64 bar n.last_sent_size

    unfoldable pub show_notification : Bool → List (Bytes × Bar) → Taken → List (Bytes × Bar)
    show_notification log_to_file bars (n, s) =
        if is_files_updated n.notification_type && not log_to_file
        then insert (path n.sent_file) (next_bar (n, s) (lookup (path n.sent_file) bars)) bars
        else bars

    unfoldable pub show_notifications : Bool → List (Bytes × Bar) → List Taken → List (Bytes × Bar)
    show_notifications log_to_file bars [] = bars
    show_notifications log_to_file bars (x ∷ xs) =
        show_notifications log_to_file (show_notification log_to_file bars x) xs

    -- The updates of one path.
    abbrev pub updates_of : Bytes → List Taken → List Taken
    updates_of q [] = []
    updates_of q ((n, s) ∷ xs) =
        if is_files_updated n.notification_type && eq_bytes (path n.sent_file) q
        then (n, s) ∷ updates_of q xs
        else updates_of q xs

    abbrev pub bar_after : Option Bar → List Taken → Option Bar
    bar_after bar [] = bar
    bar_after bar (x ∷ xs) = bar_after (some (next_bar x bar)) xs

    show_notification-lookup :
        (q : Bytes) (bars : List (Bytes × Bar)) (n : ServerNotification) (s : ServerConnection T)
        (xs : List Taken)
        → bar_after (lookup q (show_notification false bars (n, s))) (updates_of q xs)
          ≡ bar_after (lookup q bars) (updates_of q ((n, s) ∷ xs))
    unfolding show_notification
    show_notification-lookup q bars n s xs =
        elim (Bool-cases (is_files_updated n.notification_type)) [
          | inr e ↦ rw e refl
          | inl e ↦ elim (Bool-cases (eq_bytes (path n.sent_file) q)) [
            | inl k ↦
                rw
                  (
                    e,
                    lookup-insert (path n.sent_file) q
                        (next_bar (n, s) (lookup (path n.sent_file) bars)) bars,
                    k,
                  )
                  (ap (λ r. bar_after (some (next_bar (n, s) (lookup r bars))) (updates_of q xs))
                    (eq_bytes_sound (path n.sent_file) q k))
            | inr k ↦
                rw
                  (
                    e,
                    lookup-insert (path n.sent_file) q
                        (next_bar (n, s) (lookup (path n.sent_file) bars)) bars,
                    k,
                  )
                  refl
          ]
        ]

    show_notifications-lookup :
        (q : Bytes) (bars : List (Bytes × Bar)) (xs : List Taken)
        → lookup q (show_notifications false bars xs) ≡ bar_after (lookup q bars) (updates_of q xs)
    unfolding show_notifications
    show_notifications-lookup q bars [] = refl
    show_notifications-lookup q bars ((n, s) ∷ xs) =
        show_notifications-lookup q (show_notification false bars (n, s)) xs
        ∙ show_notification-lookup q bars n s xs

    show_notifications-nothing :
        (bars : List (Bytes × Bar)) (xs : List Taken) → show_notifications true bars xs ≡ bars
    unfolding show_notifications show_notification
    show_notifications-nothing bars [] = refl
    show_notifications-nothing bars ((n, s) ∷ xs) =
        elim (Bool-cases (is_files_updated n.notification_type)) [
          | inl e ↦ rw e (show_notifications-nothing bars xs)
          | inr e ↦ rw e (show_notifications-nothing bars xs)
        ]

    -- The bar of a path shows only the updates of that path: the first of them sets it to the size
    -- on the server that the connection has counted by the time when that update is taken, and
    -- each later one adds its own bytes. With the progress as log lines there is no bar at all.
    pub show_notifications-bar :
        (q : Bytes) (xs : List Taken)
        → (lookup q (show_notifications false [] xs) ≡ bar_after none (updates_of q xs))
          × (show_notifications true [] xs ≡ [])
    unfolding lookup
    show_notifications-bar q xs =
        (show_notifications-lookup q [] xs, show_notifications-nothing [] xs)
