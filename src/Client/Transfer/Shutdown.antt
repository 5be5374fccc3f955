-- ===== src/Client/Transfer/Shutdown.antt =====
-- pkg/client/client.go: the goroutine of `Run` that ends the client at a signal. It closes the
-- watchers, then the subscribers' channels, then the queue of the jobs; the goroutines of the jobs go on.
use torrxfer.Base.{
  ℕ, zero, suc, ◌+◌, ◌<◌, ◌≤◌, ◌≡◌, refl, Bool, true, false, ltb, arith, length, if◌then◌else◌, inl,
  inr, Bool-cases,
}
use torrxfer.Client.Connection.{
  ConnectionNotificationType, connected, disconnected, files_updated, completed, query_error,
  transfer_error, fatal_error, ServerNotification,
}
use torrxfer.Client.Transfer.{ServerTransferJob, TorrxferClient, enqueue, remove_if, route}

-- How many watchers are open, how many of the subscribers' channels are closed, from the first one on,
-- and whether the queue is closed.
pub record Ending : Type 0 where
  pub client : TorrxferClient
  pub open_watchers : ℕ
  pub closed_channels : ℕ
  pub queue_closed : Bool

-- How a send ends: as long as its channel is open, or by the end of the process.
pub data Sent : Type 0 where
  passes : TorrxferClient × Bool → Sent
  panics : TorrxferClient → Sent

abbrev close_after : Ending → ℕ → Ending
close_after s zero =
    if ltb s.closed_channels (length s.client.notification_channels)
    then record s { closed_channels = suc s.closed_channels }
    else record s { queue_closed = true }
close_after s (suc n) = record s { open_watchers = n }

-- The next `Close` or `close`.
unfoldable pub close_next : Ending → Ending
close_next s = close_after s s.open_watchers

unfoldable pub close_steps : ℕ → Ending → Ending
unfolding close_next
close_steps zero s = s
close_steps (suc n) s = close_steps n (close_next s)

-- `c.jobQueue <- job`
abbrev pub enqueue_at_end : Ending → ServerTransferJob → Sent
enqueue_at_end s job = if s.queue_closed then panics s.client else passes (enqueue s.client job)

-- The sends to the subscribers begin with the first channel.
abbrev pub publish_at_end : Ending → TorrxferClient → TorrxferClient × Bool → Sent
publish_at_end s c sent = if ltb 0 s.closed_channels then panics c else passes sent

abbrev route_at :
    Ending → ServerTransferJob → ServerNotification → ConnectionNotificationType → Sent
route_at s job n query_error = enqueue_at_end s job
route_at s job n transfer_error = enqueue_at_end s job
route_at s job n completed =
    publish_at_end s (remove_if s.client.delete_on_complete s.client n.sent_file)
      (route s.client job n)
route_at s job n connected = publish_at_end s s.client (route s.client job n)
route_at s job n disconnected = publish_at_end s s.client (route s.client job n)
route_at s job n files_updated = publish_at_end s s.client (route s.client job n)
route_at s job n fatal_error = publish_at_end s s.client (route s.client job n)

-- A job's notification during the end of the client.
unfoldable pub route_at_end : Ending → ServerTransferJob → ServerNotification → Sent
route_at_end s job n = route_at s job n n.notification_type

module _ (c : TorrxferClient) where
  abbrev pub ending : ℕ → ℕ → Bool → Ending
  ending watchers channels queue = record {
    client = c;
    open_watchers = watchers;
    closed_channels = channels;
    queue_closed = queue;
  }

  abbrev pub subscribers : ℕ
  subscribers = length c.notification_channels

  close_steps-ending :
      (n watchers channels : ℕ) (queue : Bool)
      → channels ≤ subscribers
      → n + channels ≡ watchers + subscribers + 1
      → close_steps n (ending watchers channels queue) ≡ ending 0 subscribers true
  unfolding close_steps close_next
  close_steps-ending zero watchers channels queue le e = absurd (omega arith)
  close_steps-ending (suc n) (suc watchers) channels queue le e =
      close_steps-ending n watchers channels queue le (omega arith)
  close_steps-ending (suc n) zero channels queue le e =
      elim (Bool-cases (ltb channels subscribers)) [
        | inl l ↦ rw l (close_steps-ending n zero (suc channels) queue (ground arith) (omega arith))
        | inr l ↦ rw l (last (ground arith) (ground arith))
      ]
    where
      last :
          n ≡ 0
          → channels ≡ subscribers
          → close_steps n (ending 0 channels true) ≡ ending 0 subscribers true
      last z k = rw (z, k) refl

  route_at_end-panics :
      (job : ServerTransferJob) (n : ServerNotification)
      → 0 < subscribers
      → (c' : TorrxferClient) × (route_at_end (ending 0 subscribers true) job n ≡ panics c')
  unfolding route_at_end
  route_at_end-panics job n some_there = of_kind n.notification_type
    where
      closed : ltb 0 subscribers ≡ true
      closed = ground arith

      of_kind :
          (kind : ConnectionNotificationType)
          → (c' : TorrxferClient) × (route_at (ending 0 subscribers true) job n kind ≡ panics c')
      of_kind query_error = (c, refl)
      of_kind transfer_error = (c, refl)
      of_kind completed = (remove_if c.delete_on_complete c n.sent_file, rw closed refl)
      of_kind connected = (c, rw closed refl)
      of_kind disconnected = (c, rw closed refl)
      of_kind files_updated = (c, rw closed refl)
      of_kind fatal_error = (c, rw closed refl)

  -- At its end a client has closed everything after one step for each watcher and each subscriber
  -- and one for the queue, and nothing waits for the jobs that run: if there is a subscriber,
  -- whatever such a job notifies then ends the process by a panic, and so does a file that is still
  -- to be queued.
  pub close_steps-panics :
      (watchers : ℕ) (job : ServerTransferJob) (n : ServerNotification)
      → 0 < subscribers
      → (close_steps (watchers + subscribers + 1) (ending watchers 0 false)
          ≡ ending 0 subscribers true)
        × ((c' : TorrxferClient) × (route_at_end
                (close_steps (watchers + subscribers + 1) (ending watchers 0 false))
                job
                n
              ≡ panics c'))
        × (enqueue_at_end (close_steps (watchers + subscribers + 1) (ending watchers 0 false)) job
            ≡ panics c)
  close_steps-panics watchers job n some_there =
      let all =
        close_steps-ending (watchers + subscribers + 1) watchers 0 false (omega arith)
          (omega arith) in
      (all, rw all (route_at_end-panics job n some_there), rw all refl)
