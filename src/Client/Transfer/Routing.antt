-- ===== src/Client/Transfer/Routing.antt =====
-- What becomes of the notifications of a job.
use torrxfer.Base.{
  ℕ, suc, ◌+◌, ◌≤◌, ◌≡◌, ◌≢◌, inl, inr, refl, Bool, true, false, ◌&&◌, List, [], ◌∷◌, ◌++◌, arith,
  if◌then◌else◌, length, length-append, append_assoc, append-nil, replicate, Bool-cases,
}
use torrxfer.Client.Connection.{
  ConnectionNotificationType, connected, disconnected, files_updated, completed, query_error,
  transfer_error, fatal_error, ServerNotification,
}
use torrxfer.Client.Transfer.{
  ServerTransferJob, TorrxferClient, queue_capacity, channel_capacity, enqueue, publish, route_kind,
  route, route_all, publish_to,
}

-- A kind that leads to another try of the job.
abbrev pub is_retry : ConnectionNotificationType → Bool
is_retry query_error = true
is_retry transfer_error = true
is_retry _ = false

abbrev pub is_completed : ConnectionNotificationType → Bool
is_completed completed = true
is_completed _ = false

-- How many of the notifications are of a kind, and those that the subscribers are to see.
abbrev pub count : (ConnectionNotificationType → Bool) → List ServerNotification → ℕ
count p [] = 0
count p (n ∷ ns) = if p n.notification_type then suc (count p ns) else count p ns

abbrev pub passed : List ServerNotification → List ServerNotification
passed [] = []
passed (n ∷ ns) = if is_retry n.notification_type then passed ns else n ∷ passed ns

-- The files of the completed ones, the last one first.
abbrev pub completed_files : List ServerNotification → List ℕ → List ℕ
completed_files [] acc = acc
completed_files (n ∷ ns) acc =
    completed_files ns (if is_completed n.notification_type then n.sent_file ∷ acc else acc)

-- Every channel has room for so many more notifications.
abbrev pub HaveRoom : ℕ → List (List ServerNotification) → Type 0
HaveRoom k [] = Unit
HaveRoom k (ch ∷ chs) = (length ch + k ≤ channel_capacity) × HaveRoom k chs

abbrev pub append_each :
    List ServerNotification → List (List ServerNotification) → List (List ServerNotification)
append_each ns [] = []
append_each ns (ch ∷ chs) = (ch ++ ns) ∷ append_each ns chs

publish-HaveRoom :
    (k : ℕ) (n : ServerNotification) (chs : List (List ServerNotification))
    → HaveRoom (suc k) chs
    → (publish n chs ≡ (append_each (n ∷ []) chs, true)) × HaveRoom k (append_each (n ∷ []) chs)
publish-HaveRoom k n [] r = (refl, tt)
publish-HaveRoom k n (ch ∷ chs) (r, rs) =
    let (e, rest) = publish-HaveRoom k n chs rs in
    (ground arith, (ground (arith, length-append {0} ch (n ∷ [])), rest))

append_each-append_each :
    (n : ServerNotification) (ns : List ServerNotification) (chs : List (List ServerNotification))
    → append_each ns (append_each (n ∷ []) chs) ≡ append_each (n ∷ ns) chs
append_each-append_each n ns [] = refl
append_each-append_each n ns (ch ∷ chs) =
    rw (append_each-append_each n ns chs) (ground (arith, append_assoc ch (n ∷ []) ns))

append_each-nil : (chs : List (List ServerNotification)) → append_each [] chs ≡ chs
append_each-nil [] = refl
append_each-nil (ch ∷ chs) = rw (append_each-nil chs, append-nil ch) refl

-- The client after the notifications of a job, where no send waits.
abbrev pub routed : TorrxferClient → ServerTransferJob → List ServerNotification → TorrxferClient
routed c job ns = record c {
  notification_channels = append_each (passed ns) c.notification_channels;
  job_queue = c.job_queue ++ replicate (count is_retry ns) job;
  removed = if c.delete_on_complete then completed_files ns c.removed else c.removed;
}

-- One notification of a kind.
abbrev step_of :
    TorrxferClient
    → ServerTransferJob
    → ServerNotification
    → ConnectionNotificationType
    → TorrxferClient
step_of c job n kind =
    if is_retry kind then record c { job_queue = c.job_queue ++ (job ∷ []) } else record c {
      notification_channels = append_each (n ∷ []) c.notification_channels;
      removed =
          if c.delete_on_complete && is_completed kind then n.sent_file ∷ c.removed else c.removed;
    }

publish_to-HaveRoom :
    (k : ℕ) (n : ServerNotification) (c : TorrxferClient)
    → HaveRoom (suc k) c.notification_channels
    → publish_to c (publish n c.notification_channels)
      ≡ (record c { notification_channels = append_each (n ∷ []) c.notification_channels }, true)
publish_to-HaveRoom k n c r = rw ((publish-HaveRoom k n c.notification_channels r).0) refl

route_kind-room :
    (k : ℕ) (c : TorrxferClient) (job : ServerTransferJob) (n : ServerNotification)
    (kind : ConnectionNotificationType)
    → HaveRoom (suc k) c.notification_channels
    → length c.job_queue + suc k ≤ queue_capacity
    → route_kind c job n kind ≡ (step_of c job n kind, true)
unfolding enqueue
route_kind-room k c job n query_error r l = ground arith
route_kind-room k c job n transfer_error r l = ground arith
route_kind-room k c job n connected r l = ground (arith, publish_to-HaveRoom k n c r)
route_kind-room k c job n disconnected r l = ground (arith, publish_to-HaveRoom k n c r)
route_kind-room k c job n files_updated r l = ground (arith, publish_to-HaveRoom k n c r)
route_kind-room k c job n fatal_error r l = ground (arith, publish_to-HaveRoom k n c r)
route_kind-room k c job n completed r l = elim (Bool-cases c.delete_on_complete) [
  | inl e ↦ rw e (
      publish_to-HaveRoom k n
        (record c { removed = n.sent_file ∷ c.removed; delete_on_complete = true }) r)
  | inr e ↦ rw e (publish_to-HaveRoom k n (record c { delete_on_complete = false }) r)
]

HaveRoom-less :
    (k : ℕ) (chs : List (List ServerNotification)) → HaveRoom (suc k) chs → HaveRoom k chs
HaveRoom-less k [] r = tt
HaveRoom-less k (ch ∷ chs) (r, rs) = (omega arith, HaveRoom-less k chs rs)

step_of-HaveRoom :
    (k : ℕ) (c : TorrxferClient) (job : ServerTransferJob) (n : ServerNotification)
    (kind : ConnectionNotificationType)
    → HaveRoom (suc k) c.notification_channels
    → length c.job_queue + suc k ≤ queue_capacity
    → HaveRoom k (step_of c job n kind).notification_channels
      × (length (step_of c job n kind).job_queue + k ≤ queue_capacity)
step_of-HaveRoom k c job n kind r l = elim (Bool-cases (is_retry kind)) [
  | inl e ↦ rw e (
    HaveRoom-less k c.notification_channels r,
    ground (arith, length-append {0} c.job_queue (job ∷ [])),
  )
  | inr e ↦ rw e ((publish-HaveRoom k n c.notification_channels r).1, omega arith)
]

not_both : (kind : ConnectionNotificationType) → is_retry kind ≡ true → is_completed kind ≢ true
not_both completed e = ground arith
not_both query_error e = ground arith
not_both transfer_error e = ground arith
not_both connected e = ground arith
not_both disconnected e = ground arith
not_both files_updated e = ground arith
not_both fatal_error e = ground arith

routed-step_of :
    (c : TorrxferClient) (job : ServerTransferJob) (n : ServerNotification)
    (ns : List ServerNotification)
    → routed (step_of c job n n.notification_type) job ns ≡ routed c job (n ∷ ns)
routed-step_of c job n ns =
    let each = append_each-append_each n (passed ns) c.notification_channels in
    elim (Bool-cases (is_retry n.notification_type)) [
      | inl e ↦ elim (Bool-cases (is_completed n.notification_type)) [
        | inl k ↦ absurd (not_both n.notification_type e k)
        | inr k ↦
            rw (e, k, append_assoc c.job_queue (job ∷ []) (replicate (count is_retry ns) job)) refl
      ]
      | inr e ↦ elim (Bool-cases c.delete_on_complete) [
        | inl d ↦ rw (e, d, each) refl
        | inr d ↦ rw (e, d, each) refl
      ]
    ]

route_all-room :
    (ns : List ServerNotification) (c : TorrxferClient) (job : ServerTransferJob)
    → HaveRoom (length ns) c.notification_channels
    → length c.job_queue + length ns ≤ queue_capacity
    → route_all c job ns ≡ (routed c job ns, true)
unfolding route_all route
route_all-room [] c job r l =
    rw (append_each-nil c.notification_channels, append-nil c.job_queue)
      (elim (Bool-cases c.delete_on_complete) [ inl d ↦ rw d refl | inr d ↦ rw d refl ])
route_all-room (n ∷ ns) c job r l =
    let (r', l') = step_of-HaveRoom (length ns) c job n n.notification_type r l in
    rw
      (
        route_kind-room (length ns) c job n n.notification_type r l,
        route_all-room ns (step_of c job n n.notification_type) job r' l',
        routed-step_of c job n ns,
      )
      refl

-- While no channel fills up, what a job notifies is passed on to every subscriber in order, but for
-- query and transfer errors: each of these puts the job into the queue again, and no subscriber
-- sees it. The files of completed jobs are removed exactly if the configuration says so.
pub route_all_lem :
    (ns : List ServerNotification) (c : TorrxferClient) (job : ServerTransferJob)
    → HaveRoom (length ns) c.notification_channels
    → length c.job_queue + length ns ≤ queue_capacity
    → ((route_all c job ns).1 ≡ true)
      × ((route_all c job ns).0.notification_channels
          ≡ append_each (passed ns) c.notification_channels)
      × ((route_all c job ns).0.job_queue ≡ c.job_queue ++ replicate (count is_retry ns) job)
      × ((route_all c job ns).0.removed
          ≡ (if c.delete_on_complete then completed_files ns c.removed else c.removed))
route_all_lem ns c job r l = rw (route_all-room ns c job r l) (refl, refl, refl, refl)
