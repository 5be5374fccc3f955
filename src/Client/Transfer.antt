-- ===== src/Client/Transfer.antt =====
-- pkg/client/client.go: a file is queued for every server, and the notifications of a job are
-- passed on. A file and a job's server are the numbers of these.
pub mod Routing
pub mod Queueing
pub mod Shutdown
use torrxfer.Base.{
  ℕ, suc, Bool, true, false, ◌&&◌, List, [], ◌∷◌, ◌++◌, Option, none, some, if◌then◌else◌, ltb,
  length,
}
use torrxfer.Client.Connection.{
  ConnectionNotificationType, connected, disconnected, files_updated, completed, query_error,
  transfer_error, fatal_error, ServerNotification,
}

pub record ServerTransferJob : Type 0 where
  pub id : ℕ
  pub server : ℕ
  pub file : ℕ

-- `connections` are the numbers of the servers. `removed` are the files of the calls of
-- `os.Remove`, and `touched` those of `os.Chtimes`, the last one first.
pub record TorrxferClient : Type 0 where
  pub connections : List ℕ
  pub notification_channels : List (List ServerNotification)
  pub job_queue : List ServerTransferJob
  pub delete_on_complete : Bool
  pub removed : List ℕ
  pub touched : List ℕ

-- The capacities of the channels.
abbrev pub queue_capacity : ℕ
queue_capacity = 100

abbrev pub channel_capacity : ℕ
channel_capacity = 500

-- The new subscriber's channel is the last one.
unfoldable pub register_for_connection_notifications : TorrxferClient → TorrxferClient
register_for_connection_notifications c = record c {
  notification_channels = c.notification_channels ++ ([] ∷ []);
}

-- A send waits where the channel is full; the flag is false then.
unfoldable pub enqueue : TorrxferClient → ServerTransferJob → TorrxferClient × Bool
enqueue c job =
    if ltb (length c.job_queue) queue_capacity
    then (record c { job_queue = c.job_queue ++ (job ∷ []) }, true)
    else (c, false)

-- One job for each server; `new_id` is what `uuid.New` gives.
unfoldable pub queue_for : (ℕ → ℕ) → ℕ → TorrxferClient → List ℕ → TorrxferClient × Bool
unfolding enqueue
queue_for new_id file c [] = (c, true)
queue_for new_id file c (server ∷ servers) =
    let (c', sent) = enqueue c (record { id = new_id server; server = server; file = file }) in
    let rest = queue_for new_id file c' servers in if sent then rest else (c', false)

unfoldable pub transfer_to_servers : (ℕ → ℕ) → TorrxferClient → ℕ → TorrxferClient × Bool
unfolding queue_for
transfer_to_servers new_id c file = queue_for new_id file c c.connections

abbrev pub publish :
    ServerNotification → List (List ServerNotification) → List (List ServerNotification) × Bool
publish n [] = ([], true)
publish n (ch ∷ chs) =
    let (chs', sent) = publish n chs in
    if ltb (length ch) channel_capacity then ((ch ++ (n ∷ [])) ∷ chs', sent) else (ch ∷ chs, false)

abbrev publish_to : TorrxferClient → List (List ServerNotification) × Bool → TorrxferClient × Bool
publish_to c (chs, sent) = (record c { notification_channels = chs }, sent)

abbrev pub remove_if : Bool → TorrxferClient → ℕ → TorrxferClient
remove_if false c file = c
remove_if true c file = record c { removed = file ∷ c.removed }

-- The `switch` on the type of a job's notification.
abbrev pub route_kind :
    TorrxferClient
    → ServerTransferJob
    → ServerNotification
    → ConnectionNotificationType
    → TorrxferClient × Bool
route_kind c job n query_error = enqueue c job
route_kind c job n transfer_error = enqueue c job
route_kind c job n completed =
    publish_to (remove_if c.delete_on_complete c n.sent_file) (publish n c.notification_channels)
route_kind c job n connected = publish_to c (publish n c.notification_channels)
route_kind c job n disconnected = publish_to c (publish n c.notification_channels)
route_kind c job n files_updated = publish_to c (publish n c.notification_channels)
route_kind c job n fatal_error = publish_to c (publish n c.notification_channels)

unfoldable pub route :
    TorrxferClient → ServerTransferJob → ServerNotification → TorrxferClient × Bool
unfolding enqueue
route c job n = route_kind c job n n.notification_type

-- The goroutine of a job, until a send waits.
unfoldable pub route_all :
    TorrxferClient → ServerTransferJob → List ServerNotification → TorrxferClient × Bool
unfolding route
route_all c job [] = (c, true)
route_all c job (n ∷ ns) =
    let (c', sent) = route c job n in
    let rest = route_all c' job ns in if sent then rest else (c', false)

-- The subscriber that `Run` starts touches the file of a notification with an error.
unfoldable pub touch_on_error : TorrxferClient → ServerNotification → TorrxferClient
touch_on_error c n = if n.has_error then record c { touched = n.sent_file ∷ c.touched } else c
