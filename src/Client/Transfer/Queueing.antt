-- ===== src/Client/Transfer/Queueing.antt =====
-- The jobs that a file leads to.
use torrxfer.Base.{
  ℕ, ◌+◌, ◌≤◌, ◌<◌, ◌≡◌, refl, true, List, [], ◌∷◌, ◌++◌, arith, length, length-append,
  append_assoc, append-nil,
}
use torrxfer.Client.Transfer.{
  ServerTransferJob, TorrxferClient, queue_capacity, enqueue, queue_for, transfer_to_servers,
}

-- The jobs of a file, one for each of the servers.
abbrev pub jobs : (ℕ → ℕ) → ℕ → List ℕ → List ServerTransferJob
jobs new_id file [] = []
jobs new_id file (server ∷ servers) =
    record { id = new_id server; server = server; file = file } ∷ jobs new_id file servers

enqueue-room :
    (c : TorrxferClient) (job : ServerTransferJob)
    → length c.job_queue < queue_capacity
    → enqueue c job ≡ (record c { job_queue = c.job_queue ++ (job ∷ []) }, true)
unfolding enqueue
enqueue-room c job l = ground arith

queue_for-jobs :
    (new_id : ℕ → ℕ) (file : ℕ) (servers : List ℕ) (c : TorrxferClient)
    → length c.job_queue + length servers ≤ queue_capacity
    → queue_for new_id file c servers
      ≡ (record c { job_queue = c.job_queue ++ jobs new_id file servers }, true)
unfolding queue_for
queue_for-jobs new_id file [] c l = rw (append-nil c.job_queue) refl
queue_for-jobs new_id file (server ∷ servers) c l =
    let job : ServerTransferJob = record { id = new_id server; server = server; file = file } in
    rw
      (
        enqueue-room c job (omega arith),
        queue_for-jobs new_id file servers (record c { job_queue = c.job_queue ++ (job ∷ []) })
            (ground (arith, length-append {0} c.job_queue (job ∷ []))),
        append_assoc c.job_queue (job ∷ []) (jobs new_id file servers),
      )
      refl

-- A file that is seen while the queue has room is queued once for each of the servers, in their
-- order.
pub transfer_to_servers-jobs :
    (new_id : ℕ → ℕ) (c : TorrxferClient) (file : ℕ)
    → length c.job_queue + length c.connections ≤ queue_capacity
    → transfer_to_servers new_id c file
      ≡ (record c { job_queue = c.job_queue ++ jobs new_id file c.connections }, true)
unfolding transfer_to_servers
transfer_to_servers-jobs new_id c file l = queue_for-jobs new_id file c.connections c l
