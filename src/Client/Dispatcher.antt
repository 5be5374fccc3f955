-- ===== src/Client/Dispatcher.antt =====
-- pkg/client/clientqueue.go and the loop of pkg/client/worker.go: how jobs come to the workers, as
-- a relation of steps. A worker is the number of its queue, which has no buffer.
pub mod Conservation
pub mod Progress
pub mod Closing
use torrxfer.Base.{ℕ, suc, zero, ◌≡◌, List, [], ◌∷◌, ◌++◌}
use torrxfer.Client.Transfer.{ServerTransferJob}

-- `waiting`: the goroutines that wait for a worker. `offered`: those that have one, and send to it.
-- `idle`: the workers that are about to put their queue into the pool.
pub record Dispatcher : Type 0 where
  pub job_queue : List ServerTransferJob
  pub waiting : List ServerTransferJob
  pub worker_pool : List ℕ
  pub offered : List (ℕ × ServerTransferJob)
  pub running : List (ℕ × ServerTransferJob)
  pub finished : List ServerTransferJob
  pub idle : List ℕ

-- The workers of `run`, numbered from 1.
abbrev pub workers : ℕ → List ℕ
workers zero = []
workers (suc n) = suc n ∷ workers n

-- `NewDispatcher` and `run`.
abbrev pub new_dispatcher : ℕ → Dispatcher
new_dispatcher max_workers = record {
  job_queue = [];
  waiting = [];
  worker_pool = [];
  offered = [];
  running = [];
  finished = [];
  idle = workers max_workers;
}

pub data Step : Dispatcher → Dispatcher → Type 0 where
  -- `for job := range d.jobQueue`
  take_job :
      {d d' : Dispatcher} (j : ServerTransferJob) (js : List ServerTransferJob)
      → d.job_queue ≡ j ∷ js
      → d' ≡ record d { job_queue = js; waiting = d.waiting ++ (j ∷ []) }
      → Step d d'
  -- `workerJobQueue := <-d.workerPool`
  fetch_worker :
      {d d' : Dispatcher} (before after : List ServerTransferJob) (j : ServerTransferJob) (n : ℕ)
      (ns : List ℕ)
      → d.waiting ≡ before ++ j ∷ after
      → d.worker_pool ≡ n ∷ ns
      → d' ≡ record d { waiting = before ++ after; worker_pool = ns; offered = (n, j) ∷ d.offered }
      → Step d d'
  -- `workerJobQueue <- job`
  start_job :
      {d d' : Dispatcher} (before after : List (ℕ × ServerTransferJob)) (n : ℕ)
      (j : ServerTransferJob)
      → d.offered ≡ before ++ (n, j) ∷ after
      → d' ≡ record d { offered = before ++ after; running = (n, j) ∷ d.running }
      → Step d d'
  -- `doFileTransferJob` returns; for a job that waits for ever there is no such step
  finish_job :
      {d d' : Dispatcher} (before after : List (ℕ × ServerTransferJob)) (n : ℕ)
      (j : ServerTransferJob)
      → d.running ≡ before ++ (n, j) ∷ after
      → d' ≡ record d { running = before ++ after; finished = j ∷ d.finished; idle = n ∷ d.idle }
      → Step d d'
  -- `w.workerPool <- w.jobQueue`
  register_worker :
      {d d' : Dispatcher} (before after : List ℕ) (n : ℕ)
      → d.idle ≡ before ++ n ∷ after
      → d' ≡ record d { idle = before ++ after; worker_pool = d.worker_pool ++ (n ∷ []) }
      → Step d d'

-- The states that are reached with the jobs that were queued until then, the last one first.
pub data Reach (max_workers : ℕ) : List ServerTransferJob → Dispatcher → Type 0 where
  fresh : Reach max_workers [] (new_dispatcher max_workers)
  queued :
      {js : List ServerTransferJob} {d d' : Dispatcher} (j : ServerTransferJob)
      → Reach max_workers js d
      → d' ≡ record d { job_queue = d.job_queue ++ (j ∷ []) }
      → Reach max_workers (j ∷ js) d'
  stepped :
      {js : List ServerTransferJob} {d d' : Dispatcher}
      → Reach max_workers js d
      → Step d d'
      → Reach max_workers js d'
