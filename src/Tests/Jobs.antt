-- ===== src/Tests/Jobs.antt =====
-- The dispatcher with two workers and two jobs.
use torrxfer.Base.{◌+◌, true, ℕ, ◌==◌, ◌≡◌, ◌≤◌, ◌⊎◌, refl, Bool, [], ◌∷◌}
use torrxfer.Client.Transfer.{ServerTransferJob}
use torrxfer.Client.Dispatcher.{
  Dispatcher, take_job, fetch_worker, start_job, finish_job, register_worker, Reach, fresh, queued,
  stepped,
}
use torrxfer.Client.Dispatcher.Closing
use torrxfer.Client.Dispatcher.Closing.{
  Closing, CloseReach, CloseRun, begins, goes_on, close_queue, close_worker, jobs_left,
}
use torrxfer.Client.Dispatcher.Progress.{steps_left, MayGoOn, Run, stay, go_on, dispatched}
use torrxfer.Client.Dispatcher.Conservation.{occurs, job_count, job_count-Reach}

abbrev job : ℕ → ServerTransferJob
job n = record { id = n; server = 1; file = 0 }

-- The worker 2 is in the pool, and the first job is on its way to it.
abbrev handed : Dispatcher
handed = record {
  job_queue = job 8 ∷ [];
  waiting = [];
  worker_pool = [];
  offered = (2, job 7) ∷ [];
  running = [];
  finished = [];
  idle = 1 ∷ [];
}

handed-Reach : Reach 2 (job 8 ∷ job 7 ∷ []) handed
handed-Reach =
    stepped
      (stepped
        (stepped (queued (job 8) (queued (job 7) fresh refl) refl)
          (take_job (job 7) (job 8 ∷ []) refl refl))
        (register_worker [] (1 ∷ []) 2 refl refl))
      (fetch_worker [] [] (job 7) 2 [] refl refl refl)

job_count-Reach_example : job_count (λ j. j.id == 7) handed ≡ 1
job_count-Reach_example = job_count-Reach (λ j. j.id == 7) handed-Reach

-- A run of two steps from there: the job starts, and it ends.
abbrev ended : Dispatcher
ended = record handed { offered = []; finished = job 7 ∷ []; idle = 2 ∷ 1 ∷ [] }

ended-Run : Run 2 handed ended
ended-Run =
    go_on (start_job [] [] 2 (job 7) refl refl) (go_on (finish_job [] [] 2 (job 7) refl refl) stay)

dispatched_example :
    (2 ≤ steps_left handed)
    × (((p : ServerTransferJob → Bool) → occurs p ended.finished ≡ occurs p (job 8 ∷ job 7 ∷ []))
        ⊎ MayGoOn ended)
dispatched_example = dispatched handed-Reach ended-Run

-- One worker: its queue is in the pool, and a job waits for it, when the pool is closed.
abbrev waits_for_one : Dispatcher
waits_for_one = record {
  job_queue = [];
  waiting = job 7 ∷ [];
  worker_pool = 1 ∷ [];
  offered = [];
  running = [];
  finished = [];
  idle = [];
}

abbrev closed_out : Closing
closed_out = record {
  dispatcher = record waits_for_one { worker_pool = [] };
  closed = true;
  gone = 1 ∷ [];
}

closed_out-CloseReach : CloseReach 1 (job 7 ∷ []) closed_out
closed_out-CloseReach =
    goes_on
      (goes_on
        (begins {d = waits_for_one} (
          stepped (stepped (queued (job 7) fresh refl) (take_job (job 7) [] refl refl))
            (register_worker [] [] 1 refl refl)))
        (close_queue {c' = record { dispatcher = waits_for_one; closed = true; gone = [] }} refl))
      (close_worker 1 [] refl refl refl refl)

stays : CloseRun closed_out closed_out
stays = Closing.stay

jobs_left_example :
    (closed_out.dispatcher.finished ≡ closed_out.dispatcher.finished)
    × (occurs (λ j. j.id == 7) closed_out.dispatcher.job_queue
          + occurs (λ j. j.id == 7) closed_out.dispatcher.waiting
          + occurs (λ j. j.id == 7) closed_out.dispatcher.finished
        ≡ 1)
jobs_left_example = jobs_left (λ j. j.id == 7) closed_out-CloseReach refl stays
