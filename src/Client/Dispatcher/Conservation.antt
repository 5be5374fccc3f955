-- ===== src/Client/Dispatcher/Conservation.antt =====
-- No job is lost or run twice, and no worker has two jobs.
use torrxfer.Base.{ℕ, ◌+◌, ◌≡◌, refl, Bool, List, [], ◌∷◌, ◌++◌, arith, if◌then◌else◌}
use torrxfer.Client.Transfer.{ServerTransferJob}
use torrxfer.Client.Dispatcher.{
  Dispatcher, workers, Step, take_job, fetch_worker, start_job, finish_job, register_worker, Reach,
  fresh, queued, stepped,
}

-- How many of a list satisfy a test.
abbrev pub occurs : {A : Type 0} → (A → Bool) → List A → ℕ
occurs p [] = 0
occurs p (x ∷ xs) = (if p x then 1 else 0) + occurs p xs

occurs-append :
    {A : Type 0} (p : A → Bool) (xs ys : List A) → occurs p (xs ++ ys) ≡ occurs p xs + occurs p ys
occurs-append p [] ys = omega arith
occurs-append p (x ∷ xs) ys = ground (arith, occurs-append p xs ys)

abbrev pub on_job : (ServerTransferJob → Bool) → ℕ × ServerTransferJob → Bool
on_job p (n, j) = p j

abbrev pub on_worker : (ℕ → Bool) → ℕ × ServerTransferJob → Bool
on_worker p (n, j) = p n

-- The jobs that satisfy a test, and the workers that do, wherever they are.
abbrev pub job_count : (ServerTransferJob → Bool) → Dispatcher → ℕ
job_count p d =
    occurs p d.job_queue
    + occurs p d.waiting
    + occurs (on_job p) d.offered
    + occurs (on_job p) d.running
    + occurs p d.finished

abbrev pub worker_count : (ℕ → Bool) → Dispatcher → ℕ
worker_count p d =
    occurs p d.worker_pool
    + occurs (on_worker p) d.offered
    + occurs (on_worker p) d.running
    + occurs p d.idle

pub Step-job_count :
    (p : ServerTransferJob → Bool) {d d' : Dispatcher} → Step d d' → job_count p d' ≡ job_count p d
Step-job_count p {d} {d'} (take_job j js q e) =
    rw (e, q) (ground (arith, occurs-append p d.waiting (j ∷ [])))
Step-job_count p {d} {d'} (fetch_worker before after j n ns q k e) =
    rw (e, q) (ground (arith, occurs-append p before after, occurs-append p before (j ∷ after)))
Step-job_count p {d} {d'} (start_job before after n j q e) =
    rw (e, q)
      (ground (
        arith,
        occurs-append (on_job p) before after,
        occurs-append (on_job p) before ((n, j) ∷ after),
      ))
Step-job_count p {d} {d'} (finish_job before after n j q e) =
    rw (e, q)
      (ground (
        arith,
        occurs-append (on_job p) before after,
        occurs-append (on_job p) before ((n, j) ∷ after),
      ))
Step-job_count p {d} {d'} (register_worker before after n q e) = rw e refl

pub Step-worker_count :
    (p : ℕ → Bool) {d d' : Dispatcher} → Step d d' → worker_count p d' ≡ worker_count p d
Step-worker_count p {d} {d'} (take_job j js q e) = rw e refl
Step-worker_count p {d} {d'} (fetch_worker before after j n ns q k e) = rw (e, k) (omega arith)
Step-worker_count p {d} {d'} (start_job before after n j q e) =
    rw (e, q)
      (ground (
        arith,
        occurs-append (on_worker p) before after,
        occurs-append (on_worker p) before ((n, j) ∷ after),
      ))
Step-worker_count p {d} {d'} (finish_job before after n j q e) =
    rw (e, q)
      (ground (
        arith,
        occurs-append (on_worker p) before after,
        occurs-append (on_worker p) before ((n, j) ∷ after),
      ))
Step-worker_count p {d} {d'} (register_worker before after n q e) =
    rw (e, q)
      (ground (
        arith,
        occurs-append p before after,
        occurs-append p before (n ∷ after),
        occurs-append p d.worker_pool (n ∷ []),
      ))

-- In every state that is reached, the jobs that were queued are exactly those that are still in the
-- queue, wait for a worker, are on their way to one, run, or have run: of the jobs that satisfy any
-- test there are as many there as were queued, so none is lost or run twice.
pub job_count-Reach :
    (p : ServerTransferJob → Bool) {n : ℕ} {js : List ServerTransferJob} {d : Dispatcher}
    → Reach n js d
    → job_count p d ≡ occurs p js
job_count-Reach p fresh = refl
job_count-Reach p (queued {js} {d} j r e) =
    rw e (ground (arith, job_count-Reach p r, occurs-append p d.job_queue (j ∷ [])))
job_count-Reach p (stepped r s) = rw (Step-job_count p s) (job_count-Reach p r)

-- In every state that is reached, the workers that are in the pool, on offer to a job, running a
-- job, or idle are exactly those that were started: of the workers that satisfy any test there are
-- as many there, so none is lost or has two jobs.
pub worker_count-Reach :
    (p : ℕ → Bool) {n : ℕ} {js : List ServerTransferJob} {d : Dispatcher}
    → Reach n js d
    → worker_count p d ≡ occurs p (workers n)
worker_count-Reach p {n} fresh = omega arith
worker_count-Reach p (queued j r e) = rw e (worker_count-Reach p r)
worker_count-Reach p (stepped r s) = rw (Step-worker_count p s) (worker_count-Reach p r)
