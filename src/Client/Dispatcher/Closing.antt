-- ===== src/Client/Dispatcher/Closing.antt =====
-- pkg/client/clientqueue.go, the end of `dispatch`, and pkg/client/worker.go, the end of `start`: the
-- queue of the jobs is closed, and the queues of the workers in the pool after it.
use torrxfer.Base.{
  ℕ, zero, suc, ap, ◌+◌, ◌≡◌, refl, Bool, true, false, List, [], ◌∷◌, ◌++◌, arith, length, ◌∙◌,
}
use torrxfer.Client.Transfer.{ServerTransferJob}
use torrxfer.Client.Dispatcher.{
  Dispatcher, workers, Step, take_job, fetch_worker, start_job, finish_job, register_worker, Reach,
}
use torrxfer.Client.Dispatcher.Conservation.{
  occurs, on_worker, job_count, worker_count, Step-job_count, Step-worker_count, job_count-Reach,
  worker_count-Reach,
}

-- `gone` are the workers that have returned.
pub record Closing : Type 0 where
  pub dispatcher : Dispatcher
  pub closed : Bool
  pub gone : List ℕ

pub data CloseStep : Closing → Closing → Type 0 where
  works :
      {c c' : Closing} {d : Dispatcher}
      → Step c.dispatcher d
      → c' ≡ record c { dispatcher = d }
      → CloseStep c c'
  -- `close(c.jobQueue)`
  close_queue : {c c' : Closing} → c' ≡ record c { closed = true } → CloseStep c c'
  -- `for worker := range d.workerPool { close(worker) }`, and the worker returns.
  close_worker :
      {c c' : Closing} (n : ℕ) (ns : List ℕ)
      → c.closed ≡ true
      → c.dispatcher.job_queue ≡ []
      → c.dispatcher.worker_pool ≡ n ∷ ns
      → c' ≡ record c { dispatcher = record c.dispatcher { worker_pool = ns }; gone = n ∷ c.gone }
      → CloseStep c c'

-- What steps lead to from a state that was reached before the end.
pub data CloseReach (max_workers : ℕ) (js : List ServerTransferJob) : Closing → Type 0 where
  begins :
      {d : Dispatcher}
      → Reach max_workers js d
      → CloseReach max_workers js (record { dispatcher = d; closed = false; gone = [] })
  goes_on :
      {c c' : Closing} → CloseReach max_workers js c → CloseStep c c' → CloseReach max_workers js c'

pub data CloseRun : Closing → Closing → Type 0 where
  stay : {c : Closing} → CloseRun c c
  go_on : {c c' c'' : Closing} → CloseStep c c' → CloseRun c' c'' → CloseRun c c''

CloseStep-job_count :
    (p : ServerTransferJob → Bool) {c c' : Closing}
    → CloseStep c c'
    → job_count p c'.dispatcher ≡ job_count p c.dispatcher
CloseStep-job_count p (works s e) = rw e (Step-job_count p s)
CloseStep-job_count p (close_queue e) = rw e refl
CloseStep-job_count p (close_worker n ns k q w e) = rw e refl

CloseStep-worker_count :
    (p : ℕ → Bool) {c c' : Closing}
    → CloseStep c c'
    → worker_count p c'.dispatcher + occurs p c'.gone
      ≡ worker_count p c.dispatcher + occurs p c.gone
CloseStep-worker_count p {c} (works s e) = rw (e, Step-worker_count p s) refl
CloseStep-worker_count p {c} (close_queue e) = rw e refl
CloseStep-worker_count p {c} (close_worker n ns k q w e) = rw (e, w) (omega arith)

CloseReach-job_count :
    (p : ServerTransferJob → Bool) {m : ℕ} {js : List ServerTransferJob} {c : Closing}
    → CloseReach m js c
    → job_count p c.dispatcher ≡ occurs p js
CloseReach-job_count p (begins r) = job_count-Reach p r
CloseReach-job_count p (goes_on r s) = CloseStep-job_count p s ∙ CloseReach-job_count p r

CloseReach-worker_count :
    (p : ℕ → Bool) {m : ℕ} {js : List ServerTransferJob} {c : Closing}
    → CloseReach m js c
    → worker_count p c.dispatcher + occurs p c.gone ≡ occurs p (workers m)
CloseReach-worker_count p (begins r) = omega (arith, worker_count-Reach p r)
CloseReach-worker_count p (goes_on r s) = CloseStep-worker_count p s ∙ CloseReach-worker_count p r

occurs-length :
    {A : Type 0} (p : A → Bool) (xs : List A) → ((a : A) → p a ≡ true) → occurs p xs ≡ length xs
occurs-length p [] h = refl
occurs-length p (x ∷ xs) h = rw (h x) (omega (arith, occurs-length p xs h))

length-workers : (m : ℕ) → length (workers m) ≡ m
length-workers zero = refl
length-workers (suc m) = ap suc (length-workers m)

-- No worker is left.
pub record HasNoWorkers (d : Dispatcher) : Type 0 where
  pub worker_pool : d.worker_pool ≡ []
  pub offered : d.offered ≡ []
  pub running : d.running ≡ []
  pub idle : d.idle ≡ []

length-nil : {A : Type 0} (xs : List A) → length xs ≡ 0 → xs ≡ []
length-nil [] h = refl
length-nil (x ∷ xs) h = absurd (omega (arith, h))

append-not-nil : {A : Type 0} (xs ys : List A) (y : A) → xs ++ y ∷ ys ≡ [] → ⊥
append-not-nil [] ys y h = ground arith
append-not-nil (x ∷ xs) ys y h = ground arith

abbrev always : {A : Type 0} → A → Bool
always _ = true

nil_of :
    {A : Type 0} (p : A → Bool) (xs : List A) → ((a : A) → p a ≡ true) → occurs p xs ≡ 0 → xs ≡ []
nil_of p xs h e = length-nil xs (omega (arith, occurs-length p xs h, e))

CloseReach-HasNoWorkers :
    {m : ℕ} {js : List ServerTransferJob} {c : Closing}
    → CloseReach m js c
    → length c.gone ≡ m
    → HasNoWorkers c.dispatcher
CloseReach-HasNoWorkers {m} {js} {c} r g = record {
  worker_pool = nil_of always c.dispatcher.worker_pool (λ _. refl) (omega (arith, none_left));
  offered = nil_of (on_worker always) c.dispatcher.offered (λ _. refl) (omega (arith, none_left));
  running = nil_of (on_worker always) c.dispatcher.running (λ _. refl) (omega (arith, none_left));
  idle = nil_of always c.dispatcher.idle (λ _. refl) (omega (arith, none_left));
}
  where
    none_left : worker_count always c.dispatcher ≡ 0
    none_left = omega (
      arith,
      CloseReach-worker_count always r,
      occurs-length always c.gone (λ _. refl),
      occurs-length always (workers m) (λ _. refl),
      length-workers m,
      g,
    )

Step-finished :
    {d d' : Dispatcher} → HasNoWorkers d → Step d d' → HasNoWorkers d' × (d'.finished ≡ d.finished)
Step-finished {d} {d'} v (take_job j js q e) = rw e (
  record { worker_pool = v.worker_pool; offered = v.offered; running = v.running; idle = v.idle },
  refl,
)
Step-finished {d} {d'} v (fetch_worker before after j n ns q k e) =
    absurd (ground (arith, v.worker_pool))
Step-finished {d} {d'} v (start_job before after n j q e) =
    absurd (append-not-nil before after (n, j) (rw q at v.offered))
Step-finished {d} {d'} v (finish_job before after n j q e) =
    absurd (append-not-nil before after (n, j) (rw q at v.running))
Step-finished {d} {d'} v (register_worker before after n q e) =
    absurd (append-not-nil before after n (rw q at v.idle))

CloseStep-finished :
    {c c' : Closing}
    → HasNoWorkers c.dispatcher
    → CloseStep c c'
    → HasNoWorkers c'.dispatcher × (c'.dispatcher.finished ≡ c.dispatcher.finished)
CloseStep-finished v (works s e) = rw e (Step-finished v s)
CloseStep-finished v (close_queue e) = rw e (v, refl)
CloseStep-finished v (close_worker n ns k q w e) = absurd (ground (arith, v.worker_pool))

CloseRun-finished :
    {c c' : Closing}
    → HasNoWorkers c.dispatcher
    → CloseRun c c'
    → HasNoWorkers c'.dispatcher × (c'.dispatcher.finished ≡ c.dispatcher.finished)
CloseRun-finished v stay = (v, refl)
CloseRun-finished v (go_on s r) =
    let (v1, e1) = CloseStep-finished v s in let (v2, e2) = CloseRun-finished v1 r in (v2, e2 ∙ e1)

CloseRun-CloseReach :
    {m : ℕ} {js : List ServerTransferJob} {c c' : Closing}
    → CloseRun c c'
    → CloseReach m js c
    → CloseReach m js c'
CloseRun-CloseReach stay r = r
CloseRun-CloseReach (go_on s run) r = CloseRun-CloseReach run (goes_on r s)

-- The workers in the pool are closed while goroutines with a job may still wait for one. Once as
-- many workers have returned as there were, no more job is finished, whatever steps are taken: of
-- the jobs that satisfy any test, those that were queued and are not finished stay where no worker
-- will ever take them.
pub jobs_left :
    (p : ServerTransferJob → Bool) {m : ℕ} {js : List ServerTransferJob} {c c' : Closing}
    → CloseReach m js c
    → length c.gone ≡ m
    → CloseRun c c'
    → (c'.dispatcher.finished ≡ c.dispatcher.finished)
      × (occurs p c'.dispatcher.job_queue
            + occurs p c'.dispatcher.waiting
            + occurs p c.dispatcher.finished
          ≡ occurs p js)
jobs_left p {m} {js} {c} {c'} r g run =
    let (v, e) = CloseRun-finished (CloseReach-HasNoWorkers r g) run in
    let total = CloseReach-job_count p (CloseRun-CloseReach run r) in
    (e, omega (arith, rw (v.offered, v.running, e) at total))
