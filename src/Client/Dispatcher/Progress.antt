-- ===== src/Client/Dispatcher/Progress.antt =====
-- The runs of a dispatcher to which no new job comes: their length, and where they can go on.
use torrxfer.Base.{
  ℕ, suc, zero, ◌+◌, ◌*◌, ◌≤◌, ◌≡◌, refl, Bool, true, false, ◌≢◌, List, [], ◌∷◌, arith, inl, inr,
  ◌⊎◌, length, length-append,
}
use torrxfer.Client.Transfer.{ServerTransferJob}
use torrxfer.Client.Dispatcher.{
  Dispatcher, Step, take_job, fetch_worker, start_job, finish_job, register_worker, Reach, stepped,
}
use torrxfer.Client.Dispatcher.Conservation.{occurs, worker_count-Reach, job_count-Reach}

-- How many steps are left: a job in the queue has five more, with its worker's return to the pool.
abbrev pub steps_left : Dispatcher → ℕ
steps_left d =
    5 * length d.job_queue
    + 4 * length d.waiting
    + 3 * length d.offered
    + 2 * length d.running
    + length d.idle

Step-steps_left : {d d' : Dispatcher} → Step d d' → suc (steps_left d') ≡ steps_left d
Step-steps_left {d} {d'} (take_job j js q e) =
    rw (e, q) (ground (arith, length-append {0} d.waiting (j ∷ [])))
Step-steps_left {d} {d'} (fetch_worker before after j n ns q k e) =
    rw (e, q) (ground (arith, length-append {0} before after, length-append {0} before (j ∷ after)))
Step-steps_left {d} {d'} (start_job before after n j q e) =
    rw (e, q)
      (ground (arith, length-append {0} before after, length-append {0} before ((n, j) ∷ after)))
Step-steps_left {d} {d'} (finish_job before after n j q e) =
    rw (e, q)
      (ground (arith, length-append {0} before after, length-append {0} before ((n, j) ∷ after)))
Step-steps_left {d} {d'} (register_worker before after n q e) =
    rw (e, q) (ground (arith, length-append {0} before after, length-append {0} before (n ∷ after)))

-- A run of `n` steps, in which no new job is queued.
pub data Run : ℕ → Dispatcher → Dispatcher → Type 0 where
  stay : {d : Dispatcher} → Run zero d d
  go_on : {n : ℕ} {d d' d'' : Dispatcher} → Step d d' → Run n d' d'' → Run (suc n) d d''

Run-steps_left : {n : ℕ} {d d' : Dispatcher} → Run n d d' → n + steps_left d' ≡ steps_left d
Run-steps_left stay = omega arith
Run-steps_left (go_on s r) = omega (arith, Step-steps_left s, Run-steps_left r)

Run-Reach :
    {m k : ℕ} {js : List ServerTransferJob} {d d' : Dispatcher}
    → Run k d d'
    → Reach m js d
    → Reach m js d'
Run-Reach stay r = r
Run-Reach (go_on s run) r = Run-Reach run (stepped r s)

-- The lists of a dispatcher, one after another, and what can be done where one is not empty.
Stuck : Dispatcher → Type 0
Stuck d =
    (d.job_queue ≡ [])
    × ((d.waiting ≡ []) ⊎ (d.worker_pool ≡ []))
    × (d.offered ≡ [])
    × (d.running ≡ [])
    × (d.idle ≡ [])

-- The step is that a running job returns.
abbrev pub is_return : {d d' : Dispatcher} → Step d d' → Bool
is_return (take_job j js q e) = false
is_return (fetch_worker before after j n ns q k e) = false
is_return (start_job before after n j q e) = false
is_return (finish_job before after n j q e) = true
is_return (register_worker before after n q e) = false

-- A job runs, and may return or not; or a step can be taken for which no job has to return.
abbrev pub MayGoOn : Dispatcher → Type 0
MayGoOn d = (d.running ≢ []) ⊎ ((d' : Dispatcher) × (s : Step d d') × (is_return s ≡ false))

Step-or-Stuck : (d : Dispatcher) → Stuck d ⊎ MayGoOn d
unfolding Stuck
Step-or-Stuck d = of_queue d.job_queue refl
  where
    of_idle :
        (idle : List ℕ)
        → d.idle ≡ idle
        → d.job_queue ≡ []
        → (d.waiting ≡ []) ⊎ (d.worker_pool ≡ [])
        → d.offered ≡ []
        → d.running ≡ []
        → Stuck d ⊎ MayGoOn d
    of_idle [] e q w o r = inl (q, w, o, r, e)
    of_idle (n ∷ ns) e q w o r = inr (inr (_, register_worker [] ns n e refl, refl))

    of_running :
        (running : List (ℕ × ServerTransferJob))
        → d.running ≡ running
        → d.job_queue ≡ []
        → (d.waiting ≡ []) ⊎ (d.worker_pool ≡ [])
        → d.offered ≡ []
        → Stuck d ⊎ MayGoOn d
    of_running [] e q w o = of_idle d.idle refl q w o e
    of_running ((n, j) ∷ rs) e q w o = inr (inl (λ none. ground (arith, e, none)))

    of_offered :
        (offered : List (ℕ × ServerTransferJob))
        → d.offered ≡ offered
        → d.job_queue ≡ []
        → (d.waiting ≡ []) ⊎ (d.worker_pool ≡ [])
        → Stuck d ⊎ MayGoOn d
    of_offered [] e q w = of_running d.running refl q w e
    of_offered ((n, j) ∷ os) e q w = inr (inr (_, start_job [] os n j e refl, refl))

    of_waiting :
        (waiting : List ServerTransferJob) (pool : List ℕ)
        → d.waiting ≡ waiting
        → d.worker_pool ≡ pool
        → d.job_queue ≡ []
        → Stuck d ⊎ MayGoOn d
    of_waiting [] pool e k q = of_offered d.offered refl q (inl e)
    of_waiting (j ∷ js) [] e k q = of_offered d.offered refl q (inr k)
    of_waiting (j ∷ js) (n ∷ ns) e k q = inr (inr (_, fetch_worker [] js j n ns e k refl, refl))

    of_queue : (js : List ServerTransferJob) → d.job_queue ≡ js → Stuck d ⊎ MayGoOn d
    of_queue [] e = of_waiting d.waiting d.worker_pool refl refl e
    of_queue (j ∷ js) e = inr (inr (_, take_job j js e refl, refl))

-- With one worker at least, a dispatcher that is stuck has run every job.
Stuck-occurs :
    {m : ℕ} {js : List ServerTransferJob} {d : Dispatcher}
    → Reach (suc m) js d
    → Stuck d
    → (p : ServerTransferJob → Bool) → occurs p d.finished ≡ occurs p js
unfolding Stuck
Stuck-occurs r (q, inl w, o, n, i) p = ground (arith, job_count-Reach p r)
Stuck-occurs r (q, inr w, o, n, i) p = absurd (ground (arith, worker_count-Reach (λ _. true) r))

-- From every state that is reached with one worker at least, a run without new jobs has a bounded
-- number of steps, whatever steps it takes. Wherever it stands, every job that was queued has been
-- run, as often as it was queued; or a worker still runs a job, which may never return; or a step
-- can be taken for which no job has to return.
pub dispatched :
    {m k : ℕ} {js : List ServerTransferJob} {d d' : Dispatcher}
    → Reach (suc m) js d
    → Run k d d'
    → (k ≤ steps_left d)
      × (((p : ServerTransferJob → Bool) → occurs p d'.finished ≡ occurs p js) ⊎ MayGoOn d')
dispatched {m} {k} {js} {d} {d'} r run = (
  omega (arith, Run-steps_left run),
  elim (Step-or-Stuck d') [ inl s ↦ inl (Stuck-occurs (Run-Reach run r) s) | inr s ↦ inr s ],
)
