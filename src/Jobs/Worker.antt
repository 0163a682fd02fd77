-- ===== src/Jobs/Worker.antt =====
-- internals/jobs/worker.go: the worker pool.
use gotel_reserves.Base.{
  ℕ, ◌+◌, ◌*◌, ◌/◌, ◌^◌, min, Bool, true, false, Option, none, some, List, [], ◌∷◌, nat_eq,
  if◌then◌else◌, leb, update_where,
}
use gotel_reserves.Backend.Rows.{Job, JobType, JobStatus, pending, running, second}
use gotel_reserves.Backend.Exec.{Result, ok, err, M, pure, logged, statement, now, ◌>>=◌, ◌>>◌}
use gotel_reserves.Jobs.Queue.{
  push_ready, push_dlq, pop_ready, add_delayed, due_delayed, remove_delayed,
}
use gotel_reserves.Jobs.Client.{has_job_id}

abbrev pub max_backoff_sec : ℕ
max_backoff_sec = 512

abbrev pub HandlerFunc : Type 0
HandlerFunc = Job → M (Unit {0})

abbrev set_columns : JobStatus → ℕ → Option ℕ → Job → Job
set_columns status attempts none job = record job { status = status; attempts = attempts }
set_columns status attempts (some t) job = record job {
  status = status;
  attempts = attempts;
  next_run_at = t;
}

-- An error is logged. A zero `time.Time` is `none`.
unfoldable pub set_status : ℕ → JobStatus → ℕ → Option ℕ → M (Unit {0})
set_status id status attempts next_run_at = logged (
    statement (λ d. (
      ok tt,
      record d {
        job_queue =
            update_where (has_job_id id) (set_columns status attempts next_run_at) d.job_queue;
      },
    )))

unfoldable pub move_to_dlq : Job → M (Unit {0})
move_to_dlq job = do
  logged (push_dlq (record job { status = JobStatus.failed }))
  set_status job.id JobStatus.failed job.attempts none

-- min(2^attempts * 2, 512), of the attempts counted so far
abbrev pub backoff_sec : ℕ → ℕ
backoff_sec attempts = min (2 ^ attempts * 2) max_backoff_sec

abbrev pub rescheduled : Job → ℕ → Job
rescheduled job t = record job {
  next_run_at = t + backoff_sec job.attempts * second;
  status = pending;
}

-- The score is the moment in whole seconds, `Unix()`.
unfoldable pub schedule_retry : Job → M (Unit {0})
schedule_retry job = do
  t ← now
  logged (add_delayed ((t + backoff_sec job.attempts * second) / second) (rescheduled job t))
  set_status job.id pending job.attempts (some (t + backoff_sec job.attempts * second))

unfoldable pub after_failure : Job → M (Unit {0})
after_failure job = if leb job.max_retries job.attempts then move_to_dlq job else schedule_retry job

unfoldable pub handle_failure : Job → M (Unit {0})
handle_failure job = after_failure (record job { attempts = job.attempts + 1 })

abbrev pub settle : Job → Result (Unit {0}) → M (Unit {0})
settle job (err e) = handle_failure job
settle job (ok u) = set_status job.id JobStatus.completed job.attempts none

unfoldable pub run_handler : HandlerFunc → Job → M (Unit {0})
run_handler handler job w = let (r, w') = handler job w in settle job r w'

unfoldable pub process_by : Option HandlerFunc → Job → M (Unit {0})
process_by none job = pure tt
process_by (some handler) job = do set_status job.id running 0 none; run_handler handler job

-- `handlers` is the map that `Register` fills.
unfoldable pub process : (JobType → Option HandlerFunc) → Job → M (Unit {0})
process handlers job = process_by (handlers job.type) job

abbrev pub process_popped : (JobType → Option HandlerFunc) → Option Job → M (Unit {0})
process_popped handlers none = pure tt
process_popped handlers (some job) = process handlers job

-- One round of a worker's loop; an error of BRPOP only starts the next.
unfoldable pub worker_round : (JobType → Option HandlerFunc) → JobType → M (Unit {0})
worker_round handlers type = logged (do o ← pop_ready type; process_popped handlers o)

abbrev pub push_if : Bool → Job → M (Unit {0})
push_if true job = logged (push_ready job.type job)
push_if false job = pure tt

-- Moves one member to its ready list, unless another instance has taken it.
unfoldable pub move_due : Job → M (Unit {0})
move_due job = logged (do removed ← remove_delayed job; push_if removed job)

unfoldable pub move_all : List Job → M (Unit {0})
move_all [] = pure tt
move_all (job ∷ jobs) = do move_due job; move_all jobs

unfoldable pub drain_delayed : M (Unit {0})
drain_delayed = logged (do t ← now; members ← due_delayed (t / second); move_all members)
