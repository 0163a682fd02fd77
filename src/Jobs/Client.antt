-- ===== src/Jobs/Client.antt =====
-- internals/jobs/client.go: enqueueing a job.
use gotel_reserves.Base.{ℕ, Bool, [], ◌∷◌, ◌++◌, ◌==◌, nat_eq, if◌then◌else◌, exists}
use gotel_reserves.Backend.Rows.{Db, Job, JobType, Payload, pending}
use gotel_reserves.Backend.Exec.{
  Result, ok, err, M, database_failed, statement, transaction, logged, now, new_uuid, ◌>>=◌, ◌>>◌,
}
use gotel_reserves.Jobs.Queue.{push_ready}

abbrev pub has_job_id : ℕ → Job → Bool
has_job_id id job = job.id == id

-- INSERT INTO job_queue; the column `id` is the primary key.
unfoldable pub insert_job : Job → Db → Result (Unit {0}) × Db
insert_job job d =
    if exists (has_job_id job.id) d.job_queue
    then (err database_failed, d)
    else (ok tt, record d { job_queue = d.job_queue ++ job ∷ [] })

abbrev pub new_job : ℕ → JobType → Payload → ℕ → ℕ → Job
new_job id type payload created next = record {
  id = id;
  type = type;
  payload = payload;
  status = pending;
  attempts = 0;
  max_retries = 5;
  created_at = created;
  next_run_at = next;
}

-- The push to Redis comes after the INSERT and before the caller's commit; its failure is ignored.
unfoldable pub enqueue_tx : JobType → Payload → M (Unit {0})
enqueue_tx type payload = do
  id ← new_uuid
  created ← now
  next ← now
  statement (insert_job (new_job id type payload created next))
  logged (push_ready type (new_job id type payload created next))

unfoldable pub enqueue : JobType → Payload → M (Unit {0})
enqueue type payload = transaction (enqueue_tx type payload)
