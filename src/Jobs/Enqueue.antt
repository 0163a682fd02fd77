-- ===== src/Jobs/Enqueue.antt =====
-- What enqueueing a job does to the table and to Redis (internals/jobs/client.go).
use gotel_reserves.Base.{
  ℕ, ◌≡◌, refl, sym, ap, ◌∙◌, true, false, List, [], ◌∷◌, ◌++◌, arith, exists,
}
use gotel_reserves.Backend.Rows.{Job, JobType, Payload, transcribe, summarize, pending}
use gotel_reserves.Backend.Exec.{
  Redis, Error, ok, err, World, database_failed, request, statement, transaction, atomically,
  commit, now, new_uuid, logged, ◌>>=◌,
}
use gotel_reserves.Backend.Transactions.{transaction_err, transaction_ok}
use gotel_reserves.Jobs.Queue.{ready, with_ready, push_ready}
use gotel_reserves.Jobs.Client.{has_job_id, insert_job, new_job, enqueue_tx, enqueue}

-- A job as it is enqueued.
pub record IsNew (type : JobType) (payload : Payload) (job : Job) : Type 0 where
  pub of_type : job.type ≡ type
  pub carries : job.payload ≡ payload
  pub waits : job.status ≡ pending
  pub untried : job.attempts ≡ 0
  pub tries : job.max_retries ≡ 5

new_job-IsNew :
    (id : ℕ) (type : JobType) (payload : Payload) (t u : ℕ)
    → IsNew type payload (new_job id type payload t u)
new_job-IsNew id type payload t u = record {
  of_type = refl;
  carries = refl;
  waits = refl;
  untried = refl;
  tries = refl;
}

module _ (type : JobType) (payload : Payload) where
  -- Where enqueueing within a transaction succeeds, the table has one row more, the new job, and nothing
  -- else of the tables changes.
  pub enqueue_tx_ok :
      (w w' : World)
      → enqueue_tx type payload w ≡ (ok tt, w')
      → (job : Job) × IsNew type payload job
        × (w'.db ≡ record w.db { job_queue = w.db.job_queue ++ job ∷ [] })
  unfolding enqueue_tx insert_job push_ready new_uuid now statement request logged ◌>>=◌
  enqueue_tx_ok w w' h = (
    new_job w.uuids type payload (now w).1.clock (now (now w).1).1.clock,
    new_job-IsNew w.uuids type payload (now w).1.clock (now (now w).1).1.clock,
    ground arith,
  )

  -- Enqueueing adds the new job to the table and changes nothing else of the tables, or it fails and
  -- leaves the tables as they were, whichever statement was lost on the way.
  pub enqueue_all_or_nothing :
      (w w' : World)
      → ((enqueue type payload w ≡ (ok tt, w'))
          → (job : Job) × IsNew type payload job
            × (w'.db ≡ record w.db { job_queue = w.db.job_queue ++ job ∷ [] }))
        × ((e : Error) → enqueue type payload w ≡ (err e, w') → w'.db ≡ w.db)
  unfolding enqueue
  enqueue_all_or_nothing w w' = (
    (λ h.
        let (rest, w₁, run, same, _) = transaction_ok _ w w' tt h in
        let (job, is_new, added) = enqueue_tx_ok (record w { faults = rest }) w₁ run in
        (job, is_new, same ∙ added)),
    (λ e h.
        rw (sym (ap (λ r. r.1.db) h))
          (transaction_err (enqueue_tx type payload) w (ap (λ r. r.0) h))),
  )

  ready-with_ready : (l : List Job) (r : Redis) → ready type (with_ready type l r) ≡ l
  ready-with_ready l r = elim type as (λ type. ready type (with_ready type l r) ≡ l) [
    | transcribe ↦ refl
    | summarize ↦ refl
  ]

  abbrev enqueued : World → Job
  enqueued w = new_job w.uuids type payload (now w).1.clock (now (now w).1).1.clock

  with_pushed :
      (w w' : World)
      → w'.redis ≡ with_ready type (enqueued w ∷ ready type w.redis) w.redis
      → ready type w'.redis ≡ enqueued w ∷ ready type w.redis
  with_pushed w w' h = ap (ready type) h ∙ ready-with_ready _ w.redis

  pushed_alone :
      (w : World)
      → w.faults ≡ []
      → exists (has_job_id w.uuids) w.db.job_queue ≡ false
      → ready type (enqueue type payload w).1.redis ≡ enqueued w ∷ ready type w.redis
  unfolding enqueue enqueue_tx insert_job push_ready new_uuid now statement request logged
      transaction atomically commit ◌>>=◌
  pushed_alone w f h = with_pushed w (enqueue type payload w).1 (ground arith)

  orphan_pushed :
      (w : World)
      → w.faults ≡ false ∷ false ∷ false ∷ true ∷ []
      → exists (has_job_id w.uuids) w.db.job_queue ≡ false
      → ready type (enqueue type payload w).1.redis ≡ enqueued w ∷ ready type w.redis
  unfolding enqueue enqueue_tx insert_job push_ready new_uuid now statement request logged
      transaction atomically commit ◌>>=◌
  orphan_pushed w f h = with_pushed w (enqueue type payload w).1 (ground arith)

  -- Where nothing fails and the identifier is fresh, enqueueing succeeds, and the job is both the last
  -- row of the table and the first element of the ready list of its type.
  pub enqueue_in_both :
      (w : World)
      → w.faults ≡ []
      → exists (has_job_id w.uuids) w.db.job_queue ≡ false
      → let (r, w') = enqueue type payload w in
        (r ≡ ok tt)
        × (job : Job) × IsNew type payload job
        × (w'.db.job_queue ≡ w.db.job_queue ++ job ∷ [])
        × (ready type w'.redis ≡ job ∷ ready type w.redis)
  unfolding enqueue enqueue_tx insert_job push_ready new_uuid now statement request logged
      transaction atomically commit ◌>>=◌
  enqueue_in_both w f h = (
    ground arith,
    new_job w.uuids type payload (now w).1.clock (now (now w).1).1.clock,
    new_job-IsNew w.uuids type payload (now w).1.clock (now (now w).1).1.clock,
    ground arith,
    pushed_alone w f h,
  )

  -- The push comes before the commit: where the commit is lost, a worker finds a job in Redis that the
  -- table does not have.
  pub enqueue_orphan :
      (w : World)
      → w.faults ≡ false ∷ false ∷ false ∷ true ∷ []
      → exists (has_job_id w.uuids) w.db.job_queue ≡ false
      → let (r, w') = enqueue type payload w in
        (r ≡ err database_failed)
        × (w'.db ≡ w.db)
        × (job : Job) × IsNew type payload job
        × (exists (has_job_id job.id) w'.db.job_queue ≡ false)
        × (ready type w'.redis ≡ job ∷ ready type w.redis)
  unfolding enqueue enqueue_tx insert_job push_ready new_uuid now statement request logged
      transaction atomically commit ◌>>=◌
  enqueue_orphan w f h = (
    ground arith,
    ground arith,
    new_job w.uuids type payload (now w).1.clock (now (now w).1).1.clock,
    new_job-IsNew w.uuids type payload (now w).1.clock (now (now w).1).1.clock,
    ground arith,
    orphan_pushed w f h,
  )
