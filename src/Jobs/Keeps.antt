-- ===== src/Jobs/Keeps.antt =====
-- What the job queue (internals/jobs) keeps of the tables: Redis is apart from them, and of the
-- tables the queue writes only `job_queue`.
use gotel_reserves.Base.{ℕ, ◌≡◌, refl, Option, none, some, List, [], ◌∷◌, Bool, true, false, arith}
use gotel_reserves.Backend.Rows.{Job, JobType, JobStatus, Payload, Db, running}
use gotel_reserves.Backend.Exec.{Result, ok, err, World, redis_failed}
use gotel_reserves.Backend.Preserves.{
  Preserves, Preserves-request, Preserves-statement, Preserves-untouched, Preserves-bind,
  Preserves-logged, preserves_rules,
}
use gotel_reserves.Rooms.Methods.{IgnoresRest}
use gotel_reserves.Jobs.Queue.{
  popped, pop_last, ready, push_ready, push_dlq, pop_ready, add_delayed, due_delayed,
  remove_delayed,
}
use gotel_reserves.Jobs.Client.{insert_job, enqueue_tx}
use gotel_reserves.Jobs.Worker.{
  HandlerFunc, set_status, move_to_dlq, schedule_retry, after_failure, handle_failure, settle,
  run_handler, process_by, process, process_popped, worker_round, push_if, move_due, move_all,
  drain_delayed,
}

popped_db : (type : JobType) (w : World) (o : Option _) → (popped type w o).1.db ≡ w.db
popped_db type w none = refl
popped_db type w (some (job, l)) = refl

module _ {I : Db → Type 0} where
  pub push_ready-Preserves : (type : JobType) (job : Job) → Preserves I (push_ready type job)
  unfolding push_ready
  push_ready-Preserves type job =
      Preserves-request redis_failed _ (Preserves-untouched _ (λ w. refl))

  push_dlq-Preserves : (job : Job) → Preserves I (push_dlq job)
  unfolding push_dlq
  push_dlq-Preserves job = Preserves-request redis_failed _ (Preserves-untouched _ (λ w. refl))

  pop_ready-Preserves : (type : JobType) → Preserves I (pop_ready type)
  unfolding pop_ready
  pop_ready-Preserves type =
      Preserves-request redis_failed _
        (Preserves-untouched _ (λ w. popped_db type w (pop_last (ready type w.redis))))

  add_delayed-Preserves : (score : ℕ) (job : Job) → Preserves I (add_delayed score job)
  unfolding add_delayed
  add_delayed-Preserves score job =
      Preserves-request redis_failed _ (Preserves-untouched _ (λ w. refl))

  due_delayed-Preserves : (t : ℕ) → Preserves I (due_delayed t)
  unfolding due_delayed
  due_delayed-Preserves t = Preserves-request redis_failed _ (Preserves-untouched _ (λ w. refl))

  remove_delayed-Preserves : (job : Job) → Preserves I (remove_delayed job)
  unfolding remove_delayed
  remove_delayed-Preserves job =
      Preserves-request redis_failed _ (Preserves-untouched _ (λ w. refl))

  push_if-Preserves : (b : Bool) (job : Job) → Preserves I (push_if b job)
  push_if-Preserves true job = Preserves-logged _ (push_ready-Preserves job.type job)
  push_if-Preserves false job = search preserves_rules

  move_due-Preserves : (job : Job) → Preserves I (move_due job)
  unfolding move_due
  move_due-Preserves job =
      search (preserves_rules, remove_delayed-Preserves, push_if-Preserves) depth 8

  move_all-Preserves : (jobs : List Job) → Preserves I (move_all jobs)
  unfolding move_all
  move_all-Preserves [] = search preserves_rules
  move_all-Preserves (job ∷ jobs) =
      Preserves-bind _ _ (move_due-Preserves job) (λ _. move_all-Preserves jobs)

  pub drain_delayed-Preserves : Preserves I drain_delayed
  unfolding drain_delayed
  drain_delayed-Preserves =
      search (preserves_rules, due_delayed-Preserves, move_all-Preserves) depth 8

-- A handler keeps the invariant for each job.
abbrev pub HandlerKeeps : (Db → Type 0) → Option HandlerFunc → Type 0
HandlerKeeps I none = Unit
HandlerKeeps I (some h) = (job : Job) → Preserves I (h job)

module _ {I : Db → Type 0} (elsewhere : IgnoresRest I) where
  insert_job_keeps : (job : Job) (d : Db) → I d → I (insert_job job d).1
  unfolding insert_job
  insert_job_keeps job d h =
      elsewhere d (insert_job job d).1 (ground arith) (ground arith) (ground arith) h

  pub enqueue_tx-Preserves : (type : JobType) (p : Payload) → Preserves I (enqueue_tx type p)
  unfolding enqueue_tx
  enqueue_tx-Preserves type p =
      search (preserves_rules, push_ready-Preserves, insert_job_keeps) depth 10

  set_status-Preserves :
      (id : ℕ) (s : JobStatus) (n : ℕ) (t : Option ℕ) → Preserves I (set_status id s n t)
  unfolding set_status
  set_status-Preserves id s n t =
      Preserves-logged _ (Preserves-statement _ (λ d h. elsewhere d _ refl refl (omega arith) h))

  move_to_dlq-Preserves : (job : Job) → Preserves I (move_to_dlq job)
  unfolding move_to_dlq
  move_to_dlq-Preserves job =
      search (preserves_rules, push_dlq-Preserves, set_status-Preserves) depth 8

  schedule_retry-Preserves : (job : Job) → Preserves I (schedule_retry job)
  unfolding schedule_retry
  schedule_retry-Preserves job =
      search (preserves_rules, add_delayed-Preserves, set_status-Preserves) depth 8

  handle_failure-Preserves : (job : Job) → Preserves I (handle_failure job)
  unfolding handle_failure after_failure
  handle_failure-Preserves job =
      search (preserves_rules, move_to_dlq-Preserves, schedule_retry-Preserves) depth 8

  settle-Preserves : (job : Job) (r : Result (Unit {0})) → Preserves I (settle job r)
  settle-Preserves job (ok u) = set_status-Preserves job.id _ job.attempts none
  settle-Preserves job (err e) = handle_failure-Preserves job

  module _ (handlers : JobType → Option HandlerFunc)
      (keeps : (type : JobType) → HandlerKeeps I (handlers type)) where
    run_handler-Preserves :
        (h : HandlerFunc) (job : Job) → Preserves I (h job) → Preserves I (run_handler h job)
    unfolding run_handler
    run_handler-Preserves h job k = record {
      after = λ w i. (settle-Preserves job (h job w).0).after (h job w).1 (k.after w i);
    }

    process_by-Preserves :
        (o : Option HandlerFunc) (job : Job) → HandlerKeeps I o → Preserves I (process_by o job)
    unfolding process_by
    process_by-Preserves none job e = search preserves_rules
    process_by-Preserves (some h) job e =
        Preserves-bind _ _ (set_status-Preserves job.id running 0 none)
          (λ _. run_handler-Preserves h job (e job))

    process_popped-Preserves : (o : Option Job) → Preserves I (process_popped handlers o)
    unfolding process
    process_popped-Preserves none = search preserves_rules
    process_popped-Preserves (some job) =
        process_by-Preserves (handlers job.type) job (keeps job.type)

    pub worker_round-Preserves : (type : JobType) → Preserves I (worker_round handlers type)
    unfolding worker_round
    worker_round-Preserves type =
        Preserves-logged _
          (Preserves-bind _ _ (pop_ready-Preserves type) (λ o. process_popped-Preserves o))
