-- ===== src/Jobs/Retries.antt =====
-- What a failing job goes through (`handleFailure` of internals/jobs/worker.go).
use gotel_reserves.Base.{
  ℕ, ◌+◌, ◌*◌, ◌/◌, ◌^◌, ◌<◌, min, ◌≡◌, refl, Bool, true, false, ◌&&◌, ◌==◌, nat_eq, if◌then◌else◌,
  List, [], ◌∷◌, arith, leb-false,
}
use gotel_reserves.Backend.Rows.{Job, second}
use gotel_reserves.Backend.Exec.{World, request, statement, now, ◌>>=◌}
use gotel_reserves.Jobs.Queue.{job_beq, job_beq_refl, without, by_score, add_delayed}
use gotel_reserves.Jobs.Worker.{
  backoff_sec, rescheduled, set_status, schedule_retry, after_failure, handle_failure,
}

-- The sorted set has this member with this score.
abbrev pub has_entry : ℕ → Job → List (ℕ × Job) → Bool
has_entry s job [] = false
has_entry s job ((t, x) ∷ l) = if t == s && job_beq x job then true else has_entry s job l

has_entry-by_score :
    (s : ℕ) (job : Job) (l : List (ℕ × Job)) → has_entry s job (by_score s job l) ≡ true
unfolding by_score
has_entry-by_score s job [] = ground (arith, job_beq_refl job)
has_entry-by_score s job ((t, x) ∷ l) = ground (arith, job_beq_refl job, has_entry-by_score s job l)

schedule_retry_waits :
    (job : Job) (w : World)
    → w.faults ≡ []
    → let w' = (schedule_retry job w).1 in
      (has_entry
          ((rescheduled job w'.clock).next_run_at / second)
          (rescheduled job w'.clock)
          w'.redis.delayed
        ≡ true)
      × (w'.redis.dlq ≡ w.redis.dlq)
unfolding schedule_retry set_status add_delayed request statement now ◌>>=◌
schedule_retry_waits job w f = (
  ground (
    arith,
    has_entry-by_score (((now w).1.clock + backoff_sec job.attempts * second) / second)
        (rescheduled job (now w).1.clock)
        (without (rescheduled job (now w).1.clock) w.redis.delayed),
  ),
  ground arith,
)

after_failure_retries :
    (job : Job) → job.attempts < job.max_retries → after_failure job ≡ schedule_retry job
unfolding after_failure
after_failure_retries job h = rw (leb-false job.max_retries job.attempts h)

-- Where no request fails, a job whose handler fails is tried again while it has tries left: a job of the
-- same identifier and payload waits in the delayed set with one attempt more, due 2 * 2^n seconds later
-- for n attempts, at most 512, with that moment in whole seconds as its score, and the dead-letter list
-- stays.
pub handle_failure_retries :
    (job : Job) (w : World)
    → w.faults ≡ []
    → job.attempts + 1 < job.max_retries
    → let w' = (handle_failure job w).1 in
      (again : Job) × (has_entry (again.next_run_at / second) again w'.redis.delayed ≡ true)
      × (again.id ≡ job.id)
      × (again.payload ≡ job.payload)
      × (again.attempts ≡ job.attempts + 1)
      × (again.next_run_at ≡ w'.clock + min (2 ^ (job.attempts + 1) * 2) 512 * second)
      × (w'.redis.dlq ≡ w.redis.dlq)
unfolding handle_failure
handle_failure_retries job w f h =
    let counted : Job = record job { attempts = job.attempts + 1 } in
    rw (after_failure_retries counted h) (
      rescheduled counted (schedule_retry counted w).1.clock,
      (schedule_retry_waits counted w f).0,
      refl,
      refl,
      refl,
      refl,
      (schedule_retry_waits counted w f).1,
    )
