-- ===== src/Jobs/Rounds.antt =====
-- What the steps of internals/jobs/worker.go make of queues that hold one job.
use gotel_reserves.Base.{
  ℕ, ◌+◌, ◌*◌, ◌/◌, ◌≤◌, ◌<◌, ◌≡◌, refl, ◌∙◌, Option, some, List, [], ◌∷◌, arith, le→leb,
}
use gotel_reserves.Backend.Rows.{Job, JobType, transcribe, summarize, JobStatus, second}
use gotel_reserves.Backend.Exec.{
  Error, Redis, ok, err, World, request, statement, logged, pure, now, ◌>>=◌,
}
use gotel_reserves.Jobs.Queue.{
  push_ready, push_dlq, pop_last, pop_ready, due_delayed, without, by_score, add_delayed,
  remove_delayed,
}
use gotel_reserves.Jobs.Worker.{
  HandlerFunc, max_backoff_sec, backoff_sec, rescheduled, set_status, move_to_dlq, schedule_retry,
  after_failure, handle_failure, move_due, move_all, drain_delayed,
}
use gotel_reserves.Jobs.Delayed.{drain_delayed-pushed}

-- The ready list of a type and that of the other one, the delayed set and the dead-letter list.
abbrev pub holding : JobType → List Job → List Job → List (ℕ × Job) → List Job → Redis
holding transcribe jobs others delayed dead = record {
  ready_transcribe = jobs;
  ready_summarize = others;
  delayed = delayed;
  dlq = dead;
}
holding summarize jobs others delayed dead = record {
  ready_transcribe = others;
  ready_summarize = jobs;
  delayed = delayed;
  dlq = dead;
}

pub pop_ready_run :
    (type : JobType) (job : Job) (others : List Job) (delayed : List (ℕ × Job)) (dead : List Job)
    (w : World)
    → w.faults ≡ []
    → w.redis ≡ holding type (job ∷ []) others delayed dead
    → pop_ready type w
      ≡ (ok (some job), record w { faults = []; redis = holding type [] others delayed dead })
unfolding pop_ready request pop_last
pop_ready_run transcribe job others delayed dead w f r = rw (f, r) refl
pop_ready_run summarize job others delayed dead w f r = rw (f, r) refl

pub set_status_run :
    (id : ℕ) (status : JobStatus) (n : ℕ) (o : Option ℕ) (w : World)
    → w.faults ≡ []
    → let (r, w') = set_status id status n o w in
      (r ≡ ok tt) × (w'.redis ≡ w.redis) × (w'.faults ≡ [])
unfolding set_status statement request logged
set_status_run id status n o w f = ground arith

-- What a job keeps while it is tried.
abbrev pub SameJob : Job → Job → Type 0
SameJob job x =
    x ≡ record job { attempts = x.attempts; status = x.status; next_run_at = x.next_run_at }

-- With no failing request, the handler fails on the job, however often it was tried, and leaves Redis
-- alone.
abbrev pub Fails : HandlerFunc → Job → Type 0
Fails handler job =
    (x : Job)
    → SameJob job x
    → (w : World) → w.faults ≡ []
    → (e : Error) × (w' : World) × (handler x w ≡ (err e, w'))
      × (w'.redis ≡ w.redis)
      × (w'.faults ≡ [])

pub handle_failure_dead :
    (job : Job) (w : World)
    → w.faults ≡ []
    → job.max_retries ≤ job.attempts + 1
    → let w' = (handle_failure job w).1 in
      (w'.redis ≡ record w.redis {
        dlq = record job { attempts = job.attempts + 1; status = JobStatus.failed } ∷ w.redis.dlq;
      })
      × (w'.faults ≡ [])
unfolding handle_failure after_failure move_to_dlq set_status push_dlq statement ◌>>=◌ request
handle_failure_dead job w f h = (ground arith, ground arith)

pub handle_failure_again :
    (job : Job) (w : World)
    → w.faults ≡ []
    → w.redis.delayed ≡ []
    → job.attempts + 1 < job.max_retries
    → let w' = (handle_failure job w).1 in
      let t = (now w).1.clock in
      (w'.redis ≡ record w.redis {
        delayed =
            (
              (t + backoff_sec (job.attempts + 1) * second) / second,
              rescheduled (record job { attempts = job.attempts + 1 }) t,
            )
            ∷ [];
      })
      × (w'.faults ≡ [])
      × (w'.clock ≡ t)
unfolding handle_failure after_failure schedule_retry set_status add_delayed by_score without
    request statement now ◌>>=◌
handle_failure_again job w f d h = (ground arith, ground arith, ground arith)

move_due_faults : (j : Job) (w : World) → w.faults ≡ [] → (move_due j w).1.faults ≡ []
unfolding move_due remove_delayed push_ready logged request ◌>>=◌ pure
move_due_faults j w f = ground arith

move_all_faults : (js : List Job) (w : World) → w.faults ≡ [] → (move_all js w).1.faults ≡ []
unfolding move_all pure move_due logged ◌>>=◌
move_all_faults [] w f = f
move_all_faults (j ∷ js) w f = move_all_faults js (move_due j w).1 (move_due_faults j w f)

pub drain_delayed_faults : (w : World) → w.faults ≡ [] → (drain_delayed w).1.faults ≡ []
unfolding drain_delayed due_delayed request logged now ◌>>=◌
drain_delayed_faults w f = rw f (move_all_faults _ _ refl)

-- A tick of the scheduler with one delayed job whose moment has come, or with none.
pub drain_delayed_one :
    (type : JobType) (s : ℕ) (job : Job) (others : List Job) (dead : List Job) (w : World)
    → w.faults ≡ []
    → job.type ≡ type
    → w.redis ≡ holding type [] others ((s, job) ∷ []) dead
    → s ≤ (now w).1.clock / second
    → (drain_delayed w).1.redis ≡ holding type (job ∷ []) others [] dead
unfolding now
drain_delayed_one transcribe s job others dead w f t r h =
    drain_delayed-pushed w f (rw r (tt, tt)) ∙ (rw (r, le→leb s _ h, t) refl)
drain_delayed_one summarize s job others dead w f t r h =
    drain_delayed-pushed w f (rw r (tt, tt)) ∙ (rw (r, le→leb s _ h, t) refl)

pub drain_delayed_none :
    (type : JobType) (others : List Job) (dead : List Job) (w : World)
    → w.faults ≡ []
    → w.redis ≡ holding type [] others [] dead
    → (drain_delayed w).1.redis ≡ holding type [] others [] dead
drain_delayed_none transcribe others dead w f r = drain_delayed-pushed w f (rw r tt) ∙ (rw r refl)
drain_delayed_none summarize others dead w f r = drain_delayed-pushed w f (rw r tt) ∙ (rw r refl)

pub holding_dead :
    (type : JobType) (job : Job) (others : List Job) (dead : List Job)
    → record (holding type [] others [] dead) { dlq = job ∷ (holding type [] others [] dead).dlq }
      ≡ holding type [] others [] (job ∷ dead)
holding_dead transcribe job others dead = refl
holding_dead summarize job others dead = refl

pub holding_delayed :
    (type : JobType) (l : List (ℕ × Job)) (others : List Job) (dead : List Job)
    → record (holding type [] others [] dead) { delayed = l } ≡ holding type [] others l dead
holding_delayed transcribe l others dead = refl
holding_delayed summarize l others dead = refl

pub none_delayed :
    (type : JobType) (jobs others : List Job) (dead : List Job)
    → (holding type jobs others [] dead).delayed ≡ []
none_delayed transcribe jobs others dead = refl
none_delayed summarize jobs others dead = refl

-- The moment of a retry comes within the longest delay.
pub due_within :
    (n d t t' : ℕ)
    → max_backoff_sec * second ≤ d
    → t + d ≤ t'
    → (t + backoff_sec n * second) / second ≤ t' / second
due_within n d t t' long later = ground arith

pub now_later : (w : World) → w.clock ≤ (now w).1.clock
unfolding now
now_later w = ground arith
