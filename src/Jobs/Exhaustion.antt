-- ===== src/Jobs/Exhaustion.antt =====
-- A job that its handler always fails leaves the queues (internals/jobs/worker.go).
use gotel_reserves.Base.{
  ℕ, zero, suc, ◌+◌, ◌*◌, ◌/◌, ◌≤◌, ◌<◌, ◌≡◌, refl, ap, ◌∙◌, Option, some, none, List, [], ◌∷◌,
  arith,
}
use gotel_reserves.Backend.Rows.{Job, JobType, JobStatus, running, second}
use gotel_reserves.Backend.Exec.{Redis, World, logged, now, ◌>>=◌}
use gotel_reserves.Jobs.Worker.{
  HandlerFunc, max_backoff_sec, backoff_sec, rescheduled, set_status, handle_failure, run_handler,
  process_by, process, worker_round, drain_delayed,
}
use gotel_reserves.Jobs.Rounds.{
  holding, SameJob, Fails, pop_ready_run, set_status_run, handle_failure_dead, handle_failure_again,
  drain_delayed_faults, drain_delayed_one, drain_delayed_none, holding_dead, holding_delayed,
  none_delayed, due_within, now_later,
}

-- A worker's round, a wait of `d`, and a tick of the scheduler.
abbrev pub tick_after : ℕ → World → World
tick_after d w = (drain_delayed (record w { clock = w.clock + d })).1

unfoldable pub cycle : (JobType → Option HandlerFunc) → JobType → ℕ → World → World
cycle handlers type d w = tick_after d (worker_round handlers type w).1

unfoldable pub cycles : (JobType → Option HandlerFunc) → JobType → ℕ → ℕ → World → World
cycles handlers type d zero w = w
cycles handlers type d (suc n) w = cycle handlers type d (cycles handlers type d n w)

SameJob-trans : (job x y : Job) → SameJob job x → SameJob x y → SameJob job y
SameJob-trans job x y a b =
    b
    ∙ ap
        (λ (z : Job). record z {
          attempts = y.attempts;
          status = y.status;
          next_run_at = y.next_run_at;
        })
        a

-- What fails for a job fails for it after some tries.
Fails-SameJob :
    (handler : HandlerFunc) (job x : Job) → SameJob job x → Fails handler job → Fails handler x
Fails-SameJob handler job x same fails y next = fails y (SameJob-trans job x y same next)

-- What is held of the job after `k` tries: it is ready for the next one.
abbrev pub Waiting : JobType → ℕ → Job → List Job → List Job → World → Type 0
Waiting type k job others dead w =
    (x : Job) × SameJob job x
    × (x.attempts ≡ job.attempts + k)
    × (w.redis ≡ holding type (x ∷ []) others [] dead)
    × (w.faults ≡ [])

module _ (handlers : JobType → Option HandlerFunc) (type : JobType) (handler : HandlerFunc)
    (registered : handlers type ≡ some handler) where
  process_run :
      (job : Job) (w : World)
      → Fails handler job
      → w.faults ≡ []
      → handlers job.type ≡ some handler
      → (w' : World) × (w'.faults ≡ [])
        × (w'.redis ≡ w.redis)
        × ((process handlers job w).1 ≡ (handle_failure job w').1)
  unfolding process process_by run_handler ◌>>=◌
  process_run job w fails f h =
      let (fine, kept, calm) = set_status_run job.id running 0 none w f in
      let (e, w', result, kept', calm') =
        fails job refl (set_status job.id running 0 none w).1 calm in
      (w', calm', kept' ∙ kept, rw (h, fine, result) refl)

  -- What the round does is what `handle_failure` does.
  failed_round :
      (job : Job) (others : List Job) (dead : List Job) (w : World)
      → Fails handler job
      → w.faults ≡ []
      → job.type ≡ type
      → w.redis ≡ holding type (job ∷ []) others [] dead
      → (w' : World) × (w'.faults ≡ [])
        × (w'.redis ≡ holding type [] others [] dead)
        × ((worker_round handlers type w).1 ≡ (handle_failure job w').1)
  unfolding worker_round logged ◌>>=◌
  failed_round job others dead w fails f t r =
      let w1 = record w { faults = []; redis = holding type [] others [] dead } in
      let (w', calm, kept, run) = process_run job w1 fails refl (ap handlers t ∙ registered) in
      (w', calm, kept, rw (pop_ready_run type job others [] dead w f r) run)

  cycle_dead :
      (d : ℕ) (job : Job) (others : List Job) (dead : List Job) (w : World)
      → Fails handler job
      → w.faults ≡ []
      → job.type ≡ type
      → w.redis ≡ holding type (job ∷ []) others [] dead
      → job.max_retries ≤ job.attempts + 1
      → (cycle handlers type d w).redis
        ≡ holding type [] others []
            (record job { attempts = job.attempts + 1; status = JobStatus.failed } ∷ dead)
  unfolding cycle
  cycle_dead d job others dead w fails f t r h =
      let (w', calm, kept, run) = failed_round job others dead w fails f t r in
      let (buried, calm') = handle_failure_dead job w' calm h in
      let last : Job = record job { attempts = job.attempts + 1; status = JobStatus.failed } in
      let w3 = (handle_failure job w').1 in
      let held =
        buried
        ∙ ap (λ (q : Redis). record q { dlq = last ∷ q.dlq }) kept
        ∙ holding_dead type last others dead in
      rw run (
        drain_delayed_none type others (last ∷ dead) (record w3 { clock = w3.clock + d }) calm'
          held)

  cycle_again :
      (d : ℕ) (job : Job) (others : List Job) (dead : List Job) (w : World)
      → Fails handler job
      → w.faults ≡ []
      → job.type ≡ type
      → w.redis ≡ holding type (job ∷ []) others [] dead
      → max_backoff_sec * second ≤ d
      → job.attempts + 1 < job.max_retries
      → (again : Job) × SameJob job again
        × (again.attempts ≡ job.attempts + 1)
        × ((cycle handlers type d w).redis ≡ holding type (again ∷ []) others [] dead)
        × ((cycle handlers type d w).faults ≡ [])
  unfolding cycle
  cycle_again d job others dead w fails f t r long h =
      let (w', calm, kept, run) = failed_round job others dead w fails f t r in
      let empty : w'.redis.delayed ≡ [] =
        ap (λ (q : Redis). q.delayed) kept ∙ none_delayed type [] others dead in
      let (waits, calm', moment) = handle_failure_again job w' calm empty h in
      let t' = (now w').1.clock in
      let again = rescheduled (record job { attempts = job.attempts + 1 }) t' in
      let score = (t' + backoff_sec (job.attempts + 1) * second) / second in
      let w3 = (handle_failure job w').1 in
      let w4 = record w3 { clock = w3.clock + d } in
      let due =
        due_within (job.attempts + 1) d t' (now w4).1.clock long
          (omega (arith, now_later w4, moment)) in
      let held =
        waits
        ∙ ap (λ (q : Redis). record q { delayed = (score, again) ∷ [] }) kept
        ∙ holding_delayed type ((score, again) ∷ []) others dead in
      (
        again,
        refl,
        refl,
        rw run (drain_delayed_one type score again others dead w4 calm' t held due),
        rw run (drain_delayed_faults w4 calm'),
      )

  cycles-Waiting :
      (k d : ℕ) (job : Job) (others : List Job) (dead : List Job) (w : World)
      → Fails handler job
      → w.faults ≡ []
      → job.type ≡ type
      → w.redis ≡ holding type (job ∷ []) others [] dead
      → max_backoff_sec * second ≤ d
      → job.attempts + k < job.max_retries
      → Waiting type k job others dead (cycles handlers type d k w)
  unfolding cycles
  cycles-Waiting zero d job others dead w fails f t r long h = (job, refl, omega arith, r, f)
  cycles-Waiting (suc k) d job others dead w fails f t r long h =
      let (x, same, count, held, calm) =
        cycles-Waiting k d job others dead w fails f t r long (omega (arith, h)) in
      let (y, same', count', held', calm') =
        cycle_again d x others dead (cycles handlers type d k w)
          (Fails-SameJob handler job x same fails) calm (ap (λ (z : Job). z.type) same ∙ t) held
          long (omega (arith, h, count, ap (λ (z : Job). z.max_retries) same)) in
      (y, SameJob-trans job x y same same', omega (arith, count, count'), held', calm')

  -- Where no request fails, each cycle of a worker's round, a wait of 512 seconds or more and a tick of
  -- the scheduler tries a job that is alone in its queue once, if its handler fails on this job, whatever
  -- its attempts, status and moment are, and leaves Redis alone. After each number `k` of cycles below the number `n` of the tries that are left it is
  -- ready again with `k` attempts more. After `n` cycles it is on the dead-letter list as failed, with all
  -- its attempts counted, and in no queue; the queue of the other type stays as it was.
  pub worker_gives_up :
      (n k d : ℕ) (job : Job) (others : List Job) (dead : List Job) (w : World)
      → Fails handler job
      → w.faults ≡ []
      → job.type ≡ type
      → w.redis ≡ holding type (job ∷ []) others [] dead
      → max_backoff_sec * second ≤ d
      → job.attempts + n ≡ job.max_retries
      → k < n
      → Waiting type k job others dead (cycles handlers type d k w)
        × (last : Job) × SameJob job last
        × (last.attempts ≡ job.max_retries)
        × (last.status ≡ JobStatus.failed)
        × ((cycles handlers type d n w).redis ≡ holding type [] others [] (last ∷ dead))
  unfolding cycles
  worker_gives_up zero k d job others dead w fails f t r long all h =
      let none_left : ⊥ = omega (arith, h) in elim none_left [ ]
  worker_gives_up (suc n) k d job others dead w fails f t r long all h =
      let (x, same, count, held, calm) =
        cycles-Waiting n d job others dead w fails f t r long (omega (arith, all)) in
      let max_same = ap (λ (z : Job). z.max_retries) same in
      let last : Job = record x { attempts = x.attempts + 1; status = JobStatus.failed } in
      (
        cycles-Waiting k d job others dead w fails f t r long (omega (arith, all, h)),
        last,
        SameJob-trans job x last same refl,
        omega (arith, count, all),
        refl,
        cycle_dead d x others dead (cycles handlers type d n w)
            (Fails-SameJob handler job x same fails) calm (ap (λ (z : Job). z.type) same ∙ t) held
            (omega (arith, count, all, max_same)),
      )
