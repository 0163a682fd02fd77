-- ===== src/Jobs/Queue.antt =====
-- internals/jobs/models.go: jobs and the Redis keys that hold them. A job in Redis is its JSON text;
-- two texts are equal where all fields are.
use gotel_reserves.Base.{
  ℕ, ◌≡◌, refl, arith, eq_refl, Bool, true, false, ◌&&◌, Option, none, some, List, [], ◌∷◌, ◌==◌,
  nat_eq, string_eq, if◌then◌else◌, leb, select, map,
}
use gotel_reserves.Backend.Rows.{Job, JobType, JobStatus, Payload, transcribe, summarize}
use gotel_reserves.Backend.Exec.{ok, World, M, Redis, request, redis_failed}

abbrev type_beq : JobType → JobType → Bool
type_beq transcribe transcribe = true
type_beq summarize summarize = true
type_beq _ _ = false

abbrev status_beq : JobStatus → JobStatus → Bool
status_beq JobStatus.pending JobStatus.pending = true
status_beq JobStatus.running JobStatus.running = true
status_beq JobStatus.completed JobStatus.completed = true
status_beq JobStatus.failed JobStatus.failed = true
status_beq _ _ = false

abbrev opt_beq : Option ℕ → Option ℕ → Bool
opt_beq none none = true
opt_beq (some a) (some b) = a == b
opt_beq _ _ = false

payload_beq : Payload → Payload → Bool
payload_beq (Payload.transcription a) (Payload.transcription b) =
    a.room_livekit_name == b.room_livekit_name
    && a.egress_id == b.egress_id
    && a.file_url == b.file_url
payload_beq (Payload.summarization a) (Payload.summarization b) =
    a.room_livekit_name == b.room_livekit_name
    && opt_beq a.transcript_id b.transcript_id
    && a.category == b.category
payload_beq Payload.malformed Payload.malformed = true
payload_beq _ _ = false

unfoldable pub job_beq : Job → Job → Bool
unfolding payload_beq
job_beq a b =
    a.id == b.id
    && type_beq a.type b.type
    && payload_beq a.payload b.payload
    && status_beq a.status b.status
    && a.attempts == b.attempts
    && a.max_retries == b.max_retries
    && a.created_at == b.created_at
    && a.next_run_at == b.next_run_at

nat_beq_refl : (n : ℕ) → (n == n) ≡ true
nat_beq_refl n = ground arith

type_beq_refl : (t : JobType) → type_beq t t ≡ true
type_beq_refl transcribe = refl
type_beq_refl summarize = refl

status_beq_refl : (s : JobStatus) → status_beq s s ≡ true
status_beq_refl JobStatus.pending = refl
status_beq_refl _ = refl

opt_beq_refl : (o : Option ℕ) → opt_beq o o ≡ true
opt_beq_refl none = refl
opt_beq_refl (some n) = nat_beq_refl n

payload_beq_refl : (p : Payload) → payload_beq p p ≡ true
unfolding payload_beq
payload_beq_refl (Payload.transcription a) =
    rw (eq_refl a.room_livekit_name, eq_refl a.egress_id, eq_refl a.file_url)
payload_beq_refl (Payload.summarization a) =
    rw (eq_refl a.room_livekit_name, opt_beq_refl a.transcript_id, eq_refl a.category)
payload_beq_refl Payload.malformed = refl

pub job_beq_refl : (job : Job) → job_beq job job ≡ true
unfolding job_beq
job_beq_refl job =
    simp (
      nat_beq_refl,
      type_beq_refl job.type,
      payload_beq_refl job.payload,
      status_beq_refl job.status,
    )

-- the list at `RedisQueueKey`
abbrev pub ready : JobType → Redis → List Job
ready transcribe r = r.ready_transcribe
ready summarize r = r.ready_summarize

abbrev pub with_ready : JobType → List Job → Redis → Redis
with_ready transcribe l r = record r { ready_transcribe = l }
with_ready summarize l r = record r { ready_summarize = l }

-- LPUSH on the ready list of a type, and on the DLQ
unfoldable pub push_ready : JobType → Job → M (Unit {0})
push_ready type job =
    request redis_failed
      (λ w. (ok tt, record w { redis = with_ready type (job ∷ ready type w.redis) w.redis }))

unfoldable pub push_dlq : Job → M (Unit {0})
push_dlq job =
    request redis_failed
      (λ w. (ok tt, record w { redis = record w.redis { dlq = job ∷ w.redis.dlq } }))

-- Takes the last element off a list.
unfoldable pub pop_last {ℓ} : {A : Type ℓ} → List A → Option (A × List A)
pop_last [] = none
pop_last (x ∷ []) = some (x, [])
pop_last (x ∷ y ∷ l) =
    let rest = pop_last (y ∷ l) in elim rest [ none ↦ none | some (z, k) ↦ some (z, x ∷ k) ]

abbrev pub popped : JobType → World → Option (Job × List Job) → Option Job × World
popped type w none = (none, w)
popped type w (some (job, l)) = (some job, record w { redis = with_ready type l w.redis })

-- BRPOP: the right end; `none` where the list stays empty for the time of the call
unfoldable pub pop_ready : JobType → M (Option Job)
unfolding pop_last
pop_ready type =
    request redis_failed
      (λ w. let (o, w') = popped type w (pop_last (ready type w.redis)) in (ok o, w'))

-- A sorted set keeps its members by score, and each once. Members of equal score stay in the order in
-- which they came; Redis orders them by their text.
unfoldable pub without : Job → List (ℕ × Job) → List (ℕ × Job)
without job [] = []
without job ((s, x) ∷ l) = let rest = without job l in if job_beq x job then l else (s, x) ∷ rest

unfoldable pub by_score : ℕ → Job → List (ℕ × Job) → List (ℕ × Job)
by_score s job [] = (s, job) ∷ []
by_score s job ((t, x) ∷ l) =
    let rest = by_score s job l in if leb t s then (t, x) ∷ rest else (s, job) ∷ (t, x) ∷ l

-- ZADD
unfoldable pub add_delayed : ℕ → Job → M (Unit {0})
unfolding by_score without
add_delayed score job = request redis_failed (λ w. (
  ok tt,
  record w {
    redis = record w.redis { delayed = by_score score job (without job w.redis.delayed) };
  },
))

abbrev pub is_due : ℕ → ℕ × Job → Bool
is_due t (s, job) = leb s t

-- ZRANGEBYSCORE -inf t
unfoldable pub due_delayed : ℕ → M (List Job)
due_delayed t =
    request redis_failed
      (λ w. (ok (map (λ (m : ℕ × Job). m.1) (select (is_due t) w.redis.delayed)), w))

abbrev pub has_member : Job → List (ℕ × Job) → Bool
has_member job [] = false
has_member job ((s, x) ∷ l) = if job_beq x job then true else has_member job l

-- ZREM: whether the member was there
unfoldable pub remove_delayed : Job → M Bool
unfolding without
remove_delayed job = request redis_failed (λ w. (
  ok (has_member job w.redis.delayed),
  record w { redis = record w.redis { delayed = without job w.redis.delayed } },
))
