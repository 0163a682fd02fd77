-- ===== src/Jobs/Tests.antt =====
-- Runs of internals/jobs on small states.
use gotel_reserves.Base.{
  ◌+◌, ◌*◌, ◌^◌, min, ◌≡◌, refl, true, false, [], ◌∷◌, ◌++◌, exists, arith, ◌/◌, Option, some, none,
  find, inl, inr, ap, nat_eq, string_eq, Option-cases,
}
use gotel_reserves.Backend.Rows.{Job, JobStatus, Payload, second, summarize, transcribe, JobType}
use gotel_reserves.Backend.Exec.{
  Error, ok, err, World, database_failed, now, rate_limited, not_found, raise, raise_if, pure,
  statement, request, ◌>>=◌,
}
use gotel_reserves.Jobs.Queue.{ready, job_beq}
use gotel_reserves.Jobs.Client.{has_job_id, enqueue}
use gotel_reserves.Jobs.Worker.{handle_failure, drain_delayed, HandlerFunc, max_backoff_sec}
use gotel_reserves.Jobs.Enqueue.{IsNew, enqueue_all_or_nothing, enqueue_in_both, enqueue_orphan}
use gotel_reserves.Jobs.Retries.{has_entry, handle_failure_retries}
use gotel_reserves.Jobs.Delayed.{due_jobs, remaining, pushed, drain_delayed-pushed}
use gotel_reserves.Jobs.Rounds.{holding, Fails, SameJob}
use gotel_reserves.Jobs.Exhaustion.{cycles, Waiting, worker_gives_up}
use gotel_reserves.Webhooks.Handler.{has_egress_id}
use gotel_reserves.Transcripts.Spaces.{SpacesConfig, PresignedUrl, presign_get}
use gotel_reserves.Transcripts.Deepgram
use gotel_reserves.Transcripts.Deepgram.{HttpAnswer}
use gotel_reserves.Transcripts.Service as TranscriptService
use gotel_reserves.Samples.{world, empty_db, summarize_job}

abbrev payload : Payload
payload = summarize_job.payload

abbrev start : World
start = world empty_db []

abbrev after_enqueue : World
after_enqueue = (enqueue summarize payload start).1

enqueue_all_or_nothing_example :
    (enqueue summarize payload start ≡ (ok tt, after_enqueue)
      → (job : Job) × IsNew summarize payload job
        × (after_enqueue.db ≡ record empty_db { job_queue = [] ++ job ∷ [] }))
    × ((e : Error)
        → enqueue summarize payload start ≡ (err e, after_enqueue)
        → after_enqueue.db ≡ empty_db)
enqueue_all_or_nothing_example = enqueue_all_or_nothing summarize payload start after_enqueue

enqueue_in_both_example :
    let (r, w') = enqueue summarize payload start in
    (r ≡ ok tt)
    × (job : Job) × IsNew summarize payload job
    × (w'.db.job_queue ≡ [] ++ job ∷ [])
    × (ready summarize w'.redis ≡ job ∷ [])
enqueue_in_both_example = enqueue_in_both summarize payload start refl refl

abbrev bad_commit : World
bad_commit = world empty_db (false ∷ false ∷ false ∷ true ∷ [])

enqueue_orphan_example :
    let (r, w') = enqueue summarize payload bad_commit in
    (r ≡ err database_failed)
    × (w'.db ≡ empty_db)
    × (job : Job) × IsNew summarize payload job
    × (exists (has_job_id job.id) w'.db.job_queue ≡ false)
    × (ready summarize w'.redis ≡ job ∷ [])
enqueue_orphan_example = enqueue_orphan summarize payload bad_commit refl refl

handle_failure_retries_example :
    let w' = (handle_failure summarize_job start).1 in
    (again : Job) × (has_entry (again.next_run_at / second) again w'.redis.delayed ≡ true)
    × (again.id ≡ 7)
    × (again.payload ≡ payload)
    × (again.attempts ≡ 1)
    × (again.next_run_at ≡ w'.clock + min (2 ^ 1 * 2) 512 * second)
    × (w'.redis.dlq ≡ [])
handle_failure_retries_example = handle_failure_retries summarize_job start refl (omega arith)

abbrev tired : Job
tired = record summarize_job { attempts = 4 }

abbrev waiting : World
waiting = record start {
  redis = record start.redis { delayed = (3000, summarize_job) ∷ (9999, tired) ∷ [] };
}

drain_delayed-pushed_example :
    let t = (now waiting).1.clock / second in
    (drain_delayed waiting).1.redis
    ≡ pushed
        (due_jobs t waiting.redis.delayed)
        (record waiting.redis { delayed = remaining t waiting.redis.delayed })
unfolding job_beq
drain_delayed-pushed_example = drain_delayed-pushed waiting refl ((refl, tt), (tt, tt))

one_is_due : due_jobs 3601 waiting.redis.delayed ≡ summarize_job ∷ []
one_is_due = refl

abbrev spaces : SpacesConfig
spaces = record { endpoint = "nyc3.example.com"; bucket = "bucket" }

-- Deepgram answers each request with 429.
abbrev busy : PresignedUrl → Option HttpAnswer
busy url = some (record { status_code = 429; body = none })

abbrev transcriber : HandlerFunc
transcriber = TranscriptService.handle spaces (record { model = "nova-2"; language = "en" }) busy

abbrev transcribe_job : Job
transcribe_job = record summarize_job {
  type = transcribe;
  payload =
      Payload.transcription
        (record { room_livekit_name = "guest-0a"; egress_id = "EG_1"; file_url = "" });
}

transcriber-Fails : Fails transcriber transcribe_job
unfolding TranscriptService.handle TranscriptService.handle_payload
    TranscriptService.fetch_recording presign_get Deepgram.transcribe raise raise_if pure statement
    request now ◌>>=◌
transcriber-Fails x same w f =
    let payload_same = ap (λ (j : Job). j.payload) same in
    elim (Option-cases (find (has_egress_id "EG_1") w.db.recordings)) [
      | inl e ↦ (not_found, record w { faults = [] }, rw (payload_same, f, e) refl, refl, refl)
      | inr (r, e) ↦ (
        rate_limited,
        (now (record w { faults = [] })).1,
        rw (payload_same, f, e) refl,
        refl,
        refl,
      )
    ]

abbrev all_handlers : JobType → Option HandlerFunc
all_handlers type = some transcriber

abbrev one_job : World
one_job = record start { redis = holding transcribe (transcribe_job ∷ []) [] [] [] }

worker_gives_up_example :
    let long = max_backoff_sec * second in
    Waiting transcribe 2 transcribe_job [] [] (cycles all_handlers transcribe long 2 one_job)
    × (last : Job) × SameJob transcribe_job last
    × (last.attempts ≡ 5)
    × (last.status ≡ JobStatus.failed)
    × ((cycles all_handlers transcribe long 5 one_job).redis
        ≡ holding transcribe [] [] [] (last ∷ []))
worker_gives_up_example =
    worker_gives_up all_handlers transcribe transcriber refl 5 2 (max_backoff_sec * second)
      transcribe_job [] [] one_job transcriber-Fails refl refl refl (omega arith) refl (omega arith)
