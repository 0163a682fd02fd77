-- ===== src/Transcripts/Storing.antt =====
-- What a `transcribe` job leaves in the tables (internals/transcripts/service.go).
use gotel_reserves.Base.{
  ℕ, String, ◌≡◌, refl, ap, ◌∙◌, Option, none, some, [], ◌∷◌, ◌++◌, string_eq, arith, eq_refl, find,
  find-append, find-update_where,
}
use gotel_reserves.Backend.Rows.{Db, Job, TranscriptRow, TranscribePayload, summarize}
use gotel_reserves.Backend.Exec.{
  Error, Result, ok, err, World, M, pure, raise, raise_if, request, statement, now, ◌>>=◌,
}
use gotel_reserves.Backend.Transactions.{transaction_err, transaction_ok}
use gotel_reserves.Backend.Runs.{bind_ok, bind_err, statement_ok}
use gotel_reserves.Jobs.Client.{enqueue_tx}
use gotel_reserves.Jobs.Enqueue.{IsNew, enqueue_tx_ok}
use gotel_reserves.Transcripts.Spaces.{SpacesConfig, PresignedUrl, presign_get}
use gotel_reserves.Transcripts.Deepgram
use gotel_reserves.Transcripts.Deepgram.{DeepgramConfig, HttpAnswer, ParsedTranscript}
use gotel_reserves.Transcripts.Service.{
  fetch_recording, transcribes, new_transcript, rewrite, upsert_found, upsert_transcript,
  summarize_payload, persist_transcript, lift, decode, handle_payload, handle_decoded, handle,
}

-- The row and the job that the transcript leads to, in the tables `d'` that were `d` before.
pub record Stored (payload : TranscribePayload) (tier text : String) (d d' : Db) : Type 0 where
  pub row : TranscriptRow
  pub found : find (transcribes payload.egress_id) d'.transcripts ≡ some row
  pub holds : row.text ≡ text
  pub job : Job
  pub is_new : IsNew summarize (summarize_payload payload row.id tier) job
  pub queued : d'.job_queue ≡ d.job_queue ++ job ∷ []

module _ (payload : TranscribePayload) (parsed : ParsedTranscript) (recording_id t : ℕ) where
  upsert_found_finds :
      (d : Db) (o : Option TranscriptRow) (id : ℕ)
      → find (transcribes payload.egress_id) d.transcripts ≡ o
      → (upsert_found d recording_id payload parsed t o).0 ≡ ok id
      → let d' = (upsert_found d recording_id payload parsed t o).1 in
        (row : TranscriptRow) × (find (transcribes payload.egress_id) d'.transcripts ≡ some row)
        × (row.text ≡ parsed.text)
        × (row.id ≡ id)
        × (d'.job_queue ≡ d.job_queue)
  upsert_found_finds d none id e h = (
    new_transcript d recording_id payload parsed t,
    find-append (transcribes payload.egress_id) d.transcripts _ e
        ∙ rw (eq_refl payload.egress_id) refl,
    refl,
    ground arith,
    refl,
  )
  upsert_found_finds d (some old) id e h = (
    rewrite parsed.text old,
    find-update_where (transcribes payload.egress_id) (rewrite parsed.text) (λ x k. k) d.transcripts
        old e,
    refl,
    ground arith,
    refl,
  )

module _ (payload : TranscribePayload) (parsed : ParsedTranscript) (recording_id : ℕ)
    (tier : String) where
  upsert_then_enqueue :
      (t : ℕ) (w w' : World)
      → (do
        id ← statement (upsert_transcript recording_id payload parsed t)
        enqueue_tx summarize (summarize_payload payload id tier))
          w
        ≡ (ok tt, w')
      → Stored payload tier parsed.text w.db w'.db
  unfolding upsert_transcript
  upsert_then_enqueue t w w' h =
      let (id, w₁, stored, run) = bind_ok _ _ w w' tt h in
      let (gave, left) = statement_ok _ w w₁ id stored in
      let (row, found, holds, numbered, others) =
        upsert_found_finds payload parsed recording_id t w.db _ id refl gave in
      let (job, is_new, added) =
        enqueue_tx_ok summarize (summarize_payload payload id tier) w₁ w' run in
      record {
        row = row;
        found =
            ap (λ d. find (transcribes payload.egress_id) d.transcripts) added
            ∙ ap (λ d. find (transcribes payload.egress_id) d.transcripts) left
            ∙ found;
        holds = holds;
        job = job;
        is_new = rw numbered is_new;
        queued =
            ap (λ d. d.job_queue) added
            ∙ ap (λ d. d.job_queue ++ job ∷ []) left
            ∙ ap (λ l. l ++ job ∷ []) others;
      }

  timed :
      (m : ℕ → M (Unit {0})) (w w' : World)
      → (now >>= m) w ≡ (ok tt, w')
      → (t : ℕ) × (w₁ : World) × (w₁.db ≡ w.db) × (m t w₁ ≡ (ok tt, w'))
  unfolding now ◌>>=◌
  timed m w w' h = ((now w).1.clock, (now w).1, refl, h)

  -- Storing a transcript leaves one row for the egress, which holds its text, also where one was there,
  -- and enqueues one new job to summarize that row.
  pub persist_transcript-Stored :
      (w w' : World)
      → persist_transcript recording_id tier payload parsed w ≡ (ok tt, w')
      → Stored payload tier parsed.text w.db w'.db
  unfolding persist_transcript
  persist_transcript-Stored w w' h =
      let (rest, w₂, run, same, _) = transaction_ok _ w w' tt h in
      let (t, w₁, before, run₁) = timed _ (record w { faults = rest }) w₂ run in
      rw same (rw before at (upsert_then_enqueue t w₁ w₂ run₁))

module _ (spaces : SpacesConfig) (deepgram : DeepgramConfig)
    (http : PresignedUrl → Option HttpAnswer) where
  presign_get-untouched :
      (key : String) (hint : ℕ) (w : World) → (presign_get spaces key hint w).1.db ≡ w.db
  unfolding presign_get raise_if pure now ◌>>=◌
  presign_get-untouched key hint w = ground arith

  lift-untouched :
      (r : Result ParsedTranscript) (w : World) → (lift spaces deepgram http r w).1.db ≡ w.db
  unfolding pure raise
  lift-untouched (ok p) w = refl
  lift-untouched (err e) w = refl

  fetch_recording-untouched : (id : String) (w : World) → (fetch_recording id w).1.db ≡ w.db
  unfolding fetch_recording statement request
  fetch_recording-untouched id w = ground arith

  handle_payload_err :
      (payload : TranscribePayload) (w : World) (e : Error)
      → (handle_payload spaces deepgram http payload w).0 ≡ err e
      → (handle_payload spaces deepgram http payload w).1.db ≡ w.db
  unfolding handle_payload persist_transcript
  handle_payload_err payload w e h =
      bind_err _ _ w e (fetch_recording-untouched payload.egress_id w)
        (λ rec w₁ h₁.
          bind_err _ _ w₁ e (presign_get-untouched _ _ w₁)
            (λ url w₂ h₂.
              bind_err _ _ w₂ e (lift-untouched _ w₂) (λ parsed w₃ h₃. transaction_err _ w₃ h₃) h₂)
            h₁)
        h

  handle_decoded_err :
      (o : Option TranscribePayload) (w : World) (e : Error)
      → (handle_decoded spaces deepgram http o w).0 ≡ err e
      → (handle_decoded spaces deepgram http o w).1.db ≡ w.db
  unfolding pure
  handle_decoded_err none w e h = refl
  handle_decoded_err (some payload) w e h = handle_payload_err payload w e h

  -- A `transcribe` job that fails leaves the tables as they were, so that it can be tried again.
  pub handle_undoes :
      (job : Job) (w : World) (e : Error)
      → (handle spaces deepgram http job w).0 ≡ err e
      → (handle spaces deepgram http job w).1.db ≡ w.db
  unfolding handle
  handle_undoes job w e h = handle_decoded_err (decode job.payload) w e h
