-- ===== src/Transcripts/Keeps.antt =====
-- What the handler of `transcribe` jobs keeps of the tables (internals/transcripts/service.go).
use gotel_reserves.Base.{ℕ, String, refl, Option, none, some, arith}
use gotel_reserves.Backend.Rows.{Db, Job, TranscribePayload, TranscriptRow}
use gotel_reserves.Backend.Exec.{Result, ok, err}
use gotel_reserves.Backend.Preserves.{Preserves, preserves_rules}
use gotel_reserves.Rooms.Methods.{IgnoresRest}
use gotel_reserves.Jobs.Keeps.{enqueue_tx-Preserves}
use gotel_reserves.Transcripts.Spaces.{SpacesConfig, PresignedUrl, presign_get}
use gotel_reserves.Transcripts.Deepgram.{DeepgramConfig, HttpAnswer, ParsedTranscript}
use gotel_reserves.Transcripts.Service.{
  fetch_recording, upsert_found, upsert_transcript, persist_transcript, lift, decode,
  handle_payload, handle_decoded, handle,
}

module _ {I : Db → Type 0} (about : IgnoresRest I) (spaces : SpacesConfig)
    (deepgram : DeepgramConfig) (http : PresignedUrl → Option HttpAnswer) where
  upsert_found_keeps :
      (recording_id : ℕ) (payload : TranscribePayload) (parsed : ParsedTranscript) (t : ℕ) (d : Db)
      (o : Option TranscriptRow)
      → I d
      → I (upsert_found d recording_id payload parsed t o).1
  upsert_found_keeps r p x t d none h = about d _ refl refl (omega arith) h
  upsert_found_keeps r p x t d (some old) h = about d _ refl refl (omega arith) h

  upsert_transcript_keeps :
      (recording_id : ℕ) (payload : TranscribePayload) (parsed : ParsedTranscript) (t : ℕ) (d : Db)
      → I d
      → I (upsert_transcript recording_id payload parsed t d).1
  unfolding upsert_transcript
  upsert_transcript_keeps r p x t d h = upsert_found_keeps r p x t d _ h

  persist_transcript-Preserves :
      (r : ℕ) (tier : String) (payload : TranscribePayload) (parsed : ParsedTranscript)
      → Preserves I (persist_transcript r tier payload parsed)
  unfolding persist_transcript
  persist_transcript-Preserves r tier payload parsed =
      search (preserves_rules, enqueue_tx-Preserves about, upsert_transcript_keeps) depth 8

  fetch_recording-Preserves : (id : String) → Preserves I (fetch_recording id)
  unfolding fetch_recording
  fetch_recording-Preserves id = search preserves_rules

  presign_get-Preserves : (key : String) (hint : ℕ) → Preserves I (presign_get spaces key hint)
  unfolding presign_get
  presign_get-Preserves key hint = search preserves_rules depth 8

  lift-Preserves : (r : Result ParsedTranscript) → Preserves I (lift spaces deepgram http r)
  lift-Preserves (ok p) = search preserves_rules
  lift-Preserves (err e) = search preserves_rules

  handle_payload-Preserves :
      (p : TranscribePayload) → Preserves I (handle_payload spaces deepgram http p)
  unfolding handle_payload
  handle_payload-Preserves p =
      search
        (
          preserves_rules, fetch_recording-Preserves, presign_get-Preserves, lift-Preserves,
          persist_transcript-Preserves,
        )
        depth 10

  handle_decoded-Preserves :
      (o : Option TranscribePayload) → Preserves I (handle_decoded spaces deepgram http o)
  handle_decoded-Preserves none = search preserves_rules
  handle_decoded-Preserves (some p) = handle_payload-Preserves p

  pub handle-Preserves : (job : Job) → Preserves I (handle spaces deepgram http job)
  unfolding handle
  handle-Preserves job = handle_decoded-Preserves (decode job.payload)
