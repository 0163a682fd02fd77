-- ===== src/Transcripts/Service.antt =====
-- internals/transcripts/service.go: the handler of `transcribe` jobs.
use gotel_reserves.Base.{
  ℕ, ◌+◌, ◌*◌, String, Bool, Option, none, some, [], ◌∷◌, ◌++◌, ◌==◌, string_eq, find, update_where,
}
use gotel_reserves.Backend.Rows.{
  RoomRow, RoomTier, RecordingRow, TranscriptRow, TranscribePayload, Payload, Job, Db, second,
  summarize,
}
use gotel_reserves.Backend.Exec.{
  Result, ok, err, M, pure, raise, statement, transaction, now, not_found, ◌>>=◌,
}
use gotel_reserves.Rooms.Repository.{has_name}
use gotel_reserves.Jobs.Client.{enqueue_tx}
use gotel_reserves.Webhooks.Handler.{has_egress_id}
use gotel_reserves.Transcripts.Spaces.{SpacesConfig, PresignedUrl, presign_get, extract_spaces_key}
use gotel_reserves.Transcripts.Deepgram
use gotel_reserves.Transcripts.Deepgram.{DeepgramConfig, HttpAnswer, ParsedTranscript}

-- json.Unmarshal into a TranscribePayload: a field that the text lacks stays empty.
abbrev pub decode : Payload → Option TranscribePayload
decode (Payload.transcription p) = some p
decode (Payload.summarization p) =
    some (record { room_livekit_name = p.room_livekit_name; egress_id = ""; file_url = "" })
decode Payload.malformed = none

-- `recordingRow`; a NULL reads as the empty text or 0
pub record RecordingInfo : Type 0 where
  pub id : ℕ
  pub file_url : String
  pub duration_sec : ℕ
  pub room_tier : String

abbrev or_empty : Option String → String
or_empty none = ""
or_empty (some s) = s

abbrev or_zero : Option ℕ → ℕ
or_zero none = 0
or_zero (some n) = n

-- the text of the column `tier`, and 'guest' where no room is joined
abbrev pub tier_text : RoomTier → String
tier_text RoomTier.guest = "guest"
tier_text RoomTier.standard = "standard"
tier_text RoomTier.pro = "pro"

abbrev pub joined_tier : Option RoomRow → String
joined_tier none = "guest"
joined_tier (some r) = tier_text r.tier

abbrev pub recording_info : Db → Option RecordingRow → Result RecordingInfo
recording_info d none = err not_found
recording_info d (some r) = ok (record {
  id = r.id;
  file_url = or_empty r.file_url;
  duration_sec = or_zero r.duration_sec;
  room_tier = joined_tier (find (has_name r.room_livekit_name) d.rooms);
})

unfoldable pub fetch_recording : String → M RecordingInfo
fetch_recording egress_id =
    statement (λ d. (recording_info d (find (has_egress_id egress_id) d.recordings), d))

abbrev pub transcribes : String → TranscriptRow → Bool
transcribes egress_id t = t.egress_id == egress_id

abbrev pub new_transcript : Db → ℕ → TranscribePayload → ParsedTranscript → ℕ → TranscriptRow
new_transcript d recording_id payload parsed t = record {
  id = d.next_id;
  room_livekit_name = payload.room_livekit_name;
  recording_id = recording_id;
  egress_id = payload.egress_id;
  text = parsed.text;
  duration_sec = parsed.duration_sec;
  created_at = t;
}

abbrev pub rewrite : String → TranscriptRow → TranscriptRow
rewrite text t = record t { text = text }

-- INSERT INTO transcripts ... ON CONFLICT (egress_id) DO UPDATE SET text RETURNING id
abbrev pub upsert_found :
    Db → ℕ → TranscribePayload → ParsedTranscript → ℕ → Option TranscriptRow → Result ℕ × Db
upsert_found d recording_id payload parsed t none = (
  ok d.next_id,
  record d {
    transcripts = d.transcripts ++ new_transcript d recording_id payload parsed t ∷ [];
    next_id = d.next_id + 1;
  },
)
upsert_found d recording_id payload parsed t (some old) = (
  ok old.id,
  record d {
    transcripts = update_where (transcribes payload.egress_id) (rewrite parsed.text) d.transcripts;
  },
)

unfoldable pub upsert_transcript : ℕ → TranscribePayload → ParsedTranscript → ℕ → Db → Result ℕ × Db
upsert_transcript recording_id payload parsed t d =
    upsert_found d recording_id payload parsed t
      (find (transcribes payload.egress_id) d.transcripts)

abbrev pub summarize_payload : TranscribePayload → ℕ → String → Payload
summarize_payload payload transcript_id room_tier = Payload.summarization (record {
  room_livekit_name = payload.room_livekit_name;
  transcript_id = some transcript_id;
  category = room_tier;
})

unfoldable pub persist_transcript : ℕ → String → TranscribePayload → ParsedTranscript → M (Unit {0})
persist_transcript recording_id room_tier payload parsed = transaction (do
  t ← now
  transcript_id ← statement (upsert_transcript recording_id payload parsed t)
  enqueue_tx summarize (summarize_payload payload transcript_id room_tier))

module _ (spaces : SpacesConfig) (deepgram : DeepgramConfig)
    (http : PresignedUrl → Option HttpAnswer) where
  abbrev pub lift : Result ParsedTranscript → M ParsedTranscript
  lift (ok parsed) = pure parsed
  lift (err e) = raise e

  -- An empty transcript is stored like any other.
  unfoldable pub handle_payload : TranscribePayload → M (Unit {0})
  handle_payload payload = do
    rec ← fetch_recording payload.egress_id
    url ← presign_get spaces (extract_spaces_key rec.file_url) (rec.duration_sec * second)
    parsed ← lift (Deepgram.transcribe deepgram http url)
    persist_transcript rec.id rec.room_tier payload parsed

  abbrev pub handle_decoded : Option TranscribePayload → M (Unit {0})
  handle_decoded none = pure tt
  handle_decoded (some payload) = handle_payload payload

  -- A payload that does not decode counts as done.
  unfoldable pub handle : Job → M (Unit {0})
  handle job = handle_decoded (decode job.payload)
