-- ===== src/Insights/Pipeline.antt =====
-- internals/insights/handler.go: how far the pipeline is with a room.
use gotel_reserves.Base.{
  ℕ, String, Option, none, some, ◌==◌, string_eq, if◌then◌else◌, find, select, latest,
}
use gotel_reserves.Backend.Rows.{
  RoomStatus, RoomRow, RecordingStatus, RecordingRow, TranscriptRow, SummaryRow, Db, ended,
}
use gotel_reserves.Backend.Exec.{M, Result, ok, err, pure, on_result, not_found, ◌>>=◌}
use gotel_reserves.Rooms.Repository.{has_name}
use gotel_reserves.Insights.Reading.{
  Shown, shown, refused_with, query_row, latest_transcript, latest_summary, transcript_by_id,
  summary_by_id,
}

pub data Status : Type 0 where
  live processing completed failed : Status

pub data Step : Type 0 where
  live finalizing recording transcribing summarizing completed failed : Step

-- What the first query scans.
pub record State : Type 0 where
  pub room_status : RoomStatus
  pub recording_status : Option RecordingStatus
  pub transcript_id : Option ℕ
  pub summary_id : Option ℕ

pub record InsightsResponse : Type 0 where
  pub room_livekit_name : String
  pub status : Status
  pub step : Step
  pub message : String
  pub transcript : Option TranscriptRow
  pub summary : Option SummaryRow

abbrev pub latest_recording : String → Db → Option RecordingRow
latest_recording name d =
    latest (λ (r : RecordingRow). r.created_at)
      (select (λ (r : RecordingRow). r.room_livekit_name == name) d.recordings)

module _ {A B : Type 0} where
  abbrev pub mapped : (A → B) → Option A → Option B
  mapped f none = none
  mapped f (some a) = some (f a)

abbrev pub state_of : Db → RoomRow → State
state_of d r = record {
  room_status = r.status;
  recording_status =
      mapped (λ (x : RecordingRow). x.status) (latest_recording r.livekit_room_name d);
  transcript_id = mapped (λ (x : TranscriptRow). x.id) (latest_transcript r.livekit_room_name d);
  summary_id = mapped (λ (x : SummaryRow). x.id) (latest_summary r.livekit_room_name d);
}

abbrev pub find_state : String → Db → Option State
find_state name d = mapped (state_of d) (find (has_name name) d.rooms)

abbrev pub at : String → Status → Step → String → InsightsResponse
at name status step message = record {
  room_livekit_name = name;
  status = status;
  step = step;
  message = message;
  transcript = none;
  summary = none;
}

abbrev pub by_room_status : String → RoomStatus → InsightsResponse
by_room_status name ended = at name Status.processing Step.finalizing "Wrapping up the recording…"
by_room_status name _ = at name Status.live Step.live "Meeting in progress."

abbrev pub by_recording : String → RoomStatus → Option RecordingStatus → InsightsResponse
by_recording name room (some RecordingStatus.completed) =
    at name Status.processing Step.transcribing "Deepgram is generating word-level timestamps…"
by_recording name room (some RecordingStatus.recording) =
    at name Status.processing Step.recording "Finalizing the recording…"
by_recording name room (some RecordingStatus.failed) =
    at name Status.failed Step.failed "Recording failed to process."
by_recording name room none = by_room_status name room

abbrev pub by_transcript : String → State → Option ℕ → InsightsResponse
by_transcript name s (some id) =
    at name Status.processing Step.summarizing
      "Synthesizing the executive summary and action items…"
by_transcript name s none = by_recording name s.room_status s.recording_status

abbrev pub by_summary : String → State → Option ℕ → InsightsResponse
by_summary name s (some id) = at name Status.completed Step.completed "Insights ready."
by_summary name s none = by_transcript name s s.transcript_id

-- the `switch`
unfoldable pub step_of : String → State → InsightsResponse
step_of name s = by_summary name s s.summary_id

abbrev pub with_transcript : InsightsResponse → Result TranscriptRow → M InsightsResponse
with_transcript resp (ok t) = pure (record resp { transcript = some t })
with_transcript resp (err e) = pure resp

abbrev pub attach_transcript : Option ℕ → InsightsResponse → M InsightsResponse
attach_transcript none resp = pure resp
attach_transcript (some id) resp =
    on_result (query_row (transcript_by_id id)) (with_transcript resp)

abbrev pub with_summary : InsightsResponse → Result SummaryRow → M InsightsResponse
with_summary resp (ok s) = pure (record resp { summary = some s })
with_summary resp (err e) = pure resp

abbrev pub attach_summary : Option ℕ → InsightsResponse → M InsightsResponse
attach_summary none resp = pure resp
attach_summary (some id) resp = on_result (query_row (summary_by_id id)) (with_summary resp)

abbrev pub respond_with : String → Result State → M (Shown InsightsResponse)
respond_with name (err not_found) = pure (refused_with 404)
respond_with name (err _) = pure (refused_with 500)
respond_with name (ok s) = do
  resp ← attach_transcript s.transcript_id (step_of name s)
  resp' ← attach_summary s.summary_id resp
  pure (shown resp')

unfoldable pub handle_get_by_room_name : String → M (Shown InsightsResponse)
handle_get_by_room_name name =
    if name == ""
    then pure (refused_with 400)
    else on_result (query_row (find_state name)) (respond_with name)
