-- ===== src/Webhooks/Handler.antt =====
-- internals/webhooks/handler.go: deduplication, dispatch, and the egress events that start the
-- transcription of a recording.
use gotel_reserves.Base.{
  ℕ, ◌+◌, ◌/◌, String, Bool, true, false, ◌&&◌, ◌||◌, Option, none, some, [], ◌∷◌, ◌++◌, ◌==◌,
  string_eq, if◌then◌else◌, update_where, exists,
}
use gotel_reserves.Backend.Rows.{
  WebhookEventRow, RecordingRow, RecordingStatus, Payload, Db, second, transcribe,
}
use gotel_reserves.Backend.Exec.{
  Result, ok, err, M, or_raise, raise_if, pure, logged, statement, transaction, now, missing_egress,
  empty_egress, ◌>>=◌, ◌>>◌,
}
use gotel_reserves.Jobs.Client.{enqueue_tx}
use gotel_reserves.Webhooks.Events.{
  WebhookEvent, EgressInfo, EgressStatus, complete, unfinished, handle_room_started,
  handle_room_finished, handle_participant_joined, handle_participant_left,
}

abbrev pub has_event_id : String → WebhookEventRow → Bool
has_event_id id e = e.event_id == id

-- INSERT INTO webhook_events ... ON CONFLICT (event_id) DO NOTHING: whether a row was inserted
unfoldable pub insert_event : String → String → ℕ → Db → Result Bool × Db
insert_event event_id event_type t d =
    if exists (has_event_id event_id) d.webhook_events then (ok false, d) else (
      ok true,
      record d {
        webhook_events =
            d.webhook_events
            ++ record { event_id = event_id; event_type = event_type; received_at = t } ∷ [];
      },
    )

unfoldable pub insert_webhook_event : String → String → M Bool
insert_webhook_event event_id event_type = do
  t ← now
  statement (insert_event event_id event_type t)

abbrev pub has_egress_id : String → RecordingRow → Bool
has_egress_id id r = r.egress_id == id

abbrev new_recording : Db → String → String → ℕ → RecordingRow
new_recording d name id t = record {
  id = d.next_id;
  room_livekit_name = name;
  egress_id = id;
  status = RecordingStatus.recording;
  file_url = none;
  file_size_bytes = none;
  duration_sec = none;
  created_at = t;
  completed_at = none;
}

-- INSERT INTO recordings ... ON CONFLICT (egress_id) DO NOTHING
unfoldable pub insert_recording : String → String → ℕ → Db → Result (Unit {0}) × Db
insert_recording name id t d = if exists (has_egress_id id) d.recordings then (ok tt, d) else (
  ok tt,
  record d { recordings = d.recordings ++ new_recording d name id t ∷ []; next_id = d.next_id + 1 },
)

unfoldable pub handle_egress_started : WebhookEvent → M (Unit {0})
handle_egress_started event = do
  ei ← or_raise event.egress_info missing_egress
  raise_if (ei.room_name == "" || ei.egress_id == "") empty_egress
  t ← now
  statement (insert_recording ei.room_name ei.egress_id t)

-- the location, the size and the whole seconds of the recording
unfoldable pub extract_egress_file_info : EgressInfo → String × ℕ × ℕ
extract_egress_file_info ei = elim ei.file [
  | some f ↦ (f.location, f.size, f.duration / second)
  | none ↦ elim ei.segments [
    | some s ↦ (s.location, s.size, s.duration / second)
    | none ↦ ("", 0, 0)
  ]
]

abbrev in_progress : RecordingStatus → Bool
in_progress RecordingStatus.recording = true
in_progress _ = false

abbrev pub completable : String → RecordingRow → Bool
completable id r = has_egress_id id r && in_progress r.status

abbrev pub completed_row : String × ℕ × ℕ → ℕ → RecordingRow → RecordingRow
completed_row (url, size, duration) t r = record r {
  status = RecordingStatus.completed;
  file_url = some url;
  file_size_bytes = some size;
  duration_sec = some duration;
  completed_at = some t;
}

abbrev pub transcribe_payload : EgressInfo → Payload
transcribe_payload ei = Payload.transcription (record {
  room_livekit_name = ei.room_name;
  egress_id = ei.egress_id;
  file_url = (extract_egress_file_info ei).0;
})

unfoldable pub complete_recording : EgressInfo → M (Unit {0})
complete_recording ei = transaction (do
  t ← now
  statement (λ d. (
    ok tt,
    record d {
      recordings =
          update_where (completable ei.egress_id) (completed_row (extract_egress_file_info ei) t)
            d.recordings;
    },
  ))
  enqueue_tx transcribe (transcribe_payload ei))

abbrev pub complete_if : EgressStatus → EgressInfo → M (Unit {0})
complete_if complete ei = complete_recording ei
complete_if unfinished ei = pure tt

unfoldable pub handle_egress_ended : WebhookEvent → M (Unit {0})
handle_egress_ended event = do
  ei ← or_raise event.egress_info missing_egress
  complete_if ei.status ei

unfoldable pub dispatch : WebhookEvent → M (Unit {0})
dispatch event =
    if event.event == "room_started"
    then handle_room_started event
    else if event.event == "room_finished"
    then handle_room_finished event
    else if event.event == "participant_joined"
    then handle_participant_joined event
    else if event.event == "participant_left"
    then handle_participant_left event
    else if event.event == "egress_started"
    then handle_egress_started event
    else if event.event == "egress_ended"
    then handle_egress_ended event
    else pure tt

-- the answer after the attempt to record the event; an error of `dispatch` is logged
abbrev pub answer : WebhookEvent → Result Bool → M ℕ
answer event (err e) = pure 500
answer event (ok false) = pure 200
answer event (ok true) = do logged (dispatch event); pure 200

unfoldable pub record_and_answer : WebhookEvent → M ℕ
record_and_answer event w =
    let (r, w') = insert_webhook_event event.id event.event w in answer event r w'

-- The argument is the event that `ReceiveWebhookEvent` reads, or `none` where the signature or the
-- body is not valid. The result is the HTTP status.
unfoldable pub handle_webhook : Option WebhookEvent → M ℕ
handle_webhook none = pure 401
handle_webhook (some event) = record_and_answer event
