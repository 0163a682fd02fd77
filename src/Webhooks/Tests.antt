-- ===== src/Webhooks/Tests.antt =====
-- Runs of internals/webhooks/handler.go on small states.
use gotel_reserves.Base.{true, exists, ◌*◌, ◌≡◌, refl, find, some, none, []}
use gotel_reserves.Backend.Rows.{ParticipantRow, second}
use gotel_reserves.Backend.Exec.{
  ok, World, statement, request, or_raise, logged, pure, now, new_uuid, transaction, atomically,
  commit, ◌>>=◌,
}
use gotel_reserves.Jobs.Queue.{push_ready}
use gotel_reserves.Jobs.Client.{insert_job, enqueue_tx}
use gotel_reserves.Webhooks.Events.{
  WebhookEvent, ParticipantInfo, EgressInfo, complete, handle_room_started, attends,
  handle_participant_joined,
}
use gotel_reserves.Webhooks.Attendance.{present, joined_present}
use gotel_reserves.Webhooks.Handler.{
  has_event_id, insert_event, insert_webhook_event, dispatch, record_and_answer, handle_webhook,
  handle_egress_ended, complete_recording,
}
use gotel_reserves.Webhooks.Replay.{handle_webhook_once}
use gotel_reserves.Samples.{world, two_rooms, recorded}

abbrev started : WebhookEvent
started = record {
  id = "EV_1";
  event = "room_started";
  room = some "guest-0b";
  participant = none;
  egress_info = none;
}

abbrev after_start : World
after_start = (handle_webhook (some started) (world two_rooms [])).1

handle_webhook_once_example :
    let w' = (handle_webhook (some started) after_start).1 in
    (exists (has_event_id "EV_1") after_start.db.webhook_events ≡ true)
    × (w'.db ≡ after_start.db)
    × (w'.redis ≡ after_start.redis)
    × (w'.calls ≡ after_start.calls)
unfolding handle_webhook record_and_answer insert_webhook_event insert_event dispatch
    handle_room_started or_raise logged pure statement request now ◌>>=◌
handle_webhook_once_example = handle_webhook_once started (world two_rooms []) after_start refl refl

abbrev egress : EgressInfo
egress = record {
  room_name = "guest-0a";
  egress_id = "EG_1";
  status = complete;
  file = some (record {
    location = "https://nyc3.example.com/bucket/rec/a.mp4";
    size = 9;
    duration = 12 * second;
  });
  segments = none;
}

abbrev egress_ended : WebhookEvent
egress_ended = record {
  id = "EV_2";
  event = "egress_ended";
  room = none;
  participant = none;
  egress_info = some egress;
}

abbrev after_egress : World
after_egress = (handle_egress_ended egress_ended (world recorded [])).1

egress_ended_runs : (handle_egress_ended egress_ended (world recorded [])).0 ≡ ok tt
unfolding handle_egress_ended complete_recording enqueue_tx insert_job push_ready or_raise logged
    pure statement request now new_uuid transaction atomically commit ◌>>=◌
egress_ended_runs = refl

abbrev guest : ParticipantInfo
guest = record { identity = "guest-1"; name = "Ann" }

abbrev about_guest : WebhookEvent
about_guest = record {
  id = "EV_2";
  event = "participant_joined";
  room = some "guest-0a";
  participant = some guest;
  egress_info = none;
}

joined_present_example :
    let w' = (handle_participant_joined about_guest (world two_rooms [])).1 in
    (row : ParticipantRow) × (find (attends "guest-0a" "guest-1") w'.db.room_participants
      ≡ some row)
    × (row ≡ present "guest-0a" guest (now (world two_rooms [])).1.clock none)
joined_present_example =
    joined_present about_guest "guest-0a" guest (world two_rooms []) refl refl refl
