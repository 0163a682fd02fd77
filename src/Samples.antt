-- ===== src/Samples.antt =====
-- States and settings that the tests share.
use gotel_reserves.Base.{refl, arith, ◌*◌, Bool, false, none, some, List, [], ◌∷◌}
use gotel_reserves.Backend.Rows.{
  Db, RoomRow, RoomTier, RecordingRow, RecordingStatus, TranscriptRow, Job, Payload, draft, live,
  pending, summarize, minute, second,
}
use gotel_reserves.Backend.Exec.{World, Redis}
use gotel_reserves.Rooms.Columns.{AreSound}
use gotel_reserves.Rooms.Service.{GuestTierConfig}

abbrev pub empty_db : Db
empty_db = record {
  next_id = 10;
  users = [];
  oauth_connections = [];
  rooms = [];
  room_participants = [];
  webhook_events = [];
  recordings = [];
  job_queue = [];
  transcripts = [];
  summaries = [];
}

abbrev pub empty_redis : Redis
empty_redis = record { ready_transcribe = []; ready_summarize = []; delayed = []; dlq = [] }

-- one hour after the start of time, a second for each reading of the clock, nobody in any room
abbrev pub world : Db → List Bool → World
world d faults = record {
  db = d;
  redis = empty_redis;
  calls = [];
  faults = faults;
  ticks = second ∷ second ∷ [];
  clock = 60 * minute;
  uuids = 0;
  occupancy = λ name. 0;
}

abbrev pub guest_tier : GuestTierConfig
guest_tier = record { max_participants = 5; session_duration_mins = 30; max_video_quality = "low" }

-- live for ten minutes
abbrev pub live_room : RoomRow
live_room = record {
  id = 1;
  livekit_room_name = "guest-0a";
  host_guest_id = "host";
  title = "standup";
  status = live;
  tier = RoomTier.guest;
  session_duration_mins = 30;
  extend_used = false;
  started_at = some (50 * minute);
  ended_at = none;
  created_at = 49 * minute;
}

abbrev pub draft_room : RoomRow
draft_room = record live_room {
  id = 2;
  livekit_room_name = "guest-0b";
  status = draft;
  started_at = none;
}

abbrev pub two_rooms : Db
two_rooms = record empty_db { rooms = live_room ∷ draft_room ∷ [] }

abbrev pub recording_row : RecordingRow
recording_row = record {
  id = 3;
  room_livekit_name = "guest-0a";
  egress_id = "EG_1";
  status = RecordingStatus.recording;
  file_url = some "https://nyc3.example.com/bucket/rec/a.mp4";
  file_size_bytes = none;
  duration_sec = none;
  created_at = 51 * minute;
  completed_at = none;
}

abbrev pub transcript_row : TranscriptRow
transcript_row = record {
  id = 4;
  room_livekit_name = "guest-0a";
  recording_id = 3;
  egress_id = "EG_1";
  text = "hello";
  duration_sec = 12;
  created_at = 55 * minute;
}

abbrev pub recorded : Db
recorded = record two_rooms { recordings = recording_row ∷ []; transcripts = transcript_row ∷ [] }

abbrev pub summarize_job : Job
summarize_job = record {
  id = 7;
  type = summarize;
  payload =
      Payload.summarization
        (record { room_livekit_name = "guest-0a"; transcript_id = some 4; category = "webinar" });
  status = pending;
  attempts = 0;
  max_retries = 5;
  created_at = 55 * minute;
  next_run_at = 55 * minute;
}

pub two_rooms-AreSound : AreSound two_rooms
two_rooms-AreSound = record {
  consistent = (
    record {
      draft_untouched = λ e. ground arith;
      live_started = λ e. (refl, refl);
      ended_dated = λ e. ground arith;
    },
    (
      record {
        draft_untouched = λ e. (refl, refl);
        live_started = λ e. ground arith;
        ended_dated = λ e. ground arith;
      },
      tt,
    ),
  );
  named_apart = (refl, (refl, tt));
  numbered = (omega arith, (omega arith, tt));
  ascending = ((omega arith, tt), (tt, tt));
}
