-- ===== src/Webhooks/Events.antt =====
-- What is read of an lkproto.WebhookEvent, and the handlers of the room and participant events of
-- internals/webhooks/handler.go.
use gotel_reserves.Base.{
  ℕ, String, Bool, true, false, ◌&&◌, Option, none, some, List, [], ◌∷◌, ◌++◌, ◌==◌, string_eq,
  if◌then◌else◌, update_where, exists,
}
use gotel_reserves.Backend.Rows.{RoomRow, RoomStatus, ParticipantRow, draft, live, ended}
use gotel_reserves.Backend.Exec.{
  ok, M, or_raise, statement, now, missing_room, missing_participant, ◌>>=◌,
}
use gotel_reserves.Rooms.Repository.{has_name}

pub record ParticipantInfo : Type 0 where
  pub identity : String
  pub name : String

pub data EgressStatus : Type 0 where
  complete unfinished : EgressStatus

-- lkproto.FileInfo and lkproto.SegmentsInfo; `duration` in nanoseconds
pub record FileInfo : Type 0 where
  pub location : String
  pub size : ℕ
  pub duration : ℕ

pub record EgressInfo : Type 0 where
  pub room_name : String
  pub egress_id : String
  pub status : EgressStatus
  pub file : Option FileInfo
  pub segments : Option FileInfo

-- `room` is the name of the room in the event, if there is one.
pub record WebhookEvent : Type 0 where
  pub id : String
  pub event : String
  pub room : Option String
  pub participant : Option ParticipantInfo
  pub egress_info : Option EgressInfo

abbrev is_draft : RoomStatus → Bool
is_draft draft = true
is_draft _ = false

abbrev is_open : RoomStatus → Bool
is_open ended = false
is_open _ = true

abbrev pub startable : String → RoomRow → Bool
startable name r = has_name name r && is_draft r.status

abbrev pub started_row : ℕ → RoomRow → RoomRow
started_row t r = record r { status = live; started_at = some t }

unfoldable pub handle_room_started : WebhookEvent → M (Unit {0})
handle_room_started event = do
  name ← or_raise event.room missing_room
  t ← now
  statement
      (λ d. (ok tt, record d { rooms = update_where (startable name) (started_row t) d.rooms }))

abbrev pub finishable : String → RoomRow → Bool
finishable name r = has_name name r && is_open r.status

abbrev pub finished_row : ℕ → RoomRow → RoomRow
finished_row t r = record r { status = ended; ended_at = some t }

unfoldable pub handle_room_finished : WebhookEvent → M (Unit {0})
handle_room_finished event = do
  name ← or_raise event.room missing_room
  t ← now
  statement
      (λ d. (ok tt, record d { rooms = update_where (finishable name) (finished_row t) d.rooms }))

abbrev pub attends : String → String → ParticipantRow → Bool
attends name identity p = p.room_livekit_name == name && p.identity == identity

-- INSERT ... ON CONFLICT (room_livekit_name, identity) DO UPDATE
unfoldable pub upsert_participant :
    (ParticipantRow → ParticipantRow) → ParticipantRow → List ParticipantRow → List ParticipantRow
upsert_participant change row rows =
    if exists (attends row.room_livekit_name row.identity) rows
    then update_where (attends row.room_livekit_name row.identity) change rows
    else rows ++ row ∷ []

abbrev pub joined_row : String → ParticipantInfo → ℕ → ParticipantRow
joined_row name p t = record {
  room_livekit_name = name;
  identity = p.identity;
  display_name = p.name;
  joined_at = some t;
  left_at = none;
}

abbrev pub rejoin : ℕ → ParticipantRow → ParticipantRow
rejoin t p = record p { joined_at = some t; left_at = none }

abbrev pub left_row : String → ParticipantInfo → ℕ → ParticipantRow
left_row name p t = record {
  room_livekit_name = name;
  identity = p.identity;
  display_name = p.name;
  joined_at = none;
  left_at = some t;
}

abbrev pub leave : ℕ → ParticipantRow → ParticipantRow
leave t p = record p { left_at = some t }

unfoldable pub handle_participant_joined : WebhookEvent → M (Unit {0})
handle_participant_joined event = do
  name ← or_raise event.room missing_participant
  p ← or_raise event.participant missing_participant
  t ← now
  statement (λ d. (
    ok tt,
    record d {
      room_participants = upsert_participant (rejoin t) (joined_row name p t) d.room_participants;
    },
  ))

unfoldable pub handle_participant_left : WebhookEvent → M (Unit {0})
handle_participant_left event = do
  name ← or_raise event.room missing_participant
  p ← or_raise event.participant missing_participant
  t ← now
  statement (λ d. (
    ok tt,
    record d {
      room_participants = upsert_participant (leave t) (left_row name p t) d.room_participants;
    },
  ))
