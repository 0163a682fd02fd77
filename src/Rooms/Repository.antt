-- ===== src/Rooms/Repository.antt =====
-- internals/rooms/domain.go, and the statements at the end of internals/rooms/service.go.
use gotel_reserves.Base.{
  newest_first, select, ℕ, ◌+◌, String, Bool, true, false, Option, none, some, List, [], ◌∷◌, ◌++◌,
  ◌==◌, nat_eq, string_eq, if◌then◌else◌, find, select, update_where, exists, length, map,
}
use gotel_reserves.Backend.Rows.{
  RoomStatus, RoomTier, RoomRow, ParticipantRow, TranscriptRow, SummaryRow, Db,
}
use gotel_reserves.Backend.Exec.{
  Result, ok, err, M, room_not_found, database_failed, statement, now, ◌>>=◌,
}

-- rooms.Room: what is read of a row.
pub record Room : Type 0 where
  pub id : ℕ
  pub host_guest_id : String
  pub livekit_room_name : String
  pub title : String
  pub status : RoomStatus
  pub tier : RoomTier
  pub extend_used : Bool
  pub started_at : Option ℕ
  pub ended_at : Option ℕ
  pub created_at : ℕ

-- `Scan`
abbrev pub scan : RoomRow → Room
scan r = record {
  id = r.id;
  host_guest_id = r.host_guest_id;
  livekit_room_name = r.livekit_room_name;
  title = r.title;
  status = r.status;
  tier = r.tier;
  extend_used = r.extend_used;
  started_at = r.started_at;
  ended_at = r.ended_at;
  created_at = r.created_at;
}

pub record InsertRoomParams : Type 0 where
  pub livekit_room_name : String
  pub host_guest_id : String
  pub title : String
  pub status : RoomStatus
  pub tier : RoomTier

-- the DEFAULT of the column `session_duration_mins`
abbrev pub default_duration_mins : ℕ
default_duration_mins = 30

abbrev pub has_id : ℕ → RoomRow → Bool
has_id id r = r.id == id

abbrev pub has_name : String → RoomRow → Bool
has_name name r = r.livekit_room_name == name

abbrev pub new_row : Db → InsertRoomParams → ℕ → RoomRow
new_row d p t = record {
  id = d.next_id;
  livekit_room_name = p.livekit_room_name;
  host_guest_id = p.host_guest_id;
  title = p.title;
  status = p.status;
  tier = p.tier;
  session_duration_mins = default_duration_mins;
  extend_used = false;
  started_at = none;
  ended_at = none;
  created_at = t;
}

-- INSERT INTO rooms ... RETURNING; the column `livekit_room_name` is UNIQUE.
unfoldable pub insert_row : InsertRoomParams → ℕ → Db → Result Room × Db
insert_row p t d =
    let row = new_row d p t in
    if exists (has_name p.livekit_room_name) d.rooms
    then (err database_failed, d)
    else (ok (scan row), record d { rooms = d.rooms ++ row ∷ []; next_id = d.next_id + 1 })

unfoldable pub insert_room : InsertRoomParams → M Room
insert_room p = do t ← now; statement (insert_row p t)

abbrev found : Option RoomRow → Result Room
found none = err room_not_found
found (some r) = ok (scan r)

unfoldable pub get_room_by_id : ℕ → M Room
get_room_by_id id = statement (λ d. (found (find (has_id id) d.rooms), d))

unfoldable pub get_room_by_livekit_name : String → M Room
get_room_by_livekit_name name = statement (λ d. (found (find (has_name name) d.rooms), d))

-- UPDATE rooms SET extend_used = TRUE, session_duration_mins = session_duration_mins + $2
abbrev pub extend_row : ℕ → RoomRow → RoomRow
extend_row extra r = record r {
  extend_used = true;
  session_duration_mins = r.session_duration_mins + extra;
}

unfoldable pub mark_extension_used : ℕ → ℕ → M (Unit {0})
mark_extension_used room_id extra_mins = statement (λ d.
    (ok tt, record d { rooms = update_where (has_id room_id) (extend_row extra_mins) d.rooms }))

-- rooms.RoomListItem
pub record RoomListItem : Type 0 where
  pub room : Room
  pub session_duration_mins : ℕ
  pub participant_count : ℕ
  pub has_transcript : Bool
  pub has_summary : Bool

abbrev list_item : Db → RoomRow → RoomListItem
list_item d r = record {
  room = scan r;
  session_duration_mins = r.session_duration_mins;
  participant_count = length (
      select (λ (p : ParticipantRow). p.room_livekit_name == r.livekit_room_name)
        d.room_participants);
  has_transcript =
      exists (λ (t : TranscriptRow). t.room_livekit_name == r.livekit_room_name) d.transcripts;
  has_summary = exists (λ (s : SummaryRow). s.room_livekit_name == r.livekit_room_name) d.summaries;
}

unfoldable pub list_rooms_by_host : String → M (List RoomListItem)
list_rooms_by_host host = statement (λ d. (
  ok (
      map (list_item d) (
        newest_first (λ (r : RoomRow). r.created_at)
          (select (λ (r : RoomRow). r.host_guest_id == host) d.rooms))),
  d,
))
