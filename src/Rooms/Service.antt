-- ===== src/Rooms/Service.antt =====
-- internals/rooms/service.go: the methods of `rooms.Service`.
use Prim.Native.String
use Prim.Native.String.{String}
use gotel_reserves.Base.{
  ℕ, ◌+◌, ◌-◌, ◌*◌, ◌/◌, ◌%◌, ◌^◌, Bool, true, false, not, Option, none, some, List, [], ◌∷◌, ◌==◌,
  nat_eq, string_eq, if◌then◌else◌, leb, ltb,
}
use gotel_reserves.Backend.Rows.{RoomStatus, RoomTier, minute, second}
use gotel_reserves.Backend.Exec.{
  Result, ok, err, World, M, CreateRoomParams, VideoQuality, pure, or_raise, raise_if, room_ended,
  plan_exceeded, session_expired, extend_once, not_the_host, name_not_generated, now, ◌>>=◌, ◌>>◌,
}
use gotel_reserves.LiveKit.{LiveKitService, AccessToken, ParticipantRole}
use gotel_reserves.Rooms.Repository.{
  Room, RoomListItem, InsertRoomParams, insert_room, get_room_by_id, get_room_by_livekit_name,
  list_rooms_by_host, mark_extension_used,
}

-- configs.GuestTierConfig
pub record GuestTierConfig : Type 0 where
  pub max_participants : ℕ
  pub session_duration_mins : ℕ
  pub max_video_quality : String

pub record TokenResponse : Type 0 where
  pub token : AccessToken
  pub livekit_host : String

abbrev pub is_ended : RoomStatus → Bool
is_ended RoomStatus.ended = true
is_ended _ = false

-- a hexadecimal digit of `%x`
hex_digit : ℕ → String
hex_digit n =
    if n == 0
    then "0"
    else if n == 1
    then "1"
    else if n == 2
    then "2"
    else if n == 3
    then "3"
    else if n == 4
    then "4"
    else if n == 5
    then "5"
    else if n == 6
    then "6"
    else if n == 7
    then "7"
    else if n == 8
    then "8"
    else if n == 9
    then "9"
    else if n == 10
    then "a"
    else if n == 11
    then "b"
    else if n == 12
    then "c"
    else if n == 13
    then "d"
    else if n == 14
    then "e"
    else "f"

hex : List ℕ → String
unfolding hex_digit
hex [] = ""
hex (b ∷ bs) = String.◌++◌ (hex_digit (b / 16)) (String.◌++◌ (hex_digit (b % 16)) (hex bs))

-- `random` is what crypto/rand.Read gives: four bytes, or `none` for an error.
unfoldable pub generate_room_name : String → Option (List ℕ) → Option String
unfolding hex
generate_room_name room_prefix none = none
generate_room_name room_prefix (some bytes) =
    some (String.◌++◌ room_prefix (String.◌++◌ "-" (hex bytes)))

unfoldable pub map_video_quality : String → VideoQuality
map_video_quality q =
    if q == "low"
    then VideoQuality.low
    else if q == "high"
    then VideoQuality.high
    else VideoQuality.medium

-- `room.Status == RoomStatusLive && room.StartedAt != nil`, with the moment
abbrev live_since_in : RoomStatus → Option ℕ → Option ℕ
live_since_in RoomStatus.live started = started
live_since_in _ started = none

abbrev pub live_since : Room → Option ℕ
live_since room = live_since_in room.status room.started_at

abbrev pub guest_room : String → String → String → InsertRoomParams
guest_room room_name host title = record {
  livekit_room_name = room_name;
  host_guest_id = host;
  title = title;
  status = RoomStatus.draft;
  tier = RoomTier.guest;
}

unfoldable pub get_room : ℕ → M Room
get_room room_id = get_room_by_id room_id

unfoldable pub get_room_by_name : String → M Room
get_room_by_name room_name = get_room_by_livekit_name room_name

unfoldable pub list_rooms : String → M (List RoomListItem)
list_rooms host_guest_id = list_rooms_by_host host_guest_id

abbrev pub role_of : Bool → ParticipantRole
role_of is_host = if is_host then ParticipantRole.host else ParticipantRole.speaker

module _ (cfg : GuestTierConfig) where
  abbrev pub session_window : ℕ
  session_window = cfg.session_duration_mins * minute

  abbrev pub guest_room_params : String → String → CreateRoomParams
  guest_room_params room_name host = record {
    room_name = room_name;
    max_participants = cfg.max_participants % 2 ^ 32;
    empty_timeout_secs = 300;
    metadata = String.◌++◌ "{\"tier\":\"guest\",\"host\":\"" (String.◌++◌ host "\"}");
  }

  -- the guard on the session's end; `none` where the room is not live
  unfoldable pub check_session : Option ℕ → M (Unit {0})
  check_session none = pure tt
  check_session (some started) = do
    t ← now
    raise_if (ltb (started + session_window) t) session_expired

  -- the rest of the session and 60 seconds; the clock is read again
  unfoldable pub token_ttl : Option ℕ → M ℕ
  token_ttl none = pure (session_window + 60 * second)
  token_ttl (some started) = do
    t ← now
    raise_if (leb (started + session_window) t) session_expired
    pure (started + session_window - t + 60 * second)

  -- The code does not look at the guest who asks.
  unfoldable pub extend_guest_session : ℕ → String → M (Unit {0})
  extend_guest_session room_id requesting_guest_id = do
    room ← get_room_by_id room_id
    raise_if (is_ended room.status) room_ended
    raise_if room.extend_used extend_once
    mark_extension_used room_id (cfg.session_duration_mins / 2)

module _ (lk : LiveKitService) where
  -- The row that could not be inserted leaves a room in LiveKit, which is deleted if possible.
  abbrev pub clean_up : String → Result Room × World → Result Room × World
  clean_up room_name (ok room, w) = (ok room, w)
  clean_up room_name (err e, w) = (err e, (lk.delete_room room_name w).1)

  unfoldable pub or_clean_up : String → M Room → M Room
  or_clean_up room_name insertion w = clean_up room_name (insertion w)

  -- The row stays as it is: the room_finished webhook ends it.
  unfoldable pub end_room : ℕ → String → M (Unit {0})
  end_room room_id requesting_guest_id = do
    room ← get_room_by_id room_id
    raise_if (is_ended room.status) room_ended
    raise_if (not (room.host_guest_id == requesting_guest_id)) not_the_host
    lk.delete_room room.livekit_room_name

module _ (lk : LiveKitService) (cfg : GuestTierConfig) where
  unfoldable pub create_guest_room : Option (List ℕ) → String → String → M Room
  create_guest_room random host_guest_id title = do
    room_name ← or_raise (generate_room_name "guest" random) name_not_generated
    lk.create_room (guest_room_params cfg room_name host_guest_id)
    or_clean_up lk room_name (insert_room (guest_room room_name host_guest_id title))

  unfoldable pub issue_guest_token : ℕ → String → String → Bool → M TokenResponse
  issue_guest_token room_id guest_identity display_name is_host = do
    room ← get_room_by_id room_id
    raise_if (is_ended room.status) room_ended
    count ← lk.list_participant_count room.livekit_room_name
    raise_if (leb cfg.max_participants count) plan_exceeded
    check_session cfg (live_since room)
    ttl ← token_ttl cfg (live_since room)
    token ← lk.generate_token (record {
      room_name = room.livekit_room_name;
      identity = guest_identity;
      role = role_of is_host;
      metadata = record { display_name = display_name; plan = "guest"; avatar_url = "" };
      ttl = ttl;
      max_video_quality = map_video_quality cfg.max_video_quality;
    })
    pure (record { token = token; livekit_host = lk.host })
