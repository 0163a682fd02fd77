-- ===== src/Rooms/Tests.antt =====
-- Runs of internals/rooms on small states.
use gotel_reserves.Base.{◌*◌, ◌+◌, ◌-◌, ◌≡◌, ◌≢◌, refl, true, false, some, [], ◌∷◌, find}
use gotel_reserves.Backend.Rows.{ended, minute, second}
use gotel_reserves.Backend.Exec.{Result, ok, World, delete_room, statement, now, ◌>>=◌}
use gotel_reserves.LiveKit
use gotel_reserves.LiveKit.{service, perform, list_participant_count, generate_token, grant_for}
use gotel_reserves.Rooms.Repository.{scan, has_id, extend_row, get_room_by_id, mark_extension_used}
use gotel_reserves.Rooms.Service.{
  TokenResponse, live_since, map_video_quality, check_session, token_ttl, issue_guest_token,
  end_room, extend_guest_session,
}
use gotel_reserves.Rooms.Tokens.{IsTimely, issue_guest_token_sound}
use gotel_reserves.Rooms.Sessions.{
  end_room_sound, extend_guest_session_sound, extend_guest_session_once,
}
use gotel_reserves.Backend.Exec.{Call, err, session_expired, database_failed}
use gotel_reserves.Backend.Rows.{RoomRow}
use gotel_reserves.Base.{ℕ, Option, List, arith, inl, select}
use gotel_reserves.Rooms.Service.{create_guest_room, guest_room_params, generate_room_name}
use gotel_reserves.Rooms.Enforcer.{is_expired, enforce_all}
use gotel_reserves.Rooms.Issuing.{
  error_of, refusal, second_reading, issue_guest_token-refusal, extended_session_refused,
}
use gotel_reserves.Rooms.Enforcing.{deletions, enforce_all-deletions}
use gotel_reserves.Rooms.Creating.{create_guest_room_cleans_up}
use gotel_reserves.Samples.{two_rooms-AreSound, world, guest_tier, live_room, two_rooms}

abbrev before : World
before = world two_rooms []

abbrev issued : Result TokenResponse × World
issued = issue_guest_token (service "wss://host") guest_tier 1 "guest" "Ann" true before

abbrev response : TokenResponse
response = record {
  token = record {
    grant = record {
      room_create = false;
      room_list = false;
      room_admin = true;
      room_join = true;
      room = "guest-0a";
      can_publish = some true;
      can_subscribe = some true;
    };
    identity = "guest";
    metadata = some (record { display_name = "Ann"; plan = "guest"; avatar_url = "" });
    valid_for = 20 * minute - 2 * second + 60 * second;
  };
  livekit_host = "wss://host";
}

issue_guest_token_sound_example :
    (r : RoomRow) × (find (has_id 1) two_rooms.rooms ≡ some r)
    × (r.status ≢ ended)
    × (response.token.identity ≡ "guest")
    × (response.token.grant.room ≡ r.livekit_room_name)
    × (response.token.grant.room_admin ≡ true)
    × (response.token.grant.can_publish ≡ some true)
    × IsTimely guest_tier (live_since (scan r)) issued.1.clock response.token.valid_for
unfolding issue_guest_token get_room_by_id statement check_session token_ttl now
    list_participant_count generate_token grant_for ◌>>=◌ map_video_quality
issue_guest_token_sound_example =
    issue_guest_token_sound "wss://host" guest_tier 1 "guest" "Ann" true before issued.1 response
      refl

abbrev after_end : World
after_end = (end_room (service "wss://host") 1 "host" before).1

end_room_sound_example :
    (live_room.status ≢ ended)
    × (live_room.host_guest_id ≡ "host")
    × (after_end.db ≡ two_rooms)
    × (after_end.calls ≡ delete_room "guest-0a" ∷ [])
unfolding end_room get_room_by_id statement LiveKit.delete_room ◌>>=◌
end_room_sound_example = end_room_sound "wss://host" 1 "host" before after_end live_room refl refl

abbrev after_extension : World
after_extension = (extend_guest_session guest_tier 1 "guest" before).1

extend_guest_session_sound_example :
    (live_room.status ≢ ended)
    × (live_room.extend_used ≡ false)
    × (find (has_id 1) after_extension.db.rooms
        ≡ some (record live_room { extend_used = true; session_duration_mins = 45 }))
unfolding extend_guest_session get_room_by_id mark_extension_used statement ◌>>=◌
extend_guest_session_sound_example =
    extend_guest_session_sound guest_tier 1 "guest" before after_extension live_room refl refl

extend_guest_session_once_example :
    ((extend_guest_session guest_tier 1 "guest" after_extension).0 ≢ ok tt)
    × ((extend_guest_session guest_tier 1 "guest" after_extension).1.db ≡ after_extension.db)
unfolding extend_guest_session get_room_by_id mark_extension_used statement ◌>>=◌
extend_guest_session_once_example =
    extend_guest_session_once guest_tier 1 "guest" after_extension (extend_row 15 live_room) refl
      refl

issue_guest_token-refusal_example :
    error_of (issue_guest_token (service "wss://host") guest_tier 1 "guest" "Ann" true before).0
    ≡ refusal guest_tier live_room 0 (second_reading before)
issue_guest_token-refusal_example =
    issue_guest_token-refusal "wss://host" guest_tier 1 "guest" "Ann" true before live_room refl
      refl

-- thirty-five minutes into a session of thirty that was extended to forty-five
abbrev late : World
late = record (world (record two_rooms { rooms = extend_row 15 live_room ∷ [] }) []) {
  clock = 85 * minute;
}

extended_session_refused_example :
    (error_of (issue_guest_token (service "wss://host") guest_tier 1 "guest" "Ann" true late).0
      ≡ some session_expired)
    × (is_expired (second_reading late) (extend_row 15 live_room) ≡ false)
unfolding now
extended_session_refused_example =
    extended_session_refused "wss://host" guest_tier 1 "guest" "Ann" true late live_room
      (50 * minute) refl refl refl refl (omega arith) (omega arith) (omega arith)

-- half an hour after the session began
abbrev over : World
over = record before { clock = 80 * minute }

enforce_all-deletions_example :
    ((enforce_all (service "wss://host") over).1.calls
      ≡ deletions (select (is_expired (now over).1.clock) two_rooms.rooms) [])
    × ((enforce_all (service "wss://host") over).1.db ≡ two_rooms)
enforce_all-deletions_example = enforce_all-deletions "wss://host" over refl two_rooms-AreSound

one_deletion :
    deletions (select (is_expired (now over).1.clock) two_rooms.rooms) []
    ≡ delete_room "guest-0a" ∷ []
unfolding now
one_deletion = refl

abbrev random : Option (List ℕ)
random = some (10 ∷ 255 ∷ 0 ∷ 18 ∷ [])

abbrev lossy : World
lossy = world two_rooms (false ∷ true ∷ [])

create_guest_room_cleans_up_example :
    ((create_guest_room (service "wss://host") guest_tier random "host" "standup" lossy).0
      ≡ err database_failed)
    × ((create_guest_room (service "wss://host") guest_tier random "host" "standup" lossy).1.db
        ≡ two_rooms)
    × ((create_guest_room (service "wss://host") guest_tier random "host" "standup" lossy).1.calls
        ≡ Call.delete_room "guest-0aff0012"
          ∷ Call.create_room (guest_room_params guest_tier "guest-0aff0012" "host")
          ∷ [])
unfolding generate_room_name
create_guest_room_cleans_up_example =
    create_guest_room_cleans_up "wss://host" guest_tier random "host" "standup" "guest-0aff0012"
      lossy refl (inl refl)
