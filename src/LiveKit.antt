-- ===== src/LiveKit.antt =====
-- internals/livekit/service.go: the client of the LiveKit server, and the interface through which
-- the rooms use it (`LiveKitService` of internals/rooms/domain.go). A signed JWT is modelled by what
-- is signed.
use gotel_reserves.Base.{ℕ, ◌*◌, String, Bool, true, false, Option, none, some, ◌∷◌}
use gotel_reserves.Backend.Rows.{Db, second}
use gotel_reserves.Backend.Exec.{
  Result, ok, err, M, CreateRoomParams, VideoQuality, Call, pure, or_raise, request, unknown_role,
  livekit_failed, ◌>>=◌,
}
use gotel_reserves.Backend.Preserves.{Preserves, Preserves-request, preserves_rules}

-- A Go `ParticipantRole` is a string, so it may be none of the three constants.
pub data ParticipantRole : Type 0 where
  host speaker viewer : ParticipantRole
  other : String → ParticipantRole

pub record ParticipantMetadata : Type 0 where
  pub display_name : String
  pub plan : String
  pub avatar_url : String

pub record GenerateTokenParams : Type 0 where
  pub room_name : String
  pub identity : String
  pub role : ParticipantRole
  pub metadata : ParticipantMetadata
  pub ttl : ℕ
  pub max_video_quality : VideoQuality

-- lkauth.VideoGrant, as far as the service sets it; `none` is a nil `*bool`.
pub record VideoGrant : Type 0 where
  pub room_create : Bool
  pub room_list : Bool
  pub room_admin : Bool
  pub room_join : Bool
  pub room : String
  pub can_publish : Option Bool
  pub can_subscribe : Option Bool

-- The claims of an lkauth.AccessToken.
pub record AccessToken : Type 0 where
  pub grant : VideoGrant
  pub identity : String
  pub metadata : Option ParticipantMetadata
  pub valid_for : ℕ

abbrev join_grant : String → VideoGrant
join_grant room = record {
  room_create = false;
  room_list = false;
  room_admin = false;
  room_join = true;
  room = room;
  can_publish = none;
  can_subscribe = none;
}

-- the `switch p.Role` of `GenerateToken`
unfoldable pub grant_for : ParticipantRole → String → Option VideoGrant
grant_for host room = some (record (join_grant room) {
  can_publish = some true;
  can_subscribe = some true;
  room_admin = true;
})
grant_for speaker room =
    some (record (join_grant room) { can_publish = some true; can_subscribe = some true })
grant_for viewer room =
    some (record (join_grant room) { can_publish = some false; can_subscribe = some true })
grant_for (other role) room = none

unfoldable pub generate_token : GenerateTokenParams → M AccessToken
generate_token p = do
  grant ← or_raise (grant_for p.role p.room_name) unknown_role
  request livekit_failed (
      pure (record {
        grant = grant;
        identity = p.identity;
        metadata = some p.metadata;
        valid_for = p.ttl;
      }))

-- A call of the Room Service that takes effect on the server.
abbrev pub perform : Call → M (Unit {0})
perform c w = (ok tt, record w { calls = c ∷ w.calls })

unfoldable pub create_room : CreateRoomParams → M (Unit {0})
create_room p = request livekit_failed (perform (Call.create_room p))

unfoldable pub delete_room : String → M (Unit {0})
delete_room room_name = request livekit_failed (perform (Call.delete_room room_name))

unfoldable pub remove_participant : String → String → M (Unit {0})
remove_participant room_name identity =
    request livekit_failed (perform (Call.remove_participant room_name identity))

-- `resp, err := ListParticipants(...)`: an error counts as no participants.
abbrev or_zero : Result ℕ → Result ℕ
or_zero (ok n) = ok n
or_zero (err e) = ok 0

abbrev list_participants : String → M ℕ
list_participants room_name w = (ok (w.occupancy room_name), w)

unfoldable pub list_participant_count : String → M ℕ
list_participant_count room_name w =
    let (r, w') = request livekit_failed (list_participants room_name) w in (or_zero r, w')

-- The token of the service itself, for calls of the Room Service.
unfoldable pub new_api_token : M AccessToken
new_api_token = request livekit_failed (
    pure (record {
      grant = record (join_grant "") {
        room_create = true;
        room_list = true;
        room_admin = true;
        room_join = false;
      };
      identity = "";
      metadata = none;
      valid_for = 30 * second;
    }))

-- internals/rooms/domain.go: what the rooms need of LiveKit.
pub record LiveKitService : Type 0 where
  pub create_room : CreateRoomParams → M (Unit {0})
  pub delete_room : String → M (Unit {0})
  pub generate_token : GenerateTokenParams → M AccessToken
  pub list_participant_count : String → M ℕ
  pub remove_participant : String → String → M (Unit {0})
  pub host : String

-- An implementation of the interface does not write to the tables.
pub record IsRemote (lk : LiveKitService) : Type 1 where
  pub create : (I : Db → Type 0) (p : CreateRoomParams) → Preserves I (lk.create_room p)
  pub delete : (I : Db → Type 0) (name : String) → Preserves I (lk.delete_room name)
  pub generate : (I : Db → Type 0) (p : GenerateTokenParams) → Preserves I (lk.generate_token p)
  pub count : (I : Db → Type 0) (name : String) → Preserves I (lk.list_participant_count name)
  pub remove :
      (I : Db → Type 0) (name identity : String) → Preserves I (lk.remove_participant name identity)

-- `livekit.Service` is such an implementation; its state is the host URL.
abbrev pub service : String → LiveKitService
service url = record {
  create_room = create_room;
  delete_room = delete_room;
  generate_token = generate_token;
  list_participant_count = list_participant_count;
  remove_participant = remove_participant;
  host = url;
}

perform-Preserves : {I : Db → Type 0} (c : Call) → Preserves I (perform c)
perform-Preserves c = record { after = λ w h. h }

list_participants-Preserves : {I : Db → Type 0} (n : String) → Preserves I (list_participants n)
list_participants-Preserves n = record { after = λ w h. h }

count-Preserves : {I : Db → Type 0} (n : String) → Preserves I (list_participant_count n)
unfolding list_participant_count
count-Preserves {I} n = record {
  after = (Preserves-request livekit_failed _ (list_participants-Preserves n)).after;
}

pub service-IsRemote : (url : String) → IsRemote (service url)
unfolding create_room delete_room generate_token remove_participant
service-IsRemote url = record {
  create = λ I p. search (preserves_rules, perform-Preserves);
  delete = λ I n. search (preserves_rules, perform-Preserves);
  generate = λ I p. search preserves_rules;
  count = λ I n. count-Preserves n;
  remove = λ I n i. search (preserves_rules, perform-Preserves);
}
