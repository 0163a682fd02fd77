-- ===== src/Rooms/Handler.antt =====
-- internals/rooms/handler.go: the HTTP handlers of the rooms. A reply is its status and its body.
use gotel_reserves.Base.{
  ℕ, ◌+◌, String, Bool, true, false, ◌&&◌, Option, none, some, List, [], ◌∷◌, ◌==◌, nat_eq,
  string_eq, if◌then◌else◌, leb, codes, is_blank, parse_positive,
}
use gotel_reserves.Backend.Exec.{
  Error, Result, ok, err, World, M, pure, room_not_found, room_ended, room_not_live, plan_exceeded,
  session_expired, extend_once, invalid_role,
}
use gotel_reserves.LiveKit.{LiveKitService}
use gotel_reserves.Rooms.Repository.{Room, RoomListItem}
use gotel_reserves.Rooms.Service.{
  GuestTierConfig, TokenResponse, get_room, get_room_by_name, list_rooms, create_guest_room,
  issue_guest_token, end_room, extend_guest_session,
}

pub data Body : Type 0 where
  nothing extended : Body
  message : String → Body
  room : Room → Body
  rooms : List RoomListItem → Body
  token : TokenResponse → Body

pub record Reply : Type 0 where
  pub status : ℕ
  pub body : Body

abbrev pub reply : ℕ → Body → Reply
reply status body = record { status = status; body = body }

abbrev write_error : ℕ → String → Reply
write_error code msg = reply code (message msg)

unfoldable pub write_service_error : Error → Reply
write_service_error room_not_found = write_error 404 "room not found"
write_service_error room_ended = write_error 409 "room has already ended"
write_service_error room_not_live = write_error 409 "room is not live yet"
write_service_error plan_exceeded = write_error 403 "participant limit reached for guest tier"
write_service_error session_expired = write_error 410 "session duration limit reached"
write_service_error extend_once = write_error 409 "session extension already used"
write_service_error invalid_role = write_error 400 "invalid participant role"
write_service_error _ = write_error 500 "internal server error"

module _ {A : Type 0} where
  abbrev pub reply_to : (A → Reply) → Result A → Reply
  reply_to success (ok a) = success a
  reply_to success (err e) = write_service_error e

  -- The reply to what a method of the service returns.
  unfoldable pub respond : (A → Reply) → M A → M Reply
  respond success m w = let (r, w') = m w in (ok (reply_to success r), w')

abbrev pub name_not_resolved : Error → Reply
name_not_resolved room_not_found = write_error 404 "room not found"
name_not_resolved _ = write_error 400 "invalid room id"

abbrev pub by_name : (ℕ → M Reply) → Result Room × World → Result Reply × World
by_name next (ok r, w) = next r.id w
by_name next (err e, w) = (ok (name_not_resolved e), w)

abbrev pub resolved_by : String → (ℕ → M Reply) → Option ℕ → M Reply
resolved_by raw next (some id) w = next id w
resolved_by raw next none w = by_name next (get_room_by_name raw w)

-- What follows `resolveRoomID`: the segment of the path is a positive number, or a name.
unfoldable pub resolve_room_id : String → (ℕ → M Reply) → M Reply
resolve_room_id raw next = resolved_by raw next (parse_positive raw)

pub record CreateRoomBody : Type 0 where
  pub title : String
  pub host_id : String

unfoldable pub handle_get_room : String → M Reply
handle_get_room raw = resolve_room_id raw (λ id. respond (λ r. reply 200 (room r)) (get_room id))

unfoldable pub handle_list_rooms : String → M Reply
handle_list_rooms host_guest_id =
    if is_blank host_guest_id
    then pure (write_error 400 "host_guest_id query parameter is required")
    else respond (λ l. reply 200 (rooms l)) (list_rooms host_guest_id)

abbrev lower : ℕ → ℕ
lower c = if leb b'A' c && leb c b'Z' then c + 32 else c

same_folded : List ℕ → List ℕ → Bool
same_folded [] [] = true
same_folded (c ∷ cs) (k ∷ ks) = lower c == k && same_folded cs ks
same_folded _ _ = false

-- strings.EqualFold(s, "true"); of these letters the only other case is the ASCII one.
unfoldable pub is_true : String → Bool
unfolding same_folded
is_true s = same_folded (codes s) (codes "true")

module _ (lk : LiveKitService) where
  unfoldable pub handle_end_room : String → String → M Reply
  handle_end_room raw guest_id = resolve_room_id raw (λ id.
      if guest_id == ""
      then pure (write_error 400 "guest_id query parameter is required")
      else respond (λ _. reply 204 nothing) (end_room lk id guest_id))

module _ (lk : LiveKitService) (cfg : GuestTierConfig) where
  abbrev pub create_from : Option (List ℕ) → Option CreateRoomBody → M Reply
  create_from random none = pure (write_error 400 "invalid request body")
  create_from random (some body) =
      if is_blank body.title
      then pure (write_error 400 "title is required")
      else if is_blank body.host_id
      then pure (write_error 400 "host_guest_id is required")
      else respond (λ r. reply 201 (room r))
          (create_guest_room lk cfg random body.host_id body.title)

  -- `none` is a body that does not decode.
  unfoldable pub handle_create_room : Option (List ℕ) → Option CreateRoomBody → M Reply
  handle_create_room random body = create_from random body

  unfoldable pub handle_issue_guest_token : String → String → String → String → M Reply
  handle_issue_guest_token raw guest_id display_name is_host = resolve_room_id raw (λ id.
      if guest_id == ""
      then pure (write_error 400 "guest_id is required")
      else respond (λ t. reply 200 (token t))
          (issue_guest_token lk cfg id guest_id
            (if display_name == "" then "Guest" else display_name) (is_true is_host)))

module _ (cfg : GuestTierConfig) where
  abbrev pub extend_from : ℕ → Option String → M Reply
  extend_from id none = pure (write_error 400 "invalid request body")
  extend_from id (some guest_id) =
      if guest_id == ""
      then pure (write_error 400 "guest_id is required")
      else respond (λ _. reply 200 extended) (extend_guest_session cfg id guest_id)

  -- The body, if it decodes, is the guest's identity.
  unfoldable pub handle_extend_session : String → Option String → M Reply
  handle_extend_session raw body = resolve_room_id raw (λ id. extend_from id body)
