-- ===== src/Rooms/Tokens.antt =====
-- The tokens that `IssueGuestToken` of internals/rooms/service.go hands out.
use gotel_reserves.Base.{
  ℕ, ◌+◌, ◌*◌, ◌<◌, String, ◌≡◌, ◌≢◌, Bool, true, Option, none, some, arith, find, Option-cases,
  inl, inr,
}
use gotel_reserves.Backend.Rows.{RoomRow, ended, second}
use gotel_reserves.Backend.Exec.{ok, World, statement, now, ◌>>=◌}
use gotel_reserves.LiveKit.{service, grant_for, generate_token, list_participant_count}
use gotel_reserves.Rooms.Repository.{scan, has_id, get_room_by_id}
use gotel_reserves.Rooms.Service.{
  GuestTierConfig, TokenResponse, session_window, live_since, check_session, token_ttl,
  issue_guest_token,
}

-- How long a token is good that is minted at `t`, for a room that went live at a moment or has not.
abbrev pub IsTimely : GuestTierConfig → Option ℕ → ℕ → ℕ → Type 0
IsTimely cfg none t valid_for = valid_for ≡ session_window cfg + 60 * second
IsTimely cfg (some started) t valid_for =
    (t < started + session_window cfg)
    × (t + valid_for ≡ started + session_window cfg + 60 * second)

module _ (url : String) (cfg : GuestTierConfig) (id : ℕ) (guest name : String)
    (is_host : Bool) where
  issued_for :
      (w w' : World) (r : RoomRow) (response : TokenResponse)
      → find (has_id id) w.db.rooms ≡ some r
      → issue_guest_token (service url) cfg id guest name is_host w ≡ (ok response, w')
      → (r.status ≢ ended)
        × (response.token.identity ≡ guest)
        × (response.token.grant.room ≡ r.livekit_room_name)
        × (response.token.grant.room_admin ≡ is_host)
        × (response.token.grant.can_publish ≡ some true)
        × IsTimely cfg (live_since (scan r)) w'.clock response.token.valid_for
  unfolding issue_guest_token get_room_by_id statement check_session token_ttl now
      list_participant_count generate_token grant_for ◌>>=◌
  issued_for w w' r response e h = ground arith

  room_known :
      (w w' : World) (response : TokenResponse)
      → find (has_id id) w.db.rooms ≡ none
      → issue_guest_token (service url) cfg id guest name is_host w ≢ (ok response, w')
  unfolding issue_guest_token get_room_by_id statement ◌>>=◌
  room_known w w' response e h = ground arith

  -- A token that is handed out is for a room that exists and has not ended, under the name of that room
  -- and the identity of the guest; it lets the guest publish, and makes an admin of the guest just where
  -- the request says host. For a live room it is minted before the configured session is over and is
  -- good until 60 seconds after that; else it is good for the whole session and 60 seconds.
  pub issue_guest_token_sound :
      (w w' : World) (response : TokenResponse)
      → issue_guest_token (service url) cfg id guest name is_host w ≡ (ok response, w')
      → (r : RoomRow) × (find (has_id id) w.db.rooms ≡ some r)
        × (r.status ≢ ended)
        × (response.token.identity ≡ guest)
        × (response.token.grant.room ≡ r.livekit_room_name)
        × (response.token.grant.room_admin ≡ is_host)
        × (response.token.grant.can_publish ≡ some true)
        × IsTimely cfg (live_since (scan r)) w'.clock response.token.valid_for
  issue_guest_token_sound w w' response h = elim (Option-cases (find (has_id id) w.db.rooms)) [
    | inl e ↦ elim (room_known w w' response e h) [ ]
    | inr (r, e) ↦
        let (a, b, c, d, f, g) = issued_for w w' r response e h in (r, e, a, b, c, d, f, g)
  ]
