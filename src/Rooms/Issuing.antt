-- ===== src/Rooms/Issuing.antt =====
-- To whom `IssueGuestToken` of internals/rooms/service.go hands out a token, and what an extended
-- session has to do with it.
use gotel_reserves.Base.{
  ℕ, ◌+◌, ◌*◌, ◌/◌, ◌≤◌, ◌<◌, ◌∙◌, String, ◌≡◌, refl, Bool, true, false, Option, none, some, List,
  [], ◌∷◌, arith, inl, inr, Bool-cases, find, if◌then◌else◌, leb, ltb,
}
use gotel_reserves.Backend.Rows.{RoomRow, live, minute}
use gotel_reserves.Backend.Exec.{
  Error, Result, ok, err, World, M, request, statement, raise_if, pure, now, room_ended,
  plan_exceeded, session_expired, ◌>>=◌, ◌>>◌,
}
use gotel_reserves.LiveKit.{service, grant_for, generate_token, list_participant_count}
use gotel_reserves.Rooms.Repository.{Room, scan, has_id, extend_row, get_room_by_id}
use gotel_reserves.Rooms.Service.{
  GuestTierConfig, TokenResponse, is_ended, session_window, live_since, check_session, token_ttl,
  issue_guest_token, role_of, map_video_quality,
}
use gotel_reserves.Rooms.Enforcer.{is_expired}

-- Why a guest is refused who asks at `t` for a token of a room with so many participants, if he is.
abbrev pub expiry : GuestTierConfig → Option ℕ → ℕ → Option Error
expiry cfg none t = none
expiry cfg (some started) t =
    if ltb t (started + session_window cfg) then none else some session_expired

abbrev pub refusal : GuestTierConfig → RoomRow → ℕ → ℕ → Option Error
refusal cfg r count t =
    if is_ended r.status
    then some room_ended
    else if ltb count cfg.max_participants
    then expiry cfg (live_since (scan r)) t
    else some plan_exceeded

abbrev pub error_of : Result TokenResponse → Option Error
error_of (ok response) = none
error_of (err e) = some e

-- the moment of the second reading of the clock
abbrev pub second_reading : World → ℕ
second_reading w = (now (now w).1).1.clock

module _ (url : String) (cfg : GuestTierConfig) (id : ℕ) (guest name : String)
    (is_host : Bool) where
  -- what follows the guards on the status and on the number of participants
  abbrev mint : Room → Option ℕ → M TokenResponse
  mint room since = do
    check_session cfg since
    ttl ← token_ttl cfg since
    token ← generate_token (record {
      room_name = room.livekit_room_name;
      identity = guest;
      role = role_of is_host;
      metadata = record { display_name = name; plan = "guest"; avatar_url = "" };
      ttl = ttl;
      max_video_quality = map_video_quality cfg.max_video_quality;
    })
    pure (record { token = token; livekit_host = url })

  -- by the readings of the clock that are to come
  mint_live :
      (room : Room) (started : ℕ) (ticks : List ℕ) (w : World)
      → let w' = record w { ticks = ticks; faults = [] } in
        error_of (mint room (some started) w').0 ≡ expiry cfg (some started) (second_reading w')
  unfolding request check_session token_ttl now generate_token grant_for ◌>>=◌
  mint_live room started [] w = ground arith
  mint_live room started (t ∷ []) w = ground arith
  mint_live room started (t ∷ t' ∷ ts) w = ground arith

  mint-expiry :
      (room : Room) (o : Option ℕ) (w : World)
      → let w' = record w { faults = [] } in
        error_of (mint room o w').0 ≡ expiry cfg o (second_reading w')
  unfolding request check_session token_ttl now generate_token grant_for ◌>>=◌
  mint-expiry room none w = ground arith
  mint-expiry room (some started) w = mint_live room started w.ticks w

  refused_when_ended :
      (w : World) (r : RoomRow)
      → w.faults ≡ []
      → find (has_id id) w.db.rooms ≡ some r
      → is_ended r.status ≡ true
      → (issue_guest_token (service url) cfg id guest name is_host w).0 ≡ err room_ended
  unfolding issue_guest_token get_room_by_id statement ◌>>=◌
  refused_when_ended w r f e n = ground arith

  refused_when_full :
      (w : World) (r : RoomRow)
      → w.faults ≡ []
      → find (has_id id) w.db.rooms ≡ some r
      → is_ended r.status ≡ false
      → ltb (w.occupancy r.livekit_room_name) cfg.max_participants ≡ false
      → (issue_guest_token (service url) cfg id guest name is_host w).0 ≡ err plan_exceeded
  unfolding issue_guest_token get_room_by_id statement list_participant_count ◌>>=◌
  refused_when_full w r f e n h = ground arith

  passed :
      (rest : Room → M TokenResponse) (w : World) (r : RoomRow)
      → w.faults ≡ []
      → find (has_id id) w.db.rooms ≡ some r
      → is_ended r.status ≡ false
      → ltb (w.occupancy r.livekit_room_name) cfg.max_participants ≡ true
      → ((do
        room ← get_room_by_id id
        raise_if (is_ended room.status) room_ended
        count ← list_participant_count room.livekit_room_name
        raise_if (leb cfg.max_participants count) plan_exceeded
        rest room)
          w).0
        ≡ (rest (scan r) (record w { faults = [] })).0
  unfolding get_room_by_id statement request list_participant_count ◌>>=◌
  passed rest w r f e n h = ground arith

  guarded :
      (w : World) (r : RoomRow)
      → w.faults ≡ []
      → find (has_id id) w.db.rooms ≡ some r
      → is_ended r.status ≡ false
      → ltb (w.occupancy r.livekit_room_name) cfg.max_participants ≡ true
      → (issue_guest_token (service url) cfg id guest name is_host w).0
        ≡ (mint (scan r) (live_since (scan r)) (record w { faults = [] })).0
  unfolding issue_guest_token
  guarded w r f e n h = passed (λ room. mint room (live_since room)) w r f e n h

  -- Where nothing fails, a guest of a room that exists gets a token, or is refused, as the description
  -- says: the room has not ended, it is not full, and its session, if it is live, is not over at the
  -- second reading of the clock.
  pub issue_guest_token-refusal :
      (w : World) (r : RoomRow)
      → w.faults ≡ []
      → find (has_id id) w.db.rooms ≡ some r
      → error_of (issue_guest_token (service url) cfg id guest name is_host w).0
        ≡ refusal cfg r (w.occupancy r.livekit_room_name) (second_reading w)
  unfolding now
  issue_guest_token-refusal w r f e = elim (Bool-cases (is_ended r.status)) [
    | inl n ↦ rw (n, refused_when_ended w r f e n) refl
    | inr n ↦ elim (Bool-cases (ltb (w.occupancy r.livekit_room_name) cfg.max_participants)) [
      | inl h ↦ rw (n, h, guarded w r f e n h) (mint-expiry (scan r) (live_since (scan r)) w)
      | inr h ↦ rw (n, h, refused_when_full w r f e n h) refl
    ]
  ]

-- Where nothing fails and the room is not full, a guest who asks for a token of an extended session
-- after the configured duration is refused, while for the enforcer the session is not over:
-- `IssueGuestToken` does not read the duration in the row.
pub extended_session_refused :
    (url : String) (cfg : GuestTierConfig) (id : ℕ) (guest name : String) (is_host : Bool)
    (w : World) (r : RoomRow) (started : ℕ)
    → w.faults ≡ []
    → find (has_id id) w.db.rooms ≡ some (extend_row (cfg.session_duration_mins / 2) r)
    → r.status ≡ live
    → r.started_at ≡ some started
    → w.occupancy r.livekit_room_name < cfg.max_participants
    → started + session_window cfg ≤ second_reading w
    → second_reading w
      < started + (r.session_duration_mins + cfg.session_duration_mins / 2) * minute
    → (error_of (issue_guest_token (service url) cfg id guest name is_host w).0
        ≡ some session_expired)
      × (is_expired (second_reading w) (extend_row (cfg.session_duration_mins / 2) r) ≡ false)
extended_session_refused url cfg id guest name is_host w r started f e l s c late early = (
  issue_guest_token-refusal url cfg id guest name is_host w
        (extend_row (cfg.session_duration_mins / 2) r) f e
      ∙ ground (arith, l, s),
  ground (arith, l, s),
)
