-- ===== src/Rooms/Enforcer.antt =====
-- internals/rooms/session_enforcer.go: a tick of the enforcer asks LiveKit to delete the guest rooms
-- whose session is over.
use gotel_reserves.Base.{
  ℕ, ◌+◌, ◌*◌, Bool, true, false, ◌&&◌, Option, none, some, List, [], ◌∷◌, leb, select, map,
}
use gotel_reserves.Backend.Rows.{RoomStatus, RoomTier, RoomRow, minute}
use gotel_reserves.Backend.Exec.{ok, M, pure, logged, now, statement, ◌>>=◌, ◌>>◌}
use gotel_reserves.LiveKit.{LiveKitService}
use gotel_reserves.Rooms.Repository.{Room, scan}
use gotel_reserves.Rooms.Service.{end_room}

abbrev is_guest : RoomTier → Bool
is_guest RoomTier.guest = true
is_guest _ = false

abbrev is_live : RoomStatus → Bool
is_live RoomStatus.live = true
is_live _ = false

-- started_at + session_duration_mins * INTERVAL '1 minute' <= NOW()
abbrev over_by : ℕ → ℕ → Option ℕ → Bool
over_by t mins none = false
over_by t mins (some started) = leb (started + mins * minute) t

abbrev pub is_expired : ℕ → RoomRow → Bool
is_expired t r =
    is_guest r.tier && is_live r.status && over_by t r.session_duration_mins r.started_at

unfoldable pub fetch_expired_guest_rooms : M (List Room)
fetch_expired_guest_rooms = do
  t ← now
  statement (λ d. (ok (map scan (select (is_expired t) d.rooms)), d))

module _ (lk : LiveKitService) where
  -- An error for one room is logged, and the loop goes on.
  unfoldable pub end_all : List Room → M (Unit {0})
  end_all [] = pure tt
  end_all (room ∷ rooms) = do logged (end_room lk room.id room.host_guest_id); end_all rooms

  unfoldable pub enforce_all : M (Unit {0})
  enforce_all = logged (do rooms ← fetch_expired_guest_rooms; end_all rooms)
