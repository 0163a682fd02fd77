-- ===== src/Rooms/Sessions.antt =====
-- Ending, extending and enforcing a session (internals/rooms/service.go and session_enforcer.go).
use gotel_reserves.Base.{
  ℕ, ◌+◌, ◌/◌, String, ◌≡◌, ◌≢◌, refl, true, false, some, List, [], ◌∷◌, arith, eq_iff, find,
  update_where,
}
use gotel_reserves.Backend.Rows.{RoomRow, ended}
use gotel_reserves.Backend.Exec.{ok, World, delete_room, statement, ◌>>=◌}
use gotel_reserves.LiveKit
use gotel_reserves.LiveKit.{service, perform, list_participant_count}
use gotel_reserves.Rooms.Repository.{has_id, extend_row, get_room_by_id, mark_extension_used}
use gotel_reserves.Rooms.Service.{GuestTierConfig, end_room, extend_guest_session}

-- `EndRoom` succeeds only for the host of a room that has not ended, and then the one thing it does
-- is to ask LiveKit to delete that room.
pub end_room_sound :
    (url : String) (id : ℕ) (guest_id : String) (w w' : World) (r : RoomRow)
    → find (has_id id) w.db.rooms ≡ some r
    → end_room (service url) id guest_id w ≡ (ok tt, w')
    → (r.status ≢ ended)
      × (r.host_guest_id ≡ guest_id)
      × (w'.db ≡ w.db)
      × (w'.calls ≡ delete_room r.livekit_room_name ∷ w.calls)
unfolding end_room get_room_by_id statement LiveKit.delete_room ◌>>=◌
end_room_sound url id guest_id w w' r e h = ground (arith, eq_iff r.host_guest_id guest_id)

-- What an UPDATE of one number does to the row that a number finds.
find-update_where :
    (f : RoomRow → RoomRow)
    → ((r : RoomRow) → (f r).id ≡ r.id)
    → (id : ℕ) (rows : List RoomRow) (r : RoomRow) → find (has_id id) rows ≡ some r
    → find (has_id id) (update_where (has_id id) f rows) ≡ some (f r)
find-update_where f same id [] r e = cc
find-update_where f same id (x ∷ rows) r e =
    ground (arith, same x, find-update_where f same id rows r)

-- `ExtendGuestSession` succeeds only on a room that has not ended and was not extended; the row that
-- it leaves is marked and lasts longer by half of the configured duration, and is the same for the rest.
pub extend_guest_session_sound :
    (cfg : GuestTierConfig) (id : ℕ) (guest_id : String) (w w' : World) (r : RoomRow)
    → find (has_id id) w.db.rooms ≡ some r
    → extend_guest_session cfg id guest_id w ≡ (ok tt, w')
    → (r.status ≢ ended)
      × (r.extend_used ≡ false)
      × (find (has_id id) w'.db.rooms
          ≡ some (record r {
            extend_used = true;
            session_duration_mins = r.session_duration_mins + cfg.session_duration_mins / 2;
          }))
unfolding extend_guest_session get_room_by_id mark_extension_used statement ◌>>=◌
extend_guest_session_sound cfg id guest_id w w' r e h = ground (
  arith,
  find-update_where (extend_row (cfg.session_duration_mins / 2)) (λ x. refl) id w.db.rooms r e,
)

-- A room that was extended is not extended again: the call fails and leaves the tables alone.
pub extend_guest_session_once :
    (cfg : GuestTierConfig) (id : ℕ) (guest_id : String) (w : World) (r : RoomRow)
    → find (has_id id) w.db.rooms ≡ some r
    → r.extend_used ≡ true
    → ((extend_guest_session cfg id guest_id w).0 ≢ ok tt)
      × ((extend_guest_session cfg id guest_id w).1.db ≡ w.db)
unfolding extend_guest_session get_room_by_id mark_extension_used statement ◌>>=◌
extend_guest_session_once cfg id guest_id w r e h = (ground arith, ground arith)
