-- ===== src/Rooms/Enforcing.antt =====
-- Which sessions a tick of internals/rooms/session_enforcer.go ends.
use gotel_reserves.Base.{
  ℕ, String, ◌≡◌, refl, All-both, false, some, List, [], ◌∷◌, arith, eq_refl, find, select, map,
  All, All-imp, All-select, All-select_test,
}
use gotel_reserves.Backend.Rows.{RoomRow, Db}
use gotel_reserves.Backend.Exec.{
  Call, delete_room, ok, World, request, statement, logged, raise_if, pure, now, ◌>>=◌,
}
use gotel_reserves.LiveKit
use gotel_reserves.LiveKit.{service}
use gotel_reserves.Rooms.Repository.{scan, has_id, get_room_by_id}
use gotel_reserves.Rooms.Service.{is_ended, end_room}
use gotel_reserves.Rooms.Enforcer.{is_expired, fetch_expired_guest_rooms, end_all, enforce_all}
use gotel_reserves.Rooms.Columns.{AreSound, find_self}

-- the requests to delete these rooms, the latest first, before those that were made already
abbrev pub deletions : List RoomRow → List Call → List Call
deletions [] calls = calls
deletions (r ∷ rows) calls = deletions rows (delete_room r.livekit_room_name ∷ calls)

-- The number of the row finds it in these tables, and it has not ended.
abbrev Endable : List RoomRow → RoomRow → Type 0
Endable rows r = (find (has_id r.id) rows ≡ some r) × (is_ended r.status ≡ false)

module _ (url : String) where
  end_one :
      (w : World) (r : RoomRow)
      → w.faults ≡ []
      → Endable w.db.rooms r
      → (logged (end_room (service url) r.id r.host_guest_id) w).1
        ≡ record w { faults = []; calls = delete_room r.livekit_room_name ∷ w.calls }
  unfolding end_room get_room_by_id statement request raise_if logged LiveKit.delete_room ◌>>=◌
  end_one w r f h = ground (arith, eq_refl r.host_guest_id, h.0, h.1)

  end_all-deletions :
      (rows : List RoomRow) (w : World)
      → w.faults ≡ []
      → All (Endable w.db.rooms) rows
      → ((end_all (service url) (map scan rows) w).1.calls ≡ deletions rows w.calls)
        × ((end_all (service url) (map scan rows) w).1.db ≡ w.db)
  unfolding end_all pure ◌>>=◌ logged
  end_all-deletions [] w f h = (refl, refl)
  end_all-deletions (r ∷ rows) w f h = rw (end_one w r f h.0) (
      end_all-deletions rows
        (record w { faults = []; calls = delete_room r.livekit_room_name ∷ w.calls }) refl h.1)

  fetched :
      (w : World)
      → w.faults ≡ []
      → fetch_expired_guest_rooms w ≡ (
        ok (map scan (select (is_expired (now w).1.clock) w.db.rooms)),
        record (now w).1 { faults = [] },
      )
  unfolding fetch_expired_guest_rooms statement request now ◌>>=◌
  fetched w f = ground arith

  expired-Endable :
      (t : ℕ) (d : Db) → AreSound d → All (Endable d.rooms) (select (is_expired t) d.rooms)
  expired-Endable t d h =
      All-both _ _ _ (All-select _ (is_expired t) d.rooms (find_self d.rooms h.ascending)) (
        All-imp _ _ (select (is_expired t) d.rooms) (λ r e. ground arith)
          (All-select_test (is_expired t) d.rooms))

  -- Where nothing fails and the tables are sound, a tick asks LiveKit to delete just the rooms whose
  -- session is over at that moment, each once, and changes nothing in the tables.
  pub enforce_all-deletions :
      (w : World)
      → w.faults ≡ []
      → AreSound w.db
      → ((enforce_all (service url) w).1.calls
          ≡ deletions (select (is_expired (now w).1.clock) w.db.rooms) w.calls)
        × ((enforce_all (service url) w).1.db ≡ w.db)
  unfolding enforce_all logged ◌>>=◌ now
  enforce_all-deletions w f h = rw (fetched w f) (
      end_all-deletions (select (is_expired (now w).1.clock) w.db.rooms)
        (record (now w).1 { faults = [] }) refl (expired-Endable (now w).1.clock w.db h))
