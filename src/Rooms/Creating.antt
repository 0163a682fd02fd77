-- ===== src/Rooms/Creating.antt =====
-- What `CreateGuestRoom` of internals/rooms/service.go does to LiveKit and to the tables.
use gotel_reserves.Base.{
  ℕ, String, ◌≡◌, ◌⊎◌, inl, inr, true, false, Option, some, List, [], ◌∷◌, arith, exists,
}
use gotel_reserves.Backend.Exec.{
  Call, err, World, database_failed, or_raise, request, statement, now, ◌>>=◌,
}
use gotel_reserves.LiveKit
use gotel_reserves.LiveKit.{service}
use gotel_reserves.Rooms.Repository.{has_name, insert_row, insert_room}
use gotel_reserves.Rooms.Service.{
  GuestTierConfig, guest_room_params, generate_room_name, or_clean_up, create_guest_room,
}

module _ (url : String) (cfg : GuestTierConfig) (random : Option (List ℕ))
    (host title name : String) where
  -- Where the room was made in LiveKit but the row cannot be added, because the statement is lost or the
  -- name is taken, the caller gets an error, the tables stay, and LiveKit is asked to delete the room.
  pub create_guest_room_cleans_up :
      (w : World)
      → generate_room_name "guest" random ≡ some name
      → (w.faults ≡ false ∷ true ∷ [])
        ⊎ ((w.faults ≡ []) × (exists (has_name name) w.db.rooms ≡ true))
      → ((create_guest_room (service url) cfg random host title w).0 ≡ err database_failed)
        × ((create_guest_room (service url) cfg random host title w).1.db ≡ w.db)
        × ((create_guest_room (service url) cfg random host title w).1.calls
            ≡ Call.delete_room name ∷ Call.create_room (guest_room_params cfg name host) ∷ w.calls)
  unfolding create_guest_room or_raise or_clean_up insert_room insert_row statement request now
      LiveKit.create_room LiveKit.delete_room ◌>>=◌
  create_guest_room_cleans_up w g (inl f) = (ground arith, ground arith, ground arith)
  create_guest_room_cleans_up w g (inr (f, n)) = (ground arith, ground arith, ground arith)
