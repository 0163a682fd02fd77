-- ===== src/Rooms/Methods.antt =====
-- What the methods of internals/rooms/service.go and session_enforcer.go keep of the tables.
use gotel_reserves.Base.{◌≤◌, ℕ, String, ◌≡◌, Bool, Option, none, some, List, [], ◌∷◌, update_where}
use gotel_reserves.Backend.Rows.{Db, draft}
use gotel_reserves.Backend.Exec.{Result, ok, err, World, M}
use gotel_reserves.Backend.Preserves.{Preserves, Preserves-bind, Preserves-logged, preserves_rules}
use gotel_reserves.LiveKit.{LiveKitService, IsRemote}
use gotel_reserves.Rooms.Repository.{
  Room, InsertRoomParams, has_id, insert_row, insert_room, get_room_by_id, get_room_by_livekit_name,
  list_rooms_by_host, extend_row, mark_extension_used,
}
use gotel_reserves.Rooms.Service.{
  GuestTierConfig, clean_up, or_clean_up, check_session, token_ttl, create_guest_room,
  get_room_by_name, check_session, token_ttl, issue_guest_token, end_room, extend_guest_session,
}
use gotel_reserves.Rooms.Enforcer.{fetch_expired_guest_rooms, end_all, enforce_all}

-- Writes to other tables than `rooms` and `users` do not matter to `I`.
abbrev pub IgnoresRest : (Db → Type 0) → Type 0
IgnoresRest I =
    (d d' : Db) → d'.rooms ≡ d.rooms → d'.users ≡ d.users → d.next_id ≤ d'.next_id → I d → I d'

-- An invariant of the tables that the two writes of the service keep.
pub record IsKept (I : Db → Type 0) : Type 0 where
  pub insert :
      (q : InsertRoomParams) (t : ℕ) → q.status ≡ draft → (d : Db) → I d → I (insert_row q t d).1
  pub extend :
      (id extra : ℕ) (d : Db)
      → I d
      → I (record d { rooms = update_where (has_id id) (extend_row extra) d.rooms })

module _ {I : Db → Type 0} (kept : IsKept I) where
  insert_room-Preserves : (q : InsertRoomParams) → q.status ≡ draft → Preserves I (insert_room q)
  unfolding insert_room
  insert_room-Preserves q e = search (preserves_rules, kept.insert q)

  pub mark_extension_used-Preserves : (id extra : ℕ) → Preserves I (mark_extension_used id extra)
  unfolding mark_extension_used
  mark_extension_used-Preserves id extra = search (preserves_rules, kept.extend id extra)

pub get_room_by_id-Preserves : {I : Db → Type 0} (id : ℕ) → Preserves I (get_room_by_id id)
unfolding get_room_by_id
get_room_by_id-Preserves id = search preserves_rules

module _ {I : Db → Type 0} where
  get_room_by_livekit_name-Preserves : (n : String) → Preserves I (get_room_by_livekit_name n)
  unfolding get_room_by_livekit_name
  get_room_by_livekit_name-Preserves n = search preserves_rules

  pub list_rooms_by_host-Preserves : (host : String) → Preserves I (list_rooms_by_host host)
  unfolding list_rooms_by_host
  list_rooms_by_host-Preserves host = search preserves_rules

  pub get_room_by_name-Preserves : (n : String) → Preserves I (get_room_by_name n)
  unfolding get_room_by_name
  get_room_by_name-Preserves n = get_room_by_livekit_name-Preserves n

  fetch_expired-Preserves : Preserves I fetch_expired_guest_rooms
  unfolding fetch_expired_guest_rooms
  fetch_expired-Preserves = search preserves_rules

module _ {I : Db → Type 0} (cfg : GuestTierConfig) where
  check_session-Preserves : (o : Option ℕ) → Preserves I (check_session cfg o)
  unfolding check_session
  check_session-Preserves none = search preserves_rules
  check_session-Preserves (some t) = search preserves_rules

  token_ttl-Preserves : (o : Option ℕ) → Preserves I (token_ttl cfg o)
  unfolding token_ttl
  token_ttl-Preserves none = search preserves_rules
  token_ttl-Preserves (some t) = search preserves_rules

clean_up_after :
    (I : Db → Type 0) (lk : LiveKitService) (remote : IsRemote lk) (name : String) (r : Result Room)
    (w : World)
    → I w.db
    → I (clean_up lk name (r, w)).1.db
clean_up_after I lk remote name (ok room) w i = i
clean_up_after I lk remote name (err e) w i = (remote.delete I name).after w i

module _ {I : Db → Type 0} (lk : LiveKitService) (remote : IsRemote lk)
    (cfg : GuestTierConfig) where
  or_clean_up-Preserves :
      (name : String) (m : M Room) → Preserves I m → Preserves I (or_clean_up lk name m)
  unfolding or_clean_up
  or_clean_up-Preserves name m h = record {
    after = λ w i. clean_up_after I lk remote name (m w).0 (m w).1 (h.after w i);
  }

  pub end_room-Preserves : (id : ℕ) (guest : String) → Preserves I (end_room lk id guest)
  unfolding end_room
  end_room-Preserves id guest =
      search (preserves_rules, get_room_by_id-Preserves, remote.delete I) depth 8

  pub issue_guest_token-Preserves :
      (id : ℕ) (guest name : String) (is_host : Bool)
      → Preserves I (issue_guest_token lk cfg id guest name is_host)
  unfolding issue_guest_token
  issue_guest_token-Preserves id guest name is_host =
      search
        (
          preserves_rules,
          get_room_by_id-Preserves,
          remote.count I,
          remote.generate I,
          check_session-Preserves,
          token_ttl-Preserves,
        )
        depth 10

  end_all-Preserves : (rooms : List Room) → Preserves I (end_all lk rooms)
  unfolding end_all
  end_all-Preserves [] = search preserves_rules
  end_all-Preserves (room ∷ rooms) =
      Preserves-bind _ _ (Preserves-logged _ (end_room-Preserves room.id room.host_guest_id))
        (λ _. end_all-Preserves rooms)

  pub enforce_all-Preserves : Preserves I (enforce_all lk)
  unfolding enforce_all
  enforce_all-Preserves = search (preserves_rules, fetch_expired-Preserves, end_all-Preserves)

module _ {I : Db → Type 0} (kept : IsKept I) (lk : LiveKitService) (remote : IsRemote lk)
    (cfg : GuestTierConfig) where
  pub create_guest_room-Preserves :
      (random : Option (List ℕ)) (host title : String)
      → Preserves I (create_guest_room lk cfg random host title)
  unfolding create_guest_room
  create_guest_room-Preserves random host title =
      search
        (
          preserves_rules,
          insert_room-Preserves kept,
          remote.create I,
          or_clean_up-Preserves lk remote,
        )
        depth 8

module _ {I : Db → Type 0} (kept : IsKept I) (cfg : GuestTierConfig) where
  pub extend_guest_session-Preserves :
      (id : ℕ) (guest : String) → Preserves I (extend_guest_session cfg id guest)
  unfolding extend_guest_session
  extend_guest_session-Preserves id guest =
      search (preserves_rules, get_room_by_id-Preserves, mark_extension_used-Preserves kept) depth 8
