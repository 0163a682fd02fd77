-- ===== src/Rooms/Serving.antt =====
-- What the HTTP handlers of internals/rooms/handler.go keep of the tables.
use gotel_reserves.Base.{ℕ, String, Option, none, some, List, string_eq, parse_positive}
use gotel_reserves.Backend.Rows.{Db}
use gotel_reserves.Backend.Exec.{Result, ok, err, World, M}
use gotel_reserves.Backend.Preserves.{Preserves, preserves_rules}
use gotel_reserves.LiveKit.{LiveKitService, IsRemote}
use gotel_reserves.Rooms.Repository.{Room}
use gotel_reserves.Rooms.Service.{GuestTierConfig, get_room, list_rooms, get_room_by_name}
use gotel_reserves.Rooms.Methods.{
  IsKept, get_room_by_id-Preserves, get_room_by_name-Preserves, list_rooms_by_host-Preserves,
  create_guest_room-Preserves, issue_guest_token-Preserves, end_room-Preserves,
  extend_guest_session-Preserves,
}
use gotel_reserves.Rooms.Handler.{
  Reply, CreateRoomBody, respond, by_name, resolved_by, resolve_room_id, create_from, extend_from,
  handle_create_room, handle_list_rooms, handle_get_room, handle_end_room, handle_issue_guest_token,
  handle_extend_session,
}

module _ {I : Db → Type 0} where
  respond-Preserves :
      {A : Type 0} (success : A → Reply) (m : M A) → Preserves I m → Preserves I (respond success m)
  unfolding respond
  respond-Preserves success m h = record { after = h.after }

  by_name_after :
      (next : ℕ → M Reply) (r : Result Room) (w : World)
      → ((id : ℕ) → Preserves I (next id))
      → I w.db
      → I (by_name next (r, w)).1.db
  by_name_after next (ok room) w h i = (h room.id).after w i
  by_name_after next (err e) w h i = i

  resolved_by-Preserves :
      (raw : String) (next : ℕ → M Reply) (o : Option ℕ)
      → ((id : ℕ) → Preserves I (next id))
      → Preserves I (resolved_by raw next o)
  resolved_by-Preserves raw next (some id) h = record { after = (h id).after }
  resolved_by-Preserves raw next none h = record {
    after = λ w i.
        by_name_after next (get_room_by_name raw w).0 (get_room_by_name raw w).1 h
          ((get_room_by_name-Preserves {I = I} raw).after w i);
  }

  resolve_room_id-Preserves :
      (raw : String) (next : ℕ → M Reply)
      → ((id : ℕ) → Preserves I (next id))
      → Preserves I (resolve_room_id raw next)
  unfolding resolve_room_id
  resolve_room_id-Preserves raw next h = resolved_by-Preserves raw next (parse_positive raw) h

  get_room-Preserves : (id : ℕ) → Preserves I (get_room id)
  unfolding get_room
  get_room-Preserves id = get_room_by_id-Preserves id

  list_rooms-Preserves : (host : String) → Preserves I (list_rooms host)
  unfolding list_rooms
  list_rooms-Preserves host = list_rooms_by_host-Preserves host

  pub handle_get_room-Preserves : (raw : String) → Preserves I (handle_get_room raw)
  unfolding handle_get_room
  handle_get_room-Preserves raw =
      search (resolve_room_id-Preserves, respond-Preserves, get_room-Preserves)

  pub handle_list_rooms-Preserves : (host : String) → Preserves I (handle_list_rooms host)
  unfolding handle_list_rooms
  handle_list_rooms-Preserves host =
      search (preserves_rules, respond-Preserves, list_rooms-Preserves)

module _ {I : Db → Type 0} (lk : LiveKitService) (remote : IsRemote lk) where
  pub handle_end_room-Preserves : (raw guest : String) → Preserves I (handle_end_room lk raw guest)
  unfolding handle_end_room
  handle_end_room-Preserves raw guest =
      search
        (
          preserves_rules,
          resolve_room_id-Preserves,
          respond-Preserves,
          end_room-Preserves lk remote,
        )
        depth 8

module _ {I : Db → Type 0} (kept : IsKept I) (cfg : GuestTierConfig) where
  extend_from-Preserves : (id : ℕ) (body : Option String) → Preserves I (extend_from cfg id body)
  extend_from-Preserves id none = search preserves_rules
  extend_from-Preserves id (some guest) =
      search (preserves_rules, respond-Preserves, extend_guest_session-Preserves kept cfg) depth 8

  pub handle_extend_session-Preserves :
      (raw : String) (body : Option String) → Preserves I (handle_extend_session cfg raw body)
  unfolding handle_extend_session
  handle_extend_session-Preserves raw body =
      search (resolve_room_id-Preserves, extend_from-Preserves)

module _ {I : Db → Type 0} (lk : LiveKitService) (remote : IsRemote lk)
    (cfg : GuestTierConfig) where
  pub handle_issue_guest_token-Preserves :
      (raw guest name is_host : String)
      → Preserves I (handle_issue_guest_token lk cfg raw guest name is_host)
  unfolding handle_issue_guest_token
  handle_issue_guest_token-Preserves raw guest name is_host =
      search
        (
          preserves_rules,
          resolve_room_id-Preserves,
          respond-Preserves,
          issue_guest_token-Preserves lk remote cfg,
        )
        depth 8

  module _ (kept : IsKept I) where
    create_from-Preserves :
        (random : Option (List ℕ)) (body : Option CreateRoomBody)
        → Preserves I (create_from lk cfg random body)
    create_from-Preserves random none = search preserves_rules
    create_from-Preserves random (some body) =
        search (preserves_rules, respond-Preserves, create_guest_room-Preserves kept lk remote cfg)
          depth 8

    pub handle_create_room-Preserves :
        (random : Option (List ℕ)) (body : Option CreateRoomBody)
        → Preserves I (handle_create_room lk cfg random body)
    unfolding handle_create_room
    handle_create_room-Preserves random body = create_from-Preserves random body
