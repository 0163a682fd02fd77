-- ===== src/Realtime/Incoming.antt =====
-- `handleIncomingEvents` of internals/routes/websocket.go: what a client sends over its connection. The
-- state is the hub and the tables of the conversations; `faults` says which statements are lost.
use Prim.Native.String
use gotel_reserves.Base.{
  ℕ, String, Bool, true, false, Option, none, some, List, [], ◌∷◌, ◌==◌, nat_eq, string_eq,
  if◌then◌else◌,
}
use gotel_reserves.Backend.Exec.{next_fault}
use gotel_reserves.Conversations.Messages.{
  Message, ChatDb, insert_message, get_message_by_id, mark_message_as_delivered,
  mark_message_as_read,
}
use gotel_reserves.Realtime.Payloads.{
  Fields, Checked, accepted, refused, extract_int64, read_message, read_typing,
}
use gotel_reserves.Realtime.Hub.{
  HubEvent, Hub, EventType, about_message, about_delivery, about_reading, about_typing,
  send_event_to_user_ids, send_error,
}

pub record IncomingEvent : Type 0 where
  pub event_type : String
  pub payload : Option Fields

pub record ChatState : Type 0 where
  pub hub : Hub
  pub db : ChatDb
  pub faults : List Bool

-- A statement that is lost has no answer.
module _ {A : Type 0} where
  abbrev pub stored : ChatState → A × ChatDb → Option A × ChatState
  stored s (a, d) = (some a, record s { db = d })

  abbrev pub asked : Bool → (ChatDb → A × ChatDb) → ChatState → Option A × ChatState
  asked true f s = (none, s)
  asked false f s = stored s (f s.db)

  unfoldable pub ask : (ChatDb → A × ChatDb) → ChatState → Option A × ChatState
  ask f s = let (lost, rest) = next_fault s.faults in asked lost f (record s { faults = rest })

abbrev pub complain : ℕ → String → ChatState → ChatState
complain user message s = record s { hub = send_error user message s.hub }

abbrev pub tell : List ℕ → HubEvent → ChatState → ChatState
tell users e s = record s { hub = send_event_to_user_ids users e s.hub }

abbrev pub on_number : ℕ → ℕ → Message → ℕ → ChatState → ChatState
on_number user receiver m id s =
    if id == 0
    then complain user "message ID was not populated from database" s
    else tell (user ∷ receiver ∷ [])
        (record { type = EventType.message; payload = about_message (record m { id = id }) }) s

abbrev pub on_inserted : ℕ → ℕ → Message → Option (Option ℕ) × ChatState → ChatState
on_inserted user receiver m (some (some id), s) = on_number user receiver m id s
on_inserted user receiver m (_, s) = complain user "failed to save message" s

abbrev pub on_message : ℕ → ℕ → Checked (Message × ℕ) → ChatState → ChatState
on_message user t (refused message) s = complain user message s
on_message user t (accepted (m, receiver)) s =
    on_inserted user receiver m (ask (insert_message m t) s)

-- What delivered and read events have in common: how they mark, and what they say.
pub record Marking : Type 0 where
  pub mark : ℕ → ChatDb → ChatDb
  pub own : String
  pub failed : String
  pub event : ℕ → HubEvent

abbrev pub delivering : ℕ → Marking
delivering user = record {
  mark = mark_message_as_delivered;
  own = "cannot mark own message as delivered";
  failed = "failed to mark message as delivered";
  event = λ id. record { type = EventType.delivered; payload = about_delivery id user };
}

abbrev pub reading : Marking
reading = record {
  mark = mark_message_as_read;
  own = "cannot mark own message as read";
  failed = "failed to mark message as read";
  event = λ id. record { type = EventType.read; payload = about_reading id };
}

abbrev pub on_marked : ℕ → Marking → ℕ → Message → Option (Unit {0}) × ChatState → ChatState
on_marked user k id m (none, s) = complain user k.failed s
on_marked user k id m (some _, s) = tell (m.from_id ∷ []) (k.event id) s

abbrev pub on_looked_up : ℕ → Marking → ℕ → Option (Option Message) × ChatState → ChatState
on_looked_up user k id (some (some m), s) =
    if m.from_id == user
    then complain user k.own s
    else on_marked user k id m (ask (λ d. (tt, k.mark id d)) s)
on_looked_up user k id (_, s) = complain user "message not found" s

abbrev pub on_marking : ℕ → Marking → Checked ℕ → ChatState → ChatState
on_marking user k (refused message) s = complain user message s
on_marking user k (accepted id) s =
    on_looked_up user k id (ask (λ d. (get_message_by_id id d, d)) s)

abbrev pub on_typing : ℕ → Checked (ℕ × ℕ × Bool) → ChatState → ChatState
on_typing user (refused message) s = complain user message s
on_typing user (accepted (private_id, receiver_id, is_typing)) s =
    tell (receiver_id ∷ [])
      (record { type = EventType.typing; payload = about_typing private_id user is_typing }) s

abbrev pub on_fields : (String → Bool) → ℕ → ℕ → String → Option Fields → ChatState → ChatState
on_fields is_time user t type none s = complain user "invalid event payload format" s
on_fields is_time user t type (some fields) s =
    if type == "message"
    then on_message user t (read_message is_time user t fields) s
    else if type == "delivered"
    then on_marking user (delivering user)
        (extract_int64 fields "message_id" "message_id is missing or not a number") s
    else if type == "read"
    then on_marking user reading
        (extract_int64 fields "message_id" "message_id is missing or not a number") s
    else if type == "typing"
    then on_typing user (read_typing fields) s
    else complain user (String.◌++◌ "unknown event type: " type) s

-- `user` is that of the client, `t` the moment.
unfoldable pub handle_incoming_events :
    (String → Bool) → ℕ → ℕ → IncomingEvent → ChatState → ChatState
handle_incoming_events is_time user t e s = on_fields is_time user t e.event_type e.payload s
