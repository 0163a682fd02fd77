-- ===== src/Realtime/Tests.antt =====
-- Runs of internals/realtime on a hub of three connections.
use gotel_reserves.Base.{
  exists, select, not, ℕ, ◌≡◌, refl, String, Bool, true, false, some, none, string_eq, List, [],
  ◌∷◌, length, if◌then◌else◌, ◌==◌, nat_eq,
}
use gotel_reserves.Realtime.Hub.{
  HubEvent, Client, Hub, Happening, connect, greet, beat, disconnect, broadcast, send_to, stop,
  message, about_nothing, sent_current_clients, send_heartbeat, happen, happen_all,
  register_client_connection, unregister_client_connection, broadcast_to_all,
  send_event_to_user_ids, send_all, send_event, close, close_all, shut_down,
}
use gotel_reserves.Conversations.Messages.{Message}
use gotel_reserves.Realtime.Payloads.{Fields, whole, text, boolean}
use gotel_reserves.Realtime.Incoming.{IncomingEvent, ChatState, handle_incoming_events}
use gotel_reserves.Realtime.Marks.{Kept}
use gotel_reserves.Realtime.Honesty.{handle_incoming_safe}
use gotel_reserves.Conversations.Messages.{is_incoming, in_one_of}
use gotel_reserves.Realtime.Arrival.{register_client, register_client-delivers}

abbrev empty_hub : Hub
empty_hub = record {
  clients = [];
  channels = λ k. record { buffer = []; closed = false };
  panicked = false;
}

abbrev user_of : ℕ → ℕ
user_of k = if k == 2 then 8 else 7

abbrev phone : Client
phone = record { key = 0; user = 7 }

abbrev laptop : Client
laptop = record { key = 1; user = 7 }

abbrev other : Client
other = record { key = 2; user = 8 }

abbrev note : HubEvent
note = record { type = message; payload = about_nothing }

abbrev story : List Happening
story =
    connect phone
    ∷ connect other
    ∷ greet phone
    ∷ connect laptop
    ∷ greet other
    ∷ send_to (8 ∷ []) note
    ∷ beat other
    ∷ disconnect phone
    ∷ disconnect laptop
    ∷ broadcast note
    ∷ stop
    ∷ disconnect other
    ∷ []

-- online for itself, the users, the message, the heartbeat, offline, the message, the shutdown
seven_events : length ((happen_all story empty_hub).channels 2).buffer ≡ 7
unfolding happen_all happen register_client_connection unregister_client_connection broadcast_to_all
    sent_current_clients send_heartbeat send_event_to_user_ids send_all send_event close close_all
    shut_down
seven_events = refl

abbrev hello : Message
hello = record {
  id = 3;
  from_id = 8;
  private_id = 5;
  message_type = "text";
  content = "hello";
  gif_url = "";
  delivered = false;
  read = false;
  created_at = 40;
}

abbrev one_message : ChatState
one_message = record {
  hub = happen_all (connect phone ∷ connect other ∷ []) empty_hub;
  db = record {
    next_id = 9;
    privates = record { id = 5; user1_id = 8; user2_id = 9; created_at = 0 } ∷ [];
    messages = hello ∷ [];
  };
  faults = [];
}

abbrev reading_it : IncomingEvent
reading_it = record {
  event_type = "read";
  payload = some (λ k. if k == "message_id" then some (whole 3) else none);
}

abbrev any_text : String → Bool
any_text s = true

-- The user 7 is not of that conversation, and its mark stays all the same.
handle_incoming_safe_example :
    let d' = (handle_incoming_events any_text 7 60 reading_it one_message).db in
    Kept 7 (hello ∷ []) d'.messages × (d'.privates ≡ one_message.db.privates)
handle_incoming_safe_example = handle_incoming_safe any_text 7 60 reading_it one_message (refl, tt)

-- The client claims that the message is of the user 9 and that it was read.
abbrev reply_fields : Fields
reply_fields k =
    if k == "private_id"
    then some (whole 5)
    else if k == "receiver_id"
    then some (whole 8)
    else if k == "message_type"
    then some (text "text")
    else if k == "content"
    then some (text "hi")
    else if k == "gif_url"
    then some (text "")
    else if k == "delivered"
    then some (boolean false)
    else if k == "read"
    then some (boolean true)
    else if k == "from_id"
    then some (whole 9)
    else none

abbrev reply : IncomingEvent
reply = record { event_type = "message"; payload = some reply_fields }

abbrev posted : Message
posted = record {
  id = 9;
  from_id = 7;
  private_id = 5;
  message_type = "text";
  content = "hi";
  gif_url = "";
  delivered = false;
  read = true;
  created_at = 60;
}

-- The user 9 comes online, to whom the message is.
abbrev receiver : Client
receiver = record { key = 3; user = 9 }

register_client-delivers_example :
    let s' = register_client receiver one_message in
    (s'.hub ≡ register_client_connection receiver one_message.hub)
    × (exists (is_incoming s'.db.privates 9) s'.db.messages ≡ false)
    × (select (λ m. m.from_id == 9) s'.db.messages
        ≡ select (λ m. m.from_id == 9) one_message.db.messages)
    × (select (λ m. not (in_one_of one_message.db.privates 9 m)) s'.db.messages
        ≡ select (λ m. not (in_one_of one_message.db.privates 9 m)) one_message.db.messages)
unfolding happen_all happen register_client_connection broadcast_to_all send_all send_event
register_client-delivers_example = register_client-delivers receiver one_message refl refl refl

it_was_undelivered : exists (is_incoming one_message.db.privates 9) one_message.db.messages ≡ true
it_was_undelivered = refl
