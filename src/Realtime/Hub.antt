-- ===== src/Realtime/Hub.antt =====
-- internals/realtime/hub.go and client.go. A client stands for a connection of a user; the channel of a
-- client is found by its key, as its address is in the code. The map of the hub, from users to sets of
-- clients, is the list of its clients: a user with no client has no entry in the code either.
use gotel_reserves.Base.{
  ℕ, String, Bool, true, false, not, List, [], ◌∷◌, ◌++◌, ◌||◌, ◌==◌, nat_eq, if◌then◌else◌, ltb,
  length, select, exists,
}
use gotel_reserves.Conversations.Messages.{Message}

pub data EventType : Type 0 where
  current_users user_online user_offline new_private message delivered read typing error heartbeat
        shutdown :
      EventType

-- The payloads that the code sends; a user stands for the map that `User.ToMap` makes of it.
pub data EventPayload : Type 0 where
  about_nothing about_shutdown : EventPayload
  about_user : ℕ → EventPayload
  about_users : List ℕ → EventPayload
  about_message : Message → EventPayload
  -- the message, and to whom it was delivered
  about_delivery : ℕ → ℕ → EventPayload
  about_reading : ℕ → EventPayload
  -- the conversation, the user, and whether the user is typing
  about_typing : ℕ → ℕ → Bool → EventPayload
  about_problem : String → EventPayload

pub record HubEvent : Type 0 where
  pub type : EventType
  pub payload : EventPayload

pub record Client : Type 0 where
  pub key : ℕ
  pub user : ℕ

pub record Channel : Type 0 where
  pub buffer : List HubEvent
  pub closed : Bool

-- `panicked` says that something was sent on a closed channel.
pub record Hub : Type 0 where
  pub clients : List Client
  pub channels : ℕ → Channel
  pub panicked : Bool

abbrev pub at_key : ℕ → Channel → (ℕ → Channel) → ℕ → Channel
at_key key channel channels k = if k == key then channel else channels k

abbrev pub buffer_size : ℕ
buffer_size = 512

-- the `select` with a `default`: an event for a full buffer is dropped
abbrev pub offer : HubEvent → Channel → Channel
offer e ch =
    if ltb (length ch.buffer) buffer_size then record ch { buffer = ch.buffer ++ e ∷ [] } else ch

unfoldable pub send_event : HubEvent → ℕ → Hub → Hub
send_event e key h =
    if (h.channels key).closed
    then record h { panicked = true }
    else record h { channels = at_key key (offer e (h.channels key)) h.channels }

unfoldable pub send_all : HubEvent → List Client → Hub → Hub
send_all e [] h = h
send_all e (c ∷ cs) h = send_all e cs (send_event e c.key h)

unfoldable pub broadcast_to_all : HubEvent → Hub → Hub
broadcast_to_all e h = send_all e h.clients h

abbrev pub of_user : ℕ → Client → Bool
of_user user c = c.user == user

unfoldable pub send_event_to_user_ids : List ℕ → HubEvent → Hub → Hub
send_event_to_user_ids [] e h = h
send_event_to_user_ids (u ∷ us) e h =
    send_event_to_user_ids us e (send_all e (select (of_user u) h.clients) h)

abbrev pub same_client : Client → Client → Bool
same_client c d = d.key == c.key

abbrev presence : EventType → Client → HubEvent
presence type c = record { type = type; payload = about_user c.user }

abbrev pub added : Client → List Client → List Client
added c cs = if exists (same_client c) cs then cs else cs ++ c ∷ []

-- Of the first connection of a user all clients hear. What the goroutine does to the messages is in
-- Realtime/Arrival.antt.
unfoldable pub register_client_connection : Client → Hub → Hub
register_client_connection c h =
    let h' = record h { clients = added c h.clients } in
    if length (select (of_user c.user) h'.clients) == 1
    then broadcast_to_all (presence user_online c) h'
    else h'

unfoldable pub unregister_client_connection : Client → Hub → Hub
unregister_client_connection c h =
    let h' = record h { clients = select (λ d. not (same_client c d)) h.clients } in
    if not (exists (of_user c.user) h.clients)
    then h
    else if exists (of_user c.user) h'.clients
    then h'
    else broadcast_to_all (presence user_offline c) h'

-- A send without a `select`: it waits for room in the buffer, which the client's `writePump` makes.
unfoldable pub send_waiting : HubEvent → ℕ → Hub → Hub
send_waiting e key h =
    let ch = h.channels key in
    if ch.closed
    then record h { panicked = true }
    else record h { channels = at_key key (record ch { buffer = ch.buffer ++ e ∷ [] }) h.channels }

-- the users of these clients but one, each once
abbrev pub others_online : ℕ → List Client → List ℕ
others_online user [] = []
others_online user (c ∷ cs) =
    let rest = others_online user cs in
    if c.user == user || exists (of_user c.user) cs then rest else c.user ∷ rest

unfoldable pub sent_current_clients : Client → Hub → Hub
unfolding send_waiting
sent_current_clients c h =
    send_waiting
      (record { type = current_users; payload = about_users (others_online c.user h.clients) })
      c.key h

unfoldable pub send_error : ℕ → String → Hub → Hub
send_error user text h =
    send_all (record { type = error; payload = about_problem text })
      (select (of_user user) h.clients) h

-- NewClient
abbrev pub new_client : Client → Hub → Hub
new_client c h = record h {
  channels = at_key c.key (record { buffer = []; closed = false }) h.channels;
}

-- `once`: closing a closed client does nothing
unfoldable pub close : ℕ → Hub → Hub
close key h = record h {
  channels = at_key key (record (h.channels key) { closed = true }) h.channels;
}

abbrev pub shutdown_event : HubEvent
shutdown_event = record { type = shutdown; payload = about_shutdown }

unfoldable pub close_all : List Client → Hub → Hub
close_all [] h = h
close_all (c ∷ cs) h = close_all cs (close c.key (send_event (shutdown_event) c.key h))

unfoldable pub shut_down : Hub → Hub
shut_down h = record (close_all h.clients h) { clients = [] }

-- A tick of the loop `heartbeat` of internals/routes/websocket.go whose ping is answered.
unfoldable pub send_heartbeat : Client → Hub → Hub
unfolding send_waiting
send_heartbeat c h = send_waiting (record { type = heartbeat; payload = about_nothing }) c.key h

-- What happens to the hub, with the calls of internals/routes/websocket.go: a connection is made and
-- registered, it is greeted with who is there, its heart beats, and when it ends it is unregistered and
-- then closed. Between these steps anything else may happen.
pub data Happening : Type 0 where
  connect greet beat disconnect : Client → Happening
  broadcast : HubEvent → Happening
  send_to : List ℕ → HubEvent → Happening
  complain : ℕ → String → Happening
  stop : Happening

unfoldable pub happen : Happening → Hub → Hub
happen (connect c) h = register_client_connection c (new_client c h)
happen (greet c) h = sent_current_clients c h
happen (beat c) h = send_heartbeat c h
happen (disconnect c) h = close c.key (unregister_client_connection c h)
happen (broadcast e) h = broadcast_to_all e h
happen (send_to us e) h = send_event_to_user_ids us e h
happen (complain user text) h = send_error user text h
happen stop h = shut_down h

unfoldable pub happen_all : List Happening → Hub → Hub
happen_all [] h = h
happen_all (x ∷ xs) h = happen_all xs (happen x h)
