-- ===== src/Conversations/Messages.antt =====
-- internals/models/message.go, and `HandleGetPrivateMessages` of internals/handlers/convo.go. The
-- statements are functions of the two tables; a statement that is lost changes nothing and is answered
-- with 500.
use gotel_reserves.Base.{
  newest_first, leb, select, ℕ, ◌+◌, ◌-◌, ◌*◌, String, Bool, true, not, ◌&&◌, ◌||◌, Option, none,
  some, List, [], ◌∷◌, ◌++◌, ◌==◌, nat_eq, string_eq, if◌then◌else◌, ltb, leb, length, take, drop,
  select, exists, find, update_where, map, parse_positive,
}

-- a row of the table `privates`
pub record Private : Type 0 where
  pub id : ℕ
  pub user1_id : ℕ
  pub user2_id : ℕ
  pub created_at : ℕ

pub record Message : Type 0 where
  pub id : ℕ
  pub from_id : ℕ
  pub private_id : ℕ
  pub message_type : String
  pub content : String
  pub gif_url : String
  pub delivered : Bool
  pub read : Bool
  pub created_at : ℕ

pub record ChatDb : Type 0 where
  pub next_id : ℕ
  pub privates : List Private
  pub messages : List Message

unfoldable pub hydrate_gif_url : Message → Message
hydrate_gif_url m = if m.message_type == "gif" then record m { gif_url = m.content } else m

-- The identifier and the moment are those of the new row.
unfoldable pub create_message : Message → ℕ → ChatDb → ChatDb
create_message m t d = record d {
  messages = d.messages ++ record m { id = d.next_id; created_at = t; gif_url = "" } ∷ [];
  next_id = d.next_id + 1;
}

-- The foreign key: the statement is refused for a conversation that is not there. The sender is a user,
-- as its connection shows. The result is the number of the row, where `CreateMessage` returns no error.
abbrev pub numbered : ℕ → Option ℕ
numbered id = if id == 0 then none else some id

abbrev pub has_private_id : ℕ → Private → Bool
has_private_id id p = p.id == id

unfoldable pub insert_message : Message → ℕ → ChatDb → Option ℕ × ChatDb
insert_message m t d =
    if exists (has_private_id m.private_id) d.privates
    then (numbered d.next_id, create_message m t d)
    else (none, d)

abbrev pub has_message_id : ℕ → Message → Bool
has_message_id id m = m.id == id

abbrev pub hydrated : Option Message → Option Message
hydrated none = none
hydrated (some m) = some (hydrate_gif_url m)

unfoldable pub get_message_by_id : ℕ → ChatDb → Option Message
get_message_by_id id d = hydrated (find (has_message_id id) d.messages)

abbrev pub mark_read : Message → Message
mark_read m = record m { read = true }

unfoldable pub mark_message_as_read : ℕ → ChatDb → ChatDb
mark_message_as_read id d = record d {
  messages = update_where (has_message_id id) mark_read d.messages;
}

-- The messages of a conversation, ORDER BY created_at DESC; rows of one moment stay in the order of the
-- table.
unfoldable pub history : ℕ → ChatDb → List Message
history id d = map hydrate_gif_url (
    newest_first (λ (m : Message). m.created_at)
      (select (λ (m : Message). m.private_id == id) d.messages))

-- LIMIT and OFFSET
unfoldable pub get_messages_by_private_id : ℕ → ℕ → ℕ → ChatDb → List Message
get_messages_by_private_id id page limit d = take limit (drop ((page - 1) * limit) (history id d))

abbrev pub has_user : ℕ → Private → Bool
has_user user p = p.user1_id == user || p.user2_id == user

abbrev pub in_one_of : List Private → ℕ → Message → Bool
in_one_of ps user m = exists (λ (p : Private). p.id == m.private_id && has_user user p) ps

abbrev pub is_incoming : List Private → ℕ → Message → Bool
is_incoming ps user m = not m.delivered && not (m.from_id == user) && in_one_of ps user m

abbrev pub mark_delivered : Message → Message
mark_delivered m = record m { delivered = true }

unfoldable pub mark_message_as_delivered : ℕ → ChatDb → ChatDb
mark_message_as_delivered id d = record d {
  messages = update_where (has_message_id id) mark_delivered d.messages;
}

abbrev undelivered : ℕ → Message → Bool
undelivered id m = m.private_id == id && not m.delivered

unfoldable pub get_undelivered_messages_by_private_id : ℕ → ChatDb → List Message
get_undelivered_messages_by_private_id id d =
    map hydrate_gif_url
      (newest_first (λ (m : Message). m.created_at) (select (undelivered id) d.messages))

unfoldable pub mark_all_incoming_messages_as_delivered : ℕ → ChatDb → ChatDb
mark_all_incoming_messages_as_delivered user d = record d {
  messages = update_where (is_incoming d.privates user) mark_delivered d.messages;
}

pub record MessagesReply : Type 0 where
  pub messages : List Message
  pub page : ℕ
  pub limit : ℕ
  pub has_next_page : Bool

abbrev pub read_number : (ℕ → Bool) → Option ℕ → Option ℕ
read_number allowed none = none
read_number allowed (some n) = if allowed n then some n else none

-- A query parameter that is absent has the default; else it has to be a positive number that is allowed.
unfoldable pub number_or : ℕ → (ℕ → Bool) → String → Option ℕ
number_or default allowed text =
    if text == "" then some default else read_number allowed (parse_positive text)

abbrev pub cut : ℕ → ℕ → List Message → MessagesReply
cut page limit found = record {
  messages = if ltb limit (length found) then take limit found else found;
  page = page;
  limit = limit;
  has_next_page = ltb limit (length found);
}

unfoldable pub get_page : ℕ → ℕ → ℕ → ChatDb → MessagesReply
get_page id page limit d = cut page limit (get_messages_by_private_id id page (limit + 1) d)

abbrev pub max_limit : ℕ
max_limit = 100

abbrev pub answer_page : ℕ → Option ℕ → Option ℕ → ChatDb → Option MessagesReply
answer_page id none limit d = none
answer_page id (some page) none d = none
answer_page id (some page) (some limit) d = some (get_page id page limit d)

-- The first argument is the number in the path, if it is one; a negative number, which no conversation
-- has, counts as 0. `none` stands for the status 400.
unfoldable pub handle_get_private_messages :
    Option ℕ → String → String → ChatDb → Option MessagesReply
handle_get_private_messages none page limit d = none
handle_get_private_messages (some id) page limit d =
    answer_page id (number_or 1 (λ n. true) page) (number_or 20 (λ n. leb n max_limit) limit) d
