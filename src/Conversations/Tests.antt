-- ===== src/Conversations/Tests.antt =====
-- A conversation of four messages.
use gotel_reserves.Base.{ℕ, List, some, ◌≡◌, refl, false, [], ◌∷◌, ◌++◌, nat_eq, map, newest_first}
use gotel_reserves.Backend.Rows.{UserRow}
use gotel_reserves.Accounts.Users.{new_user}
use gotel_reserves.Conversations.Messages.{
  Message, Private, ChatDb, history, hydrate_gif_url, get_messages_by_private_id, get_page,
}
use gotel_reserves.Conversations.Private.{
  PrivateView, found, get_private_by_id, create_private, get_private_by_users, without_names,
}
use gotel_reserves.Conversations.Pairs.{create_private_once}
use gotel_reserves.Conversations.Paging.{from_page, get_page-skips}

abbrev note : ℕ → Message
note n = record {
  id = n;
  from_id = 1;
  private_id = 5;
  message_type = "text";
  content = "hi";
  gif_url = "";
  delivered = false;
  read = false;
  created_at = n;
}

abbrev chat : ChatDb
chat = record {
  next_id = 9;
  privates = record { id = 5; user1_id = 1; user2_id = 2; created_at = 0 } ∷ [];
  messages = note 1 ∷ note 2 ∷ note 3 ∷ note 4 ∷ [];
}

get_page-skips_example :
    (m : Message) × (from_page 5 1 1 chat
      ≡ (get_page 5 1 1 chat).messages ++ m ∷ from_page 5 2 1 chat)
unfolding get_page get_messages_by_private_id history hydrate_gif_url newest_first
get_page-skips_example = get_page-skips 5 0 1 chat refl

-- The pages of one message each show the newest and the third newest.
two_pages :
    map (λ (m : Message). m.id) ((get_page 5 1 1 chat).messages ++ (get_page 5 2 1 chat).messages)
    ≡ 4 ∷ 2 ∷ []
unfolding get_page get_messages_by_private_id history hydrate_gif_url newest_first
two_pages = refl

abbrev people : List UserRow
people = new_user 1 "Ann" "" "" 0 ∷ new_user 2 "Bob" "" "" 0 ∷ new_user 3 "Cem" "" "" 0 ∷ []

abbrev ann_and_cem : PrivateView
ann_and_cem = record {
  id = 9;
  user1 = 1;
  user2 = 3;
  user1_name = "Ann";
  user2_name = "Cem";
  created_at = 50;
}

abbrev chat_of_three : ChatDb
chat_of_three = (create_private people 50 3 1 chat).1

created : create_private people 50 3 1 chat ≡ (found ann_and_cem, chat_of_three)
unfolding create_private get_private_by_users get_private_by_id
created = refl

create_private_once_example :
    (row : Private) × (get_private_by_users 3 1 chat_of_three ≡ some row)
    × (row.id ≡ 9)
    × (create_private people 60 3 1 chat_of_three ≡ (found (without_names row), chat_of_three))
    × (create_private people 60 1 3 chat_of_three ≡ (found (without_names row), chat_of_three))
create_private_once_example =
    create_private_once people ann_and_cem 50 3 1 chat chat_of_three 60 created
